-- ===== src/Distributor.antt =====
-- lib/shm_ipc/ItemDistributor.cpp and .hpp, ItemDistributorWorker.hpp, ItemWorkerProtocol.hpp: the
-- broker between the producer of work items and the workers. Items are shared objects: the last
-- holder that lets one go completes it, so the state has the holders, the workers and the local
-- variables. ZeroMQ is seen through the messages: what arrives is an argument, what is sent is
-- logged, and `reachable` tells the workers to which a send does not throw. Identities are numbers
-- in the order of the map. A handler that returns `none` meets undefined behaviour: an erase inside
-- a loop over the workers, which then goes on with an iterator that is not valid, or a division by
-- a stride of zero. The times of heartbeats are left out.
pub mod Refs
pub mod Account
pub mod Queues
pub mod Serve
pub mod Events
pub mod Once
pub mod Defined
pub mod Fed
pub mod Waiting
pub mod Offer
pub mod Idle
pub mod Handlers
mod Tests
use mathlib.Core.Option
use flesnet.Base.{
  ℕ, ◌+◌, ◌%◌, Bool, Option, none, some, List, [], ◌∷◌, ◌++◌, map, ltb, ◌==◌, if◌then◌else◌, length,
}

-- `ItemID` and `Item`
pub record Item : Type 0 where
  pub id : ℕ
  pub payload : List ℕ

-- `WorkerQueuePolicy`, read from a number: the enumeration has no check.
pub data QueuePolicy : Type 0 where
  queue_all : QueuePolicy
  prebuffer_one : QueuePolicy
  skip : QueuePolicy
  unknown : ℕ → QueuePolicy

-- `WorkerParameters`, and the two queues of `ItemDistributorWorker`.
pub record Worker : Type 0 where
  pub stride : ℕ
  pub offset : ℕ
  pub queue_policy : QueuePolicy
  pub group_id : ℕ
  pub waiting_items : List Item
  pub outstanding_items : List Item

pub data WorkerMessage : Type 0 where
  work_item : Item → WorkerMessage
  heartbeat : WorkerMessage
  disconnect : WorkerMessage

-- `ItemDistributor`, with the items that local variables hold, and what was sent.
pub record Distributor : Type 0 where
  pub workers : List (ℕ × Worker)
  pub locals : List Item
  pub completed_items : List ℕ
  pub to_workers : List (ℕ × WorkerMessage)
  pub to_generator : List ℕ

-- `id % stride_ == offset_`: `none` is undefined behaviour, the division by a stride of zero.
pub wants : Worker → ℕ → Option Bool
wants w id = if w.stride == 0 then none else some (id % w.stride == w.offset)

pub is_idle : Worker → Bool
is_idle w = length w.outstanding_items == 0

-- `std::map`: lookup, change and removal of an entry, and insertion in order.
pub find_worker : ℕ → List (ℕ × Worker) → Option Worker
find_worker k [] = none
find_worker k ((j, w) ∷ ws) = let rest = find_worker k ws in if j == k then some w else rest

pub change_worker : ℕ → (Worker → Worker) → List (ℕ × Worker) → List (ℕ × Worker)
change_worker k f [] = []
change_worker k f ((j, w) ∷ ws) =
    let rest = change_worker k f ws in if j == k then (j, f w) ∷ ws else (j, w) ∷ rest

pub remove_worker : ℕ → List (ℕ × Worker) → List (ℕ × Worker)
remove_worker k [] = []
remove_worker k ((j, w) ∷ ws) =
    let rest = remove_worker k ws in if j == k then ws else (j, w) ∷ rest

pub insert_worker : ℕ → Worker → List (ℕ × Worker) → List (ℕ × Worker)
insert_worker k v [] = (k, v) ∷ []
insert_worker k v ((j, w) ∷ ws) =
    let rest = insert_worker k v ws in if ltb k j then (k, v) ∷ (j, w) ∷ ws else (j, w) ∷ rest

-- The number of pointers to an item.
pub count_item : ℕ → List Item → ℕ
count_item id [] = 0
count_item id (i ∷ is) = (if i.id == id then 1 else 0) + count_item id is

pub worker_refs : ℕ → List (ℕ × Worker) → ℕ
worker_refs id [] = 0
worker_refs id ((j, w) ∷ ws) =
    count_item id w.waiting_items + count_item id w.outstanding_items + worker_refs id ws

pub refs : ℕ → Distributor → ℕ
refs id d = count_item id d.locals + worker_refs id d.workers

-- A pointer to the item is gone: the destructor of an item without a holder completes it.
pub let_go : Item → Distributor → Distributor
let_go i d =
    if refs i.id d == 0 then record d { completed_items = d.completed_items ++ i.id ∷ [] } else d

-- The first item with this id, and the rest.
pub remove_item : ℕ → List Item → Option (Item × List Item)
remove_item id [] = none
remove_item id (i ∷ is) =
    let rest = Option.map (λ r. (r.0, i ∷ r.1)) (remove_item id is) in
    if i.id == id then some (i, is) else rest

pub set_waiting : ℕ → List Item → Distributor → Distributor
set_waiting k is d = record d {
  workers = change_worker k (λ w. record w { waiting_items = is }) d.workers;
}

pub set_outstanding : ℕ → List Item → Distributor → Distributor
set_outstanding k is d = record d {
  workers = change_worker k (λ w. record w { outstanding_items = is }) d.workers;
}

-- `clear_queue`, and the destruction of a worker: its queues go, the later one first.
pub clear_waiting : ℕ → List Item → Distributor → Distributor
clear_waiting k [] d = d
clear_waiting k (i ∷ is) d = clear_waiting k is (let_go i (set_waiting k is d))

pub clear_outstanding : ℕ → List Item → Distributor → Distributor
clear_outstanding k [] d = d
clear_outstanding k (i ∷ is) d = clear_outstanding k is (let_go i (set_outstanding k is d))

pub erase_worker : ℕ → Worker → Distributor → Distributor
erase_worker k w d =
    let d' = clear_waiting k w.waiting_items (clear_outstanding k w.outstanding_items d) in
    record d' { workers = remove_worker k d'.workers }

-- `workers_.erase(identity)`, where there may be none.
pub erase : ℕ → Distributor → Distributor
erase k d = elim (find_worker k d.workers) [ none ↦ d | some w ↦ erase_worker k w d ]

-- `delete_from_queue`
pub delete_from_queue : ℕ → Worker → ℕ → Distributor → Distributor
delete_from_queue k w id d = elim (remove_item id w.waiting_items) [
  | none ↦ d
  | some r ↦ let_go (r.0) (set_waiting k (r.1) d)
]
