-- ===== src/Distributor/Handlers.antt =====
-- lib/shm_ipc/ItemDistributor.cpp (on_generator_pollin, on_worker_pollin) and ItemDistributor.hpp
-- (send_heartbeats, send_pending_completions).
use mathlib.Core.Option
use flesnet.Base.{
  ℕ, Bool, true, false, not, ◌&&◌, ◌||◌, Option, none, some, List, [], ◌∷◌, ◌++◌, ◌==◌,
  if◌then◌else◌,
}
use flesnet.Distributor.{
  Item, QueuePolicy, queue_all, prebuffer_one, skip, unknown, Worker, WorkerMessage, work_item,
  heartbeat, disconnect, Distributor, wants, is_idle, find_worker, change_worker, insert_worker,
  let_go, remove_item, set_waiting, set_outstanding, clear_waiting, erase, delete_from_queue,
}

abbrev pub Reachable : Type 0
Reachable = ℕ → Bool

unfoldable pub is_prebuffer_one : QueuePolicy → Bool
is_prebuffer_one prebuffer_one = true
is_prebuffer_one queue_all = false
is_prebuffer_one skip = false
is_prebuffer_one (unknown n) = false

unfoldable pub is_skip : QueuePolicy → Bool
is_skip skip = true
is_skip queue_all = false
is_skip prebuffer_one = false
is_skip (unknown n) = false

unfoldable pub has_group : ℕ → List ℕ → Bool
has_group g [] = false
has_group g (h ∷ hs) = g == h || has_group g hs

-- `map<…>::iterator`s: the identities, and those in front of one.
unfoldable pub identities : List (ℕ × Worker) → List ℕ
identities [] = []
identities ((k, w) ∷ ws) = k ∷ identities ws

unfoldable pub identities_before : ℕ → List ℕ → List ℕ
identities_before k [] = []
identities_before k (j ∷ js) = let rest = identities_before k js in if j == k then [] else j ∷ rest

unfoldable pub identities_but : ℕ → List ℕ → List ℕ
identities_but k [] = []
identities_but k (j ∷ js) = let rest = identities_but k js in if j == k then rest else j ∷ rest

-- The loops that delete an item from the queues of other workers of a group.
unfoldable pub delete_in_group : List ℕ → ℕ → ℕ → Distributor → Distributor
delete_in_group [] group id d = d
delete_in_group (k ∷ ks) group id d =
    let d' : Distributor = elim (find_worker k d.workers) [
      | none ↦ d
      | some w ↦ if w.group_id == group then delete_from_queue k w id d else d
    ] in
    delete_in_group ks group id d'

unfoldable pub add_outstanding : ℕ → Item → Distributor → Distributor
add_outstanding k i d = record d {
  workers =
      change_worker k (λ w. record w { outstanding_items = w.outstanding_items ++ i ∷ [] })
        d.workers;
}

unfoldable pub push_queue : ℕ → Item → Distributor → Distributor
push_queue k i d = record d {
  workers = change_worker k (λ w. record w { waiting_items = w.waiting_items ++ i ∷ [] }) d.workers;
}

unfoldable pub log_message : ℕ → WorkerMessage → Distributor → Distributor
log_message k m d = record d { to_workers = d.to_workers ++ (k, m) ∷ [] }

-- An idle worker gets the item at once, and its group is served. A worker that cannot be reached is
-- erased inside the loop over the workers: `none`, since the loop goes on from the erased entry.
unfoldable pub send_now :
    Reachable → ℕ → Worker → Item → List ℕ → Distributor → Option (List ℕ × Distributor)
send_now reachable k w i groups d =
    let grouped = not (w.group_id == 0) in
    let groups' = if grouped then w.group_id ∷ groups else groups in
    let d1 =
      if grouped
      then delete_in_group (identities_before k (identities d.workers)) w.group_id i.id d
      else d in
    let d2 = add_outstanding k i d1 in
    if reachable k then some (groups', log_message k (work_item i) d2) else none

-- The item is offered to a worker, which may want it.
unfoldable pub offer :
    Reachable → ℕ → Worker → Item → List ℕ → Distributor → Bool → Option (List ℕ × Distributor)
offer reachable k w i groups d false = some (groups, d)
offer reachable k w i groups d true =
    let d1 = if is_prebuffer_one w.queue_policy then clear_waiting k w.waiting_items d else d in
    if is_idle w
    then send_now reachable k w i groups d1
    else some (groups, if is_skip w.queue_policy then d1 else push_queue k i d1)

-- One round of the loop of `on_generator_pollin`.
unfoldable pub serve :
    Reachable → ℕ → Worker → Item → List ℕ → Distributor → Option (List ℕ × Distributor)
serve reachable k w i groups d =
    if not (w.group_id == 0) && has_group w.group_id groups
    then some (groups, d)
    else Option.bind (wants w i.id) (offer reachable k w i groups d)

-- The loop: `none` is undefined behaviour in one of its rounds.
unfoldable pub serve_all : Reachable → List ℕ → Item → List ℕ → Distributor → Option Distributor
serve_all reachable [] i groups d = some d
serve_all reachable (k ∷ ks) i groups d =
    let round : Option (List ℕ × Distributor) = elim (find_worker k d.workers) [
      | none ↦ some (groups, d)
      | some w ↦ serve reachable k w i groups d
    ] in
    Option.bind round (λ r. serve_all reachable ks i (r.0) (r.1))

unfoldable pub send_pending_completions : Distributor → Distributor
send_pending_completions d = record d {
  completed_items = [];
  to_generator = d.to_generator ++ d.completed_items;
}

unfoldable pub drop_locals : List Item → Distributor → Distributor
drop_locals [] d = d
drop_locals (i ∷ is) d = drop_locals is (let_go i (record d { locals = is }))

unfoldable pub on_generator_pollin : Reachable → Item → Distributor → Option Distributor
on_generator_pollin reachable i d =
    let d1 = record d { locals = i ∷ [] } in
    Option.map (λ d2. send_pending_completions (drop_locals (i ∷ []) d2))
      (serve_all reachable (identities d1.workers) i [] d1)

-- The messages of a worker, as the string streams read them: `none` is a failure to read.
pub data WorkerEvent : Type 0 where
  gone : WorkerEvent
  register : Option Worker → WorkerEvent
  completion : Option ℕ → WorkerEvent
  heartbeat_reply : WorkerEvent
  other : WorkerEvent

-- The handler of an exception.
unfoldable pub violation : Reachable → ℕ → Distributor → Distributor
violation reachable k d =
    let d' = if reachable k then log_message k disconnect d else d in erase k d'

-- The next item of the queue is sent, and deleted from the queues of the group.
unfoldable pub send_next : Reachable → ℕ → Worker → List Item → Distributor → Distributor
send_next reachable k w [] d = d
send_next reachable k w (i ∷ is) d =
    let d1 = record (set_waiting k is d) { locals = i ∷ [] } in
    let d2 =
      if w.group_id == 0
      then d1
      else delete_in_group (identities_but k (identities d1.workers)) w.group_id i.id d1 in
    let d3 = add_outstanding k i d2 in
    if reachable k
    then drop_locals (i ∷ []) (log_message k (work_item i) d3)
    else violation reachable k (drop_locals (i ∷ []) d3)

-- `COMPLETE`, for the item named.
unfoldable pub complete_item : Reachable → ℕ → ℕ → Distributor → Distributor
complete_item reachable k id d = elim (find_worker k d.workers) [
  | none ↦ violation reachable k d
  | some w ↦ elim (remove_item id w.outstanding_items) [
    | none ↦ violation reachable k d
    | some r ↦ send_next reachable k w w.waiting_items (let_go (r.0) (set_outstanding k (r.1) d))
  ]
]

unfoldable pub on_worker_event : Reachable → ℕ → WorkerEvent → Distributor → Distributor
on_worker_event reachable k gone d = erase k d
on_worker_event reachable k (register none) d = violation reachable k d
on_worker_event reachable k (register (some w)) d =
    let d' = erase k d in
    record d' {
      workers =
          insert_worker k (record w { waiting_items = []; outstanding_items = [] }) d'.workers;
    }
on_worker_event reachable k (completion none) d = violation reachable k d
on_worker_event reachable k (completion (some id)) d = complete_item reachable k id d
on_worker_event reachable k heartbeat_reply d = d
on_worker_event reachable k other d = violation reachable k d

unfoldable pub on_worker_pollin : Reachable → ℕ → WorkerEvent → Distributor → Distributor
on_worker_pollin reachable k e d = send_pending_completions (on_worker_event reachable k e d)

-- `send_heartbeats`: `due` tells for which workers the time has come. A worker that cannot be
-- reached is erased inside the loop, as above.
unfoldable pub send_heartbeats : Reachable → (ℕ → Bool) → List ℕ → Distributor → Option Distributor
send_heartbeats reachable due [] d = some d
send_heartbeats reachable due (k ∷ ks) d =
    let round : Option Distributor = elim (find_worker k d.workers) [
      | none ↦ some d
      | some w ↦
          if is_idle w && due k
          then if reachable k then some (log_message k heartbeat d) else none
          else some d
    ] in
    Option.bind round (send_heartbeats reachable due ks)
