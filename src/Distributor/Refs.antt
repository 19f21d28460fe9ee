-- ===== src/Distributor/Refs.antt =====
-- How the number of pointers to an item follows the queues of the workers:
-- lib/shm_ipc/ItemDistributorWorker.hpp.
use flesnet.Base.{
  ℕ, ◌+◌, ◌≡◌, refl, ap, ◌⊎◌, inl, inr, true, false, Option, none, some, List, [], ◌∷◌, ◌++◌, arith,
  ltb, ◌==◌, if◌then◌else◌, some_inj, Bool-cases, map_inv,
}
use flesnet.Distributor.{
  Item, Worker, find_worker, change_worker, remove_worker, insert_worker, count_item, worker_refs,
  remove_item,
}

-- A pointer to `i`, as one to the item with this id.
abbrev pub one : Item → ℕ → ℕ
one i id = if i.id == id then 1 else 0

-- The pointers of one worker.
abbrev pub held_by : ℕ → Worker → ℕ
held_by id w = count_item id w.waiting_items + count_item id w.outstanding_items

pub count_item-append :
    (id : ℕ) (xs ys : List Item) → count_item id (xs ++ ys) ≡ count_item id xs + count_item id ys
unfolding count_item
count_item-append id [] ys = omega arith
count_item-append id (x ∷ xs) ys = omega (arith, count_item-append id xs ys)

-- Whether an entry is the one that is looked for.
find_worker-cons :
    (k j : ℕ) (v : Worker) (ws : List (ℕ × Worker)) (o : Option Worker)
    → find_worker k ((j, v) ∷ ws) ≡ o
    → (((j == k) ≡ true) × (some v ≡ o)) ⊎ (((j == k) ≡ false) × (find_worker k ws ≡ o))
unfolding find_worker
find_worker-cons k j v ws o h = elim (Bool-cases (j == k)) [
  | inl here ↦ inl (here, rw here at h)
  | inr there ↦ inr (there, rw there at h)
]

-- A change of one worker changes its pointers alone.
pub worker_refs-change :
    (id k : ℕ) (f : Worker → Worker) (w : Worker) (ws : List (ℕ × Worker))
    → find_worker k ws ≡ some w
    → worker_refs id (change_worker k f ws) + held_by id w ≡ worker_refs id ws + held_by id (f w)
unfolding worker_refs change_worker find_worker
worker_refs-change id k f w [] h = cc
worker_refs-change id k f w ((j, v) ∷ ws) h = elim (find_worker-cons k j v ws (some w) h) [
  | inl (here, e) ↦ let same : v ≡ w = some_inj e in rw (here, same) (omega arith)
  | inr (there, below) ↦ rw (there) (omega (arith, worker_refs-change id k f w ws below))
]

pub find_worker-change :
    (k : ℕ) (f : Worker → Worker) (w : Worker) (ws : List (ℕ × Worker))
    → find_worker k ws ≡ some w
    → find_worker k (change_worker k f ws) ≡ some (f w)
unfolding change_worker find_worker
find_worker-change k f w [] h = cc
find_worker-change k f w ((j, v) ∷ ws) h = elim (find_worker-cons k j v ws (some w) h) [
  | inl (here, e) ↦
      let same : v ≡ w = some_inj e in rw (here, find_worker, here) (ap (λ x. some (f x)) same)
  | inr (there, below) ↦ rw (there, find_worker, there) (find_worker-change k f w ws below)
]

-- A worker that is not there cannot be changed.
pub change_worker-none :
    (k : ℕ) (f : Worker → Worker) (ws : List (ℕ × Worker))
    → find_worker k ws ≡ none
    → change_worker k f ws ≡ ws
unfolding change_worker find_worker
change_worker-none k f [] h = refl
change_worker-none k f ((j, v) ∷ ws) h = elim (find_worker-cons k j v ws none h) [
  | inl (here, e) ↦ cc
  | inr (there, below) ↦ rw (there) (ap (◌∷◌ (j, v)) (change_worker-none k f ws below))
]

pub worker_refs-remove :
    (id k : ℕ) (w : Worker) (ws : List (ℕ × Worker))
    → find_worker k ws ≡ some w
    → worker_refs id (remove_worker k ws) + held_by id w ≡ worker_refs id ws
unfolding worker_refs remove_worker find_worker
worker_refs-remove id k w [] h = cc
worker_refs-remove id k w ((j, v) ∷ ws) h = elim (find_worker-cons k j v ws (some w) h) [
  | inl (here, e) ↦ let same : v ≡ w = some_inj e in rw (here, same) (omega arith)
  | inr (there, below) ↦ rw (there) (omega (arith, worker_refs-remove id k w ws below))
]

pub worker_refs-insert :
    (id k : ℕ) (w : Worker) (ws : List (ℕ × Worker))
    → worker_refs id (insert_worker k w ws) ≡ worker_refs id ws + held_by id w
unfolding worker_refs insert_worker
worker_refs-insert id k w [] = omega arith
worker_refs-insert id k w ((j, v) ∷ ws) = elim (Bool-cases (ltb k j)) [
  | inl front ↦ rw (front) (omega arith)
  | inr behind ↦ rw (behind) (omega (arith, worker_refs-insert id k w ws))
]

-- An item taken out of a queue.
pub remove_item_lem :
    (id n : ℕ) (is : List Item) (r : Item × List Item)
    → remove_item n is ≡ some r
    → count_item id is ≡ one (r.0) id + count_item id (r.1)
unfolding remove_item count_item
remove_item_lem id n [] r h = cc
remove_item_lem id n (i ∷ is) r h = elim (Bool-cases (i.id == n)) [
  | inl here ↦
      let same : (i, is) ≡ r = some_inj (rw here at h) in
      ap (λ q. one (q.0) id + count_item id (q.1)) same
  | inr there ↦
      let (q, found, same) = map_inv (remove_item n is) (rw there at h) in
      omega
        (arith, remove_item_lem id n is q found, ap (λ x. one (x.0) id + count_item id (x.1)) same)
]
