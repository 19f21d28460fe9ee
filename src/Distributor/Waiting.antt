-- ===== src/Distributor/Waiting.antt =====
-- No item waits at an idle worker: what the operations of lib/shm_ipc/ItemDistributorWorker.hpp do
-- to the workers that are fed.
use flesnet.Base.{
  ℕ, ◌<◌, ◌≡◌, sym, ap, ◌∙◌, subst, inl, inr, Bool, true, false, some, List, [], ◌∷◌, ◌++◌, arith,
  ltb, ◌==◌, if◌then◌else◌, some_inj, Bool-cases, Option-cases, length, length-append,
}
use flesnet.Distributor.{
  Item, Worker, Distributor, is_idle, find_worker, insert_worker, let_go, remove_item, set_waiting,
  set_outstanding, clear_waiting, clear_outstanding, erase_worker, erase, delete_from_queue,
}
use flesnet.Distributor.Account.{let_go-workers}
use flesnet.Distributor.Queues.{At}
use flesnet.Distributor.Handlers.{
  identities_but, delete_in_group, add_outstanding, push_queue, drop_locals,
}
use flesnet.Distributor.Fed.{
  Fed, FedEntry, AllFed, OthersFed, AllFed-OthersFed, change-OthersFed, change-AllFed,
  rejoin-AllFed, change_other-OthersFed, change-keeps_AllFed,
}

let_go-OthersFed :
    (k : ℕ) (i : Item) (d : Distributor) → OthersFed k d.workers → OthersFed k (let_go i d).workers
let_go-OthersFed k i d h = subst (OthersFed k) (sym (let_go-workers i d)) h

pub let_go-AllFed : (i : Item) (d : Distributor) → AllFed d.workers → AllFed (let_go i d).workers
let_go-AllFed i d h = subst AllFed (sym (let_go-workers i d)) h

pub drop_locals-AllFed :
    (is : List Item) (d : Distributor) → AllFed d.workers → AllFed (drop_locals is d).workers
unfolding drop_locals
drop_locals-AllFed [] d h = h
drop_locals-AllFed (i ∷ is) d h =
    let d' = record d { locals = is } in drop_locals-AllFed is (let_go i d') (let_go-AllFed i d' h)

pub clear_waiting-OthersFed :
    (k : ℕ) (is : List Item) (d : Distributor)
    → OthersFed k d.workers
    → OthersFed k (clear_waiting k is d).workers
unfolding clear_waiting set_waiting
clear_waiting-OthersFed k [] d h = h
clear_waiting-OthersFed k (i ∷ is) d h =
    let d' = set_waiting k is d in
    clear_waiting-OthersFed k is (let_go i d') (
      let_go-OthersFed k i d'
        (change-OthersFed k (λ w. record w { waiting_items = is }) d.workers h))

clear_outstanding-OthersFed :
    (k : ℕ) (is : List Item) (d : Distributor)
    → OthersFed k d.workers
    → OthersFed k (clear_outstanding k is d).workers
unfolding clear_outstanding set_outstanding
clear_outstanding-OthersFed k [] d h = h
clear_outstanding-OthersFed k (i ∷ is) d h =
    let d' = set_outstanding k is d in
    clear_outstanding-OthersFed k is (let_go i d') (
      let_go-OthersFed k i d'
        (change-OthersFed k (λ w. record w { outstanding_items = is }) d.workers h))

-- All that are left are fed.
pub erase-AllFed : (k : ℕ) (d : Distributor) → OthersFed k d.workers → AllFed (erase k d).workers
unfolding erase erase_worker
erase-AllFed k d h = elim (Option-cases (find_worker k d.workers)) [
  | inl missing ↦ rw (missing, erase) (rejoin-AllFed k d.workers h (λ w e. absurd (cc)))
  | inr (w, at_k) ↦
      rw (at_k, erase)
        (clear_waiting-OthersFed k w.waiting_items (clear_outstanding k w.outstanding_items d)
          (clear_outstanding-OthersFed k w.outstanding_items d h))
]

pub add_outstanding-AllFed :
    (k : ℕ) (i : Item) (d : Distributor)
    → OthersFed k d.workers
    → AllFed (add_outstanding k i d).workers
unfolding add_outstanding Fed
add_outstanding-AllFed k i d h =
    change-AllFed k (λ w. record w { outstanding_items = w.outstanding_items ++ i ∷ [] }) d.workers
      h (λ w e. inr (omega (arith, length-append w.outstanding_items (i ∷ []))))

-- A worker that is busy may get an item to wait.
pub push_queue-AllFed :
    (k : ℕ) (w : Worker) (i : Item) (d : Distributor)
    → At k w d
    → is_idle w ≡ false
    → AllFed d.workers
    → AllFed (push_queue k i d).workers
unfolding push_queue Fed is_idle
push_queue-AllFed k w i d at_k busy h =
    change-AllFed k (λ v. record v { waiting_items = v.waiting_items ++ i ∷ [] }) d.workers
      (AllFed-OthersFed k d.workers h)
      (λ v e.
        let same : v ≡ w = some_inj (sym e ∙ at_k) in
        inr (ground (arith, busy, ap (λ x. length x.outstanding_items) same)))

remove_item-some :
    (id : ℕ) (is : List Item) (r : Item × List Item) → remove_item id is ≡ some r → 0 < length is
unfolding remove_item
remove_item-some id [] r h = cc
remove_item-some id (i ∷ is) r h = omega arith

-- An item deleted from the queue of a worker that is fed.
deleted-Fed :
    (id : ℕ) (w : Worker) (r : Item × List Item)
    → remove_item id w.waiting_items ≡ some r
    → Fed w
    → Fed (record w { waiting_items = r.1 })
unfolding Fed
deleted-Fed id w r h (inl empty) =
    absurd (omega (arith, empty, remove_item-some id w.waiting_items r h))
deleted-Fed id w r h (inr busy) = inr busy

pub delete_from_queue-AllFed :
    (k : ℕ) (w : Worker) (id : ℕ) (d : Distributor)
    → At k w d
    → AllFed d.workers
    → AllFed (delete_from_queue k w id d).workers
unfolding delete_from_queue set_waiting
delete_from_queue-AllFed k w id d at_k h = elim (Option-cases (remove_item id w.waiting_items)) [
  | inl missing ↦ rw (missing, delete_from_queue) h
  | inr (r, found) ↦
      rw (found, delete_from_queue)
        (let_go-AllFed (r.0) (set_waiting k (r.1) d) (
          change-keeps_AllFed k (λ v. record v { waiting_items = r.1 }) d.workers
            (λ v e fed.
              let same : w ≡ v = some_inj (sym at_k ∙ e) in
              subst (λ x. Fed (record x { waiting_items = r.1 })) same
                (deleted-Fed id w r found (subst Fed (sym same) fed)))
            h))
]

delete_from_queue-OthersFed :
    (k j : ℕ) (w : Worker) (id : ℕ) (d : Distributor)
    → (j == k) ≡ false
    → At j w d
    → OthersFed k d.workers
    → OthersFed k (delete_from_queue j w id d).workers
unfolding delete_from_queue set_waiting
delete_from_queue-OthersFed k j w id d ne at_j h =
    elim (Option-cases (remove_item id w.waiting_items)) [
      | inl missing ↦ rw (missing, delete_from_queue) h
      | inr (r, found) ↦
          rw (found, delete_from_queue)
            (let_go-OthersFed k (r.0) (set_waiting j (r.1) d) (
              change_other-OthersFed k j (λ v. record v { waiting_items = r.1 }) d.workers ne
                (λ v e fed.
                  let same : w ≡ v = some_inj (sym at_j ∙ e) in
                  subst (λ x. Fed (record x { waiting_items = r.1 })) same
                    (deleted-Fed id w r found (subst Fed (sym same) fed)))
                h))
    ]

-- A choice between two states.
pub if-kept :
    (P : List (ℕ × Worker) → Type 0) (b : Bool) (x y : Distributor)
    → P x.workers
    → P y.workers
    → P (if b then x else y).workers
if-kept P true x y p q = p
if-kept P false x y p q = q

pub delete_in_group-AllFed :
    (ks : List ℕ) (group n : ℕ) (d : Distributor)
    → AllFed d.workers
    → AllFed (delete_in_group ks group n d).workers
unfolding delete_in_group
delete_in_group-AllFed [] group n d h = h
delete_in_group-AllFed (k ∷ ks) group n d h = elim (Option-cases (find_worker k d.workers)) [
  | inl missing ↦ rw (missing, delete_in_group) (delete_in_group-AllFed ks group n d h)
  | inr (w, at_k) ↦
      let d' = if w.group_id == group then delete_from_queue k w n d else d in
      rw (at_k, delete_in_group)
        (delete_in_group-AllFed ks group n d' (
          if-kept AllFed (w.group_id == group) (delete_from_queue k w n d) d
            (delete_from_queue-AllFed k w n d at_k h) h))
]

pub delete_in_group-OthersFed :
    (k : ℕ) (ids : List ℕ) (group n : ℕ) (d : Distributor)
    → OthersFed k d.workers
    → OthersFed k (delete_in_group (identities_but k ids) group n d).workers
unfolding delete_in_group identities_but
delete_in_group-OthersFed k [] group n d h = h
delete_in_group-OthersFed k (j ∷ ids) group n d h = elim (Bool-cases (j == k)) [
  | inl here ↦ rw (here, identities_but) (delete_in_group-OthersFed k ids group n d h)
  | inr other ↦ elim (Option-cases (find_worker j d.workers)) [
    | inl missing ↦
        rw (other, identities_but)
          (rw (missing, delete_in_group) (delete_in_group-OthersFed k ids group n d h))
    | inr (w, at_j) ↦
        let d' = if w.group_id == group then delete_from_queue j w n d else d in
        rw (other, identities_but)
          (rw (at_j, delete_in_group)
            (delete_in_group-OthersFed k ids group n d' (
              if-kept (OthersFed k) (w.group_id == group) (delete_from_queue j w n d) d
                (delete_from_queue-OthersFed k j w n d other at_j h) h)))
  ]
]

pub insert_worker-AllFed :
    (k : ℕ) (w : Worker) (ws : List (ℕ × Worker))
    → Fed w
    → AllFed ws
    → AllFed (insert_worker k w ws)
unfolding insert_worker FedEntry
insert_worker-AllFed k w [] p h = (p, tt)
insert_worker-AllFed k w ((j, v) ∷ ws) p (q, qs) = elim (Bool-cases (ltb k j)) [
  | inl before ↦ rw (before, insert_worker) (p, (q, qs))
  | inr behind ↦ rw (behind, insert_worker) (q, insert_worker-AllFed k w ws p qs)
]
