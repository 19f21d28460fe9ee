-- ===== src/Distributor/Queues.antt =====
-- What the operations on the queues of the workers do to the account of an item:
-- lib/shm_ipc/ItemDistributorWorker.hpp.
use flesnet.Base.{
  ℕ, ◌+◌, ◌≡◌, refl, ap, ◌∙◌, inl, inr, Bool, some, List, [], ◌∷◌, ◌++◌, arith, Option-cases,
}
use flesnet.Distributor.{
  Item, Worker, Distributor, find_worker, change_worker, remove_worker, count_item, refs, let_go,
  remove_item, set_waiting, set_outstanding, clear_waiting, clear_outstanding, erase_worker, erase,
  delete_from_queue,
}
use flesnet.Distributor.Refs.{
  one, held_by, worker_refs-change, find_worker-change, change_worker-none, worker_refs-remove,
  remove_item_lem, count_item-append,
}
use flesnet.Distributor.Handlers.{add_outstanding, push_queue}
use flesnet.Distributor.Account.{
  completions, let_go-workers, Follows, Follows-refl, Follows-trans, same-Follows, drop-Follows,
  gain,
}

-- The worker with this identity.
abbrev pub At : ℕ → Worker → Distributor → Type 0
At k w d = find_worker k d.workers ≡ some w

module _ (given : Bool) (id : ℕ) where
  -- One pointer less in a queue, and let go.
  shorter_waiting :
      (k : ℕ) (w : Worker) (i : Item) (is : List Item) (d : Distributor)
      → At k w d
      → count_item id w.waiting_items ≡ one i id + count_item id is
      → Follows given id d (let_go i (set_waiting k is d))
  unfolding set_waiting refs completions
  shorter_waiting k w i is d at_k e =
      let f = λ (v : Worker). record v { waiting_items = is } in
      drop-Follows given id i d (set_waiting k is d)
        (omega (arith, worker_refs-change id k f w d.workers at_k, e)) refl refl

  shorter_outstanding :
      (k : ℕ) (w : Worker) (i : Item) (is : List Item) (d : Distributor)
      → At k w d
      → count_item id w.outstanding_items ≡ one i id + count_item id is
      → Follows given id d (let_go i (set_outstanding k is d))
  unfolding set_outstanding refs completions
  shorter_outstanding k w i is d at_k e =
      let f = λ (v : Worker). record v { outstanding_items = is } in
      drop-Follows given id i d (set_outstanding k is d)
        (omega (arith, worker_refs-change id k f w d.workers at_k, e)) refl refl

  -- The queues of a worker are cleared, from the front on.
  pub clear_waiting-Follows :
      (k : ℕ) (w : Worker) (is : List Item) (d : Distributor)
      → At k (record w { waiting_items = is }) d
      → Follows given id d (clear_waiting k is d)
        × At k (record w { waiting_items = [] }) (clear_waiting k is d)
  unfolding clear_waiting set_waiting count_item
  clear_waiting-Follows k w [] d at_k = (Follows-refl given id d, at_k)
  clear_waiting-Follows k w (i ∷ is) d at_k =
      let v = record w { waiting_items = i ∷ is } in
      let f = λ (x : Worker). record x { waiting_items = is } in
      let d' = let_go i (set_waiting k is d) in
      let first = shorter_waiting k v i is d at_k refl in
      let moved : At k (record w { waiting_items = is }) d' =
        ap (find_worker k) (let_go-workers i (set_waiting k is d))
        ∙ find_worker-change k f v d.workers at_k in
      let rest = clear_waiting-Follows k w is d' moved in
      (Follows-trans given id d d' (clear_waiting k is d') first rest.0, rest.1)

  clear_outstanding-Follows :
      (k : ℕ) (w : Worker) (is : List Item) (d : Distributor)
      → At k (record w { outstanding_items = is }) d
      → Follows given id d (clear_outstanding k is d)
        × At k (record w { outstanding_items = [] }) (clear_outstanding k is d)
  unfolding clear_outstanding set_outstanding count_item
  clear_outstanding-Follows k w [] d at_k = (Follows-refl given id d, at_k)
  clear_outstanding-Follows k w (i ∷ is) d at_k =
      let v = record w { outstanding_items = i ∷ is } in
      let f = λ (x : Worker). record x { outstanding_items = is } in
      let d' = let_go i (set_outstanding k is d) in
      let first = shorter_outstanding k v i is d at_k refl in
      let moved : At k (record w { outstanding_items = is }) d' =
        ap (find_worker k) (let_go-workers i (set_outstanding k is d))
        ∙ find_worker-change k f v d.workers at_k in
      let rest = clear_outstanding-Follows k w is d' moved in
      (Follows-trans given id d d' (clear_outstanding k is d') first rest.0, rest.1)

  erase_worker-Follows :
      (k : ℕ) (w : Worker) (d : Distributor) → At k w d → Follows given id d (erase_worker k w d)
  unfolding erase_worker refs completions count_item
  erase_worker-Follows k w d at_k =
      let d1 = clear_outstanding k w.outstanding_items d in
      let (first, at1) = clear_outstanding-Follows k w w.outstanding_items d at_k in
      let d2 = clear_waiting k w.waiting_items d1 in
      let empty = record w { outstanding_items = [] } in
      let (second, at2) = clear_waiting-Follows k empty w.waiting_items d1 at1 in
      let none_held = record w { outstanding_items = []; waiting_items = [] } in
      let d3 = record d2 { workers = remove_worker k d2.workers } in
      let third =
        same-Follows given id d2 d3
          (omega (arith, worker_refs-remove id k none_held d2.workers at2)) refl refl in
      Follows-trans given id d d2 d3 (Follows-trans given id d d1 d2 first second) third

  -- A worker is removed, with what its queues hold.
  pub erase-Follows : (k : ℕ) (d : Distributor) → Follows given id d (erase k d)
  unfolding erase
  erase-Follows k d = elim (Option-cases (find_worker k d.workers)) [
    | inl missing ↦ rw (missing, erase) (Follows-refl given id d)
    | inr (w, at_k) ↦ rw (at_k, erase) (erase_worker-Follows k w d at_k)
  ]

  pub delete_from_queue-Follows :
      (k : ℕ) (w : Worker) (n : ℕ) (d : Distributor)
      → At k w d
      → Follows given id d (delete_from_queue k w n d)
  unfolding delete_from_queue
  delete_from_queue-Follows k w n d at_k = elim (Option-cases (remove_item n w.waiting_items)) [
    | inl missing ↦ rw (missing, delete_from_queue) (Follows-refl given id d)
    | inr (r, found) ↦
        rw (found, delete_from_queue)
          (shorter_waiting k w (r.0) (r.1) d at_k (remove_item_lem id n w.waiting_items r found))
  ]

  -- A finished item leaves the outstanding items of its worker.
  pub finish-Follows :
      (k n : ℕ) (w : Worker) (r : Item × List Item) (d : Distributor)
      → At k w d
      → remove_item n w.outstanding_items ≡ some r
      → Follows given id d (let_go (r.0) (set_outstanding k (r.1) d))
  finish-Follows k n w r d at_k found =
      shorter_outstanding k w (r.0) (r.1) d at_k (remove_item_lem id n w.outstanding_items r found)

  -- A worker gets a pointer to an item that a local variable holds.
  more-Follows :
      (k : ℕ) (f : Worker → Worker) (i : Item) (d : Distributor)
      → ((w : Worker) → held_by id (f w) ≡ held_by id w + one i id)
      → d.locals ≡ i ∷ []
      → Follows given id d (record d { workers = change_worker k f d.workers })
  unfolding refs count_item completions
  more-Follows k f i d grows local_i = elim (Option-cases (find_worker k d.workers)) [
    | inl missing ↦
        same-Follows given id d (record d { workers = change_worker k f d.workers })
          (rw (change_worker-none k f d.workers missing) refl) refl refl
    | inr (w, at_k) ↦ record {
      account = λ h.
          let e = worker_refs-change id k f w d.workers at_k in
          let grown = grows w in
          let held = ap (count_item id) local_i in
          let d' = record d { workers = change_worker k f d.workers } in
          let r : refs id d' ≡ refs id d + one i id = omega (arith, e, grown) in
          rw (r) (gain given (refs id d) (one i id) (completions id d) (omega (arith, held)) h);
      same_locals = refl;
    }
  ]

  pub add_outstanding-Follows :
      (k : ℕ) (i : Item) (d : Distributor)
      → d.locals ≡ i ∷ []
      → Follows given id d (add_outstanding k i d)
  unfolding add_outstanding count_item
  add_outstanding-Follows k i d local_i =
      more-Follows k (λ w. record w { outstanding_items = w.outstanding_items ++ i ∷ [] }) i d
        (λ w. omega (arith, count_item-append id w.outstanding_items (i ∷ []))) local_i

  pub push_queue-Follows :
      (k : ℕ) (i : Item) (d : Distributor)
      → d.locals ≡ i ∷ []
      → Follows given id d (push_queue k i d)
  unfolding push_queue count_item
  push_queue-Follows k i d local_i =
      more-Follows k (λ w. record w { waiting_items = w.waiting_items ++ i ∷ [] }) i d
        (λ w. omega (arith, count_item-append id w.waiting_items (i ∷ []))) local_i
