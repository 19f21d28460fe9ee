-- ===== src/Distributor/Events.antt =====
-- What the two handlers do to the account of an item: on_generator_pollin and on_worker_pollin of
-- lib/shm_ipc/ItemDistributor.cpp.
use flesnet.Base.{
  ℕ, ◌≡◌, refl, ap, ◌∙◌, inl, inr, Bool, none, some, List, [], ◌∷◌, arith, ◌==◌, if◌then◌else◌,
  Bool-cases, Option-cases,
}
use flesnet.Distributor.{
  Item, Worker, work_item, Distributor, find_worker, insert_worker, count_item, refs, let_go,
  remove_item, set_waiting, set_outstanding, erase,
}
use flesnet.Distributor.Refs.{worker_refs-insert, worker_refs-change, find_worker-change}
use flesnet.Distributor.Account.{
  completions, Accounted, let_go-workers, Follows, Follows-refl, Follows-trans, same-Follows,
}
use flesnet.Distributor.Queues.{At, erase-Follows, finish-Follows, add_outstanding-Follows}
use flesnet.Distributor.Serve.{
  log_message-Follows, if-Follows, delete_in_group-Follows, drop_local-Accounted,
  send_pending_completions-Follows, violation-Follows,
}
use flesnet.Distributor.Handlers.{
  Reachable, identities, identities_but, delete_in_group, add_outstanding, log_message,
  send_pending_completions, drop_locals, WorkerEvent, gone, register, completion, heartbeat_reply,
  other, violation, send_next, complete_item, on_worker_event, on_worker_pollin,
}

-- Between two handlers no local variable holds an item.
abbrev pub Rests : Bool → ℕ → Distributor → Type 0
Rests given id d = Accounted given id d × (d.locals ≡ [])

-- The other items of the worker stay.
pub finish-At :
    (k : ℕ) (w : Worker) (r : Item × List Item) (d : Distributor)
    → At k w d
    → At k (record w { outstanding_items = r.1 }) (let_go (r.0) (set_outstanding k (r.1) d))
unfolding set_outstanding
finish-At k w r d at_k =
    let f = λ (v : Worker). record v { outstanding_items = r.1 } in
    ap (find_worker k) (let_go-workers (r.0) (set_outstanding k (r.1) d))
    ∙ find_worker-change k f w d.workers at_k

module _ (given : Bool) (id : ℕ) where
  Rests-Follows :
      (d d' : Distributor) → Follows given id d d' → Rests given id d → Rests given id d'
  Rests-Follows d d' f (h, l) = (f.account h, f.same_locals ∙ l)

  -- The pointer to the item moves from the queue to a local variable.
  taken-Accounted :
      (k : ℕ) (w : Worker) (i : Item) (is : List Item) (d : Distributor)
      → At k w d
      → w.waiting_items ≡ i ∷ is
      → Rests given id d
      → Accounted given id (record (set_waiting k is d) { locals = i ∷ [] })
  unfolding set_waiting refs completions count_item
  taken-Accounted k w i is d at_k queue (h, l) =
      let f = λ (v : Worker). record v { waiting_items = is } in
      let d1 = record (set_waiting k is d) { locals = i ∷ [] } in
      let r : refs id d1 ≡ refs id d = omega (
        arith,
        worker_refs-change id k f w d.workers at_k,
        ap (count_item id) queue,
        ap (count_item id) l,
      ) in
      rw (r) h

  send_next-Rests :
      (reachable : Reachable) (k : ℕ) (w v : Worker) (queue : List Item) (d : Distributor)
      → At k v d
      → v.waiting_items ≡ queue
      → Rests given id d
      → Rests given id (send_next reachable k w queue d)
  unfolding send_next
  send_next-Rests reachable k w v [] d at_k e h = h
  send_next-Rests reachable k w v (i ∷ is) d at_k e h =
      let d1 = record (set_waiting k is d) { locals = i ∷ [] } in
      let ks = identities_but k (identities d1.workers) in
      let d2 = if w.group_id == 0 then d1 else delete_in_group ks w.group_id i.id d1 in
      let first =
        if-Follows given id (w.group_id == 0) d1 d1 (delete_in_group ks w.group_id i.id d1)
          (Follows-refl given id d1) (delete_in_group-Follows given id ks w.group_id i.id d1) in
      let d3 = add_outstanding k i d2 in
      let second = add_outstanding-Follows given id k i d2 first.same_locals in
      let h3 = second.account (first.account (taken-Accounted k v i is d at_k e h)) in
      let l3 = second.same_locals ∙ first.same_locals in
      elim (Bool-cases (reachable k)) [
        | inl yes_k ↦
            let sent = log_message-Follows given id k (work_item i) d3 in
            rw (yes_k) (
              drop_local-Accounted given id i (log_message k (work_item i) d3)
                (sent.same_locals ∙ l3) (sent.account h3))
        | inr no_k ↦ rw (no_k) (
            Rests-Follows (drop_locals (i ∷ []) d3)
              (violation reachable k (drop_locals (i ∷ []) d3))
              (violation-Follows given id reachable k (drop_locals (i ∷ []) d3))
              (drop_local-Accounted given id i d3 l3 h3))
      ]

  complete_item-Rests :
      (reachable : Reachable) (k n : ℕ) (d : Distributor)
      → Rests given id d
      → Rests given id (complete_item reachable k n d)
  unfolding complete_item
  complete_item-Rests reachable k n d h = elim (Option-cases (find_worker k d.workers)) [
    | inl missing ↦
        rw (missing, complete_item)
          (Rests-Follows d (violation reachable k d) (violation-Follows given id reachable k d) h)
    | inr (w, at_k) ↦ elim (Option-cases (remove_item n w.outstanding_items)) [
      | inl unknown_item ↦
          rw (at_k, complete_item, unknown_item)
            (Rests-Follows d (violation reachable k d) (violation-Follows given id reachable k d) h)
      | inr (r, found) ↦
          let d' = let_go (r.0) (set_outstanding k (r.1) d) in
          let v = record w { outstanding_items = r.1 } in
          rw (at_k, complete_item, found)
            (send_next-Rests reachable k w v w.waiting_items d' (finish-At k w r d at_k) refl
              (Rests-Follows d d' (finish-Follows given id k n w r d at_k found) h))
    ]
  ]

  insert-Follows :
      (k : ℕ) (w : Worker) (d : Distributor)
      → Follows given id d (record d {
        workers =
            insert_worker k (record w { waiting_items = []; outstanding_items = [] }) d.workers;
      })
  unfolding refs completions count_item
  insert-Follows k w d =
      let fresh = record w { waiting_items = []; outstanding_items = [] } in
      same-Follows given id d (record d { workers = insert_worker k fresh d.workers })
        (omega (arith, worker_refs-insert id k fresh d.workers)) refl refl

  on_worker_event-Rests :
      (reachable : Reachable) (k : ℕ) (e : WorkerEvent) (d : Distributor)
      → Rests given id d
      → Rests given id (on_worker_event reachable k e d)
  unfolding on_worker_event
  on_worker_event-Rests reachable k gone d h =
      Rests-Follows d (erase k d) (erase-Follows given id k d) h
  on_worker_event-Rests reachable k (register none) d h =
      Rests-Follows d (violation reachable k d) (violation-Follows given id reachable k d) h
  on_worker_event-Rests reachable k (register (some w)) d h =
      let d' = erase k d in
      let fresh = record w { waiting_items = []; outstanding_items = [] } in
      Rests-Follows d (record d' { workers = insert_worker k fresh d'.workers })
        (Follows-trans given id d d' (record d' { workers = insert_worker k fresh d'.workers })
          (erase-Follows given id k d) (insert-Follows k w d'))
        h
  on_worker_event-Rests reachable k (completion none) d h =
      Rests-Follows d (violation reachable k d) (violation-Follows given id reachable k d) h
  on_worker_event-Rests reachable k (completion (some n)) d h =
      complete_item-Rests reachable k n d h
  on_worker_event-Rests reachable k heartbeat_reply d h = h
  on_worker_event-Rests reachable k other d h =
      Rests-Follows d (violation reachable k d) (violation-Follows given id reachable k d) h

  pub on_worker_pollin-Rests :
      (reachable : Reachable) (k : ℕ) (e : WorkerEvent) (d : Distributor)
      → Rests given id d
      → Rests given id (on_worker_pollin reachable k e d)
  unfolding on_worker_pollin
  on_worker_pollin-Rests reachable k e d h =
      let d' = on_worker_event reachable k e d in
      Rests-Follows d' (send_pending_completions d') (send_pending_completions-Follows given id d')
        (on_worker_event-Rests reachable k e d h)
