-- ===== src/Distributor/Idle.antt =====
-- No item waits at an idle worker, over any history: the handlers of lib/shm_ipc/ItemDistributor.cpp.
use flesnet.Base.{
  ℕ, ◌≡◌, refl, sym, ap, ◌∙◌, subst, inl, inr, true, none, some, List, [], ◌∷◌, arith, ◌==◌,
  if◌then◌else◌, some_inj, Option-cases, length, map_inv,
}
use flesnet.Distributor.{
  Item, Worker, work_item, disconnect, Distributor, is_idle, find_worker, let_go, remove_item,
  set_waiting, set_outstanding, erase,
}
use flesnet.Distributor.Account.{let_go-workers}
use flesnet.Distributor.Queues.{At}
use flesnet.Distributor.Events.{finish-At}
use flesnet.Distributor.Once.{start, History}
use flesnet.Distributor.Handlers.{
  Reachable, identities, identities_but, delete_in_group, add_outstanding, log_message, serve_all,
  send_pending_completions, drop_locals, on_generator_pollin, WorkerEvent, gone, register,
  completion, heartbeat_reply, other, violation, send_next, complete_item, on_worker_event,
  on_worker_pollin,
}
use flesnet.Distributor.Fed.{
  Fed, AllFed, OthersFed, AllFed-OthersFed, change-OthersFed, rejoin-AllFed, find_worker-Fed,
}
use flesnet.Distributor.Waiting.{
  drop_locals-AllFed, erase-AllFed, add_outstanding-AllFed, if-kept, delete_in_group-OthersFed,
  insert_worker-AllFed,
}
use flesnet.Distributor.Offer.{serve_all-AllFed, send_heartbeats-workers}

module _ (reachable : Reachable) where
  violation-AllFed :
      (k : ℕ) (d : Distributor) → OthersFed k d.workers → AllFed (violation reachable k d).workers
  unfolding violation log_message
  violation-AllFed k d h =
      let d' = if reachable k then log_message k disconnect d else d in
      erase-AllFed k d' (if-kept (OthersFed k) (reachable k) (log_message k disconnect d) d h h)

  -- The worker `k` has completed an item, and gets the next, or nothing waits.
  send_next-AllFed :
      (k : ℕ) (w v : Worker) (queue : List Item) (d : Distributor)
      → At k v d
      → v.waiting_items ≡ queue
      → OthersFed k d.workers
      → AllFed (send_next reachable k w queue d).workers
  unfolding send_next Fed log_message set_waiting
  send_next-AllFed k w v [] d at_k e h =
      rejoin-AllFed k d.workers h
        (λ x q. let same : v ≡ x = some_inj (sym at_k ∙ q) in subst Fed same (inl (ap length e)))
  send_next-AllFed k w v (i ∷ is) d at_k e h =
      let d1 = record (set_waiting k is d) { locals = i ∷ [] } in
      let h1 = change-OthersFed k (λ x. record x { waiting_items = is }) d.workers h in
      let ids = identities d1.workers in
      let d2 =
        if w.group_id == 0 then d1 else delete_in_group (identities_but k ids) w.group_id i.id d1 in
      let h2 =
        if-kept (OthersFed k) (w.group_id == 0) d1
          (delete_in_group (identities_but k ids) w.group_id i.id d1) h1
          (delete_in_group-OthersFed k ids w.group_id i.id d1 h1) in
      let d3 = add_outstanding k i d2 in
      let h3 = add_outstanding-AllFed k i d2 h2 in
      let dropped = drop_locals (i ∷ []) d3 in
      if-kept AllFed (reachable k) (drop_locals (i ∷ []) (log_message k (work_item i) d3))
        (violation reachable k dropped)
        (drop_locals-AllFed (i ∷ []) (log_message k (work_item i) d3) h3)
        (violation-AllFed k dropped
          (AllFed-OthersFed k dropped.workers (drop_locals-AllFed (i ∷ []) d3 h3)))

  complete_item-AllFed :
      (k n : ℕ) (d : Distributor)
      → AllFed d.workers
      → AllFed (complete_item reachable k n d).workers
  unfolding complete_item set_outstanding
  complete_item-AllFed k n d h = elim (Option-cases (find_worker k d.workers)) [
    | inl missing ↦
        rw (missing, complete_item) (violation-AllFed k d (AllFed-OthersFed k d.workers h))
    | inr (w, at_k) ↦ elim (Option-cases (remove_item n w.outstanding_items)) [
      | inl unknown_item ↦
          rw (at_k, complete_item, unknown_item)
            (violation-AllFed k d (AllFed-OthersFed k d.workers h))
      | inr (r, found) ↦
          let d' = let_go (r.0) (set_outstanding k (r.1) d) in
          let v = record w { outstanding_items = r.1 } in
          let same = let_go-workers (r.0) (set_outstanding k (r.1) d) in
          rw (at_k, complete_item, found)
            (send_next-AllFed k w v w.waiting_items d' (finish-At k w r d at_k) refl (
              subst (OthersFed k) (sym same) (
                change-OthersFed k (λ x. record x { outstanding_items = r.1 }) d.workers
                  (AllFed-OthersFed k d.workers h))))
    ]
  ]

  on_worker_event-AllFed :
      (k : ℕ) (e : WorkerEvent) (d : Distributor)
      → AllFed d.workers
      → AllFed (on_worker_event reachable k e d).workers
  unfolding on_worker_event Fed
  on_worker_event-AllFed k gone d h = erase-AllFed k d (AllFed-OthersFed k d.workers h)
  on_worker_event-AllFed k (register none) d h =
      violation-AllFed k d (AllFed-OthersFed k d.workers h)
  on_worker_event-AllFed k (register (some w)) d h =
      insert_worker-AllFed k (record w { waiting_items = []; outstanding_items = [] })
        (erase k d).workers (inl refl) (erase-AllFed k d (AllFed-OthersFed k d.workers h))
  on_worker_event-AllFed k (completion none) d h =
      violation-AllFed k d (AllFed-OthersFed k d.workers h)
  on_worker_event-AllFed k (completion (some n)) d h = complete_item-AllFed k n d h
  on_worker_event-AllFed k heartbeat_reply d h = h
  on_worker_event-AllFed k other d h = violation-AllFed k d (AllFed-OthersFed k d.workers h)

History-AllFed : (ids : List ℕ) (d : Distributor) → History ids d → AllFed d.workers
unfolding start on_generator_pollin on_worker_pollin send_pending_completions
History-AllFed ids d History.started = tt
History-AllFed ids' d' (History.item {d = d} reachable i new r e) =
    let d1 = record d { locals = i ∷ [] } in
    let (d2, served, result) = map_inv (serve_all reachable (identities d1.workers) i [] d1) e in
    subst (λ x. AllFed x.workers) result
      (drop_locals-AllFed (i ∷ []) d2 (
        serve_all-AllFed reachable (identities d1.workers) i [] d1 d2 served
          (History-AllFed _ d r)))
History-AllFed ids d' (History.worker_event {d = d} reachable k e r) =
    on_worker_event-AllFed reachable k e d (History-AllFed ids d r)
History-AllFed ids d' (History.heartbeats {d = d} reachable due r e) =
    subst AllFed (sym (send_heartbeats-workers reachable due (identities d.workers) d d' e))
      (History-AllFed ids d r)

-- After any history in which no handler meets undefined behaviour (a worker that cannot be reached
-- inside a loop over the workers, or a stride of zero), no item waits in the queue of an idle
-- worker.
pub idle-nothing_waits :
    (ids : List ℕ) (d : Distributor) (k : ℕ) (w : Worker)
    → History ids d
    → find_worker k d.workers ≡ some w
    → is_idle w ≡ true
    → length w.waiting_items ≡ 0
unfolding Fed is_idle
idle-nothing_waits ids d k w r found idle =
    elim (find_worker-Fed k w d.workers found (History-AllFed ids d r)) [
      | inl empty ↦ empty
      | inr busy ↦ absurd (ground (arith, busy, idle))
    ]
