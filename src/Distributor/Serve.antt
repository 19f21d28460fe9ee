-- ===== src/Distributor/Serve.antt =====
-- What the handlers do to the account of an item: lib/shm_ipc/ItemDistributor.cpp.
use mathlib.Core.Option
use flesnet.Base.{
  ℕ, ◌+◌, ◌≡◌, refl, ap, ◌∙◌, subst, inl, inr, Bool, true, false, not, ◌&&◌, Option, none, some,
  List, [], ◌∷◌, arith, ◌==◌, if◌then◌else◌, some_inj, Option-cases, guard_inv, bind_inv,
}
use flesnet.Distributor.{
  Item, Worker, WorkerMessage, work_item, heartbeat, disconnect, Distributor, wants, is_idle,
  find_worker, count_item, refs, clear_waiting, erase, delete_from_queue,
}
use flesnet.Distributor.Refs.{one}
use flesnet.Distributor.Account.{
  count_id, count_id-append, completions, Accounted, let_go-Accounted, let_go-locals, Follows,
  Follows-refl, Follows-trans, same-Follows,
}
use flesnet.Distributor.Queues.{
  At, clear_waiting-Follows, erase-Follows, delete_from_queue-Follows, add_outstanding-Follows,
  push_queue-Follows,
}
use flesnet.Distributor.Handlers.{
  Reachable, is_prebuffer_one, is_skip, has_group, identities, identities_before, delete_in_group,
  add_outstanding, push_queue, log_message, send_now, offer, serve, serve_all,
  send_pending_completions, drop_locals, violation, send_heartbeats,
}

module _ (given : Bool) (id : ℕ) where
  pub log_message-Follows :
      (k : ℕ) (m : WorkerMessage) (d : Distributor) → Follows given id d (log_message k m d)
  unfolding log_message refs completions
  log_message-Follows k m d = same-Follows given id d (log_message k m d) refl refl refl

  -- A choice between two operations.
  pub if-Follows :
      (b : Bool) (d x y : Distributor)
      → Follows given id d x
      → Follows given id d y
      → Follows given id d (if b then x else y)
  if-Follows true d x y f g = f
  if-Follows false d x y f g = g

  pub delete_in_group-Follows :
      (ks : List ℕ) (group n : ℕ) (d : Distributor)
      → Follows given id d (delete_in_group ks group n d)
  unfolding delete_in_group
  delete_in_group-Follows [] group n d = Follows-refl given id d
  delete_in_group-Follows (k ∷ ks) group n d = elim (Option-cases (find_worker k d.workers)) [
    | inl missing ↦ rw (missing, delete_in_group) (delete_in_group-Follows ks group n d)
    | inr (w, at_k) ↦
        let d' = if w.group_id == group then delete_from_queue k w n d else d in
        let first =
          if-Follows (w.group_id == group) d (delete_from_queue k w n d) d
            (delete_from_queue-Follows given id k w n d at_k) (Follows-refl given id d) in
        rw (at_k, delete_in_group)
          (Follows-trans given id d d' (delete_in_group ks group n d') first
            (delete_in_group-Follows ks group n d'))
  ]

  send_now-Follows :
      (reachable : Reachable) (k : ℕ) (w : Worker) (i : Item) (groups : List ℕ) (d : Distributor)
      (r : List ℕ × Distributor)
      → d.locals ≡ i ∷ []
      → send_now reachable k w i groups d ≡ some r
      → Follows given id d (r.1)
  unfolding send_now
  send_now-Follows reachable k w i groups d r local_i sent =
      let grouped = not (w.group_id == 0) in
      let ks = identities_before k (identities d.workers) in
      let d1 = if grouped then delete_in_group ks w.group_id i.id d else d in
      let first =
        if-Follows grouped d (delete_in_group ks w.group_id i.id d) d
          (delete_in_group-Follows ks w.group_id i.id d) (Follows-refl given id d) in
      let d2 = add_outstanding k i d1 in
      let second = add_outstanding-Follows given id k i d1 (first.same_locals ∙ local_i) in
      let d3 = log_message k (work_item i) d2 in
      let all =
        Follows-trans given id d d2 d3 (Follows-trans given id d d1 d2 first second)
          (log_message-Follows k (work_item i) d2) in
      subst (Follows given id d) (ap (λ q. q.1) ((guard_inv (reachable k) sent).1)) all

  offer-Follows :
      (reachable : Reachable) (k : ℕ) (w : Worker) (i : Item) (groups : List ℕ) (d : Distributor)
      (wanted : Bool) (r : List ℕ × Distributor)
      → d.locals ≡ i ∷ []
      → At k w d
      → offer reachable k w i groups d wanted ≡ some r
      → Follows given id d (r.1)
  unfolding offer
  offer-Follows reachable k w i groups d false r local_i at_k h =
      subst (λ q. Follows given id d (q.1)) (some_inj h) (Follows-refl given id d)
  offer-Follows reachable k w i groups d true r local_i at_k h = either (is_idle w) h
    where
      cleared : Distributor
      cleared = if is_prebuffer_one w.queue_policy then clear_waiting k w.waiting_items d else d

      clearing : Follows given id d cleared
      clearing =
          if-Follows (is_prebuffer_one w.queue_policy) d (clear_waiting k w.waiting_items d) d
            (clear_waiting-Follows given id k w w.waiting_items d at_k).0 (Follows-refl given id d)

      either :
          (idle : Bool)
          → (if idle
              then send_now reachable k w i groups cleared
              else some
                  (groups, if is_skip w.queue_policy then cleared else push_queue k i cleared))
            ≡ some r
          → Follows given id d (r.1)
      either true e =
          Follows-trans given id d cleared (r.1) clearing
            (send_now-Follows reachable k w i groups cleared r (clearing.same_locals ∙ local_i) e)
      either false e =
          let queued = if is_skip w.queue_policy then cleared else push_queue k i cleared in
          let all = Follows-trans given id d cleared queued clearing (
            if-Follows (is_skip w.queue_policy) cleared cleared (push_queue k i cleared)
              (Follows-refl given id cleared)
              (push_queue-Follows given id k i cleared (clearing.same_locals ∙ local_i))) in
          subst (λ q. Follows given id d (q.1)) (some_inj e) all

  serve-Follows :
      (reachable : Reachable) (k : ℕ) (w : Worker) (i : Item) (groups : List ℕ) (d : Distributor)
      (r : List ℕ × Distributor)
      → d.locals ≡ i ∷ []
      → At k w d
      → serve reachable k w i groups d ≡ some r
      → Follows given id d (r.1)
  unfolding serve
  serve-Follows reachable k w i groups d r local_i at_k h =
      either (not (w.group_id == 0) && has_group w.group_id groups) h
    where
      either :
          (served : Bool)
          → (if served
              then some (groups, d)
              else Option.bind (wants w i.id) (offer reachable k w i groups d))
            ≡ some r
          → Follows given id d (r.1)
      either true e = subst (λ q. Follows given id d (q.1)) (some_inj e) (Follows-refl given id d)
      either false e =
          let (wanted, asked, offered) = bind_inv (wants w i.id) e in
          offer-Follows reachable k w i groups d wanted r local_i at_k offered

  pub serve_all-Follows :
      (reachable : Reachable) (ks : List ℕ) (i : Item) (groups : List ℕ) (d d' : Distributor)
      → d.locals ≡ i ∷ []
      → serve_all reachable ks i groups d ≡ some d'
      → Follows given id d d'
  unfolding serve_all
  serve_all-Follows reachable [] i groups d d' local_i h =
      subst (Follows given id d) (some_inj h) (Follows-refl given id d)
  serve_all-Follows reachable (k ∷ ks) i groups d d' local_i h =
      let (r, served, rest) = bind_inv _ h in
      let first = one_round (find_worker k d.workers) r refl served in
      Follows-trans given id d (r.1) d' first
        (serve_all-Follows reachable ks i (r.0) (r.1) d' (first.same_locals ∙ local_i) rest)
    where
      one_round :
          (found : Option Worker) (r : List ℕ × Distributor)
          → find_worker k d.workers ≡ found
          → elim found [ none ↦ some (groups, d) | some w ↦ serve reachable k w i groups d ]
            ≡ some r
          → Follows given id d (r.1)
      one_round none r missing e =
          subst (λ q. Follows given id d (q.1)) (some_inj e) (Follows-refl given id d)
      one_round (some w) r at_k e = serve-Follows reachable k w i groups d r local_i at_k e

  -- The item that a local variable holds is let go.
  pub drop_local-Accounted :
      (i : Item) (d : Distributor)
      → d.locals ≡ i ∷ []
      → Accounted given id d
      → Accounted given id (drop_locals (i ∷ []) d) × ((drop_locals (i ∷ []) d).locals ≡ [])
  unfolding drop_locals refs completions count_item
  drop_local-Accounted i d local_i h =
      let d' = record d { locals = [] } in
      let held = ap (count_item id) local_i in
      let before : refs id d' + one i id ≡ refs id d = omega (arith, held) in
      (let_go-Accounted given i id d' (rw (before) h), let_go-locals i d')

  pub send_pending_completions-Follows :
      (d : Distributor) → Follows given id d (send_pending_completions d)
  unfolding send_pending_completions refs completions count_id
  send_pending_completions-Follows d =
      same-Follows given id d (send_pending_completions d) refl
        (omega (arith, count_id-append id d.to_generator d.completed_items)) refl

  pub violation-Follows :
      (reachable : Reachable) (k : ℕ) (d : Distributor)
      → Follows given id d (violation reachable k d)
  unfolding violation
  violation-Follows reachable k d =
      let d' = if reachable k then log_message k disconnect d else d in
      Follows-trans given id d d' (erase k d')
        (if-Follows (reachable k) d (log_message k disconnect d) d
          (log_message-Follows k disconnect d) (Follows-refl given id d))
        (erase-Follows given id k d')

  heartbeat-Follows :
      (reachable : Reachable) (due : Bool) (k : ℕ) (d d' : Distributor)
      → (if due then if reachable k then some (log_message k heartbeat d) else none else some d)
        ≡ some d'
      → Follows given id d d'
  heartbeat-Follows reachable true k d d' h =
      subst (Follows given id d) ((guard_inv (reachable k) h).1) (log_message-Follows k heartbeat d)
  heartbeat-Follows reachable false k d d' h =
      subst (Follows given id d) (some_inj h) (Follows-refl given id d)

  pub send_heartbeats-Follows :
      (reachable : Reachable) (due : ℕ → Bool) (ks : List ℕ) (d d' : Distributor)
      → send_heartbeats reachable due ks d ≡ some d'
      → Follows given id d d'
  unfolding send_heartbeats
  send_heartbeats-Follows reachable due [] d d' h =
      subst (Follows given id d) (some_inj h) (Follows-refl given id d)
  send_heartbeats-Follows reachable due (k ∷ ks) d d' h =
      let (d1, sent, rest) = bind_inv _ h in
      Follows-trans given id d d1 d' (one_round (find_worker k d.workers) d1 sent)
        (send_heartbeats-Follows reachable due ks d1 d' rest)
    where
      one_round :
          (found : Option Worker) (d1 : Distributor)
          → elim found [
            | none ↦ some d
            | some w ↦
                if is_idle w && due k
                then if reachable k then some (log_message k heartbeat d) else none
                else some d
          ]
            ≡ some d1
          → Follows given id d d1
      one_round none d1 e = subst (Follows given id d) (some_inj e) (Follows-refl given id d)
      one_round (some w) d1 e = heartbeat-Follows reachable (is_idle w && due k) k d d1 e
