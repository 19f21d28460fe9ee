-- ===== src/Distributor/Offer.antt =====
-- The offer of an item to the workers, and the heartbeats, keep the workers fed:
-- lib/shm_ipc/ItemDistributor.cpp (on_generator_pollin) and ItemDistributor.hpp.
use flesnet.Base.{
  ℕ, ◌≡◌, refl, sym, ap, ◌∙◌, subst, inl, Bool, true, false, not, ◌&&◌, Option, none, some, List,
  [], ◌∷◌, ◌==◌, if◌then◌else◌, some_inj, guard_inv, bind_inv,
}
use mathlib.Core.Option
use flesnet.Distributor.{
  Item, Worker, heartbeat, Distributor, wants, is_idle, find_worker, clear_waiting,
}
use flesnet.Distributor.Queues.{At, clear_waiting-Follows}
use flesnet.Distributor.Handlers.{
  Reachable, is_prebuffer_one, is_skip, has_group, identities, identities_before, delete_in_group,
  push_queue, log_message, send_now, offer, serve, serve_all, send_heartbeats,
}
use flesnet.Distributor.Fed.{Fed, AllFed, AllFed-OthersFed, rejoin-AllFed}
use flesnet.Distributor.Waiting.{
  clear_waiting-OthersFed, add_outstanding-AllFed, push_queue-AllFed, if-kept,
  delete_in_group-AllFed,
}

module _ (reachable : Reachable) where
  send_now-AllFed :
      (k : ℕ) (w : Worker) (i : Item) (groups : List ℕ) (d : Distributor) (r : List ℕ × Distributor)
      → send_now reachable k w i groups d ≡ some r
      → AllFed d.workers
      → AllFed (r.1).workers
  unfolding send_now log_message
  send_now-AllFed k w i groups d r e h =
      let grouped = not (w.group_id == 0) in
      let ks = identities_before k (identities d.workers) in
      let d1 = if grouped then delete_in_group ks w.group_id i.id d else d in
      let h1 =
        if-kept AllFed grouped (delete_in_group ks w.group_id i.id d) d
          (delete_in_group-AllFed ks w.group_id i.id d h) h in
      subst (λ q. AllFed (q.1).workers) ((guard_inv (reachable k) e).1)
        (add_outstanding-AllFed k i d1 (AllFed-OthersFed k d1.workers h1))

  -- The queue of a worker is cleared before an item is offered.
  cleared-AllFed :
      (k : ℕ) (w : Worker) (d : Distributor)
      → At k w d
      → AllFed d.workers
      → AllFed (clear_waiting k w.waiting_items d).workers
  unfolding Fed
  cleared-AllFed k w d at_k h =
      let d1 = clear_waiting k w.waiting_items d in
      rejoin-AllFed k d1.workers
        (clear_waiting-OthersFed k w.waiting_items d (AllFed-OthersFed k d.workers h))
        (λ v e.
          let at_end = (clear_waiting-Follows true 0 k w w.waiting_items d at_k).1 in
          let same : record w { waiting_items = [] } ≡ v = some_inj (sym at_end ∙ e) in
          subst Fed same (inl refl))

  offer-AllFed :
      (k : ℕ) (w : Worker) (i : Item) (groups : List ℕ) (d : Distributor) (wanted : Bool)
      (r : List ℕ × Distributor)
      → At k w d
      → offer reachable k w i groups d wanted ≡ some r
      → AllFed d.workers
      → AllFed (r.1).workers
  unfolding offer is_idle
  offer-AllFed k w i groups d false r at_k e h = subst (λ q. AllFed (q.1).workers) (some_inj e) h
  offer-AllFed k w i groups d true r at_k e h =
      either (is_prebuffer_one w.queue_policy) (is_idle w) refl e
    where
      cleared : Bool → Distributor
      cleared b = if b then clear_waiting k w.waiting_items d else d

      fed : (b : Bool) → AllFed (cleared b).workers
      fed b = if-kept AllFed b (clear_waiting k w.waiting_items d) d (cleared-AllFed k w d at_k h) h

      found : (b : Bool) → (v : Worker) × At k v (cleared b) × (is_idle v ≡ is_idle w)
      found true = (_, (clear_waiting-Follows true 0 k w w.waiting_items d at_k).1, refl)
      found false = (w, at_k, refl)

      either :
          (b idle : Bool)
          → is_idle w ≡ idle
          → (if idle
              then send_now reachable k w i groups (cleared b)
              else some (
                groups,
                if is_skip w.queue_policy then cleared b else push_queue k i (cleared b),
              ))
            ≡ some r
          → AllFed (r.1).workers
      either b true idle q = send_now-AllFed k w i groups (cleared b) r q (fed b)
      either b false busy q =
          let (v, at_v, same) = found b in
          subst (λ x. AllFed (x.1).workers) (some_inj q)
            (if-kept AllFed (is_skip w.queue_policy) (cleared b) (push_queue k i (cleared b))
              (fed b) (push_queue-AllFed k v i (cleared b) at_v (same ∙ busy) (fed b)))

  serve-AllFed :
      (k : ℕ) (w : Worker) (i : Item) (groups : List ℕ) (d : Distributor) (r : List ℕ × Distributor)
      → At k w d
      → serve reachable k w i groups d ≡ some r
      → AllFed d.workers
      → AllFed (r.1).workers
  unfolding serve
  serve-AllFed k w i groups d r at_k e h =
      either (not (w.group_id == 0) && has_group w.group_id groups) e
    where
      either :
          (served : Bool)
          → (if served
              then some (groups, d)
              else Option.bind (wants w i.id) (offer reachable k w i groups d))
            ≡ some r
          → AllFed (r.1).workers
      either true q = subst (λ x. AllFed (x.1).workers) (some_inj q) h
      either false q =
          let (wanted, asked, offered) = bind_inv (wants w i.id) q in
          offer-AllFed k w i groups d wanted r at_k offered h

  pub serve_all-AllFed :
      (ks : List ℕ) (i : Item) (groups : List ℕ) (d d' : Distributor)
      → serve_all reachable ks i groups d ≡ some d'
      → AllFed d.workers
      → AllFed d'.workers
  unfolding serve_all
  serve_all-AllFed [] i groups d d' e h = subst (λ x. AllFed x.workers) (some_inj e) h
  serve_all-AllFed (k ∷ ks) i groups d d' e h =
      let (r, served, rest) = bind_inv _ e in
      serve_all-AllFed ks i (r.0) (r.1) d' rest (one_round (find_worker k d.workers) r refl served)
    where
      one_round :
          (found : Option Worker) (r : List ℕ × Distributor)
          → find_worker k d.workers ≡ found
          → elim found [ none ↦ some (groups, d) | some w ↦ serve reachable k w i groups d ]
            ≡ some r
          → AllFed (r.1).workers
      one_round none r missing q = subst (λ x. AllFed (x.1).workers) (some_inj q) h
      one_round (some w) r at_k q = serve-AllFed k w i groups d r at_k q h

  pub send_heartbeats-workers :
      (due : ℕ → Bool) (ks : List ℕ) (d d' : Distributor)
      → send_heartbeats reachable due ks d ≡ some d'
      → d'.workers ≡ d.workers
  unfolding send_heartbeats log_message
  send_heartbeats-workers due [] d d' e = ap (λ x. x.workers) (sym (some_inj e))
  send_heartbeats-workers due (k ∷ ks) d d' e =
      let (d1, sent, rest) = bind_inv _ e in
      send_heartbeats-workers due ks d1 d' rest ∙ one_round (find_worker k d.workers) d1 sent
    where
      beat :
          (b : Bool) (d1 : Distributor)
          → (if b then if reachable k then some (log_message k heartbeat d) else none else some d)
            ≡ some d1
          → d1.workers ≡ d.workers
      beat true d1 q = ap (λ x. x.workers) (sym ((guard_inv (reachable k) q).1))
      beat false d1 q = ap (λ x. x.workers) (sym (some_inj q))

      one_round :
          (found : Option Worker) (d1 : Distributor)
          → elim found [
            | none ↦ some d
            | some w ↦
                if is_idle w && due k
                then if reachable k then some (log_message k heartbeat d) else none
                else some d
          ]
            ≡ some d1
          → d1.workers ≡ d.workers
      one_round none d1 q = ap (λ x. x.workers) (sym (some_inj q))
      one_round (some w) d1 q = beat (is_idle w && due k) d1 q
