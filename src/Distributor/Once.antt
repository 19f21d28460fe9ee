-- ===== src/Distributor/Once.antt =====
-- The distributor over any history of messages and heartbeats: lib/shm_ipc/ItemDistributor.cpp.
use flesnet.Base.{
  ℕ, ◌+◌, ◌<◌, ◌≡◌, refl, ap, ◌∙◌, subst, ◌⊎◌, Bool, true, false, ◌||◌, some, List, [], ◌∷◌, arith,
  ◌==◌, if◌then◌else◌, map_inv,
}
use flesnet.Distributor.{Item, Distributor, count_item, worker_refs, refs}
use flesnet.Distributor.Refs.{one}
use flesnet.Distributor.Account.{count_id, completions, Accounts, Accounted}
use flesnet.Distributor.Serve.{
  serve_all-Follows, drop_local-Accounted, send_pending_completions-Follows,
  send_heartbeats-Follows,
}
use flesnet.Distributor.Events.{Rests, on_worker_pollin-Rests}
use flesnet.Distributor.Handlers.{
  Reachable, identities, serve_all, drop_locals, on_generator_pollin, WorkerEvent, on_worker_pollin,
  send_heartbeats,
}

-- The distributor as it is constructed.
unfoldable pub start : Distributor
start = record {
  workers = [];
  locals = [];
  completed_items = [];
  to_workers = [];
  to_generator = [];
}

-- Whether an item with this id was given.
unfoldable pub was_given : ℕ → List ℕ → Bool
was_given id [] = false
was_given id (j ∷ js) = j == id || was_given id js

-- What may happen between two waits, for any workers that can be reached at the time, where no
-- handler meets undefined behaviour. The producer gives each item an id of its own.
pub data History : List ℕ → Distributor → Type 0 where
  started : History [] start
  item :
      {ids : List ℕ} {d d' : Distributor} (reachable : Reachable) (i : Item)
      → was_given i.id ids ≡ false
      → History ids d
      → on_generator_pollin reachable i d ≡ some d'
      → History (i.id ∷ ids) d'
  worker_event :
      {ids : List ℕ} {d : Distributor} (reachable : Reachable) (k : ℕ) (e : WorkerEvent)
      → History ids d
      → History ids (on_worker_pollin reachable k e d)
  heartbeats :
      {ids : List ℕ} {d d' : Distributor} (reachable : Reachable) (due : ℕ → Bool)
      → History ids d
      → send_heartbeats reachable due (identities d.workers) d ≡ some d'
      → History ids d'

entering :
    (given same : Bool) (r done : ℕ)
    → (same ≡ true → given ≡ false)
    → Accounts given r done
    → Accounts (same || given) ((if same then 1 else 0) + r) done
entering true true r done new h = absurd (ground (arith, new refl))
entering false true r done new h = ground arith
entering true false r done new h = ground arith
entering false false r done new h = ground arith

-- A new item is held by a local variable.
new_item-Accounted :
    (given : Bool) (id : ℕ) (i : Item) (d : Distributor)
    → ((i.id == id) ≡ true → given ≡ false)
    → Rests given id d
    → Accounted (i.id == id || given) id (record d { locals = i ∷ [] })
unfolding refs completions count_item
new_item-Accounted given id i d new (h, l) =
    let d1 = record d { locals = i ∷ [] } in
    let r : refs id d1 ≡ one i id + refs id d = omega (arith, ap (count_item id) l) in
    rw (r) (entering given (i.id == id) (refs id d) (completions id d) new h)

on_generator_pollin-Rests :
    (given : Bool) (id : ℕ) (reachable : Reachable) (i : Item) (d d' : Distributor)
    → ((i.id == id) ≡ true → given ≡ false)
    → Rests given id d
    → on_generator_pollin reachable i d ≡ some d'
    → Rests (i.id == id || given) id d'
unfolding on_generator_pollin
on_generator_pollin-Rests given id reachable i d d' new h e =
    let g = i.id == id || given in
    let d1 = record d { locals = i ∷ [] } in
    let (d2, all_served, result) =
      map_inv (serve_all reachable (identities d1.workers) i [] d1) e in
    let served =
      serve_all-Follows g id reachable (identities d1.workers) i [] d1 d2 refl all_served in
    let (h3, l3) =
      drop_local-Accounted g id i d2 served.same_locals
        (served.account (new_item-Accounted given id i d new h)) in
    let d3 = drop_locals (i ∷ []) d2 in
    let reported = send_pending_completions-Follows g id d3 in
    subst (Rests g id) result (reported.account h3, reported.same_locals ∙ l3)

History-Rests :
    (ids : List ℕ) (d : Distributor) → History ids d → (id : ℕ) → Rests (was_given id ids) id d
unfolding was_given start refs completions count_item worker_refs count_id
History-Rests ids d started id = ((omega arith, λ e. omega arith), refl)
History-Rests ids' d' (item {ids = ids} {d = d} reachable i new r e) id =
    on_generator_pollin-Rests (was_given id ids) id reachable i d d'
      (λ q. let same : id ≡ i.id = ground (arith, q) in ap (λ k. was_given k ids) same ∙ new)
      (History-Rests ids d r id) e
History-Rests ids d' (worker_event {d = d} reachable k e r) id =
    on_worker_pollin-Rests (was_given id ids) id reachable k e d (History-Rests ids d r id)
History-Rests ids d' (heartbeats {d = d} reachable due r e) id =
    let f =
      send_heartbeats-Follows (was_given id ids) id reachable due (identities d.workers) d d' e in
    let (h, l) = History-Rests ids d r id in (f.account h, f.same_locals ∙ l)

-- After any history in which no handler meets undefined behaviour (a worker that cannot be reached
-- inside a loop over the workers, or a stride of zero), an item that was given is held by a worker
-- and not completed, or held by no worker and completed exactly once, be the completion reported to
-- the producer or still pending.
pub completed_once :
    (ids : List ℕ) (d : Distributor) (id : ℕ)
    → History ids d
    → was_given id ids ≡ true
    → ((0 < worker_refs id d.workers) × (completions id d ≡ 0))
      ⊎ ((worker_refs id d.workers ≡ 0) × (completions id d ≡ 1))
unfolding refs count_item
completed_once ids d id r given =
    let (h, l) = History-Rests ids d r id in
    let at_rest = ap (count_item id) l in ground (arith, h.0, at_rest, given)

-- After any history in which no handler meets undefined behaviour (a worker that cannot be reached
-- inside a loop over the workers, or a stride of zero), an item that was not given is held by no
-- worker and was not completed.
pub never_completed :
    (ids : List ℕ) (d : Distributor) (id : ℕ)
    → History ids d
    → was_given id ids ≡ false
    → (worker_refs id d.workers ≡ 0) × (completions id d ≡ 0)
unfolding refs count_item
never_completed ids d id r missing =
    let (h, l) = History-Rests ids d r id in
    let nobody = h.1 missing in ground (arith, h.0, nobody, missing)
