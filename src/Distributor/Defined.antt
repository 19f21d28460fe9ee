-- ===== src/Distributor/Defined.antt =====
-- Where the handlers of lib/shm_ipc/ItemDistributor.cpp and ItemDistributor.hpp meet no undefined
-- behaviour.
use flesnet.Base.{
  ℕ, ◌<◌, ◌≡◌, refl, inl, inr, Bool, true, ◌&&◌, Option, some, List, [], ◌∷◌, Bool-cases,
  Option-cases, All,
}
use mathlib.Core.Option
use flesnet.Distributor.{Worker, Distributor, is_idle, find_worker, heartbeat}
use flesnet.Distributor.Handlers.{Reachable, log_message, send_heartbeats}

-- No worker has a stride of zero.
unfoldable pub HasStride : ℕ × Worker → Type 0
HasStride (k, w) = 0 < w.stride

abbrev pub HasStrides : Distributor → Type 0
HasStrides d = All HasStride d.workers

-- A result, of which this holds.
abbrev pub Gives {ℓ} : {A : Type ℓ} → Option A → (A → Type 0) → Type ℓ
Gives {A = A} o P = (a : A) × (o ≡ some a) × P a

module _ (reachable : Reachable) (all_reachable : (k : ℕ) → reachable k ≡ true) where
  -- While every worker can be reached, the round of heartbeats meets no undefined behaviour.
  pub send_heartbeats-defined :
      (due : ℕ → Bool) (ks : List ℕ) (d : Distributor)
      → Gives (send_heartbeats reachable due ks d) (λ d'. d'.workers ≡ d.workers)
  unfolding send_heartbeats Option.bind log_message
  send_heartbeats-defined due [] d = (d, refl, refl)
  send_heartbeats-defined due (k ∷ ks) d = elim (Option-cases (find_worker k d.workers)) [
    | inl missing ↦ rw (missing, send_heartbeats) (send_heartbeats-defined due ks d)
    | inr (w, at_k) ↦ elim (Bool-cases (is_idle w && due k)) [
      | inl beat ↦
          rw (at_k, send_heartbeats, beat, all_reachable k)
            (send_heartbeats-defined due ks (log_message k heartbeat d))
      | inr quiet ↦ rw (at_k, send_heartbeats, quiet) (send_heartbeats-defined due ks d)
    ]
  ]
