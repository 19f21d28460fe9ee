-- ===== src/Distributor/Fed.antt =====
-- No item waits at an idle worker: the queues of lib/shm_ipc/ItemDistributor.cpp.
use flesnet.Base.{
  ℕ, ◌<◌, ◌≡◌, refl, sym, ap, ◌∙◌, subst, ◌⊎◌, inl, inr, true, false, some, List, [], ◌∷◌, arith,
  ◌==◌, some_inj, Bool-cases, length, All,
}
use flesnet.Distributor.{Worker, find_worker, change_worker, remove_worker}

-- Nothing waits, or something is outstanding.
unfoldable pub Fed : Worker → Type 0
Fed w = (length w.waiting_items ≡ 0) ⊎ (0 < length w.outstanding_items)

unfoldable pub FedEntry : ℕ × Worker → Type 0
FedEntry (k, w) = Fed w

-- All workers are fed; all but the worker `k` are.
abbrev pub AllFed : List (ℕ × Worker) → Type 0
AllFed ws = All FedEntry ws

abbrev pub OthersFed : ℕ → List (ℕ × Worker) → Type 0
OthersFed k ws = All FedEntry (remove_worker k ws)

module _ (k j : ℕ) (w : Worker) (ws : List (ℕ × Worker)) where
  remove_worker-here : (j == k) ≡ true → remove_worker k ((j, w) ∷ ws) ≡ ws
  unfolding remove_worker
  remove_worker-here e = rw (e) refl

  remove_worker-other :
      (j == k) ≡ false → remove_worker k ((j, w) ∷ ws) ≡ (j, w) ∷ remove_worker k ws
  unfolding remove_worker
  remove_worker-other e = rw (e) refl

  find_worker-here : (j == k) ≡ true → find_worker k ((j, w) ∷ ws) ≡ some w
  unfolding find_worker
  find_worker-here e = rw (e) refl

  find_worker-other : (j == k) ≡ false → find_worker k ((j, w) ∷ ws) ≡ find_worker k ws
  unfolding find_worker
  find_worker-other e = rw (e) refl

  module _ (f : Worker → Worker) where
    change_worker-here : (j == k) ≡ true → change_worker k f ((j, w) ∷ ws) ≡ (j, f w) ∷ ws
    unfolding change_worker
    change_worker-here e = rw (e) refl

    change_worker-other :
        (j == k) ≡ false → change_worker k f ((j, w) ∷ ws) ≡ (j, w) ∷ change_worker k f ws
    unfolding change_worker
    change_worker-other e = rw (e) refl

pub AllFed-OthersFed : (k : ℕ) (ws : List (ℕ × Worker)) → AllFed ws → OthersFed k ws
unfolding remove_worker
AllFed-OthersFed k [] h = tt
AllFed-OthersFed k ((j, w) ∷ ws) (p, ps) = elim (Bool-cases (j == k)) [
  | inl here ↦ rw (here) ps
  | inr other ↦ rw (other) (p, AllFed-OthersFed k ws ps)
]

-- A change of the worker `k` leaves the others.
remove-change :
    (k : ℕ) (f : Worker → Worker) (ws : List (ℕ × Worker))
    → remove_worker k (change_worker k f ws) ≡ remove_worker k ws
unfolding remove_worker change_worker
remove-change k f [] = refl
remove-change k f ((j, w) ∷ ws) = elim (Bool-cases (j == k)) [
  | inl here ↦
      ap (remove_worker k) (change_worker-here k j w ws f here)
      ∙ remove_worker-here k j (f w) ws here
      ∙ sym (remove_worker-here k j w ws here)
  | inr other ↦
      ap (remove_worker k) (change_worker-other k j w ws f other)
      ∙ remove_worker-other k j w (change_worker k f ws) other
      ∙ ap (◌∷◌ (j, w)) (remove-change k f ws)
      ∙ sym (remove_worker-other k j w ws other)
]

pub change-OthersFed :
    (k : ℕ) (f : Worker → Worker) (ws : List (ℕ × Worker))
    → OthersFed k ws
    → OthersFed k (change_worker k f ws)
change-OthersFed k f ws h = subst AllFed (sym (remove-change k f ws)) h

-- All are fed again, where the worker `k` is after the change.
pub change-AllFed :
    (k : ℕ) (f : Worker → Worker) (ws : List (ℕ × Worker))
    → OthersFed k ws
    → ((w : Worker) → find_worker k ws ≡ some w → Fed (f w))
    → AllFed (change_worker k f ws)
unfolding change_worker FedEntry
change-AllFed k f [] h step = tt
change-AllFed k f ((j, w) ∷ ws) h step = elim (Bool-cases (j == k)) [
  | inl here ↦
      subst AllFed (sym (change_worker-here k j w ws f here)) (
        (
          step w (find_worker-here k j w ws here),
          subst AllFed (remove_worker-here k j w ws here) h,
        ))
  | inr other ↦
      let parts = subst AllFed (remove_worker-other k j w ws other) h in
      subst AllFed (sym (change_worker-other k j w ws f other)) (
        (
          parts.0,
          change-AllFed k f ws (parts.1) (λ v e. step v (find_worker-other k j w ws other ∙ e)),
        ))
]

-- All are fed, where the others and the worker `k` are.
pub rejoin-AllFed :
    (k : ℕ) (ws : List (ℕ × Worker))
    → OthersFed k ws
    → ((w : Worker) → find_worker k ws ≡ some w → Fed w)
    → AllFed ws
unfolding FedEntry
rejoin-AllFed k [] h here = tt
rejoin-AllFed k ((j, w) ∷ ws) h fed = elim (Bool-cases (j == k)) [
  | inl here ↦
      (fed w (find_worker-here k j w ws here), subst AllFed (remove_worker-here k j w ws here) h)
  | inr other ↦
      let parts = subst AllFed (remove_worker-other k j w ws other) h in
      (parts.0, rejoin-AllFed k ws (parts.1) (λ v e. fed v (find_worker-other k j w ws other ∙ e)))
]

pub find_worker-Fed :
    (k : ℕ) (w : Worker) (ws : List (ℕ × Worker)) → find_worker k ws ≡ some w → AllFed ws → Fed w
unfolding FedEntry find_worker
find_worker-Fed k w [] e h = cc
find_worker-Fed k w ((j, v) ∷ ws) e (p, ps) = elim (Bool-cases (j == k)) [
  | inl here ↦ subst Fed (some_inj (sym (find_worker-here k j v ws here) ∙ e)) p
  | inr other ↦ find_worker-Fed k w ws (sym (find_worker-other k j v ws other) ∙ e) ps
]

-- A change that keeps a worker fed.
pub change-keeps_AllFed :
    (i : ℕ) (f : Worker → Worker) (ws : List (ℕ × Worker))
    → ((w : Worker) → find_worker i ws ≡ some w → Fed w → Fed (f w))
    → AllFed ws
    → AllFed (change_worker i f ws)
change-keeps_AllFed i f ws step all =
    change-AllFed i f ws (AllFed-OthersFed i ws all)
      (λ v e. step v e (find_worker-Fed i v ws e all))

-- A change of another worker that keeps it fed.
pub change_other-OthersFed :
    (k i : ℕ) (f : Worker → Worker) (ws : List (ℕ × Worker))
    → (i == k) ≡ false
    → ((w : Worker) → find_worker i ws ≡ some w → Fed w → Fed (f w))
    → OthersFed k ws
    → OthersFed k (change_worker i f ws)
unfolding FedEntry change_worker
change_other-OthersFed k i f [] ne step h = h
change_other-OthersFed k i f ((j, w) ∷ ws) ne step h = elim (Bool-cases (j == i)) [
  | inl here ↦
      let other : (j == k) ≡ false = ground (arith, here, ne) in
      let parts = subst AllFed (remove_worker-other k j w ws other) h in
      subst (OthersFed k) (sym (change_worker-here i j w ws f here)) (
        subst AllFed (sym (remove_worker-other k j (f w) ws other))
          ((step w (find_worker-here i j w ws here) (parts.0), parts.1)))
  | inr there ↦
      subst (OthersFed k) (sym (change_worker-other i j w ws f there)) (elim (Bool-cases (j == k)) [
        | inl at_k ↦ subst AllFed (sym (remove_worker-here k j w (change_worker i f ws) at_k)) (
            change-keeps_AllFed i f ws (λ v e. step v (find_worker-other i j w ws there ∙ e))
              (subst AllFed (remove_worker-here k j w ws at_k) h))
        | inr other ↦
            let parts = subst AllFed (remove_worker-other k j w ws other) h in
            subst AllFed (sym (remove_worker-other k j w (change_worker i f ws) other)) (
              (
                parts.0,
                change_other-OthersFed k i f ws ne
                    (λ v e. step v (find_worker-other i j w ws there ∙ e)) (parts.1),
              ))
      ])
]
