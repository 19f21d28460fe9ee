-- ===== src/Ack/History.antt =====
-- Histories of completions, from the empty ring on.
use flesnet.Base.{
  ℕ, ◌+◌, ◌≤◌, ◌<◌, ◌≡◌, refl, sym, ◌∙◌, subst, inl, inr, Bool, true, false, some, arith, ltb,
  some_inj, Bool-cases, u64_mod,
}
use flesnet.Ring.{at, alloc_with_size_exponent}
use flesnet.Ring.Cells.{alloc-IsRing}
use flesnet.Ack.{Acks, complete}
use flesnet.Ack.Window.{IsWindow, Completes, mark, complete-IsWindow}

-- A cleared ring of `2 ^ e` marks (`RingBuffer<uint64_t, true>`), and nothing acknowledged.
abbrev pub init : ℕ → Acks
init e = record { acked = 0; ack = alloc_with_size_exponent 0 e }

-- The states that a history of completions reaches, with the set of the positions completed. Each
-- position is completed once, and less than one ring size beyond the acknowledged ones.
pub data Run (e : ℕ) : Acks → (ℕ → Bool) → Type 0 where
  start : Run e (init e) (λ p. false)
  completed :
      {s : Acks} {done : ℕ → Bool} (c : ℕ) (s' : Acks)
      → Run e s done
      → done c ≡ false
      → c < s.acked + s.ack.size
      → s.acked + s.ack.size < u64_mod
      → complete s c ≡ some s'
      → Run e s' (mark done c)

pub init-IsWindow : (e : ℕ) → IsWindow (init e) (λ p. false)
unfolding alloc_with_size_exponent at
init-IsWindow e = record {
  ring = alloc-IsRing 0 e;
  below = λ p h. absurd (omega arith);
  first = refl;
  above = λ p h. refl;
  marked = λ p h k d. cc;
  clear = λ p h k d. omega arith;
}

-- A position that is not completed is not below `acked`.
pub not_below :
    {s : Acks} {done : ℕ → Bool} (c : ℕ) → IsWindow s done → done c ≡ false → s.acked ≤ c
not_below {s} c v h = elim (Bool-cases (ltb c s.acked)) [
  | inl lt ↦ absurd (ground (arith, v.below c))
  | inr ge ↦ ground arith
]

completed-IsWindow :
    (s s' : Acks) (done : ℕ → Bool) (c : ℕ)
    → complete s c ≡ some s'
    → Completes s done c (complete s c)
    → IsWindow s' (mark done c)
completed-IsWindow s s' done c e (t, f, v, z, m, g, k) =
    subst (λ x. IsWindow x (mark done c)) (some_inj (sym f ∙ e)) v

pub Run-IsWindow : {e : ℕ} {s : Acks} {done : ℕ → Bool} → Run e s done → IsWindow s done
Run-IsWindow {e} start = init-IsWindow e
Run-IsWindow (completed {s = s} {done = done} c s' r fresh near room eq) =
    let v = Run-IsWindow r in
    completed-IsWindow s s' done c eq (complete-IsWindow s done c v (not_below c v fresh) near room)

-- After any history the counter stands at the first position that is not completed: all below it
-- are completed, and it is not.
pub acked_frontier :
    {e : ℕ} {s : Acks} {done : ℕ → Bool}
    → Run e s done
    → ((p : ℕ) → p < s.acked → done p ≡ true) × (done s.acked ≡ false)
acked_frontier r = ((Run-IsWindow r).below, (Run-IsWindow r).first)

-- After any history the next completion is handled: the scan of the marks ends within one round of
-- the ring, and the counter does not go back.
pub complete_total :
    {e : ℕ} {s : Acks} {done : ℕ → Bool} (c : ℕ)
    → Run e s done
    → done c ≡ false
    → c < s.acked + s.ack.size
    → s.acked + s.ack.size < u64_mod
    → (s' : Acks) × (complete s c ≡ some s') × (s.acked ≤ s'.acked) × Run e s' (mark done c)
complete_total {s = s} {done = done} c r fresh near room =
    let v = Run-IsWindow r in
    let (s', eq, v', size, le, go, stay) =
      complete-IsWindow s done c v (not_below c v fresh) near room in
    (s', eq, le, completed c s' r fresh near room eq)
