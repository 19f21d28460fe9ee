-- ===== src/Ack/Cases.antt =====
-- The two cases of a completion: a mark beyond the counter, or the counter moves.
use flesnet.Base.{
  ℕ, ◌+◌, ◌≤◌, ◌<◌, ◌≡◌, refl, sym, ap, ◌∙◌, subst, ◌≢◌, ◌⊎◌, inl, inr, Bool, true, false, some,
  arith, ltb, ◌==◌, ltb→lt, ==_iff, ==_of_ne, some_inj, Bool-cases, pow_pos, u64_mod, map_inv,
}
use mathlib.Core.Option
use flesnet.Ring.{set_at}
use flesnet.Ack.{Acks, scan, complete}
use flesnet.Ack.Window.{mark, IsWindow, Completes, complete-IsWindow}

-- The scan stays within the ring.
within :
    (done : ℕ → Bool) (c size n : ℕ)
    → 0 < size
    → ((p : ℕ) → p < n → mark done c p ≡ true)
    → ((p : ℕ) → c + size ≤ p → done p ≡ false)
    → n ≤ c + size
within done c size n pos below above = elim (Bool-cases (ltb (c + size) n)) [
  | inl far ↦
      absurd (ground (arith, below (c + size) (ltb→lt _ _ far), above (c + size) (omega arith)))
  | inr near ↦ ground arith
]

==_self : (a : ℕ) → (a == a) ≡ true
==_self a = ground arith

pub complete_beyond_is :
    (a : Acks) (c : ℕ)
    → c ≢ a.acked
    → complete a c ≡ some (record { acked = a.acked; ack = set_at a.ack c c })
unfolding complete
complete_beyond_is a c ne = rw (==_of_ne _ _ ne)

pub complete_first_is :
    (a : Acks)
    → complete a a.acked
      ≡ Option.map (λ n. record a { acked = n }) (scan a.ack.size a.ack a.acked a.acked)
unfolding complete
complete_first_is a = rw (==_self a.acked)

-- The counter moves to `n`, the marks stay.
pub record Moves (a : Acks) (done : ℕ → Bool) (n : ℕ) : Type 0 where
  pub found : scan a.ack.size a.ack a.acked a.acked ≡ some n
  pub window : IsWindow (record { acked = n; ack = a.ack }) (mark done a.acked)
  pub forward : a.acked < n
  pub near : n ≤ a.acked + a.ack.size

-- A mark is set.
pub record Marks (a : Acks) (done : ℕ → Bool) (c : ℕ) : Type 0 where
  pub beyond : c ≢ a.acked
  pub window : IsWindow (record { acked = a.acked; ack = set_at a.ack c c }) (mark done c)

module _ (a : Acks) (done : ℕ → Bool) (v : IsWindow a done) where
  first-Moves : Completes a done a.acked (complete a a.acked) → (n : ℕ) × Moves a done n
  first-Moves (s, e, w, size, up, first, same) =
      let (n, found, t) =
        map_inv (scan a.ack.size a.ack a.acked a.acked) (sym (complete_first_is a) ∙ e) in
      let w' = subst (λ x. IsWindow x (mark done a.acked)) (sym t) w in
      (
        n,
        record {
          found = found;
          window = w';
          forward = omega (arith, first refl, ap (λ x. x.acked) t);
          near =
              within done a.acked a.ack.size n (rw (v.ring.size_eq) (pow_pos a.ack.size_exponent))
                w'.below v.above;
        },
      )

  beyond-Marks : (c : ℕ) → c ≢ a.acked → Completes a done c (complete a c) → Marks a done c
  beyond-Marks c ne (s, e, w, size, up, first, same) = record {
    beyond = ne;
    window = subst (λ x. IsWindow x (mark done c)) (some_inj (sym e ∙ complete_beyond_is a c ne)) w;
  }

  pub complete-cases :
      (c : ℕ)
      → a.acked ≤ c
      → c < a.acked + a.ack.size
      → a.acked + a.ack.size < u64_mod
      → ((c ≡ a.acked) × ((n : ℕ) × Moves a done n)) ⊎ Marks a done c
  complete-cases c lo hi room =
      let all = complete-IsWindow a done c v lo hi room in
      elim (Bool-cases (c == a.acked)) [
        | inl e ↦
            let same = (==_iff _ _).0 e in
            inl (same, first-Moves (subst (λ x. Completes a done x (complete a x)) same all))
        | inr e ↦ inr (beyond-Marks c (ground arith) all)
      ]
