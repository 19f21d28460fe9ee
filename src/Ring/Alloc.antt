-- ===== src/Ring/Alloc.antt =====
-- The capacity that `alloc_with_size` chooses.
use native.Mathlib.Nat.{pow-suc, pow-le-pow_right}
use flesnet.Base.{
  ℕ, zero, suc, ◌+◌, ◌/◌, ◌^◌, ◌≤◌, ◌<◌, ◌≡◌, ◌∙◌, inl, inr, arith, ◌==◌, Bool-cases, u64_mod,
}
use flesnet.Ring.{exponent_loop, exponent_for}

-- The loop shifts until nothing is left: it adds the number of shifts, the last one not counted.
exponent_loop_bounds :
    (fuel m e : ℕ)
    → 0 < m
    → m < 2 ^ fuel
    → (k : ℕ) × (exponent_loop fuel m e ≡ e + k) × (2 ^ k ≤ m) × (m < 2 ^ suc k)
unfolding exponent_loop
exponent_loop_bounds zero m e p h = absurd (omega arith)
exponent_loop_bounds (suc fuel) m e p h = elim (Bool-cases (m / 2 == 0)) [
  | inl done ↦ (0, ground arith, ground arith, ground arith)
  | inr more ↦
      let (k, eq, low, high) =
        exponent_loop_bounds fuel (m / 2) (e + 1) (ground arith) (omega (arith, pow-suc 2 fuel)) in
      (
        suc k,
        rw more (omega (arith, eq)),
        omega (arith, pow-suc 2 k),
        omega (arith, pow-suc 2 (suc k)),
      )
]

exponent_for_lem : (n : ℕ) → exponent_for (suc (suc n)) ≡ exponent_loop 64 (suc n) 1
unfolding exponent_for
exponent_for_lem n = ground arith

exponent_for_small :
    (n : ℕ) → n < 2 → (n ≤ 2 ^ exponent_for n) × ((k : ℕ) → k < exponent_for n → 2 ^ k < n)
unfolding exponent_for
exponent_for_small n h = ground arith

least_of_log :
    (n e k : ℕ)
    → e ≡ 1 + k
    → 2 ^ k ≤ suc n
    → suc n < 2 ^ suc k
    → (suc (suc n) ≤ 2 ^ e) × ((j : ℕ) → j < e → 2 ^ j < suc (suc n))
least_of_log n e k eq low high = (
  rw (eq ∙ one_more) (omega arith),
  λ j p. omega (arith, low, pow-le-pow_right {n = 2} (omega arith) {i = j} {j = k} (omega arith)),
)
  where
    one_more : 1 + k ≡ suc k
    one_more = omega arith

-- The exponent is that of the least power of two that holds the wanted number of entries.
pub exponent_for_least :
    (n : ℕ) → n < u64_mod → (n ≤ 2 ^ exponent_for n) × ((k : ℕ) → k < exponent_for n → 2 ^ k < n)
unfolding exponent_for
exponent_for_least zero h = (omega arith, λ k p. absurd (omega arith))
exponent_for_least (suc zero) h = (omega arith, λ k p. absurd (omega arith))
exponent_for_least (suc (suc n)) h =
    let (k, eq, low, high) = exponent_loop_bounds 64 (suc n) 1 (omega arith) (omega arith) in
    least_of_log n (exponent_for (suc (suc n))) k (exponent_for_lem n ∙ eq) low high
