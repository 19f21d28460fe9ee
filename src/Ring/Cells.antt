-- ===== src/Ring/Cells.antt =====
-- Which cell an index of a ring buffer stands for, and how reads and writes of cells interact.
use native.Mathlib.Nat.{mod-lt, mod-add-mod, mod-eq_of_lt, mod-eq-sub-mod}
use flesnet.Base.{
  ℕ, ◌+◌, ◌-◌, ◌%◌, ◌^◌, ◌<◌, ◌≡◌, refl, sym, ap, ◌∙◌, ◌≢◌, inl, inr, arith, ltb, ==_of_ne,
  Bool-cases, pow_pos, bit_and_mask,
}
use flesnet.Ring.{RingBuffer, IsRing, alloc_with_size_exponent, cell, at, set_at}

-- Two numbers less than `s` apart have different remainders by `s`.
pub mod-ne_of_lt : (s p d : ℕ) → 0 < d → d < s → (p + d) % s ≢ p % s
mod-ne_of_lt s p d hd hs e = elim (Bool-cases (ltb (p % s + d) s)) [
  | inl small ↦ ground (arith, mod-add-mod p s d, mod-eq_of_lt {n = p % s + d} {m = s})
  | inr large ↦ ground (
    arith,
    mod-lt p {m = s},
    mod-add-mod p s d,
    mod-eq-sub-mod {n = p % s + d} {m = s},
    mod-eq_of_lt {n = p % s + d - s} {m = s},
  )
]

pub mod-add_self : (p s : ℕ) → (p + s) % s ≡ p % s
mod-add_self p s = ground (arith, mod-eq-sub-mod {n = p + s} {m = s})

module _ {ℓ} {A : Type ℓ} where
  pub cell_lem : (r : RingBuffer A) (n : ℕ) → IsRing r → cell r n ≡ n % 2 ^ r.size_exponent
  cell_lem r n v = ground (arith, v.mask_eq, bit_and_mask r.size_exponent n)

  pub alloc-IsRing : (init : A) (e : ℕ) → IsRing (alloc_with_size_exponent init e)
  unfolding alloc_with_size_exponent
  alloc-IsRing init e = record { size_eq = refl; mask_eq = refl }

  pub set_at-IsRing : (r : RingBuffer A) (n : ℕ) (v : A) → IsRing r → IsRing (set_at r n v)
  unfolding set_at
  set_at-IsRing r n v h = record { size_eq = h.size_eq; mask_eq = h.mask_eq }

  -- What stands at an index after a store: the stored value at its own cell, else what stood there.
  pub at-set_at_self : (r : RingBuffer A) (n : ℕ) (v : A) → at (set_at r n v) n ≡ v
  unfolding at set_at
  at-set_at_self r n v = ground arith

  -- Indices less than one buffer size apart stand for different cells.
  pub cell-ne :
      (r : RingBuffer A) (n m : ℕ)
      → IsRing r
      → n ≢ m
      → n < m + r.size
      → m < n + r.size
      → cell r n ≢ cell r m
  cell-ne r n m h ne p q = elim (Bool-cases (ltb n m)) [
    | inl lt ↦ ground (
      arith,
      cell_lem r n h,
      cell_lem r m h,
      h.size_eq,
      mod-ne_of_lt (2 ^ r.size_exponent) n (m - n),
    )
    | inr ge ↦ ground (
      arith,
      cell_lem r n h,
      cell_lem r m h,
      h.size_eq,
      mod-ne_of_lt (2 ^ r.size_exponent) m (n - m),
    )
  ]

  pub at-set_at_ne :
      (r : RingBuffer A) (n m : ℕ) (v : A)
      → IsRing r
      → n ≢ m
      → n < m + r.size
      → m < n + r.size
      → at (set_at r n v) m ≡ at r m
  unfolding at set_at
  at-set_at_ne r n m v h ne p q = rw (==_of_ne (cell r n) (cell r m) (cell-ne r n m h ne p q))

  -- Indices one buffer size apart share their cell.
  pub at-add_size : (r : RingBuffer A) (n : ℕ) → IsRing r → at r (n + r.size) ≡ at r n
  unfolding at
  at-add_size r n h = ground (
    arith,
    cell_lem r n h,
    cell_lem r (n + r.size) h,
    h.size_eq,
    mod-add_self n (2 ^ r.size_exponent),
  )

  -- No index leaves the buffer.
  pub cell-lt-size : (r : RingBuffer A) (n : ℕ) → IsRing r → cell r n < r.size
  cell-lt-size r n h = ground (
    arith,
    cell_lem r n h,
    h.size_eq,
    mod-lt n {m = 2 ^ r.size_exponent},
    pow_pos r.size_exponent,
  )

  -- Buffers of one size have the same cells.
  pub cell_same :
      (r s : RingBuffer A) (n : ℕ) → IsRing r → IsRing s → r.size ≡ s.size → cell r n ≡ cell s n
  cell_same r s n v w e =
      ground
        (arith, cell_lem r n v, cell_lem s n w, ap (λ k. n % k) (sym v.size_eq ∙ e ∙ w.size_eq))
