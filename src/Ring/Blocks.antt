-- ===== src/Ring/Blocks.antt =====
-- Copies into a ring buffer, seen on the running indices: `at r` is a linear memory, and a block
-- copied to the cells from that of index `w` on is a write at `w`.
use native.Mathlib.Nat.{mod-lt, mod-add-mod, mod-eq_of_lt, mod_self}
use mathlib.Core.Bool.{false≢true}
use flesnet.Base.{
  ℕ, zero, suc, ◌+◌, ◌-◌, ◌%◌, ◌^◌, ◌≤◌, ◌<◌, ◌≡◌, refl, sym, ap, ◌∙◌, subst, inl, inr, List, [],
  ◌∷◌, ◌++◌, arith, ◌==◌, ==_iff, Bool-cases, length, update, read, write, write_ext, write-append,
  pow_pos,
}
use flesnet.Ring.{RingBuffer, IsRing, cell, at, set_at}
use flesnet.Ring.Cells.{cell_lem, at-set_at_self, at-set_at_ne, set_at-IsRing}

module _ {ℓ} {A : Type ℓ} where
  -- `std::copy` of a block to the cell of index `w` and those behind it.
  abbrev pub copy : RingBuffer A → ℕ → List A → RingBuffer A
  copy r w xs = record r { buf = write r.buf (cell r w) xs }

  pub copy-IsRing : (r : RingBuffer A) (w : ℕ) (xs : List A) → IsRing r → IsRing (copy r w xs)
  copy-IsRing r w xs v = record { size_eq = v.size_eq; mask_eq = v.mask_eq }

  -- The cell behind that of `w` is that of `w + d`, short of the border.
  pub cell-add :
      (r : RingBuffer A) (w d : ℕ)
      → IsRing r
      → cell r w + d < r.size
      → cell r (w + d) ≡ cell r w + d
  cell-add r w d v h = ground (
    arith,
    cell_lem r w v,
    cell_lem r (w + d) v,
    v.size_eq,
    mod-add-mod w (2 ^ r.size_exponent) d,
    mod-eq_of_lt {n = w % 2 ^ r.size_exponent + d} {m = 2 ^ r.size_exponent},
  )

  -- At the border the next cell is the first.
  pub cell-border : (r : RingBuffer A) (w : ℕ) → IsRing r → cell r (w + (r.size - cell r w)) ≡ 0
  cell-border r w v = ground (
    arith,
    cell_lem r w v,
    cell_lem r (w + (r.size - cell r w)) v,
    v.size_eq,
    mod-lt w {m = 2 ^ r.size_exponent},
    pow_pos r.size_exponent,
    mod-add-mod w (2 ^ r.size_exponent) (2 ^ r.size_exponent - w % 2 ^ r.size_exponent),
    mod_self (2 ^ r.size_exponent),
  )

  pub second_block-start :
      (r : RingBuffer A) (w a : ℕ) → IsRing r → cell r w + a ≡ r.size → cell r (w + a) ≡ 0
  second_block-start r w a v cut =
      ap (λ d. cell r (w + d)) (let e : a ≡ r.size - cell r w = omega arith in e)
      ∙ cell-border r w v

  -- One store, within a window of one buffer size around it.
  pub at-set_at :
      (r : RingBuffer A) (w p : ℕ) (x : A)
      → IsRing r
      → w < p + r.size
      → p < w + r.size
      → at (set_at r w x) p ≡ update (at r) w x p
  at-set_at r w p x v lo hi = elim (Bool-cases (w == p)) [
    | inl e ↦ rw e (subst (λ q. at (set_at r w x) q ≡ x) ((==_iff w p).0 e) (at-set_at_self r w x))
    | inr e ↦ rw e (at-set_at_ne r w p x v (λ q. false≢true (sym e ∙ (==_iff w p).1 q)) lo hi)
  ]

  -- A block that ends before the border.
  pub at-copy :
      (r : RingBuffer A) (w : ℕ) (xs : List A) (p : ℕ)
      → IsRing r
      → cell r w + length xs ≤ r.size
      → w + length xs ≤ p + r.size
      → p < w + r.size
      → at (copy r w xs) p ≡ write (at r) w xs p
  unfolding at set_at
  at-copy r w [] p v fits lo hi = refl
  at-copy r w (x ∷ []) p v fits lo hi = at-set_at r w p x v (omega arith) hi
  at-copy r w (x ∷ y ∷ xs) p v fits lo hi =
      ap (λ c. at (record r { buf = write (update r.buf (cell r w) x) c (y ∷ xs) }) p) next
      ∙ at-copy (set_at r w x) (suc w) (y ∷ xs) p (set_at-IsRing r w x v)
          (rw (← next) (omega arith)) (omega arith) (omega arith)
      ∙ write_ext (at (set_at r w x)) (update (at r) w x) (suc w) (y ∷ xs) p
          (at-set_at r w p x v (omega arith) (omega arith))
    where
      next : suc (cell r w) ≡ cell r (suc w)
      next = omega (
        arith,
        cell-add r w 1 v (omega arith),
        ap (cell r) (let e : w + 1 ≡ suc w = omega arith in e),
      )

  -- A copy in two blocks, cut at the border.
  pub at-copy_wrap :
      (r : RingBuffer A) (w : ℕ) (xs ys : List A) (p : ℕ)
      → IsRing r
      → cell r w + length xs ≡ r.size
      → length xs + length ys ≤ r.size
      → w + (length xs + length ys) ≤ p + r.size
      → p < w + r.size
      → at (copy (copy r w xs) (w + length xs) ys) p ≡ write (at r) w (xs ++ ys) p
  at-copy_wrap r w xs ys p v cut fits lo hi =
      at-copy (copy r w xs) (w + length xs) ys p (copy-IsRing r w xs v)
        (omega (arith, second_block-start r w (length xs) v cut)) (omega arith) (omega arith)
      ∙ write_ext (at (copy r w xs)) (write (at r) w xs) (w + length xs) ys p
          (at-copy r w xs p v (omega arith) (omega arith) hi)
      ∙ ap (λ m. m p) (sym (write-append (at r) w xs ys))

  -- A block that ends before the border, read from its first cell on.
  pub read-cell :
      (r : RingBuffer A) (w n : ℕ)
      → IsRing r
      → cell r w + n ≤ r.size
      → read r.buf (cell r w) n ≡ read (at r) w n
  unfolding at
  read-cell r w zero v h = refl
  read-cell r w (suc zero) v h = refl
  read-cell r w (suc (suc n)) v h = ap (◌∷◌ (r.buf (cell r w))) (
      ap (λ c. read r.buf c (suc n)) next
      ∙ read-cell r (suc w) (suc n) v (rw (← next) (omega arith)))
    where
      next : suc (cell r w) ≡ cell r (suc w)
      next = omega (
        arith,
        cell-add r w 1 v (omega arith),
        ap (cell r) (let e : w + 1 ≡ suc w = omega arith in e),
      )
