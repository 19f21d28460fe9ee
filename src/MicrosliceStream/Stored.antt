-- ===== src/MicrosliceStream/Stored.antt =====
-- Contents in the data buffer: a content shorter than the buffer is stored and loaded as a block
-- of the linear memory, also where it is cut at the border.
use flesnet.Base.{
  ℕ, ◌+◌, ◌-◌, ◌≤◌, ◌<◌, ◌≡◌, refl, sym, ap, ◌∙◌, inl, inr, true, false, List, ◌++◌, arith, ltb,
  leb, ltb→lt, Bool-cases, length, take, drop, take-append-drop, length-take, length-drop, read,
  write, take_all, read-add, u64_mod, add64,
}
use flesnet.Ring.{RingBuffer, IsRing, cell, at}
use mathlib.Core.Path.{ap₂}
use flesnet.MicrosliceStream.{store_content, load_content, in_one_piece}
use flesnet.Ring.Cells.{cell-lt-size}
use flesnet.Ring.Blocks.{copy, at-copy, at-copy_wrap, read-cell, cell-add, second_block-start}

module _ (r : RingBuffer ℕ) (w n : ℕ) (v : IsRing r) (short : n < r.size)
    (room : w + n < u64_mod) where
  no_wrap : cell r (add64 w n) ≡ cell r (w + n)
  no_wrap = ap (cell r) (omega arith)

  -- Behind the border the cells start again.
  behind_border : r.size ≤ cell r w + n → cell r (w + n) ≡ cell r w + n - r.size
  behind_border past =
      ap (cell r) (let e : w + n ≡ w + a + (n - a) = omega arith in e)
      ∙ cell-add r (w + a) (n - a) v (omega (arith, start, cell-lt-size r w v))
      ∙ omega (arith, start, cell-lt-size r w v)
    where
      a : ℕ
      a = r.size - cell r w

      start : cell r (w + a) ≡ 0
      start = second_block-start r w a v (omega (arith, cell-lt-size r w v))

  -- The test of both ends tells whether the content ends before the border.
  pub test_one : leb (cell r w) (cell r (add64 w n)) ≡ true → cell r w + n < r.size
  test_one h = elim (Bool-cases (ltb (cell r w + n) r.size)) [
    | inl inside ↦ ltb→lt _ _ inside
    | inr past ↦ ground (arith, no_wrap, behind_border, cell-lt-size r w v)
  ]

  pub test_two : leb (cell r w) (cell r (add64 w n)) ≡ false → r.size ≤ cell r w + n
  test_two h = elim (Bool-cases (ltb (cell r w + n) r.size)) [
    | inl inside ↦ ground (arith, no_wrap, cell-add r w n v)
    | inr past ↦ ground arith
  ]

  abbrev border : ℕ
  border = r.size - cell r w

  border_cut : cell r w + border ≡ r.size
  border_cut = omega (arith, cell-lt-size r w v)

  module _ (xs : List ℕ) (sized : length xs ≡ n) where
    two_pieces :
        r.size ≤ cell r w + n
        → (length (take border xs) ≡ border)
          × (length (take border xs) + length (drop border xs) ≡ n)
          × (take (n - border) (drop border xs) ≡ drop border xs)
    two_pieces past = (
      omega (arith, length-take border xs),
      omega (arith, length-take border xs, length-drop border xs),
      take_all (n - border) (drop border xs) (omega (arith, length-drop border xs)),
    )

    -- Within one buffer size, storing a content is a write to the linear memory.
    pub at-store_content :
        (p : ℕ)
        → w + n ≤ p + r.size
        → p < w + r.size
        → at (store_content r w n xs) p ≡ write (at r) w xs p
    unfolding store_content
    at-store_content p lo hi = elim (Bool-cases (leb (cell r w) (cell r (add64 w n)))) [
      | inl one ↦
          rw (one, take_all n xs sized)
            (at-copy r w xs p v (omega (arith, test_one one)) (omega arith) hi)
      | inr two ↦
          let (first, both, rest) = two_pieces (test_two two) in
          rw (two, rest)
            (ap
                (λ c.
                  at
                    (record (copy r w (take border xs)) {
                      buf = write (copy r w (take border xs)).buf c (drop border xs);
                    })
                    p)
                (sym (ap (λ a. cell r (w + a)) first ∙ second_block-start r w border v border_cut))
              ∙ at-copy_wrap r w (take border xs) (drop border xs) p v
                  (omega (arith, first, border_cut)) (omega (arith, both)) (omega (arith, both)) hi
              ∙ ap (λ ys. write (at r) w ys p) (take-append-drop border xs))
    ]

  -- Loading a content reads the linear memory.
  pub load_content-eq-read : load_content r w n ≡ read (at r) w n
  unfolding load_content in_one_piece
  load_content-eq-read = elim (Bool-cases (leb (cell r w) (cell r (add64 w n)))) [
    | inl one ↦ rw one (read-cell r w n v (omega (arith, test_one one)))
    | inr two ↦ rw two (
        ap₂ ◌++◌ (read-cell r w border v (omega (arith, border_cut))) (second two)
        ∙ sym (read-add (at r) w border (n - border))
        ∙ ap (read (at r) w) (omega (arith, test_two two, border_cut)))
  ]
    where
      finish : leb (cell r w) (cell r (add64 w n)) ≡ false → cell r (add64 w n) ≡ n - border
      finish two = omega (arith, no_wrap, behind_border (test_two two), border_cut, test_two two)

      start : cell r (w + border) ≡ 0
      start = second_block-start r w border v border_cut

      second :
          leb (cell r w) (cell r (add64 w n)) ≡ false
          → read r.buf 0 (cell r (add64 w n)) ≡ read (at r) (w + border) (n - border)
      second two =
          ap (read r.buf 0) (finish two)
          ∙ ap (λ c. read r.buf c (n - border)) (sym start)
          ∙ read-cell r (w + border) (n - border) v (omega (arith, start))

pub store_content-IsRing :
    (r : RingBuffer ℕ) (w n : ℕ) (xs : List ℕ)
    → IsRing r
    → IsRing (store_content r w n xs) × ((store_content r w n xs).size ≡ r.size)
unfolding store_content
store_content-IsRing r w n xs v = elim (Bool-cases (leb (cell r w) (cell r (add64 w n)))) [
  | inl one ↦ rw one (record { size_eq = v.size_eq; mask_eq = v.mask_eq }, refl)
  | inr two ↦ rw two (record { size_eq = v.size_eq; mask_eq = v.mask_eq }, refl)
]
