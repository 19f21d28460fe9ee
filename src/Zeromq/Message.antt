-- ===== src/Zeromq/Message.antt =====
-- The content of a message part: the entries of the ring buffer in their order.
use flesnet.Base.{
  ℕ, zero, suc, ◌+◌, ◌-◌, ◌≤◌, ◌<◌, ◌≡◌, refl, sym, ap, ◌∙◌, inl, inr, true, false, ◌++◌, arith,
  leb, leb→le, le→leb, ==_of_ne, Bool-cases, read, read-add, u64_mod, add64, sub64,
}
use flesnet.Ring.{RingBuffer, IsRing, cell, at}
use flesnet.Ring.Cells.{cell-lt-size}
use flesnet.Ring.Blocks.{read-cell, cell-add, cell-border}
use flesnet.Zeromq.{content, make_part}

module _ {A : Type 0} (r : RingBuffer A) (offset n : ℕ) (v : IsRing r) (some_entry : 0 < n)
    (within : n ≤ r.size) (no_wrap : offset + n < u64_mod) (size_small : r.size < u64_mod) where
  abbrev left : ℕ
  left = r.size - cell r offset

  border : cell r (offset + left) ≡ 0
  border = cell-border r offset v

  one_chunk :
      cell r offset + n ≤ r.size → leb (cell r offset) (cell r (sub64 (add64 offset n) 1)) ≡ true
  one_chunk h =
      let last : sub64 (add64 offset n) 1 ≡ offset + (n - 1) = omega (arith, some_entry, no_wrap) in
      let at_last = cell-add r offset (n - 1) v (omega (arith, h, some_entry)) in
      le→leb _ _ (omega (arith, ap (cell r) last, at_last))

  two_chunks :
      r.size < cell r offset + n → leb (cell r offset) (cell r (sub64 (add64 offset n) 1)) ≡ false
  two_chunks h =
      let below = cell-lt-size r offset v in
      let last : sub64 (add64 offset n) 1 ≡ offset + left + (n - 1 - left) =
        omega (arith, some_entry, no_wrap, h, below) in
      let at_last =
        cell-add r (offset + left) (n - 1 - left) v (omega (arith, border, h, within)) in
      ground (arith, ap (cell r) last, at_last, border, h, below, within)

  parts_in_order : content (make_part r offset n) ≡ read (at r) offset n
  unfolding content make_part
  parts_in_order = elim (Bool-cases (leb (cell r offset + n) r.size)) [
    | inl inside ↦
        let fits = leb→le (cell r offset + n) r.size inside in
        rw (==_of_ne n 0 (omega arith), one_chunk fits) (read-cell r offset n v fits)
    | inr over ↦
        let past : r.size < cell r offset + n = ground (arith, over) in
        let below = cell-lt-size r offset v in
        let rest : add64 (sub64 n r.size) (cell r offset) ≡ n - left =
          ground (arith, past, below, within, no_wrap, size_small) in
        let cut : left + (n - left) ≡ n = omega (arith, past, below) in
        rw (==_of_ne n 0 (omega arith), two_chunks past, rest)
          (ap (λ l. l ++ read r.buf 0 (n - left)) (read-cell r offset left v (omega (arith, below)))
            ∙ ap (λ l. read (at r) offset left ++ l)
                (ap (λ c. read r.buf c (n - left)) (sym border)
                  ∙ read-cell r (offset + left) (n - left) v (omega (arith, border, within, below)))
            ∙ sym (read-add (at r) offset left (n - left))
            ∙ ap (read (at r) offset) cut)
  ]

-- A message part has the entries from `offset` on, `n` of them, also where they are cut at the border.
pub content-make_part :
    {A : Type 0} (r : RingBuffer A) (offset n : ℕ)
    → IsRing r
    → n ≤ r.size
    → offset + n < u64_mod
    → r.size < u64_mod
    → content (make_part r offset n) ≡ read (at r) offset n
unfolding content make_part
content-make_part r offset zero v within no_wrap small = refl
content-make_part r offset (suc n) v within no_wrap small =
    parts_in_order r offset (suc n) v (omega arith) within no_wrap small
