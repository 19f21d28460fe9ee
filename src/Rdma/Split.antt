-- ===== src/Rdma/Split.antt =====
-- The cut of a remote write at the end of the target buffer keeps all bytes in their order:
-- send_data of lib/fles_rdma/InputChannelConnection.cpp.
use flesnet.Base.{
  ℕ, suc, ◌+◌, ◌-◌, ◌≤◌, ◌<◌, ◌≡◌, refl, sym, ap, ◌∙◌, inl, inr, true, false, List, [], ◌∷◌, ◌++◌,
  arith, leb, ◌==◌, Bool-cases, length, take, read, All, read-add,
}
use mathlib.Core.List.{append_assoc}
use flesnet.Rdma.Write.{Sge, split, gather}

-- Pieces that are not empty.
unfoldable pub Solid : List Sge → Type 0
Solid ss = All (λ s. 0 < s.length) ss

-- Where nothing of the buffer is left, every piece goes to its begin.
pub split-zero : (ss : List Sge) → Solid ss → split 0 ss ≡ (ss, ss, length ss)
unfolding split Solid
split-zero [] h = refl
split-zero (s ∷ ss) (p, h) =
    let over : leb s.length 0 ≡ false = ground (arith, p) in
    rw (over, split-zero ss h) (ap (λ n. (s ∷ ss, s ∷ ss, n)) (omega arith))

-- The number of pieces that are not sent first.
pub cut-le : (left : ℕ) (ss : List Sge) → (split left ss).2 ≤ length ss
unfolding split
cut-le left [] = omega arith
cut-le left (s ∷ ss) = elim (Bool-cases (leb s.length left)) [
  | inl fits ↦ rw (fits) (omega (arith, cut-le (left - s.length) ss))
  | inr over ↦ elim (Bool-cases (left == 0)) [
    | inl none_left ↦ rw (over, none_left) (omega (arith, cut-le 0 ss))
    | inr some_left ↦ rw (over, some_left) (omega (arith, cut-le 0 ss))
  ]
]

-- The bytes of both writes.
abbrev pub joined : (ℕ → ℕ) → ℕ → List Sge × List Sge × ℕ → List ℕ
joined m n r = gather m (take (n - r.2) (r.0)) ++ gather m (r.1)

module _ (left : ℕ) (s : Sge) (ss : List Sge) where
  pub split-fits :
      leb s.length left ≡ true
      → split left (s ∷ ss) ≡ (
        s ∷ (split (left - s.length) ss).0,
        (split (left - s.length) ss).1,
        (split (left - s.length) ss).2,
      )
  unfolding split
  split-fits fits = rw (fits) refl

  pub split-over :
      leb s.length left ≡ false
      → (left == 0) ≡ false
      → split left (s ∷ ss) ≡ (
        record s { length = left } ∷ (split 0 ss).0,
        record s { addr = s.addr + left; length = s.length - left } ∷ (split 0 ss).1,
        (split 0 ss).2,
      )
  unfolding split
  split-over over some_left = rw (over, some_left) refl

-- The first write keeps its length where a piece goes in front.
joined-cons :
    (m : ℕ → ℕ) (n : ℕ) (s : Sge) (xs ys : List Sge) (c : ℕ)
    → c ≤ n
    → joined m (suc n) (s ∷ xs, ys, c) ≡ read m s.addr s.length ++ joined m n (xs, ys, c)
unfolding gather
joined-cons m n s xs ys c h =
    let e : suc n - c ≡ suc (n - c) = omega (arith, h) in
    ap (λ k. gather m (take k (s ∷ xs)) ++ gather m ys) e
    ∙ append_assoc (read m s.addr s.length) (gather m (take (n - c) xs)) (gather m ys)

-- Where nothing fits, all pieces are for the second write.
joined-zero : (m : ℕ → ℕ) (ss : List Sge) → joined m (length ss) (ss, ss, length ss) ≡ gather m ss
unfolding gather
joined-zero m ss =
    let e : length ss - length ss ≡ 0 = omega arith in
    ap (λ k. gather m (take k ss) ++ gather m ss) e

-- The pieces sent to the rest of the buffer, and those to its begin, are the bytes of the list
-- that was cut, in their order, where no piece of it is empty.
pub split-gather :
    (m : ℕ → ℕ) (left : ℕ) (ss : List Sge)
    → Solid ss
    → joined m (length ss) (split left ss) ≡ gather m ss
unfolding split gather Solid
split-gather m left [] h = refl
split-gather m left (s ∷ ss) (p, h) = elim (Bool-cases (leb s.length left)) [
  | inl fits ↦
      let r = split (left - s.length) ss in
      ap (joined m (suc (length ss))) (split-fits left s ss fits)
      ∙ joined-cons m (length ss) s (r.0) (r.1) (r.2) (cut-le (left - s.length) ss)
      ∙ ap (◌++◌ (read m s.addr s.length)) (split-gather m (left - s.length) ss h)
  | inr over ↦ elim (Bool-cases (left == 0)) [
    | inl none_left ↦
        let zero_left : left ≡ 0 = ground (arith, none_left) in
        ap (λ k. joined m (suc (length ss)) (split k (s ∷ ss))) zero_left
        ∙ ap (joined m (suc (length ss))) (split-zero (s ∷ ss) (p, h))
        ∙ joined-zero m (s ∷ ss)
    | inr some_left ↦
        let whole : left + (s.length - left) ≡ s.length = ground (arith, over) in
        ap (joined m (suc (length ss))) (split-over left s ss over some_left)
        ∙ ap
            (λ r. joined m (suc (length ss)) (
              record s { length = left } ∷ r.0,
              record s { addr = s.addr + left; length = s.length - left } ∷ r.1,
              r.2,
            ))
            (split-zero ss h)
        ∙ joined-cons m (length ss) (record s { length = left }) ss
            (record s { addr = s.addr + left; length = s.length - left } ∷ ss) (length ss)
            (omega arith)
        ∙ ap
            (λ k.
              read m s.addr left
              ++ (gather m (take k ss)
                  ++ (read m (s.addr + left) (s.length - left) ++ gather m ss)))
            (let e : length ss - length ss ≡ 0 = omega arith in e)
        ∙ sym (
            append_assoc (read m s.addr left) (read m (s.addr + left) (s.length - left))
              (gather m ss))
        ∙ ap (λ xs. xs ++ gather m ss)
            (sym (read-add m s.addr left (s.length - left)) ∙ ap (read m s.addr) whole)
  ]
]
