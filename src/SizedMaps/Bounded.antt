-- ===== src/SizedMaps/Bounded.antt =====
-- The map stays within its size, and what an addition leaves in it.
use flesnet.Base.{
  ℕ, suc, ◌+◌, ◌-◌, ◌≤◌, ◌<◌, ◌≡◌, refl, ap, inl, inr, false, Option, none, some, List, [], ◌∷◌,
  arith, ltb, ◌==◌, if◌then◌else◌, ltb→lt, ==_of_ne, Bool-cases, length,
}
use flesnet.SizedMaps.{find, insert, erase, assign, erase_first, is_some}

module _ {ℓ} {V : Type ℓ} where
  abbrev pub IsAbove : ℕ → List (ℕ × V) → Type 0
  IsAbove k [] = Unit {0}
  IsAbove k (e ∷ l) = (k < e.0) × IsAbove k l

  -- Each key is less than those behind it.
  abbrev pub IsAscending : List (ℕ × V) → Type 0
  IsAscending [] = Unit {0}
  IsAscending (e ∷ l) = IsAbove (e.0) l × IsAscending l

  IsAbove-le : (j k : ℕ) (l : List (ℕ × V)) → j ≤ k → IsAbove k l → IsAbove j l
  IsAbove-le j k [] h v = tt
  IsAbove-le j k (e ∷ l) h (lt, v) = (omega (arith, lt, h), IsAbove-le j k l h v)

  pub find-IsAbove : (j k : ℕ) (l : List (ℕ × V)) → j ≤ k → IsAbove k l → find j l ≡ none
  unfolding find
  find-IsAbove j k [] h v = refl
  find-IsAbove j k (e ∷ l) h (lt, v) =
      rw (==_of_ne j (e.0) (omega (arith, lt, h))) (find-IsAbove j k l h v)

  insert-IsAbove :
      (j k : ℕ) (v : V) (l : List (ℕ × V)) → j < k → IsAbove j l → IsAbove j (insert k v l)
  unfolding insert
  insert-IsAbove j k v [] h a = (h, tt)
  insert-IsAbove j k v (e ∷ l) h (lt, a) = elim (Bool-cases (ltb k (e.0))) [
    | inl less ↦ rw less (h, (lt, a))
    | inr more ↦ elim (Bool-cases (k == e.0)) [
      | inl same ↦ rw (more, same) (lt, a)
      | inr other ↦ rw (more, other) (lt, insert-IsAbove j k v l h a)
    ]
  ]

  pub insert-IsAscending :
      (k : ℕ) (v : V) (l : List (ℕ × V)) → IsAscending l → IsAscending (insert k v l)
  unfolding insert
  insert-IsAscending k v [] s = (tt, tt)
  insert-IsAscending k v (e ∷ l) (a, s) = elim (Bool-cases (ltb k (e.0))) [
    | inl less ↦
        let lt = ltb→lt k (e.0) less in
        rw less ((lt, IsAbove-le k (e.0) l (omega (arith, lt)) a), (a, s))
    | inr more ↦ elim (Bool-cases (k == e.0)) [
      | inl same ↦ rw (more, same) (a, s)
      | inr other ↦
          rw (more, other)
            (insert-IsAbove (e.0) k v l (ground (arith, more, other)) a, insert-IsAscending k v l s)
    ]
  ]

  absent_head :
      (k : ℕ) (e : ℕ × V) (l : List (ℕ × V))
      → find k (e ∷ l) ≡ none
      → ((k == e.0) ≡ false) × (find k l ≡ none)
  unfolding find
  absent_head k e l h = elim (Bool-cases (k == e.0)) [
    | inl same ↦ (let none_some : some (e.1) ≡ none = rw same at h in absurd cc)
    | inr other ↦ (other, rw other at h)
  ]

  -- Where the key is not there, it is there afterwards, and nothing else changes.
  pub find-insert :
      (j k : ℕ) (v : V) (l : List (ℕ × V))
      → find k l ≡ none
      → find j (insert k v l) ≡ (if j == k then some v else find j l)
  unfolding find insert
  find-insert j k v [] h = refl
  find-insert j k v (e ∷ l) h =
      let (other, rest) = absent_head k e l h in
      elim (Bool-cases (ltb k (e.0))) [
        | inl less ↦ rw less refl
        | inr more ↦
            rw (more, other)
              (elim (Bool-cases (j == e.0)) [
                | inl here ↦
                    let apart : (j == k) ≡ false = ground (arith, here, other) in
                    rw (here, apart) refl
                | inr beyond ↦ rw (beyond, find-insert j k v l rest) refl
              ])
      ]

  pub length-insert :
      (k : ℕ) (v : V) (l : List (ℕ × V)) → find k l ≡ none → length (insert k v l) ≡ length l + 1
  unfolding insert
  length-insert k v [] h = refl
  length-insert k v (e ∷ l) h =
      let (other, rest) = absent_head k e l h in
      elim (Bool-cases (ltb k (e.0))) [
        | inl less ↦ rw less (omega arith)
        | inr more ↦ rw (more, other) (omega (arith, length-insert k v l rest))
      ]

  -- The other operations of the map.
  erase-IsAbove : (j k : ℕ) (l : List (ℕ × V)) → IsAbove j l → IsAbove j (erase k l)
  unfolding erase
  erase-IsAbove j k [] a = tt
  erase-IsAbove j k (e ∷ l) (lt, a) = elim (Bool-cases (k == e.0)) [
    | inl same ↦ rw same a
    | inr other ↦ rw other (lt, erase-IsAbove j k l a)
  ]

  pub erase-IsAscending :
      (k : ℕ) (l : List (ℕ × V))
      → IsAscending l
      → IsAscending (erase k l) × (length (erase k l) ≤ length l)
  unfolding erase
  erase-IsAscending k [] s = (tt, omega arith)
  erase-IsAscending k (e ∷ l) (a, s) =
      let (sorted, size) = erase-IsAscending k l s in
      elim (Bool-cases (k == e.0)) [
        | inl same ↦ rw same (s, omega arith)
        | inr other ↦ rw other ((erase-IsAbove (e.0) k l a, sorted), omega (arith, size))
      ]

  assign-IsAbove : (j k : ℕ) (v : V) (l : List (ℕ × V)) → IsAbove j l → IsAbove j (assign k v l)
  unfolding assign
  assign-IsAbove j k v [] a = tt
  assign-IsAbove j k v (e ∷ l) (lt, a) = elim (Bool-cases (k == e.0)) [
    | inl same ↦ rw same (lt, a)
    | inr other ↦ rw other (lt, assign-IsAbove j k v l a)
  ]

  pub assign-IsAscending :
      (k : ℕ) (v : V) (l : List (ℕ × V))
      → IsAscending l
      → IsAscending (assign k v l) × (length (assign k v l) ≡ length l)
  unfolding assign
  assign-IsAscending k v [] s = (tt, refl)
  assign-IsAscending k v (e ∷ l) (a, s) =
      let (sorted, size) = assign-IsAscending k v l s in
      elim (Bool-cases (k == e.0)) [
        | inl same ↦ rw same ((a, s), refl)
        | inr other ↦ rw other ((assign-IsAbove (e.0) k v l a, sorted), ap suc size)
      ]

  pub erase_first-IsAscending :
      (l : List (ℕ × V))
      → IsAscending l
      → IsAscending (erase_first l) × (length (erase_first l) ≡ length l - 1)
  erase_first-IsAscending [] s = (tt, refl)
  erase_first-IsAscending (e ∷ l) (a, s) = (s, omega arith)

  pub find-erase_first :
      (j : ℕ) (l : List (ℕ × V)) → find j l ≡ none → find j (erase_first l) ≡ none
  find-erase_first j [] h = h
  find-erase_first j (e ∷ l) h = (absent_head j e l h).1

  pub none_of : (o : Option V) → is_some o ≡ false → o ≡ none
  none_of none h = refl
  none_of (some v) h = absurd cc
