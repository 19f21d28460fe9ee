-- ===== src/Merging/Lanes.antt =====
-- The state as one list per source: the prefetched item and what the source has yet to give.
use flesnet.Base.{
  ℕ, zero, suc, ◌+◌, ◌≤◌, ◌≡◌, refl, false, Option, none, some, List, [], ◌∷◌, map, arith, some_inj,
  length, get_elem?, length-append, All,
}
use mathlib.Core.List.{
  flatten, Perm, Mem, Pairwise, perm_middle, mem-append, not-mem-nil, forall_mem-cons,
}
use mathlib.Core.List.Pairwise
use mathlib.Core.List.Perm
use mathlib.Core.Logic.Or
use native.Mathlib.Bridge.{le_prop}
use flesnet.Merging.{get, after_get, refill, advance, less}
use flesnet.Merging.Least.{IsLeast}

module _ {ℓ} {A : Type ℓ} where
  abbrev pub lane : Option A → List A → List A
  lane none q = q
  lane (some a) q = a ∷ q

  abbrev pub lanes : List (Option A) → List (List A) → List (List A)
  lanes [] qs = []
  lanes (p ∷ ps) [] = []
  lanes (p ∷ ps) (q ∷ qs) = lane p q ∷ lanes ps qs

  -- There is an item for each source that has not ended.
  pub data IsPrefetched : List (Option A) → List (List A) → Type ℓ where
    nil : IsPrefetched [] []
    cons :
        {p : Option A} {q : List A} {ps : List (Option A)} {qs : List (List A)}
        → (p ≡ none → q ≡ [])
        → IsPrefetched ps qs
        → IsPrefetched (p ∷ ps) (q ∷ qs)

  get-lane : (q : List A) → lane (get q) (after_get q) ≡ q
  get-lane [] = refl
  get-lane (x ∷ q) = refl

  get-after : (q : List A) → get q ≡ none → after_get q ≡ []
  get-after [] h = refl
  get-after (x ∷ q) h = absurd cc

  pub prefetch-IsPrefetched : (qs : List (List A)) → IsPrefetched (map get qs) (map after_get qs)
  prefetch-IsPrefetched [] = nil
  prefetch-IsPrefetched (q ∷ qs) = cons (get-after q) (prefetch-IsPrefetched qs)

  pub prefetch-lanes : (qs : List (List A)) → lanes (map get qs) (map after_get qs) ≡ qs
  prefetch-lanes [] = refl
  prefetch-lanes (q ∷ qs) = rw (get-lane q, prefetch-lanes qs)

  pub refill-IsPrefetched :
      {ps : List (Option A)} {qs : List (List A)} (i : ℕ)
      → IsPrefetched ps qs
      → IsPrefetched (refill i qs ps) (advance i qs)
  refill-IsPrefetched i nil = nil
  refill-IsPrefetched zero (cons {q = q} h v) = cons (get-after q) v
  refill-IsPrefetched (suc i) (cons h v) = cons h (refill-IsPrefetched i v)

  -- The item at a position, and the lanes without it.
  pub refill-perm :
      {ps : List (Option A)} {qs : List (List A)} (i : ℕ) (a : A)
      → IsPrefetched ps qs
      → get_elem? ps i ≡ some (some a)
      → Perm (a ∷ flatten (lanes (refill i qs ps) (advance i qs))) (flatten (lanes ps qs))
  unfolding flatten
  refill-perm i a nil h = absurd cc
  refill-perm zero a (cons {p = p} {q = q} e v) h = rw (some_inj h, get-lane q) Perm.rfl
  refill-perm (suc i) a (cons {p = p} {q = q} {ps = ps} {qs = qs} e v) h =
      Perm.trans
        (Perm.symm (perm_middle (lane p q) (flatten (lanes (refill i qs ps) (advance i qs)))))
        (Perm.append_left (lane p q) (refill-perm i a v h))

  -- One item less.
  pub refill-length :
      {ps : List (Option A)} {qs : List (List A)} (i : ℕ) (a : A)
      → IsPrefetched ps qs
      → get_elem? ps i ≡ some (some a)
      → length (flatten (lanes ps qs))
        ≡ length (flatten (lanes (refill i qs ps) (advance i qs))) + 1
  unfolding flatten
  refill-length i a nil h = absurd cc
  refill-length zero a (cons {p = p} {q = q} e v) h = rw (some_inj h, get-lane q) (omega arith)
  refill-length (suc i) a (cons {p = p} {q = q} {ps = ps} {qs = qs} e v) h =
      rw
        (
          length-append (lane p q) (flatten (lanes ps qs)),
          length-append (lane p q) (flatten (lanes (refill i qs ps) (advance i qs))),
        )
        (omega (arith, refill-length i a v h))

  module _ (index : A → ℕ) where
    abbrev pub IsSorted : List A → Type ℓ
    IsSorted = Pairwise (λ x y. index x ≤ index y)

    after-IsSorted : (q : List A) → IsSorted q → IsSorted (after_get q)
    after-IsSorted [] v = v
    after-IsSorted (x ∷ q) v = Pairwise.of_cons v

    lane-IsSorted : (p : Option A) (q : List A) → IsSorted (lane p q) → IsSorted q
    lane-IsSorted none q v = v
    lane-IsSorted (some a) q v = Pairwise.of_cons v

    pub refill-IsSorted :
        {ps : List (Option A)} {qs : List (List A)} (i : ℕ)
        → IsPrefetched ps qs
        → All IsSorted (lanes ps qs)
        → All IsSorted (lanes (refill i qs ps) (advance i qs))
    refill-IsSorted i nil s = s
    refill-IsSorted zero (cons {p = p} {q = q} e v) (s, t) =
        (rw (get-lane q) (lane-IsSorted p q s), t)
    refill-IsSorted (suc i) (cons e v) (s, t) = (s, refill-IsSorted i v t)

    abbrev pub IsBelow : A → List A → Type ℓ
    IsBelow a l = (x : A) → Mem x l → index a ≤ index x

    lane-IsBelow :
        (a : A) (p : Option A) (q : List A)
        → (p ≡ none → q ≡ [])
        → less index p (some a) ≡ false
        → IsSorted (lane p q)
        → IsBelow a (lane p q)
    unfolding less
    lane-IsBelow a none q e h s = rw (e refl) (λ x m. absurd (not-mem-nil m))
    lane-IsBelow a (some b) q e h (Pairwise.cons below s) =
        let le : index a ≤ index b = ground (arith, h) in
        (forall_mem-cons (λ x. le_prop)).1 (le, λ x m. omega (arith, below x m))

    -- A least item is below all that is to come.
    pub IsLeast-IsBelow :
        {ps : List (Option A)} {qs : List (List A)} (a : A)
        → IsPrefetched ps qs
        → All IsSorted (lanes ps qs)
        → IsLeast index (some a) ps
        → IsBelow a (flatten (lanes ps qs))
    unfolding flatten
    IsLeast-IsBelow a nil s h = λ x m. absurd (not-mem-nil m)
    IsLeast-IsBelow a (cons {p = p} {q = q} e v) (s, t) (h, k) = λ x m.
        Or.elim le_prop (mem-append.0 m) (lane-IsBelow a p q e h s x) (IsLeast-IsBelow a v t k x)

    pub IsLeast-none :
        {ps : List (Option A)} {qs : List (List A)}
        → IsPrefetched ps qs
        → IsLeast index none ps
        → flatten (lanes ps qs) ≡ []
    unfolding flatten less
    IsLeast-none nil h = refl
    IsLeast-none (cons {p = none} e v) (h, k) = rw (e refl) (IsLeast-none v k)
    IsLeast-none (cons {p = some b} e v) (h, k) = absurd cc
