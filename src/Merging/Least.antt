-- ===== src/Merging/Least.antt =====
-- `std::min_element` over the prefetched items: the position of a least one.
use flesnet.Base.{
  ℕ, zero, suc, ◌+◌, ◌≡◌, refl, sym, inl, inr, true, false, Option, none, some, List, [], ◌∷◌, ◌++◌,
  arith, if◌then◌else◌, Bool-cases, length, get_elem?, length-append, All, All-imp,
}
use mathlib.Core.List.{append-nil, append_assoc}
use flesnet.Merging.{less, min_from, min_element}

module _ {ℓ} {B : Type ℓ} where
  get_elem?-end : (front : List B) (p : B) → get_elem? (front ++ p ∷ []) (length front) ≡ some p
  get_elem?-end [] p = refl
  get_elem?-end (x ∷ front) p = get_elem?-end front p

  get_elem?-front :
      (front ys : List B) (k : ℕ) {b : B}
      → get_elem? front k ≡ some b
      → get_elem? (front ++ ys) k ≡ some b
  get_elem?-front [] ys k h = absurd (cc)
  get_elem?-front (x ∷ front) ys zero h = h
  get_elem?-front (x ∷ front) ys (suc k) h = get_elem?-front front ys k h

  All-append {κ} :
      (P : B → Type κ) (front : List B) {b : B} → All P front → P b → All P (front ++ b ∷ [])
  All-append P [] v w = (w, tt)
  All-append P (x ∷ front) (h, v) w = (h, All-append P front v w)

module _ {ℓ} {A : Type ℓ} (index : A → ℕ) where
  -- Nothing in the list is less.
  abbrev pub IsLeast : Option A → List (Option A) → Type 0
  IsLeast o = All (λ p. less index p o ≡ false)

  -- Where `best` stands in for what it is not greater than.
  less_trans :
      (p o b : Option A) → less index o b ≡ true → less index p b ≡ false → less index p o ≡ false
  unfolding less
  less_trans none o b h k = refl
  less_trans (some p) none b h k = absurd (let e : false ≡ true = h in cc)
  less_trans (some p) (some o) none h k = cc
  less_trans (some p) (some o) (some b) h k = ground arith

  All-less :
      (o b : Option A) (l : List (Option A)) → less index o b ≡ true → IsLeast b l → IsLeast o l
  All-less o b l h =
      All-imp (λ p. less index p b ≡ false) (λ p. less index p o ≡ false) l
        (λ p k. less_trans p o b h k)

  less_refl : (o : Option A) → less index o o ≡ false
  unfolding less
  less_refl none = refl
  less_refl (some a) = ground arith

  -- What stands at a position, and is least.
  abbrev pub Picks : List (Option A) → Option A × ℕ → Type ℓ
  Picks ps r = (get_elem? ps (r.1) ≡ some (r.0)) × IsLeast (r.0) ps

  min_from-Picks :
      (front ps : List (Option A)) (best : Option A × ℕ) (i : ℕ)
      → i ≡ length front
      → Picks front best
      → Picks (front ++ ps) (min_from index best i ps)
  unfolding min_from
  min_from-Picks front [] best i e v = rw (append-nil front) v
  min_from-Picks front (p ∷ ps) best i e (at, least) = rw (sym (append_assoc front (p ∷ []) ps)) (
      min_from-Picks (front ++ p ∷ []) ps (if less index p (best.0) then (p, i) else best) (i + 1)
        (rw (length-append front (p ∷ [])) (omega arith))
        (elim (Bool-cases (less index p (best.0))) [
          | inl h ↦ rw h (
            rw e (get_elem?-end front p),
            All-append _ front (All-less p (best.0) front h least) (less_refl p),
          )
          | inr h ↦ rw h (get_elem?-front front (p ∷ []) (best.1) at, All-append _ front least h)
        ]))

  pub min_element-Picks :
      (p : Option A) (ps : List (Option A)) → Picks (p ∷ ps) (min_element index (p ∷ ps))
  unfolding min_element
  min_element-Picks p ps = min_from-Picks (p ∷ []) ps (p, 0) 1 refl (refl, (less_refl p, tt))
