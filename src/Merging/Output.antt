-- ===== src/Merging/Output.antt =====
-- What a merging source gives: all items of its sources, in the order of their indices.
use flesnet.Base.{
  ℕ, zero, suc, ◌<◌, ◌≡◌, refl, sym, subst, false, Option, none, some, List, [], ◌∷◌, map, arith,
  length, All,
}
use mathlib.Core.List.{flatten, Perm, Pairwise, mem-cons_of_mem}
use mathlib.Core.List.Perm
use flesnet.Merging.{
  MergingSource, create, init_prefetch, get, after_get, is_empty, refill, advance, take_item,
  min_element, do_get, deliver, drain,
}
use flesnet.Merging.Least.{Picks, min_element-Picks}
use flesnet.Merging.Lanes.{
  lanes, IsPrefetched, prefetch-IsPrefetched, prefetch-lanes, refill-IsPrefetched, refill-perm,
  refill-length, IsSorted, refill-IsSorted, IsLeast-IsBelow, IsLeast-none, IsBelow,
}

module _ {ℓ} {A : Type ℓ} (index : A → ℕ) where
  abbrev open_state : List (Option A) → List (List A) → MergingSource A
  open_state ps qs = record { sources = qs; prefetched_items = ps; eos = false }

  refill-is_empty :
      (i : ℕ) (qs : List (List A)) (ps : List (Option A))
      → is_empty ps ≡ false
      → is_empty (refill i qs ps) ≡ false
  refill-is_empty i qs [] h = h
  refill-is_empty i [] (p ∷ ps) h = h
  refill-is_empty zero (q ∷ qs) (p ∷ ps) h = refl
  refill-is_empty (suc i) (q ∷ qs) (p ∷ ps) h = refl

  picks : (ps : List (Option A)) → is_empty ps ≡ false → Picks index ps (min_element index ps)
  picks [] h = absurd cc
  picks (p ∷ ps) h = min_element-Picks index p ps

  -- What a merged stream is: the items in another order, ascending.
  abbrev pub Merges : List A → Option (List A) → Type ℓ
  Merges items r = (out : List A) × (r ≡ some out) × Perm out items × IsSorted index out

  deliver-Merges :
      (a : A) (items rest : List A) (r : Option (List A))
      → Perm (a ∷ rest) items
      → IsBelow index a items
      → Merges rest r
      → Merges items (deliver index (some a) r)
  deliver-Merges a items rest r p below (out, e, perm, sorted) = (
    a ∷ out,
    rw e,
    Perm.trans (Perm.cons a perm) p,
    Pairwise.cons
        (λ x m. below x ((Perm.mem_iff p).0 (mem-cons_of_mem a ((Perm.mem_iff perm).0 m)))) sorted,
  )

  drain-Merges :
      (n : ℕ) (ps : List (Option A)) (qs : List (List A))
      → is_empty ps ≡ false
      → IsPrefetched ps qs
      → All (IsSorted index) (lanes ps qs)
      → length (flatten (lanes ps qs)) < n
      → Merges (flatten (lanes ps qs)) (drain index n (open_state ps qs))
  unfolding drain do_get take_item
  drain-Merges zero ps qs ne v s h = absurd (omega arith)
  drain-Merges (suc n) ps qs ne v s h =
      rw ne (taken n ps qs (min_element index ps) ne v s h (picks ps ne) (drain-Merges n))
    where
      taken :
          (n : ℕ) (ps : List (Option A)) (qs : List (List A)) (r : Option A × ℕ)
          → is_empty ps ≡ false
          → IsPrefetched ps qs
          → All (IsSorted index) (lanes ps qs)
          → length (flatten (lanes ps qs)) < suc n
          → Picks index ps r
          → ((ps' : List (Option A)) (qs' : List (List A))
              → is_empty ps' ≡ false
              → IsPrefetched ps' qs'
              → All (IsSorted index) (lanes ps' qs')
              → length (flatten (lanes ps' qs')) < n
              → Merges (flatten (lanes ps' qs')) (drain index n (open_state ps' qs')))
          → Merges (flatten (lanes ps qs)) (
              deliver index
                ((take_item (open_state ps qs) r).0)
                (drain index n ((take_item (open_state ps qs) r).1)))
      taken n ps qs (none, i) ne v s h (at, least) next =
          ([], refl, rw (IsLeast-none index v least) Perm.rfl, Pairwise.nil)
      taken n ps qs (some a, i) ne v s h (at, least) next =
          deliver-Merges a (flatten (lanes ps qs)) (flatten (lanes (refill i qs ps) (advance i qs)))
            (drain index n (open_state (refill i qs ps) (advance i qs))) (refill-perm i a v at)
            (IsLeast-IsBelow index a v s least)
            (next (refill i qs ps) (advance i qs) (refill-is_empty i qs ps ne)
              (refill-IsPrefetched i v) (refill-IsSorted index i v s)
              (omega (arith, refill-length i a v at)))

  first_get :
      (n : ℕ) (q : List A) (qs : List (List A))
      → drain index (suc n) (create (q ∷ qs))
        ≡ drain index (suc n) (open_state (map get (q ∷ qs)) (map after_get (q ∷ qs)))
  unfolding drain do_get init_prefetch
  first_get n q qs = refl

  -- Sources whose items ascend are merged into one stream of all their items that ascends, and ends.
  pub merged :
      (qs : List (List A))
      → All (IsSorted index) qs
      → Merges (flatten qs) (drain index (suc (length (flatten qs))) (create qs))
  unfolding drain do_get flatten
  merged [] s = ([], refl, Perm.rfl, Pairwise.nil)
  merged (q ∷ qs) s = rw (first_get (length (flatten (q ∷ qs))) q qs) (
      subst
        (λ l. Merges (flatten l) (
          drain index (suc (length (flatten (q ∷ qs))))
            (open_state (map get (q ∷ qs)) (map after_get (q ∷ qs)))))
        (prefetch-lanes (q ∷ qs))
        (drain-Merges (suc (length (flatten (q ∷ qs)))) (map get (q ∷ qs)) (map after_get (q ∷ qs))
          refl (prefetch-IsPrefetched (q ∷ qs))
          (subst (λ l. All (IsSorted index) l) (sym (prefetch-lanes (q ∷ qs))) s)
          (subst (λ l. length (flatten l) < suc (length (flatten (q ∷ qs))))
            (sym (prefetch-lanes (q ∷ qs))) (omega arith))))
