-- ===== src/Merging/Tests.antt =====
-- Two sources of which one ends early, and one that is empty.
use flesnet.Base.{ℕ, suc, ◌≡◌, refl, some, List, [], ◌∷◌, arith, length, All}
use mathlib.Core.List.{flatten}
use native.Mathlib.Bridge.{le_prop}
use mathlib.Core.List.Pairwise
use mathlib.Core.List.{forall_mem-cons, not-mem-nil, Pairwise-singleton}
use flesnet.Merging.{create, drain, do_get, init_prefetch, take_item, less, min_from, min_element}
use flesnet.Merging.Lanes.{IsSorted}
use flesnet.Merging.Output.{Merges, merged}

abbrev same : ℕ → ℕ
same n = n

abbrev three : List (List ℕ)
three = (3 ∷ 4 ∷ []) ∷ [] ∷ (2 ∷ []) ∷ []

three_drained : drain same 4 (create three) ≡ some (2 ∷ 3 ∷ 4 ∷ [])
unfolding drain do_get init_prefetch take_item less min_from min_element
three_drained = refl

three-IsSorted : All (IsSorted same) three
three-IsSorted = (
  Pairwise.cons ((forall_mem-cons λ x. le_prop).1 (omega arith, λ x m. absurd (not-mem-nil m)))
      (Pairwise-singleton _ 4),
  (Pairwise.nil, (Pairwise-singleton _ 2, tt)),
)

merged_example :
    Merges same (flatten three) (drain same (suc (length (flatten three))) (create three))
merged_example = merged same three three-IsSorted
