-- ===== src/Merging.antt =====
-- lib/fles_ipc/MergingSource.hpp: several sources of items merged by index. A source is what it has
-- yet to give, and at the end of its stream it gives nothing more (Source.hpp).
pub mod Least
pub mod Lanes
pub mod Output
mod Tests
use flesnet.Base.{
  ℕ, zero, suc, ◌+◌, Bool, true, false, Option, none, some, List, [], ◌∷◌, ◌++◌, map, ltb,
  if◌then◌else◌,
}

pub record MergingSource {ℓ} (A : Type ℓ) : Type ℓ where
  pub sources : List (List A)
  pub prefetched_items : List (Option A)
  pub eos : Bool

module _ {ℓ} {A : Type ℓ} where
  -- `get` of a source: the item, and the source after it.
  abbrev pub get : List A → Option A
  get [] = none
  get (x ∷ q) = some x

  abbrev pub after_get : List A → List A
  after_get [] = []
  after_get (x ∷ q) = q

  abbrev pub create : List (List A) → MergingSource A
  create [] = record { sources = []; prefetched_items = []; eos = true }
  create (q ∷ qs) = record { sources = q ∷ qs; prefetched_items = []; eos = false }

  pub init_prefetch : MergingSource A → MergingSource A
  init_prefetch s = record s {
    prefetched_items = s.prefetched_items ++ map get s.sources;
    sources = map after_get s.sources;
  }

  abbrev pub is_empty : List (Option A) → Bool
  is_empty [] = true
  is_empty (p ∷ ps) = false

  -- `prefetched_items_.at(i) = sources_.at(i)->get()`, as the two vectors after it.
  abbrev pub refill : ℕ → List (List A) → List (Option A) → List (Option A)
  refill i qs [] = []
  refill i [] (p ∷ ps) = p ∷ ps
  refill zero (q ∷ qs) (p ∷ ps) = get q ∷ ps
  refill (suc i) (q ∷ qs) (p ∷ ps) = p ∷ refill i qs ps

  abbrev pub advance : ℕ → List (List A) → List (List A)
  advance i [] = []
  advance zero (q ∷ qs) = after_get q ∷ qs
  advance (suc i) (q ∷ qs) = q ∷ advance i qs

  pub take_item : MergingSource A → Option A × ℕ → Option A × MergingSource A
  take_item s (none, i) = (none, record s { eos = true })
  take_item s (some a, i) = (
    some a,
    record s {
      prefetched_items = refill i s.sources s.prefetched_items;
      sources = advance i s.sources;
    },
  )

  module _ (index : A → ℕ) where
    -- The order of `do_get`: what is not there comes last.
    pub less : Option A → Option A → Bool
    less none b = false
    less (some a) none = true
    less (some a) (some b) = ltb (index a) (index b)

    -- `std::min_element`: what the iterator points to, and its position. `best` is the smallest so
    -- far, and `i` the position of the head of the rest.
    pub min_from : Option A × ℕ → ℕ → List (Option A) → Option A × ℕ
    min_from best i [] = best
    min_from best i (p ∷ ps) = min_from (if less p (best.0) then (p, i) else best) (i + 1) ps

    pub min_element : List (Option A) → Option A × ℕ
    min_element [] = (none, 0)
    min_element (p ∷ ps) = min_from (p, 0) 1 ps

    pub do_get : MergingSource A → Option A × MergingSource A
    do_get s =
        let s' = if is_empty s.prefetched_items then init_prefetch s else s in
        if s.eos then (none, s) else take_item s' (min_element s'.prefetched_items)

    abbrev pub deliver : Option A → Option (List A) → Option (List A)
    deliver none rest = some []
    deliver (some a) none = none
    deliver (some a) (some l) = some (a ∷ l)

    -- What the calls of `get` give up to the first null; `none` means that there was no null.
    pub drain : ℕ → MergingSource A → Option (List A)
    drain zero s = none
    drain (suc n) s = let r = do_get s in deliver (r.0) (drain n (r.1))
