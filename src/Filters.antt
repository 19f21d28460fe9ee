-- ===== src/Filters.antt =====
-- lib/fles_core/Filter.hpp: a filter between streams, and the two ways to put it into one: in front of
-- a sink and behind a source; with the filters of lib/fles_core/FilterExamples.hpp. A source is the
-- list of what it has yet to give, and a sink is the list of what was put into it.
pub mod Push
pub mod Pull
pub mod Combine
mod Tests
use flesnet.Base.{
  ℕ, zero, suc, ◌%◌, ◌^◌, Bool, true, false, not, Option, none, some, List, [], ◌∷◌, ◌++◌, map,
  if◌then◌else◌, length, take, add32,
}
use mathlib.Core.Option
use flesnet.MicrosliceStream.{MicrosliceDescriptor, Microslice}

-- `BufferingFilter`
pub record BufferingFilter {ℓ κ} (I : Type ℓ) (O : Type κ) : Type (ℓ ⊔ κ) where
  pub input : List I
  pub output : List O

-- `FilteredSource`
pub record FilteredSource {ℓ κ} (I : Type ℓ) (F : Type κ) : Type (ℓ ⊔ κ) where
  pub source : List I
  pub filter : F
  pub more : Bool
  pub eos_flag : Bool

-- What `do_get` of a filtered source returns: `null_pointer` is the use of an output that is not
-- there.
pub data Got {ℓ} (O : Type ℓ) : Type ℓ where
  at_end : Got O
  got : O → Got O
  null_pointer : Got O

-- A filter: what `exchange_item` returns, and the filter after it.
abbrev pub Exchange {ℓ κ μ} : Type ℓ → Type κ → Type μ → Type (ℓ ⊔ κ ⊔ μ)
Exchange I O F = Option I → F → (Option O × Bool) × F

abbrev pub is_empty {ℓ} : {A : Type ℓ} → List A → Bool
is_empty [] = true
is_empty (x ∷ l) = false

abbrev pub sink_put {ℓ} : {O : Type ℓ} → List O → Option O → List O
sink_put sink none = sink
sink_put sink (some y) = sink ++ y ∷ []

module _ {ℓ κ} {I : Type ℓ} {O : Type κ} where
  abbrev pub push_item : Option I → BufferingFilter I O → BufferingFilter I O
  push_item none f = f
  push_item (some x) f = record f { input = f.input ++ x ∷ [] }

  -- The front of `output`, whether there is more, and the rest.
  abbrev pub pop_output : List I → List O → (Option O × Bool) × BufferingFilter I O
  pop_output input [] = ((none, false), record { input = input; output = [] })
  pop_output input (y ∷ ys) = ((some y, not (is_empty ys)), record { input = input; output = ys })

  -- `exchange_item`; the method `process` is that of the class derived from it.
  pub exchange_item :
      (BufferingFilter I O → BufferingFilter I O) → Exchange I O (BufferingFilter I O)
  exchange_item process item f =
      let f' = push_item item f in
      let f'' = if is_empty f'.output then process f' else f' in pop_output f''.input f''.output

  module _ {μ} {F : Type μ} (exchange : Exchange I O F) where
    -- `while (filter_output.second)` of `put`, with fuel; `none` means that the fuel ran out.
    pub put_more : ℕ → Bool × F → List O → Option (F × List O)
    put_more n (false, f) sink = some (f, sink)
    put_more zero (true, f) sink = none
    put_more (suc n) (true, f) sink =
        let r = exchange none f in put_more n (r.0.1, r.1) (sink_put sink (r.0.0))

    -- `FilteringSink::put`
    pub put : ℕ → I → F × List O → Option (F × List O)
    put n item (f, sink) =
        let r = exchange (some item) f in put_more n (r.0.1, r.1) (sink_put sink (r.0.0))

    -- The loop of `do_get`: items of the source until the filter gives something.
    pub pull : List I → F → (Option (O × Bool)) × List I × F
    pull [] f = (none, [], f)
    pull (x ∷ xs) f =
        let r = exchange (some x) f in
        let rest = pull xs (r.1) in
        elim (r.0.0) [ none ↦ rest | some y ↦ (some (y, r.0.1), xs, r.1) ]

    -- A sequence of items, one after the other.
    pub put_all : ℕ → List I → F × List O → Option (F × List O)
    put_all n [] s = some s
    put_all n (x ∷ xs) s = Option.bind (put n x s) (put_all n xs)

    abbrev pub item_of : Option O → Got O
    item_of none = null_pointer
    item_of (some y) = got y

    pub do_get : FilteredSource I F → Got O × FilteredSource I F
    do_get s =
        let r = exchange none s.filter in
        let p = pull s.source s.filter in
        if s.eos_flag
        then (at_end, s)
        else if s.more
        then (item_of (r.0.0), record s { filter = r.1; more = r.0.1 })
        else (
          elim (p.0) [ none ↦ at_end | some y ↦ got (y.0) ],
          record s {
            source = p.1;
            filter = p.2;
            more = elim (p.0) [ none ↦ s.more | some y ↦ y.1 ];
            eos_flag = elim (p.0) [ none ↦ true | some y ↦ s.eos_flag ];
          },
        )

    abbrev pub deliver : Got O → Option (List O) → Option (List O)
    deliver at_end rest = some []
    deliver (got y) rest = Option.map (λ l. y ∷ l) rest
    deliver null_pointer rest = none

    -- What the calls of `get` give up to the end; `none` means that there was no end.
    pub drain : ℕ → FilteredSource I F → Option (List O)
    drain zero s = none
    drain (suc n) s = let r = do_get s in deliver (r.0) (drain n (r.1))

-- `StorableMicroslice(ms)`: the bytes that the descriptor tells of.
pub copy_of : Microslice → Microslice
copy_of m = record m { content = take m.desc.size m.content }

-- `StorableMicroslice(desc, content)`: the descriptor tells of the bytes that are there.
pub storable : MicrosliceDescriptor → List ℕ → Microslice
storable d content = record {
  desc = record d { size = length content % 2 ^ 32 };
  content = content;
}

-- `DescriptorOverrideFilter`
pub override_desc : ℕ → ℕ → Microslice → Microslice
override_desc sys_id sys_ver m =
    let copy = copy_of m in
    record copy { desc = record (copy.desc) { sys_id = sys_id; sys_ver = sys_ver } }

pub exchange_override : ℕ → ℕ → Exchange Microslice Microslice (Unit {0})
exchange_override sys_id sys_ver none f = ((none, false), f)
exchange_override sys_id sys_ver (some m) f = ((some (override_desc sys_id sys_ver m), false), f)

-- One microslice for two.
pub combine : Microslice → Microslice → Microslice
combine m1 m2 =
    storable (record (m1.desc) { size = add32 m1.desc.size m2.desc.size })
      (take m1.desc.size m1.content ++ take m2.desc.size m2.content)

-- The loop of `CombineContentsFilter::process`.
pub combine_loop : List Microslice → List Microslice → BufferingFilter Microslice Microslice
combine_loop [] output = record { input = []; output = output }
combine_loop (m ∷ []) output = record { input = m ∷ []; output = output }
combine_loop (m1 ∷ m2 ∷ l) output = combine_loop l (output ++ combine m1 m2 ∷ [])

pub process : BufferingFilter Microslice Microslice → BufferingFilter Microslice Microslice
process f = combine_loop f.input f.output
