-- ===== src/Archives.antt =====
-- lib/fles_ipc/OutputArchiveSequence.hpp writes items to a sequence of files, and
-- lib/fles_ipc/InputArchiveSequence.hpp reads them. A file is the list of the items in it: what is
-- written to an archive of Boost can be read from it, and behind its end the archive throws.
pub mod Written
pub mod ReadBack
pub mod Overwritten
mod Tests
use flesnet.Base.{
  ℕ, zero, suc, ◌+◌, ◌-◌, ◌^◌, Bool, true, false, ◌&&◌, ◌||◌, Option, none, some, List, [], ◌∷◌,
  ◌++◌, map, ltb, leb, ◌==◌, if◌then◌else◌,
}
use mathlib.Core.Option

-- The files by their number in the sequence.
abbrev pub Files {ℓ} : Type ℓ → Type ℓ
Files A = ℕ → Option (List A)

abbrev pub size_max : ℕ
size_max = 2 ^ 64 - 1

-- `OutputArchiveSequence`; `numbered` tells whether the template has the placeholder.
pub record Output {ℓ} (A : Type ℓ) : Type ℓ where
  pub files : Files A
  pub numbered : Bool
  pub items_per_file : ℕ
  pub bytes_per_file : ℕ
  pub file_count : ℕ
  pub file_item_count : ℕ

-- The number that stands for the name of file `n`: without the placeholder all have one name.
pub filename : Bool → ℕ → ℕ
filename numbered n = if numbered then n else 0

abbrev pub unlimited : ℕ → ℕ
unlimited n = if n == 0 then size_max else n

module _ {ℓ} {A : Type ℓ} where
  abbrev pub with_file : Files A → ℕ → List A → Files A
  with_file files n l i = if i == n then some l else files i

  abbrev pub items_of : Option (List A) → List A
  items_of none = []
  items_of (some l) = l

  -- `next_file` of the output: a new file, or an old one cut to nothing.
  pub next_output : Output A → Output A
  next_output o = record o {
    files = with_file o.files (filename o.numbered o.file_count) [];
    file_count = o.file_count + 1;
    file_item_count = 0;
  }

  -- The constructor, for a template with or without the placeholder.
  pub open_output : Files A → Bool → ℕ → ℕ → Output A
  open_output files has_placeholder items bytes = next_output (record {
    files = files;
    numbered = has_placeholder || ltb (unlimited items) size_max;
    items_per_file = unlimited items;
    bytes_per_file = unlimited bytes;
    file_count = 0;
    file_item_count = 0;
  })

  -- `file_limit_reached`, for the position that `tellp` tells.
  pub file_limit_reached : Output A → ℕ → Bool
  file_limit_reached o pos =
      o.file_item_count == o.items_per_file
      || (ltb o.bytes_per_file size_max && (ltb 0 pos && leb o.bytes_per_file pos))

  pub store : A → Output A → Output A
  store x o =
      let n = filename o.numbered (o.file_count - 1) in
      record o {
        files = with_file o.files n (items_of (o.files n) ++ x ∷ []);
        file_item_count = o.file_item_count + 1;
      }

  pub do_put : Output A → ℕ → A → Output A
  do_put o pos x = store x (if file_limit_reached o pos then next_output o else o)

  -- A sequence of items, with the position before each.
  pub put_all : Output A → List (ℕ × A) → Output A
  put_all o [] = o
  put_all o (x ∷ l) = put_all (do_put o (x.0) (x.1)) l

-- `InputArchiveSequence` with a template; `rest` is what is left of the file that is open.
pub record Input {ℓ} (A : Type ℓ) : Type ℓ where
  pub rest : List A
  pub file_count : ℕ
  pub eos : Bool

-- What `do_get` returns; `failure` is the exception for a first file that is not there, and
-- `out_of_fuel` no result.
pub data Got {ℓ} (A : Type ℓ) : Type ℓ where
  at_end : Got A
  got : A → Input A → Got A
  failure : Got A
  out_of_fuel : Got A

module _ {ℓ} {A : Type ℓ} (files : Files A) where
  -- `next_file` of the input; `none` is the exception.
  pub next_input : Input A → Option (Input A)
  next_input s = elim (files s.file_count) [
    | none ↦ if s.file_count == 0 then none else some (record s { eos = true })
    | some l ↦ some (record s { rest = l; file_count = s.file_count + 1 })
  ]

  pub open_input : Option (Input A)
  open_input = next_input (record { rest = []; file_count = 0; eos = false })

  -- `do_get`, with fuel for the files that are at their end.
  pub do_get : ℕ → Input A → Got A
  do_get zero s = out_of_fuel
  do_get (suc n) s = if s.eos then at_end else elim s.rest [
    | [] ↦ elim (next_input s) [ none ↦ failure | some s' ↦ if s'.eos then at_end else do_get n s' ]
    | x ∷ l ↦ got x (record s { rest = l })
  ]

  abbrev pub deliver : Got A → (Input A → Option (List A)) → Option (List A)
  deliver at_end rest = some []
  deliver (got x s) rest = Option.map (λ l. x ∷ l) (rest s)
  deliver failure rest = none
  deliver out_of_fuel rest = none

  -- What the calls of `get` give up to the end.
  pub read_all : ℕ → ℕ → Input A → Option (List A)
  read_all zero fuel s = none
  read_all (suc n) fuel s = deliver (do_get fuel s) (read_all n fuel)
