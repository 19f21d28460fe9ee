-- ===== src/SizedMaps.antt =====
-- lib/fles_libfabric/SizedMap.hpp: a map of bounded size, which forgets its least key. `std::map` is a
-- list of keys and values with ascending keys.
pub mod Bounded
pub mod Operations
mod Tests
use flesnet.Base.{
  ℕ, Bool, true, false, not, ◌&&◌, Option, none, some, List, [], ◌∷◌, ltb, ◌==◌, if◌then◌else◌,
  length,
}

pub record SizedMap {ℓ} (V : Type ℓ) : Type ℓ where
  pub map_entries : List (ℕ × V)
  pub max_map_size : ℕ

-- The operations that change a map.
pub data Operation {ℓ} (V : Type ℓ) : Type ℓ where
  adds : ℕ → V → Operation V
  updates : ℕ → V → Operation V
  removes : ℕ → Operation V

module _ {ℓ} {V : Type ℓ} where
  -- `std::map::find`, `insert`, `erase`, the assignment to `second`, and `erase(begin())`.
  pub find : ℕ → List (ℕ × V) → Option V
  find k [] = none
  find k (e ∷ l) = if k == e.0 then some (e.1) else find k l

  pub insert : ℕ → V → List (ℕ × V) → List (ℕ × V)
  insert k v [] = (k, v) ∷ []
  insert k v (e ∷ l) =
      if ltb k (e.0) then (k, v) ∷ e ∷ l else if k == e.0 then e ∷ l else e ∷ insert k v l

  pub erase : ℕ → List (ℕ × V) → List (ℕ × V)
  erase k [] = []
  erase k (e ∷ l) = if k == e.0 then l else e ∷ erase k l

  pub assign : ℕ → V → List (ℕ × V) → List (ℕ × V)
  assign k v [] = []
  assign k v (e ∷ l) = if k == e.0 then (e.0, v) ∷ l else e ∷ assign k v l

  abbrev pub erase_first : List (ℕ × V) → List (ℕ × V)
  erase_first [] = []
  erase_first (e ∷ l) = l

  abbrev pub is_some : Option V → Bool
  is_some none = false
  is_some (some v) = true

  pub contains : SizedMap V → ℕ → Bool
  contains m k = not (length m.map_entries == 0) && is_some (find k m.map_entries)

  pub add : SizedMap V → ℕ → V → Bool × SizedMap V
  add m k v =
      let l =
        if length m.map_entries == m.max_map_size
        then erase_first m.map_entries
        else m.map_entries in
      if is_some (find k m.map_entries)
      then (false, m)
      else (true, record m { map_entries = insert k v l })

  pub update : SizedMap V → ℕ → V → Bool × SizedMap V
  update m k v =
      if is_some (find k m.map_entries)
      then (true, record m { map_entries = assign k v m.map_entries })
      else (false, m)

  pub remove : SizedMap V → ℕ → Bool × SizedMap V
  remove m k =
      if contains m k then (true, record m { map_entries = erase k m.map_entries }) else (false, m)

  pub perform : Operation V → SizedMap V → SizedMap V
  perform (adds k v) m = (add m k v).1
  perform (updates k v) m = (update m k v).1
  perform (removes k) m = (remove m k).1

  pub perform_all : List (Operation V) → SizedMap V → SizedMap V
  perform_all [] m = m
  perform_all (o ∷ l) m = perform_all l (perform o m)
