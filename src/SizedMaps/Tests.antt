-- ===== src/SizedMaps/Tests.antt =====
-- A map of two entries at most.
use flesnet.Base.{
  ℕ, ◌≡◌, refl, ◌⊎◌, true, false, ◌&&◌, none, some, List, [], ◌∷◌, arith, ◌==◌, if◌then◌else◌,
  length,
}
use flesnet.SizedMaps.{
  SizedMap, find, insert, assign, erase, contains, add, update, remove, Operation, adds, updates,
  removes, perform, perform_all,
}
use flesnet.SizedMaps.{is_some}
use flesnet.SizedMaps.Operations.{IsSized, is_first, find-add, perform_all-IsSized}

abbrev full : SizedMap ℕ
full = record { map_entries = (3, 30) ∷ (5, 50) ∷ []; max_map_size = 2 }

abbrev operations : List (Operation ℕ)
operations = adds 4 40 ∷ updates 5 51 ∷ removes 4 ∷ []

operations_run : perform_all operations full ≡ record full { map_entries = (5, 51) ∷ [] }
unfolding perform_all perform add update remove contains find insert assign erase
operations_run = refl

full-IsSized : IsSized full
full-IsSized = record {
  ascending = ((omega arith, tt), (tt, tt));
  bounded = omega arith;
  some_size = omega arith;
}

find-add_example :
    ((find 4 full.map_entries ≡ none)
      × ((add full 4 40).0 ≡ true)
      × (find 3 ((add full 4 40).1).map_entries ≡ (
          if 3 == 4
          then some 40
          else if (length full.map_entries == full.max_map_size) && is_first 3 full.map_entries
          then none
          else find 3 full.map_entries)))
    ⊎ ((is_some (find 4 full.map_entries) ≡ true) × (add full 4 40 ≡ (false, full)))
find-add_example = find-add full 4 40 3 full-IsSized

perform_all-IsSized_example :
    IsSized (perform_all operations full)
    × ((perform_all operations full).max_map_size ≡ full.max_map_size)
perform_all-IsSized_example = perform_all-IsSized operations full full-IsSized
