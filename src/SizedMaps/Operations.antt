-- ===== src/SizedMaps/Operations.antt =====
-- The operations of the map: its bound, and what an addition finds and forgets.
use flesnet.Base.{
  ℕ, ◌≤◌, ◌<◌, ◌≡◌, refl, ap, ◌∙◌, ◌⊎◌, inl, inr, Bool, true, false, ◌&&◌, none, some, List, [],
  ◌∷◌, arith, ◌==◌, if◌then◌else◌, Bool-cases, length,
}
use flesnet.SizedMaps.{
  SizedMap, find, erase_first, is_some, contains, add, update, remove, Operation, adds, updates,
  removes, perform, perform_all,
}
use flesnet.SizedMaps.Bounded.{
  IsAscending, find-IsAbove, insert-IsAscending, find-insert, length-insert, erase-IsAscending,
  assign-IsAscending, erase_first-IsAscending, find-erase_first, none_of,
}

module _ {ℓ} {V : Type ℓ} where
  -- Ascending keys, and no more of them than the map may hold.
  pub record IsSized (m : SizedMap V) : Type 0 where
    pub ascending : IsAscending m.map_entries
    pub bounded : length m.map_entries ≤ m.max_map_size
    pub some_size : 0 < m.max_map_size

  abbrev Keeps : SizedMap V → SizedMap V → Type 0
  Keeps m m' = IsSized m' × (m'.max_map_size ≡ m.max_map_size)

  -- What an addition of a new key starts from.
  abbrev pub room_for_one : SizedMap V → List (ℕ × V)
  room_for_one m =
      if length m.map_entries == m.max_map_size then erase_first m.map_entries else m.map_entries

  room_for_one_lem :
      (m : SizedMap V) (k : ℕ)
      → IsSized m
      → find k m.map_entries ≡ none
      → IsAscending (room_for_one m)
        × (length (room_for_one m) < m.max_map_size)
        × (find k (room_for_one m) ≡ none)
  room_for_one_lem m k v h =
      let (sorted, size) = erase_first-IsAscending m.map_entries v.ascending in
      elim (Bool-cases (length m.map_entries == m.max_map_size)) [
        | inl full ↦
            rw full
              (sorted, ground (arith, size, full, v.some_size), find-erase_first k m.map_entries h)
        | inr room ↦ rw room (v.ascending, ground (arith, room, v.bounded), h)
      ]

  add-Keeps : (m : SizedMap V) (k : ℕ) (x : V) → IsSized m → Keeps m ((add m k x).1)
  unfolding add
  add-Keeps m k x v = elim (Bool-cases (is_some (find k m.map_entries))) [
    | inl there ↦ rw there (v, refl)
    | inr absent ↦
        let (sorted, size, free) = room_for_one_lem m k v (none_of (find k m.map_entries) absent) in
        rw absent (
          record {
            ascending = insert-IsAscending k x (room_for_one m) sorted;
            bounded = omega (arith, length-insert k x (room_for_one m) free, size);
            some_size = v.some_size;
          },
          refl,
        )
  ]

  update-Keeps : (m : SizedMap V) (k : ℕ) (x : V) → IsSized m → Keeps m ((update m k x).1)
  unfolding update
  update-Keeps m k x v = elim (Bool-cases (is_some (find k m.map_entries))) [
    | inl there ↦
        let (sorted, size) = assign-IsAscending k x m.map_entries v.ascending in
        rw there (
          record {
            ascending = sorted;
            bounded = omega (arith, size, v.bounded);
            some_size = v.some_size;
          },
          refl,
        )
    | inr absent ↦ rw absent (v, refl)
  ]

  remove-Keeps : (m : SizedMap V) (k : ℕ) → IsSized m → Keeps m ((remove m k).1)
  unfolding remove
  remove-Keeps m k v = elim (Bool-cases (contains m k)) [
    | inl there ↦
        let (sorted, size) = erase-IsAscending k m.map_entries v.ascending in
        rw there (
          record {
            ascending = sorted;
            bounded = omega (arith, size, v.bounded);
            some_size = v.some_size;
          },
          refl,
        )
    | inr absent ↦ rw absent (v, refl)
  ]

  perform-Keeps : (o : Operation V) (m : SizedMap V) → IsSized m → Keeps m (perform o m)
  unfolding perform
  perform-Keeps (adds k x) m v = add-Keeps m k x v
  perform-Keeps (updates k x) m v = update-Keeps m k x v
  perform-Keeps (removes k) m v = remove-Keeps m k v

  -- No sequence of operations makes the map larger than it may be.
  pub perform_all-IsSized :
      (l : List (Operation V)) (m : SizedMap V)
      → IsSized m
      → IsSized (perform_all l m) × ((perform_all l m).max_map_size ≡ m.max_map_size)
  unfolding perform_all
  perform_all-IsSized [] m v = (v, refl)
  perform_all-IsSized (o ∷ l) m v =
      let (w, e) = perform-Keeps o m v in
      let (x, f) = perform_all-IsSized l (perform o m) w in (x, f ∙ e)

  -- Whether the key is the least of the map.
  abbrev pub is_first : ℕ → List (ℕ × V) → Bool
  is_first j [] = false
  is_first j (e ∷ l) = j == e.0

  forgets_first :
      (j : ℕ) (l : List (ℕ × V))
      → IsAscending l
      → find j (erase_first l) ≡ (if is_first j l then none else find j l)
  unfolding find
  forgets_first j [] s = refl
  forgets_first j (e ∷ l) (a, s) = elim (Bool-cases (j == e.0)) [
    | inl same ↦ rw same (find-IsAbove j (e.0) l (ground (arith, same)) a)
    | inr other ↦ rw other refl
  ]

  find-room :
      (m : SizedMap V) (j : ℕ)
      → IsAscending m.map_entries
      → find j (room_for_one m) ≡ (
          if (length m.map_entries == m.max_map_size) && is_first j m.map_entries
          then none
          else find j m.map_entries)
  find-room m j s = elim (Bool-cases (length m.map_entries == m.max_map_size)) [
    | inl full ↦ rw full (forgets_first j m.map_entries s)
    | inr room ↦ rw room refl
  ]

  -- An addition of a key that is not there: it is there afterwards, and the others are as before, but
  -- the least is forgotten where the map was full. A key that is there is refused.
  pub find-add :
      (m : SizedMap V) (k : ℕ) (x : V) (j : ℕ)
      → IsSized m
      → ((find k m.map_entries ≡ none)
          × ((add m k x).0 ≡ true)
          × (find j ((add m k x).1).map_entries ≡ (
              if j == k
              then some x
              else if (length m.map_entries == m.max_map_size) && is_first j m.map_entries
              then none
              else find j m.map_entries)))
        ⊎ ((is_some (find k m.map_entries) ≡ true) × (add m k x ≡ (false, m)))
  unfolding add
  find-add m k x j v = elim (Bool-cases (is_some (find k m.map_entries))) [
    | inl there ↦ inr (there, rw there refl)
    | inr absent ↦
        let gone = none_of (find k m.map_entries) absent in
        let (sorted, size, free) = room_for_one_lem m k v gone in
        inl (
          gone,
          rw absent refl,
          rw absent (
              find-insert j k x (room_for_one m) free
              ∙ ap (λ o. if j == k then some x else o) (find-room m j v.ascending)),
        )
  ]
