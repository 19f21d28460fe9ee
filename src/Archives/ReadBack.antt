-- ===== src/Archives/ReadBack.antt =====
-- What a sequence of files gives when it is read: the items that were written, and then the end.
use flesnet.Base.{
  ℕ, zero, suc, ◌+◌, ◌-◌, ◌≤◌, ◌<◌, ◌≡◌, refl, ap, ◌∙◌, ◌⊎◌, inl, inr, Bool, true, false, ◌||◌,
  none, some, List, [], ◌∷◌, ◌++◌, map, arith, ltb, ==_of_ne, length,
}
use flesnet.Archives.{
  Files, Input, Got, at_end, got, items_of, unlimited, open_output, put_all, next_input, open_input,
  do_get, read_all, size_max,
}
use flesnet.Archives.Written.{items_from, put_all-IsWritten, open_output-IsWritten}

module _ {ℓ} {A : Type ℓ} (files : Files A) (c : ℕ)
    (there : (i : ℕ) → i < c → files i ≡ some (items_of (files i)))
    (later : (i : ℕ) → c ≤ i → files i ≡ none) where
  abbrev reading : ℕ → List A → Input A
  reading k rest = record { rest = rest; file_count = k; eos = false }

  -- The next item, or the end where there is none.
  abbrev Reads : List A → Got A → Type ℓ
  Reads left r =
      ((left ≡ []) × (r ≡ at_end))
      ⊎ ((x : A) × (rest : List A) × (k : ℕ) × (m : ℕ) × (r ≡ got x (reading k rest))
          × (left ≡ x ∷ rest ++ items_from files k m)
          × (k + m ≡ c)
          × (0 < k))

  next_input-there :
      (k : ℕ)
      → k < c
      → next_input files (reading k []) ≡ some (reading (k + 1) (items_of (files k)))
  unfolding next_input
  next_input-there k h = rw (there k h, next_input) refl

  next_input-later :
      (k : ℕ)
      → 0 < k
      → c ≤ k
      → next_input files (reading k []) ≡ some (record { rest = []; file_count = k; eos = true })
  unfolding next_input
  next_input-later k pos h = rw (later k h, ==_of_ne k 0 (omega (arith, pos)), next_input) refl

  do_get-Reads :
      (m f k : ℕ) (rest : List A)
      → k + m ≡ c
      → 0 < k
      → m + 1 < f
      → Reads (rest ++ items_from files k m) (do_get files f (reading k rest))
  unfolding do_get
  do_get-Reads m zero k rest e pos h = absurd (omega (arith, h))
  do_get-Reads m (suc f) k (x ∷ rest) e pos h = inr (x, rest, k, m, refl, refl, e, pos)
  do_get-Reads zero (suc f) k [] e pos h =
      rw (next_input-later k pos (omega (arith, e))) (inl (refl, refl))
  do_get-Reads (suc m) (suc f) k [] e pos h = rw (next_input-there k (omega (arith, e))) (
      do_get-Reads m f (k + 1) (items_of (files k)) (omega (arith, e)) (omega arith)
        (omega (arith, h)))

  read_all-from :
      (n f k m : ℕ) (rest : List A)
      → k + m ≡ c
      → 0 < k
      → c + 1 < f
      → length (rest ++ items_from files k m) < n
      → read_all files n f (reading k rest) ≡ some (rest ++ items_from files k m)
  unfolding read_all
  read_all-from zero f k m rest e pos h enough = absurd (omega (arith, enough))
  read_all-from (suc n) f k m rest e pos h enough =
      elim (do_get-Reads m f k rest e pos (omega (arith, e, h))) [
        | inl (left, r) ↦ rw (r, left) refl
        | inr (x, rest', k', m', r, left, e', pos') ↦
            rw (r, left)
              (rw
                (read_all-from n f k' m' rest' e' pos' h (
                  let fewer : length (x ∷ rest' ++ items_from files k' m') < suc n =
                    rw left at enough in
                  omega (arith, fewer)))
                refl)
      ]

  from_start :
      (xs : List A)
      → 0 < c
      → items_from files 0 c ≡ xs
      → (s : Input A) × (open_input files ≡ some s)
        × (read_all files (suc (length xs)) (c + 2) s ≡ some xs)
  unfolding open_input
  from_start xs pos all =
      let start : items_of (files 0) ++ items_from files 1 (c - 1) ≡ xs =
        ap (items_from files 0) (let e : suc (c - 1) ≡ c = omega (arith, pos) in e) ∙ all in
      (
        reading 1 (items_of (files 0)),
        next_input-there 0 pos,
        read_all-from (suc (length xs)) (c + 2) 1 (c - 1) (items_of (files 0)) (omega (arith, pos))
              (omega arith) (omega arith) (rw start (omega arith))
            ∙ ap some start,
      )

-- Items written to files of which none was there before, with any limits and any positions told, where
-- the template has the placeholder or the number of items is limited: they are read back, all and in
-- order, and then the stream ends.
pub read-written {ℓ} :
    {A : Type ℓ} (has_placeholder : Bool) (items bytes : ℕ) (l : List (ℕ × A))
    → (has_placeholder || ltb (unlimited items) size_max) ≡ true
    → (let o = put_all (open_output (λ i. none) has_placeholder items bytes) l in
        (s : Input A) × (open_input o.files ≡ some s)
        × (read_all o.files (suc (length (map (λ e. e.1) l))) (o.file_count + 2) s
            ≡ some (map (λ e. e.1) l)))
read-written has_placeholder items bytes l h =
    let o = put_all (open_output (λ i. none) has_placeholder items bytes) l in
    let v =
      put_all-IsWritten (open_output (λ i. none) has_placeholder items bytes) [] l
        (open_output-IsWritten has_placeholder items bytes h) in
    from_start o.files o.file_count v.there v.later (map (λ e. e.1) l) v.some_file v.all
