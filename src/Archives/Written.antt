-- ===== src/Archives/Written.antt =====
-- The files that the output leaves: all items, in the order of the files.
use flesnet.Base.{
  ℕ, zero, suc, ◌+◌, ◌-◌, ◌≤◌, ◌<◌, ◌≡◌, refl, sym, ap, ◌∙◌, ◌≢◌, inl, inr, Bool, true, ◌||◌, none,
  some, List, [], ◌∷◌, ◌++◌, map, arith, ltb, ◌==◌, ==_iff, ==_of_ne, Bool-cases,
}
use mathlib.Core.List.{append-nil, append_assoc}
use flesnet.Archives.{
  Files, Output, filename, with_file, items_of, next_output, unlimited, open_output,
  file_limit_reached, store, do_put, put_all, size_max,
}

module _ {ℓ} {A : Type ℓ} where
  -- The items of `n` files from file `k` on.
  abbrev pub items_from : Files A → ℕ → ℕ → List A
  items_from files k zero = []
  items_from files k (suc n) = items_of (files k) ++ items_from files (k + 1) n

  items_from-last :
      (files : Files A) (k n : ℕ)
      → items_from files k (suc n) ≡ items_from files k n ++ items_of (files (k + n))
  items_from-last files k zero =
      append-nil (items_of (files k)) ∙ ap (λ i. items_of (files i)) (omega arith)
  items_from-last files k (suc n) =
      ap (λ l. items_of (files k) ++ l) (items_from-last files (k + 1) n)
      ∙ sym (
          append_assoc (items_of (files k)) (items_from files (k + 1) n)
            (items_of (files (k + 1 + n))))
      ∙ ap (λ i. (items_of (files k) ++ items_from files (k + 1) n) ++ items_of (files i))
          (omega arith)

  items_from-with_file :
      (files : Files A) (k n i : ℕ) (l : List A)
      → k + n ≤ i
      → items_from (with_file files i l) k n ≡ items_from files k n
  items_from-with_file files k zero i l h = refl
  items_from-with_file files k (suc n) i l h =
      rw (==_of_ne k i (omega arith), items_from-with_file files (k + 1) n i l (omega arith)) refl

  last_file :
      (files : Files A) (c : ℕ) (l : List A)
      → items_from (with_file files c l) 0 (suc c) ≡ items_from files 0 c ++ l
  last_file files c l =
      items_from-last (with_file files c l) 0 c
      ∙ ap (λ xs. xs ++ items_of (with_file files c l (0 + c)))
          (items_from-with_file files 0 c c l (omega arith))
      ∙ rw ((==_iff (0 + c) c).1 (omega arith)) refl

  -- The files below the count are there, the others are not, and they hold the items.
  pub record IsWritten (o : Output A) (xs : List A) : Type ℓ where
    pub named : o.numbered ≡ true
    pub some_file : 0 < o.file_count
    pub there : (i : ℕ) → i < o.file_count → o.files i ≡ some (items_of (o.files i))
    pub later : (i : ℕ) → o.file_count ≤ i → o.files i ≡ none
    pub all : items_from o.files 0 o.file_count ≡ xs

  with_file-there :
      (files : Files A) (i n : ℕ) (l : List A)
      → (i ≢ n → files i ≡ some (items_of (files i)))
      → with_file files n l i ≡ some (items_of (with_file files n l i))
  with_file-there files i n l h = elim (Bool-cases (i == n)) [
    | inl same ↦ rw same refl
    | inr other ↦ rw other (h (ground (arith, other)))
  ]

  next_output-IsWritten :
      (o : Output A) (xs : List A) → IsWritten o xs → IsWritten (next_output o) xs
  unfolding next_output filename
  next_output-IsWritten o xs v = rw (v.named) (record {
    named = refl;
    some_file = omega arith;
    there =
        λ i h. with_file-there o.files i o.file_count [] (λ ne. v.there i (omega (arith, h, ne)));
    later = λ i h. rw (==_of_ne i o.file_count (omega (arith, h))) (v.later i (omega (arith, h)));
    all =
        ap (items_from (with_file o.files o.file_count []) 0)
          (let e : o.file_count + 1 ≡ suc o.file_count = omega arith in e)
        ∙ last_file o.files o.file_count []
        ∙ append-nil (items_from o.files 0 o.file_count)
        ∙ v.all;
  })

  store-IsWritten :
      (o : Output A) (xs : List A) (x : A) → IsWritten o xs → IsWritten (store x o) (xs ++ x ∷ [])
  unfolding store filename
  store-IsWritten o xs x v = rw (v.named) (record {
    named = refl;
    some_file = v.some_file;
    there = λ i h. with_file-there o.files i (o.file_count - 1) _ (λ ne. v.there i h);
    later = λ i h. rw (==_of_ne i (o.file_count - 1) (omega (arith, h, v.some_file))) (v.later i h);
    all =
        let c = o.file_count - 1 in
        let count : o.file_count ≡ suc c = omega (arith, v.some_file) in
        let files' = with_file o.files c (items_of (o.files c) ++ x ∷ []) in
        ap (items_from files' 0) count
        ∙ last_file o.files c (items_of (o.files c) ++ x ∷ [])
        ∙ sym (append_assoc (items_from o.files 0 c) (items_of (o.files c)) (x ∷ []))
        ∙ ap (λ l. l ++ x ∷ [])
            (ap (λ i. items_from o.files 0 c ++ items_of (o.files i))
                (let e : c ≡ 0 + c = omega arith in e)
              ∙ sym (items_from-last o.files 0 c)
              ∙ ap (items_from o.files 0) (sym count)
              ∙ v.all);
  })

  do_put-IsWritten :
      (o : Output A) (xs : List A) (pos : ℕ) (x : A)
      → IsWritten o xs
      → IsWritten (do_put o pos x) (xs ++ x ∷ [])
  unfolding do_put
  do_put-IsWritten o xs pos x v = elim (Bool-cases (file_limit_reached o pos)) [
    | inl full ↦ rw full (store-IsWritten (next_output o) xs x (next_output-IsWritten o xs v))
    | inr room ↦ rw room (store-IsWritten o xs x v)
  ]

  pub put_all-IsWritten :
      (o : Output A) (xs : List A) (l : List (ℕ × A))
      → IsWritten o xs
      → IsWritten (put_all o l) (xs ++ map (λ e. e.1) l)
  unfolding put_all
  put_all-IsWritten o xs [] v = rw (append-nil xs) v
  put_all-IsWritten o xs (e ∷ l) v = rw⁻¹ (append_assoc xs (e.1 ∷ []) (map (λ e. e.1) l)) (
      put_all-IsWritten (do_put o (e.0) (e.1)) (xs ++ e.1 ∷ []) l
        (do_put-IsWritten o xs (e.0) (e.1) v))

  pub open_output-IsWritten :
      (has_placeholder : Bool) (items bytes : ℕ)
      → (has_placeholder || ltb (unlimited items) size_max) ≡ true
      → IsWritten (open_output (λ i. none) has_placeholder items bytes) []
  unfolding open_output next_output filename
  open_output-IsWritten has_placeholder items bytes h = rw h (record {
    named = refl;
    some_file = omega arith;
    there = λ i h. with_file-there (λ j. none) i 0 [] (λ ne. absurd (omega (arith, h, ne)));
    later = λ i h. rw (==_of_ne i 0 (omega (arith, h))) refl;
    all = refl;
  })
