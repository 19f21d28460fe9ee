-- ===== src/Archives/Overwritten.antt =====
-- A limit on the bytes of a file alone, with a template without the placeholder.
use flesnet.Base.{
  ℕ, ◌≤◌, ◌<◌, ◌≡◌, refl, ◌∙◌, ◌≢◌, true, false, some, List, [], ◌∷◌, arith, ==_of_ne,
}
use flesnet.Archives.{
  Files, Output, filename, next_output, open_output, file_limit_reached, store, do_put, put_all,
  size_max,
}

module _ {ℓ} {A : Type ℓ} where
  -- What stays from the constructor on.
  abbrev Stays : Output A → Output A → Type 0
  Stays o o' = (o'.numbered ≡ o.numbered) × (o'.bytes_per_file ≡ o.bytes_per_file)

  do_put-Stays : (o : Output A) (pos : ℕ) (x : A) → Stays o (do_put o pos x)
  unfolding do_put store next_output
  do_put-Stays o pos x = (ground arith, ground arith)

  put_all-Stays : (l : List (ℕ × A)) (o : Output A) → Stays o (put_all o l)
  unfolding put_all
  put_all-Stays [] o = (refl, refl)
  put_all-Stays (e ∷ l) o =
      let (named, bytes) = do_put-Stays o (e.0) (e.1) in
      let (named', bytes') = put_all-Stays l (do_put o (e.0) (e.1)) in
      (named' ∙ named, bytes' ∙ bytes)

  limit_reached :
      (o : Output A) (pos : ℕ)
      → o.bytes_per_file < size_max
      → 0 < pos
      → o.bytes_per_file ≤ pos
      → file_limit_reached o pos ≡ true
  unfolding file_limit_reached
  limit_reached o pos h p q = ground arith

  start_lem :
      (files : Files A) (bytes : ℕ)
      → bytes ≢ 0
      → ((open_output files false 0 bytes).numbered ≡ false)
        × ((open_output files false 0 bytes).bytes_per_file ≡ bytes)
  unfolding open_output next_output
  start_lem files bytes h = (refl, rw (==_of_ne bytes 0 h) refl)

  fresh_file :
      (o : Output A) (x : A)
      → o.numbered ≡ false
      → (store x (next_output o)).files 0 ≡ some (x ∷ [])
  unfolding store next_output filename
  fresh_file o x h = rw h refl

  -- Whatever was written before, the item that finds the limit of bytes reached is the only one in the
  -- file afterwards.
  pub do_put-overwrites :
      (files : Files A) (bytes : ℕ) (l : List (ℕ × A)) (pos : ℕ) (x : A)
      → bytes ≢ 0
      → bytes < size_max
      → 0 < pos
      → bytes ≤ pos
      → (do_put (put_all (open_output files false 0 bytes) l) pos x).files 0 ≡ some (x ∷ [])
  unfolding do_put
  do_put-overwrites files bytes l pos x ne small p q =
      let o = put_all (open_output files false 0 bytes) l in
      let (named, limit) = put_all-Stays l (open_output files false 0 bytes) in
      let (off, at) = start_lem files bytes ne in
      rw (limit_reached o pos (omega (arith, limit, at, small)) p (omega (arith, limit, at, q)))
        (fresh_file o x (named ∙ off))
