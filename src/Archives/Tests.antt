-- ===== src/Archives/Tests.antt =====
-- Three items, two to a file.
use flesnet.Base.{
  ℕ, suc, ◌+◌, ◌≡◌, refl, true, false, none, some, List, [], ◌∷◌, map, arith, length,
}
use flesnet.Archives.{
  Input, filename, next_output, open_output, file_limit_reached, store, do_put, put_all, open_input,
  read_all,
}
use flesnet.Archives.ReadBack.{read-written}
use flesnet.Archives.Overwritten.{do_put-overwrites}

abbrev three : List (ℕ × ℕ)
three = (9, 1) ∷ (9, 2) ∷ (9, 3) ∷ []

two_files :
    ((put_all (open_output (λ i. none) true 2 0) three).files 0 ≡ some (1 ∷ 2 ∷ []))
    × ((put_all (open_output (λ i. none) true 2 0) three).files 1 ≡ some (3 ∷ []))
unfolding put_all do_put store next_output open_output file_limit_reached filename
two_files = (refl, refl)

read-written_example :
    (s : Input ℕ) × (open_input (put_all (open_output (λ i. none) true 2 0) three).files ≡ some s)
    × (read_all
          (put_all (open_output (λ i. none) true 2 0) three).files
          (suc (length (map (λ e. e.1) three)))
          ((put_all (open_output (λ i. none) true 2 0) three).file_count + 2)
          s
        ≡ some (map (λ e. e.1) three))
read-written_example = read-written true 2 0 three refl

do_put-overwrites_example :
    (do_put (put_all (open_output (λ i. none) false 0 100) three) 120 4).files 0 ≡ some (4 ∷ [])
do_put-overwrites_example =
    do_put-overwrites (λ i. none) 100 three 120 4 (omega arith) (omega arith) (omega arith)
      (omega arith)
