-- ===== src/Base/Lists.antt =====
-- Lists measured and indexed by native numbers, under the library's names, and memory as a function.
use Prim.Native.Nat.{ℕ, zero, suc, ◌+◌, ◌-◌, ◌<◌, ◌≤◌, min}
use mathlib.Core.Path.{◌≡◌, refl, ap, ◌∙◌}
use mathlib.Core.List.{List, [], ◌∷◌, ◌++◌, map}
use mathlib.Core.Option.{Option, none, some}
use native.Mathlib.Omega.{arith}
use flesnet.Base.Tests.{◌==◌, if◌then◌else◌}

module _ {ℓ} {A : Type ℓ} where
  abbrev pub length : List A → ℕ
  length [] = 0
  length (x ∷ xs) = suc (length xs)

  abbrev pub get_elem? : List A → ℕ → Option A
  get_elem? [] i = none
  get_elem? (x ∷ xs) zero = some x
  get_elem? (x ∷ xs) (suc i) = get_elem? xs i

  abbrev pub replicate : ℕ → A → List A
  replicate zero a = []
  replicate (suc n) a = a ∷ replicate n a

  pub length-replicate : (n : ℕ) (a : A) → length (replicate n a) ≡ n
  length-replicate zero a = refl
  length-replicate (suc n) a = ap suc (length-replicate n a)

  abbrev pub take : ℕ → List A → List A
  take zero xs = []
  take (suc n) [] = []
  take (suc n) (x ∷ xs) = x ∷ take n xs

  abbrev pub drop : ℕ → List A → List A
  drop zero xs = xs
  drop (suc n) [] = []
  drop (suc n) (x ∷ xs) = drop n xs

  pub length-append : (xs ys : List A) → length (xs ++ ys) ≡ length xs + length ys
  length-append [] ys = omega arith
  length-append (x ∷ xs) ys = omega (arith, length-append xs ys)

  pub take-append-drop : (n : ℕ) (xs : List A) → take n xs ++ drop n xs ≡ xs
  take-append-drop zero xs = refl
  take-append-drop (suc n) [] = refl
  take-append-drop (suc n) (x ∷ xs) = ap (◌∷◌ x) (take-append-drop n xs)

  pub length-take : (n : ℕ) (xs : List A) → length (take n xs) ≡ min n (length xs)
  length-take zero xs = omega arith
  length-take (suc n) [] = omega arith
  length-take (suc n) (x ∷ xs) = omega (arith, length-take n xs)

  pub length-drop : (n : ℕ) (xs : List A) → length (drop n xs) ≡ length xs - n
  length-drop zero xs = omega arith
  length-drop (suc n) [] = omega arith
  length-drop (suc n) (x ∷ xs) = omega (arith, length-drop n xs)

  -- A memory is a function from addresses; `update` is a store to one cell.
  abbrev pub update : (ℕ → A) → ℕ → A → ℕ → A
  update m i v j = if i == j then v else m j

  -- The `n` cells from address `i` on.
  abbrev pub read : (ℕ → A) → ℕ → ℕ → List A
  read m i zero = []
  read m i (suc n) = m i ∷ read m (suc i) n

  -- `memcpy`: the cells from address `i` on take the elements of a list.
  abbrev pub write : (ℕ → A) → ℕ → List A → ℕ → A
  write m i [] = m
  write m i (x ∷ xs) = write (update m i x) (suc i) xs

  pub write_before : (m : ℕ → A) (i : ℕ) (xs : List A) (j : ℕ) → j < i → write m i xs j ≡ m j
  write_before m i [] j h = refl
  write_before m i (x ∷ xs) j h =
      ground (arith, write_before (update m i x) (suc i) xs j (omega arith))

  pub write_after :
      (m : ℕ → A) (i : ℕ) (xs : List A) (j : ℕ) → i + length xs ≤ j → write m i xs j ≡ m j
  write_after m i [] j h = refl
  write_after m i (x ∷ xs) j h =
      ground (arith, write_after (update m i x) (suc i) xs j (omega arith))

  pub read-write : (m : ℕ → A) (i : ℕ) (xs : List A) → read (write m i xs) i (length xs) ≡ xs
  read-write m i [] = refl
  read-write m i (x ∷ xs) = ground (
    arith,
    write_before (update m i x) (suc i) xs i (omega arith),
    read-write (update m i x) (suc i) xs,
  )

  pub read_eq :
      (m k : ℕ → A) (i n : ℕ) → ((j : ℕ) → i ≤ j → j < i + n → m j ≡ k j) → read m i n ≡ read k i n
  read_eq m k i zero h = refl
  read_eq m k i (suc n) h = ground (
    arith,
    h i (omega arith) (omega arith),
    read_eq m k (suc i) n (λ j p q. h j (omega arith) (omega arith)),
  )

  -- A cell after a copy depends on what stood in that cell alone.
  pub write_ext :
      (m k : ℕ → A) (i : ℕ) (xs : List A) (p : ℕ) → m p ≡ k p → write m i xs p ≡ write k i xs p
  write_ext m k i [] p h = h
  write_ext m k i (x ∷ xs) p h =
      write_ext (update m i x) (update k i x) (suc i) xs p (ap (λ v. if i == p then x else v) h)

  pub write-append :
      (m : ℕ → A) (i : ℕ) (xs ys : List A)
      → write m i (xs ++ ys) ≡ write (write m i xs) (i + length xs) ys
  write-append m i [] ys = ap (λ j. write m j ys) (omega arith)
  write-append m i (x ∷ xs) ys =
      write-append (update m i x) (suc i) xs ys
      ∙ ap (λ j. write (write (update m i x) (suc i) xs) j ys) (omega arith)

  pub length-read : (m : ℕ → A) (i n : ℕ) → length (read m i n) ≡ n
  length-read m i zero = refl
  length-read m i (suc n) = ap suc (length-read m (suc i) n)

  -- A property of every element.
  abbrev pub All {κ} : (A → Type κ) → List A → Type κ
  All P [] = Unit
  All P (x ∷ xs) = P x × All P xs

  pub All-imp {κ μ} :
      (P : A → Type κ) (Q : A → Type μ) (xs : List A) → ((x : A) → P x → Q x) → All P xs → All Q xs
  All-imp P Q [] f h = tt
  All-imp P Q (x ∷ xs) f h = (f x h.0, All-imp P Q xs f h.1)

  pub All-map {κ} :
      (P : A → Type κ) (g : A → A) (xs : List A) → All (λ x. P (g x)) xs → All P (map g xs)
  All-map P g [] h = tt
  All-map P g (x ∷ xs) h = (h.0, All-map P g xs h.1)

  pub length-map : (g : A → A) (xs : List A) → length (map g xs) ≡ length xs
  length-map g [] = refl
  length-map g (x ∷ xs) = ap suc (length-map g xs)

  pub All-replicate {κ} : (P : A → Type κ) (n : ℕ) (a : A) → P a → All P (replicate n a)
  All-replicate P zero a h = tt
  All-replicate P (suc n) a h = (h, All-replicate P n a h)

  pub take_all : (n : ℕ) (xs : List A) → length xs ≡ n → take n xs ≡ xs
  take_all zero [] h = refl
  take_all zero (x ∷ xs) h = absurd (omega arith)
  take_all (suc n) [] h = refl
  take_all (suc n) (x ∷ xs) h = ap (◌∷◌ x) (take_all n xs (omega arith))

  pub read-add : (m : ℕ → A) (i k n : ℕ) → read m i (k + n) ≡ read m i k ++ read m (i + k) n
  read-add m i zero n =
      ap (read m i) (let e : 0 + n ≡ n = omega arith in e)
      ∙ ap (λ j. read m j n) (let e : i ≡ i + 0 = omega arith in e)
  read-add m i (suc k) n =
      ap (read m i) (let e : suc k + n ≡ suc (k + n) = omega arith in e)
      ∙ ap (◌∷◌ (m i)) (
          read-add m (suc i) k n
          ∙ ap (λ j. read m (suc i) k ++ read m j n)
              (let e : suc i + k ≡ i + suc k = omega arith in e))
