-- ===== src/Filters/Pull.antt =====
-- What a filtered source gives, and that it is what a filtering sink puts into its sink.
use flesnet.Base.{
  ℕ, zero, suc, ◌≤◌, ◌<◌, ◌≡◌, refl, ◌⊎◌, inl, inr, Bool, false, not, Option, none, some, List, [],
  ◌∷◌, ◌++◌, arith, length,
}
use flesnet.Filters.{
  BufferingFilter, FilteredSource, is_empty, pop_output, exchange_item, pull, do_get, drain,
  put_all,
}
use flesnet.Filters.Push.{fed, outputs, kept, burst, put_all-outputs}

module _ {ℓ κ} {I : Type ℓ} {O : Type κ} (process : BufferingFilter I O → BufferingFilter I O) where
  abbrev pub opened : List I → List I → List O → FilteredSource I (BufferingFilter I O)
  opened xs input ys = record {
    source = xs;
    filter = record { input = input; output = ys };
    more = not (is_empty ys);
    eos_flag = false;
  }

  -- What the loop of `do_get` finds: nothing, where there is nothing to come, or the first output.
  abbrev Pulls : List O → (Option (O × Bool)) × List I × BufferingFilter I O → Type (ℓ ⊔ κ)
  Pulls outs r =
      ((r.0 ≡ none) × (outs ≡ []))
      ⊎ ((y : O) × (ys : List O) × (xs' : List I) × (input' : List I) × (r
            ≡ (some (y, not (is_empty ys)), xs', record { input = input'; output = ys }))
          × (outs ≡ y ∷ ys ++ outputs process input' xs'))

  pull-Pulls :
      (xs input : List I)
      → Pulls
          (outputs process input xs)
          (pull (exchange_item process) xs (record { input = input; output = [] }))
  unfolding pull exchange_item
  pull-Pulls [] input = inl (refl, refl)
  pull-Pulls (x ∷ xs) input =
      split (fed process input x).input (fed process input x).output xs
        (pull-Pulls xs (fed process input x).input)
    where
      split :
          (input' : List I) (ys : List O) (xs : List I)
          → Pulls
              (outputs process input' xs)
              (pull (exchange_item process) xs (record { input = input'; output = [] }))
          → Pulls (ys ++ outputs process input' xs) (
              let r = pop_output input' ys in
              let rest = pull (exchange_item process) xs (r.1) in
              elim (r.0.0) [ none ↦ rest | some y ↦ (some (y, r.0.1), xs, r.1) ])
      split input' [] xs v = v
      split input' (y ∷ ys) xs v = inr (y, ys, xs, input', refl, refl)

  drain-outputs :
      (n : ℕ) (xs input : List I) (ys : List O)
      → length (ys ++ outputs process input xs) < n
      → drain (exchange_item process) n (opened xs input ys) ≡ some (ys ++ outputs process input xs)
  unfolding drain do_get exchange_item
  drain-outputs zero xs input ys h = absurd (omega arith)
  drain-outputs (suc n) xs input (y ∷ ys) h = rw (drain-outputs n xs input ys (omega arith))
  drain-outputs (suc n) xs input [] h = elim (pull-Pulls xs input) [
    | inl (e, z) ↦ rw (e, z)
    | inr (y, ys, xs', input', e, z) ↦
        rw (e, z) (rw (drain-outputs n xs' input' ys (omega (arith, rw z at h))))
  ]

  -- From an empty output on, enough fuel makes a filtering sink put all outputs of a sequence of
  -- items into its sink, and a filtered source over the same items gives the same and then ends.
  pub same_stream :
      (xs input : List I) (sink : List O)
      → (out : List O) × ((n : ℕ)
          → burst process input xs ≤ n
          → put_all (exchange_item process) n xs (record { input = input; output = [] }, sink)
            ≡ some (record { input = kept process input xs; output = [] }, sink ++ out))
        × (drain (exchange_item process) (suc (length out)) (opened xs input []) ≡ some out)
  same_stream xs input sink = (
    outputs process input xs,
    λ n h. put_all-outputs process xs input sink n h,
    drain-outputs (suc (length (outputs process input xs))) xs input [] (omega arith),
  )
