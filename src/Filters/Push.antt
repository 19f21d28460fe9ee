-- ===== src/Filters/Push.antt =====
-- What a filtering sink puts into its sink.
use flesnet.Base.{ℕ, zero, suc, ◌+◌, ◌≤◌, ◌≡◌, ◌∙◌, not, some, List, [], ◌∷◌, ◌++◌, arith, length}
use mathlib.Core.List.{append-nil, append_assoc}
use mathlib.Core.Option
use flesnet.Filters.{
  BufferingFilter, is_empty, pop_output, exchange_item, sink_put, put_more, put, put_all,
}

module _ {ℓ κ} {I : Type ℓ} {O : Type κ} (process : BufferingFilter I O → BufferingFilter I O) where
  -- The buffers after one more item, where all that was there is given out.
  abbrev pub fed : List I → I → BufferingFilter I O
  fed input x = process (record { input = input ++ x ∷ []; output = [] })

  -- All that the filter gives out for a sequence of items, and the input that it keeps.
  abbrev pub outputs : List I → List I → List O
  outputs input [] = []
  outputs input (x ∷ xs) = (fed input x).output ++ outputs (fed input x).input xs

  abbrev pub kept : List I → List I → List I
  kept input [] = input
  kept input (x ∷ xs) = kept (fed input x).input xs

  -- The most that is given out at once.
  abbrev pub burst : List I → List I → ℕ
  burst input [] = 0
  burst input (x ∷ xs) = length (fed input x).output + burst (fed input x).input xs

  put_more-rest :
      (input : List I) (ys sink : List O) (n : ℕ)
      → length ys ≤ n
      → put_more
          (exchange_item process)
          n
          (not (is_empty ys), record { input = input; output = ys })
          sink
        ≡ some (record { input = input; output = [] }, sink ++ ys)
  unfolding put_more exchange_item
  put_more-rest input [] sink n h = rw (append-nil sink)
  put_more-rest input (y ∷ ys) sink zero h = absurd (omega arith)
  put_more-rest input (y ∷ ys) sink (suc n) h =
      put_more-rest input ys (sink ++ y ∷ []) n (omega arith) ∙ rw (append_assoc sink (y ∷ []) ys)

  put_more-first :
      (input : List I) (ys sink : List O) (n : ℕ)
      → length ys ≤ n
      → (let r = pop_output input ys in
          put_more (exchange_item process) n (r.0.1, r.1) (sink_put sink (r.0.0)))
        ≡ some (record { input = input; output = [] }, sink ++ ys)
  unfolding put_more
  put_more-first input [] sink n h = rw (append-nil sink)
  put_more-first input (y ∷ ys) sink n h =
      put_more-rest input ys (sink ++ y ∷ []) n (omega arith) ∙ rw (append_assoc sink (y ∷ []) ys)

  put-fed :
      (input : List I) (x : I) (sink : List O) (n : ℕ)
      → length (fed input x).output ≤ n
      → put (exchange_item process) n x (record { input = input; output = [] }, sink)
        ≡ some (record { input = (fed input x).input; output = [] }, sink ++ (fed input x).output)
  unfolding put exchange_item
  put-fed input x sink n h = put_more-first (fed input x).input (fed input x).output sink n h

  -- With enough fuel for the longest burst of outputs all of them arrive, in order.
  pub put_all-outputs :
      (xs input : List I) (sink : List O) (n : ℕ)
      → burst input xs ≤ n
      → put_all (exchange_item process) n xs (record { input = input; output = [] }, sink)
        ≡ some (record { input = kept input xs; output = [] }, sink ++ outputs input xs)
  unfolding put_all Option.bind
  put_all-outputs [] input sink n h = rw (append-nil sink)
  put_all-outputs (x ∷ xs) input sink n h = rw (put-fed input x sink n (omega arith)) (
      put_all-outputs xs (fed input x).input (sink ++ (fed input x).output) n (omega arith)
      ∙ rw (append_assoc sink (fed input x).output (outputs (fed input x).input xs)))
