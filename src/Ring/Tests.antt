-- ===== src/Ring/Tests.antt =====
-- Capacities chosen by `alloc_with_size`, and its theorem at one of them.
use flesnet.Base.{ℕ, ◌^◌, ◌≤◌, ◌<◌, ◌≡◌, refl, [], ◌∷◌, map, arith}
use flesnet.Ring.{exponent_loop, exponent_for}
use flesnet.Ring.Alloc.{exponent_for_least}

exponents :
    map exponent_for (0 ∷ 1 ∷ 2 ∷ 3 ∷ 4 ∷ 5 ∷ 1024 ∷ 1025 ∷ [])
    ≡ 0 ∷ 0 ∷ 1 ∷ 2 ∷ 2 ∷ 3 ∷ 10 ∷ 11 ∷ []
unfolding exponent_for exponent_loop
exponents = refl

exponent_for_least_example :
    (1000 ≤ 2 ^ exponent_for 1000) × ((k : ℕ) → k < exponent_for 1000 → 2 ^ k < 1000)
exponent_for_least_example = exponent_for_least 1000 (omega arith)
