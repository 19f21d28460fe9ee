-- ===== src/ManagedRing/Tests.antt =====
-- A ring of four bytes whose data goes round the border, and the theorems there.
use flesnet.Base.{ℕ, ◌≤◌, ◌<◌, ◌≡◌, refl, [], ◌∷◌, arith, read}
use flesnet.Ring.{at, alloc_with_size_exponent}
use flesnet.ManagedRing.{
  ManagedRingBuffer, IsManaged, size_used, size_available, size_available_contiguous, append,
  skip_buffer_wrap,
}
use flesnet.ManagedRing.Space.{HasRoom, skip_makes_room}
use flesnet.ManagedRing.Append.{read-append}

-- Index 3 is to be read next, index 5 is written next: cells 3 and 0 are in use.
abbrev ring : ManagedRingBuffer ℕ
ring = record { view = alloc_with_size_exponent 0 2; write_index = 5; read_index = 3 }

ring-IsManaged : IsManaged ring
unfolding alloc_with_size_exponent
ring-IsManaged = record {
  ring = record { size_eq = refl; mask_eq = refl };
  behind = omega arith;
  within = omega arith;
  index_fits = omega arith;
  size_fits = omega arith;
}

space_reported : (size_available ring ≡ 2) × (size_available_contiguous ring ≡ 2)
unfolding size_used size_available size_available_contiguous alloc_with_size_exponent
space_reported = (refl, refl)

-- With the ring empty at index 5 three entries fit before the border; four do not.
border_reported : size_available_contiguous (record ring { read_index = 5 }) ≡ 3
unfolding size_used size_available size_available_contiguous alloc_with_size_exponent
border_reported = refl

skip_makes_room_example : HasRoom ring ring-IsManaged 2 (skip_buffer_wrap ring 2)
unfolding size_used size_available size_available_contiguous alloc_with_size_exponent
skip_makes_room_example = skip_makes_room ring ring-IsManaged 2 (omega arith) (omega arith)

read-append_example :
    (read (at (append ring (8 ∷ 9 ∷ [])).view) 5 2 ≡ 8 ∷ 9 ∷ [])
    × ((p : ℕ) → 3 ≤ p → p < 5 → at (append ring (8 ∷ 9 ∷ [])).view p ≡ at ring.view p)
unfolding alloc_with_size_exponent
read-append_example = read-append ring ring-IsManaged (8 ∷ 9 ∷ []) (omega arith) (omega arith)
