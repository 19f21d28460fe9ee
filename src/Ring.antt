-- ===== src/Ring.antt =====
-- lib/fles_core/RingBuffer.hpp and RingBufferView.hpp: a buffer of 2^e cells, addressed by running
-- 64-bit indices whose low bits select the cell. The memory is a function from cell numbers.
pub mod Cells
pub mod Blocks
pub mod Alloc
mod Tests
use flesnet.Base.{ℕ, zero, suc, ◌+◌, ◌-◌, ◌/◌, ◌^◌, bit_and, ◌≡◌, ltb, ◌==◌, if◌then◌else◌, update}

-- `RingBuffer<T>` (and `RingBufferView<T>`, whose buffer somebody else owns).
pub record RingBuffer {ℓ} (A : Type ℓ) : Type ℓ where
  pub buf : ℕ → A
  pub size_exponent : ℕ
  pub size : ℕ
  pub size_mask : ℕ

-- `while ((minimum_size >>= 1) != 0u) ++new_size_exponent;` with fuel: a 64-bit number is zero
-- after 64 shifts.
exponent_loop : ℕ → ℕ → ℕ → ℕ
exponent_loop zero m e = e
exponent_loop (suc fuel) m e =
    let rest = exponent_loop fuel (m / 2) (e + 1) in if m / 2 == 0 then e else rest

-- The exponent that `alloc_with_size` computes.
pub exponent_for : ℕ → ℕ
exponent_for minimum_size = if ltb 1 minimum_size then exponent_loop 64 (minimum_size - 1) 1 else 0

module _ {ℓ} {A : Type ℓ} where
  -- `UINT64_C(1) << e` is defined for `e < 64`, where it is `2 ^ e`. The cells hold `init`.
  unfoldable pub alloc_with_size_exponent : A → ℕ → RingBuffer A
  alloc_with_size_exponent init e = record {
    buf = λ i. init;
    size_exponent = e;
    size = 2 ^ e;
    size_mask = 2 ^ e - 1;
  }

  pub alloc_with_size : A → ℕ → RingBuffer A
  alloc_with_size init minimum_size = alloc_with_size_exponent init (exponent_for minimum_size)

  -- The cell that index `n` stands for.
  abbrev pub cell : RingBuffer A → ℕ → ℕ
  cell r n = bit_and n r.size_mask

  -- `at(n)`, read and written.
  unfoldable pub at : RingBuffer A → ℕ → A
  at r n = r.buf (cell r n)

  unfoldable pub set_at : RingBuffer A → ℕ → A → RingBuffer A
  set_at r n v = record r { buf = update r.buf (cell r n) v }

  -- The mask fits the exponent: what every constructor sets up.
  pub record IsRing (r : RingBuffer A) : Type 0 where
    pub size_eq : r.size ≡ 2 ^ r.size_exponent
    pub mask_eq : r.size_mask ≡ 2 ^ r.size_exponent - 1
