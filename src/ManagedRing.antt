-- ===== src/ManagedRing.antt =====
-- lib/fles_core/ManagedRingBuffer.hpp: a ring buffer with a read and a write index. The asserts of
-- the source are no branches of the model: its operations are those of a build without them.
pub mod Space
pub mod Append
mod Tests
use flesnet.Base.{
  ℕ, ◌+◌, ◌-◌, ◌≤◌, ◌<◌, max, bit_and, List, ltb, leb, if◌then◌else◌, length, take, drop, u64_mod,
  add64, sub64,
}
use flesnet.Ring.{RingBuffer, IsRing, cell, set_at}
use flesnet.Ring.Blocks.{copy}

pub record ManagedRingBuffer {ℓ} (A : Type ℓ) : Type ℓ where
  pub view : RingBuffer A
  pub write_index : ℕ
  pub read_index : ℕ

module _ {ℓ} {A : Type ℓ} where
  unfoldable pub set_read_index : ManagedRingBuffer A → ℕ → ManagedRingBuffer A
  set_read_index r i = record r { read_index = i }

  unfoldable pub size_used : ManagedRingBuffer A → ℕ
  size_used r = sub64 r.write_index r.read_index

  unfoldable pub size_available : ManagedRingBuffer A → ℕ
  unfolding size_used
  size_available r = sub64 r.view.size (size_used r)

  -- `write_index_ & (size() - 1)`
  abbrev pub offset : ManagedRingBuffer A → ℕ
  offset r = bit_and r.write_index (r.view.size - 1)

  unfoldable pub size_available_contiguous : ManagedRingBuffer A → ℕ
  unfolding size_available
  size_available_contiguous r =
      let size_to_border = r.view.size - offset r in
      if ltb size_to_border (size_available r)
      then max size_to_border (size_available r - size_to_border)
      else size_available r

  -- `append(item)`
  unfoldable pub append_item : ManagedRingBuffer A → A → ManagedRingBuffer A
  append_item r item = record r {
    view = set_at r.view r.write_index item;
    write_index = add64 r.write_index 1;
  }

  -- `append(buf, n)`: one chunk, or two that are cut at the border.
  unfoldable pub append : ManagedRingBuffer A → List A → ManagedRingBuffer A
  append r xs =
      let w = r.write_index in
      let a = r.view.size - cell r.view w in
      record r {
        view =
            if leb (cell r.view w + length xs) r.view.size
            then copy r.view w xs
            else copy (copy r.view w (take a xs)) (add64 w a) (drop a xs);
        write_index = add64 w (length xs);
      }

  -- Skips the rest of the buffer where `n` entries would not fit before its border.
  unfoldable pub skip_buffer_wrap : ManagedRingBuffer A → ℕ → ManagedRingBuffer A
  skip_buffer_wrap r n =
      if ltb r.view.size (offset r + n)
      then record r { write_index = add64 r.write_index (r.view.size - offset r) }
      else r

  -- The read index is behind the write index, by one buffer size at most.
  pub record IsManaged (r : ManagedRingBuffer A) : Type 0 where
    pub ring : IsRing r.view
    pub behind : r.read_index ≤ r.write_index
    pub within : r.write_index ≤ r.read_index + r.view.size
    pub index_fits : r.write_index < u64_mod
    pub size_fits : r.view.size < u64_mod
