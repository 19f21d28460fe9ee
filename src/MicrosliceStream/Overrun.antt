-- ===== src/MicrosliceStream/Overrun.antt =====
-- A microslice as large as the data buffer. The test by which both ends tell one piece from two
-- takes the pointers to its begin and to its end, and these are equal.
use flesnet.Base.{
  ℕ, ◌+◌, ◌%◌, ◌^◌, ◌<◌, ◌≡◌, refl, sym, ap, ◌∙◌, true, List, arith, leb, le→leb, length, read,
  read-write, take_all, u64_mod, add64,
}
use flesnet.Ring.{RingBuffer, IsRing, cell}
use flesnet.Ring.Cells.{cell_lem}
use flesnet.Ring.Cells.{mod-add_self}
use flesnet.MicrosliceStream.{
  add_dual, sub_dual, ge_dual, Microslice, Buffers, Transmitter, available, item_size,
  store_content, put_item, try_put,
}
use flesnet.MicrosliceStream.Transmit.{IsBuffers, HasIndices}

store_whole :
    (r : RingBuffer ℕ) (w : ℕ) (xs : List ℕ)
    → IsRing r
    → length xs ≡ r.size
    → w + r.size < u64_mod
    → read (store_content r w r.size xs).buf (cell r w) r.size ≡ xs
unfolding store_content
store_whole r w xs v sized room =
    rw (one_piece, take_all r.size xs sized, ← sized) (read-write r.buf (cell r w) xs)
  where
    same_cell : cell r (add64 w r.size) ≡ cell r w
    same_cell =
        ap (cell r) (let e : add64 w r.size ≡ w + r.size = omega arith in e)
        ∙ cell_lem r (w + r.size) v
        ∙ ap (λ s. (w + s) % 2 ^ r.size_exponent) v.size_eq
        ∙ mod-add_self w (2 ^ r.size_exponent)
        ∙ sym (cell_lem r w v)

    one_piece : leb (cell r w) (cell r (add64 w r.size)) ≡ true
    one_piece = le→leb _ _ (omega (arith, same_cell))

empty-accepts :
    (b : Buffers) (m : Microslice)
    → HasIndices b
    → b.read_index ≡ b.write_index
    → 0 < b.desc_buffer.size
    → m.desc.size ≡ b.data_buffer.size
    → ge_dual
        (available b (record { write_index = b.write_index; read_index_cached = b.read_index }))
        (item_size m)
      ≡ true
unfolding ge_dual available sub_dual add_dual
empty-accepts b m room empty some_desc whole =
    ground
      (arith, room.desc_room, room.data_room, ap (λ i. i.desc) empty, ap (λ i. i.data_index) empty)

-- Where the buffers are empty and the write index is not at the first cell, `try_put` accepts a
-- microslice as large as the data buffer, and copies it to the cells from that of the write index
-- on without a break: the copy ends behind the last cell of the buffer.
pub try_put-overrun :
    (b : Buffers) (m : Microslice)
    → IsBuffers b
    → HasIndices b
    → b.read_index ≡ b.write_index
    → 0 < b.desc_buffer.size
    → m.desc.size ≡ b.data_buffer.size
    → length m.content ≡ b.data_buffer.size
    → 0 < cell b.data_buffer b.write_index.data_index
    → let r =
        try_put b (record { write_index = b.write_index; read_index_cached = b.read_index }) m in
      (r.0 ≡ true)
      × (read r.1.data_buffer.buf (cell b.data_buffer b.write_index.data_index) b.data_buffer.size
          ≡ m.content)
      × (b.data_buffer.size < cell b.data_buffer b.write_index.data_index + b.data_buffer.size)
unfolding try_put put_item
try_put-overrun b m v room empty some_desc whole sized inside =
    rw accepts (refl, copied, omega arith)
  where
    knows : Transmitter
    knows = record { write_index = b.write_index; read_index_cached = b.read_index }

    accepts : ge_dual (available b knows) (item_size m) ≡ true
    accepts = empty-accepts b m room empty some_desc whole

    copied :
        read
          (store_content b.data_buffer b.write_index.data_index m.desc.size m.content).buf
          (cell b.data_buffer b.write_index.data_index)
          b.data_buffer.size
        ≡ m.content
    copied = rw whole (
        store_whole b.data_buffer b.write_index.data_index m.content v.bytes sized
          (omega (arith, room.data_room)))
