-- ===== src/MicrosliceStream.antt =====
-- The input buffers of a microslice stream, and both of its ends:
-- lib/fles_core/DualRingBuffer.hpp (DualIndex and the two interfaces),
-- lib/fles_core/MicrosliceTransmitter.cpp and lib/fles_core/MicrosliceReceiver.cpp.
-- A store behind the end of the data buffer changes a cell with a number not below its size.
pub mod Stored
pub mod Transmit
pub mod TryPut
pub mod Receive
pub mod Overrun
mod Tests
use flesnet.Base.{
  ℕ, ◌-◌, ◌%◌, ◌^◌, Bool, true, false, ◌&&◌, Option, none, some, List, ◌++◌, ltb, leb,
  if◌then◌else◌, length, take, drop, read, write, add64, sub64,
}
use flesnet.Ring.{RingBuffer, cell, at, set_at}
use flesnet.Ring.Blocks.{copy}

pub record DualIndex : Type 0 where
  pub desc : ℕ
  pub data_index : ℕ

pub add_dual : DualIndex → DualIndex → DualIndex
add_dual a b = record { desc = add64 a.desc b.desc; data_index = add64 a.data_index b.data_index }

pub sub_dual : DualIndex → DualIndex → DualIndex
sub_dual a b = record { desc = sub64 a.desc b.desc; data_index = sub64 a.data_index b.data_index }

-- `operator>=`: both components.
pub ge_dual : DualIndex → DualIndex → Bool
ge_dual a b = leb b.desc a.desc && leb b.data_index a.data_index

-- `fles::MicrosliceDescriptor`
pub record MicrosliceDescriptor : Type 0 where
  pub hdr_id : ℕ
  pub hdr_ver : ℕ
  pub eq_id : ℕ
  pub flags : ℕ
  pub sys_id : ℕ
  pub sys_ver : ℕ
  pub idx : ℕ
  pub crc : ℕ
  pub size : ℕ
  pub offset : ℕ

-- A `Microslice`: `desc()` and the bytes at `content()`.
pub record Microslice : Type 0 where
  pub desc : MicrosliceDescriptor
  pub content : List ℕ

-- What the two interfaces share: the buffers, and the indices that each end publishes.
pub record Buffers : Type 0 where
  pub desc_buffer : RingBuffer MicrosliceDescriptor
  pub data_buffer : RingBuffer ℕ
  pub write_index : DualIndex
  pub read_index : DualIndex

pub record Transmitter : Type 0 where
  pub write_index : DualIndex
  pub read_index_cached : DualIndex

pub available : Buffers → Transmitter → DualIndex
unfolding add_dual sub_dual
available b t =
    let buffer_size : DualIndex = record {
      desc = b.desc_buffer.size;
      data_index = b.data_buffer.size;
    } in
    add_dual (sub_dual buffer_size t.write_index) t.read_index_cached

abbrev pub item_size : Microslice → DualIndex
item_size m = record { desc = 1; data_index = m.desc.size }

-- The copy of the content: in one piece where the pointer to its end is not below that to its
-- begin, else in two.
pub store_content : RingBuffer ℕ → ℕ → ℕ → List ℕ → RingBuffer ℕ
store_content r w n content =
    let part1_size = r.size - cell r w in
    if leb (cell r w) (cell r (add64 w n))
    then copy r w (take n content)
    else record (copy r w (take part1_size content)) {
      buf =
          write (copy r w (take part1_size content)).buf 0
            (take (n - part1_size) (drop part1_size content));
    }

-- The rest of `try_put`, once the space is there.
pub put_item : Buffers → Transmitter → Microslice → Bool × Buffers × Transmitter
unfolding add_dual store_content
put_item b t m =
    let w = t.write_index in
    let w' = add_dual w (item_size m) in
    (
      true,
      record b {
        data_buffer = store_content b.data_buffer w.data_index m.desc.size m.content;
        desc_buffer = set_at b.desc_buffer w.desc (record (m.desc) { offset = w.data_index });
        write_index = w';
      },
      record t { write_index = w' },
    )

-- `try_put`: where the space by the cached read index is not enough, the index is read anew.
pub try_put : Buffers → Transmitter → Microslice → Bool × Buffers × Transmitter
unfolding available ge_dual
try_put b t m =
    if ge_dual (available b t) (item_size m)
    then put_item b t m
    else (let t' = record t { read_index_cached = b.read_index } in
        if ge_dual (available b t') (item_size m) then put_item b t' m else (false, b, t'))

pub record Receiver : Type 0 where
  pub write_index_desc : ℕ
  pub read_index_desc : ℕ

-- Whether the content lies in one piece, by the same test.
pub in_one_piece : RingBuffer ℕ → ℕ → ℕ → Bool
in_one_piece r o n = leb (cell r o) (cell r (add64 o n))

-- The bytes that a new `StorableMicroslice` is given.
pub load_content : RingBuffer ℕ → ℕ → ℕ → List ℕ
unfolding in_one_piece
load_content r o n =
    let begin = cell r o in
    let finish = cell r (add64 o n) in
    if in_one_piece r o n
    then read r.buf begin n
    else read r.buf begin (r.size - begin) ++ read r.buf 0 finish

-- Its descriptor: a `StorableMicroslice` made from two pieces takes its size from the content.
pub load_desc : RingBuffer ℕ → MicrosliceDescriptor → MicrosliceDescriptor
load_desc r d =
    if in_one_piece r d.offset d.size
    then d
    else record d { size = length (load_content r d.offset d.size) % 2 ^ 32 }

pub get_item : Buffers → Receiver → Option Microslice × Buffers × Receiver
get_item b rc =
    let d = at b.desc_buffer rc.read_index_desc in
    let next = add64 rc.read_index_desc 1 in
    (
      some (record {
        desc = load_desc b.data_buffer d;
        content = load_content b.data_buffer d.offset d.size;
      }),
      record b { read_index = record { desc = next; data_index = add64 d.offset d.size } },
      record rc { read_index_desc = next },
    )

-- `try_get`: where nothing is known to be there, the write index is read anew.
pub try_get : Buffers → Receiver → Option Microslice × Buffers × Receiver
try_get b rc =
    let rc' =
      if leb rc.write_index_desc rc.read_index_desc
      then record rc { write_index_desc = b.write_index.desc }
      else rc in
    if ltb rc'.read_index_desc rc'.write_index_desc then get_item b rc' else (none, b, rc')
