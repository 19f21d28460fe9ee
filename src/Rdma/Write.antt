-- ===== src/Rdma/Write.antt =====
-- The remote write of a component: send_data of lib/fles_rdma/InputChannelConnection.cpp, and the
-- lists of local pieces that post_send_data of lib/fles_rdma/InputChannelSender.cpp makes.
use flesnet.Base.{
  ℕ, ◌+◌, ◌-◌, ◌*◌, ◌%◌, ◌^◌, bit_and, Option, none, some, List, [], ◌∷◌, ◌++◌, ltb, leb, ◌==◌,
  if◌then◌else◌, length, take, read, add64, sub64, mul64, add32,
}
use flesnet.Ring.{RingBuffer, cell}
use flesnet.MicrosliceStream.{Buffers}
use flesnet.TimesliceStore.{ComponentDescriptor}
use flesnet.Rdma.{InputConnection, data_size, desc_size}

-- `ibv_sge`: a piece of local memory.
pub record Sge : Type 0 where
  pub addr : ℕ
  pub length : ℕ
  pub lkey : ℕ

pub record RdmaWrite : Type 0 where
  pub remote_addr : ℕ
  pub sg_list : List Sge

-- The work requests of one component, in their order.
pub record Request : Type 0 where
  pub rest_of_buffer : RdmaWrite
  pub wrap : Option RdmaWrite
  pub desc_addr : ℕ
  pub desc : ComponentDescriptor

-- The pieces for the rest of the target buffer, those for its begin, and the number of pieces at
-- the end of the first list that belong to the second alone.
unfoldable pub split : ℕ → List Sge → List Sge × List Sge × ℕ
split left [] = ([], [], 0)
split left (s ∷ ss) =
    let rest = split (if leb s.length left then left - s.length else 0) ss in
    if leb s.length left
    then (s ∷ rest.0, rest.1, rest.2)
    else (if left == 0 then (s ∷ rest.0, s ∷ rest.1, rest.2 + 1) else (
      record s { length = left } ∷ rest.0,
      record s { addr = s.addr + left; length = s.length - left } ∷ rest.1,
      rest.2,
    ))

-- `sizeof(fles::MicrosliceDescriptor)` and `sizeof(fles::TimesliceComponentDescriptor)`, both packed.
abbrev pub desc_bytes : ℕ
desc_bytes = 32

-- `send_data`, for a compute node with its buffers at two remote addresses.
unfoldable pub send_data :
    InputConnection → ℕ → ℕ → List Sge → ℕ → ℕ → ℕ → ℕ → InputConnection × Request
send_data c data_addr desc_addr sge timeslice desc_length data_length skip =
    let cn_wp_data = add64 c.cn_wp.data_index skip in
    let target = bit_and cn_wp_data (data_size c - 1) in
    let total = add64 data_length (mul64 desc_length desc_bytes) in
    let left = data_size c - target in
    let pieces = if ltb left total then split left sge else (sge, [], 0) in
    (
      record c { pending_write_requests = add32 c.pending_write_requests 1 },
      record {
        rest_of_buffer = record {
          remote_addr = data_addr + target;
          sg_list = take (length sge - pieces.2) (pieces.0);
        };
        wrap =
            if length (pieces.1) == 0
            then none
            else some (record { remote_addr = data_addr; sg_list = pieces.1 });
        desc_addr = desc_addr + bit_and c.cn_wp.desc (desc_size c - 1) * desc_bytes;
        desc = record {
          ts_num = timeslice;
          offset = cn_wp_data;
          size = total;
          num_microslices = desc_length;
        };
      },
    )

-- The pieces of `n` entries of a ring at local address `ptr`, from index `offset` on.
unfoldable pub chunks : {A : Type 0} → RingBuffer A → ℕ → ℕ → ℕ → ℕ → ℕ → List Sge
chunks r ptr bytes key offset n =
    if leb (cell r offset) (cell r (sub64 (add64 offset n) 1))
    then record { addr = ptr + cell r offset * bytes; length = bytes * n % 2 ^ 32; lkey = key } ∷ []
    else record {
      addr = ptr + cell r offset * bytes;
      length = bytes * (r.size - cell r offset) % 2 ^ 32;
      lkey = key;
    }
      ∷ record {
        addr = ptr;
        length = bytes * add64 (sub64 n r.size) (cell r offset) % 2 ^ 32;
        lkey = key;
      }
      ∷ []

-- The pieces of a component, descriptors before data, in buffers at two local addresses.
unfoldable pub component_pieces : Buffers → ℕ → ℕ → ℕ → ℕ → ℕ → ℕ → ℕ → ℕ → List Sge
component_pieces b desc_ptr data_ptr desc_key data_key desc_offset desc_length data_offset
      data_length =
    chunks b.desc_buffer desc_ptr desc_bytes desc_key desc_offset desc_length
    ++ (if data_length == 0
        then []
        else chunks b.data_buffer data_ptr 1 data_key data_offset data_length)

-- The bytes that pieces stand for.
unfoldable pub gather : (ℕ → ℕ) → List Sge → List ℕ
gather m [] = []
gather m (s ∷ ss) = read m s.addr s.length ++ gather m ss
