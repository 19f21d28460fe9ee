-- ===== src/Rdma/Component.antt =====
-- A component as it is sent: post_send_data of lib/fles_rdma/InputChannelSender.cpp and send_data
-- of lib/fles_rdma/InputChannelConnection.cpp together.
use flesnet.Base.{ℕ, ◌+◌, ◌*◌, ◌^◌, ◌≤◌, ◌<◌, List, [], ◌==◌, if◌then◌else◌, u64_mod}
use flesnet.Ring.{IsRing}
use flesnet.MicrosliceStream.{Buffers}
use flesnet.Rdma.Write.{Sge, chunks, component_pieces, desc_bytes}
use flesnet.Rdma.Pieces.{ring_bytes}

-- What a component needs of the input buffers: its entries are in them, and positions and lengths
-- do not overflow.
pub record IsSource (b : Buffers) (desc_offset desc_length data_offset data_length : ℕ)
    : Type 0 where
  pub desc_ring : IsRing b.desc_buffer
  pub data_ring : IsRing b.data_buffer
  pub some_desc : 0 < desc_length
  pub desc_within : desc_length ≤ b.desc_buffer.size
  pub data_within : data_length ≤ b.data_buffer.size
  pub desc_no_wrap : desc_offset + desc_length < u64_mod
  pub data_no_wrap : data_offset + data_length < u64_mod
  pub desc_small : desc_bytes * b.desc_buffer.size < 2 ^ 32
  pub data_small : 1 * b.data_buffer.size < 2 ^ 32

module _ (m : ℕ → ℕ) (b : Buffers)
    (desc_ptr data_ptr desc_key data_key desc_offset desc_length data_offset data_length : ℕ)
    (v : IsSource b desc_offset desc_length data_offset data_length) where
  abbrev pub pieces : List Sge
  pieces =
      component_pieces b desc_ptr data_ptr desc_key data_key desc_offset desc_length data_offset
        data_length

  abbrev pub desc_part : List ℕ
  desc_part = ring_bytes m b.desc_buffer desc_ptr desc_bytes desc_offset desc_length

  abbrev pub data_part : List ℕ
  data_part = ring_bytes m b.data_buffer data_ptr 1 data_offset data_length

  abbrev data_pieces : List Sge
  data_pieces =
      if data_length == 0
      then []
      else chunks b.data_buffer data_ptr 1 data_key data_offset data_length
