-- ===== src/Rdma/WriteTests.antt =====
-- A remote write that meets the end of the target buffer.
use flesnet.Base.{ℕ, ◌≡◌, refl, List, [], ◌∷◌, map, arith}
use flesnet.Ring.{alloc_with_size_exponent}
use flesnet.Ring.Cells.{alloc-IsRing}
use flesnet.MicrosliceStream.{Buffers, MicrosliceDescriptor}
use flesnet.Rdma.Component.{IsSource, pieces}
use flesnet.Rdma.{InputConnection}
use flesnet.Rdma.Link.{input_start}
use flesnet.Rdma.Write.{Sge, Request, split, send_data}

-- 24 bytes are left in a buffer of 1024 bytes.
abbrev near_end : InputConnection
near_end = record (input_start 10 2 100) { cn_wp = record { data_index = 1000; desc = 3 } }

abbrev cut_pieces : List Sge
cut_pieces =
    record { addr = 64; length = 32; lkey = 1 } ∷ record { addr = 4096; length = 8; lkey = 2 } ∷ []

abbrev request : Request
request = (send_data near_end 65536 0 cut_pieces 7 1 8 0).1

abbrev bytes : ℕ → ℕ
bytes i = i

request_cut : map (λ s. s.length) request.rest_of_buffer.sg_list ≡ 24 ∷ []
unfolding send_data split input_start
request_cut = refl

-- Input buffers of 4 descriptors and 16 bytes: a component of two microslices with 10 bytes, both
-- cut at the border.
abbrev no_desc : MicrosliceDescriptor
no_desc = record {
  hdr_id = 0;
  hdr_ver = 0;
  eq_id = 0;
  flags = 0;
  sys_id = 0;
  sys_ver = 0;
  idx = 0;
  crc = 0;
  size = 0;
  offset = 0;
}

abbrev source : Buffers
source = record {
  desc_buffer = alloc_with_size_exponent no_desc 2;
  data_buffer = alloc_with_size_exponent 0 4;
  write_index = record { desc = 5; data_index = 22 };
  read_index = record { desc = 3; data_index = 12 };
}

source-IsSource : IsSource source 3 2 12 10
unfolding alloc_with_size_exponent
source-IsSource = record {
  desc_ring = alloc-IsRing no_desc 2;
  data_ring = alloc-IsRing 0 4;
  some_desc = omega arith;
  desc_within = omega arith;
  data_within = omega arith;
  desc_no_wrap = omega arith;
  data_no_wrap = omega arith;
  desc_small = omega arith;
  data_small = omega arith;
}

abbrev sent : Request
sent =
    (send_data near_end 65536 0 (pieces bytes source 4096 8192 1 2 3 2 12 10 source-IsSource) 7 2 10
      0).1
