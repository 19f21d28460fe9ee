-- ===== src/Sender/Tests.antt =====
-- A sender at its start, with an input stream whose first microslice has index 3.
use flesnet.Base.{refl, false, [], ◌∷◌, arith}
use flesnet.Ring.{alloc_with_size_exponent}
use flesnet.Ack.History.{init-IsWindow}
use flesnet.MicrosliceStream.{Buffers, MicrosliceDescriptor}
use flesnet.Rdma.Link.{input_start}
use flesnet.Sender.{Sender, on_write}
use flesnet.Sender.Written.{acks_of, IsSender, Counts, on_write-IsSender}

abbrev two_bytes : MicrosliceDescriptor
two_bytes = record {
  hdr_id = 0;
  hdr_ver = 0;
  eq_id = 0;
  flags = 0;
  sys_id = 0;
  sys_ver = 0;
  idx = 0;
  crc = 0;
  size = 2;
  offset = 8;
}

abbrev source : Buffers
source = record {
  desc_buffer = alloc_with_size_exponent two_bytes 3;
  data_buffer = alloc_with_size_exponent 0 4;
  write_index = record { desc = 9; data_index = 10 };
  read_index = record { desc = 3; data_index = 4 };
}

abbrev started : Sender
started = record {
  conn = input_start 10 2 100 ∷ [];
  data_source = source;
  timeslice_size = 2;
  overlap_size = 1;
  start_index_desc = 3;
  write_index_desc = 9;
  sent_desc = 7;
  sent_data = 10;
  ack = alloc_with_size_exponent 0 2;
  acked_desc = 3;
  acked_data = 4;
  cached_acked_desc = 3;
  cached_acked_data = 4;
  min_acked_desc = 2;
  min_acked_data = 4;
  connections_done = 0;
  all_done = false;
  abort = false;
}

started-IsSender : IsSender started (λ p. false)
unfolding acks_of
started-IsSender = record { window = init-IsWindow 2; some_size = omega arith; grid = refl }

on_write-IsSender_example : Counts started (λ p. false) 1 (on_write started 1 0)
unfolding acks_of alloc_with_size_exponent
on_write-IsSender_example =
    on_write-IsSender started (λ p. false) 1 0 (input_start 10 2 100) started-IsSender refl
      (omega arith) (omega arith) (omega arith)
