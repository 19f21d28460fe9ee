-- ===== src/Zeromq/Tests.antt =====
-- A sender with a full ring of eight descriptors, at the start of a run from microslice 0.
use flesnet.Base.{◌≡◌, refl, true, false, some, [], ◌∷◌, arith, read, replicate}
use flesnet.Ring.{IsRing, at, alloc_with_size_exponent, set_at}
use flesnet.Ring.Cells.{alloc-IsRing, set_at-IsRing}
use flesnet.Ack.History.{init-IsWindow}
use flesnet.MicrosliceStream.{Buffers, MicrosliceDescriptor}
use flesnet.Zeromq.{
  ComponentSender, part, data_end, data_of, ack_timeslice, content, make_part, try_send_timeslice,
  component,
}
use flesnet.Zeromq.Answer.{Fits, answer, Answers, try_send_timeslice_lem}
use flesnet.Zeromq.Message.{content-make_part}
use flesnet.Zeromq.Acked.{acks_of, IsComponentSender, Counts, ack_timeslice-IsComponentSender}
use flesnet.Zeromq.Early.{ack_timeslice-early}

abbrev four_bytes : MicrosliceDescriptor
four_bytes = record {
  hdr_id = 0;
  hdr_ver = 0;
  eq_id = 0;
  flags = 0;
  sys_id = 0;
  sys_ver = 0;
  idx = 0;
  crc = 0;
  size = 4;
  offset = 28;
}

abbrev source : Buffers
source = record {
  desc_buffer = set_at (alloc_with_size_exponent four_bytes 3) 0 (record four_bytes { offset = 0 });
  data_buffer = alloc_with_size_exponent 0 5;
  write_index = record { desc = 8; data_index = 32 };
  read_index = record { desc = 0; data_index = 0 };
}

abbrev started : ComponentSender
started = record {
  data_source = source;
  timeslice_size = 2;
  overlap_size = 1;
  in_flight = [];
  pending_acks = [];
  ack = alloc_with_size_exponent 0 4;
  acked_ts2 = 0;
  acked = record { desc = 0; data_index = 0 };
  min_acked = record { desc = 2; data_index = 8 };
  cached_acked = record { desc = 0; data_index = 0 };
  start_index = record { desc = 0; data_index = 0 };
  write_index_desc = 8;
  sent = record { desc = 0; data_index = 0 };
}

source_ring : IsRing source.desc_buffer
source_ring =
    set_at-IsRing (alloc_with_size_exponent four_bytes 3) 0 (record four_bytes { offset = 0 })
      (alloc-IsRing four_bytes 3)

started-IsComponentSender : IsComponentSender started (λ p. false)
unfolding acks_of
started-IsComponentSender = record {
  window = init-IsWindow 4;
  some_size = omega arith;
  grid = refl;
}

ack_timeslice-IsComponentSender_example :
    Counts started (λ p. false) (part 1 true) (ack_timeslice started 1 true)
unfolding alloc_with_size_exponent part
ack_timeslice-IsComponentSender_example =
    ack_timeslice-IsComponentSender started (λ p. false) 1 true started-IsComponentSender
      (omega arith) (omega arith) (omega arith)

ack_timeslice-early_example :
    (s' : ComponentSender) × (ack_timeslice started 0 false ≡ some s')
    × (s'.data_source.read_index ≡ record { desc = 0; data_index = data_end started 7 })
unfolding alloc_with_size_exponent set_at at data_end
ack_timeslice-early_example =
    ack_timeslice-early started source_ring (omega arith) refl refl (omega arith) refl (omega arith)

content-make_part_example :
    content (make_part source.data_buffer 30 4) ≡ read (at source.data_buffer) 30 4
unfolding alloc_with_size_exponent
content-make_part_example =
    content-make_part source.data_buffer 30 4 (alloc-IsRing 0 5) (omega arith) (omega arith)
      (omega arith)

started-Fits : Fits started 0
unfolding data_of data_end alloc_with_size_exponent set_at at
started-Fits = record {
  descs = source_ring;
  bytes = alloc-IsRing 0 5;
  desc_within = omega arith;
  data_within = omega arith;
  desc_no_wrap = omega arith;
  data_no_wrap = omega arith;
  desc_small = omega arith;
  data_small = omega arith;
}

answer_whole :
    answer started 0
    ≡ component (record four_bytes { offset = 0 } ∷ four_bytes ∷ four_bytes ∷ []) (replicate 32 0)
unfolding data_of data_end alloc_with_size_exponent set_at at
answer_whole = refl

try_send_timeslice_example : Answers started 0 (try_send_timeslice started 0)
unfolding part alloc_with_size_exponent
try_send_timeslice_example =
    try_send_timeslice_lem started (λ p. false) 0 started-IsComponentSender started-Fits refl refl
      (omega arith) (omega arith) (omega arith)
