-- ===== src/MicrosliceStream/Tests.antt =====
-- Buffers of two descriptors and four bytes, and the theorems there.
use flesnet.Base.{◌+◌, ◌<◌, ◌≡◌, refl, ◌⊎◌, true, some, [], ◌∷◌, arith, ◌==◌, if◌then◌else◌, read}
use mathlib.Core.Option
use flesnet.Ring.{at, set_at, alloc_with_size_exponent}
use flesnet.MicrosliceStream.{
  DualIndex, MicrosliceDescriptor, Microslice, Buffers, Transmitter, Receiver, try_put, try_get,
  get_item, load_content, load_desc, in_one_piece,
}
use flesnet.MicrosliceStream.Transmit.{IsBuffers, HasIndices, IsTransmitter, Queue, Puts}
use flesnet.MicrosliceStream.TryPut.{Refuses, try_put_lem}
use flesnet.MicrosliceStream.Receive.{IsReceiver, Gets, try_get_lem}
use flesnet.MicrosliceStream.Overrun.{try_put-overrun}

abbrev no_desc : MicrosliceDescriptor
no_desc = record {
  hdr_id = 0;
  hdr_ver = 0;
  eq_id = 0;
  flags = 0;
  sys_id = 0;
  sys_ver = 0;
  idx = 0;
  crc = 0;
  size = 0;
  offset = 0;
}

abbrev two_bytes : Microslice
two_bytes = record { desc = record no_desc { size = 2 }; content = 7 ∷ 8 ∷ [] }

abbrev four_bytes : Microslice
four_bytes = record { desc = record no_desc { size = 4 }; content = 1 ∷ 2 ∷ 3 ∷ 4 ∷ [] }

-- Both indices stand at descriptor 1 and byte 3.
abbrev index : DualIndex
index = record { desc = 1; data_index = 3 }

abbrev buffers : Buffers
buffers = record {
  desc_buffer = alloc_with_size_exponent no_desc 1;
  data_buffer = alloc_with_size_exponent 0 2;
  write_index = index;
  read_index = index;
}

abbrev transmitter : Transmitter
transmitter = record { write_index = index; read_index_cached = index }

buffers_valid : IsBuffers buffers × HasIndices buffers × IsTransmitter buffers transmitter
unfolding alloc_with_size_exponent
buffers_valid = (
  record {
    descs = record { size_eq = refl; mask_eq = refl };
    bytes = record { size_eq = refl; mask_eq = refl };
    desc_within = omega arith;
    data_within = omega arith;
  },
  record { desc_room = omega arith; data_room = omega arith },
  record {
    same = refl;
    desc_cached = omega arith;
    data_cached = omega arith;
    desc_ahead = omega arith;
    data_ahead = omega arith;
  },
)

try_put_example :
    Puts buffers two_bytes [] (try_put buffers transmitter two_bytes)
    ⊎ Refuses buffers two_bytes (try_put buffers transmitter two_bytes)
unfolding alloc_with_size_exponent
try_put_example =
    try_put_lem buffers two_bytes [] buffers_valid.0 buffers_valid.1 (refl, refl) (omega arith) refl
      transmitter buffers_valid.2

-- The two bytes stand in the last cell and the first.
abbrev filled : Buffers
filled = record buffers {
  desc_buffer = set_at buffers.desc_buffer 1 (record (two_bytes.desc) { offset = 3 });
  data_buffer = record (buffers.data_buffer) { buf = λ i. if i == 3 then 7 else 8 };
  write_index = record { desc = 2; data_index = 5 };
}

abbrev receiver : Receiver
receiver = record { write_index_desc = 1; read_index_desc = 1 }

filled_valid :
    IsBuffers filled
    × HasIndices filled
    × IsReceiver filled receiver
    × Queue filled (two_bytes ∷ [])
unfolding alloc_with_size_exponent set_at at
filled_valid = (
  record {
    descs = record { size_eq = refl; mask_eq = refl };
    bytes = record { size_eq = refl; mask_eq = refl };
    desc_within = omega arith;
    data_within = omega arith;
  },
  record { desc_room = omega arith; data_room = omega arith },
  record { same = refl; known = omega arith },
  (refl, refl, omega arith, (refl, refl)),
)

try_get_example : Gets filled (two_bytes ∷ []) (try_get filled receiver)
try_get_example =
    try_get_lem filled receiver (two_bytes ∷ []) filled_valid.0 filled_valid.1 filled_valid.2
      filled_valid.3 (omega arith)

received_whole : Option.map (λ m. m.content) (try_get filled receiver).0 ≡ some (7 ∷ 8 ∷ [])
unfolding try_get get_item load_content load_desc in_one_piece at set_at alloc_with_size_exponent
received_whole = refl

try_put-overrun_example :
    ((try_put buffers transmitter four_bytes).0 ≡ true)
    × (read (try_put buffers transmitter four_bytes).1.data_buffer.buf 3 4 ≡ 1 ∷ 2 ∷ 3 ∷ 4 ∷ [])
    × (4 < 3 + 4)
unfolding alloc_with_size_exponent
try_put-overrun_example =
    try_put-overrun buffers four_bytes buffers_valid.0 buffers_valid.1 refl (omega arith) refl refl
      (omega arith)
