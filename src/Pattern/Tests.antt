-- ===== src/Pattern/Tests.antt =====
-- A generator with 64 bytes and four descriptors.
use flesnet.Base.{ℕ, ◌≡◌, refl, true, false, [], arith}
use flesnet.Ring.{alloc_with_size_exponent}
use flesnet.Ring.Cells.{alloc-IsRing}
use flesnet.MicrosliceStream.{MicrosliceDescriptor}
use flesnet.Pattern.{Generator, Round, data_word, crc_step, fill_words, fill, content_size, proceed}
use flesnet.Pattern.Proceed.{IsGenerator, IsShort, Grows, proceed-Grows}

abbrev no_desc : MicrosliceDescriptor
no_desc = record {
  hdr_id = 0;
  hdr_ver = 0;
  eq_id = 0;
  flags = 0;
  sys_id = 0;
  sys_ver = 0;
  idx = 0;
  crc = 0;
  size = 0;
  offset = 0;
}

abbrev generator : Generator
generator = record {
  buffers = record {
    desc_buffer = alloc_with_size_exponent no_desc 2;
    data_buffer = alloc_with_size_exponent 0 6;
    write_index = record { desc = 0; data_index = 0 };
    read_index = record { desc = 0; data_index = 0 };
  };
  input_index = 3;
  generate_pattern = true;
  typical_content_size = 20;
  randomize_sizes = false;
  delay_ns = 0;
  initial_ns = 0;
}

abbrev world : ℕ → Round
world k = record { delta_ns = k; drawn = 0 }

size_sixteen : content_size generator (world 0) ≡ 16
unfolding content_size
size_sixteen = refl

crc_of_ramp : (fill generator 16).2 ≡ 8
unfolding fill fill_words crc_step data_word
crc_of_ramp = refl

generator-IsGenerator : IsGenerator generator []
unfolding alloc_with_size_exponent
generator-IsGenerator = record {
  valid = record {
    descs = alloc-IsRing no_desc 2;
    bytes = alloc-IsRing 0 6;
    desc_within = omega arith;
    data_within = omega arith;
  };
  queue = (refl, refl);
  even = refl;
  aligned = refl;
  desc_room = omega arith;
  data_room = omega arith;
}

generator-IsShort : IsShort generator world
unfolding content_size alloc_with_size_exponent
generator-IsShort k = omega arith

proceed-Grows_example : Grows generator [] (proceed world generator)
proceed-Grows_example = proceed-Grows world generator [] generator-IsGenerator generator-IsShort
