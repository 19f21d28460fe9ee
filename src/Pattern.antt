-- ===== src/Pattern.antt =====
-- lib/fles_core/FlesnetPatternGenerator.cpp writes microslices with a ramp into the buffers of an
-- input, and lib/fles_core/FlesnetPatternChecker.cpp checks such a microslice. The clock and the random
-- numbers are arguments.
pub mod Words
pub mod Fill
pub mod Content
pub mod Proceed
mod Tests
use flesnet.Base.{
  ℕ, zero, suc, ◌+◌, ◌-◌, ◌*◌, ◌/◌, ◌%◌, ◌^◌, bit_and, Bool, false, not, ◌&&◌, ◌||◌, Option, none,
  some, List, [], ◌∷◌, ltb, ◌==◌, if◌then◌else◌, drop, u64_mod, add64, sub64, mul64,
}
use Prim.Native.Nat.{bit_or, bit_xor}
use flesnet.Ring.{RingBuffer, set_at}
use flesnet.Ring.Blocks.{copy}
use flesnet.MicrosliceStream.{DualIndex, MicrosliceDescriptor, Microslice, Buffers}

-- `(index << 48) | i`, a 64-bit word.
pub data_word : ℕ → ℕ → ℕ
data_word index i = bit_or (index * 2 ^ 48 % u64_mod) i % u64_mod

-- `crc ^= (word & 0xffffffff) ^ (word >> 32)`, 32 bits.
pub crc_step : ℕ → ℕ → ℕ
crc_step crc word = bit_xor crc (bit_xor (word % 2 ^ 32) (word / 2 ^ 32)) % 2 ^ 32

-- The eight bytes of a word in memory, the lowest first, and the word that eight bytes are.
pub bytes_of : ℕ → ℕ → List ℕ
bytes_of zero word = []
bytes_of (suc n) word = word % 256 ∷ bytes_of n (word / 256)

pub word_of : ℕ → List ℕ → ℕ
word_of zero bytes = 0
word_of (suc n) [] = 0
word_of (suc n) (b ∷ bytes) = b + 256 * word_of n bytes

-- `FlesnetPatternGenerator`
pub record Generator : Type 0 where
  pub buffers : Buffers
  pub input_index : ℕ
  pub generate_pattern : Bool
  pub typical_content_size : ℕ
  pub randomize_sizes : Bool
  pub delay_ns : ℕ
  pub initial_ns : ℕ

-- What a round of the loop meets: the time since the start, and the next random size.
pub record Round : Type 0 where
  pub delta_ns : ℕ
  pub drawn : ℕ

-- One word, to the data buffer.
pub store_word : RingBuffer ℕ → ℕ → ℕ → RingBuffer ℕ
store_word r w word = copy r w (bytes_of 8 word)

-- The loop over the words of a content: `n` rounds, from offset `i` on.
pub fill_words : ℕ → ℕ → ℕ → ℕ → ℕ → RingBuffer ℕ → RingBuffer ℕ × ℕ × ℕ
fill_words zero index i w crc r = (r, w, crc)
fill_words (suc n) index i w crc r =
    fill_words n index (i + 8) (add64 w 8) (crc_step crc (data_word index i))
      (store_word r w (data_word index i))

-- The data buffer, the write index and the checksum after the content.
pub fill : Generator → ℕ → RingBuffer ℕ × ℕ × ℕ
fill g content_bytes =
    let b = g.buffers in
    if g.generate_pattern
    then fill_words ((content_bytes + 7) / 8) g.input_index 0 b.write_index.data_index 0
        b.data_buffer
    else (b.data_buffer, add64 b.write_index.data_index content_bytes, 0)

-- The descriptor that `proceed` writes.
pub descriptor : Generator → ℕ → ℕ → MicrosliceDescriptor
descriptor g content_bytes crc = record {
  hdr_id = 0xDD;
  hdr_ver = 0x01;
  eq_id = 0xE001;
  flags = 0;
  sys_id = 0xF0;
  sys_ver = if g.generate_pattern then 0x81 else 0x80;
  idx = g.buffers.write_index.desc;
  crc = crc;
  size = content_bytes;
  offset = g.buffers.write_index.data_index;
}

-- One microslice.
pub generate : Generator → ℕ → Generator
generate g content_bytes =
    let b = g.buffers in
    let f = fill g content_bytes in
    record g {
      buffers = record b {
        data_buffer = f.0;
        desc_buffer = set_at b.desc_buffer b.write_index.desc (descriptor g content_bytes (f.2));
        write_index = record { desc = add64 b.write_index.desc 1; data_index = f.1 };
      };
    }

-- `content_bytes &= ~0x7u`
pub content_size : Generator → Round → ℕ
content_size g t =
    let n = if g.randomize_sizes then t.drawn else g.typical_content_size in n - bit_and n 7

-- The rate limit; the time that is required is read as a signed number.
pub too_early : Generator → Round → Bool
too_early g t =
    let required = add64 (mul64 g.delay_ns g.buffers.write_index.desc) g.initial_ns in
    not (g.delay_ns == 0) && (ltb required (2 ^ 63) && ltb t.delta_ns required)

-- Whether there is no space for `data` bytes and `desc` descriptors.
pub no_space : Buffers → ℕ → ℕ → Bool
no_space b data_len desc_len =
    ltb b.data_buffer.size (add64 (sub64 b.write_index.data_index b.read_index.data_index) data_len)
    || ltb b.desc_buffer.size (add64 (sub64 b.write_index.desc b.read_index.desc) desc_len)

-- `while (true)`, with fuel; `none` means that the fuel ran out. `k` is the number of the round.
pub proceed_loop : (ℕ → Round) → ℕ → ℕ → Generator → Option Generator
proceed_loop world zero k g = none
proceed_loop world (suc fuel) k g =
    let n = content_size g (world k) in
    let rest = proceed_loop world fuel (k + 1) (generate g n) in
    if too_early g (world k) || no_space g.buffers n 1 then some g else rest

-- `proceed`: no more rounds than there are descriptors, and one that finds no space.
pub proceed : (ℕ → Round) → Generator → Option Generator
proceed world g =
    let b = g.buffers in
    if no_space b (b.data_buffer.size / 4) (b.desc_buffer.size / 4)
    then some g
    else proceed_loop world (b.desc_buffer.size + 1) 0 g

-- The checkers that `PatternChecker::create` chooses from.
pub data Checker : Type 0 where
  generic : Checker
  flesnet_pattern : ℕ → Checker
  flib_legacy : Checker
  flib : Checker

pub create : ℕ → ℕ → ℕ → Checker
create sys_id sys_ver component =
    if not (sys_id == 0xF0)
    then generic
    else if sys_ver == 0x81
    then flesnet_pattern component
    else if sys_ver == 0x10 || sys_ver == 0x11
    then flib_legacy
    else if sys_ver == 0x20
    then flib
    else generic

-- The words of `content` from position `pos` on, `n` of them.
pub check_words : ℕ → ℕ → ℕ → ℕ → List ℕ → ℕ → Bool
check_words zero component pos crc content expected_crc = crc == expected_crc
check_words (suc n) component pos crc content expected_crc =
    let word = word_of 8 content in
    let rest =
      check_words n component (pos + 1) (crc_step crc word) (drop 8 content) expected_crc in
    if word == data_word component (pos * 8) then rest else false

-- `FlesnetPatternChecker::check`
pub check : ℕ → Microslice → Bool
check component m = check_words (m.desc.size / 8) component 0 0 m.content m.desc.crc
