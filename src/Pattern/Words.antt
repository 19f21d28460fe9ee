-- ===== src/Pattern/Words.antt =====
-- A word in memory, and the words of a content.
use flesnet.Base.{
  ℕ, zero, suc, ◌+◌, ◌*◌, ◌/◌, ◌^◌, ◌<◌, ◌≡◌, refl, ap, true, List, [], ◌++◌, arith, ==_iff, length,
  drop, length-append,
}
use native.Mathlib.Nat.{pow-suc}
use flesnet.Pattern.{data_word, crc_step, bytes_of, word_of, check_words}

word_of-bytes_of :
    (n word : ℕ) (rest : List ℕ) → word < 256 ^ n → word_of n (bytes_of n word ++ rest) ≡ word
unfolding word_of bytes_of
word_of-bytes_of zero word rest h = omega (arith, h)
word_of-bytes_of (suc n) word rest h =
    omega (arith, word_of-bytes_of n (word / 256) rest (omega (arith, pow-suc 256 n, h)))

pub length-bytes_of : (n word : ℕ) → length (bytes_of n word) ≡ n
unfolding bytes_of
length-bytes_of zero word = refl
length-bytes_of (suc n) word = ap suc (length-bytes_of n (word / 256))

drop-bytes_of : (n word : ℕ) (rest : List ℕ) → drop n (bytes_of n word ++ rest) ≡ rest
unfolding bytes_of
drop-bytes_of zero word rest = refl
drop-bytes_of (suc n) word rest = drop-bytes_of n (word / 256) rest

-- The bytes that the generator writes: `n` words from offset `i` on.
abbrev pub ramp : ℕ → ℕ → ℕ → List ℕ
ramp zero index i = []
ramp (suc n) index i = bytes_of 8 (data_word index i) ++ ramp n index (i + 8)

abbrev pub ramp_crc : ℕ → ℕ → ℕ → ℕ → ℕ
ramp_crc zero index i crc = crc
ramp_crc (suc n) index i crc = ramp_crc n index (i + 8) (crc_step crc (data_word index i))

pub length-ramp : (n index i : ℕ) → length (ramp n index i) ≡ n * 8
length-ramp zero index i = refl
length-ramp (suc n) index i = omega (
  arith,
  length-append (bytes_of 8 (data_word index i)) (ramp n index (i + 8)),
  length-bytes_of 8 (data_word index i),
  length-ramp n index (i + 8),
)

data_word_bound : (index i : ℕ) → data_word index i < 256 ^ 8
unfolding data_word
data_word_bound index i = omega arith

-- The checker accepts a ramp with the checksum of the generator.
pub check_words-ramp :
    (n index pos crc i : ℕ)
    → i ≡ pos * 8
    → check_words n index pos crc (ramp n index i) (ramp_crc n index i crc) ≡ true
unfolding check_words
check_words-ramp zero index pos crc i e = ground arith
check_words-ramp (suc n) index pos crc i e =
    let w = data_word index i in
    rw
      (
        word_of-bytes_of 8 w (ramp n index (i + 8)) (data_word_bound index i),
        drop-bytes_of 8 w (ramp n index (i + 8)),
        ← e,
        (==_iff w w).1 refl,
      )
      (check_words-ramp n index (pos + 1) (crc_step crc w) (i + 8) (omega arith))
