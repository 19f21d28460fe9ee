-- ===== src/Pattern/Fill.antt =====
-- The words of a content in the data buffer: as a block of the linear memory.
use flesnet.Base.{
  ℕ, zero, suc, ◌+◌, ◌-◌, ◌*◌, ◌/◌, ◌%◌, ◌≤◌, ◌<◌, ◌≡◌, refl, sym, ap, ◌∙◌, arith, write, write_ext,
  write-append, u64_mod, add64,
}
use native.Mathlib.Nat.{mod-eq-sub-mul-div, mul_assoc}
use flesnet.Ring.{RingBuffer, IsRing, cell, at}
use flesnet.Ring.Cells.{cell_lem, cell-lt-size}
use flesnet.Ring.Blocks.{copy-IsRing, at-copy}
use flesnet.Pattern.{data_word, bytes_of, crc_step, store_word, fill_words}
use flesnet.Pattern.Words.{ramp, ramp_crc, length-bytes_of}

-- A word does not cross the border.
word_inside :
    (r : RingBuffer ℕ) (w : ℕ) → IsRing r → r.size % 8 ≡ 0 → w % 8 ≡ 0 → cell r w + 8 ≤ r.size
word_inside r w v even aligned =
    let t : r.size ≡ 8 * (r.size / 8) = omega (arith, even) in
    let q = w / r.size in
    let product : r.size * q ≡ 8 * (r.size / 8 * q) =
      ap (λ x. x * q) t ∙ mul_assoc 8 (r.size / 8) q in
    let e : cell r w ≡ w - 8 * (r.size / 8 * q) =
      cell_lem r w v
      ∙ ap (λ x. w % x) (sym v.size_eq)
      ∙ mod-eq-sub-mul-div w r.size
      ∙ ap (λ x. w - x) product in
    omega (arith, e, t, cell-lt-size r w v, aligned)

-- What the loop leaves: a block written, and the rest of the window as it was.
pub record Fills (r : RingBuffer ℕ) (w n index i crc : ℕ) (s : RingBuffer ℕ × ℕ × ℕ) : Type 0 where
  pub ring : IsRing s.0
  pub size_kept : s.0.size ≡ r.size
  pub moved : s.1 ≡ w + n * 8
  pub checksum : s.2 ≡ ramp_crc n index i crc
  pub block :
      (p : ℕ)
      → w + n * 8 ≤ p + r.size
      → p < w + r.size
      → at (s.0) p ≡ write (at r) w (ramp n index i) p

store_word-IsRing :
    (r : RingBuffer ℕ) (w word : ℕ)
    → IsRing r
    → IsRing (store_word r w word) × ((store_word r w word).size ≡ r.size)
unfolding store_word
store_word-IsRing r w word v = (copy-IsRing r w (bytes_of 8 word) v, refl)

at-store_word :
    (r : RingBuffer ℕ) (w word p : ℕ)
    → IsRing r
    → cell r w + 8 ≤ r.size
    → w + 8 ≤ p + r.size
    → p < w + r.size
    → at (store_word r w word) p ≡ write (at r) w (bytes_of 8 word) p
unfolding store_word
at-store_word r w word p v inside lo hi =
    at-copy r w (bytes_of 8 word) p v (rw (length-bytes_of 8 word) inside)
      (rw (length-bytes_of 8 word) lo) hi

word-Fills :
    (r : RingBuffer ℕ) (w n index i crc : ℕ)
    → IsRing r
    → r.size % 8 ≡ 0
    → w % 8 ≡ 0
    → suc n * 8 ≤ r.size
    → (s : RingBuffer ℕ × ℕ × ℕ)
    → Fills
        (store_word r w (data_word index i))
        (w + 8)
        n
        index
        (i + 8)
        (crc_step crc (data_word index i))
        s
    → Fills r w (suc n) index i crc s
word-Fills r w n index i crc v even aligned short s f =
    let bytes = bytes_of 8 (data_word index i) in
    let size = (store_word-IsRing r w (data_word index i) v).1 in
    record {
      ring = f.ring;
      size_kept = f.size_kept ∙ size;
      moved = omega (arith, f.moved);
      checksum = f.checksum;
      block = λ p lo hi.
          f.block p (rw size (omega (arith, lo))) (rw size (omega (arith, hi)))
          ∙ write_ext (at (store_word r w (data_word index i))) (write (at r) w bytes) (w + 8)
              (ramp n index (i + 8)) p
              (at-store_word r w (data_word index i) p v (word_inside r w v even aligned)
                (omega (arith, lo)) hi)
          ∙ ap (λ j. write (write (at r) w bytes) j (ramp n index (i + 8)) p)
              (ap (λ l. w + l) (sym (length-bytes_of 8 (data_word index i))))
          ∙ ap (λ m. m p) (sym (write-append (at r) w bytes (ramp n index (i + 8))));
    }

pub fill_words-Fills :
    (n index i w crc : ℕ) (r : RingBuffer ℕ)
    → IsRing r
    → r.size % 8 ≡ 0
    → w % 8 ≡ 0
    → n * 8 ≤ r.size
    → w + n * 8 < u64_mod
    → Fills r w n index i crc (fill_words n index i w crc r)
unfolding fill_words
fill_words-Fills zero index i w crc r v even aligned short room = record {
  ring = v;
  size_kept = refl;
  moved = omega arith;
  checksum = refl;
  block = λ p lo hi. refl;
}
fill_words-Fills (suc n) index i w crc r v even aligned short room =
    let word = data_word index i in
    let next : add64 w 8 ≡ w + 8 = omega (arith, room) in
    let ring = store_word-IsRing r w word v in
    rw next (
      word-Fills r w n index i crc v even aligned short
        (fill_words n index (i + 8) (w + 8) (crc_step crc word) (store_word r w word))
        (fill_words-Fills n index (i + 8) (w + 8) (crc_step crc word) (store_word r w word) (ring.0)
          (rw (ring.1) even) (omega (arith, aligned)) (rw (ring.1) (omega (arith, short)))
          (omega (arith, room))))
