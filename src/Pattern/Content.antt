-- ===== src/Pattern/Content.antt =====
-- The content that a round of `proceed` puts into the data buffer: a ramp, or what was there.
use flesnet.Base.{
  ℕ, ◌+◌, ◌/◌, ◌%◌, ◌≤◌, ◌<◌, ◌≡◌, refl, sym, ap, ◌∙◌, inl, inr, true, false, List, arith,
  Bool-cases, length, read, write, write_before, read-write, read_eq, length-read, u64_mod,
}
use flesnet.Ring.{RingBuffer, IsRing, at}
use flesnet.Pattern.{Generator, fill_words, fill}
use flesnet.Pattern.Words.{ramp, ramp_crc, length-ramp}
use flesnet.Pattern.Fill.{fill_words-Fills}

-- What the data buffer holds after a content of `n` bytes.
pub record Filled (g : Generator) (n : ℕ) (content : List ℕ) (s : RingBuffer ℕ × ℕ × ℕ)
    : Type 0 where
  pub ring : IsRing s.0
  pub size_kept : s.0.size ≡ g.buffers.data_buffer.size
  pub moved : s.1 ≡ g.buffers.write_index.data_index + n
  pub stored : read (at (s.0)) g.buffers.write_index.data_index n ≡ content
  pub before :
      (p : ℕ)
      → g.buffers.write_index.data_index + n ≤ p + g.buffers.data_buffer.size
      → p < g.buffers.write_index.data_index
      → at (s.0) p ≡ at g.buffers.data_buffer p
  pub is_ramp :
      g.generate_pattern ≡ true
      → (content ≡ ramp (n / 8) g.input_index 0) × (s.2 ≡ ramp_crc (n / 8) g.input_index 0 0)

module _ (g : Generator) (n : ℕ) (v : IsRing g.buffers.data_buffer)
    (even : g.buffers.data_buffer.size % 8 ≡ 0) (aligned : g.buffers.write_index.data_index % 8 ≡ 0)
    (whole : n % 8 ≡ 0) (short : n < g.buffers.data_buffer.size)
    (room : g.buffers.write_index.data_index + n < u64_mod) where
  abbrev w : ℕ
  w = g.buffers.write_index.data_index

  fill-ramp : g.generate_pattern ≡ true → Filled g n (ramp (n / 8) g.input_index 0) (fill g n)
  unfolding fill
  fill-ramp on =
      let rounds : (n + 7) / 8 ≡ n / 8 = omega (arith, whole) in
      rw (on, rounds)
        (let f =
            fill_words-Fills (n / 8) g.input_index 0 w 0 g.buffers.data_buffer v even aligned
              (omega (arith, whole, short)) (omega (arith, whole, room)) in
          let long : length (ramp (n / 8) g.input_index 0) ≡ n =
            omega (arith, length-ramp (n / 8) g.input_index 0, whole) in
          record {
            ring = f.ring;
            size_kept = f.size_kept;
            moved = omega (arith, f.moved, whole);
            stored =
                ap (read (at ((fill_words (n / 8) g.input_index 0 w 0 g.buffers.data_buffer).0)) w)
                  (sym long)
                ∙ read_eq (at ((fill_words (n / 8) g.input_index 0 w 0 g.buffers.data_buffer).0))
                    (write (at g.buffers.data_buffer) w (ramp (n / 8) g.input_index 0)) w
                    (length (ramp (n / 8) g.input_index 0))
                    (λ j lo hi.
                      f.block j (omega (arith, lo, whole, short)) (omega (arith, hi, long, short)))
                ∙ read-write (at g.buffers.data_buffer) w (ramp (n / 8) g.input_index 0);
            before = λ p lo hi.
                f.block p (omega (arith, lo, whole)) (omega (arith, hi))
                ∙ write_before (at g.buffers.data_buffer) w (ramp (n / 8) g.input_index 0) p hi;
            is_ramp = λ h. (refl, f.checksum);
          })

  fill-blank :
      g.generate_pattern ≡ false → Filled g n (read (at g.buffers.data_buffer) w n) (fill g n)
  unfolding fill
  fill-blank off = rw off (record {
    ring = v;
    size_kept = refl;
    moved = omega (arith, room);
    stored = refl;
    before = λ p lo hi. refl;
    is_ramp = λ h. absurd cc;
  })

  pub fill-Filled : (content : List ℕ) × (length content ≡ n) × Filled g n content (fill g n)
  fill-Filled = elim (Bool-cases g.generate_pattern) [
    | inl on ↦ (
      ramp (n / 8) g.input_index 0,
      omega (arith, length-ramp (n / 8) g.input_index 0, whole),
      fill-ramp on,
    )
    | inr off ↦ (
      read (at g.buffers.data_buffer) w n,
      length-read (at g.buffers.data_buffer) w n,
      fill-blank off,
    )
  ]
