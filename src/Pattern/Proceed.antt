-- ===== src/Pattern/Proceed.antt =====
-- `proceed`: microslices behind those that are in the buffers.
use flesnet.Base.{
  ℕ, zero, suc, ◌+◌, ◌/◌, ◌%◌, ◌≤◌, ◌<◌, bit_and, ◌≡◌, refl, inl, inr, Bool, true, false, ◌||◌,
  Option, some, List, [], ◌∷◌, ◌++◌, arith, if◌then◌else◌, Bool-cases, length, All, bit_and_mask,
  u64_mod,
}
use flesnet.Pattern.Content.{Filled, fill-Filled}
use mathlib.Core.List.{append-nil, append_assoc}
use flesnet.Ring.{set_at}
use flesnet.Ring.Cells.{set_at-IsRing, at-set_at_self, at-set_at_ne}
use flesnet.MicrosliceStream.{Microslice, Buffers}
use flesnet.MicrosliceStream.Transmit.{Queue, IsBuffers, Holds-append, Holds-bounds}
use flesnet.Pattern.{
  Generator, Round, fill, descriptor, generate, content_size, too_early, no_space, proceed_loop,
  proceed, flesnet_pattern, generic, create, check,
}
use flesnet.Pattern.Words.{check_words-ramp}

-- The microslices that the buffers hold, with the generator in order.
pub record IsGenerator (g : Generator) (ms : List Microslice) : Type 0 where
  pub valid : IsBuffers g.buffers
  pub queue : Queue g.buffers ms
  pub even : g.buffers.data_buffer.size % 8 ≡ 0
  pub aligned : g.buffers.write_index.data_index % 8 ≡ 0
  pub desc_room :
      g.buffers.read_index.desc + g.buffers.desc_buffer.size + g.buffers.desc_buffer.size + 1
      < u64_mod
  pub data_room :
      g.buffers.read_index.data_index + g.buffers.data_buffer.size + g.buffers.data_buffer.size
      < u64_mod

-- What holds of a microslice that generator `g` wrote: the checker that is made for it is that of the
-- pattern, where there is one, and accepts it.
pub record IsGenerated (index : ℕ) (pattern : Bool) (m : Microslice) : Type 0 where
  pub checker :
      create m.desc.sys_id m.desc.sys_ver index
      ≡ (if pattern then flesnet_pattern index else generic)
  pub accepted : pattern ≡ true → check index m ≡ true
  pub sized : length m.content ≡ m.desc.size

chosen :
    (pattern : Bool) (index : ℕ)
    → create 0xF0 (if pattern then 0x81 else 0x80) index
      ≡ (if pattern then flesnet_pattern index else generic)
unfolding create
chosen true index = refl
chosen false index = refl

module _ (g : Generator) (ms : List Microslice) (n : ℕ) (v : IsGenerator g ms) (whole : n % 8 ≡ 0)
    (short : n < g.buffers.data_buffer.size) (space : no_space g.buffers n 1 ≡ false) where
  abbrev b : Buffers
  b = g.buffers

  has_space :
      (b.write_index.data_index + n ≤ b.read_index.data_index + b.data_buffer.size)
      × (b.write_index.desc + 1 ≤ b.read_index.desc + b.desc_buffer.size)
  unfolding no_space
  has_space =
      let ahead = Holds-bounds b b.read_index.desc b.read_index.data_index ms v.queue in
      ground
        (arith, space, v.data_room, v.desc_room, ahead, v.valid.desc_within, v.valid.data_within)

  -- The microslice that a round adds.
  abbrev item : List ℕ → Microslice
  item content = record { desc = descriptor g n (fill g n).2; content = content }

  generate-IsGenerator :
      (content : List ℕ)
      → Filled g n content (fill g n)
      → IsGenerator (generate g n) (ms ++ item content ∷ [])
  unfolding generate descriptor set_at
  generate-IsGenerator content f =
      let (data_space, desc_space) = has_space in
      let ahead = Holds-bounds b b.read_index.desc b.read_index.data_index ms v.queue in
      record {
        valid = record {
          descs = set_at-IsRing b.desc_buffer b.write_index.desc _ v.valid.descs;
          bytes = f.ring;
          desc_within = omega (arith, desc_space, v.desc_room);
          data_within = omega (arith, f.moved, f.size_kept, data_space);
        };
        queue =
            Holds-append b (generate g n).buffers b.read_index.desc b.read_index.data_index ms
              (item content)
              (λ p lo hi.
                at-set_at_ne b.desc_buffer b.write_index.desc p _ v.valid.descs (omega arith)
                  (omega (arith, desc_space)) (omega arith))
              (λ p lo hi. f.before p (omega (arith, lo, data_space)) hi) f.size_kept
              (
                at-set_at_self b.desc_buffer b.write_index.desc _,
                f.stored,
                omega (arith, f.size_kept, short),
                (omega (arith, v.desc_room, desc_space), f.moved),
              )
              v.queue;
        even = rw f.size_kept v.even;
        aligned = omega (arith, f.moved, v.aligned, whole);
        desc_room = v.desc_room;
        data_room = rw f.size_kept v.data_room;
      }

  generate-IsGenerated :
      (content : List ℕ)
      → length content ≡ n
      → Filled g n content (fill g n)
      → IsGenerated g.input_index g.generate_pattern (item content)
  unfolding descriptor check
  generate-IsGenerated content sized f = record {
    checker = chosen g.generate_pattern g.input_index;
    accepted = λ h.
        let (ramped, sum) = f.is_ramp h in
        rw (ramped, sum) (check_words-ramp (n / 8) g.input_index 0 0 0 refl);
    sized = sized;
  }

  -- A round that finds space adds one microslice.
  abbrev Adds : Type 0
  Adds =
      (m : Microslice) × IsGenerated g.input_index g.generate_pattern m
      × IsGenerator (generate g n) (ms ++ m ∷ [])
      × ((generate g n).buffers.write_index.desc ≡ b.write_index.desc + 1)
      × ((generate g n).buffers.desc_buffer.size ≡ b.desc_buffer.size)
      × ((generate g n).buffers.data_buffer.size ≡ b.data_buffer.size)

  generate-Adds : Adds
  unfolding generate set_at
  generate-Adds =
      let (data_space, desc_space) = has_space in
      let (content, sized, f) =
        fill-Filled g n v.valid.bytes v.even v.aligned whole short
          (omega (arith, data_space, v.data_room)) in
      (
        item content,
        generate-IsGenerated content sized f,
        generate-IsGenerator content f,
        omega (arith, desc_space, v.desc_room),
        refl,
        f.size_kept,
      )

or_false : (x y : Bool) → (x || y) ≡ false → y ≡ false
or_false true y h = absurd cc
or_false false y h = h

content_size-whole : (g : Generator) (t : Round) → content_size g t % 8 ≡ 0
unfolding content_size
content_size-whole g t =
    let n = if g.randomize_sizes then t.drawn else g.typical_content_size in
    let e : bit_and n 7 ≡ n % 8 = bit_and_mask 3 n in omega (arith, e)

content_size-generate :
    (g : Generator) (n : ℕ) (t : Round) → content_size (generate g n) t ≡ content_size g t
unfolding content_size generate
content_size-generate g n t = refl

-- What `proceed` leaves: more microslices behind those that are there, each of them generated, and the
-- read index as it was.
abbrev pub Grows : Generator → List Microslice → Option Generator → Type 0
Grows g ms r =
    (g' : Generator) × (r ≡ some g')
    × (new : List Microslice) × IsGenerator g' (ms ++ new)
    × All (IsGenerated g.input_index g.generate_pattern) new
    × (g'.buffers.read_index ≡ g.buffers.read_index)

-- All contents are shorter than the data buffer.
abbrev pub IsShort : Generator → (ℕ → Round) → Type 0
IsShort g world = (k : ℕ) → content_size g (world k) < g.buffers.data_buffer.size

no_more : (g : Generator) (ms : List Microslice) → IsGenerator g ms → Grows g ms (some g)
no_more g ms v = (g, refl, [], rw (append-nil ms) v, tt, refl)

one_more :
    (g : Generator) (ms : List Microslice) (n : ℕ) (m : Microslice) (r : Option Generator)
    → IsGenerated g.input_index g.generate_pattern m
    → Grows (generate g n) (ms ++ m ∷ []) r
    → Grows g ms r
unfolding generate
one_more g ms n m r v (g', e, new, w, all, same) =
    (g', e, m ∷ new, rw⁻¹ (append_assoc ms (m ∷ []) new) w, (v, all), same)

module _ (world : ℕ → Round) where
  proceed_loop-Grows :
      (fuel k : ℕ) (g : Generator) (ms : List Microslice)
      → IsGenerator g ms
      → IsShort g world
      → g.buffers.read_index.desc + g.buffers.desc_buffer.size < g.buffers.write_index.desc + fuel
      → Grows g ms (proceed_loop world fuel k g)
  unfolding proceed_loop generate
  proceed_loop-Grows zero k g ms v short enough = absurd (omega (arith, v.valid.desc_within))
  proceed_loop-Grows (suc fuel) k g ms v short enough =
      elim (Bool-cases (too_early g (world k) || no_space g.buffers (content_size g (world k)) 1)) [
        | inl stop ↦ rw stop (no_more g ms v)
        | inr go ↦
            let n = content_size g (world k) in
            let space = or_false (too_early g (world k)) (no_space g.buffers n 1) go in
            let (m, made, w, next, descs, size) =
              generate-Adds g ms n v (content_size-whole g (world k)) (short k) space in
            rw go (
              one_more g ms n m (proceed_loop world fuel (k + 1) (generate g n)) made (
                proceed_loop-Grows fuel (k + 1) (generate g n) (ms ++ m ∷ []) w
                  (λ j. omega (arith, short j, size, content_size-generate g n (world j)))
                  (omega (arith, next, descs, enough))))
      ]

  -- `proceed` always returns. What it adds to the buffers are microslices as long as their descriptors
  -- say, which the checker that is chosen for them accepts; what was there is kept, and nothing is
  -- written over that is not acknowledged.
  pub proceed-Grows :
      (g : Generator) (ms : List Microslice)
      → IsGenerator g ms
      → IsShort g world
      → Grows g ms (proceed world g)
  unfolding proceed
  proceed-Grows g ms v short =
      let stop =
        no_space g.buffers (g.buffers.data_buffer.size / 4) (g.buffers.desc_buffer.size / 4) in
      elim (Bool-cases stop) [
        | inl full ↦ rw full (no_more g ms v)
        | inr room ↦ rw room (
            proceed_loop-Grows (g.buffers.desc_buffer.size + 1) 0 g ms v short (
              omega (
                arith,
                Holds-bounds g.buffers g.buffers.read_index.desc g.buffers.read_index.data_index ms
                    v.queue,
              )))
      ]
