-- ===== src/MicrosliceStream/Transmit.antt =====
-- The buffers hold a queue of microslices: `try_put` appends to it.
use flesnet.Base.{
  ℕ, ◌+◌, ◌≤◌, ◌<◌, ◌≡◌, refl, sym, ap, ◌∙◌, subst, ◌⊎◌, Bool, true, false, List, [], ◌∷◌, ◌++◌,
  arith, length, read, write, write_before, read-write, read_eq, u64_mod,
}
use flesnet.Ring.{IsRing, at, set_at}
use flesnet.Ring.Cells.{at-set_at_self, at-set_at_ne}
use flesnet.MicrosliceStream.{
  DualIndex, add_dual, sub_dual, ge_dual, Microslice, Buffers, Transmitter, available, item_size,
  store_content, put_item,
}
use flesnet.MicrosliceStream.Stored.{at-store_content, store_content-IsRing}

-- From descriptor `d` and byte `s` on the buffers hold the microslices, one behind the other, up
-- to the write index. The offset in each descriptor is that of its content.
abbrev pub Holds : Buffers → (d s : ℕ) → List Microslice → Type 0
Holds b d s [] = (b.write_index.desc ≡ d) × (b.write_index.data_index ≡ s)
Holds b d s (m ∷ ms) =
    (at b.desc_buffer d ≡ record (m.desc) { offset = s })
    × (read (at b.data_buffer) s m.desc.size ≡ m.content)
    × (m.desc.size < b.data_buffer.size)
    × Holds b (d + 1) (s + m.desc.size) ms

-- The queue from the read index on.
abbrev pub Queue : Buffers → List Microslice → Type 0
Queue b ms = Holds b b.read_index.desc b.read_index.data_index ms

pub Holds-bounds :
    (b : Buffers) (d s : ℕ) (ms : List Microslice)
    → Holds b d s ms
    → (d + length ms ≡ b.write_index.desc) × (s ≤ b.write_index.data_index)
Holds-bounds b d s [] h = omega arith
Holds-bounds b d s (m ∷ ms) h = omega (arith, Holds-bounds b (d + 1) (s + m.desc.size) ms h.3)

-- The rings are in order, and the write index is at most one buffer size ahead of the read index.
pub record IsBuffers (b : Buffers) : Type 0 where
  pub descs : IsRing b.desc_buffer
  pub bytes : IsRing b.data_buffer
  pub desc_within : b.write_index.desc ≤ b.read_index.desc + b.desc_buffer.size
  pub data_within : b.write_index.data_index ≤ b.read_index.data_index + b.data_buffer.size

-- The 64-bit indices do not wrap within the next microslices.
pub record HasIndices (b : Buffers) : Type 0 where
  pub desc_room : b.write_index.desc + b.desc_buffer.size + 1 < u64_mod
  pub data_room : b.write_index.data_index + b.data_buffer.size + b.data_buffer.size < u64_mod

-- The transmitter knows its write index, and a read index that may be out of date.
pub record IsTransmitter (b : Buffers) (t : Transmitter) : Type 0 where
  pub same : t.write_index ≡ b.write_index
  pub desc_cached : t.read_index_cached.desc ≤ b.read_index.desc
  pub data_cached : t.read_index_cached.data_index ≤ b.read_index.data_index
  pub desc_ahead : b.write_index.desc ≤ t.read_index_cached.desc + b.desc_buffer.size
  pub data_ahead : b.write_index.data_index ≤ t.read_index_cached.data_index + b.data_buffer.size

-- Buffers that agree where the queue stands, with one microslice more behind it.
pub Holds-append :
    (b c : Buffers) (d s : ℕ) (ms : List Microslice) (m : Microslice)
    → ((p : ℕ) → d ≤ p → p < b.write_index.desc → at c.desc_buffer p ≡ at b.desc_buffer p)
    → ((p : ℕ) → s ≤ p → p < b.write_index.data_index → at c.data_buffer p ≡ at b.data_buffer p)
    → c.data_buffer.size ≡ b.data_buffer.size
    → Holds c b.write_index.desc b.write_index.data_index (m ∷ [])
    → Holds b d s ms
    → Holds c d s (ms ++ m ∷ [])
Holds-append b c d s [] m hd hs z new h =
    subst (λ x. Holds c x s (m ∷ [])) h.0
      (subst (λ x. Holds c b.write_index.desc x (m ∷ [])) h.1 new)
Holds-append b c d s (x ∷ xs) m hd hs z new h =
    let (dt, st) = Holds-bounds b (d + 1) (s + x.desc.size) xs h.3 in
    (
      hd d (omega arith) (omega (arith, dt)) ∙ h.0,
      read_eq (at c.data_buffer) (at b.data_buffer) s x.desc.size
            (λ j lo hi. hs j lo (omega (arith, st)))
          ∙ h.1,
      omega (arith, z, h.2),
      Holds-append b c (d + 1) (s + x.desc.size) xs m (λ p lo hi. hd p (omega arith) hi)
          (λ p lo hi. hs p (omega arith) hi) z new h.3,
    )

-- What a successful call leaves.
pub record Puts (b : Buffers) (m : Microslice) (ms : List Microslice)
    (r : Bool × Buffers × Transmitter) : Type 0 where
  pub done : r.0 ≡ true
  pub queue : Queue r.1 (ms ++ m ∷ [])
  pub buffers : IsBuffers r.1
  pub transmitter : IsTransmitter r.1 r.2
  pub read_same : r.1.read_index ≡ b.read_index

module _ (b : Buffers) (known : DualIndex) (m : Microslice) (ms : List Microslice) (v : IsBuffers b)
    (room : HasIndices b)
    (w : IsTransmitter b (record { write_index = b.write_index; read_index_cached = known }))
    (q : Queue b ms) (short : m.desc.size < b.data_buffer.size)
    (sized : length m.content ≡ m.desc.size) where
  abbrev pub knows : Transmitter
  knows = record { write_index = b.write_index; read_index_cached = known }

  behind :
      (b.read_index.desc ≤ b.write_index.desc)
      × (b.read_index.data_index ≤ b.write_index.data_index)
  behind = omega (arith, Holds-bounds b b.read_index.desc b.read_index.data_index ms q)

  -- The computed space is the one by the cached read index, with no wrap.
  available_lem :
      (b.write_index.desc + (available b knows).desc ≡ known.desc + b.desc_buffer.size)
      × (b.write_index.data_index + (available b knows).data_index
          ≡ known.data_index + b.data_buffer.size)
  unfolding available sub_dual add_dual
  available_lem = (
    omega (arith, w.desc_cached, behind, room.desc_room, w.desc_ahead),
    omega (arith, w.data_cached, behind, room.data_room, w.data_ahead),
  )

  fits_space :
      ge_dual (available b knows) (item_size m) ≡ true
      → (b.write_index.desc + 1 ≤ known.desc + b.desc_buffer.size)
        × (b.write_index.data_index + m.desc.size ≤ known.data_index + b.data_buffer.size)
  unfolding ge_dual
  fits_space h = ground (arith, available_lem)

  abbrev put_buffers : Buffers
  put_buffers = (put_item b knows m).1

  bytes_at :
      (p : ℕ)
      → b.write_index.data_index + m.desc.size ≤ p + b.data_buffer.size
      → p < b.write_index.data_index + b.data_buffer.size
      → at put_buffers.data_buffer p ≡ write (at b.data_buffer) b.write_index.data_index m.content p
  unfolding put_item
  bytes_at =
      at-store_content b.data_buffer b.write_index.data_index m.desc.size v.bytes short
        (omega (arith, room.data_room)) m.content sized

  descs_at :
      (p : ℕ)
      → p < b.write_index.desc
      → b.write_index.desc < p + b.desc_buffer.size
      → at put_buffers.desc_buffer p ≡ at b.desc_buffer p
  unfolding put_item
  descs_at p lo hi =
      at-set_at_ne b.desc_buffer b.write_index.desc p _ v.descs (omega arith) hi (omega arith)

  new_item :
      b.write_index.data_index + m.desc.size ≤ known.data_index + b.data_buffer.size
      → Holds put_buffers b.write_index.desc b.write_index.data_index (m ∷ [])
  unfolding put_item add_dual
  new_item fits = (
    at-set_at_self b.desc_buffer b.write_index.desc _,
    ap (read (at put_buffers.data_buffer) b.write_index.data_index) (sym sized)
        ∙ read_eq (at put_buffers.data_buffer)
            (write (at b.data_buffer) b.write_index.data_index m.content) b.write_index.data_index
            (length m.content) (λ j lo hi. bytes_at j (omega arith) (omega arith))
        ∙ read-write (at b.data_buffer) b.write_index.data_index m.content,
    omega (arith, size_kept),
    (omega (arith, room.desc_room), omega (arith, room.data_room)),
  )
    where
      size_kept : put_buffers.data_buffer.size ≡ b.data_buffer.size
      size_kept =
          (store_content-IsRing b.data_buffer b.write_index.data_index m.desc.size m.content
            v.bytes).1

  -- The fields that the call leaves alone or moves.
  record Moves : Type 0 where
    returns_true : (put_item b knows m).0 ≡ true
    read_kept : put_buffers.read_index ≡ b.read_index
    same_index : (put_item b knows m).2.write_index ≡ put_buffers.write_index
    cached_desc : (put_item b knows m).2.read_index_cached.desc ≡ known.desc
    cached_data : (put_item b knows m).2.read_index_cached.data_index ≡ known.data_index
    moved_desc : put_buffers.write_index.desc ≡ b.write_index.desc + 1
    moved_data : put_buffers.write_index.data_index ≡ b.write_index.data_index + m.desc.size
    desc_size : put_buffers.desc_buffer.size ≡ b.desc_buffer.size
    data_size : put_buffers.data_buffer.size ≡ b.data_buffer.size
    desc_ring : IsRing put_buffers.desc_buffer
    data_ring : IsRing put_buffers.data_buffer

  moves : Moves
  unfolding put_item add_dual set_at
  moves = record {
    returns_true = refl;
    read_kept = refl;
    same_index = refl;
    cached_desc = refl;
    cached_data = refl;
    moved_desc = omega (arith, room.desc_room);
    moved_data = omega (arith, room.data_room);
    desc_size = refl;
    data_size = stored.1;
    desc_ring = record { size_eq = v.descs.size_eq; mask_eq = v.descs.mask_eq };
    data_ring = stored.0;
  }
    where
      stored :
          IsRing (store_content b.data_buffer b.write_index.data_index m.desc.size m.content)
          × ((store_content b.data_buffer b.write_index.data_index m.desc.size m.content).size
              ≡ b.data_buffer.size)
      stored =
          store_content-IsRing b.data_buffer b.write_index.data_index m.desc.size m.content v.bytes

  pub put_item-Puts :
      ge_dual (available b knows) (item_size m) ≡ true → Puts b m ms (put_item b knows m)
  put_item-Puts h =
      let (fd, fb) = fits_space h in
      record {
        done = moves.returns_true;
        queue =
            subst (λ i. Holds put_buffers i.desc i.data_index (ms ++ m ∷ [])) (sym moves.read_kept)
              (Holds-append b put_buffers b.read_index.desc b.read_index.data_index ms m
                (λ p lo hi. descs_at p hi (omega (arith, w.desc_cached)))
                (λ p lo hi.
                  bytes_at p (omega (arith, w.data_cached)) (omega (arith, room.data_room))
                  ∙ write_before (at b.data_buffer) b.write_index.data_index m.content p hi)
                moves.data_size (new_item fb) q);
        buffers = record {
          descs = moves.desc_ring;
          bytes = moves.data_ring;
          desc_within = omega (
            arith,
            moves.moved_desc,
            moves.moved_data,
            ap (λ i. i.desc) moves.read_kept,
            moves.desc_size,
            w.desc_cached,
          );
          data_within = omega (
            arith,
            moves.moved_desc,
            moves.moved_data,
            ap (λ i. i.data_index) moves.read_kept,
            moves.data_size,
            w.data_cached,
          );
        };
        transmitter = record {
          same = moves.same_index;
          desc_cached = omega (
            arith,
            w.desc_cached,
            ap (λ i. i.desc) moves.read_kept,
            moves.cached_desc,
            moves.cached_data,
          );
          data_cached = omega (
            arith,
            w.data_cached,
            ap (λ i. i.data_index) moves.read_kept,
            moves.cached_desc,
            moves.cached_data,
          );
          desc_ahead = omega (
            arith, moves.moved_desc, moves.moved_data, moves.desc_size, moves.cached_desc,
            moves.cached_data,
          );
          data_ahead = omega (
            arith, moves.moved_desc, moves.moved_data, moves.data_size, moves.cached_desc,
            moves.cached_data,
          );
        };
        read_same = moves.read_kept;
      }

  pub refuses_full :
      ge_dual (available b knows) (item_size m) ≡ false
      → (known.desc + b.desc_buffer.size < b.write_index.desc + 1)
        ⊎ (known.data_index + b.data_buffer.size < b.write_index.data_index + m.desc.size)
  unfolding ge_dual
  refuses_full h = ground (arith, available_lem)
