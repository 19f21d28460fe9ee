-- ===== src/MicrosliceStream/Receive.antt =====
-- `try_get` takes the oldest microslice off the queue.
use flesnet.Base.{
  ℕ, ◌+◌, ◌%◌, ◌^◌, ◌≤◌, ◌<◌, ◌≡◌, refl, sym, ap, ◌∙◌, subst, inl, inr, true, false, Option, none,
  some, List, [], ◌∷◌, arith, ltb, leb, if◌then◌else◌, Bool-cases, length, length-read, add64,
}
use flesnet.Ring.{at}
use flesnet.MicrosliceStream.{
  DualIndex, MicrosliceDescriptor, Microslice, Buffers, Receiver, load_content, load_desc,
  in_one_piece, get_item, try_get,
}
use flesnet.MicrosliceStream.Stored.{load_content-eq-read}
use flesnet.MicrosliceStream.Transmit.{Holds, Queue, IsBuffers, HasIndices, Holds-bounds}

-- The receiver knows its read index, and a write index that may be out of date.
pub record IsReceiver (b : Buffers) (rc : Receiver) : Type 0 where
  pub same : rc.read_index_desc ≡ b.read_index.desc
  pub known : rc.write_index_desc ≤ b.write_index.desc

-- What `try_get` returns for a queue: nothing, or its first microslice, with the offset of its
-- content in the buffer, and what it leaves is the rest.
abbrev pub Gets : Buffers → List Microslice → Option Microslice × Buffers × Receiver → Type 0
Gets b [] r = (r.0 ≡ none) × (r.1 ≡ b) × IsReceiver b r.2
Gets b (m ∷ ms) r =
    (r.0
      ≡ some (record {
        desc = record (m.desc) { offset = b.read_index.data_index };
        content = m.content;
      }))
    × Queue r.1 ms
    × IsReceiver r.1 r.2
    × IsBuffers r.1

-- The size of the oldest microslice is a `uint32_t`.
abbrev pub SizesFit : List Microslice → Type 0
SizesFit [] = Unit
SizesFit (m ∷ ms) = m.desc.size < 2 ^ 32

Holds-read :
    (b : Buffers) (i : DualIndex) (d s : ℕ) (ms : List Microslice)
    → Holds b d s ms
    → Holds (record b { read_index = i }) d s ms
Holds-read b i d s [] h = h
Holds-read b i d s (m ∷ ms) h = (h.0, h.1, h.2, Holds-read b i (d + 1) (s + m.desc.size) ms h.3)

module _ (b : Buffers) (v : IsBuffers b) (room : HasIndices b) where
  abbrev reader : ℕ → Receiver
  reader k = record { write_index_desc = k; read_index_desc = b.read_index.desc }

  module _ (m : Microslice) (ms : List Microslice) (q : Queue b (m ∷ ms))
      (size_fits : m.desc.size < 2 ^ 32) where
    abbrev d : MicrosliceDescriptor
    d = record (m.desc) { offset = b.read_index.data_index }

    bounds :
        (b.read_index.desc + 1 + length ms ≡ b.write_index.desc)
        × (b.read_index.data_index + m.desc.size ≤ b.write_index.data_index)
    bounds = Holds-bounds b (b.read_index.desc + 1) (b.read_index.data_index + m.desc.size) ms q.3

    content_loaded : load_content b.data_buffer b.read_index.data_index m.desc.size ≡ m.content
    content_loaded =
        load_content-eq-read b.data_buffer b.read_index.data_index m.desc.size v.bytes q.2
          (omega (arith, bounds, room.data_room))
        ∙ q.1

    length_loaded : length m.content ≡ m.desc.size
    length_loaded =
        ap length (sym q.1) ∙ length-read (at b.data_buffer) b.read_index.data_index m.desc.size

    desc_loaded : load_desc b.data_buffer d ≡ d
    unfolding load_desc
    desc_loaded =
        elim (Bool-cases (in_one_piece b.data_buffer b.read_index.data_index m.desc.size)) [
          | inl one ↦ rw one
          | inr two ↦ rw two (ap (λ n. record d { size = n }) size_again)
        ]
      where
        size_again :
            length (load_content b.data_buffer b.read_index.data_index m.desc.size) % 2 ^ 32
            ≡ m.desc.size
        size_again = omega (arith, ap length content_loaded, length_loaded)

    -- The buffers after the call.
    abbrev rest : Buffers
    rest = record b {
      read_index = record {
        desc = b.read_index.desc + 1;
        data_index = b.read_index.data_index + m.desc.size;
      };
    }

    get_item_lem :
        (k : ℕ)
        → get_item b (reader k) ≡ (
          some (record { desc = d; content = m.content }),
          rest,
          record { write_index_desc = k; read_index_desc = b.read_index.desc + 1 },
        )
    unfolding get_item
    get_item_lem k = rw (q.0, desc_loaded, content_loaded, next_desc, next_data)
      where
        next_desc : add64 b.read_index.desc 1 ≡ b.read_index.desc + 1
        next_desc = omega (arith, bounds, room.desc_room)

        next_data :
            add64 b.read_index.data_index m.desc.size ≡ b.read_index.data_index + m.desc.size
        next_data = omega (arith, bounds, room.data_room)

    get_item-Gets : (k : ℕ) → k ≤ b.write_index.desc → Gets b (m ∷ ms) (get_item b (reader k))
    get_item-Gets k known = subst (Gets b (m ∷ ms)) (sym (get_item_lem k)) (
      refl,
      Holds-read b rest.read_index (b.read_index.desc + 1) (b.read_index.data_index + m.desc.size)
          ms q.3,
      record { same = refl; known = known },
      record {
        descs = v.descs;
        bytes = v.bytes;
        desc_within = omega (arith, v.desc_within);
        data_within = omega (arith, v.data_within);
      },
    )

  -- The write index that the call works with.
  abbrev refreshed : ℕ → ℕ
  refreshed k = if leb k b.read_index.desc then b.write_index.desc else k

  try_get-reader :
      (k : ℕ)
      → try_get b (reader k) ≡ (
          if ltb b.read_index.desc (refreshed k)
          then get_item b (reader (refreshed k))
          else (none, b, reader (refreshed k)))
  unfolding try_get
  try_get-reader k = elim (Bool-cases (leb k b.read_index.desc)) [
    | inl old ↦ rw old
    | inr new ↦ rw new
  ]

  try_get-Gets :
      (ms : List Microslice) (k : ℕ)
      → Queue b ms
      → SizesFit ms
      → k ≤ b.write_index.desc
      → Gets b ms (try_get b (reader k))
  try_get-Gets [] k q z h =
      rw (try_get-reader k, nothing) (refl, refl, record { same = refl; known = refreshed-le })
    where
      nothing : ltb b.read_index.desc (refreshed k) ≡ false
      nothing = ground arith

      refreshed-le : refreshed k ≤ b.write_index.desc
      refreshed-le = ground arith
  try_get-Gets (m ∷ ms) k q z h =
      rw (try_get-reader k, something) (get_item-Gets m ms q z (refreshed k) refreshed-le)
    where
      something : ltb b.read_index.desc (refreshed k) ≡ true
      something = ground (arith, bounds m ms q z)

      refreshed-le : refreshed k ≤ b.write_index.desc
      refreshed-le = ground arith

-- `try_get`, on buffers that hold a queue, returns nothing exactly when the queue is empty, and
-- then leaves the buffers as they are; else it returns the oldest microslice, its content whole and
-- its descriptor with the offset in the buffer, and leaves the rest of the queue in valid buffers.
pub try_get_lem :
    (b : Buffers) (rc : Receiver) (ms : List Microslice)
    → IsBuffers b
    → HasIndices b
    → IsReceiver b rc
    → Queue b ms
    → SizesFit ms
    → Gets b ms (try_get b rc)
try_get_lem b rc ms v room w q z =
    subst (λ x. Gets b ms (try_get b x)) (sym same)
      (try_get-Gets b v room ms rc.write_index_desc q z w.known)
  where
    same : rc ≡ reader b v room rc.write_index_desc
    same = ap (λ i. record rc { read_index_desc = i }) w.same
