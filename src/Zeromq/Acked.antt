-- ===== src/Zeromq/Acked.antt =====
-- The count of the acknowledged message parts: ack_timeslice of
-- lib/fles_zeromq/ComponentSenderZeromq.cpp keeps it as the bookkeeping of Ack does, two parts for a
-- timeslice.
use flesnet.Base.{
  ℕ, ◌+◌, ◌*◌, ◌/◌, ◌≤◌, ◌<◌, ◌≡◌, refl, inl, inr, Bool, Option, some, arith, ==_iff, ==_of_ne,
  u64_mod, add64, mul64,
}
use native.Mathlib.Nat.{mul-le-mul_right, le-mul_of_pos_right}
use flesnet.Ring.{set_at}
use flesnet.Ack.{Acks, complete}
use flesnet.Ack.Window.{mark, IsWindow}
use flesnet.Ack.Cases.{complete-cases, complete_beyond_is, complete_first_is}
use flesnet.Zeromq.{ComponentSender, publish, acked_to, part, ack_timeslice}

-- The number of the parts acknowledged without a gap, and the marks.
unfoldable pub acks_of : ComponentSender → Acks
acks_of s = record { acked = s.acked_ts2; ack = s.ack }

-- `done` is the set of the acknowledged parts; the acknowledged microslices are those of the timeslices
-- of which both parts are below the first that is not in it.
pub record IsComponentSender (s : ComponentSender) (done : ℕ → Bool) : Type 0 where
  pub window : IsWindow (acks_of s) done
  pub some_size : 0 < s.timeslice_size
  pub grid : s.acked.desc ≡ s.acked_ts2 / 2 * s.timeslice_size + s.start_index.desc

-- What an acknowledgment leaves as it was.
pub record Keeps (s s' : ComponentSender) : Type 0 where
  pub timeslice_size : s'.timeslice_size ≡ s.timeslice_size
  pub start : s'.start_index ≡ s.start_index
  pub marks : s'.ack.size ≡ s.ack.size
  pub descs : s'.data_source.desc_buffer ≡ s.data_source.desc_buffer
  pub bytes : s'.data_source.data_buffer ≡ s.data_source.data_buffer
  pub in_flight : s'.in_flight ≡ s.in_flight

module _ (s : ComponentSender) (n : ℕ) where
  acked_to-parts :
      ((acked_to s n).acked_ts2 ≡ n)
      × ((acked_to s n).ack ≡ s.ack)
      × ((acked_to s n).acked.desc ≡ add64 (mul64 (n / 2) s.timeslice_size) s.start_index.desc)
  unfolding acked_to publish
  acked_to-parts = (ground arith, ground arith, ground arith)

  acked_to-Keeps : Keeps s (acked_to s n)
  unfolding acked_to publish
  acked_to-Keeps = record {
    timeslice_size = ground arith;
    start = ground arith;
    marks = ground arith;
    descs = ground arith;
    bytes = ground arith;
    in_flight = ground arith;
  }

  acked_to-IsComponentSender :
      (done : ℕ → Bool)
      → 0 < s.timeslice_size
      → n * s.timeslice_size + s.start_index.desc < u64_mod
      → IsWindow (record { acked = n; ack = s.ack }) done
      → IsComponentSender (acked_to s n) done
  unfolding acks_of
  acked_to-IsComponentSender done p room w =
      let (counted, same, desc) = acked_to-parts in
      let k = acked_to-Keeps in
      let half : n / 2 * s.timeslice_size ≤ n * s.timeslice_size =
        mul-le-mul_right s.timeslice_size (omega arith) in
      record {
        window = rw (counted, same) w;
        some_size = rw (k.timeslice_size) p;
        grid = rw (counted, k.timeslice_size, k.start) (omega (arith, desc, half, room));
      }

-- What an acknowledgment is to give back.
abbrev pub Counts : ComponentSender → (ℕ → Bool) → ℕ → Option ComponentSender → Type 0
Counts s done p r =
    (s' : ComponentSender) × (r ≡ some s')
    × IsComponentSender s' (mark done p)
    × (complete (acks_of s) p ≡ some (acks_of s'))
    × Keeps s s'
    × (s.acked_ts2 ≤ s'.acked_ts2)

-- The acknowledgment of a part that is not acknowledged, and less than one ring of marks beyond the
-- count, is always handled: the count and the marks move as those of Ack do.
pub ack_timeslice-IsComponentSender :
    (s : ComponentSender) (done : ℕ → Bool) (ts : ℕ) (is_data : Bool)
    → IsComponentSender s done
    → s.acked_ts2 ≤ part ts is_data
    → part ts is_data < s.acked_ts2 + s.ack.size
    → (s.acked_ts2 + s.ack.size) * s.timeslice_size + s.start_index.desc < u64_mod
    → Counts s done (part ts is_data) (ack_timeslice s ts is_data)
unfolding ack_timeslice acks_of set_at
ack_timeslice-IsComponentSender s done ts is_data v lo hi room =
    let p = part ts is_data in
    let full : s.acked_ts2 + s.ack.size < u64_mod =
      omega (arith, le-mul_of_pos_right (s.acked_ts2 + s.ack.size) v.some_size, room) in
    elim (complete-cases (acks_of s) done v.window p lo hi full) [
      | inl (e, (n, m)) ↦
          let fits : n * s.timeslice_size + s.start_index.desc < u64_mod =
            omega (arith, mul-le-mul_right s.timeslice_size m.near, room) in
          let (counted, same, desc) = acked_to-parts s n in
          (
            acked_to s n,
            rw (e, (==_iff s.acked_ts2 s.acked_ts2).1 refl, m.found),
            acked_to-IsComponentSender s n (mark done p) v.some_size fits (rw e m.window),
            rw (e, complete_first_is (acks_of s), m.found, counted, same),
            acked_to-Keeps s n,
            omega (arith, m.forward, counted),
          )
      | inr m ↦ (
        record s { ack = set_at s.ack p p },
        rw (==_of_ne _ _ m.beyond),
        record { window = m.window; some_size = v.some_size; grid = v.grid },
        complete_beyond_is (acks_of s) p m.beyond,
        record {
          timeslice_size = refl;
          start = refl;
          marks = refl;
          descs = refl;
          bytes = refl;
          in_flight = refl;
        },
        omega arith,
      )
    ]
