-- ===== src/Sender/Written.antt =====
-- The count of the written timeslices: on_completion, case ID_WRITE_DESC, of
-- lib/fles_rdma/InputChannelSender.cpp keeps it as the bookkeeping of Ack does, in microslices.
use mathlib.Core.Option
use native.Mathlib.Nat.{mul-div_cancel, mul-le-mul_right, le-mul_of_pos_right}
use flesnet.Base.{
  ℕ, ◌+◌, ◌*◌, ◌/◌, ◌≤◌, ◌<◌, ◌≡◌, refl, sym, subst, ◌≢◌, inl, inr, Bool, Option, some, arith,
  ==_iff, ==_of_ne, get_elem?, u64_mod, add64, sub64, mul64,
}
use flesnet.Ack.Cases.{Moves, Marks, complete-cases, complete_beyond_is, complete_first_is}
use flesnet.Ring.{set_at}
use flesnet.Ack.{Acks, complete}
use flesnet.Ack.Window.{mark, IsWindow}
use flesnet.Rdma.{InputConnection, on_complete_write}
use flesnet.Sender.{Sender, update_at, publish, acked_to, on_write}

-- The number of the timeslices written without a gap, and the marks.
unfoldable pub acks_of : Sender → Acks
acks_of s = record { acked = sub64 s.acked_desc s.start_index_desc / s.timeslice_size; ack = s.ack }

-- `done` is the set of the timeslices written, and the acknowledged microslices are those of the
-- timeslices below the first that is not in it.
pub record IsSender (s : Sender) (done : ℕ → Bool) : Type 0 where
  pub window : IsWindow (acks_of s) done
  pub some_size : 0 < s.timeslice_size
  pub grid : s.acked_desc ≡ (acks_of s).acked * s.timeslice_size + s.start_index_desc

module _ (s : Sender) (n : ℕ) where
  acked_to-desc : (acked_to s n).acked_desc ≡ add64 (mul64 n s.timeslice_size) s.start_index_desc
  unfolding acked_to publish
  acked_to-desc = ground arith

  acked_to-ack : (acked_to s n).ack ≡ s.ack
  unfolding acked_to publish
  acked_to-ack = ground arith

  acked_to-size : (acked_to s n).timeslice_size ≡ s.timeslice_size
  unfolding acked_to publish
  acked_to-size = ground arith

  acked_to-start : (acked_to s n).start_index_desc ≡ s.start_index_desc
  unfolding acked_to publish
  acked_to-start = ground arith

-- What is counted stands on the grid of the timeslices.
acked_to-counts :
    (s : Sender) (n : ℕ)
    → 0 < s.timeslice_size
    → n * s.timeslice_size + s.start_index_desc < u64_mod
    → ((acks_of (acked_to s n)).acked ≡ n)
      × ((acked_to s n).acked_desc ≡ n * s.timeslice_size + s.start_index_desc)
unfolding acks_of
acked_to-counts s n p room =
    let at_n : (acked_to s n).acked_desc ≡ n * s.timeslice_size + s.start_index_desc =
      omega (arith, acked_to-desc s n, room) in
    let back : sub64 (acked_to s n).acked_desc (acked_to s n).start_index_desc
        ≡ n * s.timeslice_size =
      omega (arith, at_n, acked_to-start s n, room) in
    (rw (back, acked_to-size s n) (mul-div_cancel n p), at_n)

-- After a count up to `n`, the marks unchanged.
acked_to-IsSender :
    (s : Sender) (done : ℕ → Bool) (n : ℕ)
    → 0 < s.timeslice_size
    → n * s.timeslice_size + s.start_index_desc < u64_mod
    → IsWindow (record { acked = n; ack = s.ack }) done
    → IsSender (acked_to s n) done
unfolding acks_of
acked_to-IsSender s done n p room w =
    let (counted, at_n) = acked_to-counts s n p room in
    record {
      window = rw (counted, acked_to-ack s n) w;
      some_size = rw (acked_to-size s n) p;
      grid = rw (counted, acked_to-size s n, acked_to-start s n) at_n;
    }

-- What `on_write` is to give back: the counted state for the larger set.
abbrev pub Counts : Sender → (ℕ → Bool) → ℕ → Option Sender → Type 0
Counts s done ts r =
    (s' : Sender) × (r ≡ some s')
    × IsSender s' (mark done ts)
    × (complete (acks_of s) ts ≡ some (acks_of s'))
    × ((ts ≢ (acks_of s).acked) → s'.acked_desc ≡ s.acked_desc)

module _ (s : Sender) (done : ℕ → Bool) (cn : ℕ) (c : InputConnection) (v : IsSender s done)
    (there : get_elem? s.conn cn ≡ some c) where
  write_beyond : (ts : ℕ) → Marks (acks_of s) done ts → Counts s done ts (on_write s ts cn)
  unfolding on_write acks_of Option.bind
  write_beyond ts m = (
    record s { conn = update_at cn (on_complete_write c) s.conn; ack = set_at s.ack ts ts },
    rw (there, ==_of_ne _ _ m.beyond),
    record { window = m.window; some_size = v.some_size; grid = v.grid },
    complete_beyond_is (acks_of s) ts m.beyond,
    λ h. refl,
  )

  write_first :
      (n : ℕ)
      → ((acks_of s).acked + s.ack.size) * s.timeslice_size + s.start_index_desc < u64_mod
      → Moves (acks_of s) done n
      → Counts s done (acks_of s).acked (on_write s (acks_of s).acked cn)
  unfolding on_write acks_of Option.bind
  write_first n room m =
      let s1 : Sender = record s { conn = update_at cn (on_complete_write c) s.conn } in
      let fits : n * s.timeslice_size + s.start_index_desc < u64_mod =
        omega (arith, mul-le-mul_right s.timeslice_size m.near, room) in
      let (counted, at_n) = acked_to-counts s1 n v.some_size fits in
      (
        acked_to s1 n,
        rw (there, (==_iff (acks_of s).acked (acks_of s).acked).1 refl, m.found),
        acked_to-IsSender s1 (mark done (acks_of s).acked) n v.some_size fits m.window,
        rw (complete_first_is (acks_of s), m.found, counted, acked_to-ack s1 n),
        λ h. absurd (h refl),
      )

-- A completed write of the component of timeslice `ts` is always handled: the marks end within the
-- ring, the acknowledged microslices are those of the timeslices without a gap.
pub on_write-IsSender :
    (s : Sender) (done : ℕ → Bool) (ts cn : ℕ) (c : InputConnection)
    → IsSender s done
    → get_elem? s.conn cn ≡ some c
    → (acks_of s).acked ≤ ts
    → ts < (acks_of s).acked + s.ack.size
    → ((acks_of s).acked + s.ack.size) * s.timeslice_size + s.start_index_desc < u64_mod
    → Counts s done ts (on_write s ts cn)
unfolding acks_of
on_write-IsSender s done ts cn c v there lo hi room =
    let full : (acks_of s).acked + s.ack.size < u64_mod =
      omega (arith, le-mul_of_pos_right ((acks_of s).acked + s.ack.size) v.some_size, room) in
    elim (complete-cases (acks_of s) done v.window ts lo hi full) [
      | inl (e, (n, m)) ↦
          subst (λ x. Counts s done x (on_write s x cn)) (sym e)
            (write_first s done cn c v there n room m)
      | inr m ↦ write_beyond s done cn c v there ts m
    ]
