-- ===== src/Zeromq/Answer.antt =====
-- The answer to a request: nothing yet, or the whole component.
use flesnet.Base.{
  ℕ, ◌+◌, ◌*◌, ◌≤◌, ◌<◌, ◌≡◌, refl, ap, ◌∙◌, ◌⊎◌, inl, inr, Bool, true, false, Option, some, ◌∷◌,
  arith, ltb, if◌then◌else◌, ==_of_ne, Bool-cases, read, u64_mod, add64, mul64, add32,
}
use mathlib.Core.Option
use mathlib.Core.Path.{ap₂}
use native.Mathlib.Nat.{mul-le-mul_right}
use flesnet.Ring.{IsRing, at}
use flesnet.Ack.History.{not_below}
use flesnet.Ack.Window.{mark}
use flesnet.MicrosliceStream.{MicrosliceDescriptor}
use flesnet.Zeromq.{
  ComponentSender, Part, copied, borrowed, content, make_part, register, part, Reply, empty_message,
  component, data_of, try_send_timeslice,
}
use flesnet.Zeromq.Message.{content-make_part}
use flesnet.Zeromq.Acked.{acks_of, IsComponentSender, ack_timeslice-IsComponentSender}

-- The parts that are acknowledged after a part is made: one more, or it is in flight.
abbrev Registers : ComponentSender → (ℕ → Bool) → ℕ → Bool → Option ComponentSender → Type 0
Registers s done ts is_data r =
    (s' : ComponentSender) × (done' : ℕ → Bool) × (r ≡ some s')
    × IsComponentSender s' done'
    × (((done' ≡ mark done (part ts is_data)) × (s'.in_flight ≡ s.in_flight))
        ⊎ ((done' ≡ done) × (s'.in_flight ≡ (ts, is_data) ∷ s.in_flight)))
    × (s.acked_ts2 ≤ s'.acked_ts2)
    × (s'.ack.size ≡ s.ack.size)
    × (s'.timeslice_size ≡ s.timeslice_size)
    × (s'.start_index ≡ s.start_index)

register-Registers :
    {A : Type 0} (s : ComponentSender) (done : ℕ → Bool) (ts : ℕ) (is_data : Bool) (p : Part A)
    → IsComponentSender s done
    → done (part ts is_data) ≡ false
    → part ts is_data < s.acked_ts2 + s.ack.size
    → (s.acked_ts2 + s.ack.size) * s.timeslice_size + s.start_index.desc < u64_mod
    → Registers s done ts is_data (register s ts is_data p)
unfolding register acks_of
register-Registers s done ts is_data (copied l) v fresh near room =
    let lo = not_below (part ts is_data) v.window fresh in
    let (s', e, w, c, k, up) = ack_timeslice-IsComponentSender s done ts is_data v lo near room in
    (
      s',
      mark done (part ts is_data),
      e,
      w,
      inl (refl, k.in_flight),
      up,
      k.marks,
      k.timeslice_size,
      k.start,
    )
register-Registers s done ts is_data (borrowed l) v fresh near room = (
  record s { in_flight = (ts, is_data) ∷ s.in_flight },
  done,
  refl,
  record { window = v.window; some_size = v.some_size; grid = v.grid },
  inr (refl, refl),
  omega arith,
  refl,
  refl,
  refl,
)

-- The microslices of a component, and where its data lie.
abbrev pub desc_offset : ComponentSender → ℕ → ℕ
desc_offset s ts = add64 (mul64 ts s.timeslice_size) s.start_index.desc

abbrev pub desc_length : ComponentSender → ℕ
desc_length s = add32 s.timeslice_size s.overlap_size

abbrev pub data_extent : ComponentSender → ℕ → ℕ × ℕ
data_extent s ts = data_of s (desc_offset s ts) (desc_length s)

-- The write index that the sender goes by.
abbrev pub known_write : ComponentSender → ℕ → ℕ
known_write s ts =
    if ltb s.write_index_desc (add64 (desc_offset s ts) (desc_length s))
    then s.data_source.write_index.desc
    else s.write_index_desc

-- The component fits the buffers, and no index wraps.
pub record Fits (s : ComponentSender) (ts : ℕ) : Type 0 where
  pub descs : IsRing s.data_source.desc_buffer
  pub bytes : IsRing s.data_source.data_buffer
  pub desc_within : desc_length s ≤ s.data_source.desc_buffer.size
  pub data_within : (data_extent s ts).1 ≤ s.data_source.data_buffer.size
  pub desc_no_wrap : desc_offset s ts + desc_length s < u64_mod
  pub data_no_wrap : (data_extent s ts).0 + (data_extent s ts).1 < u64_mod
  pub desc_small : s.data_source.desc_buffer.size < u64_mod
  pub data_small : s.data_source.data_buffer.size < u64_mod

-- What the answer is to be.
abbrev pub answer : ComponentSender → ℕ → Reply
answer s ts =
    if ltb (known_write s ts) (add64 (desc_offset s ts) (desc_length s))
    then empty_message
    else component (read (at s.data_source.desc_buffer) (desc_offset s ts) (desc_length s))
        (read (at s.data_source.data_buffer) ((data_extent s ts).0) ((data_extent s ts).1))

abbrev pub Answers : ComponentSender → ℕ → Option (ComponentSender × Reply) → Type 0
Answers s ts r =
    (s' : ComponentSender) × (done' : ℕ → Bool) × (r ≡ some (s', answer s ts))
    × IsComponentSender s' done'
    × (s.acked_ts2 ≤ s'.acked_ts2)

module _ (s : ComponentSender) (done : ℕ → Bool) (ts : ℕ) (v : IsComponentSender s done)
    (f : Fits s ts) (fresh_desc : done (part ts false) ≡ false)
    (fresh_data : done (part ts true) ≡ false) (no_wrap : ts * 2 + 1 < u64_mod)
    (near : part ts true < s.acked_ts2 + s.ack.size)
    (room : (s.acked_ts2 + s.ack.size + s.ack.size) * s.timeslice_size + s.start_index.desc
      < u64_mod) where
  parts : (part ts false ≡ ts * 2) × (part ts true ≡ ts * 2 + 1)
  unfolding part
  parts = (omega (arith, no_wrap), omega (arith, no_wrap))

  abbrev desc_part : Part MicrosliceDescriptor
  desc_part = make_part s.data_source.desc_buffer (desc_offset s ts) (desc_length s)

  abbrev data_part : Part ℕ
  data_part = make_part s.data_source.data_buffer ((data_extent s ts).0) ((data_extent s ts).1)

  abbrev finish : ℕ
  finish = add64 ((data_extent s ts).0) ((data_extent s ts).1)

  -- Before each of the parts is made.
  abbrev before_desc : ComponentSender
  before_desc = record s {
    write_index_desc = known_write s ts;
    sent = record (s.sent) {
      desc =
          if ltb s.sent.desc (add64 (desc_offset s ts) (desc_length s))
          then add64 (desc_offset s ts) (desc_length s)
          else s.sent.desc;
    };
  }

  abbrev before_data : ComponentSender → ComponentSender
  before_data s2 = record s2 {
    sent = record (s2.sent) {
      data_index = if ltb s2.sent.data_index finish then finish else s2.sent.data_index;
    };
  }

  before_desc-IsComponentSender : IsComponentSender before_desc done
  unfolding acks_of
  before_desc-IsComponentSender = record {
    window = v.window;
    some_size = v.some_size;
    grid = v.grid;
  }

  contents :
      component (content desc_part) (content data_part)
      ≡ component
          (read (at s.data_source.desc_buffer) (desc_offset s ts) (desc_length s))
          (read (at s.data_source.data_buffer) ((data_extent s ts).0) ((data_extent s ts).1))
  contents =
      ap₂ component
        (content-make_part s.data_source.desc_buffer (desc_offset s ts) (desc_length s) f.descs
          f.desc_within f.desc_no_wrap f.desc_small)
        (content-make_part s.data_source.data_buffer ((data_extent s ts).0) ((data_extent s ts).1)
          f.bytes f.data_within f.data_no_wrap f.data_small)

  abbrev second : ComponentSender → Option (ComponentSender × Reply)
  second s2 =
      Option.map (λ s3. (s3, component (content desc_part) (content data_part)))
        (register (before_data s2) ts true data_part)

  send_second :
      Registers before_desc done ts false (register before_desc ts false desc_part)
      → (s' : ComponentSender) × (done' : ℕ → Bool) × (Option.bind
            (register before_desc ts false desc_part)
            second
          ≡ some (s', component (content desc_part) (content data_part)))
        × IsComponentSender s' done'
        × (s.acked_ts2 ≤ s'.acked_ts2)
  unfolding Option.bind acks_of
  send_second (s2, done2, e, w, how, up, marks, size, start) =
      let (lo, hi) = parts in
      let ready : IsComponentSender (before_data s2) done2 = record {
        window = w.window;
        some_size = w.some_size;
        grid = w.grid;
      } in
      let fresh2 : done2 (part ts true) ≡ false = elim how [
        | inl (d, same) ↦
            ap (λ g. g (part ts true)) d
            ∙ rw (==_of_ne (part ts true) (part ts false) (omega (arith, lo, hi))) fresh_data
        | inr (d, same) ↦ ap (λ g. g (part ts true)) d ∙ fresh_data
      ] in
      let behind : s2.acked_ts2 ≤ part ts true = not_below (part ts true) w.window fresh2 in
      let more : s2.acked_ts2 + s2.ack.size ≤ s.acked_ts2 + s.ack.size + s.ack.size =
        omega (arith, behind, near, marks) in
      let (s3, done3, e3, w3, how3, up3, marks3, size3, start3) =
        register-Registers (before_data s2) done2 ts true data_part ready fresh2
          (omega (arith, near, up, marks))
          (omega (
            arith,
            mul-le-mul_right s.timeslice_size more,
            ap (λ t. (s2.acked_ts2 + s2.ack.size) * t) size,
            ap (λ i. i.desc) start,
            room,
          )) in
      (s3, done3, rw (e, e3) refl, w3, omega (arith, up, up3))

  -- A request is always answered. Where the microslices are not there the answer is empty, and else it is
  -- the whole component: its descriptors and its data, in the order of the ring buffers.
  pub try_send_timeslice_lem : Answers s ts (try_send_timeslice s ts)
  unfolding try_send_timeslice Option.bind acks_of
  try_send_timeslice_lem =
      elim (Bool-cases (ltb (known_write s ts) (add64 (desc_offset s ts) (desc_length s)))) [
        | inl missing ↦ (
          record s { write_index_desc = known_write s ts },
          done,
          rw missing refl,
          record { window = v.window; some_size = v.some_size; grid = v.grid },
          omega arith,
        )
        | inr there ↦
            let (lo, hi) = parts in
            let less : s.acked_ts2 + s.ack.size ≤ s.acked_ts2 + s.ack.size + s.ack.size =
              omega arith in
            let (s', done', e, w, up) = send_second (
              register-Registers before_desc done ts false desc_part before_desc-IsComponentSender
                fresh_desc (omega (arith, lo, hi, near))
                (omega (arith, mul-le-mul_right s.timeslice_size less, room))) in
            (s', done', rw there (e ∙ ap (λ r. some (s', r)) contents), w, up)
      ]
