-- ===== src/Zeromq.antt =====
-- lib/fles_zeromq/ComponentSenderZeromq.cpp: an input node that sends the components of timeslices on
-- request. A message part is what it holds; ZeroMQ frees the part later, and its thread then queues
-- an acknowledgment.
pub mod Acked
pub mod Message
pub mod Early
pub mod Answer
mod Tests
use flesnet.Base.{
  ℕ, ◌-◌, ◌/◌, Bool, true, false, not, ◌||◌, Option, some, List, [], ◌∷◌, ◌++◌, map, ltb, leb, ◌==◌,
  if◌then◌else◌, read, add64, sub64, mul64, add32,
}
use mathlib.Core.Option
use flesnet.Ring.{RingBuffer, cell, at, set_at}
use flesnet.Ack.{scan}
use flesnet.MicrosliceStream.{DualIndex, MicrosliceDescriptor, Buffers}

-- `ComponentSenderZeromq`; `in_flight` are the message parts that ZeroMQ has not freed.
pub record ComponentSender : Type 0 where
  pub data_source : Buffers
  pub timeslice_size : ℕ
  pub overlap_size : ℕ
  pub in_flight : List (ℕ × Bool)
  pub pending_acks : List (ℕ × Bool)
  pub ack : RingBuffer ℕ
  pub acked_ts2 : ℕ
  pub acked : DualIndex
  pub min_acked : DualIndex
  pub cached_acked : DualIndex
  pub start_index : DualIndex
  pub write_index_desc : ℕ
  pub sent : DualIndex

-- `cached_acked_ = acked_`, and the read index of the source with it.
pub publish : ComponentSender → ComponentSender
publish s = record s {
  cached_acked = s.acked;
  data_source = record (s.data_source) { read_index = s.acked };
}

pub sync_data_source : ComponentSender → ComponentSender
sync_data_source s =
    if ltb s.cached_acked.data_index s.acked.data_index || ltb s.cached_acked.desc s.acked.desc
    then publish s
    else s

-- Where the data of a microslice ends.
pub data_end : ComponentSender → ℕ → ℕ
data_end s n = let d = at s.data_source.desc_buffer n in add64 d.offset d.size

-- The indices after the parts below `n` are acknowledged.
pub acked_to : ComponentSender → ℕ → ComponentSender
acked_to s n =
    let desc = add64 (mul64 (n / 2) s.timeslice_size) s.start_index.desc in
    let s' = record s {
      acked_ts2 = n;
      acked = record { desc = desc; data_index = data_end s (sub64 desc 1) };
    } in
    if leb (add64 s.cached_acked.data_index s.min_acked.data_index) s'.acked.data_index
      || leb (add64 s.cached_acked.desc s.min_acked.desc) desc
    then publish s'
    else s'

-- The number of a message part: descriptors, then data.
pub part : ℕ → Bool → ℕ
part ts is_data = add64 (mul64 ts 2) (if is_data then 1 else 0)

-- `none` means that the scan of the marks ran out of fuel.
pub ack_timeslice : ComponentSender → ℕ → Bool → Option ComponentSender
ack_timeslice s ts is_data =
    let ts2 = part ts is_data in
    if not (ts2 == s.acked_ts2)
    then some (record s { ack = set_at s.ack ts2 ts2 })
    else Option.map (acked_to s) (scan s.ack.size s.ack ts2 s.acked_ts2)

-- The content of a message part. A part of one chunk points into the buffer, and is acknowledged when
-- it is freed; any other is acknowledged at once.
pub data Part (A : Type 0) : Type 0 where
  copied : List A → Part A
  borrowed : List A → Part A

module _ {A : Type 0} where
  pub content : Part A → List A
  content (copied l) = l
  content (borrowed l) = l

  -- The part that `create_message` makes.
  pub make_part : RingBuffer A → ℕ → ℕ → Part A
  make_part buf offset n =
      if n == 0
      then copied []
      else if leb (cell buf offset) (cell buf (sub64 (add64 offset n) 1))
      then borrowed (read buf.buf (cell buf offset) n)
      else copied (
          read buf.buf (cell buf offset) (buf.size - cell buf offset)
          ++ read buf.buf 0 (add64 (sub64 n buf.size) (cell buf offset)))

  -- What becomes of the acknowledgment of a part.
  pub register : ComponentSender → ℕ → Bool → Part A → Option ComponentSender
  register s ts is_data (copied l) = ack_timeslice s ts is_data
  register s ts is_data (borrowed l) = some (record s { in_flight = (ts, is_data) ∷ s.in_flight })

-- The answer to a request.
pub data Reply : Type 0 where
  empty_message : Reply
  component : List MicrosliceDescriptor → List ℕ → Reply

pub data_of : ComponentSender → ℕ → ℕ → ℕ × ℕ
data_of s desc_offset desc_length =
    let start = (at s.data_source.desc_buffer desc_offset).offset in
    (start, sub64 (data_end s (sub64 (add64 desc_offset desc_length) 1)) start)

-- `try_send_timeslice`, where the sends of both parts succeed.
pub try_send_timeslice : ComponentSender → ℕ → Option (ComponentSender × Reply)
try_send_timeslice s ts =
    let desc_offset = add64 (mul64 ts s.timeslice_size) s.start_index.desc in
    let desc_length = add32 s.timeslice_size s.overlap_size in
    let needed = add64 desc_offset desc_length in
    let s1 = record s {
      write_index_desc =
          if ltb s.write_index_desc needed
          then s.data_source.write_index.desc
          else s.write_index_desc;
    } in
    let desc_part = make_part s.data_source.desc_buffer desc_offset desc_length in
    let d = data_of s desc_offset desc_length in
    let data_part = make_part s.data_source.data_buffer (d.0) (d.1) in
    let finish = add64 (d.0) (d.1) in
    if ltb s1.write_index_desc needed
    then some (s1, empty_message)
    else Option.bind
        (register
          (record s1 {
            sent = record (s1.sent) {
              desc = if ltb s1.sent.desc needed then needed else s1.sent.desc;
            };
          })
          ts false desc_part)
        (λ s2.
          Option.map (λ s3. (s3, component (content desc_part) (content data_part)))
            (register
              (record s2 {
                sent = record (s2.sent) {
                  data_index = if ltb s2.sent.data_index finish then finish else s2.sent.data_index;
                };
              })
              ts true data_part))

-- `process_pending_acks`
pub process_acks : List (ℕ × Bool) → ComponentSender → Option ComponentSender
process_acks [] s = some (record s { pending_acks = [] })
process_acks ((ts, is_data) ∷ l) s = Option.bind (ack_timeslice s ts is_data) (process_acks l)
