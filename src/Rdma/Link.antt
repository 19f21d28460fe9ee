-- ===== src/Rdma/Link.antt =====
-- The two ends of a connection with the status messages between them, and what may happen:
-- lib/fles_rdma/InputChannelSender.cpp (try_send_timeslice and the calls of the connection),
-- lib/fles_rdma/TimesliceBuilder.cpp (on_completion and poll_ts_completion). Remote writes and
-- status messages share one queue pair, which keeps their order: a write is shown as done at once.
use mathlib.Core.Option
use flesnet.Base.{
  ℕ, ◌+◌, ◌^◌, ◌≤◌, ◌<◌, ◌≡◌, Bool, true, false, ◌&&◌, Option, none, some, List, [], ◌∷◌, ◌++◌,
  if◌then◌else◌, u64_mod, add64, add32,
}
use flesnet.Ring.{RingBuffer, IsRing, set_at}
use flesnet.TimesliceStore.{ComponentDescriptor}
use flesnet.Rdma.{
  Position, InputMessage, ComputeMessage, InputConnection, ComputeConnection,
  check_for_buffer_space, write_request_available, inc_write_pointers, skip_required,
  try_sync_buffer_positions, finalize, on_complete_write, receive_ack, inc_ack_pointers, receive_wp,
  on_complete_send, on_complete_send_finalize, data_size,
}

pub record Link : Type 0 where
  pub input : InputConnection
  pub compute : ComputeConnection
  pub to_compute : List InputMessage
  pub to_input : List ComputeMessage

abbrev pub origin : Position
origin = record { data_index = 0; desc = 0 }

-- Both ends as they are constructed, for buffers of 2^de bytes and 2^ne descriptors.
unfoldable pub input_start : ℕ → ℕ → ℕ → InputConnection
input_start de ne max_pending = record {
  data_buffer_size_exp = de;
  desc_buffer_size_exp = ne;
  cn_wp = origin;
  cn_ack = origin;
  our_turn = true;
  finalized = false;
  abort = false;
  done = false;
  send_status_message = record { wp = origin; abort = false; final = false };
  pending_write_requests = 0;
  max_pending_write_requests = max_pending;
}

unfoldable pub compute_start : RingBuffer ComponentDescriptor → ComputeConnection
compute_start descs = record {
  descs = descs;
  cn_wp = origin;
  cn_ack = origin;
  done = false;
  send_status_message = record { ack = origin; request_abort = false; final = false };
  pending_send_requests = 0;
  max_send_wr = 2;
}

-- The skip in front of a component, and the part of `try_send_timeslice` that concerns the
-- connection: where a request and the space are there, the component is written, with its
-- descriptor behind it, and the write pointers move on.
abbrev pub total_length : InputConnection → ℕ → ℕ
total_length c len = add64 len (skip_required c len)

-- The component that is sent, and the link with it.
unfoldable pub component_sent : InputConnection → ℕ → ℕ → ℕ → ComponentDescriptor
component_sent c ts_num num_microslices len = record {
  ts_num = ts_num;
  offset = add64 c.cn_wp.data_index (skip_required c len);
  size = len;
  num_microslices = num_microslices;
}

unfoldable pub send_component : Link → ℕ → ℕ → ℕ → Link
send_component l ts_num num_microslices len =
    let c = l.input in
    record l {
      input = record (inc_write_pointers c (total_length c len) 1) {
        pending_write_requests = add32 c.pending_write_requests 1;
      };
      compute = record (l.compute) {
        descs = set_at l.compute.descs c.cn_wp.desc (component_sent c ts_num num_microslices len);
      };
    }

unfoldable pub try_send : Link → ℕ → ℕ → ℕ → Option Link
try_send l ts_num num_microslices len =
    let c = l.input in
    if write_request_available c && check_for_buffer_space c (total_length c len) 1
    then some (send_component l ts_num num_microslices len)
    else none

-- A message posted, if there is one, is in flight.
unfoldable pub post : {M : Type 0} → List M → Option M → List M
post ms none = ms
post ms (some m) = ms ++ m ∷ []

unfoldable pub sync : Link → Link
sync l =
    let r = try_sync_buffer_positions l.input in
    record l { input = r.0; to_compute = post l.to_compute r.1 }

unfoldable pub finish : Link → Bool → Link
finish l abort =
    let r = finalize l.input abort in record l { input = r.0; to_compute = post l.to_compute r.1 }

-- The arrival of a message of the other end.
unfoldable pub arrive_at_input : Link → ComputeMessage → List ComputeMessage → Link
arrive_at_input l m rest =
    let r = receive_ack l.input m in
    record l { input = r.0; to_input = rest; to_compute = post l.to_compute r.1 }

unfoldable pub arrive_at_compute : Link → InputMessage → List InputMessage → Option Link
arrive_at_compute l m rest =
    Option.map
      (λ r. record l { compute = r.0; to_compute = rest; to_input = l.to_input ++ r.1 ∷ [] })
      (receive_wp l.compute m)

-- What happens next. The sender sends no component once it is finalized, and stays within the 64-bit
-- positions; the builder acknowledges components that were announced, which is what its counters
-- provide.
pub data Step : Link → Link → Type 0 where
  send :
      {l l' : Link}
      → (ts_num num_microslices len : ℕ) → l.input.finalized ≡ false
      → len < 2 ^ 63
      → l.input.cn_wp.data_index + len + data_size l.input < u64_mod
      → l.input.cn_wp.desc + 1 < u64_mod
      → try_send l ts_num num_microslices len ≡ some l'
      → Step l l'
  written : {l : Link} → Step l (record l { input = on_complete_write l.input })
  synced : {l : Link} → Step l (sync l)
  finalized : {l : Link} → (abort : Bool) → l.input.finalized ≡ false → Step l (finish l abort)
  at_input :
      {l : Link} {m : ComputeMessage} {rest : List ComputeMessage}
      → l.to_input ≡ m ∷ rest
      → Step l (arrive_at_input l m rest)
  at_compute :
      {l l' : Link} {m : InputMessage} {rest : List InputMessage}
      → l.to_compute ≡ m ∷ rest
      → arrive_at_compute l m rest ≡ some l'
      → Step l l'
  acked :
      {l : Link}
      → (p : ℕ) → l.compute.cn_ack.desc < p
      → p ≤ l.compute.cn_wp.desc
      → Step l (record l { compute = inc_ack_pointers l.compute p })
  sent : {l : Link} → Step l (record l { compute = on_complete_send l.compute })
  sent_final :
      {l : Link}
      → l.compute.send_status_message.final ≡ true
      → Step l (record l { compute = on_complete_send_finalize (on_complete_send l.compute) })

-- The states of a connection whose buffers have fitting sizes.
pub data Run : Link → Type 0 where
  start :
      (de ne max_pending : ℕ) (descs : RingBuffer ComponentDescriptor)
      → IsRing descs
      → descs.size ≡ 2 ^ ne
      → 2 ^ ne < u64_mod
      → 2 ^ de < u64_mod
      → Run (record {
        input = input_start de ne max_pending;
        compute = compute_start descs;
        to_compute = [];
        to_input = [];
      })
  step : {l l' : Link} → Run l → Step l l' → Run l'
