-- ===== src/Rdma.antt =====
-- One connection between an input node and a compute node:
-- lib/fles_rdma/InputChannelConnection.cpp and lib/fles_rdma/ComputeNodeConnection.cpp, with the
-- status messages they exchange. The remote memory writes and the queue pairs of InfiniBand are
-- not modelled: an operation returns the message that it posts. Set-up and the request of an abort
-- by the compute node are left out.
pub mod Link
pub mod Positions
pub mod Order
pub mod Send
pub mod Turn
pub mod Answer
pub mod History
pub mod Sent
pub mod Promise
pub mod Write
pub mod Split
pub mod Request
pub mod Pieces
pub mod Component
mod Tests
mod WriteTests
use flesnet.Base.{
  ℕ, ◌-◌, ◌^◌, bit_and, Bool, true, false, ◌&&◌, ◌||◌, Option, none, some, ltb, leb, ◌==◌,
  if◌then◌else◌, add64, sub64, add32, sub32,
}
use flesnet.Ring.{RingBuffer, at}
use flesnet.TimesliceStore.{ComponentDescriptor}

-- `ComputeNodeBufferPosition`
pub record Position : Type 0 where
  pub data_index : ℕ
  pub desc : ℕ

-- Its `operator==`.
pub same_position : Position → Position → Bool
same_position a b = a.desc == b.desc && a.data_index == b.data_index

-- `InputChannelStatusMessage` and `ComputeNodeStatusMessage`
pub record InputMessage : Type 0 where
  pub wp : Position
  pub abort : Bool
  pub final : Bool

pub record ComputeMessage : Type 0 where
  pub ack : Position
  pub request_abort : Bool
  pub final : Bool

-- `InputChannelConnection`: `remote_info` tells the sizes of the target buffers.
pub record InputConnection : Type 0 where
  pub data_buffer_size_exp : ℕ
  pub desc_buffer_size_exp : ℕ
  pub cn_wp : Position
  pub cn_ack : Position
  pub our_turn : Bool
  pub finalized : Bool
  pub abort : Bool
  pub done : Bool
  pub send_status_message : InputMessage
  pub pending_write_requests : ℕ
  pub max_pending_write_requests : ℕ

-- `UINT64_C(1) << e`, for exponents below 64.
abbrev pub data_size : InputConnection → ℕ
data_size c = 2 ^ c.data_buffer_size_exp

abbrev pub desc_size : InputConnection → ℕ
desc_size c = 2 ^ c.desc_buffer_size_exp

pub check_for_buffer_space : InputConnection → ℕ → ℕ → Bool
check_for_buffer_space c data_len desc_len =
    let data_avail = add64 (sub64 c.cn_ack.data_index c.cn_wp.data_index) (data_size c) in
    let desc_avail = add64 (sub64 c.cn_ack.desc c.cn_wp.desc) (desc_size c) in
    leb data_len data_avail && leb desc_len desc_avail

pub write_request_available : InputConnection → Bool
write_request_available c = ltb c.pending_write_requests c.max_pending_write_requests

pub inc_write_pointers : InputConnection → ℕ → ℕ → InputConnection
inc_write_pointers c data_len desc_len = record c {
  cn_wp = record {
    data_index = add64 c.cn_wp.data_index data_len;
    desc = add64 c.cn_wp.desc desc_len;
  };
}

pub skip_required : InputConnection → ℕ → ℕ
skip_required c data_len =
    let databuf_wp = bit_and c.cn_wp.data_index (data_size c - 1) in
    if leb (add64 databuf_wp data_len) (data_size c) then 0 else data_size c - databuf_wp

-- `try_sync_buffer_positions`: whether it is our turn, and the message then posted.
pub try_sync_buffer_positions : InputConnection → InputConnection × Option InputMessage
try_sync_buffer_positions c =
    if c.our_turn
    then (let m = record (c.send_status_message) { wp = c.cn_wp } in
        (record c { our_turn = false; send_status_message = m }, some m))
    else (c, none)

-- The message of a connection with nothing left to wait for.
pub final_message : InputConnection → InputMessage
final_message c = record (c.send_status_message) { final = true; abort = c.abort }

pub finalize : InputConnection → Bool → InputConnection × Option InputMessage
unfolding final_message same_position
finalize c abort =
    let c' = record c { finalized = true; abort = abort } in
    if c.our_turn
    then (let m =
          if same_position c.cn_wp c.cn_ack || abort
          then final_message c'
          else record (c.send_status_message) { wp = c.cn_wp } in
        (record c' { our_turn = false; send_status_message = m }, some m))
    else (c', none)

pub on_complete_write : InputConnection → InputConnection
on_complete_write c = record c { pending_write_requests = sub32 c.pending_write_requests 1 }

-- `InputChannelConnection::on_complete_recv`, for the message received.
pub receive_ack : InputConnection → ComputeMessage → InputConnection × Option InputMessage
unfolding final_message same_position
receive_ack c m =
    let c' = record c { cn_ack = m.ack } in
    if m.final
    then (record c { done = true }, none)
    else (if same_position c.cn_wp c.send_status_message.wp && c.finalized
        then (let out =
              if same_position c.cn_wp m.ack || c.abort
              then final_message c'
              else c.send_status_message in
            (record c' { send_status_message = out }, some out))
        else (record c' { our_turn = true }, none))

-- `ComputeNodeConnection`
pub record ComputeConnection : Type 0 where
  pub descs : RingBuffer ComponentDescriptor
  pub cn_wp : Position
  pub cn_ack : Position
  pub done : Bool
  pub send_status_message : ComputeMessage
  pub pending_send_requests : ℕ
  pub max_send_wr : ℕ

-- `post_send_status_message` throws where too many are pending.
unfoldable pub post_send_status_message :
    ComputeConnection → ComputeMessage → Option (ComputeConnection × ComputeMessage)
post_send_status_message c m =
    if leb c.max_send_wr c.pending_send_requests
    then none
    else some (
      record c { pending_send_requests = add32 c.pending_send_requests 1; send_status_message = m },
      m,
    )

pub inc_ack_pointers : ComputeConnection → ℕ → ComputeConnection
inc_ack_pointers c ack_pos =
    let acked_ts = at c.descs (sub64 ack_pos 1) in
    record c {
      cn_ack = record { desc = ack_pos; data_index = add64 acked_ts.offset acked_ts.size };
    }

-- `ComputeNodeConnection::on_complete_recv`, for the message received.
unfoldable pub receive_wp :
    ComputeConnection → InputMessage → Option (ComputeConnection × ComputeMessage)
unfolding post_send_status_message
receive_wp c m =
    if m.final
    then post_send_status_message c (record (c.send_status_message) { final = true })
    else post_send_status_message (record c { cn_wp = m.wp })
        (record (c.send_status_message) { ack = c.cn_ack })

pub on_complete_send : ComputeConnection → ComputeConnection
on_complete_send c = record c { pending_send_requests = sub32 c.pending_send_requests 1 }

pub on_complete_send_finalize : ComputeConnection → ComputeConnection
on_complete_send_finalize c = record c { done = true }
