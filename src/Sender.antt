-- ===== src/Sender.antt =====
-- lib/fles_rdma/InputChannelSender.cpp: the input node's side of all connections
-- (try_send_timeslice, sync_data_source and on_completion). The pieces of memory are given to the
-- requests by their local addresses.
pub mod Written
mod Tests
use mathlib.Core.Option
use flesnet.Base.{
  ℕ, zero, suc, ◌+◌, ◌/◌, ◌%◌, Bool, true, false, ◌&&◌, ◌||◌, Option, none, some, List, [], ◌∷◌,
  map, ltb, leb, ◌==◌, if◌then◌else◌, length, get_elem?, add64, sub64, mul64, add32,
}
use flesnet.Ring.{RingBuffer, at, set_at}
use flesnet.Ack.{scan}
use flesnet.MicrosliceStream.{Buffers}
use flesnet.Rdma.{
  InputMessage, ComputeMessage, InputConnection, write_request_available, check_for_buffer_space,
  skip_required, inc_write_pointers, on_complete_write, receive_ack,
}
use flesnet.Rdma.Write.{Request, send_data, component_pieces, desc_bytes}

-- Where the buffers lie: those of this node with their keys, and those of a compute node.
pub record Addresses : Type 0 where
  pub desc_ptr : ℕ
  pub data_ptr : ℕ
  pub desc_key : ℕ
  pub data_key : ℕ
  pub remote_desc : ℕ
  pub remote_data : ℕ

-- `InputChannelSender`
pub record Sender : Type 0 where
  pub conn : List InputConnection
  pub data_source : Buffers
  pub timeslice_size : ℕ
  pub overlap_size : ℕ
  pub start_index_desc : ℕ
  pub write_index_desc : ℕ
  pub sent_desc : ℕ
  pub sent_data : ℕ
  pub ack : RingBuffer ℕ
  pub acked_desc : ℕ
  pub acked_data : ℕ
  pub cached_acked_desc : ℕ
  pub cached_acked_data : ℕ
  pub min_acked_desc : ℕ
  pub min_acked_data : ℕ
  pub connections_done : ℕ
  pub all_done : Bool
  pub abort : Bool

-- The connections, with another in place of one.
pub update_at : ℕ → InputConnection → List InputConnection → List InputConnection
update_at i v [] = []
update_at zero v (c ∷ cs) = v ∷ cs
update_at (suc i) v (c ∷ cs) = c ∷ update_at i v cs

pub target_cn_index : Sender → ℕ → ℕ
target_cn_index s timeslice = timeslice % length s.conn

-- `data_source_.set_read_index`, and the cached position with it.
pub publish : Sender → Sender
publish s = record s {
  cached_acked_desc = s.acked_desc;
  cached_acked_data = s.acked_data;
  data_source = record (s.data_source) {
    read_index = record { desc = s.acked_desc; data_index = s.acked_data };
  };
}

pub sync_data_source : Sender → Sender
sync_data_source s =
    if ltb s.cached_acked_data s.acked_data || ltb s.cached_acked_desc s.acked_desc
    then publish s
    else s

-- Where the data of a microslice ends.
pub data_end : Sender → ℕ → ℕ
data_end s n = let d = at s.data_source.desc_buffer n in add64 d.offset d.size

-- The component of a timeslice is written to its compute node, where there is a request and space.
pub send_to : Addresses → Sender → InputConnection → ℕ → ℕ → ℕ → Option (Sender × Request)
send_to a s c timeslice desc_offset desc_length =
    let data_offset = (at s.data_source.desc_buffer desc_offset).offset in
    let finish = data_end s (sub64 (add64 desc_offset desc_length) 1) in
    let data_length = sub64 finish data_offset in
    let skip = skip_required c (add64 data_length (mul64 desc_length desc_bytes)) in
    let total = add64 (add64 data_length (mul64 desc_length desc_bytes)) skip in
    let pieces =
      component_pieces s.data_source a.desc_ptr a.data_ptr a.desc_key a.data_key desc_offset
        desc_length data_offset data_length in
    let r = send_data c a.remote_data a.remote_desc pieces timeslice desc_length data_length skip in
    if write_request_available c && check_for_buffer_space c total 1
    then some (
      record s {
        conn = update_at (timeslice % length s.conn) (inc_write_pointers (r.0) total 1) s.conn;
        sent_desc = add64 desc_offset desc_length;
        sent_data = finish;
      },
      r.1,
    )
    else none

pub sent_or : Sender → Option (Sender × Request) → Bool × Sender × Option Request
sent_or s none = (false, s, none)
sent_or s (some (s', r)) = (true, s', some r)

-- `try_send_timeslice`: where the microslices are not known to be there, the write index is read
-- anew.
pub try_send_timeslice : Addresses → Sender → ℕ → Bool × Sender × Option Request
try_send_timeslice a s timeslice =
    let desc_offset = add64 (mul64 timeslice s.timeslice_size) s.start_index_desc in
    let desc_length = add32 s.timeslice_size s.overlap_size in
    let needed = add64 desc_offset desc_length in
    let s' =
      if ltb s.write_index_desc needed
      then record s { write_index_desc = s.data_source.write_index.desc }
      else s in
    if leb needed s'.write_index_desc
    then sent_or s' (
        Option.bind (get_elem? s'.conn (target_cn_index s' timeslice))
          (λ c. send_to a s' c timeslice desc_offset desc_length))
    else (false, s', none)

-- All timeslices below `n` are written; the read index is published where it moved enough.
pub acked_to : Sender → ℕ → Sender
acked_to s n =
    let desc = add64 (mul64 n s.timeslice_size) s.start_index_desc in
    let s' = record s { acked_desc = desc; acked_data = data_end s (sub64 desc 1) } in
    if leb (add64 s.cached_acked_data s.min_acked_data) s'.acked_data
      || leb (add64 s.cached_acked_desc s.min_acked_desc) s'.acked_desc
    then publish s'
    else s'

-- `ID_WRITE_DESC`: the component of `ts` is written to compute node `cn`. `none` means that the
-- scan of the marks ran out of fuel, or that there is no such connection.
pub on_write : Sender → ℕ → ℕ → Option Sender
on_write s ts cn = Option.bind (get_elem? s.conn cn) (λ c.
    let s' = record s { conn = update_at cn (on_complete_write c) s.conn } in
    let acked_ts = sub64 s.acked_desc s.start_index_desc / s.timeslice_size in
    if ts == acked_ts
    then Option.map (λ n. acked_to s' n) (scan s.ack.size s.ack ts acked_ts)
    else some (record s' { ack = set_at s.ack ts ts }))

-- `ID_RECEIVE_STATUS`
pub on_receive : Sender → ℕ → ComputeMessage → Option (Sender × Option InputMessage)
on_receive s cn m =
    Option.map
      (λ c.
        let r = receive_ack c m in
        let done_now = s.connections_done + 1 in
        let s' = record s {
          conn = update_at cn (r.0) s.conn;
          abort = s.abort || m.request_abort;
        } in
        (
          if r.0.done
              then record s' { connections_done = done_now; all_done = done_now == length s.conn }
              else s',
          r.1,
        ))
      (get_elem? s.conn cn)
