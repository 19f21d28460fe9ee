-- ===== src/Builder.antt =====
-- lib/fles_rdma/TimesliceBuilder.cpp: the compute node's side of all connections (on_completion and
-- poll_ts_completion). The item distributor is seen through the timeslices announced to it and the
-- completions received.
pub mod Announce
pub mod Status
mod Tests
use mathlib.Core.Option
use flesnet.Base.{
  ℕ, zero, suc, ◌+◌, ◌-◌, Bool, ◌&&◌, Option, none, some, List, [], ◌∷◌, ◌++◌, map, ltb, ◌==◌,
  if◌then◌else◌, length, u64_mod,
}
use flesnet.Ring.{at}
use flesnet.Ack.{Acks, complete}
use flesnet.TimesliceStore.{TimesliceDescriptor}
use flesnet.Rdma.{
  InputMessage, ComputeMessage, ComputeConnection, receive_wp, inc_ack_pointers, on_complete_send,
  on_complete_send_finalize,
}

-- `TimesliceBuilder`, with the timeslices that it has announced.
pub record Builder : Type 0 where
  pub conn : List ComputeConnection
  pub connected : ℕ
  pub red_lantern : ℕ
  pub completely_written : ℕ
  pub connections_done : ℕ
  pub all_done : Bool
  pub timeslice_size : ℕ
  pub drop : Bool
  pub acks : Acks
  pub announced : List TimesliceDescriptor

-- What a completion does to connection `i`; an index that is out of range is an assertion.
pub change_at :
    {M : Type 0}
    → (ComputeConnection → Option (ComputeConnection × M))
    → ℕ
    → List ComputeConnection
    → Option (List ComputeConnection × M)
change_at f i [] = none
change_at f zero (c ∷ cs) = Option.map (λ r. (r.0 ∷ cs, r.1)) (f c)
change_at f (suc i) (c ∷ cs) = Option.map (λ r. (c ∷ r.0, r.1)) (change_at f i cs)

-- `std::min_element` by the written position: the index of the first least, and its position.
pub closer : ComputeConnection → ℕ × ℕ → ℕ × ℕ
closer c r = if ltb (r.1) c.cn_wp.desc then (r.0 + 1, r.1) else (0, c.cn_wp.desc)

pub min_element : List ComputeConnection → ℕ × ℕ
min_element [] = (0, 0)
min_element (c ∷ []) = (0, c.cn_wp.desc)
min_element (c ∷ d ∷ cs) = closer c (min_element (d ∷ cs))

-- `ts_num` of the descriptor of input 0.
pub ts_index : List ComputeConnection → ℕ → ℕ
ts_index [] tpos = u64_mod - 1
ts_index (c ∷ cs) tpos = (at c.descs tpos).ts_num

-- The loop over the positions newly written: `n` rounds from `tpos` on.
pub work_items : Builder → ℕ → ℕ → List TimesliceDescriptor
work_items b tpos zero = []
work_items b tpos (suc n) =
    record {
      index = ts_index b.conn tpos;
      ts_pos = tpos;
      num_core_microslices = b.timeslice_size;
      num_components = length b.conn;
    }
    ∷ work_items b (tpos + 1) n

pub announce : Builder → Builder
announce b =
    let r = min_element b.conn in
    record b {
      red_lantern = r.0;
      completely_written = r.1;
      announced =
          if b.drop
          then b.announced
          else b.announced ++ work_items b b.completely_written (r.1 - b.completely_written);
    }

-- `ID_RECEIVE_STATUS`; `none` is an exception.
pub receive_status : Builder → ℕ → InputMessage → Option (Builder × ComputeMessage)
receive_status b i m =
    Option.map
      (λ r.
        let b' = record b { conn = r.0 } in
        (if b.connected == length b.conn && i == b.red_lantern then announce b' else b', r.1))
      (change_at (λ c. receive_wp c m) i b.conn)

-- `ID_SEND_STATUS` and `ID_SEND_FINALIZE`
pub send_status : Builder → ℕ → Option Builder
send_status b i =
    Option.map (λ r. record b { conn = r.0 })
      (change_at (λ c. some (on_complete_send c, tt)) i b.conn)

pub send_finalize : Builder → ℕ → Option Builder
send_finalize b i =
    Option.map
      (λ r. record b {
        conn = r.0;
        connections_done = b.connections_done + 1;
        all_done = b.connections_done + 1 == length b.conn;
      })
      (change_at (λ c. some (on_complete_send_finalize (on_complete_send c), tt)) i b.conn)

-- `poll_ts_completion`, for a completion that was received: where it is the next, all connections
-- acknowledge up to the new position.
pub poll_ts_completion : Builder → ℕ → Option Builder
poll_ts_completion b ts_pos =
    Option.map
      (λ acks. record b {
        acks = acks;
        conn =
            if ts_pos == b.acks.acked
            then map (λ c. inc_ack_pointers c acks.acked) b.conn
            else b.conn;
      })
      (complete b.acks ts_pos)
