-- ===== src/Ack.antt =====
-- The bookkeeping of completions that arrive out of order: a counter `acked` of the positions that
-- are completed without a gap, and a ring of 64-bit marks for those beyond. The same code stands in
-- lib/fles_core/ManagedTimesliceBuffer.cpp (handle_timeslice_completions),
-- lib/fles_rdma/TimesliceBuilder.cpp (poll_ts_completion) and
-- lib/fles_rdma/InputChannelSender.cpp (on_completion, case ID_WRITE_DESC); that of
-- lib/fles_zeromq/ComponentSenderZeromq.cpp (ack_timeslice) counts two parts for a timeslice.
pub mod Window
pub mod Cases
pub mod History
mod Tests
use flesnet.Base.{ℕ, zero, suc, Option, none, some, map, ltb, ◌==◌, if◌then◌else◌, add64}
use mathlib.Core.Option
use flesnet.Ring.{RingBuffer, at, set_at}

pub record Acks : Type 0 where
  pub acked : ℕ
  pub ack : RingBuffer ℕ

-- `do { ++acked; } while (ack.at(acked) > c);` with fuel; `none` means that the fuel ran out.
unfoldable pub scan : ℕ → RingBuffer ℕ → ℕ → ℕ → Option ℕ
scan zero ack c acked = none
scan (suc fuel) ack c acked =
    let rest = scan fuel ack c (add64 acked 1) in
    if ltb c (at ack (add64 acked 1)) then rest else some (add64 acked 1)

-- The handling of the completion of position `c`. No more rounds than the ring has cells.
unfoldable pub complete : Acks → ℕ → Option Acks
complete s c =
    if c == s.acked
    then Option.map (λ a. record s { acked = a }) (scan s.ack.size s.ack c s.acked)
    else some (record s { ack = set_at s.ack c c })
