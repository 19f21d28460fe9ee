-- ===== src/Builder/Tests.antt =====
-- A builder with two inputs.
use flesnet.Base.{◌≤◌, ◌≡◌, refl, ap, false, some, [], ◌∷◌, arith, some_inj, get_elem?}
use flesnet.Ring.{alloc_with_size_exponent}
use flesnet.TimesliceStore.{ComponentDescriptor}
use flesnet.Rdma.{InputMessage, ComputeConnection, receive_wp, post_send_status_message}
use flesnet.Rdma.Link.{compute_start}
use flesnet.Builder.{Builder, change_at, closer, min_element, work_items, announce, receive_status}
use flesnet.Builder.Announce.{Written, IsBuilder, positions, count_up}
use flesnet.Builder.Status.{Told, receive_status-IsBuilder}

abbrev no_desc : ComponentDescriptor
no_desc = record { ts_num = 0; offset = 0; size = 0; num_microslices = 0 }

-- Input 0 has told of three components, input 1, the red lantern, of none.
abbrev behind : ComputeConnection
behind = compute_start (alloc_with_size_exponent no_desc 2)

abbrev ahead : ComputeConnection
ahead = record behind { cn_wp = record { data_index = 300; desc = 3 } }

abbrev waiting : Builder
waiting = record {
  conn = ahead ∷ behind ∷ [];
  connected = 2;
  red_lantern = 1;
  completely_written = 0;
  connections_done = 0;
  all_done = false;
  timeslice_size = 100;
  drop = false;
  acks = record { acked = 0; ack = alloc_with_size_exponent 0 2 };
  announced = [];
}

abbrev message : InputMessage
message = record { wp = record { data_index = 200; desc = 2 }; abort = false; final = false }

abbrev caught_up : ComputeConnection
caught_up = record behind { cn_wp = message.wp; pending_send_requests = 1 }

abbrev after : Builder
after = announce (record waiting { conn = ahead ∷ caught_up ∷ [] })

waiting-IsBuilder : IsBuilder waiting
unfolding Written positions count_up compute_start
waiting-IsBuilder = record {
  all_written = (omega arith, (omega arith, tt));
  some_conn = omega arith;
  in_order = refl;
}

after_positions : positions after.announced ≡ 0 ∷ 1 ∷ []
unfolding positions announce work_items min_element closer compute_start
after_positions = refl

after_lem : receive_status waiting 1 message ≡ some (after, behind.send_status_message)
unfolding receive_status change_at receive_wp post_send_status_message compute_start
after_lem = refl

not_behind :
    (c : ComputeConnection) → get_elem? waiting.conn 1 ≡ some c → c.cn_wp.desc ≤ message.wp.desc
unfolding compute_start
not_behind c h = omega (arith, ap (λ x. x.cn_wp.desc) (some_inj h))

receive_status-IsBuilder_example :
    IsBuilder after × (waiting.completely_written ≤ after.completely_written) × Told waiting after 1
receive_status-IsBuilder_example =
    receive_status-IsBuilder waiting after 1 message behind.send_status_message waiting-IsBuilder
      not_behind after_lem
