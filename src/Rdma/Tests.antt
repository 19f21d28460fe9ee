-- ===== src/Rdma/Tests.antt =====
-- A connection with buffers of 1024 bytes and of 4 descriptors, from its start to its end.
use flesnet.Base.{◌≤◌, ◌≡◌, refl, ◌⊎◌, true, false, [], ◌∷◌, arith}
use flesnet.Ring.{alloc_with_size_exponent, at, set_at}
use flesnet.Ring.Cells.{alloc-IsRing}
use flesnet.TimesliceStore.{ComponentDescriptor}
use flesnet.Rdma.{
  write_request_available, check_for_buffer_space, inc_write_pointers, skip_required, same_position,
  try_sync_buffer_positions, finalize, receive_ack, receive_wp, post_send_status_message,
  inc_ack_pointers, on_complete_send, final_message,
}
use flesnet.Rdma.Link.{
  Link, input_start, compute_start, component_sent, send_component, sync, finish, post, try_send,
  arrive_at_input, arrive_at_compute, Step, Run,
}
use flesnet.Rdma.Order.{end_of}
use flesnet.Rdma.Sent.{Stored, sent_over}
use flesnet.Rdma.Promise.{
  IsWithin, Run-IsWithin, descriptor_kept, turns, one_turn, done_acknowledged,
}

abbrev no_desc : ComponentDescriptor
no_desc = record { ts_num = 0; offset = 0; size = 0; num_microslices = 0 }

abbrev opened : Link
opened = record {
  input = input_start 10 2 100;
  compute = compute_start (alloc_with_size_exponent no_desc 2);
  to_compute = [];
  to_input = [];
}

opened-Run : Run opened
unfolding alloc_with_size_exponent
opened-Run =
    Run.start 10 2 100 (alloc_with_size_exponent no_desc 2) (alloc-IsRing no_desc 2) refl
      (omega arith) (omega arith)

-- One component of 300 bytes is sent.
abbrev filled : Link
filled = send_component opened 7 3 300

filled-Run : Run filled
unfolding input_start compute_start try_send send_component sync finish post arrive_at_input
    arrive_at_compute write_request_available check_for_buffer_space inc_write_pointers
    skip_required same_position try_sync_buffer_positions finalize receive_ack receive_wp
    post_send_status_message inc_ack_pointers on_complete_send component_sent at set_at
    alloc_with_size_exponent final_message
filled-Run =
    Run.step opened-Run (Step.send 7 3 300 refl (omega arith) (omega arith) (omega arith) refl)

-- It is told.
abbrev told_once : Link
told_once = sync filled

told_once-Run : Run told_once
unfolding input_start compute_start try_send send_component sync finish post arrive_at_input
    arrive_at_compute write_request_available check_for_buffer_space inc_write_pointers
    skip_required same_position try_sync_buffer_positions finalize receive_ack receive_wp
    post_send_status_message inc_ack_pointers on_complete_send component_sent at set_at
    alloc_with_size_exponent final_message
told_once-Run = Run.step filled-Run (Step.synced)

-- It arrives, and is announced to the compute node.
abbrev announced : Link
announced = record told_once {
  compute = record (told_once.compute) {
    cn_wp = told_once.input.cn_wp;
    send_status_message = record (told_once.compute.send_status_message) {
      ack = told_once.compute.cn_ack;
    };
    pending_send_requests = 1;
  };
  to_compute = [];
  to_input = record (told_once.compute.send_status_message) { ack = told_once.compute.cn_ack } ∷ [];
}

announced-Run : Run announced
unfolding input_start compute_start try_send send_component sync finish post arrive_at_input
    arrive_at_compute write_request_available check_for_buffer_space inc_write_pointers
    skip_required same_position try_sync_buffer_positions finalize receive_ack receive_wp
    post_send_status_message inc_ack_pointers on_complete_send component_sent at set_at
    alloc_with_size_exponent final_message
announced-Run =
    Run.step told_once-Run
      (Step.at_compute {m = told_once.input.send_status_message} {rest = []} refl refl)

-- It is acknowledged.
abbrev accepted : Link
accepted = record announced { compute = inc_ack_pointers announced.compute 1 }

accepted-Run : Run accepted
unfolding input_start compute_start try_send send_component sync finish post arrive_at_input
    arrive_at_compute write_request_available check_for_buffer_space inc_write_pointers
    skip_required same_position try_sync_buffer_positions finalize receive_ack receive_wp
    post_send_status_message inc_ack_pointers on_complete_send component_sent at set_at
    alloc_with_size_exponent final_message
accepted-Run = Run.step announced-Run (Step.acked 1 (omega arith) (omega arith))

-- The answer was sent.
abbrev free : Link
free = record accepted { compute = on_complete_send accepted.compute }

free-Run : Run free
unfolding input_start compute_start try_send send_component sync finish post arrive_at_input
    arrive_at_compute write_request_available check_for_buffer_space inc_write_pointers
    skip_required same_position try_sync_buffer_positions finalize receive_ack receive_wp
    post_send_status_message inc_ack_pointers on_complete_send component_sent at set_at
    alloc_with_size_exponent final_message
free-Run = Run.step accepted-Run (Step.sent)

-- The answer arrives.
abbrev heard : Link
heard = arrive_at_input free free.compute.send_status_message []

heard-Run : Run heard
unfolding input_start compute_start try_send send_component sync finish post arrive_at_input
    arrive_at_compute write_request_available check_for_buffer_space inc_write_pointers
    skip_required same_position try_sync_buffer_positions finalize receive_ack receive_wp
    post_send_status_message inc_ack_pointers on_complete_send component_sent at set_at
    alloc_with_size_exponent final_message
heard-Run = Run.step free-Run (Step.at_input refl)

-- A second message tells the same.
abbrev told_again : Link
told_again = sync heard

told_again-Run : Run told_again
unfolding input_start compute_start try_send send_component sync finish post arrive_at_input
    arrive_at_compute write_request_available check_for_buffer_space inc_write_pointers
    skip_required same_position try_sync_buffer_positions finalize receive_ack receive_wp
    post_send_status_message inc_ack_pointers on_complete_send component_sent at set_at
    alloc_with_size_exponent final_message
told_again-Run = Run.step heard-Run (Step.synced)

-- Its answer has the acknowledgement.
abbrev answered_again : Link
answered_again = record told_again {
  compute = record (told_again.compute) {
    cn_wp = told_again.input.cn_wp;
    send_status_message = record (told_again.compute.send_status_message) {
      ack = told_again.compute.cn_ack;
    };
    pending_send_requests = 1;
  };
  to_compute = [];
  to_input =
      record (told_again.compute.send_status_message) { ack = told_again.compute.cn_ack } ∷ [];
}

answered_again-Run : Run answered_again
unfolding input_start compute_start try_send send_component sync finish post arrive_at_input
    arrive_at_compute write_request_available check_for_buffer_space inc_write_pointers
    skip_required same_position try_sync_buffer_positions finalize receive_ack receive_wp
    post_send_status_message inc_ack_pointers on_complete_send component_sent at set_at
    alloc_with_size_exponent final_message
answered_again-Run =
    Run.step told_again-Run
      (Step.at_compute {m = told_again.input.send_status_message} {rest = []} refl refl)

-- It arrives.
abbrev heard_again : Link
heard_again = arrive_at_input answered_again answered_again.compute.send_status_message []

heard_again-Run : Run heard_again
unfolding input_start compute_start try_send send_component sync finish post arrive_at_input
    arrive_at_compute write_request_available check_for_buffer_space inc_write_pointers
    skip_required same_position try_sync_buffer_positions finalize receive_ack receive_wp
    post_send_status_message inc_ack_pointers on_complete_send component_sent at set_at
    alloc_with_size_exponent final_message
heard_again-Run = Run.step answered_again-Run (Step.at_input refl)

-- The stream ends.
abbrev ended : Link
ended = finish heard_again false

ended-Run : Run ended
unfolding input_start compute_start try_send send_component sync finish post arrive_at_input
    arrive_at_compute write_request_available check_for_buffer_space inc_write_pointers
    skip_required same_position try_sync_buffer_positions finalize receive_ack receive_wp
    post_send_status_message inc_ack_pointers on_complete_send component_sent at set_at
    alloc_with_size_exponent final_message
ended-Run = Run.step heard_again-Run (Step.finalized false refl)

-- The compute node confirms.
abbrev confirmed : Link
confirmed = record ended {
  compute = record (ended.compute) {
    send_status_message = record (ended.compute.send_status_message) { final = true };
    pending_send_requests = 2;
  };
  to_compute = [];
  to_input = record (ended.compute.send_status_message) { final = true } ∷ [];
}

confirmed-Run : Run confirmed
unfolding input_start compute_start try_send send_component sync finish post arrive_at_input
    arrive_at_compute write_request_available check_for_buffer_space inc_write_pointers
    skip_required same_position try_sync_buffer_positions finalize receive_ack receive_wp
    post_send_status_message inc_ack_pointers on_complete_send component_sent at set_at
    alloc_with_size_exponent final_message
confirmed-Run =
    Run.step ended-Run (Step.at_compute {m = ended.input.send_status_message} {rest = []} refl refl)

-- The confirmation arrives.
abbrev finished : Link
finished = arrive_at_input confirmed confirmed.compute.send_status_message []

finished-Run : Run finished
unfolding input_start compute_start try_send send_component sync finish post arrive_at_input
    arrive_at_compute write_request_available check_for_buffer_space inc_write_pointers
    skip_required same_position try_sync_buffer_positions finalize receive_ack receive_wp
    post_send_status_message inc_ack_pointers on_complete_send component_sent at set_at
    alloc_with_size_exponent final_message
finished-Run = Run.step confirmed-Run (Step.at_input refl)

Run-IsWithin_example : IsWithin announced
Run-IsWithin_example = Run-IsWithin announced announced-Run

descriptor_kept_example :
    Stored announced.compute.descs (sent_over announced-Run) 0
    × (announced.compute.cn_ack.data_index ≤ end_of (at announced.compute.descs 0))
    × (end_of (at announced.compute.descs 0) ≤ announced.compute.cn_wp.data_index)
unfolding input_start compute_start try_send send_component sync finish post arrive_at_input
    arrive_at_compute write_request_available check_for_buffer_space inc_write_pointers
    skip_required same_position try_sync_buffer_positions finalize receive_ack receive_wp
    post_send_status_message inc_ack_pointers on_complete_send component_sent at set_at
    alloc_with_size_exponent final_message
descriptor_kept_example = descriptor_kept announced 0 announced-Run (omega arith) (omega arith)

one_turn_example : (turns finished ≡ 1) ⊎ ((turns finished ≡ 0) × (finished.input.done ≡ true))
one_turn_example = one_turn finished finished-Run

done_acknowledged_example :
    (finished.compute.cn_ack.desc ≡ finished.input.cn_wp.desc)
    × (finished.compute.cn_ack.data_index ≡ finished.input.cn_wp.data_index)
unfolding input_start compute_start try_send send_component sync finish post arrive_at_input
    arrive_at_compute write_request_available check_for_buffer_space inc_write_pointers
    skip_required same_position try_sync_buffer_positions finalize receive_ack receive_wp
    post_send_status_message inc_ack_pointers on_complete_send component_sent at set_at
    alloc_with_size_exponent final_message
done_acknowledged_example = done_acknowledged finished finished-Run refl refl
