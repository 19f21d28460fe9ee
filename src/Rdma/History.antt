-- ===== src/Rdma/History.antt =====
-- What holds over any history of a connection: the order of the positions, whose turn it is to send
-- a status message, and when a connection is done. InputChannelConnection.cpp and
-- ComputeNodeConnection.cpp, as InputChannelSender.cpp and TimesliceBuilder.cpp call them.
use flesnet.Base.{ℕ, ◌≡◌, refl, sym, ap, ◌∙◌, subst, false, [], ◌∷◌, arith}
use flesnet.Rdma.{
  inc_write_pointers, on_complete_write, inc_ack_pointers, on_complete_send,
  on_complete_send_finalize,
}
use flesnet.Rdma.Link.{Link, send_component, input_start, compute_start, Step, Run}
use flesnet.Rdma.Order.{IsOrdered, inc_ack_pointers-IsOrdered}
use flesnet.Rdma.Send.{try_send_inv, ends_with, send_component-IsOrdered}
use flesnet.Rdma.Turn.{
  Token, ours, told, answered, closed, IsFinal, IsLink, sync-IsLink, finish-IsLink,
}
use flesnet.Rdma.Answer.{arrive_at_input-IsLink, arrive_at_compute-IsLink}

Token-same :
    (l l' : Link)
    → l'.input.our_turn ≡ l.input.our_turn
    → l'.input.done ≡ l.input.done
    → l'.input.send_status_message ≡ l.input.send_status_message
    → l'.compute.send_status_message ≡ l.compute.send_status_message
    → l'.to_compute ≡ l.to_compute
    → l'.to_input ≡ l.to_input
    → Token l
    → Token l'
Token-same l l' e1 e2 e3 e4 e5 e6 (ours t a b) = ours (e1 ∙ t) (e5 ∙ a) (e6 ∙ b)
Token-same l l' e1 e2 e3 e4 e5 e6 (told t a b) =
    told (e1 ∙ t) (e5 ∙ a ∙ ap (λ m. m ∷ []) (sym e3)) (e6 ∙ b)
Token-same l l' e1 e2 e3 e4 e5 e6 (answered t a b) =
    answered (e1 ∙ t) (e5 ∙ a) (e6 ∙ b ∙ ap (λ m. m ∷ []) (sym e4))
Token-same l l' e1 e2 e3 e4 e5 e6 (closed t a b d) = closed (e1 ∙ t) (e5 ∙ a) (e6 ∙ b) (e2 ∙ d)

send-IsLink :
    (l : Link) (ends : ℕ → ℕ) (ts_num num_microslices len : ℕ)
    → l.input.finalized ≡ false
    → IsOrdered
        (send_component l ts_num num_microslices len).input
        (send_component l ts_num num_microslices len).compute
        ends
    → IsFinal l.input l.compute
    → Token l
    → IsLink (send_component l ts_num num_microslices len) ends
unfolding send_component inc_write_pointers
send-IsLink l ends ts_num num_microslices len going o f t =
    let l' = send_component l ts_num num_microslices len in
    record {
      ordered = o;
      token = Token-same l l' refl refl refl refl refl refl t;
      finals = record {
        quiet = f.quiet;
        settled = λ e g. ground (arith, f.quiet e, going);
        replied = f.replied;
        closing = f.closing;
      };
    }

-- Any step keeps what holds of a link.
Step-IsLink :
    (l l' : Link) (ends : ℕ → ℕ) → IsLink l ends → Step l l' → (ends' : ℕ → ℕ) × IsLink l' ends'
unfolding on_complete_write inc_ack_pointers on_complete_send on_complete_send_finalize
Step-IsLink l l' ends v (Step.send n k len going small data_bound desc_bound h) =
    let (space, same) = try_send_inv l l' n k len h in
    let ends' = ends_with ends l.input len in
    (
      ends',
      subst (λ j. IsLink j ends') same
          (send-IsLink l ends' n k len going
            (send_component-IsOrdered l ends n k len v.ordered small data_bound desc_bound space)
            v.finals v.token),
    )
Step-IsLink l l' ends v Step.written =
    let o = v.ordered in
    let f = v.finals in
    (
      ends,
      record {
        ordered = record { sized = o.sized; written = o.written; chain = o.chain };
        token = Token-same l _ refl refl refl refl refl refl v.token;
        finals = record {
          quiet = f.quiet;
          settled = f.settled;
          replied = f.replied;
          closing = f.closing;
        };
      },
    )
Step-IsLink l l' ends v Step.synced = (ends, sync-IsLink l ends v.ordered v.finals v.token)
Step-IsLink l l' ends v (Step.finalized abort going) =
    (ends, finish-IsLink l ends abort going v.ordered v.finals v.token)
Step-IsLink l l' ends v (Step.at_input {m = m} {rest = rest} h) =
    (ends, arrive_at_input-IsLink l ends m rest h v.ordered v.finals v.token)
Step-IsLink l l' ends v (Step.at_compute {m = m} {rest = rest} h q) =
    (ends, arrive_at_compute-IsLink l l' ends m rest h q v.ordered v.finals v.token)
Step-IsLink l l' ends v (Step.acked p a b) =
    let f = v.finals in
    (
      ends,
      record {
        ordered = inc_ack_pointers-IsOrdered l.input l.compute ends p a b v.ordered;
        token = Token-same l _ refl refl refl refl refl refl v.token;
        finals = record {
          quiet = f.quiet;
          settled = f.settled;
          replied = f.replied;
          closing = f.closing;
        };
      },
    )
Step-IsLink l l' ends v Step.sent =
    let o = v.ordered in
    let f = v.finals in
    (
      ends,
      record {
        ordered = record { sized = o.sized; written = o.written; chain = o.chain };
        token = Token-same l _ refl refl refl refl refl refl v.token;
        finals = record {
          quiet = f.quiet;
          settled = f.settled;
          replied = f.replied;
          closing = f.closing;
        };
      },
    )
Step-IsLink l l' ends v (Step.sent_final e) =
    let o = v.ordered in
    let f = v.finals in
    (
      ends,
      record {
        ordered = record { sized = o.sized; written = o.written; chain = o.chain };
        token = Token-same l _ refl refl refl refl refl refl v.token;
        finals = record {
          quiet = f.quiet;
          settled = f.settled;
          replied = f.replied;
          closing = f.closing;
        };
      },
    )

pub Run-IsLink : (l : Link) → Run l → (ends : ℕ → ℕ) × IsLink l ends
unfolding input_start compute_start
Run-IsLink l (Run.start de ne k descs ring size desc_exp data_exp) = (
  λ n. 0,
  record {
    ordered = record {
      sized = record {
        ring = ring;
        ring_size = size;
        data_exp = data_exp;
        desc_exp = desc_exp;
        desc_room = omega arith;
        data_room = omega arith;
        desc_bound = omega arith;
        data_bound = omega arith;
      };
      written = record { grows = λ n h. omega arith; stored = λ n a b. omega (arith, b) };
      chain = record {
        le1 = omega arith;
        le2 = omega arith;
        le3 = omega arith;
        le4 = omega arith;
        le5 = omega arith;
        at0 = refl;
        at1 = refl;
        at2 = refl;
        at3 = refl;
        at4 = refl;
        at5 = refl;
      };
    };
    token = ours refl refl refl;
    finals = record { quiet = λ e. cc; settled = λ e g. cc; replied = λ e. cc; closing = λ e. cc };
  },
)
Run-IsLink l' (Run.step {l = l} r s) = let (ends, v) = Run-IsLink l r in Step-IsLink l l' ends v s
