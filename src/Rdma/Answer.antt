-- ===== src/Rdma/Answer.antt =====
-- The arrival of a status message at either end: on_complete_recv of
-- lib/fles_rdma/InputChannelConnection.cpp and lib/fles_rdma/ComputeNodeConnection.cpp.
use flesnet.Base.{
  ℕ, ◌≡◌, refl, sym, ap, subst, ◌⊎◌, inl, inr, Bool, true, false, ◌&&◌, ◌||◌, some, List, [], ◌∷◌,
  ◌++◌, arith, leb, if◌then◌else◌, Bool-cases, add32, guard_else_inv, map_inv,
}
use flesnet.Rdma.{
  post_send_status_message, InputMessage, ComputeMessage, ComputeConnection, same_position,
  receive_ack, receive_wp,
}
use flesnet.Rdma.Positions.{same_position-desc}
use flesnet.Rdma.Link.{Link, post, arrive_at_input, arrive_at_compute}
use flesnet.Rdma.Order.{IsOrdered, take_ack, tell_ack, take_wp}
use flesnet.Rdma.Turn.{Token, ours, told, answered, closed, IsFinal, IsLink}

-- A status message of the compute node arrives. Where all is told and the stream has ended, the
-- input node answers at once; else it is its turn.
answer-IsLink :
    (l : Link) (ends : ℕ → ℕ)
    → IsOrdered l.input l.compute ends
    → IsFinal l.input l.compute
    → l.input.our_turn ≡ false
    → l.to_compute ≡ []
    → IsLink (arrive_at_input l l.compute.send_status_message []) ends
unfolding arrive_at_input receive_ack post
answer-IsLink l ends o f t a =
    let i = l.input in
    let m = l.compute.send_status_message in
    let o' = take_ack i l.compute ends o in
    let f' : IsFinal (record i { cn_ack = m.ack }) l.compute = record {
      quiet = f.quiet;
      settled = λ e g.
          omega
            (arith, f.settled e g, o.chain.le1, o.chain.le2, o.chain.le3, o.chain.le4, o.chain.le5);
      replied = f.replied;
      closing = f.closing;
    } in
    elim (Bool-cases m.final) [
      | inl last ↦ simp (last) (record {
        ordered = record { sized = o.sized; written = o.written; chain = o.chain };
        token = closed t a refl refl;
        finals = record {
          quiet = f.quiet;
          settled = f.settled;
          replied = f.replied;
          closing = λ e. last;
        };
      })
      | inr more ↦
          elim (Bool-cases (same_position i.cn_wp i.send_status_message.wp && i.finalized)) [
            | inl over ↦ elim (Bool-cases (same_position i.cn_wp m.ack || i.abort)) [
              | inl settled ↦
                  let out = record (i.send_status_message) { final = true; abort = i.abort } in
                  simp (more, over, settled)
                    (record {
                      ordered = record { sized = o'.sized; written = o'.written; chain = o'.chain };
                      token = told t (ap (λ ms. ms ++ out ∷ []) a) refl;
                      finals = record {
                        quiet = λ e. ground (arith, over);
                        settled = λ e g.
                            sym (same_position-desc i.cn_wp m.ack (ground (arith, settled, g)));
                        replied = λ e. refl;
                        closing = f.closing;
                      };
                    })
              | inr waiting ↦
                  simp (more, over, waiting)
                    (record {
                      ordered = record { sized = o'.sized; written = o'.written; chain = o'.chain };
                      token = told t (ap (λ ms. ms ++ i.send_status_message ∷ []) a) refl;
                      finals = record {
                        quiet = f'.quiet;
                        settled = f'.settled;
                        replied = f'.replied;
                        closing = f'.closing;
                      };
                    })
            ]
            | inr going ↦
                simp (more, going)
                  (record {
                    ordered = record { sized = o'.sized; written = o'.written; chain = o'.chain };
                    token = ours refl a refl;
                    finals = record {
                      quiet = f'.quiet;
                      settled = f'.settled;
                      replied = f'.replied;
                      closing = f'.closing;
                    };
                  })
          ]
    ]

pub arrive_at_input-IsLink :
    (l : Link) (ends : ℕ → ℕ) (m : ComputeMessage) (rest : List ComputeMessage)
    → l.to_input ≡ m ∷ rest
    → IsOrdered l.input l.compute ends
    → IsFinal l.input l.compute
    → Token l
    → IsLink (arrive_at_input l m rest) ends
arrive_at_input-IsLink l ends m rest h o f (ours t a b) = cc
arrive_at_input-IsLink l ends m rest h o f (told t a b) = cc
arrive_at_input-IsLink l ends m rest h o f (answered t a b) =
    let sent : m ≡ l.compute.send_status_message = cc in
    let nothing : rest ≡ [] = cc in rw (sent, nothing) (answer-IsLink l ends o f t a)
arrive_at_input-IsLink l ends m rest h o f (closed t a b d) = cc

-- A status message of the input node arrives: what its answer is.
pub receive_wp_inv :
    (c : ComputeConnection) (m : InputMessage) (r : ComputeConnection × ComputeMessage)
    → receive_wp c m ≡ some r
    → let told = record (c.send_status_message) { ack = c.cn_ack } in
      let closing = record (c.send_status_message) { final = true } in
      let pending = add32 c.pending_send_requests 1 in
      ((m.final ≡ true)
        × (r ≡ (
          record c { pending_send_requests = pending; send_status_message = closing },
          closing,
        )))
      ⊎ (r ≡ (
        record c { cn_wp = m.wp; pending_send_requests = pending; send_status_message = told },
        told,
      ))
unfolding receive_wp post_send_status_message
receive_wp_inv c m r h =
    let told = record (c.send_status_message) { ack = c.cn_ack } in
    let closing = record (c.send_status_message) { final = true } in
    let either : Bool → Type 0 = λ b.
      (if b
        then post_send_status_message c closing
        else post_send_status_message (record c { cn_wp = m.wp }) told)
      ≡ some r in
    let full = leb c.max_send_wr c.pending_send_requests in
    elim (Bool-cases m.final) [
      | inl last ↦ inl (last, sym (guard_else_inv full (subst either last h)).1)
      | inr more ↦ inr (sym (guard_else_inv full (subst either more h)).1)
    ]

reply-IsLink :
    (l : Link) (ends : ℕ → ℕ) (r : ComputeConnection × ComputeMessage)
    → receive_wp l.compute l.input.send_status_message ≡ some r
    → IsOrdered l.input l.compute ends
    → IsFinal l.input l.compute
    → l.input.our_turn ≡ false
    → l.to_input ≡ []
    → IsLink (record l { compute = r.0; to_compute = []; to_input = l.to_input ++ r.1 ∷ [] }) ends
reply-IsLink l ends r h o f t b = elim (receive_wp_inv l.compute l.input.send_status_message r h) [
  | inl (last, e) ↦ rw (e) (record {
    ordered = record { sized = o.sized; written = o.written; chain = o.chain };
    token =
        answered t refl
          (ap (λ ms. ms ++ record (l.compute.send_status_message) { final = true } ∷ []) b);
    finals = record {
      quiet = f.quiet;
      settled = f.settled;
      replied = λ _. last;
      closing = λ _. refl;
    };
  })
  | inr e ↦
      let o' = take_wp l.input l.compute ends o in
      let c' = record (l.compute) { cn_wp = l.input.send_status_message.wp } in
      let m = record (l.compute.send_status_message) { ack = l.compute.cn_ack } in
      let o'' = tell_ack l.input c' ends m refl o' in
      rw (e) (record {
        ordered = record { sized = o''.sized; written = o''.written; chain = o''.chain };
        token = answered t refl (ap (λ ms. ms ++ m ∷ []) b);
        finals = record {
          quiet = f.quiet;
          settled = f.settled;
          replied = f.replied;
          closing = f.closing;
        };
      })
]

pub arrive_at_compute-IsLink :
    (l l' : Link) (ends : ℕ → ℕ) (m : InputMessage) (rest : List InputMessage)
    → l.to_compute ≡ m ∷ rest
    → arrive_at_compute l m rest ≡ some l'
    → IsOrdered l.input l.compute ends
    → IsFinal l.input l.compute
    → Token l
    → IsLink l' ends
unfolding arrive_at_compute
arrive_at_compute-IsLink l l' ends m rest h q o f (ours t a b) = cc
arrive_at_compute-IsLink l l' ends m rest h q o f (told t a b) =
    let sent : m ≡ l.input.send_status_message = cc in
    let nothing : rest ≡ [] = cc in
    let q' : arrive_at_compute l l.input.send_status_message [] ≡ some l' =
      subst (λ k. arrive_at_compute l k [] ≡ some l') sent
        (subst (λ k. arrive_at_compute l m k ≡ some l') nothing q) in
    let (r, received, same) = map_inv (receive_wp l.compute l.input.send_status_message) q' in
    subst (λ k. IsLink k ends) same (reply-IsLink l ends r received o f t b)
arrive_at_compute-IsLink l l' ends m rest h q o f (answered t a b) = cc
arrive_at_compute-IsLink l l' ends m rest h q o f (closed t a b d) = cc
