-- ===== src/Rdma/Turn.antt =====
-- Whose turn it is to send a status message, and what final messages stand for:
-- lib/fles_rdma/InputChannelConnection.cpp (try_sync_buffer_positions, finalize).
use flesnet.Base.{
  ℕ, ◌≡◌, refl, sym, ap, inl, inr, Bool, true, false, ◌||◌, [], ◌∷◌, ◌++◌, arith, Bool-cases,
}
use flesnet.Rdma.{
  InputConnection, ComputeConnection, same_position, try_sync_buffer_positions, finalize,
}
use flesnet.Rdma.Positions.{same_position-desc}
use flesnet.Rdma.Link.{Link, post, sync, finish}
use flesnet.Rdma.Order.{IsOrdered, tell_wp}

-- At most one status message is in flight, and the input node may send one only where none is.
pub data Token (l : Link) : Type 0 where
  ours : l.input.our_turn ≡ true → l.to_compute ≡ [] → l.to_input ≡ [] → Token l
  told :
      l.input.our_turn ≡ false
      → l.to_compute ≡ l.input.send_status_message ∷ []
      → l.to_input ≡ []
      → Token l
  answered :
      l.input.our_turn ≡ false
      → l.to_compute ≡ []
      → l.to_input ≡ l.compute.send_status_message ∷ []
      → Token l
  closed :
      l.input.our_turn ≡ false → l.to_compute ≡ [] → l.to_input ≡ [] → l.input.done ≡ true → Token l

-- What the final messages stand for.
pub record IsFinal (i : InputConnection) (c : ComputeConnection) : Type 0 where
  pub quiet : i.send_status_message.final ≡ true → i.finalized ≡ true
  pub settled : i.send_status_message.final ≡ true → i.abort ≡ false → i.cn_ack.desc ≡ i.cn_wp.desc
  pub replied : c.send_status_message.final ≡ true → i.send_status_message.final ≡ true
  pub closing : i.done ≡ true → c.send_status_message.final ≡ true

pub record IsLink (l : Link) (ends : ℕ → ℕ) : Type 0 where
  pub ordered : IsOrdered l.input l.compute ends
  pub token : Token l
  pub finals : IsFinal l.input l.compute

-- A status message of the input node tells what is written.
pub sync-IsLink :
    (l : Link) (ends : ℕ → ℕ)
    → IsOrdered l.input l.compute ends
    → IsFinal l.input l.compute
    → Token l
    → IsLink (sync l) ends
unfolding sync try_sync_buffer_positions post
sync-IsLink l ends o f (ours t a b) =
    let m = record (l.input.send_status_message) { wp = l.input.cn_wp } in
    let o' = tell_wp l.input l.compute ends m refl o in
    rw (t) (record {
      ordered = record { sized = o'.sized; written = o'.written; chain = o'.chain };
      token = told refl (ap (λ ms. ms ++ m ∷ []) a) b;
      finals = record {
        quiet = f.quiet;
        settled = f.settled;
        replied = f.replied;
        closing = f.closing;
      };
    })
sync-IsLink l ends o f (told t a b) =
    simp (t) (record { ordered = o; token = told t a b; finals = f })
sync-IsLink l ends o f (answered t a b) =
    simp (t) (record { ordered = o; token = answered t a b; finals = f })
sync-IsLink l ends o f (closed t a b d) =
    simp (t) (record { ordered = o; token = closed t a b d; finals = f })

-- A connection that is not finalized has sent no final message, and finalizing it says nothing.
finished-IsFinal :
    (i : InputConnection) (c : ComputeConnection) (abort : Bool)
    → i.finalized ≡ false
    → IsFinal i c
    → IsFinal (record i { finalized = true; abort = abort }) c
finished-IsFinal i c abort going f = record {
  quiet = λ e. refl;
  settled = λ e g. ground (arith, f.quiet e, going);
  replied = f.replied;
  closing = f.closing;
}

-- The end of the stream: where it is the input node's turn, it tells what is written, or that all
-- is acknowledged.
pub finish-IsLink :
    (l : Link) (ends : ℕ → ℕ) (abort : Bool)
    → l.input.finalized ≡ false
    → IsOrdered l.input l.compute ends
    → IsFinal l.input l.compute
    → Token l
    → IsLink (finish l abort) ends
unfolding finish finalize post
finish-IsLink l ends abort going o f (ours t a b) =
    let i = l.input in
    elim (Bool-cases (same_position i.cn_wp i.cn_ack || abort)) [
      | inl last ↦
          let m = record (i.send_status_message) { final = true; abort = abort } in
          rw (t, last)
            (record {
              ordered = record { sized = o.sized; written = o.written; chain = o.chain };
              token = told refl (ap (λ ms. ms ++ m ∷ []) a) b;
              finals = record {
                quiet = λ e. refl;
                settled =
                    λ e g. sym (same_position-desc i.cn_wp i.cn_ack (ground (arith, last, g)));
                replied = λ e. refl;
                closing = f.closing;
              };
            })
      | inr more ↦
          let m = record (i.send_status_message) { wp = i.cn_wp } in
          let o' = tell_wp i l.compute ends m refl o in
          let f' = finished-IsFinal i l.compute abort going f in
          rw (t, more)
            (record {
              ordered = record { sized = o'.sized; written = o'.written; chain = o'.chain };
              token = told refl (ap (λ ms. ms ++ m ∷ []) a) b;
              finals = record {
                quiet = f'.quiet;
                settled = f'.settled;
                replied = f'.replied;
                closing = f'.closing;
              };
            })
    ]
finish-IsLink l ends abort going o f (told t a b) =
    let f' = finished-IsFinal l.input l.compute abort going f in
    rw (t) (record {
      ordered = record { sized = o.sized; written = o.written; chain = o.chain };
      token = told refl a b;
      finals = record {
        quiet = f'.quiet;
        settled = f'.settled;
        replied = f'.replied;
        closing = f'.closing;
      };
    })
finish-IsLink l ends abort going o f (answered t a b) =
    let f' = finished-IsFinal l.input l.compute abort going f in
    rw (t) (record {
      ordered = record { sized = o.sized; written = o.written; chain = o.chain };
      token = answered refl a b;
      finals = record {
        quiet = f'.quiet;
        settled = f'.settled;
        replied = f'.replied;
        closing = f'.closing;
      };
    })
finish-IsLink l ends abort going o f (closed t a b d) =
    let f' = finished-IsFinal l.input l.compute abort going f in
    rw (t) (record {
      ordered = record { sized = o.sized; written = o.written; chain = o.chain };
      token = closed refl a b d;
      finals = record {
        quiet = f'.quiet;
        settled = f'.settled;
        replied = f'.replied;
        closing = f'.closing;
      };
    })
