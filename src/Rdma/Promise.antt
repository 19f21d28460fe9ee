-- ===== src/Rdma/Promise.antt =====
-- What the two ends of a connection promise each other over any history:
-- lib/fles_rdma/InputChannelConnection.cpp and lib/fles_rdma/ComputeNodeConnection.cpp.
use flesnet.Base.{
  ℕ, ◌+◌, ◌-◌, ◌≤◌, ◌<◌, ◌≡◌, refl, sym, ap, ◌∙◌, ◌⊎◌, inl, inr, true, false, arith, if◌then◌else◌,
  length,
}
use flesnet.Ring.{at}
use flesnet.Rdma.{Position, data_size, desc_size}
use flesnet.Rdma.Link.{Link, Run}
use flesnet.Rdma.Order.{end_of, ends-le, positions-le}
use flesnet.Rdma.Turn.{Token, ours, told, answered, closed}
use flesnet.Rdma.Sent.{Stored, sent_over, sent-Stored}
use flesnet.Rdma.History.{Run-IsLink}

-- One position is not behind another, in either buffer.
pub Reaches : Position → Position → Type 0
Reaches p q = (p.desc ≤ q.desc) × (p.data_index ≤ q.data_index)

-- The acknowledged position that the input node knows, the acknowledged and the announced position
-- of the compute node, and the written position of the input node are in order, and what is
-- written and not known to be acknowledged fits both buffers.
pub record IsWithin (l : Link) : Type 0 where
  pub known : Reaches l.input.cn_ack l.compute.cn_ack
  pub announced : Reaches l.compute.cn_ack l.compute.cn_wp
  pub written : Reaches l.compute.cn_wp l.input.cn_wp
  pub desc_room : l.input.cn_wp.desc ≤ l.input.cn_ack.desc + desc_size l.input
  pub data_room : l.input.cn_wp.data_index ≤ l.input.cn_ack.data_index + data_size l.input

-- After any history of a connection, the positions of its two ends are in order in both buffers,
-- and what the input node has written, and does not know to be acknowledged, fits the buffers.
pub Run-IsWithin : (l : Link) → Run l → IsWithin l
unfolding Reaches
Run-IsWithin l r =
    let (ends, v) = Run-IsLink l r in
    let w = v.ordered.chain in
    let le = λ (p : Position).
      λ (q : Position). positions-le ends l.input.cn_wp.desc p q v.ordered.written.grows in
    record {
      known = (
        omega (arith, w.le1, w.le2),
        le l.input.cn_ack l.compute.cn_ack w.at0 w.at2 (omega (arith, w.le1, w.le2))
            (omega (arith, w.le3, w.le4, w.le5)),
      );
      announced = (
        w.le3,
        le l.compute.cn_ack l.compute.cn_wp w.at2 w.at3 w.le3 (omega (arith, w.le4, w.le5)),
      );
      written = (
        omega (arith, w.le4, w.le5),
        le l.compute.cn_wp l.input.cn_wp w.at3 w.at5 (omega (arith, w.le4, w.le5)) (omega arith),
      );
      desc_room = v.ordered.sized.desc_room;
      data_room = v.ordered.sized.data_room;
    }

-- After any history, a component that is announced and not acknowledged has its descriptor in the
-- ring of the compute node, with the timeslice, the number of microslices and the size that were
-- sent, and ends between the acknowledged and the announced data position.
pub descriptor_kept :
    (l : Link) (n : ℕ) (r : Run l)
    → l.compute.cn_ack.desc ≤ n
    → n < l.compute.cn_wp.desc
    → Stored l.compute.descs (sent_over r) n
      × (l.compute.cn_ack.data_index ≤ end_of (at l.compute.descs n))
      × (end_of (at l.compute.descs n) ≤ l.compute.cn_wp.data_index)
descriptor_kept l n r a b =
    let (ends, v) = Run-IsLink l r in
    let w = v.ordered.chain in
    let le = ends-le ends l.input.cn_wp.desc v.ordered.written.grows in
    let here =
      v.ordered.written.stored n (omega (arith, w.le1, w.le2, a))
        (omega (arith, w.le4, w.le5, b)) in
    let below =
      le l.compute.cn_ack.desc (n + 1 - l.compute.cn_ack.desc)
        (omega (arith, a, b, w.le4, w.le5)) in
    let above = le (n + 1) (l.compute.cn_wp.desc - (n + 1)) (omega (arith, b, w.le4, w.le5)) in
    let to : l.compute.cn_ack.desc + (n + 1 - l.compute.cn_ack.desc) ≡ n + 1 = omega (arith, a) in
    let from : n + 1 + (l.compute.cn_wp.desc - (n + 1)) ≡ l.compute.cn_wp.desc = omega (arith, b) in
    (
      sent-Stored l n r (omega (arith, w.le1, w.le2, a)) (omega (arith, w.le4, w.le5, b)),
      omega (arith, here, below, ap ends to, w.at2),
      omega (arith, here, above, ap ends from, w.at3),
    )

-- The status messages in flight, and the turn of the input node to send one.
pub turns : Link → ℕ
turns l = length l.to_compute + length l.to_input + (if l.input.our_turn then 1 else 0)

-- After any history, either one status message is in flight or it is the turn of the input node to
-- send one, and not both; or neither holds, and the connection is done.
pub one_turn : (l : Link) → Run l → (turns l ≡ 1) ⊎ ((turns l ≡ 0) × (l.input.done ≡ true))
unfolding turns
one_turn l r = go (Run-IsLink l r).1.token
  where
    go : Token l → (turns l ≡ 1) ⊎ ((turns l ≡ 0) × (l.input.done ≡ true))
    go (ours t a b) = inl (rw (turns, t, a, b) refl)
    go (told t a b) = inl (rw (turns, t, a, b) refl)
    go (answered t a b) = inl (rw (turns, t, a, b) refl)
    go (closed t a b d) = inr (rw (turns, t, a, b) refl, d)

-- After any history in which the input node is done without an abort, the compute node has
-- acknowledged everything that was written: all descriptors, and all bytes of the data buffer.
pub done_acknowledged :
    (l : Link)
    → Run l
    → l.input.done ≡ true
    → l.input.abort ≡ false
    → (l.compute.cn_ack.desc ≡ l.input.cn_wp.desc)
      × (l.compute.cn_ack.data_index ≡ l.input.cn_wp.data_index)
done_acknowledged l r d a =
    let (ends, v) = Run-IsLink l r in
    let w = v.ordered.chain in
    let f = v.finals in
    let all = f.settled (f.replied (f.closing d)) a in
    let same : l.compute.cn_ack.desc ≡ l.input.cn_wp.desc =
      omega (arith, all, w.le1, w.le2, w.le3, w.le4, w.le5) in
    (same, w.at2 ∙ ap ends same ∙ sym w.at5)
