-- ===== src/Rdma/Send.antt =====
-- What a component that is sent does to the order of the positions:
-- lib/fles_rdma/InputChannelSender.cpp (try_send_timeslice).
use flesnet.Base.{
  ℕ, ◌+◌, ◌^◌, ◌≤◌, ◌<◌, ◌≡◌, refl, sym, ap, ◌∙◌, subst, inl, inr, true, ◌&&◌, some, arith, ◌==◌,
  ==_of_ne, Bool-cases, update, u64_mod, guard_inv,
}
use flesnet.Ring.{at, set_at}
use flesnet.Ring.Cells.{at-set_at_self, at-set_at_ne, set_at-IsRing}
use flesnet.Rdma.{
  Position, InputConnection, check_for_buffer_space, write_request_available, inc_write_pointers,
  skip_required, data_size, desc_size,
}
use flesnet.Rdma.Positions.{and_split, check_for_buffer_space_lem, skip_required-le}
use flesnet.Rdma.Link.{Link, total_length, component_sent, send_component, try_send}
use flesnet.Rdma.Order.{IsOrdered, IsSized, IsWritten, IsChain, AtEnd, end_of, positions-le}

pub try_send_inv :
    (l l' : Link) (ts_num num_microslices len : ℕ)
    → try_send l ts_num num_microslices len ≡ some l'
    → (check_for_buffer_space l.input (total_length l.input len) 1 ≡ true)
      × (send_component l ts_num num_microslices len ≡ l')
unfolding try_send
try_send_inv l l' ts_num num_microslices len h =
    let (test, same) =
      guard_inv
        (write_request_available l.input
          && check_for_buffer_space l.input (total_length l.input len) 1)
        h in
    (
      (and_split (write_request_available l.input)
          (check_for_buffer_space l.input (total_length l.input len) 1) test).1,
      same,
    )

-- The ends of the components, with the new one.
pub ends_with : (ℕ → ℕ) → InputConnection → ℕ → ℕ → ℕ
ends_with ends c len =
    update ends (c.cn_wp.desc + 1) (c.cn_wp.data_index + (len + skip_required c len))

module _ (ends : ℕ → ℕ) (c : InputConnection) (len : ℕ) where
  pub ends_with-new :
      ends_with ends c len (c.cn_wp.desc + 1) ≡ c.cn_wp.data_index + (len + skip_required c len)
  unfolding ends_with
  ends_with-new = ground arith

  pub ends_with-old : (n : ℕ) → n ≤ c.cn_wp.desc → ends_with ends c len n ≡ ends n
  unfolding ends_with
  ends_with-old n h = rw (==_of_ne (c.cn_wp.desc + 1) n (λ e. omega (arith, e, h)))

  pub AtEnd-old :
      (p : Position) → p.desc ≤ c.cn_wp.desc → AtEnd ends p → AtEnd (ends_with ends c len) p
  AtEnd-old p h a = a ∙ sym (ends_with-old p.desc h)

module _ (l : Link) (ends : ℕ → ℕ) (ts_num num_microslices len : ℕ)
    (v : IsOrdered l.input l.compute ends) (small : len < 2 ^ 63)
    (data_bound : l.input.cn_wp.data_index + len + data_size l.input < u64_mod)
    (desc_bound : l.input.cn_wp.desc + 1 < u64_mod)
    (space : check_for_buffer_space l.input (total_length l.input len) 1 ≡ true) where
  total_eq : total_length l.input len ≡ len + skip_required l.input len
  total_eq = omega (arith, small, data_bound, skip_required-le l.input len)

  abbrev pub after : Link
  after = send_component l ts_num num_microslices len

  fits :
      (l.input.cn_wp.data_index + total_length l.input len
        ≤ l.input.cn_ack.data_index + data_size l.input)
      × (l.input.cn_wp.desc + 1 ≤ l.input.cn_ack.desc + desc_size l.input)
  fits =
      let s = v.sized in
      let w = v.chain in
      let below =
        positions-le ends l.input.cn_wp.desc l.input.cn_ack l.input.cn_wp v.written.grows w.at0
          w.at5 (omega (arith, w.le1, w.le2, w.le3, w.le4, w.le5)) (omega arith) in
      check_for_buffer_space_lem l.input (total_length l.input len) 1 below s.data_room
        (omega (arith, w.le1, w.le2, w.le3, w.le4, w.le5)) s.desc_room s.data_bound s.desc_bound
        s.data_exp s.desc_exp space

  moved_to :
      after.input.cn_wp.data_index ≡ l.input.cn_wp.data_index + (len + skip_required l.input len)
  unfolding send_component inc_write_pointers
  moved_to = omega (arith, total_eq, skip_required-le l.input len, data_bound)

  moved_desc : after.input.cn_wp.desc ≡ l.input.cn_wp.desc + 1
  unfolding send_component inc_write_pointers
  moved_desc = omega (arith, desc_bound)

  same_descs :
      after.compute.descs
      ≡ set_at l.compute.descs l.input.cn_wp.desc
          (component_sent l.input ts_num num_microslices len)
  unfolding send_component
  same_descs = refl

  IsSized-after :
      IsSized after.compute.descs
        (data_size after.input)
        (desc_size after.input)
        after.input.cn_ack
        after.input.cn_wp
  unfolding send_component inc_write_pointers set_at
  IsSized-after =
      let s = v.sized in
      record {
        ring =
            set_at-IsRing l.compute.descs l.input.cn_wp.desc
              (component_sent l.input ts_num num_microslices len) s.ring;
        ring_size = s.ring_size;
        data_exp = s.data_exp;
        desc_exp = s.desc_exp;
        desc_room = omega (arith, moved_desc, fits.1);
        data_room = omega (arith, moved_to, total_eq, fits.0);
        desc_bound = omega (arith, moved_desc, desc_bound);
        data_bound = omega (arith, moved_to, data_bound, skip_required-le l.input len);
      }

  stored_new :
      end_of (component_sent l.input ts_num num_microslices len)
      ≡ l.input.cn_wp.data_index + (len + skip_required l.input len)
  unfolding component_sent
  stored_new = omega (arith, data_bound, skip_required-le l.input len)

  grows_after :
      (n : ℕ)
      → n < l.input.cn_wp.desc + 1
      → ends_with ends l.input len n ≤ ends_with ends l.input len (n + 1)
  grows_after n h = elim (Bool-cases (n == l.input.cn_wp.desc)) [
    | inl newest ↦
        let here : n ≡ l.input.cn_wp.desc = ground (arith, newest) in
        let e = ap (λ k. ends_with ends l.input len (k + 1)) here in
        omega (
          arith,
          e,
          ends_with-new ends l.input len,
          ends_with-old ends l.input len n (omega (arith, h)),
          ap ends here,
          v.chain.at5,
        )
    | inr older ↦
        let below : n < l.input.cn_wp.desc = ground (arith, older, h) in
        omega (
          arith,
          ends_with-old ends l.input len n (omega (arith, below)),
          ends_with-old ends l.input len (n + 1) (omega (arith, below)),
          v.written.grows n below,
        )
  ]

  stored_after :
      (n : ℕ)
      → l.input.cn_ack.desc ≤ n
      → n < l.input.cn_wp.desc + 1
      → end_of (
          at
            (set_at l.compute.descs l.input.cn_wp.desc
              (component_sent l.input ts_num num_microslices len))
            n)
        ≡ ends_with ends l.input len (n + 1)
  stored_after n a h = elim (Bool-cases (n == l.input.cn_wp.desc)) [
    | inl newest ↦
        let here : n ≡ l.input.cn_wp.desc = ground (arith, newest) in
        subst
          (λ k.
            end_of (
              at
                (set_at l.compute.descs l.input.cn_wp.desc
                  (component_sent l.input ts_num num_microslices len))
                k)
            ≡ ends_with ends l.input len (k + 1))
          (sym here)
          (ap end_of (
              at-set_at_self l.compute.descs l.input.cn_wp.desc
                (component_sent l.input ts_num num_microslices len))
            ∙ stored_new
            ∙ sym (ends_with-new ends l.input len))
    | inr older ↦
        let below : n < l.input.cn_wp.desc = ground (arith, older, h) in
        ap end_of (
          at-set_at_ne l.compute.descs l.input.cn_wp.desc n
            (component_sent l.input ts_num num_microslices len) v.sized.ring
            (λ e. omega (arith, e, below)) (omega (arith, v.sized.ring_size, a, fits.1))
            (omega (arith, below)))
        ∙ v.written.stored n a below
        ∙ sym (ends_with-old ends l.input len (n + 1) (omega (arith, below)))
  ]

  IsWritten-after :
      IsWritten after.compute.descs
        (ends_with ends l.input len)
        after.input.cn_ack
        after.input.cn_wp
  unfolding send_component inc_write_pointers
  IsWritten-after = record {
    grows = λ n h. grows_after n (omega (arith, h, moved_desc));
    stored = λ n a h. stored_after n a (omega (arith, h, moved_desc));
  }

  IsChain-after :
      IsChain
        (ends_with ends l.input len)
        after.input.cn_ack
        after.compute.send_status_message.ack
        after.compute.cn_ack
        after.compute.cn_wp
        after.input.send_status_message.wp
        after.input.cn_wp
  unfolding send_component inc_write_pointers
  IsChain-after =
      let w = v.chain in
      let old = AtEnd-old ends l.input len in
      record {
        le1 = w.le1;
        le2 = w.le2;
        le3 = w.le3;
        le4 = w.le4;
        le5 = omega (arith, w.le5, desc_bound);
        at0 = old l.input.cn_ack (omega (arith, w.le1, w.le2, w.le3, w.le4, w.le5)) w.at0;
        at1 =
            old l.compute.send_status_message.ack (omega (arith, w.le2, w.le3, w.le4, w.le5)) w.at1;
        at2 = old l.compute.cn_ack (omega (arith, w.le3, w.le4, w.le5)) w.at2;
        at3 = old l.compute.cn_wp (omega (arith, w.le4, w.le5)) w.at3;
        at4 = old l.input.send_status_message.wp w.le5 w.at4;
        at5 =
            moved_to
            ∙ sym (ends_with-new ends l.input len)
            ∙ ap (ends_with ends l.input len) (sym moved_desc);
      }

  pub send_component-IsOrdered : IsOrdered after.input after.compute (ends_with ends l.input len)
  send_component-IsOrdered = record {
    sized = IsSized-after;
    written = IsWritten-after;
    chain = IsChain-after;
  }
