-- ===== src/Rdma/Order.antt =====
-- The order of the positions that the two ends of a connection keep, over any history of
-- InputChannelConnection.cpp and ComputeNodeConnection.cpp.
use flesnet.Base.{
  ℕ, zero, suc, ◌+◌, ◌-◌, ◌≤◌, ◌<◌, ◌≡◌, sym, ap, ◌∙◌, subst, arith, u64_mod, add64, sub64,
}
use flesnet.Ring.{RingBuffer, IsRing, at}
use flesnet.TimesliceStore.{ComponentDescriptor}
use flesnet.Rdma.{
  Position, InputMessage, ComputeMessage, InputConnection, ComputeConnection, inc_ack_pointers,
  data_size, desc_size,
}

-- Where the component of a descriptor ends.
abbrev pub end_of : ComponentDescriptor → ℕ
end_of d = add64 d.offset d.size

-- `ends n` is the data position behind the first `n` components.
abbrev pub AtEnd : (ℕ → ℕ) → Position → Type 0
AtEnd ends p = p.data_index ≡ ends p.desc

-- The six positions in which the ends keep how far they are: acknowledged, as the input node knows
-- and as the compute node last told, then as it is; written, as the compute node knows and as the
-- input node last told, then as it is.
pub record IsChain (ends : ℕ → ℕ) (known_ack told_ack ack known_wp told_wp wp : Position)
    : Type 0 where
  pub le1 : known_ack.desc ≤ told_ack.desc
  pub le2 : told_ack.desc ≤ ack.desc
  pub le3 : ack.desc ≤ known_wp.desc
  pub le4 : known_wp.desc ≤ told_wp.desc
  pub le5 : told_wp.desc ≤ wp.desc
  pub at0 : AtEnd ends known_ack
  pub at1 : AtEnd ends told_ack
  pub at2 : AtEnd ends ack
  pub at3 : AtEnd ends known_wp
  pub at4 : AtEnd ends told_wp
  pub at5 : AtEnd ends wp

-- The sizes of the buffers, and what is in use of them.
pub record IsSized (descs : RingBuffer ComponentDescriptor) (data_bytes desc_entries : ℕ)
    (known_ack wp : Position) : Type 0 where
  pub ring : IsRing descs
  pub ring_size : descs.size ≡ desc_entries
  pub data_exp : data_bytes < u64_mod
  pub desc_exp : desc_entries < u64_mod
  pub desc_room : wp.desc ≤ known_ack.desc + desc_entries
  pub data_room : wp.data_index ≤ known_ack.data_index + data_bytes
  pub desc_bound : wp.desc < u64_mod
  pub data_bound : wp.data_index < u64_mod

-- The components in use end in order, where their descriptors say.
pub record IsWritten (descs : RingBuffer ComponentDescriptor) (ends : ℕ → ℕ)
    (known_ack wp : Position) : Type 0 where
  pub grows : (n : ℕ) → n < wp.desc → ends n ≤ ends (n + 1)
  pub stored : (n : ℕ) → known_ack.desc ≤ n → n < wp.desc → end_of (at descs n) ≡ ends (n + 1)

pub record IsOrdered (i : InputConnection) (c : ComputeConnection) (ends : ℕ → ℕ) : Type 0 where
  pub sized : IsSized c.descs (data_size i) (desc_size i) i.cn_ack i.cn_wp
  pub written : IsWritten c.descs ends i.cn_ack i.cn_wp
  pub chain :
      IsChain ends i.cn_ack c.send_status_message.ack c.cn_ack c.cn_wp i.send_status_message.wp
        i.cn_wp

-- The ends grow with the number of components.
pub ends-le :
    (ends : ℕ → ℕ) (w : ℕ)
    → ((n : ℕ) → n < w → ends n ≤ ends (n + 1))
    → (n d : ℕ) → n + d ≤ w
    → ends n ≤ ends (n + d)
ends-le ends w grows n zero h = let same : n + 0 ≡ n = omega arith in omega (arith, ap ends same)
ends-le ends w grows n (suc d) h =
    let before = ends-le ends w grows n d (omega (arith, h)) in
    let next = grows (n + d) (omega (arith, h)) in
    let same : n + suc d ≡ n + d + 1 = omega arith in omega (arith, before, next, ap ends same)

pub positions-le :
    (ends : ℕ → ℕ) (w : ℕ) (p q : Position)
    → ((n : ℕ) → n < w → ends n ≤ ends (n + 1))
    → AtEnd ends p
    → AtEnd ends q
    → p.desc ≤ q.desc
    → q.desc ≤ w
    → p.data_index ≤ q.data_index
positions-le ends w p q grows a b h k =
    let up = ends-le ends w grows p.desc (q.desc - p.desc) (omega (arith, h, k)) in
    let same : p.desc + (q.desc - p.desc) ≡ q.desc = omega (arith, h) in
    omega (arith, up, ap ends same, a, b)

-- The input node takes over the acknowledgement that it was told.
pub take_ack :
    (i : InputConnection) (c : ComputeConnection) (ends : ℕ → ℕ)
    → IsOrdered i c ends
    → IsOrdered (record i { cn_ack = c.send_status_message.ack }) c ends
take_ack i c ends v =
    let w = v.chain in
    let s = v.sized in
    let up =
      positions-le ends i.cn_wp.desc i.cn_ack c.send_status_message.ack v.written.grows w.at0 w.at1
        w.le1 (omega (arith, w.le2, w.le3, w.le4, w.le5)) in
    record {
      sized = record {
        ring = s.ring;
        ring_size = s.ring_size;
        data_exp = s.data_exp;
        desc_exp = s.desc_exp;
        desc_room = omega (arith, s.desc_room, w.le1);
        data_room = omega (arith, s.data_room, up);
        desc_bound = s.desc_bound;
        data_bound = s.data_bound;
      };
      written = record {
        grows = v.written.grows;
        stored = λ n a b. v.written.stored n (omega (arith, w.le1, a)) b;
      };
      chain = record {
        le1 = omega arith;
        le2 = w.le2;
        le3 = w.le3;
        le4 = w.le4;
        le5 = w.le5;
        at0 = w.at1;
        at1 = w.at1;
        at2 = w.at2;
        at3 = w.at3;
        at4 = w.at4;
        at5 = w.at5;
      };
    }

-- The compute node tells what it acknowledges.
pub tell_ack :
    (i : InputConnection) (c : ComputeConnection) (ends : ℕ → ℕ) (m : ComputeMessage)
    → m.ack ≡ c.cn_ack
    → IsOrdered i c ends
    → IsOrdered i (record c { send_status_message = m }) ends
tell_ack i c ends m e v =
    let w = v.chain in
    record {
      sized = v.sized;
      written = v.written;
      chain = record {
        le1 = omega (arith, w.le1, w.le2, ap (λ p. p.desc) e);
        le2 = omega (arith, ap (λ p. p.desc) e);
        le3 = w.le3;
        le4 = w.le4;
        le5 = w.le5;
        at0 = w.at0;
        at1 = subst (AtEnd ends) (sym e) w.at2;
        at2 = w.at2;
        at3 = w.at3;
        at4 = w.at4;
        at5 = w.at5;
      };
    }

-- The compute node takes over the written position that it was told.
pub take_wp :
    (i : InputConnection) (c : ComputeConnection) (ends : ℕ → ℕ)
    → IsOrdered i c ends
    → IsOrdered i (record c { cn_wp = i.send_status_message.wp }) ends
take_wp i c ends v =
    let w = v.chain in
    record {
      sized = v.sized;
      written = v.written;
      chain = record {
        le1 = w.le1;
        le2 = w.le2;
        le3 = omega (arith, w.le3, w.le4);
        le4 = omega arith;
        le5 = w.le5;
        at0 = w.at0;
        at1 = w.at1;
        at2 = w.at2;
        at3 = w.at4;
        at4 = w.at4;
        at5 = w.at5;
      };
    }

-- The input node tells what it has written.
pub tell_wp :
    (i : InputConnection) (c : ComputeConnection) (ends : ℕ → ℕ) (m : InputMessage)
    → m.wp ≡ i.cn_wp
    → IsOrdered i c ends
    → IsOrdered (record i { send_status_message = m }) c ends
tell_wp i c ends m e v =
    let w = v.chain in
    record {
      sized = v.sized;
      written = v.written;
      chain = record {
        le1 = w.le1;
        le2 = w.le2;
        le3 = w.le3;
        le4 = omega (arith, w.le4, w.le5, ap (λ p. p.desc) e);
        le5 = omega (arith, ap (λ p. p.desc) e);
        at0 = w.at0;
        at1 = w.at1;
        at2 = w.at2;
        at3 = w.at3;
        at4 = subst (AtEnd ends) (sym e) w.at5;
        at5 = w.at5;
      };
    }

-- The compute node acknowledges: the descriptor in the ring says where the data ends.
pub inc_ack_pointers-IsOrdered :
    (i : InputConnection) (c : ComputeConnection) (ends : ℕ → ℕ) (p : ℕ)
    → c.cn_ack.desc < p
    → p ≤ c.cn_wp.desc
    → IsOrdered i c ends
    → IsOrdered i (inc_ack_pointers c p) ends
unfolding inc_ack_pointers
inc_ack_pointers-IsOrdered i c ends p a b v =
    let w = v.chain in
    record {
      sized = v.sized;
      written = v.written;
      chain = record {
        le1 = w.le1;
        le2 = omega (arith, w.le2, a);
        le3 = b;
        le4 = w.le4;
        le5 = w.le5;
        at0 = w.at0;
        at1 = w.at1;
        at2 = ended;
        at3 = w.at3;
        at4 = w.at4;
        at5 = w.at5;
      };
    }
  where
    last : sub64 p 1 ≡ p - 1
    last = omega (arith, v.sized.desc_bound, v.chain.le4, v.chain.le5, a, b)

    back : p - 1 + 1 ≡ p
    back = omega (arith, a)

    ended : end_of (at c.descs (sub64 p 1)) ≡ ends p
    ended = rw (last) (
        v.written.stored (p - 1) (omega (arith, v.chain.le1, v.chain.le2, a))
          (omega (arith, v.chain.le4, v.chain.le5, a, b))
        ∙ ap ends back)
