-- ===== src/Rdma/Sent.antt =====
-- The components that the input node sends over a history, and where the compute node finds them:
-- lib/fles_rdma/InputChannelSender.cpp (try_send_timeslice) and InputChannelConnection.cpp.
use flesnet.Base.{
  ℕ, zero, suc, ◌+◌, ◌≤◌, ◌<◌, ◌≡◌, refl, sym, ap, ◌∙◌, subst, inl, inr, Bool, ◌&&◌, some, List, [],
  ◌∷◌, ◌++◌, arith, ◌==◌, Bool-cases, length, get_elem?, length-append, u64_mod, add64, map_inv,
}
use mathlib.Core.List.{append-nil}
use flesnet.Ring.{RingBuffer, IsRing, at, set_at}
use flesnet.Ring.Cells.{at-set_at_self, at-set_at_ne}
use flesnet.TimesliceStore.{ComponentDescriptor}
use flesnet.Rdma.{
  InputMessage, ComputeMessage, InputConnection, inc_write_pointers, try_sync_buffer_positions,
  same_position, finalize, on_complete_write, receive_ack, receive_wp, inc_ack_pointers,
  on_complete_send, on_complete_send_finalize,
}
use flesnet.Rdma.Link.{
  Link, component_sent, send_component, sync, finish, arrive_at_input, arrive_at_compute,
  input_start, compute_start, Step, Run,
}
use flesnet.Rdma.Send.{try_send_inv}
use flesnet.Rdma.Answer.{receive_wp_inv}
use flesnet.Rdma.History.{Run-IsLink}

-- What the sender says of a component.
pub record Part : Type 0 where
  pub ts_num : ℕ
  pub num_microslices : ℕ
  pub size : ℕ

-- The components sent in a step, and over a history, oldest first.
pub sent_in : {l l' : Link} → Step l l' → List Part
sent_in (Step.send ts_num num_microslices len going small data_bound desc_bound h) =
    record { ts_num = ts_num; num_microslices = num_microslices; size = len } ∷ []
sent_in Step.written = []
sent_in Step.synced = []
sent_in (Step.finalized abort going) = []
sent_in (Step.at_input h) = []
sent_in (Step.at_compute h q) = []
sent_in (Step.acked p a b) = []
sent_in Step.sent = []
sent_in (Step.sent_final e) = []

unfoldable pub sent_over : {l : Link} → Run l → List Part
unfolding sent_in
sent_over (Run.start de ne k descs ring size desc_exp data_exp) = []
sent_over (Run.step r s) = sent_over r ++ sent_in s

-- The descriptor tells of the component.
pub record Describes (d : ComponentDescriptor) (p : Part) : Type 0 where
  pub same_ts_num : d.ts_num ≡ p.ts_num
  pub same_num_microslices : d.num_microslices ≡ p.num_microslices
  pub same_size : d.size ≡ p.size

pub Stored : RingBuffer ComponentDescriptor → List Part → ℕ → Type 0
Stored descs log n = (p : Part) × (get_elem? log n ≡ some p) × Describes (at descs n) p

-- The ring has the descriptors of the last components sent, one for each of its cells.
record IsLogged (descs : RingBuffer ComponentDescriptor) (wp : ℕ) (log : List Part) : Type 0 where
  count : length log ≡ wp
  stored : (n : ℕ) → n < wp → wp ≤ n + descs.size → Stored descs log n

get_elem?-left :
    {p : Part} (xs ys : List Part) (n : ℕ)
    → get_elem? xs n ≡ some p
    → get_elem? (xs ++ ys) n ≡ some p
get_elem?-left [] ys n h = cc
get_elem?-left (x ∷ xs) ys zero h = h
get_elem?-left (x ∷ xs) ys (suc n) h = get_elem?-left xs ys n h

get_elem?-last : (p : Part) (xs : List Part) → get_elem? (xs ++ p ∷ []) (length xs) ≡ some p
get_elem?-last p [] = refl
get_elem?-last p (x ∷ xs) = get_elem?-last p xs

component_sent-IsLogged :
    (descs : RingBuffer ComponentDescriptor) (c : InputConnection) (log : List Part)
    (ts_num num_microslices len : ℕ)
    → IsRing descs
    → c.cn_wp.desc + 1 < u64_mod
    → IsLogged descs c.cn_wp.desc log
    → IsLogged
        (set_at descs c.cn_wp.desc (component_sent c ts_num num_microslices len))
        (c.cn_wp.desc + 1)
        (log ++ record { ts_num = ts_num; num_microslices = num_microslices; size = len } ∷ [])
unfolding component_sent Stored set_at
component_sent-IsLogged descs c log ts_num num_microslices len ring bound v = record {
  count = omega (arith, length-append log (part ∷ []), v.count);
  stored = λ n below room. elim (Bool-cases (n == c.cn_wp.desc)) [
    | inl newest ↦
        let here : c.cn_wp.desc ≡ n = ground (arith, newest) in
        subst (Stored (set_at descs c.cn_wp.desc new) (log ++ part ∷ [])) here newest_stored
    | inr older ↦
        let less : n < c.cn_wp.desc = ground (arith, older, below) in
        let (p, found, same) = v.stored n less (omega (arith, room)) in
        let kept =
          at-set_at_ne descs c.cn_wp.desc n new ring (λ e. omega (arith, e, less))
            (omega (arith, room)) (omega (arith, less)) in
        (p, get_elem?-left log (part ∷ []) n found, subst (λ d. Describes d p) (sym kept) same)
  ];
}
  where
    part : Part
    part = record { ts_num = ts_num; num_microslices = num_microslices; size = len }

    new : ComponentDescriptor
    new = component_sent c ts_num num_microslices len

    newest_stored : Stored (set_at descs c.cn_wp.desc new) (log ++ part ∷ []) c.cn_wp.desc
    newest_stored = (
      part,
      ap (get_elem? (log ++ part ∷ [])) (sym v.count) ∙ get_elem?-last part log,
      subst (λ d. Describes d part) (sym (at-set_at_self descs c.cn_wp.desc new))
          (record { same_ts_num = refl; same_num_microslices = refl; same_size = refl }),
    )

-- No component is written.
record IsKept (l l' : Link) : Type 0 where
  descs : l'.compute.descs ≡ l.compute.descs
  wp : l'.input.cn_wp.desc ≡ l.input.cn_wp.desc

sync-wp : (c : InputConnection) → (try_sync_buffer_positions c).0.cn_wp.desc ≡ c.cn_wp.desc
unfolding try_sync_buffer_positions
sync-wp c = elim (Bool-cases c.our_turn) [ inl turn ↦ rw (turn) refl | inr other ↦ rw (other) refl ]

finalize-wp : (c : InputConnection) (abort : Bool) → (finalize c abort).0.cn_wp.desc ≡ c.cn_wp.desc
unfolding finalize
finalize-wp c abort = elim (Bool-cases c.our_turn) [
  | inl turn ↦ rw (turn) refl
  | inr other ↦ rw (other) refl
]

receive_ack-wp :
    (c : InputConnection) (m : ComputeMessage) → (receive_ack c m).0.cn_wp.desc ≡ c.cn_wp.desc
unfolding receive_ack
receive_ack-wp c m = elim (Bool-cases m.final) [
  | inl last ↦ rw (last) refl
  | inr more ↦ elim (Bool-cases (same_position c.cn_wp c.send_status_message.wp && c.finalized)) [
    | inl settled ↦ rw (more, settled) refl
    | inr going ↦ rw (more, going) refl
  ]
]

arrive_at_compute-IsKept :
    (l l' : Link) (m : InputMessage) (rest : List InputMessage)
    → arrive_at_compute l m rest ≡ some l'
    → IsKept l l'
unfolding arrive_at_compute
arrive_at_compute-IsKept l l' m rest h =
    let (q, received, same) = map_inv (receive_wp l.compute m) h in
    let descs : q.0.descs ≡ l.compute.descs = elim (receive_wp_inv l.compute m q received) [
      | inl (last, e) ↦ ap (λ r. r.0.descs) e
      | inr e ↦ ap (λ r. r.0.descs) e
    ] in
    subst (IsKept l) same (record { descs = descs; wp = refl })

Logged : Link → List Part → Type 0
Logged l log = IsLogged l.compute.descs l.input.cn_wp.desc log

kept-Logged : (l l' : Link) (log : List Part) → IsKept l l' → Logged l log → Logged l' (log ++ [])
unfolding Logged
kept-Logged l l' log k v =
    subst (IsLogged l'.compute.descs l'.input.cn_wp.desc) (sym (append-nil log)) (
      subst (λ w. IsLogged l'.compute.descs w log) (sym k.wp)
        (subst (λ r. IsLogged r l.input.cn_wp.desc log) (sym k.descs) v))

Step-Logged :
    (l l' : Link) (log : List Part) (s : Step l l')
    → IsRing l.compute.descs
    → Logged l log
    → Logged l' (log ++ sent_in s)
unfolding sent_in Logged send_component inc_write_pointers on_complete_write inc_ack_pointers
    on_complete_send on_complete_send_finalize sync finish arrive_at_input
Step-Logged l l' log (Step.send n k len going small data_bound desc_bound h) ring v =
    let (space, same) = try_send_inv l l' n k len h in
    let next : add64 l.input.cn_wp.desc 1 ≡ l.input.cn_wp.desc + 1 = omega (arith, desc_bound) in
    subst (λ j. Logged j (log ++ record { ts_num = n; num_microslices = k; size = len } ∷ [])) same
      (rw (next) (component_sent-IsLogged l.compute.descs l.input log n k len ring desc_bound v))
Step-Logged l l' log Step.written ring v =
    kept-Logged l l' log (record { descs = refl; wp = refl }) v
Step-Logged l l' log Step.synced ring v =
    kept-Logged l l' log (record { descs = refl; wp = sync-wp l.input }) v
Step-Logged l l' log (Step.finalized abort going) ring v =
    kept-Logged l l' log (record { descs = refl; wp = finalize-wp l.input abort }) v
Step-Logged l l' log (Step.at_input {m = m} h) ring v =
    kept-Logged l l' log (record { descs = refl; wp = receive_ack-wp l.input m }) v
Step-Logged l l' log (Step.at_compute {m = m} {rest = rest} h q) ring v =
    kept-Logged l l' log (arrive_at_compute-IsKept l l' m rest q) v
Step-Logged l l' log (Step.acked p a b) ring v =
    kept-Logged l l' log (record { descs = refl; wp = refl }) v
Step-Logged l l' log Step.sent ring v = kept-Logged l l' log (record { descs = refl; wp = refl }) v
Step-Logged l l' log (Step.sent_final e) ring v =
    kept-Logged l l' log (record { descs = refl; wp = refl }) v

Run-Logged : (l : Link) (r : Run l) → Logged l (sent_over r)
unfolding sent_over Logged input_start compute_start
Run-Logged l (Run.start de ne k descs ring size desc_exp data_exp) = record {
  count = refl;
  stored = λ n below room. absurd (omega (arith, below));
}
Run-Logged l' (Run.step {l = l} r s) =
    let (ends, v) = Run-IsLink l r in
    Step-Logged l l' (sent_over r) s v.ordered.sized.ring (Run-Logged l r)

-- After any history, the ring of descriptors has, for a component that is written and not known to
-- be acknowledged, the descriptor of what was sent.
pub sent-Stored :
    (l : Link) (n : ℕ) (r : Run l)
    → l.input.cn_ack.desc ≤ n
    → n < l.input.cn_wp.desc
    → Stored l.compute.descs (sent_over r) n
unfolding Logged
sent-Stored l n r a b =
    let (ends, v) = Run-IsLink l r in
    let s = v.ordered.sized in
    (Run-Logged l r).stored n b (omega (arith, s.ring_size, s.desc_room, a))
