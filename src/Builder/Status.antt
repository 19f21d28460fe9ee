-- ===== src/Builder/Status.antt =====
-- The status messages that the builder receives: lib/fles_rdma/TimesliceBuilder.cpp
-- (on_completion, case ID_RECEIVE_STATUS).
use flesnet.Base.{
  ℕ, zero, suc, ◌≤◌, ◌≡◌, refl, ap, subst, inl, inr, Bool, true, false, ◌&&◌, Option, some, List,
  [], ◌∷◌, arith, ◌==◌, if◌then◌else◌, length, get_elem?, All, map_inv,
}
use flesnet.Rdma.{InputMessage, ComputeMessage, ComputeConnection, receive_wp}
use flesnet.Rdma.Answer.{receive_wp_inv}
use flesnet.Builder.{Builder, change_at, announce, receive_status}
use flesnet.Builder.Announce.{Written, AtLantern, IsBuilder, announce-IsBuilder}

-- What all connections have is kept where the one that changes keeps it.
change_at-keeps :
    {M : Type 0} (f : ComputeConnection → Option (ComputeConnection × M)) (n i : ℕ)
    (cs : List ComputeConnection) (r : List ComputeConnection × M)
    → change_at f i cs ≡ some r
    → ((c : ComputeConnection) (q : ComputeConnection × M)
        → get_elem? cs i ≡ some c
        → f c ≡ some q
        → Written n c
        → Written n (q.0))
    → All (Written n) cs
    → All (Written n) (r.0) × (length (r.0) ≡ length cs)
unfolding change_at
change_at-keeps f n i [] r h step all = cc
change_at-keeps f n zero (c ∷ cs) r h step (p, ps) =
    let (q, changed, same) = map_inv (f c) h in
    subst (λ k. All (Written n) (k.0) × (length (k.0) ≡ length (c ∷ cs))) same
      ((step c q refl changed p, ps), refl)
change_at-keeps f n (suc i) (c ∷ cs) r h step (p, ps) =
    let (q, changed, same) = map_inv (change_at f i cs) h in
    let rest = change_at-keeps f n i cs q changed step ps in
    subst (λ k. All (Written n) (k.0) × (length (k.0) ≡ length (c ∷ cs))) same
      ((p, rest.0), ap suc rest.1)

-- A connection takes over the written position of a message, or keeps its own.
receive_wp-Written :
    (n : ℕ) (m : InputMessage) (c : ComputeConnection) (q : ComputeConnection × ComputeMessage)
    → c.cn_wp.desc ≤ m.wp.desc
    → receive_wp c m ≡ some q
    → Written n c
    → Written n (q.0)
unfolding Written
receive_wp-Written n m c q h e p = elim (receive_wp_inv c m q e) [
  | inl (last, same) ↦ omega (arith, ap (λ r. r.0.cn_wp.desc) same, p)
  | inr same ↦ omega (arith, ap (λ r. r.0.cn_wp.desc) same, p, h)
]

-- What a status message of connection `i` changes: where all are connected and `i` is the red
-- lantern, what counts as completely written is the position of the new red lantern, and else it
-- stays, and nothing is announced.
pub data Told (b b' : Builder) (i : ℕ) : Type 0 where
  caught_up : b.connected ≡ length b.conn → i ≡ b.red_lantern → AtLantern b' → Told b b' i
  stayed :
      (b.connected == length b.conn && i == b.red_lantern) ≡ false
      → b'.completely_written ≡ b.completely_written
      → b'.announced ≡ b.announced
      → Told b b' i

-- After a status message, whose written position is not behind that of the connection, what counts
-- as completely written did not go back, and every input has written it; where all are connected
-- and the message is that of the red lantern, it is the position of the new red lantern, and else
-- nothing is announced. The positions announced are all positions below it, each once and in order,
-- or none where the builder drops the timeslices.
pub receive_status-IsBuilder :
    (b b' : Builder) (i : ℕ) (m : InputMessage) (out : ComputeMessage)
    → IsBuilder b
    → ((c : ComputeConnection) → get_elem? b.conn i ≡ some c → c.cn_wp.desc ≤ m.wp.desc)
    → receive_status b i m ≡ some (b', out)
    → IsBuilder b' × (b.completely_written ≤ b'.completely_written) × Told b b' i
unfolding receive_status
receive_status-IsBuilder b b' i m out v h e =
    let (r, changed, same) = map_inv (change_at (λ c. receive_wp c m) i b.conn) e in
    let kept =
      change_at-keeps (λ c. receive_wp c m) b.completely_written i b.conn r changed
        (λ c q at_i received p. receive_wp-Written b.completely_written m c q (h c at_i) received p)
        v.all_written in
    let moved = record b { conn = r.0 } in
    let v' : IsBuilder moved = record {
      all_written = kept.0;
      some_conn = omega (arith, kept.1, v.some_conn);
      in_order = v.in_order;
    } in
    subst (λ k. IsBuilder k × (b.completely_written ≤ k.completely_written) × Told b k i)
      (ap (λ x. x.0) same) (either (b.connected == length b.conn && i == b.red_lantern) refl v')
  where
    either :
        {cs : List ComputeConnection} (t : Bool)
        → (b.connected == length b.conn && i == b.red_lantern) ≡ t
        → IsBuilder (record b { conn = cs })
        → let k = if t then announce (record b { conn = cs }) else record b { conn = cs } in
          IsBuilder k × (b.completely_written ≤ k.completely_written) × Told b k i
    either {cs = cs} true turn w =
        let t = announce-IsBuilder (record b { conn = cs }) w in
        (t.0, t.1, caught_up (ground (arith, turn)) (ground (arith, turn)) (t.2))
    either false other w = (w, omega arith, stayed other refl refl)
