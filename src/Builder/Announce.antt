-- ===== src/Builder/Announce.antt =====
-- What the builder has announced to the item distributor: lib/fles_rdma/TimesliceBuilder.cpp
-- (on_completion, case ID_RECEIVE_STATUS).
use flesnet.Base.{
  ℕ, zero, suc, ◌+◌, ◌-◌, ◌≤◌, ◌<◌, ◌≡◌, refl, sym, ap, ◌∙◌, inl, inr, Bool, true, false, some,
  List, [], ◌∷◌, ◌++◌, map, arith, ltb, if◌then◌else◌, Bool-cases, length, get_elem?, All, All-imp,
}
use flesnet.TimesliceStore.{TimesliceDescriptor}
use flesnet.Rdma.{ComputeConnection}
use flesnet.Builder.{Builder, closer, min_element, work_items, announce}

unfoldable pub Written : ℕ → ComputeConnection → Type 0
Written n c = n ≤ c.cn_wp.desc

closer-le :
    (c : ComputeConnection) (r : ℕ × ℕ) → ((closer c r).1 ≤ c.cn_wp.desc) × ((closer c r).1 ≤ r.1)
unfolding closer
closer-le c r = elim (Bool-cases (ltb (r.1) c.cn_wp.desc)) [
  | inl less ↦ rw (less) (ground (arith, less), omega arith)
  | inr more ↦ rw (more) (omega arith, ground (arith, more))
]

closer-bound :
    (n : ℕ) (c : ComputeConnection) (r : ℕ × ℕ) → n ≤ c.cn_wp.desc → n ≤ r.1 → n ≤ (closer c r).1
unfolding closer
closer-bound n c r h k = elim (Bool-cases (ltb (r.1) c.cn_wp.desc)) [
  | inl less ↦ rw (less) k
  | inr more ↦ rw (more) h
]

-- The least written position is not above any.
pub min_element-least : (cs : List ComputeConnection) → All (Written (min_element cs).1) cs
unfolding min_element Written
min_element-least [] = tt
min_element-least (c ∷ []) = (omega arith, tt)
min_element-least (c ∷ d ∷ cs) =
    let le = closer-le c (min_element (d ∷ cs)) in
    (
      le.0,
      All-imp (Written (min_element (d ∷ cs)).1) (Written (closer c (min_element (d ∷ cs))).1)
          (d ∷ cs) (λ x h. omega (arith, h, le.1)) (min_element-least (d ∷ cs)),
    )

-- A common bound of all is a bound of the least.
pub min_element-bound :
    (n : ℕ) (c : ComputeConnection) (cs : List ComputeConnection)
    → All (Written n) (c ∷ cs)
    → n ≤ (min_element (c ∷ cs)).1
unfolding min_element Written
min_element-bound n c [] (h, _) = h
min_element-bound n c (d ∷ cs) (h, hs) =
    closer-bound n c (min_element (d ∷ cs)) h (min_element-bound n d cs hs)

-- The positions announced, in their order.
unfoldable pub positions : List TimesliceDescriptor → List ℕ
positions ts = map (λ t. t.ts_pos) ts

unfoldable pub count_up : ℕ → ℕ → List ℕ
count_up a zero = []
count_up a (suc n) = a ∷ count_up (a + 1) n

count_up-add : (a k n : ℕ) → count_up a (k + n) ≡ count_up a k ++ count_up (a + k) n
unfolding count_up
count_up-add a zero n =
    ap (count_up a) (let e : 0 + n ≡ n = omega arith in e)
    ∙ ap (λ j. count_up j n) (let e : a ≡ a + 0 = omega arith in e)
count_up-add a (suc k) n =
    ap (count_up a) (let e : suc k + n ≡ suc (k + n) = omega arith in e)
    ∙ ap (◌∷◌ a) (
        count_up-add (a + 1) k n
        ∙ ap (λ j. count_up (a + 1) k ++ count_up j n)
            (let e : a + 1 + k ≡ a + suc k = omega arith in e))

positions-work_items : (b : Builder) (a n : ℕ) → positions (work_items b a n) ≡ count_up a n
unfolding positions work_items count_up
positions-work_items b a zero = refl
positions-work_items b a (suc n) = ap (◌∷◌ a) (positions-work_items b (a + 1) n)

positions-append :
    (xs ys : List TimesliceDescriptor) → positions (xs ++ ys) ≡ positions xs ++ positions ys
unfolding positions
positions-append [] ys = refl
positions-append (x ∷ xs) ys = ap (◌∷◌ x.ts_pos) (positions-append xs ys)

-- The position of the red lantern is what counts as completely written.
pub AtLantern : Builder → Type 0
AtLantern b =
    (c : ComputeConnection) × (get_elem? b.conn b.red_lantern ≡ some c)
    × (c.cn_wp.desc ≡ b.completely_written)

LeastAt : List ComputeConnection → ℕ × ℕ → Type 0
LeastAt cs r = (c : ComputeConnection) × (get_elem? cs (r.0) ≡ some c) × (c.cn_wp.desc ≡ r.1)

closer-LeastAt :
    (c : ComputeConnection) (cs : List ComputeConnection) (r : ℕ × ℕ)
    → LeastAt cs r
    → LeastAt (c ∷ cs) (closer c r)
unfolding closer LeastAt
closer-LeastAt c cs r (least, found, same) = elim (Bool-cases (ltb (r.1) c.cn_wp.desc)) [
  | inl less ↦
      let e : r.0 + 1 ≡ suc (r.0) = omega arith in
      rw (less) (least, ap (get_elem? (c ∷ cs)) e ∙ found, same)
  | inr more ↦ rw (more) (c, refl, refl)
]

-- The index of the least is that of a connection with this position.
min_element-LeastAt : (cs : List ComputeConnection) → 0 < length cs → LeastAt cs (min_element cs)
unfolding min_element LeastAt
min_element-LeastAt [] p = absurd (omega (arith, p))
min_element-LeastAt (c ∷ []) p = (c, refl, refl)
min_element-LeastAt (c ∷ d ∷ cs) p =
    closer-LeastAt c (d ∷ cs) (min_element (d ∷ cs)) (min_element-LeastAt (d ∷ cs) (omega arith))

-- Every input has written what counts as completely written, and the positions announced are all
-- below it, each once and in order, or none where the builder drops the timeslices.
pub record IsBuilder (b : Builder) : Type 0 where
  pub all_written : All (Written b.completely_written) b.conn
  pub some_conn : 0 < length b.conn
  pub in_order : positions b.announced ≡ (if b.drop then [] else count_up 0 b.completely_written)

min_element-grows :
    (n : ℕ) (cs : List ComputeConnection)
    → 0 < length cs
    → All (Written n) cs
    → n ≤ (min_element cs).1
min_element-grows n [] p h = absurd (omega (arith, p))
min_element-grows n (c ∷ cs) p h = min_element-bound n c cs h

announced-positions :
    (b : Builder) (drop : Bool) (n : ℕ)
    → positions b.announced ≡ (if drop then [] else count_up 0 b.completely_written)
    → positions (if drop then b.announced else b.announced ++ work_items b b.completely_written n)
      ≡ (if drop then [] else count_up 0 (b.completely_written + n))
announced-positions b true n h = h
announced-positions b false n h =
    let start : 0 + b.completely_written ≡ b.completely_written = omega arith in
    positions-append b.announced (work_items b b.completely_written n)
    ∙ ap (λ xs. xs ++ positions (work_items b b.completely_written n)) h
    ∙ ap (◌++◌ (count_up 0 b.completely_written))
        (positions-work_items b b.completely_written n ∙ ap (λ a. count_up a n) (sym start))
    ∙ sym (count_up-add 0 b.completely_written n)

pub announce-IsBuilder :
    (b : Builder)
    → IsBuilder b
    → IsBuilder (announce b)
      × (b.completely_written ≤ (announce b).completely_written)
      × AtLantern (announce b)
unfolding announce LeastAt AtLantern
announce-IsBuilder b v =
    let least = (min_element b.conn).1 in
    let grown = min_element-grows b.completely_written b.conn v.some_conn v.all_written in
    let n = least - b.completely_written in
    let reached : b.completely_written + n ≡ least = omega (arith, grown) in
    (
      record {
        all_written = min_element-least b.conn;
        some_conn = v.some_conn;
        in_order =
            announced-positions b b.drop n v.in_order
            ∙ ap (λ k. if b.drop then [] else count_up 0 k) reached;
      },
      grown,
      min_element-LeastAt b.conn v.some_conn,
    )
