-- ===== src/Ack/Window.antt =====
-- The invariant of the marks, and that each completion keeps it.
use flesnet.Base.{
  ℕ, zero, suc, ◌+◌, ◌-◌, ◌≤◌, ◌<◌, ◌≡◌, refl, sym, ap, subst, ◌≢◌, inl, inr, Bool, true, false,
  Option, some, arith, ltb, ◌==◌, if◌then◌else◌, ==_iff, ==_of_ne, Bool-cases, u64_mod, add64,
}
use flesnet.Ring.{IsRing, at, set_at}
use flesnet.Ring.Cells.{set_at-IsRing, at-set_at_self, at-set_at_ne, at-add_size}
use flesnet.Ack.{Acks, scan, complete}

-- The completed positions, with one more.
abbrev pub mark : (ℕ → Bool) → ℕ → ℕ → Bool
mark done c p = if p == c then true else done p

-- `done` is the set of the completed positions. Those below `acked` are in it, `acked` is not, and
-- in the window of one ring size from `acked` on the marks tell which are.
pub record IsWindow (s : Acks) (done : ℕ → Bool) : Type 0 where
  pub ring : IsRing s.ack
  pub below : (p : ℕ) → p < s.acked → done p ≡ true
  pub first : done s.acked ≡ false
  pub above : (p : ℕ) → s.acked + s.ack.size ≤ p → done p ≡ false
  pub marked : (p : ℕ) → s.acked ≤ p → p < s.acked + s.ack.size → done p ≡ true → at s.ack p ≡ p
  pub clear :
      (p : ℕ) → s.acked ≤ p → p < s.acked + s.ack.size → done p ≡ false → at s.ack p ≤ s.acked

module _ (s : Acks) (done : ℕ → Bool) where
  -- What the loop finds from `a` on: the next position that is not completed.
  abbrev Finds : ℕ → Option ℕ → Type 0
  Finds a r =
      (b : ℕ) × (r ≡ some b)
      × (a < b)
      × (b ≤ s.acked + s.ack.size)
      × ((p : ℕ) → a < p → p < b → done p ≡ true)
      × (done b ≡ false)

module _ (s : Acks) (done : ℕ → Bool) (v : IsWindow s done) where
  -- The test of the loop, at the next position.
  test_done : (p : ℕ) → s.acked < p → p ≤ s.acked + s.ack.size → ltb s.acked (at s.ack p) ≡ done p
  test_done p lo hi = elim (Bool-cases (ltb p (s.acked + s.ack.size))) [
    | inl inside ↦ elim (Bool-cases (done p)) [
      | inl d ↦ ground (arith, d, v.marked p)
      | inr d ↦ ground (arith, d, v.clear p)
    ]
    | inr border ↦ ground (
      arith,
      v.above p,
      v.first,
      v.clear s.acked,
      ap (at s.ack) (let e : p ≡ s.acked + s.ack.size = ground arith in e),
      at-add_size s.ack s.acked v.ring,
    )
  ]

  done_inside : (p : ℕ) → done p ≡ true → p < s.acked + s.ack.size
  done_inside p d = ground (arith, v.above p)

  -- One ring size further on stands the mark of a position that has been passed.
  pub mark_behind :
      (b p : ℕ)
      → b ≤ s.acked + s.ack.size
      → ((p : ℕ) → s.acked < p → p < b → done p ≡ true)
      → s.acked ≤ p
      → p < b
      → at s.ack (p + s.ack.size) ≤ b
  mark_behind b p hi all lo lt = elim (Bool-cases (p == s.acked)) [
    | inl e ↦ ground (
      arith,
      at-add_size s.ack p v.ring,
      v.first,
      v.clear s.acked,
      ap (at s.ack) ((==_iff _ _).0 e),
    )
    | inr e ↦ ground (arith, at-add_size s.ack p v.ring, all p, v.marked p)
  ]

  scan-Finds :
      (fuel a : ℕ)
      → s.acked ≤ a
      → a < s.acked + s.ack.size
      → s.acked + s.ack.size ≤ a + fuel
      → s.acked + s.ack.size < u64_mod
      → Finds s done a (scan fuel s.ack s.acked a)
  unfolding scan
  scan-Finds zero a lo hi enough room = absurd (omega arith)
  scan-Finds (suc fuel) a lo hi enough room = elim (Bool-cases (done (a + 1))) [
    | inl d ↦
        let (b, found, lt, le, all, free) =
          scan-Finds fuel (a + 1) (omega arith) (omega (arith, done_inside (a + 1) d)) (omega arith)
            room in
        (
          b,
          rw (next, test_done (a + 1) (omega arith) (omega arith), d) found,
          omega arith,
          le,
          λ p q r. ground (arith, d, all p),
          free,
        )
    | inr d ↦ (
      a + 1,
      rw (next, test_done (a + 1) (omega arith) (omega arith), d),
      omega arith,
      omega arith,
      λ p q r. absurd (omega arith),
      d,
    )
  ]
    where
      next : add64 a 1 ≡ a + 1
      next = omega arith

-- A completion beyond `acked` is marked.
mark-IsWindow :
    (s : Acks) (done : ℕ → Bool) (c : ℕ)
    → IsWindow s done
    → s.acked < c
    → c < s.acked + s.ack.size
    → IsWindow (record s { ack = set_at s.ack c c }) (mark done c)
unfolding set_at
mark-IsWindow s done c v lo hi = record {
  ring = set_at-IsRing s.ack c c v.ring;
  below = λ p h. ground (arith, v.below p);
  first = ground (arith, v.first);
  above = λ p h. ground (arith, v.above p);
  marked = λ p h k d. elim (Bool-cases (p == c)) [
    | inl e ↦ ground (arith, at-set_at_self s.ack c c)
    | inr e ↦ ground (arith, v.marked p, at-set_at_ne s.ack c p c v.ring)
  ];
  clear = λ p h k d. elim (Bool-cases (p == c)) [
    | inl e ↦ ground arith
    | inr e ↦ ground (arith, v.clear p, at-set_at_ne s.ack c p c v.ring)
  ];
}

-- A completion at `acked` moves it to the next position that is not completed.
move-IsWindow :
    (s : Acks) (done : ℕ → Bool) (b : ℕ)
    → IsWindow s done
    → s.acked < b
    → b ≤ s.acked + s.ack.size
    → ((p : ℕ) → s.acked < p → p < b → done p ≡ true)
    → done b ≡ false
    → IsWindow (record s { acked = b }) (mark done s.acked)
move-IsWindow s done b v lo hi all free = record {
  ring = v.ring;
  below = λ p h. ground (arith, v.below p, all p);
  first = ground arith;
  above = λ p h. ground (arith, v.above p);
  marked = λ p h k d. elim (Bool-cases (ltb p (s.acked + s.ack.size))) [
    | inl inside ↦ ground (arith, v.marked p)
    | inr beyond ↦ ground (arith, v.above p)
  ];
  clear = λ p h k d. elim (Bool-cases (ltb p (s.acked + s.ack.size))) [
    | inl inside ↦ ground (arith, v.clear p)
    | inr beyond ↦
        subst (λ x. at s.ack x ≤ b) (ground arith)
          (mark_behind s done v b (p - s.ack.size) hi all (ground arith) (ground arith))
  ];
}

-- What the handling of a completion returns: the new state, for the larger set.
abbrev pub Completes : Acks → (ℕ → Bool) → ℕ → Option Acks → Type 0
Completes s done c r =
    (s' : Acks) × (r ≡ some s')
    × IsWindow s' (mark done c)
    × (s'.ack.size ≡ s.ack.size)
    × (s.acked ≤ s'.acked)
    × ((c ≡ s.acked) → s.acked < s'.acked)
    × ((c ≢ s.acked) → s'.acked ≡ s.acked)

complete_beyond :
    (s : Acks) (done : ℕ → Bool) (c : ℕ)
    → IsWindow s done
    → s.acked < c
    → c < s.acked + s.ack.size
    → Completes s done c (complete s c)
unfolding complete set_at
complete_beyond s done c v lo hi = (
  record s { ack = set_at s.ack c c },
  rw (==_of_ne c s.acked (omega arith)),
  mark-IsWindow s done c v lo hi,
  refl,
  omega arith,
  λ e. absurd (omega arith),
  λ ne. refl,
)

complete_first :
    (s : Acks) (done : ℕ → Bool)
    → IsWindow s done
    → Finds s done s.acked (scan s.ack.size s.ack s.acked s.acked)
    → Completes s done s.acked (complete s s.acked)
unfolding complete
complete_first s done v (b, found, lt, le, all, free) = (
  record s { acked = b },
  rw ((==_iff s.acked s.acked).1 refl, found),
  move-IsWindow s done b v lt le all free,
  refl,
  omega arith,
  λ e. lt,
  λ ne. absurd (ne refl),
)

-- `complete` never runs out of fuel, keeps the invariant, and adds the position to the set.
pub complete-IsWindow :
    (s : Acks) (done : ℕ → Bool) (c : ℕ)
    → IsWindow s done
    → s.acked ≤ c
    → c < s.acked + s.ack.size
    → s.acked + s.ack.size < u64_mod
    → Completes s done c (complete s c)
complete-IsWindow s done c v lo hi room = elim (Bool-cases (c == s.acked)) [
  | inl e ↦
      subst (λ x. Completes s done x (complete s x)) (sym ((==_iff _ _).0 e))
        (complete_first s done v
          (scan-Finds s done v s.ack.size s.acked (omega arith) (omega arith) (omega arith) room))
  | inr e ↦ complete_beyond s done c v (ground arith) hi
]
