-- ===== src/TimesliceStore/Buffer.antt =====
-- The invariant of the store, and that the handling of completions keeps it.
use flesnet.Base.{
  ℕ, ◌+◌, ◌≤◌, ◌<◌, ◌≡◌, refl, sym, ◌∙◌, subst, inl, inr, Bool, true, false, Option, some, List, [],
  ◌∷◌, map, arith, ltb, ◌==◌, ltb→lt, ==_iff, Bool-cases, length, All, All-imp, All-map, length-map,
  u64_mod,
}
use mathlib.Core.Bool.{false≢true}
use flesnet.Ack.{Acks, complete}
use flesnet.Ack.Window.{IsWindow, Completes, mark, complete-IsWindow}
use flesnet.Ack.History.{not_below}
use flesnet.TimesliceStore.{
  Channel, Store, release, handle_completion, handle_timeslice_completions,
}
use flesnet.TimesliceStore.Region.{IsChannel}
use flesnet.TimesliceStore.Release.{release-IsChannel, size-release}

-- A channel of a store, with a descriptor for each mark.
abbrev pub Fits : (acked ts_pos marks : ℕ) → Channel → Type 0
Fits acked ts_pos marks ch = IsChannel acked ts_pos ch × (ch.desc.view.size ≡ marks)

-- `done` is the set of the positions whose completion has been handled.
pub record IsStore (m : Store) (done : ℕ → Bool) : Type 0 where
  pub window : IsWindow m.acks done
  pub channels_fit : All (Fits m.acks.acked m.ts_pos m.acks.ack.size) m.channels
  pub count : length m.channels ≡ m.num_input_nodes
  pub inputs : 0 < m.num_input_nodes
  pub sent_only : (p : ℕ) → done p ≡ true → p < m.ts_pos
  pub behind : m.acks.acked ≤ m.ts_pos
  pub within : m.ts_pos ≤ m.acks.acked + m.acks.ack.size
  pub pos_fits : m.ts_pos + m.acks.ack.size < u64_mod

-- A state whose channels differ from the former ones by releases: what releases keep is kept.
abbrev pub KeepsChannels : List Channel → List Channel → Type 1
KeepsChannels chs chs' =
    (Q : Channel → Type 0)
    → ((b : ℕ) (ch : Channel) → Q ch → Q (release b ch))
    → All Q chs
    → All Q chs'

-- What the handling of a completion leaves.
abbrev pub Handles : Store → (ℕ → Bool) → Option Store → Type 1
Handles m done r =
    (m' : Store) × (r ≡ some m')
    × IsStore m' done
    × (m'.ts_pos ≡ m.ts_pos)
    × (m'.num_input_nodes ≡ m.num_input_nodes)
    × (m'.acks.ack.size ≡ m.acks.ack.size)
    × KeepsChannels m.channels m'.channels

module _ (m : Store) (done : ℕ → Bool) (c : ℕ) (v : IsStore m done) (fresh : done c ≡ false)
    (was_sent : c < m.ts_pos) where
  marked_sent : (p : ℕ) → mark done c p ≡ true → p < m.ts_pos
  marked_sent p d = ground (arith, v.sent_only p)

  -- The counter does not pass the positions that have been sent.
  acked-le-pos : (s : Acks) → IsWindow s (mark done c) → s.acked ≤ m.ts_pos
  acked-le-pos s w = elim (Bool-cases (ltb m.ts_pos s.acked)) [
    | inl past ↦ absurd (omega (arith, marked_sent m.ts_pos (w.below m.ts_pos (ltb→lt _ _ past))))
    | inr ok ↦ ground arith
  ]

  released :
      (s : Acks)
      → s.ack.size ≡ m.acks.ack.size
      → m.acks.acked < s.acked
      → s.acked ≤ m.ts_pos
      → (chs : List Channel) → All (Fits m.acks.acked m.ts_pos m.acks.ack.size) chs
      → All (Fits s.acked m.ts_pos s.ack.size) (map (release s.acked) chs)
  released s z lt le [] h = tt
  released s z lt le (ch ∷ chs) h = (
    (
      release-IsChannel m.acks.acked s.acked m.ts_pos ch h.0.0 lt le (omega (arith, v.pos_fits)),
      size-release s.acked ch ∙ h.0.1 ∙ sym z,
    ),
    released s z lt le chs h.1,
  )

  -- The store after the completion, with the channels that fit it.
  updated :
      (s : Acks) (chs : List Channel)
      → IsWindow s (mark done c)
      → s.ack.size ≡ m.acks.ack.size
      → m.acks.acked ≤ s.acked
      → All (Fits s.acked m.ts_pos s.ack.size) chs
      → length chs ≡ m.num_input_nodes
      → IsStore (record m { acks = s; channels = chs }) (mark done c)
  updated s chs w z le h n = record {
    window = w;
    channels_fit = h;
    count = n;
    inputs = v.inputs;
    sent_only = marked_sent;
    behind = acked-le-pos s w;
    within = omega (arith, v.within);
    pos_fits = omega (arith, v.pos_fits);
  }

  handled :
      Completes m.acks done c (complete m.acks c) → Handles m (mark done c) (handle_completion m c)
  unfolding handle_completion
  handled (s, eq, w, z, le, go, stay) = elim (Bool-cases (c == m.acks.acked)) [
    | inl e ↦ (
      record m { acks = s; channels = map (release s.acked) m.channels },
      rw (eq, handle_completion, e),
      updated s (map (release s.acked) m.channels) w z le
          (released s z (go ((==_iff _ _).0 e)) (acked-le-pos s w) m.channels v.channels_fit)
          (length-map (release s.acked) m.channels ∙ v.count),
      refl,
      refl,
      z,
      λ Q keep h. All-map Q (release s.acked) m.channels (All-imp Q _ m.channels (keep s.acked) h),
    )
    | inr e ↦ (
      record m { acks = s },
      rw (eq, handle_completion, e),
      updated s m.channels w z le (kept (stay (λ q. false≢true (sym e ∙ (==_iff _ _).1 q))))
          v.count,
      refl,
      refl,
      z,
      λ Q keep h. h,
    )
  ]
    where
      kept : s.acked ≡ m.acks.acked → All (Fits s.acked m.ts_pos s.ack.size) m.channels
      kept e =
          subst (λ x. All (Fits x m.ts_pos s.ack.size) m.channels) (sym e)
            (subst (λ x. All (Fits m.acks.acked m.ts_pos x) m.channels) (sym z) v.channels_fit)

  -- The completion of a position that was sent, and was not completed before, is handled: the
  -- scan ends, and the invariant holds with that position completed.
  pub handle_completion-IsStore : Handles m (mark done c) (handle_completion m c)
  handle_completion-IsStore = handled (
      complete-IsWindow m.acks done c v.window (not_below c v.window fresh)
        (omega (arith, v.within)) (omega (arith, v.pos_fits, v.behind)))

-- The completions that a poll receives: of positions that were sent, each once.
abbrev pub Expected : ℕ → (ℕ → Bool) → List ℕ → Type 0
Expected ts_pos done [] = Unit {0}
Expected ts_pos done (c ∷ cs) = (done c ≡ false) × (c < ts_pos) × Expected ts_pos (mark done c) cs

abbrev pub mark_all : (ℕ → Bool) → List ℕ → ℕ → Bool
mark_all done [] = done
mark_all done (c ∷ cs) = mark_all (mark done c) cs

-- All completions of a poll are handled, and the invariant holds with their positions completed.
pub handle_timeslice_completions-IsStore :
    (m : Store) (done : ℕ → Bool) (cs : List ℕ)
    → IsStore m done
    → Expected m.ts_pos done cs
    → Handles m (mark_all done cs) (handle_timeslice_completions m cs)
unfolding handle_timeslice_completions
handle_timeslice_completions-IsStore m done [] v h = (m, refl, v, refl, refl, refl, λ Q keep h. h)
handle_timeslice_completions-IsStore m done (c ∷ cs) v h =
    let (m₁, eq₁, v₁, pos₁, n₁, z₁, keep₁) = handle_completion-IsStore m done c v h.0 h.1 in
    let (m₂, eq₂, v₂, pos₂, n₂, z₂, keep₂) =
      handle_timeslice_completions-IsStore m₁ (mark done c) cs v₁
        (subst (λ t. Expected t (mark done c) cs) (sym pos₁) h.2) in
    (
      m₂,
      rw (eq₁, handle_timeslice_completions) eq₂,
      v₂,
      pos₂ ∙ pos₁,
      n₂ ∙ n₁,
      z₂ ∙ z₁,
      λ Q keep h. keep₂ Q keep (keep₁ Q keep h),
    )
