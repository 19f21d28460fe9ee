-- ===== src/TimesliceStore/Put.antt =====
-- A timeslice that fits is stored in every channel of the store.
use flesnet.Base.{
  ℕ, suc, ◌+◌, ◌≤◌, ◌<◌, ◌≡◌, refl, sym, ap, ◌∙◌, subst, Bool, true, List, [], ◌∷◌, arith, length,
  All, u64_mod, add64,
}
use flesnet.TimesliceStore.{
  Channel, Component, Timeslice, Store, component_fits, timeslice_fits_in_buffer, put_components,
}
use flesnet.TimesliceStore.Region.{
  Counts, stored_content, desc_at, put_component-IsChannel, stored_content-put,
  stored_content-put_old, desc_at-put, size-put_component,
}
use flesnet.TimesliceStore.Buffer.{IsStore, Fits}

-- Each component has as many bytes as its descriptor says.
abbrev pub Sized : Component → Type 0
Sized c = length c.content ≡ c.desc.size

-- Channel by channel: position `t` holds the component, for a worker that reads it, and positions
-- from `a` on that were stored before hold what they held.
abbrev pub Stores : (a t : ℕ) → List Channel → List Component → List Channel → Type 0
Stores a t [] [] [] = Unit
Stores a t (ch ∷ chs) (c ∷ cs) (ch' ∷ chs') =
    (stored_content ch' t ≡ c.content)
    × ((desc_at ch' t).num_microslices ≡ c.desc.num_microslices)
    × ((p : ℕ) → a ≤ p → p < t → stored_content ch' p ≡ stored_content ch p)
    × Stores a t chs cs chs'
Stores a t _ _ _ = ⊥

put_components-Stores :
    (a t marks : ℕ) (chs : List Channel) (cs : List Component)
    → All (Fits a t marks) chs
    → All Counts chs
    → All Sized cs
    → length cs ≡ length chs
    → timeslice_fits_in_buffer chs cs ≡ true
    → All (Fits a (t + 1) marks) (put_components chs cs) × Stores a t chs cs (put_components chs cs)
unfolding put_components timeslice_fits_in_buffer
put_components-Stores a t marks [] [] v k z n f = (tt, tt)
put_components-Stores a t marks [] (c ∷ cs) v k z n f = absurd (omega arith)
put_components-Stores a t marks (ch ∷ chs) [] v k z n f = absurd (omega arith)
put_components-Stores a t marks (ch ∷ chs) (c ∷ cs) v k z n f =
    let first : component_fits ch c ≡ true = ground arith in
    let (fit, stores) =
      put_components-Stores a t marks chs cs v.1 k.1 z.1 (omega arith) (ground arith) in
    (
      (
        (
          put_component-IsChannel a t ch c v.0.0 first k.0 z.0,
          size-put_component a t ch c v.0.0 first k.0 z.0 ∙ v.0.1,
        ),
        fit,
      ),
      (
        stored_content-put a t ch c v.0.0 first k.0 z.0,
        ap (λ d. d.num_microslices) (desc_at-put a t ch c v.0.0 first k.0 z.0),
        stored_content-put_old a t ch c v.0.0 first k.0 z.0,
        stores,
      ),
    )

length-put_components :
    (chs : List Channel) (cs : List Component)
    → length cs ≡ length chs
    → length (put_components chs cs) ≡ length chs
unfolding put_components
length-put_components [] [] n = refl
length-put_components [] (c ∷ cs) n = absurd (omega arith)
length-put_components (ch ∷ chs) [] n = absurd (omega arith)
length-put_components (ch ∷ chs) (c ∷ cs) n = ap suc (length-put_components chs cs (omega arith))

first_within :
    (a t marks : ℕ) (chs : List Channel) → 0 < length chs → All (Fits a t marks) chs → t ≤ a + marks
first_within a t marks [] p h = absurd (omega arith)
first_within a t marks (ch ∷ chs) p h =
    let v = h.0.0 in omega (arith, v.descs.within, v.desc_read, v.desc_write, h.0.1)

-- The state that `store_and_send` leaves.
abbrev pub stored : Store → Timeslice → Store
stored m ts = record m {
  channels = put_components m.channels ts.components;
  ts_pos = add64 m.ts_pos 1;
}

module _ (m : Store) (done : ℕ → Bool) (ts : Timeslice) (v : IsStore m done)
    (counts : All Counts m.channels) (sized : All Sized ts.components)
    (number : length ts.components ≡ m.num_input_nodes)
    (room : m.ts_pos + 1 + m.acks.ack.size < u64_mod)
    (fits : timeslice_fits_in_buffer m.channels ts.components ≡ true) where
  pub next_pos : add64 m.ts_pos 1 ≡ m.ts_pos + 1
  next_pos = omega arith

  pub components_stored :
      All
        (Fits m.acks.acked (m.ts_pos + 1) m.acks.ack.size)
        (put_components m.channels ts.components)
      × Stores m.acks.acked m.ts_pos m.channels ts.components
          (put_components m.channels ts.components)
  components_stored =
      put_components-Stores m.acks.acked m.ts_pos m.acks.ack.size m.channels ts.components
        v.channels_fit counts sized (number ∙ sym v.count) fits

  same_count : length (put_components m.channels ts.components) ≡ m.num_input_nodes
  same_count = length-put_components m.channels ts.components (number ∙ sym v.count) ∙ v.count

  -- A timeslice that fits is stored in every channel, and the invariant holds again.
  pub stored-IsStore : IsStore (stored m ts) done
  stored-IsStore = record {
    window = v.window;
    channels_fit =
        subst
          (λ t. All (Fits m.acks.acked t m.acks.ack.size) (put_components m.channels ts.components))
          (sym next_pos) components_stored.0;
    count = same_count;
    inputs = v.inputs;
    sent_only = λ p d. omega (arith, v.sent_only p d, next_pos);
    behind = omega (arith, v.behind, next_pos);
    within = omega (
      arith,
      next_pos,
      first_within m.acks.acked (m.ts_pos + 1) m.acks.ack.size
          (put_components m.channels ts.components) (omega (arith, same_count, v.inputs))
          components_stored.0,
    );
    pos_fits = omega (arith, next_pos);
  }
