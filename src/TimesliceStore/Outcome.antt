-- ===== src/TimesliceStore/Outcome.antt =====
-- What `put` does with a timeslice: it is refused, waits for space, or is stored in full and sent.
use flesnet.Base.{ℕ, ◌+◌, ◌<◌, ◌≡◌, ◌≢◌, Bool, true, List, [], ◌∷◌, length, All, u64_mod}
use flesnet.TimesliceStore.{
  Timeslice, WorkItem, Store, PutResult, wrong_components, waiting, out_of_fuel, sent,
  timeslice_fits_in_buffer,
}
use flesnet.TimesliceStore.Region.{Counts}
use flesnet.TimesliceStore.Buffer.{IsStore, Expected, mark_all}
use flesnet.TimesliceStore.Put.{Sized, Stores}

-- What the polls receive, one after the other.
abbrev pub ExpectedPolls : ℕ → (ℕ → Bool) → List (List ℕ) → Type 0
ExpectedPolls t done [] = Unit
ExpectedPolls t done (p ∷ ps) = Expected t done p × ExpectedPolls t (mark_all done p) ps

-- The store in which the timeslice was found to fit, and what became of it there.
pub record Sent (m : Store) (ts : Timeslice) (m' : Store) (item : WorkItem) : Type 0 where
  pub before : Store
  pub done : ℕ → Bool
  pub before_valid : IsStore before done
  pub fitting : timeslice_fits_in_buffer before.channels ts.components ≡ true
  pub after_valid : IsStore m' done
  pub kept_and_stored :
      Stores before.acks.acked before.ts_pos before.channels ts.components m'.channels
  pub next : m'.ts_pos ≡ m.ts_pos + 1
  pub item_desc : item.ts_desc ≡ record (ts.timeslice_descriptor) { ts_pos = m.ts_pos }

abbrev pub Outcome : Store → Timeslice → PutResult → Type 0
Outcome m ts wrong_components = ts.timeslice_descriptor.num_components ≢ m.num_input_nodes
Outcome m ts (waiting m') = ((done : ℕ → Bool) × IsStore m' done) × (m'.ts_pos ≡ m.ts_pos)
Outcome m ts out_of_fuel = ⊥
Outcome m ts (sent m' item) = Sent m ts m' item

module _ (ts : Timeslice) (sized : All Sized ts.components) where
  -- What a call needs of the store, beside its invariant.
  record Ready (m : Store) : Type 0 where
    counts : All Counts m.channels
    number : length ts.components ≡ m.num_input_nodes
    room : m.ts_pos + 1 + m.acks.ack.size < u64_mod
