-- ===== src/TimesliceStore/Tests.antt =====
-- A store for one input, with eight bytes and two descriptors, and its theorems there.
use flesnet.Base.{ℕ, ◌≡◌, refl, true, false, [], ◌∷◌, map, arith, All}
use flesnet.Ring.{at, set_at, alloc_with_size_exponent}
use flesnet.Ack.{complete, scan}
use flesnet.ManagedRing.{
  size_used, size_available, size_available_contiguous, append, skip_buffer_wrap, set_read_index,
}
use flesnet.TimesliceStore.{
  Component, Timeslice, TimesliceDescriptor, Store, create, fresh_channel, PutResult, sent, waiting,
  wrong_components, put, put_polling, store_and_send, timeslice_fits_in_buffer, component_fits,
  put_components, put_component, handle_timeslice_completions, handle_completion, release,
}
use flesnet.TimesliceStore.Buffer.{IsStore}
use flesnet.TimesliceStore.Put.{stored, stored-IsStore}
use flesnet.TimesliceStore.Outcome.{Outcome}
use flesnet.TimesliceStore.Buffer.{Handles, handle_timeslice_completions-IsStore}
use flesnet.Ack.Window.{mark}
use flesnet.TimesliceStore.Region.{stored_content, Counts}
use flesnet.TimesliceStore.Create.{create-IsStore}

abbrev five_bytes : Component
five_bytes = record {
  desc = record { ts_num = 0; offset = 77; size = 5; num_microslices = 1 };
  content = 1 ∷ 2 ∷ 3 ∷ 4 ∷ 5 ∷ [];
}

abbrev header : TimesliceDescriptor
header = record { index = 9; ts_pos = 4; num_core_microslices = 1; num_components = 1 }

abbrev slice : Timeslice
slice = record { timeslice_descriptor = header; components = five_bytes ∷ [] }

abbrev store : Store
store = create 1 3 1

abbrev result_kind : PutResult → ℕ
result_kind wrong_components = 0
result_kind (waiting m) = 1
result_kind PutResult.out_of_fuel = 2
result_kind (sent m item) = 3

abbrev store_of : PutResult → Store
store_of (waiting m) = m
store_of (sent m item) = m
store_of _ = store

-- The second timeslice fits once the first is completed: then it stands at index 8.
abbrev after_first : Store
after_first = store_of (put store slice ([] ∷ []))

second_put_waits_then_fits :
    (result_kind (put store slice ([] ∷ [])) ≡ 3)
    × (result_kind (put after_first slice ([] ∷ [])) ≡ 1)
    × (result_kind (put after_first slice ([] ∷ (0 ∷ []) ∷ [])) ≡ 3)
    × (map
          (λ ch. stored_content ch 1)
          (store_of (put after_first slice ([] ∷ (0 ∷ []) ∷ []))).channels
        ≡ five_bytes.content ∷ [])
unfolding create fresh_channel alloc_with_size_exponent put put_polling store_and_send
    timeslice_fits_in_buffer component_fits put_components put_component
    handle_timeslice_completions handle_completion release complete scan at set_at size_used
    size_available size_available_contiguous append skip_buffer_wrap set_read_index
second_put_waits_then_fits = (refl, refl, refl, refl)

store_valid : IsStore store (λ p. false) × All Counts store.channels
store_valid = create-IsStore 3 1 (omega arith) (omega arith) 1 (omega arith)

slice_fits : timeslice_fits_in_buffer store.channels slice.components ≡ true
unfolding create fresh_channel alloc_with_size_exponent timeslice_fits_in_buffer component_fits
    size_used size_available size_available_contiguous
slice_fits = refl

one_stored : IsStore (stored store slice) (λ p. false)
unfolding create alloc_with_size_exponent
one_stored =
    stored-IsStore store (λ p. false) slice store_valid.0 store_valid.1 (refl, tt) refl
      (omega arith) slice_fits

handle_timeslice_completions-IsStore_example :
    Handles
      (stored store slice)
      (mark (λ p. false) 0)
      (handle_timeslice_completions (stored store slice) (0 ∷ []))
unfolding create
handle_timeslice_completions-IsStore_example =
    handle_timeslice_completions-IsStore (stored store slice) (λ p. false) (0 ∷ []) one_stored
      (refl, omega arith, tt)

create-IsStore_example : IsStore store (λ p. false) × All Counts store.channels
create-IsStore_example = create-IsStore 3 1 (omega arith) (omega arith) 1 (omega arith)
