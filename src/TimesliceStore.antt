-- ===== src/TimesliceStore.antt =====
-- lib/fles_core/ManagedTimesliceBuffer.cpp and .hpp: the timeslices that wait in shared memory for
-- the workers. The item distributor is seen through its messages: the completions that each poll
-- receives are an argument, and the work item sent is a result.
pub mod Region
pub mod Release
pub mod Buffer
pub mod Put
pub mod Outcome
pub mod Create
mod Tests
use flesnet.Base.{
  ℕ, Bool, true, false, not, ◌&&◌, ◌||◌, Option, none, some, List, [], ◌∷◌, map, ltb, ◌==◌,
  if◌then◌else◌, replicate, add64, sub64,
}
use flesnet.Ring.{RingBuffer, at, alloc_with_size_exponent}
use flesnet.Ack.{Acks, complete}
use flesnet.ManagedRing.{
  ManagedRingBuffer, set_read_index, size_available, size_available_contiguous, append,
  skip_buffer_wrap,
}

-- `fles::TimesliceComponentDescriptor`
pub record ComponentDescriptor : Type 0 where
  pub ts_num : ℕ
  pub offset : ℕ
  pub size : ℕ
  pub num_microslices : ℕ

-- A component of a timeslice: `*desc_ptr_[i]`, and the `size_component(i)` bytes at `data_ptr_[i]`.
pub record Component : Type 0 where
  pub desc : ComponentDescriptor
  pub content : List ℕ

-- `fles::TimesliceDescriptor`, and the two exponents of `fles::TimesliceWorkItem`.
pub record TimesliceDescriptor : Type 0 where
  pub index : ℕ
  pub ts_pos : ℕ
  pub num_core_microslices : ℕ
  pub num_components : ℕ

pub record WorkItem : Type 0 where
  pub ts_desc : TimesliceDescriptor
  pub data_buffer_size_exp : ℕ
  pub desc_buffer_size_exp : ℕ

pub record Timeslice : Type 0 where
  pub timeslice_descriptor : TimesliceDescriptor
  pub components : List Component

-- `desc_.at(i)` and `data_.at(i)`
pub record Channel : Type 0 where
  pub desc : ManagedRingBuffer ComponentDescriptor
  pub data_ring : ManagedRingBuffer ℕ

-- The fields of `ManagedTimesliceBuffer` that change, and `num_input_nodes` and the exponents.
-- `acks` is `acked_` and `ack_`.
pub record Store : Type 0 where
  pub num_input_nodes : ℕ
  pub data_buffer_size_exp : ℕ
  pub desc_buffer_size_exp : ℕ
  pub channels : List Channel
  pub acks : Acks
  pub ts_pos : ℕ

-- The constructor: all rings are empty. What the shared memory holds at first is of no matter; here
-- it is zero.
abbrev pub zero_desc : ComponentDescriptor
zero_desc = record { ts_num = 0; offset = 0; size = 0; num_microslices = 0 }

pub fresh_channel : (data_exp desc_exp : ℕ) → Channel
fresh_channel data_exp desc_exp = record {
  desc = record {
    view = alloc_with_size_exponent zero_desc desc_exp;
    write_index = 0;
    read_index = 0;
  };
  data_ring = record {
    view = alloc_with_size_exponent 0 data_exp;
    write_index = 0;
    read_index = 0;
  };
}

pub create : (num_input_nodes data_exp desc_exp : ℕ) → Store
create n data_exp desc_exp = record {
  num_input_nodes = n;
  data_buffer_size_exp = data_exp;
  desc_buffer_size_exp = desc_exp;
  channels = replicate n (fresh_channel data_exp desc_exp);
  acks = record { acked = 0; ack = alloc_with_size_exponent 0 desc_exp };
  ts_pos = 0;
}

pub empty : Store → Bool
empty m = m.acks.acked == m.ts_pos

-- The loop over the input nodes after an advance to `acked`.
pub release : ℕ → Channel → Channel
release acked ch =
    let d = at ch.desc.view (sub64 acked 1) in
    record {
      desc = set_read_index ch.desc acked;
      data_ring = set_read_index ch.data_ring (add64 d.offset d.size);
    }

-- One round of the loop in `handle_timeslice_completions`. `none`: the scan of the marks ran out of
-- fuel.
pub handle_completion : Store → ℕ → Option Store
handle_completion m c = elim (complete m.acks c) [
  | none ↦ none
  | some acks ↦ some (record m {
    acks = acks;
    channels = if c == m.acks.acked then map (release acks.acked) m.channels else m.channels;
  })
]

-- The loop, over the completions that a poll receives.
pub handle_timeslice_completions : Store → List ℕ → Option Store
handle_timeslice_completions m [] = some m
handle_timeslice_completions m (c ∷ cs) = elim (handle_completion m c) [
  | none ↦ none
  | some m' ↦ handle_timeslice_completions m' cs
]

-- The test of `timeslice_fits_in_buffer`, for one component.
pub component_fits : Channel → Component → Bool
component_fits ch c =
    not (ltb (size_available_contiguous ch.data_ring) c.desc.size || ltb (size_available ch.desc) 1)

-- The loop; a component with no channel is `std::out_of_range`, here `false`.
pub timeslice_fits_in_buffer : List Channel → List Component → Bool
timeslice_fits_in_buffer chs [] = true
timeslice_fits_in_buffer [] (c ∷ cs) = false
timeslice_fits_in_buffer (ch ∷ chs) (c ∷ cs) =
    component_fits ch c && timeslice_fits_in_buffer chs cs

-- The body of the loop in `put` that copies the components.
pub put_component : Channel → Component → Channel
put_component ch c =
    let skipped = skip_buffer_wrap ch.data_ring c.desc.size in
    let tscd = record (c.desc) { offset = skipped.write_index } in
    record { desc = append ch.desc (tscd ∷ []); data_ring = append skipped c.content }

pub put_components : List Channel → List Component → List Channel
put_components chs [] = chs
put_components [] (c ∷ cs) = []
put_components (ch ∷ chs) (c ∷ cs) = put_component ch c ∷ put_components chs cs

pub data PutResult : Type 0 where
  -- `std::runtime_error("Timeslice has wrong number of components")`
  wrong_components : PutResult
  -- No poll so far has freed the space.
  waiting : Store → PutResult
  -- The scan of the marks ran out of fuel.
  out_of_fuel : PutResult
  sent : Store → WorkItem → PutResult

-- `put`, once the timeslice fits.
pub store_and_send : Store → Timeslice → PutResult
store_and_send m ts =
    sent
      (record m { channels = put_components m.channels ts.components; ts_pos = add64 m.ts_pos 1 })
      (record {
        ts_desc = record (ts.timeslice_descriptor) { ts_pos = m.ts_pos };
        data_buffer_size_exp = m.data_buffer_size_exp;
        desc_buffer_size_exp = m.desc_buffer_size_exp;
      })

-- Polls until the timeslice fits. Each entry of the list is what one poll receives.
pub put_polling : Store → Timeslice → List (List ℕ) → PutResult
put_polling m ts [] = waiting m
put_polling m ts (poll ∷ polls) = elim (handle_timeslice_completions m poll) [
  | none ↦ out_of_fuel
  | some m' ↦
      let later = put_polling m' ts polls in
      if timeslice_fits_in_buffer m'.channels ts.components then store_and_send m' ts else later
]

pub put : Store → Timeslice → List (List ℕ) → PutResult
put m ts polls =
    if ts.timeslice_descriptor.num_components == m.num_input_nodes
    then put_polling m ts polls
    else wrong_components
