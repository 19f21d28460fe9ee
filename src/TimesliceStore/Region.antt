-- ===== src/TimesliceStore/Region.antt =====
-- One channel of the store: where its components lie, and that storing one more keeps the others
-- in place.
use flesnet.Base.{
  ℕ, ◌+◌, ◌≤◌, ◌<◌, ◌≡◌, sym, ap, ◌∙◌, subst, ◌⊎◌, inl, inr, true, List, [], ◌∷◌, arith, length,
  read, read_eq, u64_mod,
}
use flesnet.Ring.{cell, at}
use flesnet.Ring.Cells.{cell_same}
use flesnet.Ring.Blocks.{read-cell}
use mathlib.Core.Path.{ap₂}
use flesnet.ManagedRing.{
  ManagedRingBuffer, IsManaged, append, skip_buffer_wrap, size_available_contiguous,
}
use flesnet.ManagedRing.Space.{HasRoom, skip_makes_room, used-add-available}
use flesnet.ManagedRing.Append.{append-IsManaged, append_indices, read-append}
use flesnet.TimesliceStore.{ComponentDescriptor, Component, Channel, component_fits, put_component}

-- The descriptor at a position of the channel.
abbrev pub desc_at : Channel → ℕ → ComponentDescriptor
desc_at ch p = at ch.desc.view p

-- The end of the data that belongs to a position.
abbrev pub data_end : Channel → ℕ → ℕ
data_end ch p = (desc_at ch p).offset + (desc_at ch p).size

-- What workers may still read: the data of each position from `acked` on lies between the read and
-- the write index, in one piece, and in the order of the positions.
pub record IsChannel (acked ts_pos : ℕ) (ch : Channel) : Type 0 where
  pub descs : IsManaged ch.desc
  pub bytes : IsManaged ch.data_ring
  pub desc_read : ch.desc.read_index ≡ acked
  pub desc_write : ch.desc.write_index ≡ ts_pos
  pub start : (p : ℕ) → acked ≤ p → p < ts_pos → ch.data_ring.read_index ≤ (desc_at ch p).offset
  pub finish : (p : ℕ) → acked ≤ p → p < ts_pos → data_end ch p ≤ ch.data_ring.write_index
  pub piece :
      (p : ℕ)
      → acked ≤ p
      → p < ts_pos
      → cell ch.data_ring.view (desc_at ch p).offset + (desc_at ch p).size ≤ ch.data_ring.view.size
  pub order : (p q : ℕ) → acked ≤ p → p < q → q < ts_pos → data_end ch p ≤ (desc_at ch q).offset

-- What a worker reads of a position: as many bytes as the descriptor says, from its address on.
abbrev pub stored_content : Channel → ℕ → List ℕ
stored_content ch p =
    let d = desc_at ch p in read ch.data_ring.view.buf (cell ch.data_ring.view d.offset) d.size

-- Room for the indices below 2^64.
abbrev pub Counts : Channel → Type 0
Counts ch =
    (ch.desc.write_index + ch.desc.view.size < u64_mod)
    × (ch.data_ring.write_index + ch.data_ring.view.size + ch.data_ring.view.size < u64_mod)

module _ (a t : ℕ) (ch : Channel) (c : Component) (v : IsChannel a t ch)
    (fits : component_fits ch c ≡ true) (counts : Counts ch)
    (sized : length c.content ≡ c.desc.size) where
  abbrev pub after : Channel
  after = put_component ch c

  abbrev pub skipped : ManagedRingBuffer ℕ
  skipped = skip_buffer_wrap ch.data_ring c.desc.size

  data_fits : c.desc.size ≤ size_available_contiguous ch.data_ring
  unfolding component_fits
  data_fits = ground arith

  room : HasRoom ch.data_ring v.bytes c.desc.size skipped
  room = skip_makes_room ch.data_ring v.bytes c.desc.size data_fits (omega (arith, counts))

  desc_room : ch.desc.write_index + 1 ≤ ch.desc.read_index + ch.desc.view.size
  unfolding component_fits
  desc_room = ground (arith, used-add-available ch.desc v.descs)

  size_kept : skipped.view.size ≡ ch.data_ring.view.size
  size_kept = ap (λ r. r.size) room.view_eq

  abbrev pub tscd : ComponentDescriptor
  tscd = record (c.desc) { offset = skipped.write_index }

  data_room : skipped.write_index + length c.content ≤ skipped.read_index + skipped.view.size
  data_room = omega (arith, sized, room.free)

  count_room : skipped.write_index + skipped.view.size < u64_mod
  count_room = omega (arith, counts, room.free, room.read_eq, size_kept, v.bytes.behind)

  head_of : {x y : ComponentDescriptor} → x ∷ [] ≡ y ∷ [] → x ≡ y
  head_of h = cc

  -- The new position holds the descriptor, with the offset of its data.
  pub desc_at-put : desc_at after t ≡ tscd
  unfolding put_component
  desc_at-put =
      ap (at (append ch.desc (tscd ∷ [])).view) (sym v.desc_write)
      ∙ head_of (read-append ch.desc v.descs (tscd ∷ []) desc_room counts.0).0

  pub desc_at-put_old : (p : ℕ) → a ≤ p → p < t → desc_at after p ≡ desc_at ch p
  unfolding put_component
  desc_at-put_old p lo hi =
      (read-append ch.desc v.descs (tscd ∷ []) desc_room counts.0).1 p (omega (arith, v.desc_read))
        (omega (arith, v.desc_write))

  -- The bytes at the indices of the old data are as before.
  pub byte_at-put_old :
      (j : ℕ)
      → ch.data_ring.read_index ≤ j
      → j < ch.data_ring.write_index
      → at after.data_ring.view j ≡ at ch.data_ring.view j
  unfolding put_component
  byte_at-put_old j lo hi =
      (read-append skipped room.managed c.content data_room count_room).1 j
        (omega (arith, room.read_eq)) (omega (arith, room.forward))
      ∙ ap (λ r. at r j) room.view_eq

  after-bytes : IsManaged after.data_ring
  unfolding put_component
  after-bytes = append-IsManaged skipped room.managed c.content data_room count_room

  after-descs : IsManaged after.desc
  unfolding put_component
  after-descs = append-IsManaged ch.desc v.descs (tscd ∷ []) desc_room counts.0

  -- Where the indices of the two rings stand afterwards.
  record Indices : Type 0 where
    desc_read : after.desc.read_index ≡ a
    desc_write : after.desc.write_index ≡ t + 1
    data_read : after.data_ring.read_index ≡ ch.data_ring.read_index
    data_write : after.data_ring.write_index ≡ skipped.write_index + c.desc.size
    data_size : after.data_ring.view.size ≡ ch.data_ring.view.size

  indices : Indices
  unfolding put_component
  indices =
      let (dr, ds, dw) = append_indices ch.desc v.descs (tscd ∷ []) in
      let (br, bs, bw) = append_indices skipped room.managed c.content in
      record {
        desc_read = omega (arith, dr, v.desc_read);
        desc_write = omega (arith, dw, v.desc_write, counts, desc_room, v.descs.behind);
        data_read = omega (arith, br, room.read_eq);
        data_write = omega (arith, bw, sized, count_room, room.contiguous);
        data_size = omega (arith, bs, size_kept);
      }

  pub size-put_component : after.desc.view.size ≡ ch.desc.view.size
  unfolding put_component
  size-put_component = (append_indices ch.desc v.descs (tscd ∷ [])).1

  cell_kept : (n : ℕ) → cell after.data_ring.view n ≡ cell ch.data_ring.view n
  cell_kept n =
      cell_same after.data_ring.view ch.data_ring.view n after-bytes.ring v.bytes.ring
        indices.data_size

  is_new : (p : ℕ) → p < t + 1 → (p < t) ⊎ (t ≡ p)
  is_new p h = omega arith

  -- The offset and the size at a position, and the cell of the offset.
  old_fields :
      (p : ℕ)
      → a ≤ p
      → p < t
      → ((desc_at after p).offset ≡ (desc_at ch p).offset)
        × ((desc_at after p).size ≡ (desc_at ch p).size)
        × (cell after.data_ring.view (desc_at after p).offset
            ≡ cell ch.data_ring.view (desc_at ch p).offset)
  old_fields p lo hi =
      let e = desc_at-put_old p lo hi in
      (
        ap (λ d. d.offset) e,
        ap (λ d. d.size) e,
        cell_kept (desc_at after p).offset ∙ ap (λ d. cell ch.data_ring.view d.offset) e,
      )

  new_fields :
      ((desc_at after t).offset ≡ skipped.write_index)
      × ((desc_at after t).size ≡ c.desc.size)
      × (cell after.data_ring.view (desc_at after t).offset ≡ cell skipped.view skipped.write_index)
  new_fields = (
    ap (λ d. d.offset) desc_at-put,
    ap (λ d. d.size) desc_at-put,
    cell_kept (desc_at after t).offset
        ∙ ap (λ d. cell ch.data_ring.view d.offset) desc_at-put
        ∙ ap (λ r. cell r skipped.write_index) (sym room.view_eq),
  )

  put-start : (p : ℕ) → a ≤ p → p < t + 1 → after.data_ring.read_index ≤ (desc_at after p).offset
  put-start p lo hi = elim (is_new p hi) [
    | inl old ↦ omega (arith, old_fields p lo old, v.start p lo old, indices.data_read)
    | inr e ↦
        subst (λ x. after.data_ring.read_index ≤ (desc_at after x).offset) e
          (omega (arith, new_fields, indices.data_read, room.forward, v.bytes.behind))
  ]

  put-finish : (p : ℕ) → a ≤ p → p < t + 1 → data_end after p ≤ after.data_ring.write_index
  put-finish p lo hi = elim (is_new p hi) [
    | inl old ↦
        omega (arith, old_fields p lo old, v.finish p lo old, indices.data_write, room.forward)
    | inr e ↦
        subst (λ x. data_end after x ≤ after.data_ring.write_index) e
          (omega (arith, new_fields, indices.data_write))
  ]

  abbrev InOnePiece : ℕ → Type 0
  InOnePiece p =
      cell after.data_ring.view (desc_at after p).offset + (desc_at after p).size
      ≤ after.data_ring.view.size

  put-piece : (p : ℕ) → a ≤ p → p < t + 1 → InOnePiece p
  put-piece p lo hi = elim (is_new p hi) [
    | inl old ↦ omega (arith, old_fields p lo old, v.piece p lo old, indices.data_size)
    | inr e ↦
        subst InOnePiece e
          (omega (arith, new_fields, room.contiguous, size_kept, indices.data_size))
  ]

  put-order : (p q : ℕ) → a ≤ p → p < q → q < t + 1 → data_end after p ≤ (desc_at after q).offset
  put-order p q lo lt hi = elim (is_new q hi) [
    | inl old ↦ omega (
      arith,
      old_fields p lo (omega arith),
      old_fields q (omega arith) old,
      v.order p q lo lt old,
    )
    | inr e ↦
        subst (λ x. data_end after p ≤ (desc_at after x).offset) e
          (omega (
            arith,
            old_fields p lo (omega arith),
            new_fields,
            v.finish p lo (omega arith),
            room.forward,
          ))
  ]

  -- Storing a component that fits extends the channel by it.
  pub put_component-IsChannel : IsChannel a (t + 1) after
  put_component-IsChannel = record {
    descs = after-descs;
    bytes = after-bytes;
    desc_read = indices.desc_read;
    desc_write = indices.desc_write;
    start = put-start;
    finish = put-finish;
    piece = put-piece;
    order = put-order;
  }

  linear :
      (p : ℕ)
      → a ≤ p
      → p < t + 1
      → stored_content after p
        ≡ read (at after.data_ring.view) (desc_at after p).offset (desc_at after p).size
  linear p lo hi =
      read-cell after.data_ring.view (desc_at after p).offset (desc_at after p).size
        after-bytes.ring (put-piece p lo hi)

  appended : read (at after.data_ring.view) skipped.write_index (length c.content) ≡ c.content
  unfolding put_component
  appended = (read-append skipped room.managed c.content data_room count_room).0

  -- A worker reads the component just stored.
  pub stored_content-put : stored_content after t ≡ c.content
  stored_content-put =
      linear t (omega (arith, v.descs.behind, v.desc_read, v.desc_write)) (omega arith)
      ∙ ap₂ (read (at after.data_ring.view)) new_fields.0 (new_fields.1 ∙ sym sized)
      ∙ appended

  -- What workers read of the positions stored before stays as it was.
  pub stored_content-put_old :
      (p : ℕ) → a ≤ p → p < t → stored_content after p ≡ stored_content ch p
  stored_content-put_old p lo hi =
      linear p lo (omega arith)
      ∙ ap₂ (read (at after.data_ring.view)) (old_fields p lo hi).0 (old_fields p lo hi).1
      ∙ read_eq (at after.data_ring.view) (at ch.data_ring.view) (desc_at ch p).offset
          (desc_at ch p).size
          (λ j from upto.
            byte_at-put_old j (omega (arith, v.start p lo hi)) (omega (arith, v.finish p lo hi)))
      ∙ sym (
          read-cell ch.data_ring.view (desc_at ch p).offset (desc_at ch p).size v.bytes.ring
            (v.piece p lo hi))
