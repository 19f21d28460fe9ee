-- ===== src/ManagedRing/Space.antt =====
-- How much space a managed ring reports, and what skipping to the border leaves.
use flesnet.Base.{
  ℕ, ◌+◌, ◌-◌, ◌≤◌, ◌<◌, bit_and, ◌≡◌, refl, ap, inl, inr, arith, ltb, ltb→lt, Bool-cases, u64_mod,
  add64,
}
use flesnet.Ring.{cell}
use flesnet.Ring.Cells.{cell-lt-size}
use flesnet.Ring.Blocks.{cell-border}
use flesnet.ManagedRing.{
  ManagedRingBuffer, IsManaged, size_used, size_available, size_available_contiguous, offset,
  skip_buffer_wrap,
}

module _ {ℓ} {A : Type ℓ} (r : ManagedRingBuffer A) (v : IsManaged r) where
  -- The two ways in which the source writes the cell of the write index agree.
  pub offset-eq-cell : offset r ≡ cell r.view r.write_index
  offset-eq-cell = ap (bit_and r.write_index) (omega (arith, v.ring.size_eq, v.ring.mask_eq))

  pub offset-lt-size : offset r < r.view.size
  offset-lt-size = omega (arith, offset-eq-cell, cell-lt-size r.view r.write_index v.ring)

  -- The space in use and the space available make up the buffer, and neither wraps.
  pub used-add-available :
      (r.read_index + size_used r ≡ r.write_index) × (size_used r + size_available r ≡ r.view.size)
  unfolding size_used size_available
  used-add-available = omega arith

  -- What is reported as contiguous is never more than what is available.
  pub contiguous-le-available : size_available_contiguous r ≤ size_available r
  unfolding size_available_contiguous
  contiguous-le-available = ground (arith, used-add-available)

  -- `n` entries fit behind the write index of `s`: before the border, and in the free space of `r`.
  pub record HasRoom (n : ℕ) (s : ManagedRingBuffer A) : Type ℓ where
    pub managed : IsManaged s
    pub view_eq : s.view ≡ r.view
    pub read_eq : s.read_index ≡ r.read_index
    pub forward : r.write_index ≤ s.write_index
    pub contiguous : cell s.view s.write_index + n ≤ s.view.size
    pub free : s.write_index + n ≤ s.read_index + s.view.size

  fits_at_border :
      (n : ℕ)
      → n ≤ size_available_contiguous r
      → r.view.size < offset r + n
      → r.write_index + (r.view.size - offset r) + n ≤ r.read_index + r.view.size
  unfolding size_available_contiguous
  fits_at_border n h over = ground (arith, used-add-available, offset-lt-size)

  fits_here :
      (n : ℕ) → n ≤ size_available_contiguous r → r.write_index + n ≤ r.read_index + r.view.size
  fits_here n h = omega (arith, used-add-available, contiguous-le-available)

  -- If `n` entries are reported to fit, then after the skip they fit before the border and in the
  -- free space, and the skip does not pass the read index.
  pub skip_makes_room :
      (n : ℕ)
      → n ≤ size_available_contiguous r
      → r.write_index + r.view.size < u64_mod
      → HasRoom n (skip_buffer_wrap r n)
  unfolding skip_buffer_wrap
  skip_makes_room n h room = elim (Bool-cases (ltb r.view.size (offset r + n))) [
    | inl over ↦ rw over (record {
      managed = record {
        ring = v.ring;
        behind = omega (arith, moved, v.behind);
        within = omega (arith, moved, fits_at_border n h (ltb→lt _ _ over));
        index_fits = omega arith;
        size_fits = v.size_fits;
      };
      view_eq = refl;
      read_eq = refl;
      forward = omega (arith, moved);
      contiguous = omega (
        arith,
        ap (cell r.view) moved,
        ap (λ o. cell r.view (r.write_index + (r.view.size - o))) offset-eq-cell,
        cell-border r.view r.write_index v.ring,
        v.size_fits,
        ltb→lt _ _ over,
        fits_at_border n h (ltb→lt _ _ over),
        v.behind,
      );
      free = omega (arith, moved, fits_at_border n h (ltb→lt _ _ over));
    })
    | inr under ↦ rw under (record {
      managed = v;
      view_eq = refl;
      read_eq = refl;
      forward = omega arith;
      contiguous = ground (arith, offset-eq-cell);
      free = fits_here n h;
    })
  ]
    where
      moved :
          add64 r.write_index (r.view.size - offset r) ≡ r.write_index + (r.view.size - offset r)
      moved = omega arith
