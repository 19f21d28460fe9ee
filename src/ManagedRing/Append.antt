-- ===== src/ManagedRing/Append.antt =====
-- What a managed ring holds after an append: the new entries behind the old ones, read on the
-- running indices, however they are cut at the border.
use flesnet.Base.{
  ℕ, ◌+◌, ◌-◌, ◌≤◌, ◌<◌, ◌≡◌, refl, ap, ◌∙◌, inl, inr, false, List, [], ◌∷◌, arith, leb, leb→le,
  le→leb, Bool-cases, length, take, drop, take-append-drop, length-take, length-drop, read, write,
  write_before, read-write, read_eq, u64_mod, add64,
}
use flesnet.Ring.{RingBuffer, IsRing, cell, at, set_at}
use flesnet.Ring.Cells.{cell-lt-size}
use flesnet.Ring.Blocks.{copy, copy-IsRing, at-copy, at-copy_wrap}
use flesnet.ManagedRing.{ManagedRingBuffer, IsManaged, append, append_item}

module _ {ℓ} {A : Type ℓ} (r : ManagedRingBuffer A) (v : IsManaged r) where
  -- Within one buffer size, `append` is a write to the linear memory of the running indices.
  pub at-append :
      (xs : List A) (p : ℕ)
      → length xs ≤ r.view.size
      → r.write_index + r.view.size < u64_mod
      → r.write_index + length xs ≤ p + r.view.size
      → p < r.write_index + r.view.size
      → at (append r xs).view p ≡ write (at r.view) r.write_index xs p
  unfolding append
  at-append xs p fits room lo hi = elim (Bool-cases (leb (cell r.view w + length xs) r.view.size)) [
    | inl one ↦ rw one (at-copy r.view w xs p v.ring (leb→le _ _ one) lo hi)
    | inr two ↦
        rw (two, first_size two)
          (at-copy_wrap r.view w (take a xs) (drop a xs) p v.ring
              (ground (arith, first_length two, cell-lt-size r.view w v.ring))
              (ground (arith, both_lengths)) (omega (arith, both_lengths)) hi
            ∙ ap (λ ys. write (at r.view) w ys p) (take-append-drop a xs))
  ]
    where
      w : ℕ
      w = r.write_index

      a : ℕ
      a = r.view.size - cell r.view w

      first_length : leb (cell r.view w + length xs) r.view.size ≡ false → length (take a xs) ≡ a
      first_length two = ground (arith, length-take a xs)

      first_size :
          leb (cell r.view w + length xs) r.view.size ≡ false → add64 w a ≡ w + length (take a xs)
      first_size two = omega (arith, first_length two)

      both_lengths : length (take a xs) + length (drop a xs) ≡ length xs
      both_lengths = omega (arith, length-take a xs, length-drop a xs)

  pub append-IsManaged :
      (xs : List A)
      → r.write_index + length xs ≤ r.read_index + r.view.size
      → r.write_index + r.view.size < u64_mod
      → IsManaged (append r xs)
  unfolding append
  append-IsManaged xs fits room =
      elim (Bool-cases (leb (cell r.view r.write_index + length xs) r.view.size)) [
        | inl one ↦
            rw one (
              grown (copy r.view r.write_index xs) refl
                (copy-IsRing r.view r.write_index xs v.ring))
        | inr two ↦ rw two (
            grown _ refl (
              copy-IsRing _ (add64 r.write_index a) (drop a xs)
                (copy-IsRing r.view r.write_index (take a xs) v.ring)))
      ]
    where
      a : ℕ
      a = r.view.size - cell r.view r.write_index

      grown :
          (ring : RingBuffer A)
          → ring.size ≡ r.view.size
          → IsRing ring
          → IsManaged (record r { view = ring; write_index = add64 r.write_index (length xs) })
      grown ring e h = record {
        ring = h;
        behind = omega (arith, v.behind, v.within);
        within = omega (arith, v.behind);
        index_fits = omega arith;
        size_fits = omega (arith, v.size_fits);
      }

  -- `append` moves the write index, and neither the read index nor the size.
  pub append_indices :
      (xs : List A)
      → ((append r xs).read_index ≡ r.read_index)
        × ((append r xs).view.size ≡ r.view.size)
        × ((append r xs).write_index ≡ add64 r.write_index (length xs))
  unfolding append
  append_indices xs = elim (Bool-cases (leb (cell r.view r.write_index + length xs) r.view.size)) [
    | inl one ↦ rw one (refl, refl, refl)
    | inr two ↦ rw two (refl, refl, refl)
  ]

  -- The entries appended are read back from the old write index on, and those that were not read
  -- yet are as before.
  pub read-append :
      (xs : List A)
      → r.write_index + length xs ≤ r.read_index + r.view.size
      → r.write_index + r.view.size < u64_mod
      → (read (at (append r xs).view) r.write_index (length xs) ≡ xs)
        × ((p : ℕ) → r.read_index ≤ p → p < r.write_index → at (append r xs).view p ≡ at r.view p)
  read-append xs fits room = (
    read_eq (at (append r xs).view) (write (at r.view) r.write_index xs) r.write_index (length xs)
          (λ p lo hi.
            at-append xs p (omega (arith, v.behind)) room (omega (arith, v.behind))
              (omega (arith, v.behind)))
        ∙ read-write (at r.view) r.write_index xs,
    λ p lo hi.
        at-append xs p (omega (arith, v.behind)) room (omega (arith, v.behind))
          (omega (arith, v.behind))
        ∙ write_before (at r.view) r.write_index xs p hi,
  )

  -- `append(item)` is the append of one entry.
  pub append_item-eq : (item : A) → append_item r item ≡ append r (item ∷ [])
  unfolding append_item append set_at
  append_item-eq item = rw (
      le→leb _ _ (
        let h : cell r.view r.write_index + 1 ≤ r.view.size =
          omega (arith, cell-lt-size r.view r.write_index v.ring) in
        h))
