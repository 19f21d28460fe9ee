-- ===== src/Rdma/Pieces.antt =====
-- The pieces of memory that post_send_data of lib/fles_rdma/InputChannelSender.cpp makes: they are
-- the entries of the ring, one behind the other.
use mathlib.Core.List.{append-nil, append_assoc}
use native.Mathlib.Nat.{add-mul, mul-add}
use flesnet.Base.{
  ℕ, zero, suc, ◌+◌, ◌-◌, ◌*◌, ◌%◌, ◌^◌, ◌≤◌, ◌<◌, ◌≡◌, refl, sym, ap, ◌∙◌, inl, inr, true, false,
  List, [], ◌++◌, arith, leb, leb→le, le→leb, Bool-cases, read, read-add, u64_mod, add64, sub64,
}
use flesnet.Ring.{RingBuffer, IsRing, cell}
use flesnet.Ring.Cells.{cell-lt-size}
use flesnet.Ring.Blocks.{cell-add, cell-border}
use flesnet.Rdma.Write.{chunks, gather}

-- The bytes of the cell with this number, in a ring of cells of `bytes` bytes at address `ptr`.
abbrev pub cell_bytes : (ℕ → ℕ) → ℕ → ℕ → ℕ → List ℕ
cell_bytes m ptr bytes c = read m (ptr + c * bytes) bytes

cells_bytes : (ℕ → ℕ) → ℕ → ℕ → ℕ → ℕ → List ℕ
cells_bytes m ptr bytes c zero = []
cells_bytes m ptr bytes c (suc n) = cell_bytes m ptr bytes c ++ cells_bytes m ptr bytes (c + 1) n

-- Neighbouring cells are neighbouring bytes.
cells_bytes_lem :
    (m : ℕ → ℕ) (ptr bytes c n : ℕ)
    → cells_bytes m ptr bytes c n ≡ read m (ptr + c * bytes) (bytes * n)
unfolding cells_bytes
cells_bytes_lem m ptr bytes c zero =
    ap (read m (ptr + c * bytes)) (let e : 0 ≡ bytes * 0 = omega arith in e)
cells_bytes_lem m ptr bytes c (suc n) =
    let next : ptr + (c + 1) * bytes ≡ ptr + c * bytes + bytes = omega (arith, add-mul c 1 bytes) in
    let more : bytes + bytes * n ≡ bytes * suc n = omega (arith, mul-add bytes 1 n) in
    ap (◌++◌ (cell_bytes m ptr bytes c))
      (cells_bytes_lem m ptr bytes (c + 1) n ∙ ap (λ a. read m a (bytes * n)) next)
    ∙ sym (read-add m (ptr + c * bytes) bytes (bytes * n))
    ∙ ap (read m (ptr + c * bytes)) more

module _ {A : Type 0} (m : ℕ → ℕ) (r : RingBuffer A) (ptr bytes : ℕ) where
  -- The bytes of `n` entries of the ring from index `offset` on, entry by entry.
  unfoldable pub ring_bytes : ℕ → ℕ → List ℕ
  ring_bytes offset zero = []
  ring_bytes offset (suc n) = cell_bytes m ptr bytes (cell r offset) ++ ring_bytes (offset + 1) n

  ring_bytes-add :
      (offset k n : ℕ)
      → ring_bytes offset (k + n) ≡ ring_bytes offset k ++ ring_bytes (offset + k) n
  unfolding ring_bytes
  ring_bytes-add offset zero n =
      ap (ring_bytes offset) (let e : 0 + n ≡ n = omega arith in e)
      ∙ ap (λ o. ring_bytes o n) (let e : offset ≡ offset + 0 = omega arith in e)
  ring_bytes-add offset (suc k) n =
      ap (ring_bytes offset) (let e : suc k + n ≡ suc (k + n) = omega arith in e)
      ∙ ap (◌++◌ (cell_bytes m ptr bytes (cell r offset))) (
          ring_bytes-add (offset + 1) k n
          ∙ ap (λ o. ring_bytes (offset + 1) k ++ ring_bytes o n)
              (let e : offset + 1 + k ≡ offset + suc k = omega arith in e))
      ∙ sym (
          append_assoc (cell_bytes m ptr bytes (cell r offset)) (ring_bytes (offset + 1) k)
            (ring_bytes (offset + suc k) n))

  -- Entries short of the border lie one behind the other.
  run :
      (o k c : ℕ)
      → IsRing r
      → cell r o ≡ c
      → c + k ≤ r.size
      → ring_bytes o k ≡ cells_bytes m ptr bytes c k
  unfolding ring_bytes cells_bytes
  run o zero c v e h = refl
  run o (suc zero) c v e h = ap (λ x. cell_bytes m ptr bytes x ++ []) e
  run o (suc (suc k)) c v e h =
      let next : cell r (o + 1) ≡ c + 1 =
        cell-add r o 1 v (omega (arith, e, h)) ∙ ap (λ x. x + 1) e in
      ap (λ x. cell_bytes m ptr bytes x ++ ring_bytes (o + 1) (suc k)) e
      ∙ ap (◌++◌ (cell_bytes m ptr bytes c)) (run (o + 1) (suc k) (c + 1) v next (omega (arith, h)))

  ring_bytes-run :
      (offset n : ℕ)
      → IsRing r
      → cell r offset + n ≤ r.size
      → ring_bytes offset n ≡ read m (ptr + cell r offset * bytes) (bytes * n)
  ring_bytes-run offset n v h =
      run offset n (cell r offset) v refl h ∙ cells_bytes_lem m ptr bytes (cell r offset) n

  pub bytes-lt : (n : ℕ) → n ≤ r.size → bytes * r.size < 2 ^ 32 → bytes * n % 2 ^ 32 ≡ bytes * n
  bytes-lt n h small =
      let whole : n + (r.size - n) ≡ r.size = omega (arith, h) in
      omega (arith, mul-add bytes n (r.size - n), ap (λ k. bytes * k) whole, small)

  module _ (key offset n : ℕ) (v : IsRing r) (some_entry : 0 < n) (within : n ≤ r.size)
      (no_wrap : offset + n < u64_mod) (size_small : r.size < u64_mod)
      (small : bytes * r.size < 2 ^ 32) where
    one_piece :
        cell r offset + n ≤ r.size
        → gather m (chunks r ptr bytes key offset n) ≡ ring_bytes offset n
    unfolding gather chunks
    one_piece h =
        let last : sub64 (add64 offset n) 1 ≡ offset + (n - 1) =
          omega (arith, some_entry, no_wrap) in
        let at_last = cell-add r offset (n - 1) v (omega (arith, h, some_entry)) in
        let ordered : leb (cell r offset) (cell r (sub64 (add64 offset n) 1)) ≡ true =
          le→leb (cell r offset) (cell r (sub64 (add64 offset n) 1))
            (omega (arith, ap (cell r) last, at_last)) in
        rw (ordered, bytes-lt n within small)
          (append-nil (read m (ptr + cell r offset * bytes) (bytes * n))
            ∙ sym (ring_bytes-run offset n v h))

    two_pieces :
        r.size < cell r offset + n
        → gather m (chunks r ptr bytes key offset n) ≡ ring_bytes offset n
    unfolding gather chunks
    two_pieces h =
        let k = r.size - cell r offset in
        let below = cell-lt-size r offset v in
        let last : sub64 (add64 offset n) 1 ≡ offset + k + (n - 1 - k) =
          omega (arith, some_entry, no_wrap, h, below) in
        let border = cell-border r offset v in
        let at_last = cell-add r (offset + k) (n - 1 - k) v (omega (arith, border, h, within)) in
        let turned : leb (cell r offset) (cell r (sub64 (add64 offset n) 1)) ≡ false =
          ground (arith, ap (cell r) last, at_last, border, h, below, within) in
        let rest : add64 (sub64 n r.size) (cell r offset) ≡ n - k =
          ground (arith, h, below, within, no_wrap, size_small) in
        let cut : k + (n - k) ≡ n = omega (arith, h, below) in
        rw
          (
            turned,
            rest,
            bytes-lt k (omega arith) small,
            bytes-lt (n - k) (omega (arith, within)) small,
          )
          (ap (λ xs. read m (ptr + cell r offset * bytes) (bytes * k) ++ xs)
              (append-nil (read m ptr (bytes * (n - k)))
                ∙ second (n - k) border (omega (arith, within, h, below)))
            ∙ ap (λ xs. xs ++ ring_bytes (offset + k) (n - k))
                (sym (ring_bytes-run offset k v (omega (arith, below))))
            ∙ sym (ring_bytes-add offset k (n - k))
            ∙ ap (ring_bytes offset) cut)
      where
        second :
            (j : ℕ)
            → cell r (offset + (r.size - cell r offset)) ≡ 0
            → j ≤ r.size
            → read m ptr (bytes * j) ≡ ring_bytes (offset + (r.size - cell r offset)) j
        second j at_start fits =
            let start : ptr + cell r (offset + (r.size - cell r offset)) * bytes ≡ ptr =
              ap (λ c. ptr + c * bytes) at_start
              ∙ (let e : ptr + 0 * bytes ≡ ptr = omega arith in e) in
            ap (λ a. read m a (bytes * j)) (sym start)
            ∙ sym (
                ring_bytes-run (offset + (r.size - cell r offset)) j v
                  (omega (arith, at_start, fits)))

    -- The pieces of entries of a ring are their bytes, also where they are cut at the border.
    pub gather-chunks : gather m (chunks r ptr bytes key offset n) ≡ ring_bytes offset n
    gather-chunks = elim (Bool-cases (leb (cell r offset + n) r.size)) [
      | inl inside ↦ one_piece (leb→le (cell r offset + n) r.size inside)
      | inr over ↦ two_pieces (ground (arith, over))
    ]
