-- ===== src/Zeromq/Early.antt =====
-- The first acknowledgment of a run that starts at microslice 0.
use flesnet.Base.{
  ℕ, zero, suc, ◌+◌, ◌-◌, ◌*◌, ◌/◌, ◌%◌, ◌^◌, ◌≤◌, ◌<◌, ◌≡◌, refl, sym, ap, ◌∙◌, false, some, arith,
  le→leb, pow_pos, u64_mod, add64, sub64, mul64,
}
use native.Mathlib.Nat.{
  zero-mul, pow-suc, mul_assoc, mul_comm, add-mul, mul-add-mod_self_right, mod-eq_of_lt,
}
use flesnet.Ring.{RingBuffer, IsRing, at}
use flesnet.Ring.Cells.{cell_lem}
use flesnet.Ack.{scan}
use flesnet.Zeromq.{ComponentSender, publish, data_end, acked_to, part, ack_timeslice}

two_pow : (a e : ℕ) → 2 ^ (a + e) ≡ 2 ^ a * 2 ^ e
two_pow zero e = omega (arith, ap (λ k. 2 ^ k) (let h : 0 + e ≡ e = omega arith in h))
two_pow (suc a) e =
    ap (λ k. 2 ^ k) (let h : suc a + e ≡ suc (a + e) = omega arith in h)
    ∙ omega (
      arith,
      pow-suc 2 (a + e),
      two_pow a e,
      pow-suc 2 a,
      mul_assoc (2 ^ a) 2 (2 ^ e),
      mul_assoc 2 (2 ^ a) (2 ^ e),
      mul_comm (2 ^ a) 2,
      ap (λ x. x * 2 ^ e) (pow-suc 2 a),
    )

-- The index before 0 is that of the last cell.
last_cell : (e : ℕ) → e ≤ 64 → (u64_mod - 1) % 2 ^ e ≡ 2 ^ e - 1
last_cell e h =
    let whole : 2 ^ (64 - e) * 2 ^ e ≡ u64_mod =
      sym (two_pow (64 - e) e)
      ∙ ap (λ k. 2 ^ k) (let t : 64 - e + e ≡ 64 = omega (arith, h) in t) in
    let q = 2 ^ (64 - e) in
    let split : u64_mod - 1 ≡ (q - 1) * 2 ^ e + (2 ^ e - 1) = omega (
      arith,
      add-mul (q - 1) 1 (2 ^ e),
      ap (λ x. x * 2 ^ e) (let k : q ≡ q - 1 + 1 = omega (arith, pow_pos (64 - e)) in k),
      whole,
      pow_pos e,
    ) in
    ap (λ n. n % 2 ^ e) split
    ∙ mul-add-mod_self_right (q - 1) (2 ^ e) (2 ^ e - 1)
    ∙ mod-eq_of_lt (omega (arith, pow_pos e))

at_last :
    {A : Type 0} (r : RingBuffer A)
    → IsRing r
    → r.size_exponent ≤ 64
    → at r (u64_mod - 1) ≡ at r (r.size - 1)
unfolding at
at_last r v h =
    ap (λ c. r.buf c)
      (cell_lem r (u64_mod - 1) v
        ∙ last_cell r.size_exponent h
        ∙ sym (mod-eq_of_lt (omega (arith, pow_pos r.size_exponent)))
        ∙ ap (λ n. (n - 1) % 2 ^ r.size_exponent) (sym v.size_eq)
        ∙ sym (cell_lem r (r.size - 1) v))

one_round : (fuel : ℕ) (ack : RingBuffer ℕ) → 0 < fuel → at ack 1 ≡ 0 → scan fuel ack 0 0 ≡ some 1
unfolding scan
one_round zero ack h e = absurd (omega arith)
one_round (suc fuel) ack h e = ground (arith, e)

end_of_last :
    (s : ComponentSender)
    → IsRing s.data_source.desc_buffer
    → s.data_source.desc_buffer.size_exponent ≤ 64
    → data_end s (sub64 0 1) ≡ data_end s (s.data_source.desc_buffer.size - 1)
unfolding data_end
end_of_last s v small = ap (λ d. add64 d.offset d.size) (at_last s.data_source.desc_buffer v small)

-- A run that starts at microslice 0, before anything is acknowledged: the acknowledgment of the
-- descriptors of timeslice 0 alone takes the end of the microslice in the last cell of the descriptor
-- ring for the end of what is acknowledged, and where that is far enough it publishes it as the read
-- index of the data.
pub ack_timeslice-early :
    (s : ComponentSender)
    → IsRing s.data_source.desc_buffer
    → s.data_source.desc_buffer.size_exponent ≤ 64
    → s.acked_ts2 ≡ 0
    → s.start_index.desc ≡ 0
    → 0 < s.ack.size
    → at s.ack 1 ≡ 0
    → add64 s.cached_acked.data_index s.min_acked.data_index
      ≤ data_end s (s.data_source.desc_buffer.size - 1)
    → (s' : ComponentSender) × (ack_timeslice s 0 false ≡ some s')
      × (s'.data_source.read_index
          ≡ record { desc = 0; data_index = data_end s (s.data_source.desc_buffer.size - 1) })
unfolding ack_timeslice part acked_to publish
ack_timeslice-early s v small first start marks clear far =
    let desc : add64 (mul64 (1 / 2) s.timeslice_size) s.start_index.desc ≡ 0 =
      omega (arith, start, zero-mul s.timeslice_size) in
    (
      acked_to s 1,
      rw (first, one_round s.ack.size s.ack marks clear) refl,
      rw (desc, end_of_last s v small, le→leb _ _ far) refl,
    )
