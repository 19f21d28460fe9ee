-- ===== src/MicrosliceStream/TryPut.antt =====
-- `try_put`: a microslice is appended to the queue, or there is no space for it.
use flesnet.Base.{
  ◌+◌, ◌<◌, ◌≡◌, refl, sym, ap, subst, ◌⊎◌, inl, inr, Bool, false, List, arith, Bool-cases, length,
}
use flesnet.MicrosliceStream.{
  DualIndex, ge_dual, Microslice, Buffers, Transmitter, available, item_size, try_put,
}
use flesnet.MicrosliceStream.Transmit.{
  Queue, IsBuffers, HasIndices, IsTransmitter, Puts, put_item-Puts, refuses_full,
}

-- What a refusal leaves: nothing is changed but the cached index, and the space is short by the
-- index up to which the receiver has read.
pub record Refuses (b : Buffers) (m : Microslice) (r : Bool × Buffers × Transmitter) : Type 0 where
  pub refused : r.0 ≡ false
  pub unchanged : r.1 ≡ b
  pub transmitter : IsTransmitter b r.2
  pub full :
      (b.read_index.desc + b.desc_buffer.size < b.write_index.desc + 1)
      ⊎ (b.read_index.data_index + b.data_buffer.size < b.write_index.data_index + m.desc.size)

module _ (b : Buffers) (m : Microslice) (ms : List Microslice) (v : IsBuffers b)
    (room : HasIndices b) (q : Queue b ms) (short : m.desc.size < b.data_buffer.size)
    (sized : length m.content ≡ m.desc.size) where
  abbrev Tries : Bool × Buffers × Transmitter → Type 0
  Tries r = Puts b m ms r ⊎ Refuses b m r

  abbrev knowing : DualIndex → Transmitter
  knowing known = record { write_index = b.write_index; read_index_cached = known }

  up_to_date : IsTransmitter b (knowing b.read_index)
  up_to_date = record {
    same = refl;
    desc_cached = omega arith;
    data_cached = omega arith;
    desc_ahead = v.desc_within;
    data_ahead = v.data_within;
  }

  try_put-knowing :
      (known : DualIndex) → IsTransmitter b (knowing known) → Tries (try_put b (knowing known) m)
  unfolding try_put
  try_put-knowing known w =
      elim (Bool-cases (ge_dual (available b (knowing known)) (item_size m))) [
        | inl fits ↦
            rw (fits, try_put) (inl (put_item-Puts b known m ms v room w q short sized fits))
        | inr no_fit ↦
            elim (Bool-cases (ge_dual (available b (knowing b.read_index)) (item_size m))) [
              | inl fits ↦
                  rw (no_fit, fits, try_put)
                    (inl (put_item-Puts b b.read_index m ms v room up_to_date q short sized fits))
              | inr full ↦
                  rw (no_fit, full, try_put)
                    (inr (record {
                      refused = refl;
                      unchanged = refl;
                      transmitter = up_to_date;
                      full = refuses_full b b.read_index m ms v room up_to_date q short sized full;
                    }))
            ]
      ]

  -- `try_put` of a microslice shorter than the data buffer appends it to the queue, and both ends
  -- stay valid; or it refuses, changes nothing but the cached read index, and the space is short by
  -- the index up to which the receiver has read.
  pub try_put_lem :
      (t : Transmitter)
      → IsTransmitter b t
      → Puts b m ms (try_put b t m) ⊎ Refuses b m (try_put b t m)
  try_put_lem t w =
      subst (λ x. Tries (try_put b x m)) (sym same)
        (try_put-knowing t.read_index_cached (subst (IsTransmitter b) same w))
    where
      same : t ≡ knowing t.read_index_cached
      same = ap (λ i. record t { write_index = i }) w.same
