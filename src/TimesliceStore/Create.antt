-- ===== src/TimesliceStore/Create.antt =====
-- A new store is valid.
use flesnet.Base.{
  ℕ, ◌+◌, ◌^◌, ◌<◌, refl, false, arith, All, length-replicate, All-replicate, u64_mod,
}
use flesnet.Ring.{alloc_with_size_exponent}
use flesnet.Ack.History.{init-IsWindow}
use flesnet.TimesliceStore.{create, fresh_channel}
use flesnet.TimesliceStore.Region.{Counts}
use flesnet.TimesliceStore.Buffer.{IsStore, Fits}

module _ (data_exp desc_exp : ℕ) (data_fits : 2 ^ data_exp + 2 ^ data_exp < u64_mod)
    (desc_fits : 2 ^ desc_exp < u64_mod) where
  fresh_channel-Fits : Fits 0 0 (2 ^ desc_exp) (fresh_channel data_exp desc_exp)
  unfolding fresh_channel alloc_with_size_exponent
  fresh_channel-Fits = (
    record {
      descs = record {
        ring = record { size_eq = refl; mask_eq = refl };
        behind = omega arith;
        within = omega arith;
        index_fits = omega arith;
        size_fits = desc_fits;
      };
      bytes = record {
        ring = record { size_eq = refl; mask_eq = refl };
        behind = omega arith;
        within = omega arith;
        index_fits = omega arith;
        size_fits = omega arith;
      };
      desc_read = refl;
      desc_write = refl;
      start = λ p h k. absurd (omega arith);
      finish = λ p h k. absurd (omega arith);
      piece = λ p h k. absurd (omega arith);
      order = λ p q h k l. absurd (omega arith);
    },
    refl,
  )

  fresh_channel-Counts : Counts (fresh_channel data_exp desc_exp)
  unfolding fresh_channel alloc_with_size_exponent
  fresh_channel-Counts = omega arith

  -- The store of the constructor is valid, and nothing is completed, where there is an input and
  -- the buffers are smaller than 2^63 bytes and 2^64 descriptors.
  pub create-IsStore :
      (n : ℕ)
      → 0 < n
      → IsStore (create n data_exp desc_exp) (λ p. false)
        × All Counts (create n data_exp desc_exp).channels
  unfolding create alloc_with_size_exponent
  create-IsStore n pos = (
    record {
      window = init-IsWindow desc_exp;
      channels_fit =
          All-replicate (Fits 0 0 (2 ^ desc_exp)) n (fresh_channel data_exp desc_exp)
            fresh_channel-Fits;
      count = length-replicate n (fresh_channel data_exp desc_exp);
      inputs = pos;
      sent_only = λ p d. cc;
      behind = omega arith;
      within = omega arith;
      pos_fits = omega arith;
    },
    All-replicate Counts n (fresh_channel data_exp desc_exp) fresh_channel-Counts,
  )
