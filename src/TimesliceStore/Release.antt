-- ===== src/TimesliceStore/Release.antt =====
-- Releasing the oldest components of a channel keeps the others in place.
use flesnet.Base.{ℕ, ◌-◌, ◌≤◌, ◌<◌, ◌≡◌, refl, ap, ◌∙◌, arith, u64_mod, add64, sub64}
use flesnet.ManagedRing.{set_read_index}
use flesnet.TimesliceStore.{Channel, release}
use flesnet.TimesliceStore.Region.{IsChannel, Counts, stored_content, desc_at, data_end}

-- Releasing the positions below `b` keeps the others.
pub release-IsChannel :
    (a b t : ℕ) (ch : Channel)
    → IsChannel a t ch
    → a < b
    → b ≤ t
    → t < u64_mod
    → IsChannel b t (release b ch)
unfolding release set_read_index
release-IsChannel a b t ch v lo hi fits = record {
  descs = record {
    ring = v.descs.ring;
    behind = omega (arith, v.desc_write);
    within = omega (arith, v.descs.within, v.desc_read);
    index_fits = v.descs.index_fits;
    size_fits = v.descs.size_fits;
  };
  bytes = record {
    ring = v.bytes.ring;
    behind = omega (arith, moved, v.finish last (omega arith) (omega arith));
    within = omega (arith, moved, v.bytes.within, v.start last (omega arith) (omega arith));
    index_fits = v.bytes.index_fits;
    size_fits = v.bytes.size_fits;
  };
  desc_read = refl;
  desc_write = v.desc_write;
  start = λ p h k. omega (arith, moved, v.order last p (omega arith) (omega arith) k);
  finish = λ p h k. v.finish p (omega arith) k;
  piece = λ p h k. v.piece p (omega arith) k;
  order = λ p q h k l. v.order p q (omega arith) k l;
}
  where
    last : ℕ
    last = b - 1

    predecessor : sub64 b 1 ≡ last
    predecessor = omega arith

    moved : add64 (desc_at ch (sub64 b 1)).offset (desc_at ch (sub64 b 1)).size ≡ data_end ch last
    moved =
        ap (λ p. add64 (desc_at ch p).offset (desc_at ch p).size) predecessor
        ∙ omega (arith, v.finish last (omega arith) (omega arith), v.bytes.index_fits)

-- A release changes no descriptor and no byte.
pub stored_content-release :
    (b : ℕ) (ch : Channel) (p : ℕ) → stored_content (release b ch) p ≡ stored_content ch p
unfolding release set_read_index
stored_content-release b ch p = refl

pub size-release : (b : ℕ) (ch : Channel) → (release b ch).desc.view.size ≡ ch.desc.view.size
unfolding release set_read_index
size-release b ch = refl

pub Counts-release : (b : ℕ) (ch : Channel) → Counts ch → Counts (release b ch)
unfolding release set_read_index
Counts-release b ch h = h
