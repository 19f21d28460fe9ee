-- ===== src/Filters/Combine.antt =====
-- The example filters: what they make of a whole stream.
use flesnet.Base.{
  ℕ, ◌+◌, ◌%◌, ◌^◌, ◌≤◌, ◌≡◌, refl, ap, ◌∙◌, some, List, [], ◌∷◌, ◌++◌, map, arith, length, take,
  length-append, All, take_all, add32,
}
use mathlib.Core.Option
use mathlib.Core.List.{append-nil, append_assoc}
use flesnet.MicrosliceStream.{Microslice}
use flesnet.Filters.{
  exchange_item, put_more, put, put_all, override_desc, exchange_override, storable, combine,
  combine_loop, process,
}
use flesnet.Filters.Push.{outputs, kept, burst, put_all-outputs}

-- As many bytes as the descriptor tells of.
unfoldable pub IsWhole : Microslice → Type 0
IsWhole m = length m.content ≡ m.desc.size

-- One microslice with the bytes of two, and otherwise the descriptor of the first.
abbrev pub joined : Microslice → Microslice → Microslice
joined m1 m2 = record {
  desc = record (m1.desc) { size = (m1.desc.size + m2.desc.size) % 2 ^ 32 };
  content = m1.content ++ m2.content;
}

-- Two neighbours for one, and what is left over.
abbrev pub pairs : List Microslice → List Microslice
pairs [] = []
pairs (m ∷ []) = []
pairs (m1 ∷ m2 ∷ l) = joined m1 m2 ∷ pairs l

abbrev pub left_over : List Microslice → List Microslice
left_over [] = []
left_over (m ∷ []) = m ∷ []
left_over (m1 ∷ m2 ∷ l) = left_over l

-- All bytes of a stream.
abbrev pub bytes_of : List Microslice → List ℕ
bytes_of [] = []
bytes_of (m ∷ l) = m.content ++ bytes_of l

combine-joined : (m1 m2 : Microslice) → IsWhole m1 → IsWhole m2 → combine m1 m2 ≡ joined m1 m2
unfolding combine storable IsWhole
combine-joined m1 m2 h k =
    let desc = record (m1.desc) { size = add32 m1.desc.size m2.desc.size } in
    let first = take_all m1.desc.size m1.content (omega (arith, h)) in
    let second = take_all m2.desc.size m2.content (omega (arith, k)) in
    ap (λ x. storable desc (x ++ take m2.desc.size m2.content)) first
    ∙ ap (λ x. storable desc (m1.content ++ x)) second
    ∙ ap
        (λ n. record {
          desc = record (m1.desc) { size = n % 2 ^ 32 };
          content = m1.content ++ m2.content;
        })
        (length-append m1.content m2.content
          ∙ ap (λ n. n + length m2.content) h
          ∙ ap (λ n. m1.desc.size + n) k)

outputs-pairs :
    (xs : List Microslice)
    → All IsWhole xs
    → (outputs process [] xs ≡ pairs xs) × (kept process [] xs ≡ left_over xs)
unfolding process combine_loop
outputs-pairs [] h = (refl, refl)
outputs-pairs (m ∷ []) h = (refl, refl)
outputs-pairs (m1 ∷ m2 ∷ xs) (h1, (h2, h)) =
    let rest = outputs-pairs xs h in
    (
      ap (λ l. combine m1 m2 ∷ l) (rest.0) ∙ ap (λ m. m ∷ pairs xs) (combine-joined m1 m2 h1 h2),
      rest.1,
    )

pairs-bytes_of :
    (xs : List Microslice) → bytes_of (pairs xs) ++ bytes_of (left_over xs) ≡ bytes_of xs
pairs-bytes_of [] = refl
pairs-bytes_of (m ∷ []) = refl
pairs-bytes_of (m1 ∷ m2 ∷ xs) =
    append_assoc (m1.content ++ m2.content) (bytes_of (pairs xs)) (bytes_of (left_over xs))
    ∙ ap (λ l. (m1.content ++ m2.content) ++ l) (pairs-bytes_of xs)
    ∙ append_assoc m1.content m2.content (bytes_of xs)

burst-bound : (xs : List Microslice) → burst process [] xs ≤ length xs
unfolding process combine_loop
burst-bound [] = omega arith
burst-bound (m ∷ []) = omega arith
burst-bound (m1 ∷ m2 ∷ xs) = omega (arith, burst-bound xs)

-- For microslices that have as many bytes as their descriptors tell, a sink behind the combining
-- filter gets one microslice for each two neighbours of the stream, in order, with the bytes of
-- both, the sum of both sizes in 32 bits, and otherwise the descriptor of the first; one that is
-- left over stays in the filter, and so all bytes of the stream are in the sink or the filter.
pub combined :
    (xs sink : List Microslice)
    → All IsWhole xs
    → (put_all (exchange_item process) (length xs) xs (record { input = []; output = [] }, sink)
        ≡ some (record { input = left_over xs; output = [] }, sink ++ pairs xs))
      × (bytes_of (pairs xs) ++ bytes_of (left_over xs) ≡ bytes_of xs)
combined xs sink h = (
  put_all-outputs process xs [] sink (length xs) (burst-bound xs)
      ∙ rw ((outputs-pairs xs h).0, (outputs-pairs xs h).1),
  pairs-bytes_of xs,
)

-- A sink behind the overriding filter gets every microslice with the identifiers changed.
pub overridden :
    (sys_id sys_ver : ℕ) (xs sink : List Microslice) (n : ℕ)
    → put_all (exchange_override sys_id sys_ver) n xs (tt, sink)
      ≡ some (tt, sink ++ map (override_desc sys_id sys_ver) xs)
unfolding put_all put put_more exchange_override Option.bind
overridden sys_id sys_ver [] sink n = rw (append-nil sink)
overridden sys_id sys_ver (m ∷ xs) sink n =
    overridden sys_id sys_ver xs (sink ++ override_desc sys_id sys_ver m ∷ []) n
    ∙ rw (
        append_assoc sink (override_desc sys_id sys_ver m ∷ [])
          (map (override_desc sys_id sys_ver) xs))
