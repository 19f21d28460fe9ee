-- ===== src/Filters/Tests.antt =====
-- Three microslices through the combining filter.
use flesnet.Base.{ℕ, suc, ◌≤◌, ◌≡◌, refl, some, List, [], ◌∷◌, ◌++◌, map, length, All}
use flesnet.MicrosliceStream.{Microslice}
use flesnet.Filters.{exchange_item, put_all, override_desc, exchange_override, process, drain}
use flesnet.Filters.Push.{burst, kept}
use flesnet.Filters.Pull.{opened, same_stream}
use flesnet.Filters.Combine.{IsWhole, pairs, bytes_of, left_over, combined, overridden}

abbrev bytes : List ℕ → Microslice
bytes l = record {
  desc = record {
    hdr_id = 0;
    hdr_ver = 0;
    eq_id = 0;
    flags = 0;
    sys_id = 0;
    sys_ver = 0;
    idx = 0;
    crc = 0;
    size = length l;
    offset = 0;
  };
  content = l;
}

abbrev three : List Microslice
three = bytes (1 ∷ []) ∷ bytes (2 ∷ 3 ∷ []) ∷ bytes (4 ∷ []) ∷ []

three-IsWhole : All IsWhole three
unfolding IsWhole
three-IsWhole = (refl, (refl, (refl, tt)))

combined_three : pairs three ≡ bytes (1 ∷ 2 ∷ 3 ∷ []) ∷ []
combined_three = refl

combined_example :
    (put_all (exchange_item process) (length three) three (record { input = []; output = [] }, [])
      ≡ some (record { input = left_over three; output = [] }, [] ++ pairs three))
    × (bytes_of (pairs three) ++ bytes_of (left_over three) ≡ bytes_of three)
combined_example = combined three [] three-IsWhole

overridden_example :
    put_all (exchange_override 16 2) 0 three (tt, [])
    ≡ some (tt, [] ++ map (override_desc 16 2) three)
overridden_example = overridden 16 2 three [] 0

same_stream_example :
    (out : List Microslice) × ((n : ℕ)
      → burst process [] three ≤ n
      → put_all (exchange_item process) n three (record { input = []; output = [] }, [])
        ≡ some (record { input = kept process [] three; output = [] }, [] ++ out))
    × (drain (exchange_item process) (suc (length out)) (opened process three [] []) ≡ some out)
same_stream_example = same_stream process three [] []
