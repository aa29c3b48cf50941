-- ===== src/Link/Compress/Tests.antt =====
-- Runs of the compression modules, with libraries that copy.
use vtun.Common.{[], ◌∷◌, replicate, arith}
use vtun.Link.Compress.Zlib.RoundTrip.{Crosses, zlib_round_trip}
use vtun.Link.Compress.Copies.{copying, roomy, roomy-Linked}

zlib_round_trip_example : Crosses copying (replicate 100 7) 0 roomy roomy (1 ∷ 2 ∷ 3 ∷ [])
zlib_round_trip_example =
    zlib_round_trip copying (replicate 100 7) 0 roomy roomy (1 ∷ 2 ∷ 3 ∷ []) roomy-Linked (record {
      bytes = (omega arith, (omega arith, (omega arith, tt)));
      nonempty = omega arith;
      room = omega arith;
    })
