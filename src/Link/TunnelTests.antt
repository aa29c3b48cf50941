-- ===== src/Link/TunnelTests.antt =====
-- A run of frames through two stacks and a TCP connection.
use vtun.Common.{refl, List, [], ◌∷◌, Bytes, arith, replicate, false}
use vtun.Cipher.{ecb}
use vtun.Cipher.Rotate.{rotate}
use vtun.Io.{Event, Conn, moves, again}
use vtun.Link.Legacy.{legacy_encrypt_buf, pad_of}
use vtun.Link.Legacy.Stacked.{lfd_legacy_encrypt, legacy-Inverts}
use vtun.Link.Stack.{Module, lfd_run_down}
use vtun.Link.Stack.RoundTrip.{Mirror}
use vtun.Link.Tunnel.{Arrives, tunnel-Arrives, run_down_all}

abbrev stack : List Module
stack = lfd_legacy_encrypt rotate [] 5 ∷ lfd_legacy_encrypt rotate [] 77 ∷ []

abbrev mirror : Mirror stack stack
mirror = (legacy-Inverts rotate [] 5, (legacy-Inverts rotate [] 77, tt))

abbrev frames : List Bytes
frames = (1 ∷ 2 ∷ 3 ∷ []) ∷ (4 ∷ []) ∷ []

abbrev conn : Conn
conn = record { canceled = false; input = []; output = [] }

abbrev steps : List Event
steps = again ∷ moves 3 ∷ replicate 40 (moves 2)

tunnel-Arrives_example : Arrives stack stack frames steps steps conn conn [] (9 ∷ [])
unfolding legacy-Inverts run_down_all lfd_run_down legacy_encrypt_buf pad_of ecb
tunnel-Arrives_example =
    tunnel-Arrives stack stack mirror frames steps steps conn conn [] (9 ∷ [])
      (
        record {
          bytes = (omega arith, (omega arith, (omega arith, tt)));
          nonempty = omega arith;
          room = omega arith;
        },
        (record { bytes = (omega arith, tt); nonempty = omega arith; room = omega arith }, tt),
      )
      (omega arith) (omega arith) refl refl refl (omega arith) (omega arith)
