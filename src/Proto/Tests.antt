-- ===== src/Proto/Tests.antt =====
-- Runs of the frame protocol at concrete inputs.
use vtun.Common.{
  ◌≡◌, ◌≤◌, ◌+◌, ◌++◌, refl, false, true, List, [], ◌∷◌, some, Bytes, pos, replicate, arith, inl,
  inr,
}
use native.Mathlib.Bridge.{le_by_compare, IsLe}
use vtun.Host.{vtun_frame_size, vtun_frame_overhead}
use vtun.Io.{Event, moves, again, Conn, read_n}
use vtun.Proto.Tcp.{htons, tcp_read}
use vtun.Proto.Tcp.Header.{fed}
use vtun.Proto.Tcp.Frames.{Frame, wires, send_all, receive_all, frames_in_order}
use vtun.Proto.Tcp.Oversized.{Dropped, oversized-Dropped}
use vtun.Proto.Tcp.Bounds.{tcp_read-bound}
use vtun.Proto.Udp.{Outcome, succeeds, retry, Socket, udp_read, udp_write}
use vtun.Proto.Udp.Frames.{udp_frame, queued}

abbrev idle : Conn
idle = record { canceled = false; input = []; output = [] }

abbrev three_frames : List Frame
three_frames =
    record { len = 3; payload = 7 ∷ 8 ∷ 9 ∷ [] }
    ∷ record { len = 0x2000; payload = [] }
    ∷ record { len = 1; payload = 255 ∷ [] }
    ∷ []

abbrev steps : List Event
steps = again ∷ moves 3 ∷ replicate 12 (moves 2)

frames_in_order_example :
    (w' : Conn) × (send_all steps idle three_frames ≡ some w')
    × (receive_all 3 [] steps (fed idle (w'.output ++ 5 ∷ []))
        ≡ some (three_frames, fed idle (5 ∷ [])))
frames_in_order_example =
    frames_in_order steps steps idle idle [] (5 ∷ []) three_frames (omega arith) (omega arith) refl
      refl refl (omega arith) (omega arith)
      (
        inl (refl, omega arith),
        (inr (omega arith, omega arith, refl, refl), (inl (refl, omega arith), tt)),
      )

oversized-Dropped_example :
    Dropped
      (tcp_read [] (replicate 2200 (moves 1)) (fed idle (htons 2149 ++ replicate 2149 0 ++ 1 ∷ [])))
      idle
      (1 ∷ [])
unfolding IsLe
oversized-Dropped_example =
    oversized-Dropped [] (replicate 2200 (moves 1)) idle 2149 (replicate 2149 0) (1 ∷ []) tt refl
      (omega arith) (omega arith) refl (le_by_compare 2151 2200 tt)

tcp_read-bound_example : 3 ≤ vtun_frame_size + vtun_frame_overhead
unfolding tcp_read read_n
tcp_read-bound_example =
    tcp_read-bound [] steps (fed idle (wires three_frames))
      (record {
        ret = pos 3;
        stored = 7 ∷ 8 ∷ 9 ∷ [];
        conn = fed idle (0x20 ∷ 0 ∷ 0 ∷ 1 ∷ 255 ∷ []);
        rest = replicate 10 (moves 2);
      })
      refl

abbrev quiet : Socket
quiet = record { is_rmt_fd_connected = true; peer = some 4; queue = []; sent = [] }

abbrev patient : List Outcome
patient = retry ∷ retry ∷ succeeds ∷ []

udp_frame_example :
    (d : Bytes) × (udp_write patient quiet (7 ∷ 8 ∷ []) 2
      ≡ some
          (record { ret = pos 4; stored = []; socket = record quiet { sent = d ∷ [] }; rest = [] }))
    × (udp_read patient (queued quiet 4 d [])
        ≡ some (record { ret = pos 2; stored = 7 ∷ 8 ∷ []; socket = quiet; rest = [] }))
udp_frame_example =
    udp_frame patient patient quiet quiet 4 [] (record { len = 2; payload = 7 ∷ 8 ∷ [] }) tt tt
      (inl (refl, omega arith))
