-- ===== src/Proto/Udp/Late.antt =====
-- The delayed connect: with the NAT hack the socket is not connected before the peer has sent.
use vtun.Common.{ℕ, ◌≡◌, refl, true, false, List, [], ◌∷◌, some, Bytes, pos, take, drop}
use vtun.Proto.Udp.{
  Outcome, succeeds, retry, nobufs, fault, Socket, peek, udp_write, udp_read, check_frame,
}
use vtun.Proto.Udp.Frames.{IsPatient, after, queued, read_frame-patient}

-- The same socket before `connect`.
abbrev pub waiting : Socket → Socket
waiting s = record s { is_rmt_fd_connected = false }

peek-patient :
    (os : List Outcome) (s : Socket) (a : ℕ) (d : Bytes) (q : List (ℕ × Bytes))
    → IsPatient os
    → peek os (queued s a d q) ≡ some (some a, after os)
unfolding peek
peek-patient [] s a d q p = absurd p
peek-patient (retry ∷ os) s a d q p = peek-patient os s a d q p
peek-patient (succeeds ∷ os) s a d q p = refl
peek-patient (nobufs ∷ os) s a d q p = absurd p
peek-patient (fault ∷ os) s a d q p = absurd p

-- Before the late connect `udp_write` drops every frame. The first call of `udp_read` connects to
-- whoever sent the datagram that is first in the queue, and it is this datagram that it reads: the
-- packet that triggers the connect is not lost.
pub late_connect :
    (ps rs ws : List Outcome) (s : Socket) (a : ℕ) (d buf : Bytes) (q : List (ℕ × Bytes)) (len : ℕ)
    → IsPatient ps
    → after ps ≡ succeeds ∷ rs
    → IsPatient rs
    → (udp_write ws (waiting s) buf len
        ≡ some (record { ret = pos 0; stored = []; socket = waiting s; rest = ws }))
      × (udp_read ps (queued (waiting s) a d q)
          ≡ some (record {
            ret = pos (check_frame (take 2150 d));
            stored = drop 2 (take 2150 d);
            socket = record s { is_rmt_fd_connected = true; peer = some a; queue = q };
            rest = after rs;
          }))
unfolding udp_write udp_read
late_connect ps rs ws s a d buf q len pp connects pr = (
  refl,
  rw (peek-patient ps (waiting s) a d q pp, connects)
      (read_frame-patient rs (record s { is_rmt_fd_connected = true; peer = some a }) a d q pr),
)
