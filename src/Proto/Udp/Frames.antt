-- ===== src/Proto/Udp/Frames.antt =====
-- Frames over datagrams: what `udp_write` sends is what `udp_read` delivers.
use vtun.Common.{
  ℕ, ◌+◌, ◌%◌, ◌^◌, ◌≤◌, ◌<◌, ◌≡◌, refl, ap, ◌∙◌, true, List, [], ◌∷◌, ◌++◌, some, Bytes, pos,
  negsuc, length, take, drop, arith, ◌⊎◌, inl, inr, take-of_le, subst, List-cases, length-drop,
  length-take,
}
use vtun.Common.Masks.{bit_and_0fff}
use vtun.Host.{vtun_bad_frame}
use vtun.Proto.Tcp.{ntohs}
use vtun.Proto.Tcp.Frames.{Frame, IsFrame, wire, take_payload, size_le}
use vtun.Proto.Udp.{
  write_datagram, read_frame, Outcome, succeeds, retry, nobufs, fault, Socket, Left, udp_write,
  udp_read, check_frame,
}

-- Retries, and then success.
abbrev pub IsPatient : List Outcome → Type 0
IsPatient [] = ⊥
IsPatient (retry ∷ os) = IsPatient os
IsPatient (succeeds ∷ os) = Unit
IsPatient (nobufs ∷ os) = ⊥
IsPatient (fault ∷ os) = ⊥

-- The outcomes behind the first success.
abbrev pub after : List Outcome → List Outcome
after [] = []
after (succeeds ∷ os) = os
after (_ ∷ os) = after os

ntohs-wire : (f : Frame) → f.len < 2 ^ 16 → ntohs (wire f) ≡ f.len
ntohs-wire f h = omega arith

pub check_frame-wire : (f : Frame) → IsFrame f → check_frame (wire f) ≡ f.len
check_frame-wire f (inl d) = ground (arith, bit_and_0fff (ntohs (wire f)))
check_frame-wire f (inr g) =
    ground (arith, bit_and_0fff (ntohs (wire f)), ntohs-wire f g.1, g.2, ap length g.3)

-- The call of `readv` that succeeds takes the first datagram.
pub read_frame-patient :
    (os : List Outcome) (s : Socket) (a : ℕ) (d : Bytes) (q : List (ℕ × Bytes))
    → IsPatient os
    → read_frame os (record s { queue = (a, d) ∷ q })
      ≡ some (record {
        ret = pos (check_frame (take 2150 d));
        stored = drop 2 (take 2150 d);
        socket = record s { queue = q };
        rest = after os;
      })
unfolding read_frame
read_frame-patient [] s a d q p = absurd p
read_frame-patient (retry ∷ os) s a d q p = read_frame-patient os s a d q p
read_frame-patient (succeeds ∷ os) s a d q p = refl
read_frame-patient (nobufs ∷ os) s a d q p = absurd p
read_frame-patient (fault ∷ os) s a d q p = absurd p

write_patient :
    (os : List Outcome) (s : Socket) (d : Bytes)
    → IsPatient os
    → write_datagram os s d
      ≡ some (record {
        ret = pos (length d);
        stored = [];
        socket = record s { sent = s.sent ++ d ∷ [] };
        rest = after os;
      })
unfolding write_datagram
write_patient [] s d p = absurd p
write_patient (retry ∷ os) s d p = write_patient os s d p
write_patient (succeeds ∷ os) s d p = refl
write_patient (nobufs ∷ os) s d p = absurd p
write_patient (fault ∷ os) s d p = absurd p

-- The same socket with `is_rmt_fd_connected` set, and with a queue.
abbrev pub connected : Socket → Socket
connected s = record s { is_rmt_fd_connected = true }

abbrev pub queued : Socket → ℕ → Bytes → List (ℕ × Bytes) → Socket
queued s a d q = record s { queue = (a, d) ∷ q }

-- One call of `udp_write` on a connected socket sends a frame as one datagram, after any number of
-- retries, and one call of `udp_read` that finds this datagram first in its queue returns the length
-- word and stores the payload.
pub udp_frame :
    (ws rs : List Outcome) (w r : Socket) (a : ℕ) (q : List (ℕ × Bytes)) (f : Frame)
    → IsPatient ws
    → IsPatient rs
    → IsFrame f
    → (d : Bytes) × (udp_write ws (connected w) f.payload f.len
        ≡ some (record {
          ret = pos (2 + length f.payload);
          stored = [];
          socket = record (connected w) { sent = w.sent ++ d ∷ [] };
          rest = after ws;
        }))
      × (udp_read rs (queued (connected r) a d q)
          ≡ some (record {
            ret = pos f.len;
            stored = f.payload;
            socket = record (connected r) { queue = q };
            rest = after rs;
          }))
unfolding udp_write udp_read
udp_frame ws rs w r a q f pw pr ok = (
  wire f,
  rw (take_payload f ok) (write_patient ws (connected w) (wire f) pw ∙ ground arith),
  read_frame-patient rs (connected r) a (wire f) q pr
      ∙ rw (take-of_le 2148 f.payload (size_le f ok).2, check_frame-wire f ok),
)

-- What an accepted call of `udp_read` stored.
abbrev pub IsSized : Left → Type 0
IsSized l =
    (l.ret ≡ negsuc 0)
    ⊎ (l.ret ≡ pos vtun_bad_frame)
    ⊎ ((h : ℕ) × (l.ret ≡ pos h) × (length l.stored ≡ h % 4096) × (length l.stored ≤ 2148))

check_frame-sized :
    (d : Bytes)
    → (check_frame d ≡ vtun_bad_frame)
      ⊎ ((length d ≡ 2 + check_frame d % 4096) × (check_frame d ≡ ntohs d))
check_frame-sized d = ground (arith, bit_and_0fff (ntohs d))

-- What a call of `readv` that succeeds leaves.
abbrev delivered : Bytes → Socket → List Outcome → Left
delivered d s os = record {
  ret = pos (check_frame (take 2150 d));
  stored = drop 2 (take 2150 d);
  socket = s;
  rest = os;
}

delivered-IsSized : (d : Bytes) (s : Socket) (os : List Outcome) → IsSized (delivered d s os)
delivered-IsSized d s os = elim (check_frame-sized (take 2150 d)) [
  | inl bad ↦ inr (inl (ap pos bad))
  | inr good ↦ inr (
      inr (
        check_frame (take 2150 d),
        refl,
        omega (arith, length-drop 2 (take 2150 d), good.0),
        omega (arith, length-drop 2 (take 2150 d), length-take 2150 d),
      ))
]

read_frame-IsSized :
    (os : List Outcome) (s : Socket) (l : Left) → read_frame os s ≡ some l → IsSized l
unfolding read_frame
read_frame-IsSized [] s l e = cc
read_frame-IsSized (retry ∷ os) s l e = read_frame-IsSized os s l e
read_frame-IsSized (nobufs ∷ os) s l e = inl (ground arith)
read_frame-IsSized (fault ∷ os) s l e = inl (ground arith)
read_frame-IsSized (succeeds ∷ os) s l e = elim (List-cases s.queue) [
  | inl empty ↦ ground (arith, empty)
  | inr (d, q, first) ↦
      let left = delivered d.1 (record s { queue = q }) os in
      let e' : left ≡ l = ground (arith, first, e) in
      subst IsSized e' (delivered-IsSized d.1 (record s { queue = q }) os)
]

-- Whatever arrives on a connected socket and however the calls end, `udp_read` fails, reports a bad
-- frame, or returns a header whose size field is the number of bytes stored, and these fit the buffer.
pub udp_read-IsSized :
    (os : List Outcome) (s : Socket) (l : Left) → udp_read os (connected s) ≡ some l → IsSized l
unfolding udp_read
udp_read-IsSized os s l e = read_frame-IsSized os (connected s) l e
