-- ===== src/Proto/Udp.antt =====
-- generic/udp_proto.c: `udp_write` and `udp_read`, over a datagram socket.
--
-- The datagrams that arrive are a list, each with its sender; how each system call ends is a list of
-- outcomes. `is_rmt_fd_connected` is a field of the socket.
pub mod Frames
pub mod Late
use vtun.Common.{
  ℕ, ◌+◌, ◌-◌, ◌==◌, ltb, Bool, true, false, ◌||◌, not, List, [], ◌∷◌, ◌++◌, Option, none, some,
  Bytes, ℤ, pos, negsuc, if◌then◌else◌, length, take, drop, ◌>>=◌,
}
use vtun.Common.Bits.{bit_and}
use vtun.Host.{vtun_frame_size, vtun_frame_overhead, vtun_fsize_mask, vtun_bad_frame}
use vtun.Proto.Tcp.{htons, ntohs}

-- How a system call ends: it succeeds, it is to be tried again (EAGAIN, EINTR), the buffers of the
-- kernel are full (ENOBUFS), or it fails.
pub data Outcome : Type 0 where
  succeeds retry nobufs fault : Outcome

pub record Socket : Type 0 where
  pub is_rmt_fd_connected : Bool
  -- The address that `connect` gave the socket.
  pub peer : Option ℕ
  -- The datagrams to come, with their senders.
  pub queue : List (ℕ × Bytes)
  -- The datagrams sent.
  pub sent : List Bytes

-- What a call leaves: its result, the payload stored, the socket and the outcomes to come.
pub record Left : Type 0 where
  pub ret : ℤ
  pub stored : Bytes
  pub socket : Socket
  pub rest : List Outcome

-- The loop around `write`.
pub write_datagram : List Outcome → Socket → Bytes → Option Left
write_datagram [] s d = none
write_datagram (retry ∷ os) s d = write_datagram os s d
write_datagram (nobufs ∷ os) s d = some (record { ret = pos 0; stored = []; socket = s; rest = os })
write_datagram (fault ∷ os) s d =
    some (record { ret = negsuc 0; stored = []; socket = s; rest = os })
write_datagram (succeeds ∷ os) s d = some (record {
  ret = pos (length d);
  stored = [];
  socket = record s { sent = s.sent ++ d ∷ [] };
  rest = os;
})

unfoldable pub udp_write : List Outcome → Socket → Bytes → ℕ → Option Left
unfolding write_datagram
udp_write os s buf len =
    if not s.is_rmt_fd_connected
    then some (record { ret = pos 0; stored = []; socket = s; rest = os })
    else write_datagram os s (htons len ++ take (bit_and len vtun_fsize_mask) buf)

-- The loop around `recvfrom` with MSG_PEEK: the sender of the first datagram, which stays queued.
pub peek : List Outcome → Socket → Option (Option ℕ × List Outcome)
peek [] s = none
peek (retry ∷ os) s = peek os s
peek (nobufs ∷ os) s = some (none, os)
peek (fault ∷ os) s = some (none, os)
peek (succeeds ∷ os) s = elim s.queue [ [] ↦ none | d ∷ _ ↦ some (some d.0, os) ]

abbrev is_success : Outcome → Bool
is_success succeeds = true
is_success _ = false

-- `connect(fd, from)`.
connect : ℕ → List Outcome → Socket → Option Left
connect from [] s = none
connect from (o ∷ os) s =
    if is_success o
    then some (record {
      ret = pos 0;
      stored = [];
      socket = record s { is_rmt_fd_connected = true; peer = some from };
      rest = os;
    })
    else some (record { ret = negsuc 0; stored = []; socket = s; rest = os })

-- The late connect of the NAT hack; a result below 0 ends `udp_read`.
connect_late : List Outcome → Socket → Option Left
connect_late os s =
    if s.is_rmt_fd_connected
    then some (record { ret = pos 0; stored = []; socket = s; rest = os })
    else do
      (from, os') ← peek os s
      elim from [
        | none ↦ some (record { ret = negsuc 0; stored = []; socket = s; rest = os' })
        | some a ↦ connect a os' s
      ]

-- The two parts of the buffer of `readv` hold 2 + 2148 bytes; the rest of a datagram is cut off.
abbrev pub readv_size : ℕ
readv_size = 2 + (vtun_frame_size + vtun_frame_overhead)

-- What `udp_read` returns for the bytes that `readv` delivered.
abbrev pub check_frame : Bytes → ℕ
check_frame d =
    let flen = bit_and (ntohs d) vtun_fsize_mask in
    if ltb (length d) 2 || not (length d - 2 == flen) then vtun_bad_frame else ntohs d

-- The loop around `readv`.
pub read_frame : List Outcome → Socket → Option Left
read_frame [] s = none
read_frame (retry ∷ os) s = read_frame os s
read_frame (nobufs ∷ os) s = some (record { ret = negsuc 0; stored = []; socket = s; rest = os })
read_frame (fault ∷ os) s = some (record { ret = negsuc 0; stored = []; socket = s; rest = os })
read_frame (succeeds ∷ os) s = elim s.queue [
  | [] ↦ none
  | d ∷ q ↦
      let bytes = take readv_size d.1 in
      some (record {
        ret = pos (check_frame bytes);
        stored = drop 2 bytes;
        socket = record s { queue = q };
        rest = os;
      })
]

unfoldable pub udp_read : List Outcome → Socket → Option Left
unfolding peek connect connect_late read_frame
udp_read os s = do
  l ← connect_late os s
  elim l.ret [ pos _ ↦ read_frame l.rest l.socket | negsuc _ ↦ some l ]
