-- ===== src/Net/Udp.antt =====
-- netlib.c: `udp_session`, with `readn_t` of lib.c.
--
-- The ports travel over the TCP connection as two bytes in network order; the variable `port` is
-- those two bytes. `nat_hack` says whether the build has ENABLE_NAT_HACK.
use vtun.Common.{
  ℕ, ◌==◌, ◌&&◌, List, [], ◌∷◌, ◌++◌, Bytes, Bool, true, false, not, Option, none, some, ◌>>=◌, ℤ,
  pos, negsuc, ltb_ℤ, if◌then◌else◌, length, drop,
}
use vtun.Common.Bits.{bit_and}
use vtun.Host.{VtunHost}
use vtun.Io.{Event, Conn, Got, read_n, write_n}
use vtun.Proto.Tcp.{htons, ntohs}
use vtun.Session.{Session, SockAddr, Action, opens, closes, connects}
use vtun.Net.{Names, local_addr}

-- `readn_t`; `ready` is whether `select` answers more than 0.
unfoldable pub readn_t : (ready : Bool) → List Event → Conn → ℕ → Option Got
readn_t ready es c count =
    let got = read_n es c count in
    if ready then got else some (record { ret = negsuc 0; stored = []; conn = c; rest = es })

abbrev pub vtun_nat_hack_mask : ℕ
vtun_nat_hack_mask = 0xc000

-- VTUN_USE_NAT_HACK(host)
abbrev pub vtun_use_nat_hack : (enabled : Bool) → VtunHost → Bool
vtun_use_nat_hack enabled host = enabled && not (bit_and host.flags vtun_nat_hack_mask == 0)

-- What the system calls answer.
pub record Kernel : Type 0 where
  pub names : Names
  -- `socket`, or none
  pub socket : Option ℤ
  -- `getsockname(host->rmt_fd)`
  pub own : Option SockAddr
  pub binds : SockAddr → Bool
  -- `getsockname` of the socket that was bound
  pub named : SockAddr → Option SockAddr
  pub ready : Bool
  -- `getpeername(host->rmt_fd)`
  pub peer : Option SockAddr
  pub connected : SockAddr → Bool
  -- what the variable `saddr` holds at the start
  pub uninit : SockAddr

-- What a call leaves: its result, the session, the calls, the TCP connection and the events to come,
-- and `is_rmt_fd_connected`, none where it is as it was.
pub record Udp : Type 0 where
  pub ret : ℤ
  pub session : Session
  pub acts : List Action
  pub conn : Conn
  pub rest : List Event
  pub is_rmt_fd_connected : Option Bool

-- A return of -1.
abbrev pub fails : Session → List Action → Conn → List Event → Udp
fails s acts c es = record {
  ret = negsuc 0;
  session = s;
  acts = acts;
  conn = c;
  rest = es;
  is_rmt_fd_connected = none;
}

-- The local address; where it is not found the address stays as it was, and the code goes on.
unfoldable pub local_or_uninit : Kernel → Session → SockAddr × Session
unfolding local_addr
local_or_uninit k s = elim (local_addr k.names k.own true s) [
  | none ↦ (k.uninit, s)
  | some found ↦ found
]

-- The end of the call: the socket `fd` and its session take the place of the TCP socket.
unfoldable pub replace_fd : ℤ → ℤ → Session → List Action → Got → Bool → Udp
replace_fd fd rport s acts g is_connected = record {
  ret = fd;
  session = record s { rmt_fd = fd; sopt = record s.sopt { rport = rport } };
  acts = acts ++ closes s.rmt_fd ∷ [];
  conn = g.conn;
  rest = g.rest;
  is_rmt_fd_connected = some is_connected;
}

-- From `getpeername` on, with the bytes of the variable `port`.
unfoldable pub peer_session : Bool → Kernel → ℤ → Bytes → Session → Got → Udp
unfolding replace_fd
peer_session nat_hack k fd port s g = elim k.peer [
  | none ↦ fails s (opens fd ∷ []) g.conn g.rest
  | some peer ↦
      let to = record peer { port = ntohs port } in
      if vtun_use_nat_hack nat_hack s.host
      then replace_fd fd (pos (ntohs port)) s (opens fd ∷ []) g false
      else if k.connected to
      then replace_fd fd (pos (ntohs port)) s (opens fd ∷ connects fd to ∷ []) g true
      else fails s (opens fd ∷ []) g.conn g.rest
]

-- What `readn_t` stored lies over the own port.
abbrev pub over : Bytes → Bytes → Bytes
over stored old = stored ++ drop (length stored) old

-- Behind the read of the peer's port.
unfoldable pub port_read : Bool → Kernel → ℤ → Bytes → Session → Got → Udp
unfolding peer_session
port_read nat_hack k fd own s g =
    if ltb_ℤ g.ret (pos 0)
    then fails s (opens fd ∷ []) g.conn g.rest
    else peer_session nat_hack k fd (over g.stored own) s g

-- Behind the write of the own port.
unfoldable pub port_written : Bool → Kernel → ℤ → ℕ → Session → Got → Option Udp
unfolding readn_t port_read
port_written nat_hack k fd port s g =
    let named = record s { sopt = record s.sopt { lport = pos port } } in
    let answer = do
      h ← readn_t k.ready g.rest g.conn 2
      some (port_read nat_hack k fd (htons port) named h)
    in if ltb_ℤ g.ret (pos 0) then some (fails s (opens fd ∷ []) g.conn g.rest) else answer

-- Behind `bind`, where the socket has its name.
unfoldable pub named_session :
    Bool → Kernel → ℤ → SockAddr → Session → List Event → Conn → Option Udp
unfolding port_written
named_session nat_hack k fd saddr s es c = do
  g ← write_n es c (htons saddr.port)
  port_written nat_hack k fd saddr.port s g

-- Behind `bind`, with what `getsockname` answers.
abbrev pub bound : Bool → Kernel → ℤ → Session → List Event → Conn → Option SockAddr → Option Udp
bound nat_hack k fd s es c none = some (fails s (opens fd ∷ []) c es)
bound nat_hack k fd s es c (some name) = named_session nat_hack k fd name s es c

-- With what `bind` to `saddr` answers.
abbrev pub binding : Bool → Kernel → ℤ → SockAddr → Session → List Event → Conn → Bool → Option Udp
binding nat_hack k fd saddr s es c false = some (fails s (opens fd ∷ []) c es)
binding nat_hack k fd saddr s es c true = bound nat_hack k fd s es c (k.named saddr)

-- With the socket, where there is one.
unfoldable pub with_socket : Bool → Kernel → Session → List Event → Conn → Option ℤ → Option Udp
unfolding local_or_uninit named_session
with_socket nat_hack k s es c none = some (fails s [] c es)
with_socket nat_hack k s es c (some fd) =
    let (saddr, found) = local_or_uninit k s in
    binding nat_hack k fd saddr found es c (k.binds saddr)

unfoldable pub udp_session : Bool → Kernel → Session → List Event → Conn → Option Udp
unfolding with_socket
udp_session nat_hack k s es c = with_socket nat_hack k s es c k.socket
