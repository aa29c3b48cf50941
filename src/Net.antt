-- ===== src/Net.antt =====
-- netlib.c: `connect_t`, and the addresses of a session (getifaddr, local_addr, server_addr,
-- generic_addr).
--
-- What the system calls and the resolver answer is a parameter. An address is a number of 32 bits,
-- and `inet_ntoa` its text, which `strdup` copies. The build is without SOCKS 2.

pub mod Udp
pub mod Meet
pub mod Shape
pub mod Eof
pub mod Addresses
mod Tests
use vtun.Common.{
  ℕ, ◌==◌, ◌%◌, ◌^◌, ◌-◌, Bytes, Bool, true, false, not, ◌||◌, Option, none, some, ℤ, pos, negsuc,
  if◌then◌else◌, take,
}
use vtun.Session.{VtunAddr, Session, SockAddr, vtun_addr_iface, vtun_addr_name}

-- What `connect` answers on a socket that does not block.
pub data Connect : Type 0 where
  connected : Connect
  in_progress : Connect
  refused : Connect

-- `select` with the time: the socket is ready, with this value of SO_ERROR, or the time is up.
pub data Ready : Type 0 where
  ready : (so_error : ℕ) → Ready
  timed_out : Ready

abbrev pub o_nonblock : ℕ
o_nonblock = 2048

-- The result, and the flags of the socket.
unfoldable pub connect_t : (sets : Bool) → Connect → Ready → (sock_flags : ℕ) → ℤ × ℕ
connect_t false _ _ sock_flags = (negsuc 0, sock_flags)
connect_t true refused _ sock_flags = (negsuc 0, o_nonblock)
connect_t true _ timed_out sock_flags = (negsuc 0, sock_flags)
connect_t true _ (ready so_error) sock_flags =
    (if so_error == 0 then pos 0 else negsuc 0, sock_flags)

-- The `unsigned long` that `getifaddr` answers: -1 where there is no socket or the ioctl fails, which
-- answers the address of an interface.
unfoldable pub getifaddr : (socket : Bool) → (ioctl : Bytes → Option ℕ) → Bytes → ℕ
getifaddr socket ioctl ifname =
    let addr : ℕ = elim (ioctl (take 15 ifname)) [ none ↦ 2 ^ 64 - 1 | some a ↦ a ] in
    if socket then addr else 2 ^ 64 - 1

-- The resolver and the network's names.
pub record Names : Type 0 where
  pub socket : Bool
  pub ioctl : Bytes → Option ℕ
  pub gethostbyname : Bytes → Option ℕ
  pub inet_ntoa : ℕ → Bytes

abbrev pub inaddr_any : ℕ
inaddr_any = 0

-- The address of the record, where the code gets one.
unfoldable pub addr_of : Names → VtunAddr → Option ℕ
unfolding getifaddr
addr_of ns vaddr =
    let iface = getifaddr ns.socket ns.ioctl vaddr.name % 2 ^ 32 in
    if vaddr.kind == vtun_addr_iface
    then if iface == 0 then none else some iface
    else if vaddr.kind == vtun_addr_name
    then ns.gethostbyname vaddr.name
    else some inaddr_any

-- The port is an `int` of which `htons` takes 16 bits.
unfoldable pub generic_addr : Names → VtunAddr → Option SockAddr
unfolding addr_of
generic_addr ns vaddr = elim (addr_of ns vaddr) [
  | none ↦ none
  | some a ↦ some (record { addr = a; port = vaddr.port % 2 ^ 16 })
]

-- Where a socket is connected, `con`, its own address serves. `own` is what `getsockname` answers.
-- The address, and the session with the text of it; or none, which is the result -1.
unfoldable pub local_addr :
    Names → (own : Option SockAddr) → (con : Bool) → Session → Option (SockAddr × Session)
unfolding generic_addr
local_addr ns own con s =
    let found = if con then own else generic_addr ns s.src_addr in
    elim found [
      | none ↦ none
      | some a ↦ some (a, record s { sopt = record s.sopt { laddr = some (ns.inet_ntoa a.addr) } })
    ]

-- `vtun.svr_name` and `vtun.bind_addr.port` are the options of the client.
unfoldable pub server_addr :
    Names → (svr_name : Bytes) → (port : ℕ) → Session → Option (SockAddr × Session)
server_addr ns svr_name port s = elim (ns.gethostbyname svr_name) [
  | none ↦ none
  | some a ↦ some (
    record { addr = a; port = port % 2 ^ 16 },
    record s { sopt = record s.sopt { raddr = some (ns.inet_ntoa a); rport = pos port } },
  )
]
