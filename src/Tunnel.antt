-- ===== src/Tunnel.antt =====
-- tunnel.c: `tunnel`, which opens the device of a session, sets up its protocol, runs the commands of
-- the configuration around the linker, and closes what it opened.
--
-- The drivers are a parameter, as each system has its own. The actions are those of the process that
-- calls `tunnel`; its child, which runs the list `up`, is in the module `Child`. The
-- functions that frames move by are `tcp_write` or `udp_write`, told by `tcp`.
pub mod Child
pub mod Stdio
pub mod Opening
pub mod Ways
pub mod Course
pub mod Order
pub mod Settled
pub mod Closing
pub mod Keep
pub mod SameHost
pub mod Sample
mod Tests
use vtun.Common.{
  ℕ, ◌-◌, ◌==◌, ltb, List, [], ◌∷◌, ◌++◌, Bytes, Bool, true, false, not, ◌&&◌, Option, none, some,
  ◌>>=◌, ℤ, pos, negsuc, ltb_ℤ, ◌==ℤ◌, if◌then◌else◌, take,
}
use vtun.Common.Bits.{bit_and}
use vtun.Host.{
  VtunHost, vtun_tty, vtun_pipe, vtun_ether, vtun_tun, vtun_type_mask, vtun_tcp, vtun_udp,
  vtun_prot_mask, vtun_persist_keepif,
}
use vtun.Io.{Event, Conn}
use vtun.Session.{Session, Action, opens, closes, destroys, forks_up, runs_down, calls_linkfd}
use vtun.Net.Udp.{vtun_use_nat_hack, Kernel, Udp, udp_session}
use vtun.Link.Build.{Modules}
use vtun.Link.Linker.Run.{Wire, Happening}
use vtun.Link.Linkfd.{Process, linkfd}

-- The drivers' functions that open a device: the descriptor, and the name that they store; a pipe has
-- two ends.
pub record Drivers : Type 0 where
  pub pty_open : Bytes → Option (ℤ × Bytes)
  pub pipe_open : Option (ℤ × ℤ)
  pub tap_open : Bytes → Option (ℤ × Bytes)
  pub tun_open : Bytes → Option (ℤ × Bytes)

-- `fd[0]`, `fd[1]` and the name of the device, and the actions.
pub record Device : Type 0 where
  pub fd0 : ℤ
  pub fd1 : ℤ
  pub dev : Bytes
  pub acts : List Action

-- Nothing is opened.
abbrev pub unopened : Bytes → Device
unopened dev = record { fd0 = negsuc 0; fd1 = negsuc 0; dev = dev; acts = [] }

abbrev pub one_fd : Option (ℤ × Bytes) → Option Device
one_fd none = none
one_fd (some (fd, dev)) =
    some (record { fd0 = fd; fd1 = negsuc 0; dev = dev; acts = opens fd ∷ [] })

abbrev pub two_fds : Bytes → Option (ℤ × ℤ) → Option Device
two_fds dev none = none
two_fds dev (some (fd, gd)) =
    some (record { fd0 = fd; fd1 = gd; dev = dev; acts = opens fd ∷ opens gd ∷ [] })

abbrev pub is_type : VtunHost → ℕ → Bool
is_type host kind = bit_and host.flags vtun_type_mask == kind

abbrev pub is_prot : VtunHost → ℕ → Bool
is_prot host prot = bit_and host.flags vtun_prot_mask == prot

unfoldable pub open_device : Drivers → VtunHost → Bytes → Option Device
open_device ds host dev =
    if is_type host vtun_tty
    then one_fd (ds.pty_open dev)
    else if is_type host vtun_pipe
    then two_fds dev ds.pipe_open
    else if is_type host vtun_ether
    then one_fd (ds.tap_open dev)
    else if is_type host vtun_tun
    then one_fd (ds.tun_open dev)
    else some (unopened dev)

abbrev pub vtun_dev_len : ℕ
vtun_dev_len = 20

-- The configured name, cut to its buffer.
abbrev pub dev_name : Session → Bytes
dev_name s = elim s.dev [ none ↦ [] | some name ↦ take (vtun_dev_len - 1) name ]

abbrev pub keeps : VtunHost → Bool
keeps host = host.persist == vtun_persist_keepif

abbrev pub interface_already_open : Session → Bool
interface_already_open s = keeps s.host && not (ltb_ℤ s.loc_fd (pos 0))

-- The device, and the session with its descriptor.
abbrev pub with_device : Session → Option Device → Option (Device × Session)
with_device s none = none
with_device s (some d) = some (d, record s { loc_fd = d.fd0 })

unfoldable pub get_device : Drivers → Session → Option (Device × Session)
unfolding open_device
get_device ds s =
    if interface_already_open s
    then some (unopened (dev_name s), s)
    else with_device s (open_device ds s.host (dev_name s))

-- What a call leaves: its result, the session, the process, and what it did.
pub record Tunnelled : Type 1 where
  pub ret : ℤ
  pub session : Session
  pub process : Process
  pub acts : List Action

-- A session that is given up before the linker: the device is closed unless the interface is kept.
unfoldable pub give_up_udp : Device → Session → List Action
give_up_udp d s = closes d.fd1 ∷ (if keeps s.host then [] else closes d.fd0 ∷ [])

unfoldable pub give_up_fork : Device → Session → List Action
give_up_fork d s = if keeps s.host then closes d.fd1 ∷ [] else closes d.fd0 ∷ closes d.fd1 ∷ []

-- What comes behind the linker. `s` is the session as the linker left it.
unfoldable pub closing : Device → Session → List Action
closing d s =
    let destroying : List Action =
      if is_type s.host vtun_tun
      then destroys d.fd0 ∷ []
      else if is_type s.host vtun_ether
      then destroys d.fd0 ∷ []
      else [] in
    let interface : List Action = if keeps s.host then [] else destroying ++ closes s.loc_fd ∷ [] in
    runs_down ∷ (interface ++ closes s.rmt_fd ∷ closes d.fd1 ∷ [])

-- The end of a pipe that the child has.
unfoldable pub close_pipe : Device → Session → List Action
close_pipe d s = if is_type s.host vtun_pipe then closes d.fd1 ∷ [] else []

-- What the rest of the program and the system answer to one call.
pub record World : Type 1 where
  pub drivers : Drivers
  -- whether the build has ENABLE_NAT_HACK
  pub nat_hack : Bool
  pub kernel : Kernel
  pub events : List Event
  pub conn : Conn
  pub forks : Bool
  pub modules : Modules
  pub happenings : List Happening
  pub stat_opens : Bool
  -- whether `proto_write` is `tcp_write` at the call
  pub tcp : Bool
  -- whether the first and the last frame of the linker are written
  pub echo_written : Bool
  pub close_written : Bool

-- The result of `linkfd`: none while the linker runs.
unfoldable pub run_linkfd : World → (tcp : Bool) → Session → Process → Option (ℕ × Process)
run_linkfd w tcp s p =
    let wire : Wire = record {
      tcp = tcp;
      echo_written = w.echo_written;
      close_written = w.close_written;
    } in
    linkfd (vtun_use_nat_hack w.nat_hack s.host) wire w.happenings w.stat_opens w.modules s.host p

-- Behind `fork`, in the parent. The session has the host that the linker left.
unfoldable pub linked : World → (tcp : Bool) → Device → Session → Process → Option Tunnelled
unfolding run_linkfd closing close_pipe
linked w tcp d s p = do
  r ← run_linkfd w tcp s p
  let after = record s { host = r.1.linker.host }
  some (record {
    ret = pos r.0;
    session = after;
    process = r.1;
    acts = forks_up ∷ (close_pipe d s ++ calls_linkfd ∷ closing d after);
  })

unfoldable pub forked : World → (tcp : Bool) → Device → Session → Process → Option Tunnelled
unfolding linked give_up_fork
forked w tcp d s p =
    let going_on = linked w tcp d s p in
    if w.forks
    then going_on
    else some (record { ret = pos 0; session = s; process = p; acts = give_up_fork d s })

-- What was done before comes first.
abbrev pub after : List Action → Option Tunnelled → Option Tunnelled
after before none = none
after before (some t) = some (record t { acts = before ++ t.acts })

-- With what `udp_session` left.
unfoldable pub udp_tunnel : World → Device → Process → Udp → Option Tunnelled
unfolding forked give_up_udp
udp_tunnel w d p u =
    let going_on = after u.acts (forked w false d u.session p) in
    if u.ret ==ℤ negsuc 0
    then some (record {
      ret = pos 0;
      session = u.session;
      process = p;
      acts = u.acts ++ give_up_udp d u.session;
    })
    else going_on

-- The protocol. Where the flags name none, the functions that were set before stay.
unfoldable pub protocol : World → Device → Session → Process → Option Tunnelled
unfolding udp_tunnel
protocol w d s p =
    let over_udp = udp_session w.nat_hack w.kernel s w.events w.conn >>= udp_tunnel w d p in
    let over_tcp = forked w true d s p in
    let as_before = forked w w.tcp d s p in
    if is_prot s.host vtun_tcp
    then over_tcp
    else if is_prot s.host vtun_udp
    then over_udp
    else as_before

abbrev pub named : Device → Session → Session
named d s = record s { sopt = record s.sopt { dev = some d.dev } }

-- With the device, where there is one.
unfoldable pub tunnel_on : World → Session → Process → Option (Device × Session) → Option Tunnelled
unfolding protocol
tunnel_on w s p none = some (record { ret = negsuc 0; session = s; process = p; acts = [] })
tunnel_on w s p (some (d, t)) = after d.acts (protocol w d (named d t) p)

-- None where the linker, or the exchange of the ports, still runs.
unfoldable pub tunnel : World → Session → Process → Option Tunnelled
unfolding tunnel_on get_device
tunnel w s p = tunnel_on w s p (get_device w.drivers s)
