-- ===== src/Session.antt =====
-- vtun.h: a session as it runs, with the fields of `struct vtun_host` that its set-up changes, and
-- `struct vtun_addr`; and the calls that a process makes, in order.
use vtun.Common.{ℕ, Bytes, Option, ℤ}
use vtun.Host.{VtunHost}
use vtun.Command.{VtunSopt}

-- struct vtun_addr
pub record VtunAddr : Type 0 where
  pub name : Bytes
  pub port : ℕ
  pub kind : ℕ

abbrev pub vtun_addr_iface : ℕ
vtun_addr_iface = 1

abbrev pub vtun_addr_name : ℕ
vtun_addr_name = 2

-- struct vtun_host while its session runs
pub record Session : Type 0 where
  pub host : VtunHost
  pub dev : Option Bytes
  pub rmt_fd : ℤ
  pub loc_fd : ℤ
  pub src_addr : VtunAddr
  pub sopt : VtunSopt

-- struct sockaddr_in: the address as a number, and the port as `ntohs` reads it.
pub record SockAddr : Type 0 where
  pub addr : ℕ
  pub port : ℕ

-- The calls that change what a process holds, or that another process sees.
pub data Action : Type 0 where
  -- a call that answers a new descriptor
  opens : ℤ → Action
  closes : ℤ → Action
  -- `tun_close` or `tap_close` of the device
  destroys : ℤ → Action
  connects : ℤ → SockAddr → Action
  -- `fork`, whose child goes on beside the parent, up to the list `up` and its exit; what becomes of
  -- the child, which can end before the list, is not part of the parent's trace
  forks_up : Action
  runs_down : Action
  -- a call of `linkfd`, which can return before the linker
  calls_linkfd : Action
  sleeps : Action
  -- a turn of the client's loop
  attempts : Action
