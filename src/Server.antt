-- ===== src/Server.antt =====
-- server.c: `connection`, which serves one client, and `listener`, which accepts clients and makes a
-- process for each.
--
-- A connection is served over the file system of the locks, which no other process changes meanwhile in
-- the model. `others h` is the session with the fields of a host of the configuration that its record does
-- not have. The lists of answers are those of Lock.
pub mod Unlocks
pub mod Listener
mod Tests
use vtun.Common.{
  ℕ, ◌==◌, List, [], ◌∷◌, ◌++◌, Bytes, Bool, true, false, not, Option, none, some, ◌>>=◌, ℤ, pos,
  negsuc, ltb_ℤ, if◌then◌else◌,
}
use vtun.Host.{VtunHost}
use vtun.Session.{Session, SockAddr, Action, opens, closes}
use vtun.Cipher.{BlockCipher}
use vtun.Auth.Handshake.{auth_server}
use vtun.Lock.{Files, Answer, lock_host, unlock_host}
use vtun.Link.Linkfd.{Process}
use vtun.Tunnel.{World, Tunnelled, tunnel}

-- What the program is configured with.
pub record Config : Type 1 where
  pub cipher : BlockCipher
  pub ver : Bytes
  pub hosts : List VtunHost
  pub others : VtunHost → Session
  pub port : ℕ
  pub inet_ntoa : ℕ → Bytes
  -- of the locks
  pub dir : Bytes
  pub erange : Bytes → Bool
  pub behind : Bytes

-- What the system and the client answer to one connection.
pub record Guest : Type 1 where
  pub pid : ℕ
  pub peer : Option SockAddr
  pub own : Option SockAddr
  -- the challenge that is made, and the messages of the client
  pub random : Bytes
  pub messages : List Bytes
  -- of the lock
  pub opens : Bool
  pub writes : Bool
  pub kills : List Answer
  pub world : World

-- What a connection leaves: its exit code, the files, and what it did.
pub record Served : Type 1 where
  pub exit : ℕ
  pub files : Files
  pub acts : List Action

module _ (conf : Config) (g : Guest) where
  abbrev pub locks : VtunHost → Files → Option (Files × List Answer × ℤ)
  locks h fs = lock_host conf.dir conf.erange conf.behind g.pid g.opens g.writes h fs g.kills

  -- The lock of a host, by whether `lock_host` answers less than 0.
  abbrev pub takes : Files → VtunHost → Bool
  takes fs h = elim (locks h fs) [ none ↦ false | some r ↦ not (ltb_ℤ r.2 (pos 0)) ]

  -- The host that `auth_server` grants, where `lock` says whether a host's lock is taken.
  abbrev pub admits : (lock : VtunHost → Bool) → Option VtunHost
  admits lock = (auth_server conf.cipher g.random conf.ver lock conf.hosts g.messages).0

  -- The files behind a call of `lock_host`, where there is one; none where it does not return.
  abbrev pub locked : Files → Option VtunHost → Option Files
  locked fs none = some fs
  locked fs (some h) = locks h fs >>= λ r. some r.0

  -- The session of an admitted host, with the socket.
  unfoldable pub session_of : ℤ → SockAddr → SockAddr → VtunHost → Session
  session_of sock peer own h =
      let s = conf.others h in
      record s {
        host = h;
        rmt_fd = sock;
        sopt = record s.sopt {
          laddr = some (conf.inet_ntoa own.addr);
          lport = pos conf.port;
          raddr = some (conf.inet_ntoa peer.addr);
          rport = pos peer.port;
        };
      }

  abbrev pub unlocks : VtunHost → Files → Files
  unlocks h fs = unlock_host conf.dir conf.erange conf.behind g.pid g.opens g.writes h fs

  -- Behind `auth_server`.
  unfoldable pub serve : ℤ → SockAddr → SockAddr → Process → Files → Option VtunHost → Option Served
  unfolding session_of
  serve sock peer own p fs none = some (record { exit = 0; files = fs; acts = closes sock ∷ [] })
  serve sock peer own p fs (some h) = do
    t ← tunnel g.world (session_of sock peer own h) p
    some (record { exit = 0; files = unlocks t.session.host fs; acts = t.acts ++ closes sock ∷ [] })

  -- With the answer of `auth_server`. Where it admits a host it has locked it; where it admits none, it has
  -- called `lock_host` for the host that it would have admitted with any lock.
  unfoldable pub answered :
      ℤ → SockAddr → SockAddr → Process → Files → Option VtunHost → Option Served
  unfolding serve
  answered sock peer own p fs none =
      locked fs (admits (λ h. true)) >>= λ after. serve sock peer own p after none
  answered sock peer own p fs (some h) =
      locked fs (some h) >>= λ after. serve sock peer own p after (some h)

  -- With the names of the two ends.
  unfoldable pub authenticated : ℤ → Process → Files → SockAddr → SockAddr → Option Served
  unfolding answered
  authenticated sock p fs peer own = answered sock peer own p fs (admits (takes fs))

  -- None where the client, the lock or the session is still waited for.
  abbrev pub with_names : ℤ → Process → Files → Option SockAddr → Option SockAddr → Option Served
  with_names sock p fs none own = some (record { exit = 1; files = fs; acts = [] })
  with_names sock p fs (some peer) none = some (record { exit = 1; files = fs; acts = [] })
  with_names sock p fs (some peer) (some own) = authenticated sock p fs peer own

  unfoldable pub connection : ℤ → Process → Files → Option Served
  unfolding authenticated
  connection sock p fs = with_names sock p fs g.peer g.own
