-- ===== src/Net/Tests.antt =====
-- Runs of the network functions at concrete inputs.
use vtun.Common.{◌≡◌, refl, true, false, List, [], ◌∷◌, ◌++◌, none, some, pos, arith}
use vtun.Common.Text.{codes}
use vtun.Host.{VtunHost}
use vtun.Io.{Event, moves, again, Conn}
use vtun.Proto.Tcp.{htons}
use vtun.Proto.Tcp.Header.{fed}
use vtun.Session.{Session, SockAddr}
use vtun.Net.{Names, local_addr, server_addr}
use vtun.Net.Udp.{Kernel, udp_session, local_or_uninit}
use vtun.Net.Meet.{Succeeds, Joined, udp_session-Meets}
use vtun.Net.Eof.{udp_session-eof}

abbrev host : VtunHost
host = record {
  host = codes "lion";
  passwd = codes "ma-kunpa";
  flags = 0x0820;
  timeout = 60;
  spd_in = pos 0;
  spd_out = pos 0;
  zlevel = pos 0;
  cipher = pos 0;
  persist = 0;
  multi = 0;
  ka_interval = 30;
  ka_maxfail = 4;
}

abbrev session : Session
session = record {
  host = host;
  dev = none;
  rmt_fd = pos 4;
  loc_fd = pos 5;
  src_addr = record { name = codes "eth0"; port = 0; kind = 1 };
  sopt = record {
    dev = none;
    laddr = none;
    lport = pos 0;
    raddr = none;
    rport = pos 0;
    host = some (codes "lion");
  };
}

abbrev names : Names
names = record {
  socket = true;
  ioctl = λ n. none;
  gethostbyname = λ n. some 0x0a000001;
  inet_ntoa = λ a. codes "10.0.0.1";
}

abbrev here : SockAddr
here = record { addr = 0x0a000001; port = 5001 }

abbrev there : SockAddr
there = record { addr = 0x0a000002; port = 40000 }

-- The end at `own`, whose peer is at `other`.
abbrev kernel : SockAddr → SockAddr → Kernel
kernel own other = record {
  names = names;
  socket = some (pos 6);
  own = some own;
  binds = λ a. true;
  named = λ a. some a;
  ready = true;
  peer = some other;
  connected = λ a. true;
  uninit = record { addr = 0; port = 0 };
}

abbrev conn : Conn
conn = record { canceled = false; input = []; output = [] }

abbrev events : List Event
events = moves 1 ∷ again ∷ moves 1 ∷ moves 2 ∷ moves 5 ∷ []

here-Succeeds : Succeeds (kernel here there) session (pos 6) here there
unfolding local_or_uninit local_addr
here-Succeeds = record {
  socket = refl;
  binds = refl;
  named = refl;
  in_word = omega arith;
  ready = refl;
  peer_name = refl;
  connected = λ a. refl;
}

there-Succeeds : Succeeds (kernel there here) session (pos 6) there here
unfolding local_or_uninit local_addr
there-Succeeds = record {
  socket = refl;
  binds = refl;
  named = refl;
  in_word = omega arith;
  ready = refl;
  peer_name = refl;
  connected = λ a. refl;
}

udp_session-Meets_example :
    Joined
      (udp_session false (kernel here there) session events (fed conn (htons 40000 ++ [])))
      (kernel here there)
      session
      (pos 6)
      here
      there
      40000
      conn
      []
    × Joined
        (udp_session false (kernel there here) session events (fed conn (htons 5001 ++ [])))
        (kernel there here)
        session
        (pos 6)
        there
        here
        5001
        conn
        []
udp_session-Meets_example =
    udp_session-Meets false (kernel here there) (kernel there here) session session (pos 6) (pos 6)
      here there there here events events conn conn [] [] here-Succeeds there-Succeeds refl refl tt
      tt refl refl (omega arith) (omega arith)

udp_session-eof_example :
    Joined
      (udp_session false (kernel here there) session events (fed conn []))
      (kernel here there)
      session
      (pos 6)
      here
      there
      5001
      conn
      []
udp_session-eof_example =
    udp_session-eof false (kernel here there) session (pos 6) here there events conn here-Succeeds
      refl tt refl (omega arith)

-- The server is found by its name on every attempt.
server_addr_test :
    server_addr names (codes "vpn") 5000 session
    ≡ some (
      record { addr = 0x0a000001; port = 5000 },
      record session {
        sopt = record session.sopt { raddr = some (codes "10.0.0.1"); rport = pos 5000 };
      },
    )
unfolding server_addr
server_addr_test = refl
