-- ===== src/Server/Tests.antt =====
-- Runs of the server at concrete inputs.
use vtun.Common.{
  ◌≡◌, refl, ap, List, [], ◌∷◌, Bytes, Bool, true, false, none, some, pos, negsuc, arith,
}
use vtun.Common.Text.{codes, dec, dec_from, dec_ℤ}
use vtun.Host.{VtunHost, vtun_echo_req}
use vtun.Cipher.Rotate.{rotate}
use vtun.Session.{Session, opens, closes, destroys, forks_up, runs_down, calls_linkfd}
use vtun.Auth.Flags.{bf2cf}
use vtun.Auth.Flags.Pieces.{IsCarried}
use vtun.Auth.Flags.Reading.{received}
use vtun.Auth.Hosts.{find_host, llist_free}
use vtun.Auth.Handshake.{auth_server, auth_client}
use vtun.Auth.Handshake.Texts.{word_char}
use vtun.Auth.Handshake.Agreement.{handshake, IsShared}
use vtun.Lock.{Files, lock_host, read_lock, create_lock, put, link, unlink}
use vtun.Net.{generic_addr, addr_of}
use vtun.Link.Stack.{lfd_alloc_mod, lfd_free_mod, free_loop}
use vtun.Link.Linker.Run.{lfd_linker, linker_loop, happens, stop}
use vtun.Link.Linkfd.{linkfd, prepare, run_linker, start, finish}
use vtun.Tunnel.{
  Tunnelled, tunnel, tunnel_on, get_device, open_device, protocol, forked, linked, run_linkfd,
  closing, close_pipe,
}
use vtun.Tunnel.Sample.{host, session, process, world}
use vtun.Tunnel.Settled.{Settled}
use vtun.Server.{Config, Guest, Served, takes, session_of, connection}
use vtun.Server.Unlocks.{Ended, connection-Ended}
use vtun.Server.Listener.{
  Accept, refused, by_signal, accepted, Setup, Listening, listener, listen_socket, listener_loop,
  accept_turn, served, signalled, listener-Listened,
}

abbrev conf : Config
conf = record {
  cipher = rotate;
  ver = codes "3.X";
  hosts = host ∷ [];
  others = λ h. session;
  port = 5000;
  inet_ntoa = λ a. codes "10.0.0.1";
  dir = codes "/l";
  erange = λ s. false;
  behind = [];
}

abbrev no_files : Files
no_files q = none

abbrev takes_all : VtunHost → Bool
takes_all h = true

abbrev challenge : Bytes
challenge = 1 ∷ 2 ∷ 3 ∷ 4 ∷ 5 ∷ 6 ∷ 7 ∷ 8 ∷ 9 ∷ 10 ∷ 11 ∷ 12 ∷ 13 ∷ 14 ∷ 15 ∷ 16 ∷ []

-- The guest with these messages.
abbrev guest : List Bytes → Guest
guest messages = record {
  pid = 42;
  peer = some (record { addr = 0x0a000002; port = 40000 });
  own = some (record { addr = 0x0a000001; port = 5000 });
  random = challenge;
  messages = messages;
  opens = true;
  writes = true;
  kills = [];
  world = world;
}

locks_host : takes conf (guest []) no_files host ≡ true
unfolding lock_host read_lock create_lock link put unlink dec
locks_host = refl

abbrev lock : VtunHost → Bool
lock = takes conf (guest []) no_files

host-IsCarried : IsCarried 34 host
host-IsCarried = record {
  spd_in = λ on. ground (arith, on);
  zlevel_zlib = λ on. ground (arith, on);
  zlevel_lzo = λ on. ground (arith, on);
  cipher = λ on. ground (arith, on);
}

shared : IsShared 34 lock (host ∷ []) host host
unfolding find_host llist_free bf2cf dec_ℤ dec dec_from
shared = record {
  known = refl;
  passwd = refl;
  locked = locks_host;
  carried = host-IsCarried;
  flags_fit = omega arith;
  name_fits = omega arith;
  named = omega arith;
  word = (
    word_char b'l' (omega arith),
    (
      word_char b'i' (omega arith),
      (word_char b'o' (omega arith), (word_char b'n' (omega arith), tt)),
    ),
  );
}

-- A client that authenticates.
run :
    (from_client : List Bytes) × (from_server : List Bytes) × (auth_server rotate challenge
        (codes "3.X")
        lock
        (host ∷ [])
        from_client
      ≡ (some host, from_server))
    × (auth_client rotate 34 host from_server ≡ ((true, received host host), from_client))
run =
    handshake rotate challenge (codes "3.X") lock (host ∷ []) 34 host host (omega arith) refl
      (omega arith) shared

abbrev visit : Guest
visit = guest run.0

abbrev visited : Session
visited = record session {
  sopt = record session.sopt {
    laddr = some (codes "10.0.0.1");
    lport = pos 5000;
    raddr = some (codes "10.0.0.1");
    rport = pos 40000;
  };
}

abbrev tunnelled : Tunnelled
tunnelled = record {
  ret = pos 2;
  session = record visited {
    loc_fd = pos 5;
    sopt = record visited.sopt { dev = some (codes "tun0") };
  };
  process = record process {
    linker = record process.linker {
      linker_term = 2;
      canceled = true;
      to_net = (pos vtun_echo_req, []) ∷ [];
    };
  };
  acts =
      opens (pos 5)
      ∷ forks_up
      ∷ calls_linkfd
      ∷ runs_down
      ∷ destroys (pos 5)
      ∷ closes (pos 5)
      ∷ closes (pos 4)
      ∷ closes (negsuc 0)
      ∷ [];
}

tunnel_test : tunnel world visited process ≡ some tunnelled
unfolding tunnel tunnel_on get_device open_device protocol forked linked run_linkfd closing
    close_pipe linkfd prepare run_linker start finish lfd_linker linker_loop happens stop
    lfd_alloc_mod lfd_free_mod free_loop
tunnel_test = refl

connection-Ended_example :
    (r : Served) × (connection conf visit (pos 4) process no_files ≡ some r)
    × Ended conf visit (pos 4) host no_files tunnelled r
unfolding session_of
connection-Ended_example =
    connection-Ended conf visit (pos 4) process no_files host
      (record { addr = 0x0a000002; port = 40000 }) (record { addr = 0x0a000001; port = 5000 })
      tunnelled refl refl refl refl (ap (λ z. z.0) run.2) refl refl tunnel_test

abbrev setup : Setup
setup = record {
  names = record {
    socket = true;
    ioctl = λ n. none;
    gethostbyname = λ n. none;
    inet_ntoa = λ a. [];
  };
  bind_addr = record { name = []; port = 5000; kind = 0 };
  socket = some (pos 3);
  binds = λ a. true;
  listens = true;
}

abbrev turns : List Accept
turns = refused ∷ accepted (pos 4) true ∷ accepted (pos 5) false ∷ by_signal ∷ []

abbrev listening : Listening
listening = record {
  listening = pos 3;
  server_term = 1;
  children = pos 4 ∷ [];
  acts = opens (pos 4) ∷ closes (pos 4) ∷ opens (pos 5) ∷ closes (pos 5) ∷ [];
}

listener-Listened_example :
    Settled listening.acts × (listening.children ≡ served turns) × (true ≡ signalled turns)
unfolding listener listen_socket generic_addr addr_of listener_loop accept_turn
listener-Listened_example = listener-Listened setup turns (listening, true) refl
