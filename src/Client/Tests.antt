-- ===== src/Client/Tests.antt =====
-- Runs of `client` at concrete inputs.
use vtun.Common.{◌≡◌, ◌⊎◌, refl, List, [], ◌∷◌, true, false, none, some, pos}
use vtun.Common.Text.{codes}
use vtun.Cipher.Rotate.{rotate}
use vtun.Session.{Session, Action, opens, closes, sleeps, attempts}
use vtun.Net.{refused, ready, connect_t, server_addr, local_addr, generic_addr, addr_of}
use vtun.Tunnel.Sample.{session, process, world}
use vtun.Tunnel.Settled.{Among}
use vtun.Client.{
  Options, Attempt, Attempted, Client, returned, running, attempt, with_server, with_local,
  with_socket, connect_session, clear, ends, free_sopt, client, client_loop, client_turn,
}
use vtun.Client.Loop.{Over, client-once, client-persistent, client_loop-hup}
use vtun.Client.Socket.{attempt-socket}

abbrev once : Options
once = record { persist = false; svr_name = codes "vpn"; port = 5000 }

abbrev always : Options
always = record once { persist = true }

-- The server has no address.
abbrev lost : Attempt
lost = record {
  sigterm = false;
  names = record {
    socket = true;
    ioctl = λ n. none;
    gethostbyname = λ n. none;
    inet_ntoa = λ a. codes "10.0.0.1";
  };
  socket = some (pos 4);
  binds = λ a. true;
  sets = true;
  connect = refused;
  ready = ready 0;
  sock_flags = 0;
  messages = [];
  world = world;
}

-- The server refuses the connection.
abbrev turned_away : Attempt
turned_away = record lost { names = record lost.names { gethostbyname = λ n. some 0x0a000001 } }

abbrev nothing : Attempted
nothing = record { client_term = pos 0; session = session; process = process; acts = [] }

client-once_example :
    client rotate 34 once (lost ∷ lost ∷ []) session process
    ≡ returned (record {
      client_term = pos 0;
      reconnect = true;
      session = session;
      process = process;
      acts = attempts ∷ [];
    })
unfolding attempt with_server server_addr
client-once_example =
    client-once rotate 34 once lost (lost ∷ []) session process nothing refl refl refl refl

-- A SIGTERM ends a client that persists.
abbrev ended : Client
ended = record {
  client_term = pos 1;
  reconnect = true;
  session = session;
  process = process;
  acts = attempts ∷ sleeps ∷ attempts ∷ [];
}

client-persistent_example : Over always ended
unfolding client client_loop client_turn attempt with_server server_addr
client-persistent_example =
    client-persistent rotate 34 always (lost ∷ record lost { sigterm = true } ∷ []) session process
      ended refl

-- A client behind a hang-up, which is not to persist.
abbrev hung_up : Client
hung_up = record {
  client_term = pos 2;
  reconnect = true;
  session = session;
  process = process;
  acts = [];
}

client_loop-hup_example :
    (d : Client) × (client_loop rotate 34 once (lost ∷ lost ∷ lost ∷ []) hung_up ≡ running d)
    × (d.client_term ≡ pos 2)
    × (d.acts ≡ attempts ∷ attempts ∷ attempts ∷ [])
client_loop-hup_example =
    client_loop-hup rotate 34 once (lost ∷ lost ∷ lost ∷ []) hung_up
      ((refl, refl), ((refl, refl), ((refl, refl), tt))) refl

abbrev resolved : Session
resolved = record session {
  sopt = record session.sopt { raddr = some (codes "10.0.0.1"); rport = pos 5000 };
}

abbrev located : Session
located = record resolved { sopt = record resolved.sopt { laddr = some (codes "10.0.0.1") } }

abbrev freed : Session
freed = record session {
  host = record session.host { flags = 0 };
  sopt = record session.sopt { rport = pos 5000 };
}

attempt-socket_example :
    ((true ≡ true)
      × (acts : List Action) × (opens (pos 4) ∷ closes (pos 4) ∷ [] ≡ opens (pos 4) ∷ acts)
      × Among (closes (pos 4)) acts)
    ⊎ ((true ≡ false) × (opens (pos 4) ∷ closes (pos 4) ∷ [] ≡ opens (pos 4) ∷ []))
unfolding attempt with_server with_local with_socket connect_session clear ends free_sopt connect_t
    server_addr local_addr generic_addr addr_of
attempt-socket_example =
    attempt-socket rotate 34 once turned_away (pos 0) session resolved located process (pos 4)
      (record { addr = 0x0a000001; port = 5000 }) (record { addr = 0; port = 0 })
      (record {
        client_term = pos 0;
        session = freed;
        process = process;
        acts = opens (pos 4) ∷ closes (pos 4) ∷ [];
      })
      refl refl refl refl
