-- ===== src/Client.antt =====
-- client.c: `client`, which connects to the server, authenticates, runs the tunnel, and does so again;
-- and `free_sopt` of lib.c.
--
-- What the rest of the world answers in one turn of the loop is an `Attempt`. A SIGTERM may arrive in a
-- turn before the tunnel starts; while it runs, the signals are the linker's. Where `server_addr`,
-- `local_addr` and `connect_t` ask the system, they ask the attempt.
pub mod Socket
pub mod Loop
mod Tests
use vtun.Common.{
  ℕ, ◌==◌, List, [], ◌∷◌, ◌++◌, Bytes, Bool, true, false, not, ◌&&◌, ◌||◌, Option, none, some,
  ◌>>=◌, ℤ, pos, ◌==ℤ◌, if◌then◌else◌,
}
use vtun.Common.Bits.{bit_and}
use vtun.Host.{VtunHost, vtun_clnt_mask, vtun_sig_term, vtun_sig_hup}
use vtun.Session.{Session, SockAddr, Action, opens, closes, sleeps, attempts}
use vtun.Cipher.{BlockCipher}
use vtun.Auth.Handshake.{auth_client}
use vtun.Net.{Names, Connect, Ready, connect_t, local_addr, server_addr}
use vtun.Link.Linkfd.{Process}
use vtun.Tunnel.{World, Tunnelled, tunnel}

-- The options of the program that the client reads.
pub record Options : Type 0 where
  pub persist : Bool
  pub svr_name : Bytes
  pub port : ℕ

pub record Attempt : Type 1 where
  pub sigterm : Bool
  pub names : Names
  pub socket : Option ℤ
  pub binds : SockAddr → Bool
  pub sets : Bool
  pub connect : Connect
  pub ready : Ready
  pub sock_flags : ℕ
  -- the messages of the server
  pub messages : List Bytes
  pub world : World

-- What a turn of the loop leaves.
pub record Attempted : Type 1 where
  pub client_term : ℤ
  pub session : Session
  pub process : Process
  pub acts : List Action

-- The state of the loop of `client`.
pub record Client : Type 1 where
  pub client_term : ℤ
  pub reconnect : Bool
  pub session : Session
  pub process : Process
  pub acts : List Action

-- Where the loop is: it has ended, or it goes on behind the attempts that are given, or a session runs.
pub data Run : Type 1 where
  returned : Client → Run
  running : Client → Run
  blocked : Run

-- The test of the loop.
abbrev pub goes_on : ℤ → Bool
goes_on term = (term ==ℤ pos 0) || (term ==ℤ pos vtun_sig_hup)

-- Whether a turn is another one, not forced by a hang-up.
abbrev pub again : Client → Bool
again c = c.reconnect && not (c.client_term ==ℤ pos vtun_sig_hup)

unfoldable pub free_sopt : Session → Session
free_sopt s = record s { sopt = record s.sopt { dev = none; laddr = none; raddr = none } }

-- `host->spd_in = host->spd_out = 0; host->flags &= VTUN_CLNT_MASK;`
unfoldable pub clear : Session → Session
clear s = record s {
  host = record s.host {
    spd_in = pos 0;
    spd_out = pos 0;
    flags = bit_and s.host.flags vtun_clnt_mask;
  };
}

module _ (cipher : BlockCipher) (erange : ℕ) (opts : Options) where
  -- A turn that ends by `continue`.
  abbrev pub continues : ℤ → Session → Process → List Action → Option Attempted
  continues term s p acts =
      some (record { client_term = term; session = s; process = p; acts = acts })

  -- A turn that ends with `close(s)` and `free_sopt`.
  unfoldable pub ends : ℤ → ℤ → Session → Process → List Action → Option Attempted
  unfolding free_sopt
  ends fd term s p acts = continues term (free_sopt s) p (acts ++ closes fd ∷ [])

  -- Behind the authentication.
  unfoldable pub run_tunnel : Attempt → ℤ → Session → Process → Option Attempted
  unfolding ends
  run_tunnel a fd s p = do
    t ← tunnel a.world (record s { rmt_fd = fd }) p
    ends fd t.ret t.session t.process (opens fd ∷ t.acts)

  -- Behind `connect_t`.
  unfoldable pub authenticate : Attempt → ℤ → ℤ → Session → Process → Option Attempted
  unfolding run_tunnel
  authenticate a fd term s p =
      let ((granted, host), _) = auth_client cipher erange s.host a.messages in
      let answered = record s { host = host } in
      let runs = run_tunnel a fd answered p in
      if granted then runs else ends fd term answered p (opens fd ∷ [])

  -- Behind `bind`.
  unfoldable pub connect_session : Attempt → ℤ → ℤ → Session → Process → Option Attempted
  unfolding clear authenticate
  connect_session a fd term s p =
      let cleared = clear s in
      let goes_on = authenticate a fd term cleared p in
      if (connect_t a.sets a.connect a.ready a.sock_flags).0 ==ℤ pos 0
      then goes_on
      else ends fd term cleared p (opens fd ∷ [])

  -- With the socket, where there is one.
  unfoldable pub with_socket :
      Attempt → SockAddr → ℤ → Session → Process → Option ℤ → Option Attempted
  unfolding connect_session
  with_socket a my_addr term s p none = continues term s p []
  with_socket a my_addr term s p (some fd) =
      let bound = connect_session a fd term s p in
      if a.binds my_addr then bound else continues term s p (opens fd ∷ [])

  -- With the local address.
  unfoldable pub with_local :
      Attempt → ℤ → Session → Process → Option (SockAddr × Session) → Option Attempted
  unfolding with_socket
  with_local a term s p none = continues term s p []
  with_local a term s p (some (my_addr, t)) = with_socket a my_addr term t p a.socket

  -- With the server's address.
  unfoldable pub with_server :
      Attempt → ℤ → Session → Process → Option (SockAddr × Session) → Option Attempted
  unfolding with_local
  with_server a term s p none = continues term s p []
  with_server a term s p (some (svr_addr, t)) =
      with_local a term t p (local_addr a.names none false t)

  -- The body of the loop behind its first test; none where the session still runs.
  unfoldable pub attempt : Attempt → ℤ → Session → Process → Option Attempted
  unfolding with_server
  attempt a term s p =
      let now = if a.sigterm then pos vtun_sig_term else term in
      with_server a now s p (server_addr a.names opts.svr_name opts.port s)

  abbrev pub persists : Client → Bool
  persists c = opts.persist || not (c.session.host.persist == 0)

  -- Whether the loop ends before its next turn.
  abbrev pub stops : Client → Bool
  stops c = not (goes_on c.client_term) || (again c && not (persists c))

  -- What a turn does first: the sleep, or the note that the next turn is another one.
  abbrev pub begins : Client → List Action
  begins c = if again c then sleeps ∷ attempts ∷ [] else attempts ∷ []

  abbrev pub after_turn : Client → Option Attempted → Option Client
  after_turn c none = none
  after_turn c (some d) = some (record {
    client_term = d.client_term;
    reconnect = true;
    session = d.session;
    process = d.process;
    acts = c.acts ++ (begins c ++ d.acts);
  })

  unfoldable pub client_turn : Attempt → Client → Option Client
  unfolding attempt
  client_turn a c = after_turn c (attempt a c.client_term c.session c.process)

  unfoldable pub client_loop : List Attempt → Client → Run
  unfolding client_turn
  client_loop [] c = if stops c then returned c else running c
  client_loop (a ∷ rest) c = elim (stops c) [
    | true ↦ returned c
    | false ↦ elim (client_turn a c) [ none ↦ blocked | some d ↦ client_loop rest d ]
  ]

  -- The start of `client`, with the signal handlers set.
  abbrev pub start : Session → Process → Client
  start s p = record { client_term = pos 0; reconnect = false; session = s; process = p; acts = [] }

  unfoldable pub client : List Attempt → Session → Process → Run
  unfolding client_loop
  client todo s p = client_loop todo (start s p)
