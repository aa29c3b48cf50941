-- ===== src/Net/Meet.antt =====
-- `udp_session` at the two ends of a TCP connection.
use vtun.Common.{
  ℕ, ◌^◌, ◌≤◌, ◌<◌, ◌≡◌, refl, ap, ◌∙◌, Bool, true, false, List, [], ◌∷◌, ◌++◌, Bytes, Option, some,
  Option-cases, inl, inr, ℤ, pos, arith,
}
use vtun.Io.{Event, Conn, Got, read_n}
use vtun.Io.Whole.{IsCalm, supply, read_n_whole, write_n_whole}
use vtun.Proto.Tcp.{htons}
use vtun.Proto.Tcp.Header.{fed, ntohs-htons}
use vtun.Session.{Session, SockAddr, opens, closes, connects}
use vtun.Net.{local_addr}
use vtun.Net.Udp.{
  readn_t, vtun_use_nat_hack, Kernel, Udp, local_or_uninit, replace_fd, peer_session, port_read,
  port_written, named_session, bound, binding, with_socket, udp_session,
}

-- The system calls of one end succeed: it makes the socket `fd`, whose name is `name`, and the other
-- end's address is `peer`.
pub record Succeeds (k : Kernel) (s : Session) (fd : ℤ) (name peer : SockAddr) : Type 0 where
  pub socket : k.socket ≡ some fd
  pub binds : k.binds (local_or_uninit k s).0 ≡ true
  pub named : k.named (local_or_uninit k s).0 ≡ some name
  pub in_word : name.port < 2 ^ 16
  pub ready : k.ready ≡ true
  pub peer_name : k.peer ≡ some peer
  pub connected : (to : SockAddr) → k.connected to ≡ true

-- What the call leaves of the session.
abbrev joined : Kernel → Session → ℤ → (lport rport : ℕ) → Session
joined k s fd lport rport =
    let found = (local_or_uninit k s).1 in
    record found { rmt_fd = fd; sopt = record found.sopt { lport = pos lport; rport = pos rport } }

-- An end that is set up to the port `rport` of the peer: what it returned, what it did and what it sent.
pub record Joined (r : Option Udp) (k : Kernel) (s : Session) (fd : ℤ) (name peer : SockAddr)
    (rport : ℕ) (c : Conn) (rest : Bytes) : Type 0 where
  pub events : List Event
  pub calm : IsCalm events
  pub returns :
      r
      ≡ some (record {
        ret = fd;
        session = joined k s fd name.port rport;
        acts =
            opens fd
            ∷ connects fd (record peer { port = rport })
            ∷ closes (local_or_uninit k s).1.rmt_fd
            ∷ [];
        conn = record c { input = rest; output = c.output ++ htons name.port };
        rest = events;
        is_rmt_fd_connected = some true;
      })

pub peer_session-htons :
    (nat_hack : Bool) (k : Kernel) (fd : ℤ) (s : Session) (peer : SockAddr) (port : ℕ) (g : Got)
    → port < 2 ^ 16
    → k.peer ≡ some peer
    → ((to : SockAddr) → k.connected to ≡ true)
    → vtun_use_nat_hack nat_hack s.host ≡ false
    → peer_session nat_hack k fd (htons port) s g ≡ record {
      ret = fd;
      session = record s { rmt_fd = fd; sopt = record s.sopt { rport = pos port } };
      acts = opens fd ∷ connects fd (record peer { port = port }) ∷ closes s.rmt_fd ∷ [];
      conn = g.conn;
      rest = g.rest;
      is_rmt_fd_connected = some true;
    }
unfolding peer_session replace_fd
peer_session-htons nat_hack k fd s peer port g small there connected plain =
    rw (there, connected, plain, ntohs-htons port [] small, peer_session) refl

pub local_or_uninit-host : (k : Kernel) (s : Session) → (local_or_uninit k s).1.host ≡ s.host
unfolding local_or_uninit local_addr
local_or_uninit-host k s = elim (Option-cases k.own) [
  | inl none_there ↦ rw (none_there, local_or_uninit, local_addr) refl
  | inr (a, there) ↦ rw (there, local_or_uninit, local_addr) refl
]

pub readn_t-ready :
    (ready : Bool) (es : List Event) (c : Conn) (n : ℕ)
    → ready ≡ true
    → readn_t ready es c n ≡ read_n es c n
unfolding readn_t
readn_t-ready ready es c n h = rw (h, readn_t) refl

-- Behind `bind` the session is set up, where the port of the peer is on its way.
named_session-Joined :
    (nat_hack : Bool) (k : Kernel) (s : Session) (fd : ℤ) (name peer : SockAddr) (rport : ℕ)
    (es : List Event) (c : Conn) (rest : Bytes)
    → Succeeds k s fd name peer
    → rport < 2 ^ 16
    → vtun_use_nat_hack nat_hack s.host ≡ false
    → IsCalm es
    → c.canceled ≡ false
    → 4 ≤ supply es
    → Joined
        (named_session nat_hack k fd name (local_or_uninit k s).1 es (fed c (htons rport ++ rest)))
        k
        s
        fd
        name
        peer
        rport
        c
        rest
unfolding named_session port_written port_read
named_session-Joined nat_hack k s fd name peer rport es c rest ok small plain calm live enough =
    let found = (local_or_uninit k s).1 in
    let w =
      write_n_whole es (fed c (htons rport ++ rest)) (htons name.port) calm live (omega arith) in
    let sent = record c { input = htons rport ++ rest; output = c.output ++ htons name.port } in
    let r = read_n_whole w.rest sent 2 w.calm live (omega (arith, w.spent)) (omega arith) in
    let reads = readn_t-ready k.ready w.rest sent 2 ok.ready ∙ r.returns in
    let named = record found { sopt = record found.sopt { lport = pos name.port } } in
    let gone = record c { input = rest; output = c.output ++ htons name.port } in
    let ends =
      peer_session-htons nat_hack k fd named peer rport
        (record { ret = pos 2; stored = htons rport; conn = gone; rest = r.rest }) small
        ok.peer_name ok.connected
        (ap (λ h. vtun_use_nat_hack nat_hack h) (local_or_uninit-host k s) ∙ plain) in
    record {
      events = r.rest;
      calm = r.calm;
      returns = rw (w.returns, named_session, port_written, reads) (ap (λ u. some u) ends);
    }

udp_session-Joined :
    (nat_hack : Bool) (k : Kernel) (s : Session) (fd : ℤ) (name peer : SockAddr) (rport : ℕ)
    (es : List Event) (c : Conn) (rest : Bytes)
    → Succeeds k s fd name peer
    → rport < 2 ^ 16
    → vtun_use_nat_hack nat_hack s.host ≡ false
    → IsCalm es
    → c.canceled ≡ false
    → 4 ≤ supply es
    → Joined
        (udp_session nat_hack k s es (fed c (htons rport ++ rest)))
        k
        s
        fd
        name
        peer
        rport
        c
        rest
unfolding udp_session with_socket
udp_session-Joined nat_hack k s fd name peer rport es c rest ok small plain calm live enough =
    let found = (local_or_uninit k s).1 in
    let input = fed c (htons rport ++ rest) in
    let j =
      named_session-Joined nat_hack k s fd name peer rport es c rest ok small plain calm live
        enough in
    record {
      events = j.events;
      calm = j.calm;
      returns =
          ap (with_socket nat_hack k s es (fed c (htons rport ++ rest))) ok.socket
          ∙ ap (binding nat_hack k fd (local_or_uninit k s).0 found es input) ok.binds
          ∙ ap (bound nat_hack k fd found es input) ok.named
          ∙ j.returns;
    }

-- Where the system calls succeed at both ends of a TCP connection, no end waits for a delayed packet,
-- and the connection moves the bytes, both calls of `udp_session` return: each end's socket is connected
-- to the port of the other end's socket at the other end's address, each session holds its own port
-- and the other's, and the TCP socket is closed in exchange for the UDP socket.
pub udp_session-Meets :
    (nat_hack : Bool) (k l : Kernel) (s t : Session) (fd gd : ℤ) (name mate peer lair : SockAddr)
    (es fs : List Event) (c d : Conn) (rest more : Bytes)
    → Succeeds k s fd name peer
    → Succeeds l t gd mate lair
    → vtun_use_nat_hack nat_hack s.host ≡ false
    → vtun_use_nat_hack nat_hack t.host ≡ false
    → IsCalm es
    → IsCalm fs
    → c.canceled ≡ false
    → d.canceled ≡ false
    → 4 ≤ supply es
    → 4 ≤ supply fs
    → Joined
        (udp_session nat_hack k s es (fed c (htons mate.port ++ rest)))
        k
        s
        fd
        name
        peer
        mate.port
        c
        rest
      × Joined
          (udp_session nat_hack l t fs (fed d (htons name.port ++ more)))
          l
          t
          gd
          mate
          lair
          name.port
          d
          more
udp_session-Meets nat_hack k l s t fd gd name mate peer lair es fs c d rest more ok ok' pl pl' ca
      ca' li li' en en' =
    (
      udp_session-Joined nat_hack k s fd name peer mate.port es c rest ok ok'.in_word pl ca li en,
      udp_session-Joined nat_hack l t gd mate lair name.port fs d more ok' ok.in_word pl' ca' li'
          en',
    )
