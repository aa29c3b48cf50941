-- ===== src/Net/Eof.antt =====
-- `udp_session` whose peer closes the connection before it sends its port.
use vtun.Common.{◌≤◌, ◌≡◌, ap, ◌∙◌, Bool, false, List, [], ◌++◌, some, ℤ, pos, arith}
use vtun.Io.{Event, Conn}
use vtun.Io.Ended.{read_n-Ended}
use vtun.Io.Whole.{IsCalm, supply, write_n_whole}
use vtun.Proto.Tcp.{htons}
use vtun.Proto.Tcp.Header.{fed}
use vtun.Session.{Session, SockAddr}
use vtun.Net.Udp.{
  vtun_use_nat_hack, Kernel, local_or_uninit, port_read, port_written, named_session, bound,
  binding, with_socket, udp_session,
}
use vtun.Net.Meet.{Succeeds, Joined, peer_session-htons, local_or_uninit-host, readn_t-ready}

-- Where the peer closes the TCP connection before it sends its port, `udp_session` does not fail: its
-- test is for a negative result, and `read_n` answers 0 at the end of the stream. The system calls
-- succeeding, it takes the port of its own socket for the peer's, connects there and returns the socket.
pub udp_session-eof :
    (nat_hack : Bool) (k : Kernel) (s : Session) (fd : ℤ) (name peer : SockAddr) (es : List Event)
    (c : Conn)
    → Succeeds k s fd name peer
    → vtun_use_nat_hack nat_hack s.host ≡ false
    → IsCalm es
    → c.canceled ≡ false
    → 3 ≤ supply es
    → Joined (udp_session nat_hack k s es (fed c [])) k s fd name peer name.port c []
unfolding udp_session with_socket named_session port_written port_read
udp_session-eof nat_hack k s fd name peer es c ok plain calm live enough =
    let found = (local_or_uninit k s).1 in
    let w = write_n_whole es (fed c []) (htons name.port) calm live (omega arith) in
    let sent = record c { input = []; output = c.output ++ htons name.port } in
    let r = read_n-Ended w.rest sent 2 w.calm live (omega (arith, w.spent)) (omega arith) in
    let reads = readn_t-ready k.ready w.rest sent 2 ok.ready ∙ r.returns in
    let named = record found { sopt = record found.sopt { lport = pos name.port } } in
    let ends =
      peer_session-htons nat_hack k fd named peer name.port
        (record { ret = pos 0; stored = []; conn = sent; rest = r.events }) ok.in_word ok.peer_name
        ok.connected (ap (λ h. vtun_use_nat_hack nat_hack h) (local_or_uninit-host k s) ∙ plain) in
    record {
      events = r.events;
      calm = r.calm;
      returns =
          ap (with_socket nat_hack k s es (fed c [])) ok.socket
          ∙ ap (binding nat_hack k fd (local_or_uninit k s).0 found es (fed c [])) ok.binds
          ∙ ap (bound nat_hack k fd found es (fed c [])) ok.named
          ∙ rw (w.returns, named_session, port_written, reads) (ap (λ u. some u) ends);
    }
