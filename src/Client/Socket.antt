-- ===== src/Client/Socket.antt =====
-- What becomes of the socket that a turn of the client's loop makes.
use vtun.Common.{
  ℕ, ◌≡◌, ◌⊎◌, refl, sym, ap, ◌∙◌, inl, inr, List, [], ◌∷◌, ◌++◌, true, false, Bool-cases, Holds,
  if-Holds, bind-Holds, some-Holds, none, some, ℤ, pos, ◌==ℤ◌, if◌then◌else◌,
}
use mathlib.Core.Option
use vtun.Host.{vtun_sig_term}
use vtun.Session.{Session, SockAddr, Action, opens, closes}
use vtun.Cipher.{BlockCipher}
use vtun.Auth.Handshake.{auth_client}
use vtun.Net.{connect_t, local_addr, server_addr}
use vtun.Link.Linkfd.{Process}
use vtun.Tunnel.{tunnel}
use vtun.Tunnel.Settled.{Among, Among-right}
use vtun.Client.{
  Options, Attempt, Attempted, clear, continues, ends, run_tunnel, authenticate, connect_session,
  with_socket, with_local, with_server, attempt,
}

-- A turn whose socket is bound.
abbrev Closed : ℤ → Attempted → Type 0
Closed fd d = (acts : List Action) × (d.acts ≡ opens fd ∷ acts) × Among (closes fd) acts

module _ (cipher : BlockCipher) (erange : ℕ) (opts : Options) where
  ends-Closed :
      (fd term : ℤ) (s : Session) (p : Process) (acts : List Action)
      → Holds (Closed fd) (ends cipher erange opts fd term s p (opens fd ∷ acts))
  unfolding ends
  ends-Closed fd term s p acts =
      (acts ++ closes fd ∷ [], refl, Among-right (closes fd) acts (closes fd ∷ []) (inl refl))

  run_tunnel-Closed :
      (a : Attempt) (fd : ℤ) (s : Session) (p : Process)
      → Holds (Closed fd) (run_tunnel cipher erange opts a fd s p)
  unfolding run_tunnel
  run_tunnel-Closed a fd s p =
      bind-Holds (Closed fd) (tunnel a.world (record s { rmt_fd = fd }) p)
        (λ t. ends cipher erange opts fd t.ret t.session t.process (opens fd ∷ t.acts))
        (λ t e. ends-Closed fd t.ret t.session t.process t.acts)

  authenticate-Closed :
      (a : Attempt) (fd term : ℤ) (s : Session) (p : Process)
      → Holds (Closed fd) (authenticate cipher erange opts a fd term s p)
  unfolding authenticate
  authenticate-Closed a fd term s p =
      let answer = auth_client cipher erange s.host a.messages in
      let answered = record s { host = answer.0.1 } in
      if-Holds (Closed fd) answer.0.0 (run_tunnel cipher erange opts a fd answered p)
        (ends cipher erange opts fd term answered p (opens fd ∷ []))
        (run_tunnel-Closed a fd answered p) (ends-Closed fd term answered p [])

  connect_session-Closed :
      (a : Attempt) (fd term : ℤ) (s : Session) (p : Process)
      → Holds (Closed fd) (connect_session cipher erange opts a fd term s p)
  unfolding connect_session
  connect_session-Closed a fd term s p =
      let cleared = clear s in
      if-Holds (Closed fd) ((connect_t a.sets a.connect a.ready a.sock_flags).0 ==ℤ pos 0)
        (authenticate cipher erange opts a fd term cleared p)
        (ends cipher erange opts fd term cleared p (opens fd ∷ []))
        (authenticate-Closed a fd term cleared p) (ends-Closed fd term cleared p [])

  -- Where the server and the local address are found and there is a socket, a turn that comes to its end has
  -- closed the socket, if it could be bound to the address; if it could not, the turn did nothing but make
  -- the socket, which stays open.
  pub attempt-socket :
      (a : Attempt) (term : ℤ) (s t u : Session) (p : Process) (fd : ℤ) (svr my : SockAddr)
      (d : Attempted)
      → server_addr a.names opts.svr_name opts.port s ≡ some (svr, t)
      → local_addr a.names none false t ≡ some (my, u)
      → a.socket ≡ some fd
      → attempt cipher erange opts a term s p ≡ some d
      → ((a.binds my ≡ true)
          × (acts : List Action) × (d.acts ≡ opens fd ∷ acts)
          × Among (closes fd) acts)
        ⊎ ((a.binds my ≡ false) × (d.acts ≡ opens fd ∷ []))
  unfolding attempt with_server with_local with_socket
  attempt-socket a term s t u p fd svr my d found own made e =
      let now : ℤ = if a.sigterm then pos vtun_sig_term else term in
      let reached : attempt cipher erange opts a term s p
          ≡ with_socket cipher erange opts a my now u p (some fd) =
        ap (with_server cipher erange opts a now s p) found
        ∙ ap (with_local cipher erange opts a now t p) own
        ∙ ap (with_socket cipher erange opts a my now u p) made in
      let here = sym reached ∙ e in
      elim (Bool-cases (a.binds my)) [
        | inl bound ↦
            let goes : with_socket cipher erange opts a my now u p (some fd)
                ≡ connect_session cipher erange opts a fd now u p =
              rw (bound, with_socket, if◌then◌else◌) refl in
            let (acts, all, closed) =
              some-Holds (Closed fd) (connect_session cipher erange opts a fd now u p) d
                (connect_session-Closed a fd now u p) (sym goes ∙ here) in
            inl (bound, acts, all, closed)
        | inr refused ↦
            let leaves : with_socket cipher erange opts a my now u p (some fd)
                ≡ continues cipher erange opts now u p (opens fd ∷ []) =
              rw (refused, with_socket, if◌then◌else◌) refl in
            let left : Attempted = record {
              client_term = now;
              session = u;
              process = p;
              acts = opens fd ∷ [];
            } in
            let same = Option.some-injective left d (sym leaves ∙ here) in
            inr (refused, sym (ap (λ (z : Attempted). z.acts) same))
      ]
