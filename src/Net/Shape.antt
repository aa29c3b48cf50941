-- ===== src/Net/Shape.antt =====
-- The calls that `udp_session` makes, whatever is answered to it.
use vtun.Common.{
  ℕ, Option-cases, ◌≡◌, ◌⊎◌, inl, inr, refl, Bool, true, false, List, [], ◌∷◌, Option, none, some,
  ◌>>=◌, Holds, if-Holds, bind-Holds, some-Holds, if_both, ℤ, negsuc, pos, ltb_ℤ, Bytes,
}
use vtun.Io.{Event, Conn, Got, write_n}
use vtun.Proto.Tcp.{htons, ntohs}
use vtun.Session.{Session, SockAddr, Action, opens, closes, connects}
use vtun.Net.{local_addr}
use vtun.Net.Udp.{
  readn_t, vtun_use_nat_hack, Kernel, Udp, fails, local_or_uninit, replace_fd, peer_session, over,
  port_read, port_written, named_session, bound, binding, with_socket, udp_session,
}

-- A failed call has opened a socket at most, and closed none. A call that succeeds has opened the socket
-- that it returns, which is the session's now, may have connected it, and has closed the session's old one.
pub record UdpActs (s : Session) (u : Udp) : Type 0 where
  pub host : u.session.host ≡ s.host
  pub loc_fd : u.session.loc_fd ≡ s.loc_fd
  pub acts :
      ((u.ret ≡ negsuc 0) × ((u.acts ≡ []) ⊎ ((fd : ℤ) × (u.acts ≡ opens fd ∷ []))))
      ⊎ ((u.session.rmt_fd ≡ u.ret)
          × ((u.acts ≡ opens u.ret ∷ closes s.rmt_fd ∷ [])
              ⊎ ((to : SockAddr) × (u.acts
                    ≡ opens u.ret ∷ connects u.ret to ∷ closes s.rmt_fd ∷ []))))

-- A session that differs from another in its options at most.
record Alike (s t : Session) : Type 0 where
  host : t.host ≡ s.host
  loc_fd : t.loc_fd ≡ s.loc_fd
  rmt_fd : t.rmt_fd ≡ s.rmt_fd

fails-UdpActs :
    (s t : Session) (fd : ℤ) (c : Conn) (es : List Event)
    → Alike s t
    → UdpActs s (fails t (opens fd ∷ []) c es)
fails-UdpActs s t fd c es a = record {
  host = a.host;
  loc_fd = a.loc_fd;
  acts = inl (refl, inr (fd, refl));
}

replace_fd-UdpActs :
    (fd rport : ℤ) (s t : Session) (mid : List Action) (g : Got) (b : Bool)
    → Alike s t
    → ((mid ≡ []) ⊎ ((to : SockAddr) × (mid ≡ connects fd to ∷ [])))
    → UdpActs s (replace_fd fd rport t (opens fd ∷ mid) g b)
unfolding replace_fd
replace_fd-UdpActs fd rport s t mid g b a (inl e) = record {
  host = a.host;
  loc_fd = a.loc_fd;
  acts = inr (refl, inl (rw (e, a.rmt_fd) refl));
}
replace_fd-UdpActs fd rport s t mid g b a (inr (to, e)) = record {
  host = a.host;
  loc_fd = a.loc_fd;
  acts = inr (refl, inr (to, rw (e, a.rmt_fd) refl));
}

peer_session-UdpActs :
    (nat_hack : Bool) (k : Kernel) (fd : ℤ) (port : Bytes) (s t : Session) (g : Got)
    → Alike s t
    → UdpActs s (peer_session nat_hack k fd port t g)
unfolding peer_session
peer_session-UdpActs nat_hack k fd port s t g a = elim (Option-cases k.peer) [
  | inl none_there ↦ rw (none_there, peer_session) (fails-UdpActs s t fd g.conn g.rest a)
  | inr (peer, there) ↦
      let to = record peer { port = ntohs port } in
      let rport = pos (ntohs port) in
      rw (there, peer_session)
        (if_both (UdpActs s) (vtun_use_nat_hack nat_hack t.host) _ _
          (replace_fd-UdpActs fd rport s t [] g false a (inl refl))
          (if_both (UdpActs s) (k.connected to) _ _
            (replace_fd-UdpActs fd rport s t (connects fd to ∷ []) g true a (inr (to, refl)))
            (fails-UdpActs s t fd g.conn g.rest a)))
]

port_written-UdpActs :
    (nat_hack : Bool) (k : Kernel) (fd : ℤ) (port : ℕ) (s t : Session) (g : Got)
    → Alike s t
    → Holds (UdpActs s) (port_written nat_hack k fd port t g)
unfolding port_written port_read
port_written-UdpActs nat_hack k fd port s t g a =
    let named = record t { sopt = record t.sopt { lport = pos port } } in
    let same : Alike s named = record { host = a.host; loc_fd = a.loc_fd; rmt_fd = a.rmt_fd } in
    let reads = readn_t k.ready g.rest g.conn 2 in
    let answer : Got → Option Udp = λ h. some (port_read nat_hack k fd (htons port) named h) in
    if-Holds (UdpActs s) (ltb_ℤ g.ret (pos 0)) (some (fails t (opens fd ∷ []) g.conn g.rest))
      (reads >>= answer) (fails-UdpActs s t fd g.conn g.rest a)
      (bind-Holds (UdpActs s) reads answer (λ h e.
        if_both (UdpActs s) (ltb_ℤ h.ret (pos 0)) _ _ (fails-UdpActs s named fd h.conn h.rest same)
          (peer_session-UdpActs nat_hack k fd (over h.stored (htons port)) s named h same)))

bound-UdpActs :
    (nat_hack : Bool) (k : Kernel) (fd : ℤ) (s t : Session) (es : List Event) (c : Conn)
    (o : Option SockAddr)
    → Alike s t
    → Holds (UdpActs s) (bound nat_hack k fd t es c o)
unfolding named_session
bound-UdpActs nat_hack k fd s t es c none a = fails-UdpActs s t fd c es a
bound-UdpActs nat_hack k fd s t es c (some name) a =
    bind-Holds (UdpActs s) (write_n es c (htons name.port)) (port_written nat_hack k fd name.port t)
      (λ g e. port_written-UdpActs nat_hack k fd name.port s t g a)

binding-UdpActs :
    (nat_hack : Bool) (k : Kernel) (fd : ℤ) (saddr : SockAddr) (s t : Session) (es : List Event)
    (c : Conn) (b : Bool)
    → Alike s t
    → Holds (UdpActs s) (binding nat_hack k fd saddr t es c b)
binding-UdpActs nat_hack k fd saddr s t es c false a = fails-UdpActs s t fd c es a
binding-UdpActs nat_hack k fd saddr s t es c true a =
    bound-UdpActs nat_hack k fd s t es c (k.named saddr) a

local_or_uninit-Alike : (k : Kernel) (s : Session) → Alike s (local_or_uninit k s).1
unfolding local_or_uninit local_addr
local_or_uninit-Alike k s = elim (Option-cases k.own) [
  | inl none_there ↦
      rw (none_there, local_or_uninit, local_addr)
        (record { host = refl; loc_fd = refl; rmt_fd = refl })
  | inr (a, there) ↦
      rw (there, local_or_uninit, local_addr) (record { host = refl; loc_fd = refl; rmt_fd = refl })
]

with_socket-UdpActs :
    (nat_hack : Bool) (k : Kernel) (s : Session) (es : List Event) (c : Conn) (o : Option ℤ)
    → Holds (UdpActs s) (with_socket nat_hack k s es c o)
unfolding with_socket
with_socket-UdpActs nat_hack k s es c none = record {
  host = refl;
  loc_fd = refl;
  acts = inl (refl, inl refl);
}
with_socket-UdpActs nat_hack k s es c (some fd) =
    binding-UdpActs nat_hack k fd (local_or_uninit k s).0 s (local_or_uninit k s).1 es c
      (k.binds (local_or_uninit k s).0) (local_or_uninit-Alike k s)

-- Whatever the system answers, a call of `udp_session` that returns leaves the flags and the device of
-- the session alone, and has done one of two things: it failed, having opened one socket at most and
-- closed none; or it returns the socket that it opened, which is the session's remote descriptor now,
-- and has closed the one that this replaces.
pub udp_session-UdpActs :
    (nat_hack : Bool) (k : Kernel) (s : Session) (es : List Event) (c : Conn) (u : Udp)
    → udp_session nat_hack k s es c ≡ some u
    → UdpActs s u
unfolding udp_session
udp_session-UdpActs nat_hack k s es c u =
    some-Holds (UdpActs s) _ u (with_socket-UdpActs nat_hack k s es c k.socket)
