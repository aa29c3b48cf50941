-- ===== src/Tunnel/Closing.antt =====
-- What a call of `tunnel` leaves open.
use vtun.Common.{
  arith, ◌≡◌, ◌≢◌, inl, inr, refl, sym, ap, ◌∙◌, subst, List, [], ◌∷◌, ◌++◌, false, if_both,
  some-Holds, if◌then◌else◌, some, ℤ, negsuc, ◌==ℤ◌,
}
use vtun.Host.{vtun_pipe, vtun_tun, vtun_ether}
use vtun.Session.{
  Session, Action, opens, closes, connects, destroys, forks_up, runs_down, calls_linkfd,
}
use vtun.Link.Linkfd.{Process}
use vtun.Tunnel.{Device, Tunnelled, is_type, keeps, closing, close_pipe, World, named, tunnel}
use vtun.Tunnel.Opening.{commands, DeviceActs, DeviceOf, get_device-DeviceActs}
use vtun.Tunnel.Settled.{Among, Settled, OpensNone, Among-right, Settled-append}
use vtun.Tunnel.Order.{around, ran_something}
use vtun.Tunnel.Ways.{SetUp, SetUp-loc_fd, Ran, ran_result, Ran-written}
use vtun.Tunnel.Course.{tunnel-Outcome}

-- The end of a call whose session does not keep its interface: it opens nothing, and closes the device,
-- the remote descriptor and the second one of the device.
record Closes (d : Device) (s : Session) (acts : List Action) : Type 0 where
  settled : Settled acts
  loc_fd : Among (closes s.loc_fd) acts
  rmt_fd : Among (closes s.rmt_fd) acts
  fd1 : Among (closes d.fd1) acts

closing-Closes : (d : Device) (s : Session) → keeps s.host ≡ false → Closes d s (closing d s)
unfolding closing
closing-Closes d s gone =
    let P = λ (z : List Action).
      Closes d s
        (runs_down ∷ ((z ++ closes s.loc_fd ∷ []) ++ closes s.rmt_fd ∷ closes d.fd1 ∷ [])) in
    let some_closed : P (destroys d.fd0 ∷ []) = record {
      settled = tt;
      loc_fd = inr (inr (inl refl));
      rmt_fd = inr (inr (inr (inl refl)));
      fd1 = inr (inr (inr (inr (inl refl))));
    } in
    let none_closed : P [] = record {
      settled = tt;
      loc_fd = inr (inl refl);
      rmt_fd = inr (inr (inl refl));
      fd1 = inr (inr (inr (inl refl)));
    } in
    let inner : List Action = if is_type s.host vtun_ether then destroys d.fd0 ∷ [] else [] in
    rw (gone, closing, if◌then◌else◌)
      (if_both P (is_type s.host vtun_tun) (destroys d.fd0 ∷ []) inner some_closed
        (if_both P (is_type s.host vtun_ether) (destroys d.fd0 ∷ []) [] some_closed none_closed))

linked-Closes :
    (d : Device) (s t : Session)
    → keeps t.host ≡ false
    → Closes d t (forks_up ∷ (close_pipe d s ++ calls_linkfd ∷ closing d t))
unfolding close_pipe
linked-Closes d s t gone =
    let c = closing-Closes d t gone in
    let P = λ (z : List Action). Closes d t (forks_up ∷ (z ++ calls_linkfd ∷ closing d t)) in
    if_both P (is_type s.host vtun_pipe) (closes d.fd1 ∷ []) []
      (record {
        settled = c.settled;
        loc_fd = inr (inr (inr c.loc_fd));
        rmt_fd = inr (inr (inr c.rmt_fd));
        fd1 = inr (inl refl);
      })
      (record {
        settled = c.settled;
        loc_fd = inr (inr c.loc_fd);
        rmt_fd = inr (inr c.rmt_fd);
        fd1 = inr (inr c.fd1);
      })

-- What is closed by the end of a call for the session `s`.
pub record Ends (s : Session) (r : Tunnelled) : Type 0 where
  pub settled : Settled r.acts
  pub loc_fd : Among (closes r.session.loc_fd) r.acts
  pub rmt_fd : Among (closes r.session.rmt_fd) r.acts
  pub tcp_socket : Among (closes s.rmt_fd) r.acts

-- The actions of the protocol's set-up and of what follows.
record Joins (t : Session) (d : Device) (after : Session) (acts : List Action) : Type 0 where
  closed : Closes d after acts
  tcp_socket : Among (closes t.rmt_fd) acts

opened-Settled :
    (fd : ℤ) (mid : List Action) (s : Session) (d : Device) (rest : List Action)
    → OpensNone mid
    → s.rmt_fd ≡ fd
    → Closes d s rest
    → Closes d s (opens fd ∷ (mid ++ rest))
opened-Settled fd mid s d rest quiet own c = record {
  settled = (
    Among-right (closes fd) mid rest (subst (λ z. Among (closes z) rest) own c.rmt_fd),
    Settled-append mid rest quiet c.settled,
  );
  loc_fd = inr (Among-right (closes s.loc_fd) mid rest c.loc_fd);
  rmt_fd = inr (Among-right (closes s.rmt_fd) mid rest c.rmt_fd);
  fd1 = inr (Among-right (closes d.fd1) mid rest c.fd1);
}

not_minus_one : (z : ℤ) → (z ==ℤ negsuc 0) ≡ false → z ≢ negsuc 0
not_minus_one z h e = ground (arith, h, e)

SetUp-Joins :
    (w : World) (t joined after : Session) (d : Device) (acts rest : List Action)
    → SetUp w t joined acts
    → after.rmt_fd ≡ joined.rmt_fd
    → Closes d after rest
    → Joins t d after (acts ++ rest)
SetUp-Joins w t joined after d acts rest (inl (e, same)) own c =
    subst (λ z. Joins t d after (z ++ rest)) (sym e)
      (record {
        closed = c;
        tcp_socket =
            subst (λ z. Among (closes z) rest) (own ∙ ap (λ (z : Session). z.rmt_fd) same) c.rmt_fd;
      })
SetUp-Joins w t joined after d acts rest (inr (u, good, a, e, same)) own c =
    let fd = own ∙ ap (λ (z : Session). z.rmt_fd) same in
    subst (λ z. Joins t d after (z ++ rest)) (sym e)
      (elim a.acts [
        | inl (bad, h) ↦ absurd (not_minus_one u.ret good bad)
        | inr (ret, inl h) ↦
            subst (λ z. Joins t d after (z ++ rest)) (sym h)
              (record {
                closed = opened-Settled u.ret (closes t.rmt_fd ∷ []) after d rest tt (fd ∙ ret) c;
                tcp_socket = inr (inl refl);
              })
        | inr (ret, inr (to, h)) ↦
            subst (λ z. Joins t d after (z ++ rest)) (sym h)
              (record {
                closed =
                    opened-Settled u.ret (connects u.ret to ∷ closes t.rmt_fd ∷ []) after d rest tt
                      (fd ∙ ret) c;
                tcp_socket = inr (inr (inl refl));
              })
      ])

-- With the opening of the device in front.
device-Joins :
    (s t : Session) (d : Device) (after : Session) (rest : List Action)
    → DeviceActs s d t
    → after.loc_fd ≡ t.loc_fd
    → Joins t d after rest
    → Joins t d after (d.acts ++ rest)
device-Joins s t d after rest dev own j = elim dev.acts [
  | inl e ↦ subst (λ z. Joins t d after (z ++ rest)) (sym e) j
  | inr (loc, inl e) ↦
      let c = j.closed in
      let own0 = subst (λ z. Among (closes z) rest) (own ∙ loc) c.loc_fd in
      subst (λ z. Joins t d after (z ++ rest)) (sym e)
        (record {
          closed = record {
            settled = (own0, c.settled);
            loc_fd = inr c.loc_fd;
            rmt_fd = inr c.rmt_fd;
            fd1 = inr c.fd1;
          };
          tcp_socket = inr j.tcp_socket;
        })
  | inr (loc, inr e) ↦
      let c = j.closed in
      let own0 = subst (λ z. Among (closes z) rest) (own ∙ loc) c.loc_fd in
      subst (λ z. Joins t d after (z ++ rest)) (sym e)
        (record {
          closed = record {
            settled = (inr own0, (c.fd1, c.settled));
            loc_fd = inr (inr c.loc_fd);
            rmt_fd = inr (inr c.rmt_fd);
            fd1 = inr (inr c.fd1);
          };
          tcp_socket = inr (inr j.tcp_socket);
        })
]

Ran-Ends :
    (w : World) (s : Session) (p : Process) (r : Tunnelled)
    → Ran w s p r
    → keeps r.session.host ≡ false
    → Ends s r
Ran-Ends w s p r ran gone =
    let d = ran.device in
    let t = ran.opened in
    let l = ran.linked in
    let joined = ran.joined in
    let written : r ≡ ran_result d joined ran.acts l.n l.q = Ran-written w s p r ran in
    let after : Session = record joined { host = l.q.linker.host } in
    let gone_there : keeps after.host ≡ false =
      ap (λ (z : Tunnelled). keeps z.session.host) (sym written) ∙ gone in
    let rest : List Action = forks_up ∷ (close_pipe d joined ++ calls_linkfd ∷ closing d after) in
    let j =
      SetUp-Joins w (named d t) joined after d ran.acts rest ran.set_up refl
        (linked-Closes d joined after gone_there) in
    let plain : Joins t d after (ran.acts ++ rest) = record {
      closed = j.closed;
      tcp_socket = j.tcp_socket;
    } in
    let dev = some-Holds (DeviceOf s) _ (d, t) (get_device-DeviceActs w.drivers s) ran.gets in
    let k =
      device-Joins s t d after (ran.acts ++ rest) dev
        (SetUp-loc_fd w (named d t) joined ran.acts ran.set_up) plain in
    let acts : List Action = d.acts ++ (ran.acts ++ rest) in
    subst (λ z. Ends s z) (sym written)
      (record {
        settled = k.closed.settled;
        loc_fd = k.closed.loc_fd;
        rmt_fd = k.closed.rmt_fd;
        tcp_socket = subst (λ z. Among (closes z) acts) dev.rmt_fd k.tcp_socket;
      })

-- Where a call of `tunnel` ran the linker and the session that it leaves does not keep its interface,
-- every descriptor that the call opened is closed again, and so are the session's device, its
-- remote descriptor, and the socket that it came with.
pub tunnel-Ends :
    (w : World) (s : Session) (p : Process) (r : Tunnelled)
    → tunnel w s p ≡ some r
    → commands r.acts ≡ around
    → keeps r.session.host ≡ false
    → Ends s r
tunnel-Ends w s p r e ran gone = elim (tunnel-Outcome w s p r e) [
  | inl h ↦ Ran-Ends w s p r h gone
  | inr g ↦ absurd (ran_something (sym ran ∙ g.quiet))
]
