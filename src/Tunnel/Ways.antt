-- ===== src/Tunnel/Ways.antt =====
-- What a call of `tunnel` can come to: it gave up before the linker, or it ran the linker.
use vtun.Common.{
  ℕ, ◌≡◌, ◌⊎◌, inl, inr, ap, ◌∙◌, List, [], ◌∷◌, ◌++◌, Bool, false, some, pos, negsuc, ◌==ℤ◌,
}
use vtun.Host.{VtunHost}
use vtun.Session.{Session, Action, forks_up, calls_linkfd}
use vtun.Net.Udp.{Udp}
use vtun.Net.Shape.{UdpActs}
use vtun.Link.Linkfd.{Process}
use vtun.Tunnel.Opening.{commands}
use vtun.Tunnel.{Device, get_device, Tunnelled, closing, close_pipe, World, run_linkfd, named}

pub udp-commands : (s : Session) (u : Udp) → UdpActs s u → commands u.acts ≡ []
udp-commands s u a = elim a.acts [
  | inl (failed, inl e) ↦ ap (λ z. commands z) e
  | inl (failed, inr (fd, e)) ↦ ap (λ z. commands z) e
  | inr (returned, inl e) ↦ ap (λ z. commands z) e
  | inr (returned, inr (to, e)) ↦ ap (λ z. commands z) e
]

-- The protocol of the session `t` is set up: at once, or by `udp_session`.
abbrev pub SetUp : World → Session → Session → List Action → Type 0
SetUp w t joined acts =
    ((acts ≡ []) × (joined ≡ t))
    ⊎ ((u : Udp) × ((u.ret ==ℤ negsuc 0) ≡ false)
        × UdpActs t u
        × (acts ≡ u.acts)
        × (joined ≡ u.session))

pub SetUp-loc_fd :
    (w : World) (t joined : Session) (acts : List Action)
    → SetUp w t joined acts
    → joined.loc_fd ≡ t.loc_fd
SetUp-loc_fd w t joined acts (inl (e, same)) = ap (λ (z : Session). z.loc_fd) same
SetUp-loc_fd w t joined acts (inr (u, good, a, e, same)) =
    ap (λ (z : Session). z.loc_fd) same ∙ a.loc_fd

pub SetUp-host :
    (w : World) (t joined : Session) (acts : List Action)
    → SetUp w t joined acts
    → joined.host ≡ t.host
SetUp-host w t joined acts (inl (e, same)) = ap (λ (z : Session). z.host) same
SetUp-host w t joined acts (inr (u, good, a, e, same)) = ap (λ (z : Session). z.host) same ∙ a.host

-- Behind `fork` the linker ran, with the result `n` and the process `q`.
pub record Linked (w : World) (tcp : Bool) (d : Device) (s : Session) (p : Process) (r : Tunnelled)
    : Type 1 where
  pub n : ℕ
  pub q : Process
  pub linker : run_linkfd w tcp s p ≡ some (n, q)
  pub result : r ≡ record {
    ret = pos n;
    session = record s { host = q.linker.host };
    process = q;
    acts =
        forks_up ∷ (close_pipe d s ++ calls_linkfd ∷ closing d (record s { host = q.linker.host }));
  }

-- The call gave up before the linker, which leaves the process as it was and runs no command.
pub record GaveUp (h : VtunHost) (p : Process) (r : Tunnelled) : Type 1 where
  pub ret : (r.ret ≡ negsuc 0) ⊎ (r.ret ≡ pos 0)
  pub process : r.process ≡ p
  pub host : r.session.host ≡ h
  pub quiet : commands r.acts ≡ []

-- The call ran the linker.
pub record Ran (w : World) (s : Session) (p : Process) (r : Tunnelled) : Type 1 where
  pub device : Device
  pub opened : Session
  pub joined : Session
  pub acts : List Action
  pub tcp : Bool
  pub inner : Tunnelled
  pub gets : get_device w.drivers s ≡ some (device, opened)
  pub set_up : SetUp w (named device opened) joined acts
  pub linked : Linked w tcp device joined p inner
  pub result : r ≡ record inner { acts = device.acts ++ (acts ++ inner.acts) }

-- The result of a call that ran the linker, written out.
abbrev pub ran_result : Device → Session → List Action → ℕ → Process → Tunnelled
ran_result d joined acts n q = record {
  ret = pos n;
  session = record joined { host = q.linker.host };
  process = q;
  acts =
      d.acts
      ++ (acts
          ++ forks_up
            ∷ (close_pipe d joined
                ++ calls_linkfd ∷ closing d (record joined { host = q.linker.host })));
}

pub Ran-written :
    (w : World) (s : Session) (p : Process) (r : Tunnelled) (ran : Ran w s p r)
    → r ≡ ran_result ran.device ran.joined ran.acts ran.linked.n ran.linked.q
Ran-written w s p r ran =
    ran.result
    ∙ ap {A = Tunnelled} {B = Tunnelled}
        (λ z. record z { acts = ran.device.acts ++ (ran.acts ++ z.acts) }) ran.linked.result

abbrev pub Outcome : World → Session → Process → Tunnelled → Type 1
Outcome w s p r = Ran w s p r ⊎ GaveUp s.host p r
