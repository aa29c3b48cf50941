-- ===== src/Tunnel/Course.antt =====
-- The ways in which a call of `tunnel` can go.
use vtun.Common.{
  ◌≡◌, ◌⊎◌, inl, inr, refl, ap, ◌∙◌, subst, Bool-cases, List, [], ◌∷◌, ◌++◌, Bool, false, true,
  if◌then◌else◌, Holds, if-Holds, bind-Holds, some-Holds, if_both, Option, none, some, ◌>>=◌, pos,
  negsuc, ◌==ℤ◌,
}
use vtun.Host.{vtun_tcp, vtun_udp}
use vtun.Session.{Session, Action, closes}
use vtun.Net.Udp.{Udp, udp_session}
use vtun.Net.Shape.{UdpActs, udp_session-UdpActs}
use vtun.Link.Linkfd.{Process}
use vtun.Tunnel.Opening.{commands, commands-both, DeviceOf, get_device-DeviceActs, device-commands}
use vtun.Tunnel.{
  Device, keeps, get_device, Tunnelled, give_up_udp, give_up_fork, World, run_linkfd, linked,
  forked, after, udp_tunnel, protocol, is_prot, named, tunnel_on, tunnel,
}
use vtun.Tunnel.Ways.{udp-commands, SetUp, SetUp-host, Linked, GaveUp, Outcome}

forked-Outcome :
    (w : World) (tcp : Bool) (d : Device) (s : Session) (p : Process)
    → Holds (λ r. Linked w tcp d s p r ⊎ GaveUp s.host p r) (forked w tcp d s p)
unfolding forked linked give_up_fork
forked-Outcome w tcp d s p =
    let P = λ (r : Tunnelled). Linked w tcp d s p r ⊎ GaveUp s.host p r in
    let gave_up : Tunnelled = record {
      ret = pos 0;
      session = s;
      process = p;
      acts = give_up_fork d s;
    } in
    if-Holds P w.forks (linked w tcp d s p) (some gave_up)
      (bind-Holds P (run_linkfd w tcp s p) _
        (λ r e. inl (record { n = r.0; q = r.1; linker = e; result = refl })))
      (inr (record {
        ret = inr refl;
        process = refl;
        host = refl;
        quiet =
            if_both (λ z. commands z ≡ []) (keeps s.host) (closes d.fd1 ∷ [])
              (closes d.fd0 ∷ closes d.fd1 ∷ []) refl refl;
      }))

after-Holds :
    (P Q : Tunnelled → Type 1) (before : List Action) (o : Option Tunnelled)
    → ((t : Tunnelled) → P t → Q (record t { acts = before ++ t.acts }))
    → Holds P o
    → Holds Q (after before o)
after-Holds P Q before none f h = tt
after-Holds P Q before (some t) f h = f t h

-- What follows the opening of the device, in a session `t`.
record Going (w : World) (d : Device) (t : Session) (p : Process) (r : Tunnelled) : Type 1 where
  joined : Session
  acts : List Action
  tcp : Bool
  inner : Tunnelled
  set_up : SetUp w t joined acts
  linked : Linked w tcp d joined p inner
  result : r ≡ record inner { acts = acts ++ inner.acts }

abbrev Goes : World → Device → Session → Process → Tunnelled → Type 1
Goes w d t p r = Going w d t p r ⊎ GaveUp t.host p r

-- Behind a set-up of the protocol.
SetUp-Goes :
    (w : World) (tcp : Bool) (d : Device) (t joined : Session) (p : Process) (acts : List Action)
    → SetUp w t joined acts
    → commands acts ≡ []
    → Holds (Goes w d t p) (after acts (forked w tcp d joined p))
SetUp-Goes w tcp d t joined p acts up quiet =
    after-Holds (λ r. Linked w tcp d joined p r ⊎ GaveUp joined.host p r) (Goes w d t p) acts
      (forked w tcp d joined p)
      (λ r h. elim h [
        | inl l ↦ inl (record {
          joined = joined;
          acts = acts;
          tcp = tcp;
          inner = r;
          set_up = up;
          linked = l;
          result = refl;
        })
        | inr g ↦ inr (record {
          ret = g.ret;
          process = g.process;
          host = g.host ∙ SetUp-host w t joined acts up;
          quiet = commands-both acts r.acts quiet ∙ g.quiet;
        })
      ])
      (forked-Outcome w tcp d joined p)

after-nothing : (o : Option Tunnelled) → after [] o ≡ o
after-nothing none = refl
after-nothing (some t) = refl

at_once-Goes :
    (w : World) (tcp : Bool) (d : Device) (t : Session) (p : Process)
    → Holds (Goes w d t p) (forked w tcp d t p)
at_once-Goes w tcp d t p =
    subst (λ o. Holds (Goes w d t p) o) (after-nothing (forked w tcp d t p))
      (SetUp-Goes w tcp d t t p [] (inl (refl, refl)) refl)

give_up_udp-commands : (d : Device) (s : Session) → commands (give_up_udp d s) ≡ []
unfolding give_up_udp
give_up_udp-commands d s =
    if_both (λ z. commands z ≡ []) (keeps s.host) [] (closes d.fd0 ∷ []) refl refl

udp_tunnel-Goes :
    (w : World) (d : Device) (t : Session) (p : Process) (u : Udp)
    → UdpActs t u
    → Holds (Goes w d t p) (udp_tunnel w d p u)
unfolding udp_tunnel
udp_tunnel-Goes w d t p u a = elim (Bool-cases (u.ret ==ℤ negsuc 0)) [
  | inl bad ↦
      rw (bad, udp_tunnel, if◌then◌else◌)
        (inr (record {
          ret = inr refl;
          process = refl;
          host = a.host;
          quiet =
              commands-both u.acts (give_up_udp d u.session) (udp-commands t u a)
              ∙ give_up_udp-commands d u.session;
        }))
  | inr good ↦
      rw (good, udp_tunnel, if◌then◌else◌)
        (SetUp-Goes w false d t u.session p u.acts (inr (u, good, a, refl, refl))
          (udp-commands t u a))
]

protocol-Goes :
    (w : World) (d : Device) (t : Session) (p : Process) → Holds (Goes w d t p) (protocol w d t p)
unfolding protocol
protocol-Goes w d t p =
    let P : Option Tunnelled → Type 1 = λ o. Holds (Goes w d t p) o in
    let asks = udp_session w.nat_hack w.kernel t w.events w.conn in
    if_both P (is_prot t.host vtun_tcp) (forked w true d t p)
      (if is_prot t.host vtun_udp then asks >>= udp_tunnel w d p else forked w w.tcp d t p)
      (at_once-Goes w true d t p)
      (if_both P (is_prot t.host vtun_udp) (asks >>= udp_tunnel w d p) (forked w w.tcp d t p)
        (bind-Holds (Goes w d t p) asks (udp_tunnel w d p) (λ u e.
          udp_tunnel-Goes w d t p u
            (udp_session-UdpActs w.nat_hack w.kernel t w.events w.conn u e)))
        (at_once-Goes w w.tcp d t p))

tunnel_on-Outcome :
    (w : World) (s : Session) (p : Process) (o : Option (Device × Session))
    → get_device w.drivers s ≡ o
    → Holds (DeviceOf s) o
    → Holds (Outcome w s p) (tunnel_on w s p o)
unfolding tunnel_on
tunnel_on-Outcome w s p none e h =
    inr (record { ret = inl refl; process = refl; host = refl; quiet = refl })
tunnel_on-Outcome w s p (some (d, t)) e h =
    after-Holds (Goes w d (named d t) p) (Outcome w s p) d.acts (protocol w d (named d t) p)
      (λ r goes. elim goes [
        | inl g ↦ inl (record {
          device = d;
          opened = t;
          joined = g.joined;
          acts = g.acts;
          tcp = g.tcp;
          inner = g.inner;
          gets = e;
          set_up = g.set_up;
          linked = g.linked;
          result =
              ap {A = Tunnelled} {B = Tunnelled} (λ z. record z { acts = d.acts ++ z.acts })
                g.result;
        })
        | inr g ↦ inr (record {
          ret = g.ret;
          process = g.process;
          host = g.host ∙ h.host;
          quiet = commands-both d.acts r.acts (device-commands s t d h) ∙ g.quiet;
        })
      ])
      (protocol-Goes w d (named d t) p)

-- Each call of `tunnel` that returns has run the linker, or has given up before it.
pub tunnel-Outcome :
    (w : World) (s : Session) (p : Process) (r : Tunnelled)
    → tunnel w s p ≡ some r
    → Outcome w s p r
unfolding tunnel
tunnel-Outcome w s p r =
    some-Holds (Outcome w s p) _ r
      (tunnel_on-Outcome w s p (get_device w.drivers s) refl (get_device-DeviceActs w.drivers s))
