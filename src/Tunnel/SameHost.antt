-- ===== src/Tunnel/SameHost.antt =====
-- What a call of `tunnel` does to the record of its session.
use vtun.Common.{
  ◌≡◌, inl, inr, refl, sym, ◌∙◌, subst, List, Holds, some-Holds, if-Holds, Bool, Option, none, some,
  if◌then◌else◌, pos, ◌==ℤ◌, ℕ,
}
use mathlib.Core.Option
use vtun.Host.{VtunHost}
use vtun.Session.{Session}
use vtun.Net.Udp.{vtun_use_nat_hack}
use vtun.Link.Build.{Modules}
use vtun.Link.Linker.{Linker}
use vtun.Link.Linker.Run.{Happening, Wire, lfd_linker}
use vtun.Link.Linker.SameHost.{Kept, lfd_linker-Kept}
use vtun.Link.Linkfd.{Process, prepare, start, finish, run_linker, linkfd, is_empty}
use vtun.Tunnel.{Tunnelled, World, run_linkfd, tunnel, named}
use vtun.Tunnel.Opening.{DeviceOf, get_device-DeviceActs}
use vtun.Tunnel.Ways.{SetUp-host, Ran-written}
use vtun.Tunnel.Course.{tunnel-Outcome}

-- The record in the process that `linkfd` leaves.
abbrev LeavesKept : VtunHost → ℕ × Process → Type 0
LeavesKept h r = Kept h r.1.linker.host

ran-Kept :
    (old p : Process) (h : VtunHost) (o : Option Linker)
    → Holds (λ (k : Linker). Kept h k.host) o
    → Holds (LeavesKept h) (Option.map (λ l. (l.linker_term, finish old p l)) o)
unfolding finish
ran-Kept old p h none kept = tt
ran-Kept old p h (some k) kept = kept

lfd_linker-Holds :
    (h : VtunHost) (nat_hack : Bool) (wire : Wire) (es : List Happening) (l : Linker)
    (o : Option Linker)
    → lfd_linker nat_hack wire es l ≡ o
    → Holds (λ (k : Linker). Kept l.host k.host) o
lfd_linker-Holds h nat_hack wire es l none e = tt
lfd_linker-Holds h nat_hack wire es l (some k) e = lfd_linker-Kept nat_hack wire es l k e

linkfd-Kept :
    (nat_hack : Bool) (wire : Wire) (es : List Happening) (opened : Bool) (ms : Modules)
    (host : VtunHost) (p : Process)
    → Holds (LeavesKept host) (linkfd nat_hack wire es opened ms host p)
unfolding linkfd run_linker prepare start
linkfd-Kept nat_hack wire es opened ms host p =
    let q = (prepare ms host p).0 in
    let begun = start opened q in
    let ran = run_linker nat_hack wire es opened p q in
    if-Holds (LeavesKept host) (is_empty p.linker.mods)
      (if (prepare ms host p).1 ==ℤ pos 0 then ran else some (0, q)) none
      (if-Holds (LeavesKept host) ((prepare ms host p).1 ==ℤ pos 0)
        (run_linker nat_hack wire es opened p q) (some (0, q))
        (ran-Kept p begun host (lfd_linker nat_hack wire es begun.linker) (
          lfd_linker-Holds host nat_hack wire es begun.linker
            (lfd_linker nat_hack wire es begun.linker) refl))
        (inl refl))
      tt

-- However a call of `tunnel` ends, the record of its session is what it was, or is not to persist any more.
pub tunnel-Kept :
    (w : World) (s : Session) (p : Process) (r : Tunnelled)
    → tunnel w s p ≡ some r
    → Kept s.host r.session.host
unfolding run_linkfd
tunnel-Kept w s p r e = elim (tunnel-Outcome w s p r e) [
  | inr g ↦ inl g.host
  | inl ran ↦
      let d = ran.device in
      let l = ran.linked in
      let dev =
        some-Holds (DeviceOf s) _ (d, ran.opened) (get_device-DeviceActs w.drivers s) ran.gets in
      let same = SetUp-host w (named d ran.opened) ran.joined ran.acts ran.set_up ∙ dev.host in
      let kept : Kept ran.joined.host l.q.linker.host =
        some-Holds (LeavesKept ran.joined.host) (run_linkfd w ran.tcp ran.joined p) (l.n, l.q)
          (linkfd-Kept (vtun_use_nat_hack w.nat_hack ran.joined.host)
            (record {
              tcp = ran.tcp;
              echo_written = w.echo_written;
              close_written = w.close_written;
            })
            w.happenings w.stat_opens w.modules ran.joined.host p)
          l.linker in
      subst (λ (z : Tunnelled). Kept s.host z.session.host) (sym (Ran-written w s p r ran))
        (subst (λ z. Kept z l.q.linker.host) same kept)
]
