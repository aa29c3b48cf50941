-- ===== src/Tunnel/Order.antt =====
-- The order of the commands of the configuration around the linker.
use vtun.Common.{
  subst, ℕ, arith, ◌≢◌, ◌≡◌, ◌⊎◌, inl, inr, refl, ap, ◌∙◌, List, [], ◌∷◌, ◌++◌, if_both, some-Holds,
  Bool, sym, if◌then◌else◌, some, pos, negsuc,
}
use vtun.Host.{vtun_pipe, vtun_tun, vtun_ether}
use vtun.Session.{Session, Action, closes, destroys, forks_up, runs_down, calls_linkfd}
use vtun.Link.Linkfd.{Process}
use vtun.Tunnel.{Device, Tunnelled, is_type, keeps, closing, close_pipe, World, run_linkfd, tunnel}
use vtun.Tunnel.Opening.{commands, commands-both, DeviceOf, get_device-DeviceActs, device-commands}
use vtun.Tunnel.Ways.{SetUp, SetUp-host, Ran, Ran-written, ran_result, udp-commands}
use vtun.Tunnel.Course.{tunnel-Outcome}

closing-commands : (d : Device) (s : Session) → commands (closing d s) ≡ runs_down ∷ []
unfolding closing
closing-commands d s =
    let Quiet = λ (z : List Action). commands z ≡ [] in
    let destroying : List Action =
      if is_type s.host vtun_tun
      then destroys d.fd0 ∷ []
      else if is_type s.host vtun_ether
      then destroys d.fd0 ∷ []
      else [] in
    let quiet : commands destroying ≡ [] =
      if_both Quiet (is_type s.host vtun_tun) (destroys d.fd0 ∷ [])
        (if is_type s.host vtun_ether then destroys d.fd0 ∷ [] else []) refl
        (if_both Quiet (is_type s.host vtun_ether) (destroys d.fd0 ∷ []) [] refl refl) in
    let interface : List Action = if keeps s.host then [] else destroying ++ closes s.loc_fd ∷ [] in
    let still : commands interface ≡ [] =
      if_both Quiet (keeps s.host) [] (destroying ++ closes s.loc_fd ∷ []) refl
        (commands-both destroying (closes s.loc_fd ∷ []) quiet) in
    ap (λ z. runs_down ∷ z) (commands-both interface (closes s.rmt_fd ∷ closes d.fd1 ∷ []) still)

close_pipe-commands : (d : Device) (s : Session) → commands (close_pipe d s) ≡ []
unfolding close_pipe
close_pipe-commands d s =
    if_both (λ z. commands z ≡ []) (is_type s.host vtun_pipe) (closes d.fd1 ∷ []) [] refl refl

abbrev pub around : List Action
around = forks_up ∷ calls_linkfd ∷ runs_down ∷ []

pub ran_something : around ≢ []
ran_something e = ground (arith, e)

linked-commands :
    (d : Device) (s t : Session)
    → commands (forks_up ∷ (close_pipe d s ++ calls_linkfd ∷ closing d t)) ≡ around
linked-commands d s t =
    ap (λ z. forks_up ∷ z)
      (commands-both (close_pipe d s) (calls_linkfd ∷ closing d t) (close_pipe-commands d s)
        ∙ ap (λ z. calls_linkfd ∷ z) (closing-commands d t))

SetUp-commands :
    (w : World) (t joined : Session) (acts : List Action)
    → SetUp w t joined acts
    → commands acts ≡ []
SetUp-commands w t joined acts (inl (e, same)) = ap (λ z. commands z) e
SetUp-commands w t joined acts (inr (u, good, a, e, same)) =
    ap (λ z. commands z) e ∙ udp-commands t u a

-- `linkfd` was called for a session with the record of `s`, in the process `p`; the call answers what it
-- answered, and leaves the process, and its record in the session, as it left them.
abbrev pub FromLinkfd : World → Session → Process → Tunnelled → Type 1
FromLinkfd w s p r =
    (joined : Session) × (tcp : Bool) × (n : ℕ) × (joined.host ≡ s.host)
    × (run_linkfd w tcp joined p ≡ some (n, r.process))
    × (r.ret ≡ pos n)
    × (r.session ≡ record joined { host = r.process.linker.host })

linkfd-called :
    (w : World) (s : Session) (p : Process) (r : Tunnelled) (ran : Ran w s p r)
    → ran.joined.host ≡ s.host
    → FromLinkfd w s p r
linkfd-called w s p r ran same =
    let l = ran.linked in
    let ends = ran_result ran.device ran.joined ran.acts l.n l.q in
    let written : r ≡ ends = Ran-written w s p r ran in
    subst (λ (z : Tunnelled). FromLinkfd w s p z) (sym written)
      (ran.joined, ran.tcp, l.n, same, l.linker, refl, refl)

-- A call of `tunnel` that returns has done one of two things. Either it made the child for the list
-- `up`, then called `linkfd` with the session's record, then ran the list `down`, each once and in this
-- order, and answers what `linkfd` answered, and leaves the process and the record as `linkfd` left
-- them; or it did none of these, left the process as it was, and answers -1 or 0.
pub tunnel-commands :
    (w : World) (s : Session) (p : Process) (r : Tunnelled)
    → tunnel w s p ≡ some r
    → ((commands r.acts ≡ around) × FromLinkfd w s p r)
      ⊎ ((commands r.acts ≡ []) × (r.process ≡ p) × ((r.ret ≡ negsuc 0) ⊎ (r.ret ≡ pos 0)))
tunnel-commands w s p r e = elim (tunnel-Outcome w s p r e) [
  | inr g ↦ inr (g.quiet, g.process, g.ret)
  | inl ran ↦
      let d = ran.device in
      let dev =
        some-Holds (DeviceOf s) _ (d, ran.opened) (get_device-DeviceActs w.drivers s) ran.gets in
      let l = ran.linked in
      inl (
        ap (λ (z : Tunnelled). commands z.acts) ran.result
            ∙ commands-both d.acts (ran.acts ++ ran.inner.acts) (device-commands s ran.opened d dev)
            ∙ commands-both ran.acts ran.inner.acts
                (SetUp-commands w _ ran.joined ran.acts ran.set_up)
            ∙ ap (λ (z : Tunnelled). commands z.acts) l.result
            ∙ linked-commands d ran.joined _,
        linkfd-called w s p r ran (SetUp-host w _ ran.joined ran.acts ran.set_up ∙ dev.host),
      )
]
