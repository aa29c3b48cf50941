-- ===== src/Tunnel/Keep.antt =====
-- A session that keeps its interface.
use vtun.Common.{
  arith, ◌≡◌, ◌⊎◌, ◌≢◌, inl, inr, refl, sym, ap, ◌∙◌, subst, List, [], ◌∷◌, ◌++◌, Bool, true,
  if_both, if◌then◌else◌, some, ℤ, pos, negsuc, ltb_ℤ, not, ◌&&◌,
}
use mathlib.Core.Option
use vtun.Host.{vtun_pipe}
use vtun.Session.{Session, Action, closes, forks_up, runs_down, calls_linkfd}
use vtun.Link.Linkfd.{Process}
use vtun.Tunnel.{
  Drivers, Device, unopened, dev_name, interface_already_open, get_device, Tunnelled, is_type,
  keeps, closing, close_pipe, World, named, tunnel,
}
use vtun.Tunnel.Opening.{commands}
use vtun.Tunnel.Settled.{Among, Among-append, closes-injective}
use vtun.Tunnel.Order.{around, ran_something}
use vtun.Tunnel.Ways.{SetUp, SetUp-loc_fd, Ran, Ran-written}
use vtun.Tunnel.Course.{tunnel-Outcome}

-- A session that has its interface opens none.
kept_device :
    (ds : Drivers) (s t : Session) (d : Device)
    → interface_already_open s ≡ true
    → get_device ds s ≡ some (d, t)
    → (d ≡ unopened (dev_name s)) × (t ≡ s)
unfolding get_device
kept_device ds s t d kept e =
    let same : get_device ds s ≡ some (unopened (dev_name s), s) = rw (kept, get_device) refl in
    let both = Option.some-injective (d, t) (unopened (dev_name s), s) (sym e ∙ same) in
    (ap (λ (z : Device × Session). z.0) both, ap (λ (z : Device × Session). z.1) both)

closing-kept :
    (d : Device) (s : Session) (loc : ℤ)
    → keeps s.host ≡ true
    → Among (closes loc) (closing d s)
    → (loc ≡ s.rmt_fd) ⊎ (loc ≡ d.fd1)
unfolding closing
closing-kept d s loc kept h =
    let written : closing d s ≡ runs_down ∷ closes s.rmt_fd ∷ closes d.fd1 ∷ [] =
      rw (kept, closing, if◌then◌else◌) refl in
    elim (subst (λ z. Among (closes loc) z) written h) [
      | inl e ↦ absurd (ground (arith, e))
      | inr (inl e) ↦ inl (closes-injective loc s.rmt_fd e)
      | inr (inr (inl e)) ↦ inr (closes-injective loc d.fd1 e)
      | inr (inr (inr none_left)) ↦ absurd none_left
    ]

only_one : (loc fd : ℤ) → Among (closes loc) (closes fd ∷ []) → loc ≡ fd
only_one loc fd (inl e) = closes-injective loc fd e
only_one loc fd (inr h) = absurd h

linked-kept :
    (d : Device) (s t : Session) (loc : ℤ)
    → keeps t.host ≡ true
    → Among (closes loc) (forks_up ∷ (close_pipe d s ++ calls_linkfd ∷ closing d t))
    → (loc ≡ t.rmt_fd) ⊎ (loc ≡ d.fd1)
unfolding close_pipe
linked-kept d s t loc kept (inl e) = absurd (ground (arith, e))
linked-kept d s t loc kept (inr h) =
    elim (Among-append (closes loc) (close_pipe d s) (calls_linkfd ∷ closing d t) h) [
      | inl there ↦ inr (
          if_both (λ z. Among (closes loc) z → loc ≡ d.fd1) (is_type s.host vtun_pipe)
            (closes d.fd1 ∷ []) [] (only_one loc d.fd1) (λ h. absurd h) there)
      | inr (inl e) ↦ absurd (ground (arith, e))
      | inr (inr there) ↦ closing-kept d t loc kept there
    ]

SetUp-kept :
    (w : World) (t joined : Session) (acts : List Action) (loc : ℤ)
    → SetUp w t joined acts
    → Among (closes loc) acts
    → loc ≡ t.rmt_fd
SetUp-kept w t joined acts loc (inl (e, same)) h = absurd (subst (λ z. Among (closes loc) z) e h)
SetUp-kept w t joined acts loc (inr (u, good, a, e, same)) h = elim a.acts [
  | inl (bad, inl g) ↦ absurd (subst (λ z. Among (closes loc) z) (e ∙ g) h)
  | inl (bad, inr (fd, g)) ↦ elim (subst (λ z. Among (closes loc) z) (e ∙ g) h) [
    | inl x ↦ absurd (ground (arith, x))
    | inr none_left ↦ absurd none_left
  ]
  | inr (own, inl g) ↦ elim (subst (λ z. Among (closes loc) z) (e ∙ g) h) [
    | inl x ↦ absurd (ground (arith, x))
    | inr x ↦ only_one loc t.rmt_fd x
  ]
  | inr (own, inr (to, g)) ↦ elim (subst (λ z. Among (closes loc) z) (e ∙ g) h) [
    | inl x ↦ absurd (ground (arith, x))
    | inr (inl x) ↦ absurd (ground (arith, x))
    | inr (inr x) ↦ only_one loc t.rmt_fd x
  ]
]

positive_fd : (b : Bool) (z : ℤ) → (b && not (ltb_ℤ z (pos 0))) ≡ true → z ≢ negsuc 0
positive_fd b z h e = ground (arith, h, e)

-- A descriptor that is open is not -1.
open_fd : (s : Session) → interface_already_open s ≡ true → s.loc_fd ≢ negsuc 0
open_fd s h e = positive_fd (keeps s.host) s.loc_fd h e

Ran-kept :
    (w : World) (s : Session) (p : Process) (r : Tunnelled)
    → Ran w s p r
    → interface_already_open s ≡ true
    → keeps r.session.host ≡ true
    → s.rmt_fd ≢ s.loc_fd
    → r.session.rmt_fd ≢ s.loc_fd
    → (r.session.loc_fd ≡ s.loc_fd) × ¬ Among (closes s.loc_fd) r.acts
Ran-kept w s p r ran has kept other later =
    let d = ran.device in
    let (same_device, same) = kept_device w.drivers s ran.opened d has ran.gets in
    let l = ran.linked in
    let joined = ran.joined in
    let written = Ran-written w s p r ran in
    let after : Session = record joined { host = l.q.linker.host } in
    let rest : List Action = forks_up ∷ (close_pipe d joined ++ calls_linkfd ∷ closing d after) in
    let still : keeps after.host ≡ true =
      ap (λ (z : Tunnelled). keeps z.session.host) (sym written) ∙ kept in
    let joined_loc =
      SetUp-loc_fd w (named d ran.opened) joined ran.acts ran.set_up
      ∙ ap (λ (z : Session). z.loc_fd) same in
    (
      ap (λ (z : Tunnelled). z.session.loc_fd) written ∙ joined_loc,
      λ h.
          elim (Among-append (closes s.loc_fd) d.acts (ran.acts ++ rest)
            (subst (λ (z : Tunnelled). Among (closes s.loc_fd) z.acts) written h)) [
              | inl there ↦
                  absurd (subst (λ (z : Device). Among (closes s.loc_fd) z.acts) same_device there)
              | inr there ↦ elim (Among-append (closes s.loc_fd) ran.acts rest there) [
                | inl early ↦ other (
                    sym (
                      SetUp-kept w (named d ran.opened) joined ran.acts s.loc_fd ran.set_up early
                      ∙ ap (λ (z : Session). z.rmt_fd) same))
                | inr late ↦ elim (linked-kept d joined after s.loc_fd still late) [
                  | inl e ↦ later (ap (λ (z : Tunnelled). z.session.rmt_fd) written ∙ sym e)
                  | inr e ↦ open_fd s has (e ∙ ap (λ (z : Device). z.fd1) same_device)
                ]
              ]
            ],
    )

-- A session that keeps its interface, and has it, goes through a call of `tunnel` with the same one: where
-- the call ran the linker and the session is to be kept still, its device is the one it was, and is not
-- closed, being neither the socket that the session came with nor the one it leaves.
pub tunnel-kept :
    (w : World) (s : Session) (p : Process) (r : Tunnelled)
    → interface_already_open s ≡ true
    → tunnel w s p ≡ some r
    → commands r.acts ≡ around
    → keeps r.session.host ≡ true
    → s.rmt_fd ≢ s.loc_fd
    → r.session.rmt_fd ≢ s.loc_fd
    → (r.session.loc_fd ≡ s.loc_fd) × ¬ Among (closes s.loc_fd) r.acts
tunnel-kept w s p r has e ran kept other later = elim (tunnel-Outcome w s p r e) [
  | inl h ↦ Ran-kept w s p r h has kept other later
  | inr g ↦ absurd (ran_something (sym ran ∙ g.quiet))
]
