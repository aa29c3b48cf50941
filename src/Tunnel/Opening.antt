-- ===== src/Tunnel/Opening.antt =====
-- The opening of the device, and the commands among the actions of a process.
use vtun.Common.{
  ◌≡◌, ◌⊎◌, inl, inr, refl, ap, ◌∙◌, List, [], ◌∷◌, ◌++◌, Bytes, Holds, if-Holds, if_both, Option,
  none, some, ℤ,
}
use vtun.Host.{VtunHost, vtun_tty, vtun_pipe, vtun_ether, vtun_tun}
use vtun.Session.{
  Session, Action, opens, closes, connects, destroys, forks_up, runs_down, calls_linkfd, sleeps,
  attempts,
}
use vtun.Tunnel.{
  Drivers, Device, one_fd, two_fds, unopened, open_device, is_type, dev_name,
  interface_already_open, with_device, get_device,
}

-- The commands and the linker, without the rest.
abbrev pub commands : List Action → List Action
commands [] = []
commands (forks_up ∷ acts) = forks_up ∷ commands acts
commands (runs_down ∷ acts) = runs_down ∷ commands acts
commands (calls_linkfd ∷ acts) = calls_linkfd ∷ commands acts
commands (opens fd ∷ acts) = commands acts
commands (closes fd ∷ acts) = commands acts
commands (destroys fd ∷ acts) = commands acts
commands (connects fd to ∷ acts) = commands acts
commands (sleeps ∷ acts) = commands acts
commands (attempts ∷ acts) = commands acts

pub commands-append : (xs ys : List Action) → commands (xs ++ ys) ≡ commands xs ++ commands ys
commands-append [] ys = refl
commands-append (forks_up ∷ xs) ys = ap (λ z. forks_up ∷ z) (commands-append xs ys)
commands-append (runs_down ∷ xs) ys = ap (λ z. runs_down ∷ z) (commands-append xs ys)
commands-append (calls_linkfd ∷ xs) ys = ap (λ z. calls_linkfd ∷ z) (commands-append xs ys)
commands-append (opens fd ∷ xs) ys = commands-append xs ys
commands-append (closes fd ∷ xs) ys = commands-append xs ys
commands-append (destroys fd ∷ xs) ys = commands-append xs ys
commands-append (connects fd to ∷ xs) ys = commands-append xs ys
commands-append (sleeps ∷ xs) ys = commands-append xs ys
commands-append (attempts ∷ xs) ys = commands-append xs ys

-- Two runs of actions without a command are one.
pub commands-both : (xs ys : List Action) → commands xs ≡ [] → commands (xs ++ ys) ≡ commands ys
commands-both xs ys h = commands-append xs ys ∙ ap (λ z. z ++ commands ys) h

-- What opening the device `d` did to the session `s`, which is `t` now: a new device is the session's.
pub record DeviceActs (s : Session) (d : Device) (t : Session) : Type 0 where
  pub host : t.host ≡ s.host
  pub rmt_fd : t.rmt_fd ≡ s.rmt_fd
  pub acts :
      (d.acts ≡ [])
      ⊎ ((t.loc_fd ≡ d.fd0)
          × ((d.acts ≡ opens d.fd0 ∷ []) ⊎ (d.acts ≡ opens d.fd0 ∷ opens d.fd1 ∷ [])))

abbrev Opens : Device → Type 0
Opens d = (d.acts ≡ []) ⊎ (d.acts ≡ opens d.fd0 ∷ []) ⊎ (d.acts ≡ opens d.fd0 ∷ opens d.fd1 ∷ [])

one_fd-Opens : (o : Option (ℤ × Bytes)) → Holds Opens (one_fd o)
one_fd-Opens none = tt
one_fd-Opens (some (fd, dev)) = inr (inl refl)

two_fds-Opens : (dev : Bytes) (o : Option (ℤ × ℤ)) → Holds Opens (two_fds dev o)
two_fds-Opens dev none = tt
two_fds-Opens dev (some (fd, gd)) = inr (inr refl)

open_device-Opens :
    (ds : Drivers) (host : VtunHost) (dev : Bytes) → Holds Opens (open_device ds host dev)
unfolding open_device
open_device-Opens ds host dev =
    let P : Option Device → Type 0 = λ o. Holds Opens o in
    if_both P (is_type host vtun_tty) _ _ (one_fd-Opens (ds.pty_open dev)) (
      if_both P (is_type host vtun_pipe) _ _ (two_fds-Opens dev ds.pipe_open) (
        if_both P (is_type host vtun_ether) _ _ (one_fd-Opens (ds.tap_open dev)) (
          if_both P (is_type host vtun_tun) (one_fd (ds.tun_open dev)) (some (unopened dev))
            (one_fd-Opens (ds.tun_open dev)) (inl refl))))

abbrev pub DeviceOf : Session → Device × Session → Type 0
DeviceOf s r = DeviceActs s r.0 r.1

with_device-DeviceActs :
    (s : Session) (o : Option Device) → Holds Opens o → Holds (DeviceOf s) (with_device s o)
with_device-DeviceActs s none h = tt
with_device-DeviceActs s (some d) (inl e) = record { host = refl; rmt_fd = refl; acts = inl e }
with_device-DeviceActs s (some d) (inr (inl e)) = record {
  host = refl;
  rmt_fd = refl;
  acts = inr (refl, inl e);
}
with_device-DeviceActs s (some d) (inr (inr e)) = record {
  host = refl;
  rmt_fd = refl;
  acts = inr (refl, inr e);
}

pub get_device-DeviceActs : (ds : Drivers) (s : Session) → Holds (DeviceOf s) (get_device ds s)
unfolding get_device
get_device-DeviceActs ds s =
    if-Holds (DeviceOf s) (interface_already_open s) (some (unopened (dev_name s), s))
      (with_device s (open_device ds s.host (dev_name s)))
      (record { host = refl; rmt_fd = refl; acts = inl refl })
      (with_device-DeviceActs s _ (open_device-Opens ds s.host (dev_name s)))

pub device-commands : (s t : Session) (d : Device) → DeviceActs s d t → commands d.acts ≡ []
device-commands s t d a = elim a.acts [
  | inl e ↦ ap (λ z. commands z) e
  | inr (own, inl e) ↦ ap (λ z. commands z) e
  | inr (own, inr e) ↦ ap (λ z. commands z) e
]
