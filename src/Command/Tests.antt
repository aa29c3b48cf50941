-- ===== src/Command/Tests.antt =====
-- Runs of `subst_opt` at concrete inputs.
use vtun.Common.{ℕ, ◌≡◌, refl, List, [], ◌∷◌, none, some, pos}
use vtun.Common.Text.{codes}
use vtun.Command.{VtunSopt, option_of, subst_loop, subst_opt}
use vtun.Command.Pieces.{Piece, text, option, render, expand, subst_opt-render}

abbrev opts : VtunSopt
opts = record {
  dev = some (codes "tun0");
  laddr = none;
  lport = pos 0;
  raddr = some (codes "10.0.0.2");
  rport = pos 50;
  host = some (codes "lion");
}

abbrev zeros : ℕ → ℕ
zeros i = 0

-- A backslash is kept, and an option behind it is read as an option where the new memory happens to hold
-- a zero.
subst_opt_tests :
    (subst_opt opts zeros (codes "up %d %%") ≡ some (codes "up tun0 tun0", 13))
    × (subst_opt opts zeros (codes "\\%d") ≡ some (codes "\\tun0", 6))
    × (subst_opt opts (λ i. 1) (codes "\\%d") ≡ some (codes "\\%d", 4))
    × (subst_opt opts (λ i. 1) (codes "a\\") ≡ none)
unfolding subst_opt subst_loop option_of
subst_opt_tests = (refl, refl, refl, refl)

-- up %d to %a%A
abbrev command : List Piece
command =
    text b'u' ∷ text b'p' ∷ text b' ' ∷ option b'd' ∷ text b' ' ∷ option b'a' ∷ option b'A' ∷ []

subst_opt-render_example :
    (size : ℕ) × (subst_opt opts zeros (render command) ≡ some (expand opts command, size))
unfolding option_of
subst_opt-render_example = subst_opt-render opts zeros command (
  refl,
  refl,
  (
    refl,
    refl,
    (
      refl,
      refl,
      (some (codes "tun0"), refl, (refl, refl, (some (codes "10.0.0.2"), refl, (none, refl, tt)))),
    ),
  ),
)
