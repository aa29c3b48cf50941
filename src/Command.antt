-- ===== src/Command.antt =====
-- lib.c: `subst_opt`, which puts the values of a session into the text of a command.
--
-- The text is its bytes before the NUL. The memory of the new text holds what was written, and
-- `fresh i` at a place i that was not written yet; it is allocated. The answer is the new text and the
-- size of its memory, or none where the code reads past the end of the old text.
pub mod Steps
pub mod Bounds
pub mod Pieces
mod Tests
use vtun.Common.{
  ℕ, suc, ◌+◌, ◌-◌, ◌==◌, [], ◌∷◌, ◌++◌, Bytes, Bool, true, false, Option, none, some, ℤ,
  if◌then◌else◌, length, get_or,
}
use vtun.Common.Text.{dec_ℤ}

-- `struct vtun_sopt`; a text that is NULL is none.
pub record VtunSopt : Type 0 where
  pub dev : Option Bytes
  pub laddr : Option Bytes
  pub lport : ℤ
  pub raddr : Option Bytes
  pub rport : ℤ
  pub host : Option Bytes

-- The option of a letter, where the letter has one.
unfoldable pub option_of : VtunSopt → ℕ → Option (Option Bytes)
option_of opt c =
    if c == b'%'
    then some opt.dev
    else if c == b'd'
    then some opt.dev
    else if c == b'A'
    then some opt.laddr
    else if c == b'P'
    then some (some (dec_ℤ opt.lport))
    else if c == b'a'
    then some opt.raddr
    else if c == b'p'
    then some (some (dec_ℤ opt.rport))
    else if c == b'h'
    then some opt.host
    else none

-- The text and the size of the memory behind a substitution.
abbrev pub substituted : Option Bytes → Bytes → ℕ → Bytes × ℕ
substituted none nstr slen = (nstr, slen)
substituted (some value) nstr slen = (nstr ++ value, slen - 2 + length value)

module _ (opt : VtunSopt) (fresh : ℕ → ℕ) where
  -- The loop of `subst_opt` from the place `sp` on, with the bytes `nstr` written.
  unfoldable pub subst_loop : Bytes → (sp : ℕ) → (nstr : Bytes) → (slen : ℕ) → Option (Bytes × ℕ)
  subst_loop [] sp nstr slen = some (nstr, slen)
  subst_loop (c ∷ []) sp nstr slen =
      if c == b'%'
      then some (nstr, slen)
      else if c == b'\\'
      then if get_or (nstr ++ c ∷ []) (suc sp) (fresh (suc sp)) == 0
        then some (nstr ++ c ∷ [], slen)
        else none
      else some (nstr ++ c ∷ [], slen)
  subst_loop (c ∷ d ∷ s) sp nstr slen = elim (c == b'%') [
    | true ↦ elim (option_of opt d) [
      | none ↦ subst_loop (d ∷ s) (suc sp) nstr slen
      | some value ↦
          subst_loop s (suc (suc sp)) (substituted value nstr slen).0
            (substituted value nstr slen).1
    ]
    | false ↦ elim (c == b'\\') [
      | true ↦ elim (get_or (nstr ++ c ∷ []) (suc sp) (fresh (suc sp)) == 0) [
        | true ↦ subst_loop (d ∷ s) (suc sp) (nstr ++ c ∷ []) slen
        | false ↦ subst_loop s (suc (suc sp)) (nstr ++ c ∷ d ∷ []) slen
      ]
      | false ↦ subst_loop (d ∷ s) (suc sp) (nstr ++ c ∷ []) slen
    ]
  ]

  unfoldable pub subst_opt : Bytes → Option (Bytes × ℕ)
  subst_opt str = subst_loop str 0 [] (length str + 1)
