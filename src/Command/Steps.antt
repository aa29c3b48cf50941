-- ===== src/Command/Steps.antt =====
-- One turn of the loop of `subst_opt`, by what stands at its place.
use vtun.Common.{
  ℕ, suc, ◌==◌, ◌≡◌, refl, [], ◌∷◌, ◌++◌, Bytes, true, false, Option, none, some, if◌then◌else◌,
  get_or,
}
use vtun.Command.{VtunSopt, option_of, substituted, subst_loop}

module _ (opt : VtunSopt) (fresh : ℕ → ℕ) where
  pub loop-plain :
      (c : ℕ) (s : Bytes) (sp : ℕ) (nstr : Bytes) (slen : ℕ)
      → (c == b'%') ≡ false
      → (c == b'\\') ≡ false
      → subst_loop opt fresh (c ∷ s) sp nstr slen
        ≡ subst_loop opt fresh s (suc sp) (nstr ++ c ∷ []) slen
  unfolding subst_loop
  loop-plain c [] sp nstr slen percent slash = rw (percent, slash, if◌then◌else◌) refl
  loop-plain c (d ∷ s) sp nstr slen percent slash = rw (percent, subst_loop, slash) refl

  pub loop-other :
      (c d : ℕ) (s : Bytes) (sp : ℕ) (nstr : Bytes) (slen : ℕ)
      → (c == b'%') ≡ true
      → option_of opt d ≡ none
      → subst_loop opt fresh (c ∷ d ∷ s) sp nstr slen
        ≡ subst_loop opt fresh (d ∷ s) (suc sp) nstr slen
  unfolding subst_loop
  loop-other c d s sp nstr slen percent other = rw (percent, subst_loop, other) refl

  pub loop-known :
      (c d : ℕ) (s : Bytes) (sp : ℕ) (nstr : Bytes) (slen : ℕ) (value : Option Bytes)
      → (c == b'%') ≡ true
      → option_of opt d ≡ some value
      → subst_loop opt fresh (c ∷ d ∷ s) sp nstr slen
        ≡ subst_loop opt fresh s
            (suc (suc sp))
            (substituted value nstr slen).0
            (substituted value nstr slen).1
  unfolding subst_loop
  loop-known c d s sp nstr slen value percent known = rw (percent, subst_loop, known) refl

  -- A backslash in front of another character, by what stands in the new text at the next place.
  pub loop-unescaped :
      (c d : ℕ) (s : Bytes) (sp : ℕ) (nstr : Bytes) (slen : ℕ)
      → (c == b'%') ≡ false
      → (c == b'\\') ≡ true
      → (get_or (nstr ++ c ∷ []) (suc sp) (fresh (suc sp)) == 0) ≡ true
      → subst_loop opt fresh (c ∷ d ∷ s) sp nstr slen
        ≡ subst_loop opt fresh (d ∷ s) (suc sp) (nstr ++ c ∷ []) slen
  unfolding subst_loop
  loop-unescaped c d s sp nstr slen percent slash empty =
      rw (percent, subst_loop, slash, empty) refl

  pub loop-escaped :
      (c d : ℕ) (s : Bytes) (sp : ℕ) (nstr : Bytes) (slen : ℕ)
      → (c == b'%') ≡ false
      → (c == b'\\') ≡ true
      → (get_or (nstr ++ c ∷ []) (suc sp) (fresh (suc sp)) == 0) ≡ false
      → subst_loop opt fresh (c ∷ d ∷ s) sp nstr slen
        ≡ subst_loop opt fresh s (suc (suc sp)) (nstr ++ c ∷ d ∷ []) slen
  unfolding subst_loop
  loop-escaped c d s sp nstr slen percent slash full = rw (percent, subst_loop, slash, full) refl
