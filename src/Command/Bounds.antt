-- ===== src/Command/Bounds.antt =====
-- The new text of `subst_opt` fits the memory that was allocated for it.
use vtun.Common.{
  ℕ, suc, ◌+◌, ◌==◌, ◌≡◌, ◌<◌, ◌≤◌, inl, inr, sym, subst, [], ◌∷◌, ◌++◌, Bytes, Bool-cases, Option,
  none, some, Option-cases, length, length-append, get_or, arith,
}
use vtun.Command.Steps.{loop-plain, loop-other, loop-known, loop-unescaped, loop-escaped}
use vtun.Command.{VtunSopt, option_of, substituted, subst_loop, subst_opt}

substituted-Fits :
    (value : Option Bytes) (nstr : Bytes) (slen rest : ℕ)
    → length nstr + suc (suc rest) < slen
    → length (substituted value nstr slen).0 + rest < (substituted value nstr slen).1
substituted-Fits none nstr slen rest h = omega arith
substituted-Fits (some value) nstr slen rest h = omega (arith, length-append nstr value)

module _ (opt : VtunSopt) (fresh : ℕ → ℕ) where
  -- Where the text is known to fit.
  abbrev Fits : Option (Bytes × ℕ) → Type 0
  Fits none = Unit
  Fits (some (nstr, slen)) = length nstr < slen

  -- The last character.
  last-Fits :
      (c sp : ℕ) (nstr : Bytes) (slen : ℕ)
      → length nstr + 1 < slen
      → Fits (subst_loop opt fresh (c ∷ []) sp nstr slen)
  unfolding subst_loop
  last-Fits c sp nstr slen h = let long = length-append nstr (c ∷ []) in ground (arith, long)

  subst_loop-Fits :
      (str : Bytes) (sp : ℕ) (nstr : Bytes) (slen : ℕ)
      → length nstr + length str < slen
      → Fits (subst_loop opt fresh str sp nstr slen)
  unfolding subst_loop
  subst_loop-Fits [] sp nstr slen h = omega arith
  subst_loop-Fits (c ∷ []) sp nstr slen h = last-Fits c sp nstr slen h
  subst_loop-Fits (c ∷ d ∷ s) sp nstr slen h =
      let next : Fits (subst_loop opt fresh (d ∷ s) (suc sp) (nstr ++ c ∷ []) slen) =
        subst_loop-Fits (d ∷ s) (suc sp) (nstr ++ c ∷ []) slen
          (omega (arith, length-append nstr (c ∷ []))) in
      elim (Bool-cases (c == b'%')) [
        | inl percent ↦ elim (Option-cases (option_of opt d)) [
          | inl other ↦
              subst (λ z. Fits z) (sym (loop-other opt fresh c d s sp nstr slen percent other))
                (subst_loop-Fits (d ∷ s) (suc sp) nstr slen (omega arith))
          | inr (value, known) ↦
              subst (λ z. Fits z)
                (sym (loop-known opt fresh c d s sp nstr slen value percent known))
                (subst_loop-Fits s (suc (suc sp)) (substituted value nstr slen).0
                  (substituted value nstr slen).1
                  (substituted-Fits value nstr slen (length s) (omega arith)))
        ]
        | inr plain ↦ elim (Bool-cases (c == b'\\')) [
          | inr no_slash ↦
              subst (λ z. Fits z) (sym (loop-plain opt fresh c (d ∷ s) sp nstr slen plain no_slash))
                next
          | inl slash ↦ elim (Bool-cases (get_or (nstr ++ c ∷ []) (suc sp) (fresh (suc sp)) == 0)) [
            | inl empty ↦
                subst (λ z. Fits z)
                  (sym (loop-unescaped opt fresh c d s sp nstr slen plain slash empty)) next
            | inr full ↦
                subst (λ z. Fits z)
                  (sym (loop-escaped opt fresh c d s sp nstr slen plain slash full))
                  (subst_loop-Fits s (suc (suc sp)) (nstr ++ c ∷ d ∷ []) slen
                    (omega (arith, length-append nstr (c ∷ d ∷ []))))
          ]
        ]
      ]

  -- What `subst_opt` writes, with the NUL behind it, fits the memory that it allocated, whatever the
  -- text and the values are, where it does not read past the end of the text.
  pub subst_opt-bound :
      (str nstr : Bytes) (slen : ℕ)
      → subst_opt opt fresh str ≡ some (nstr, slen)
      → length nstr + 1 ≤ slen
  unfolding subst_opt
  subst_opt-bound str nstr slen e =
      let fits : Fits (subst_loop opt fresh str 0 [] (length str + 1)) =
        subst_loop-Fits str 0 [] (length str + 1) (omega arith) in
      let there : Fits (some (nstr, slen)) = subst (λ z. Fits z) e fits in omega (arith, there)
