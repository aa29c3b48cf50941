-- ===== src/Command/Pieces.antt =====
-- What `subst_opt` makes of a text that is put together from characters and options.
use vtun.Common.{
  ℕ, suc, ◌+◌, ◌==◌, ◌≡◌, ◌∙◌, refl, ap, sym, List, [], ◌∷◌, ◌++◌, append_assoc, append-nil, Bytes,
  false, Option, none, some, length,
}
use vtun.Command.{VtunSopt, option_of, substituted, subst_loop, subst_opt}
use vtun.Command.Steps.{loop-plain, loop-known}

-- A character, or an option with its letter.
pub data Piece : Type 0 where
  text : ℕ → Piece
  option : ℕ → Piece

-- How the pieces are written in a command.
abbrev pub render : List Piece → Bytes
render [] = []
render (text c ∷ ps) = c ∷ render ps
render (option c ∷ ps) = b'%' ∷ c ∷ render ps

abbrev pub value_of : Option (Option Bytes) → Bytes
value_of (some (some value)) = value
value_of _ = []

-- What they stand for.
abbrev pub expand : VtunSopt → List Piece → Bytes
expand opt [] = []
expand opt (text c ∷ ps) = c ∷ expand opt ps
expand opt (option c ∷ ps) = value_of (option_of opt c) ++ expand opt ps

-- Characters without a meaning of their own, and letters that have an option.
abbrev pub ArePlain : VtunSopt → List Piece → Type 0
ArePlain opt [] = Unit
ArePlain opt (text c ∷ ps) = ((c == b'%') ≡ false) × ((c == b'\\') ≡ false) × ArePlain opt ps
ArePlain opt (option c ∷ ps) =
    (value : Option Bytes) × (option_of opt c ≡ some value) × ArePlain opt ps

value_of_known :
    (value : Option Bytes) (nstr : Bytes) (slen : ℕ)
    → (substituted value nstr slen).0 ≡ nstr ++ value_of (some value)
value_of_known none nstr slen = sym (append-nil nstr)
value_of_known (some value) nstr slen = refl

module _ (opt : VtunSopt) (fresh : ℕ → ℕ) where
  loop-render :
      (ps : List Piece) (sp : ℕ) (nstr : Bytes) (slen : ℕ)
      → ArePlain opt ps
      → (size : ℕ) × (subst_loop opt fresh (render ps) sp nstr slen
          ≡ some (nstr ++ expand opt ps, size))
  unfolding subst_loop
  loop-render [] sp nstr slen h = (slen, ap (λ z. some (z, slen)) (sym (append-nil nstr)))
  loop-render (text c ∷ ps) sp nstr slen h =
      let (size, e) = loop-render ps (suc sp) (nstr ++ c ∷ []) slen h.2 in
      (
        size,
        loop-plain opt fresh c (render ps) sp nstr slen h.0 h.1
            ∙ e
            ∙ ap (λ z. some (z, size)) (append_assoc nstr (c ∷ []) (expand opt ps)),
      )
  loop-render (option c ∷ ps) sp nstr slen h =
      let put = substituted h.0 nstr slen in
      let (size, e) = loop-render ps (suc (suc sp)) put.0 put.1 h.2 in
      let written : put.0 ++ expand opt ps ≡ nstr ++ expand opt (option c ∷ ps) =
        ap (λ z. z ++ expand opt ps) (value_of_known h.0 nstr slen)
        ∙ append_assoc nstr (value_of (some h.0)) (expand opt ps)
        ∙ ap (λ z. nstr ++ (value_of z ++ expand opt ps)) (sym h.1) in
      (
        size,
        loop-known opt fresh b'%' c (render ps) sp nstr slen h.0 refl h.1
            ∙ e
            ∙ ap (λ z. some (z, size)) written,
      )

  -- For a text of plain characters and of options with their letters, `subst_opt` gives the text in
  -- which each option is its value, empty where the session has none; whatever the memory held.
  pub subst_opt-render :
      (ps : List Piece)
      → ArePlain opt ps
      → (size : ℕ) × (subst_opt opt fresh (render ps) ≡ some (expand opt ps, size))
  unfolding subst_opt
  subst_opt-render ps h = loop-render ps 0 [] (length (render ps) + 1) h
