-- ===== src/Link/Stack/Checks.antt =====
-- Whether the stack accepts data.
use vtun.Common.{
  ◌≡◌, refl, sym, List, [], ◌∷◌, Bool, true, false, ◌&&◌, Option, none, some, ℤ, pos, arith,
  Bool-cases, inl, inr, ap, ◌∙◌,
}
use vtun.Link.Stack.{Module, call, is_positive, check_down_from, lfd_check_down, lfd_check_up}

-- Whether a module's callback, where it has one, answers more than 0.
abbrev accepts : {S : Type 0} → Option (S → S × ℤ) → S → Bool
accepts none s = true
accepts (some f) s = is_positive (f s).1

abbrev pub all_encode : List Module → Bool
all_encode [] = true
all_encode (m ∷ mods) = accepts m.avail_encode m.state && all_encode mods

abbrev pub all_decode : List Module → Bool
all_decode [] = true
all_decode (m ∷ mods) = accepts m.avail_decode m.state && all_decode mods

answer :
    {S : Type 0} (f : Option (S → S × ℤ)) (s : S) (err : ℤ)
    → is_positive err ≡ true
    → is_positive (call f s err).1 ≡ accepts f s
answer none s err h = h
answer (some f) s err h = refl

stopped :
    (mods : List Module) (err : ℤ)
    → is_positive err ≡ false
    → is_positive (check_down_from mods err).1 ≡ false
unfolding check_down_from
stopped [] err h = h
stopped (m ∷ mods) err h = rw (h, check_down_from) h

going :
    (mods : List Module) (err : ℤ)
    → is_positive err ≡ true
    → is_positive (check_down_from mods err).1 ≡ all_encode mods
unfolding check_down_from
going [] err h = h
going (m ∷ mods) err h =
    let next = (call m.avail_encode m.state err).1 in
    let said : is_positive next ≡ accepts m.avail_encode m.state =
      answer m.avail_encode m.state err h in
    elim (Bool-cases (is_positive next)) [
      | inl up ↦
          rw (h, check_down_from)
            (going mods next up ∙ ap (λ b. b && all_encode mods) (sym up ∙ said))
      | inr down ↦
          rw (h, check_down_from)
            (stopped mods next down ∙ ap (λ b. b && all_encode mods) (sym down ∙ said))
    ]

up_check : (mods : List Module) → is_positive (lfd_check_up mods).1 ≡ all_decode mods
unfolding lfd_check_up
up_check [] = refl
up_check (m ∷ mods) =
    let err = (lfd_check_up mods).1 in
    elim (Bool-cases (is_positive err)) [
      | inl up ↦
          let all : all_decode mods ≡ true = sym (up_check mods) ∙ up in
          rw (up, lfd_check_up) (ground (arith, all, answer m.avail_decode m.state err up))
      | inr down ↦
          let some_not : all_decode mods ≡ false = sym (up_check mods) ∙ down in
          rw (down, lfd_check_up) (ground (arith, some_not, down))
    ]

-- The stack accepts data from the device exactly if every module's `avail_encode` does, and data
-- from the network exactly if every module's `avail_decode` does.
pub checks_all :
    (mods : List Module)
    → (is_positive (lfd_check_down mods).1 ≡ all_encode mods)
      × (is_positive (lfd_check_up mods).1 ≡ all_decode mods)
unfolding lfd_check_down
checks_all mods = (going mods (pos 1) refl, up_check mods)
