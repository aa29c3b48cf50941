-- ===== src/Tunnel/Settled.antt =====
-- Sequences of actions: what is among them, and whether what they open is closed.
use vtun.Common.{◌≡◌, ◌⊎◌, inl, inr, List, [], ◌∷◌, ◌++◌, ℤ, arith}
use vtun.Session.{
  Action, opens, closes, connects, destroys, forks_up, runs_down, calls_linkfd, sleeps, attempts,
}

-- An action is among some.
abbrev pub Among : Action → List Action → Type 0
Among a [] = ⊥
Among a (x ∷ acts) = (a ≡ x) ⊎ Among a acts

-- Every descriptor that is opened is closed later.
abbrev pub Settled : List Action → Type 0
Settled [] = Unit
Settled (opens fd ∷ acts) = Among (closes fd) acts × Settled acts
Settled (closes fd ∷ acts) = Settled acts
Settled (destroys fd ∷ acts) = Settled acts
Settled (connects fd to ∷ acts) = Settled acts
Settled (forks_up ∷ acts) = Settled acts
Settled (runs_down ∷ acts) = Settled acts
Settled (calls_linkfd ∷ acts) = Settled acts
Settled (sleeps ∷ acts) = Settled acts
Settled (attempts ∷ acts) = Settled acts

pub Among-right : (a : Action) (xs ys : List Action) → Among a ys → Among a (xs ++ ys)
Among-right a [] ys h = h
Among-right a (x ∷ xs) ys h = inr (Among-right a xs ys h)

-- Actions that open nothing.
abbrev pub OpensNone : List Action → Type 0
OpensNone [] = Unit
OpensNone (opens fd ∷ acts) = ⊥
OpensNone (closes fd ∷ acts) = OpensNone acts
OpensNone (destroys fd ∷ acts) = OpensNone acts
OpensNone (connects fd to ∷ acts) = OpensNone acts
OpensNone (forks_up ∷ acts) = OpensNone acts
OpensNone (runs_down ∷ acts) = OpensNone acts
OpensNone (calls_linkfd ∷ acts) = OpensNone acts
OpensNone (sleeps ∷ acts) = OpensNone acts
OpensNone (attempts ∷ acts) = OpensNone acts

pub Settled-append : (xs ys : List Action) → OpensNone xs → Settled ys → Settled (xs ++ ys)
Settled-append [] ys none_there h = h
Settled-append (opens fd ∷ xs) ys none_there h = absurd none_there
Settled-append (closes fd ∷ xs) ys none_there h = Settled-append xs ys none_there h
Settled-append (destroys fd ∷ xs) ys none_there h = Settled-append xs ys none_there h
Settled-append (connects fd to ∷ xs) ys none_there h = Settled-append xs ys none_there h
Settled-append (forks_up ∷ xs) ys none_there h = Settled-append xs ys none_there h
Settled-append (runs_down ∷ xs) ys none_there h = Settled-append xs ys none_there h
Settled-append (calls_linkfd ∷ xs) ys none_there h = Settled-append xs ys none_there h
Settled-append (sleeps ∷ xs) ys none_there h = Settled-append xs ys none_there h
Settled-append (attempts ∷ xs) ys none_there h = Settled-append xs ys none_there h

pub Among-append : (a : Action) (xs ys : List Action) → Among a (xs ++ ys) → Among a xs ⊎ Among a ys
Among-append a [] ys h = inr h
Among-append a (x ∷ xs) ys (inl e) = inl (inl e)
Among-append a (x ∷ xs) ys (inr h) = elim (Among-append a xs ys h) [
  | inl there ↦ inl (inr there)
  | inr there ↦ inr there
]

pub closes-injective : (fd gd : ℤ) → closes fd ≡ closes gd → fd ≡ gd
closes-injective fd gd e = ground (arith, e)

pub Among-left : (a : Action) (xs ys : List Action) → Among a xs → Among a (xs ++ ys)
Among-left a [] ys h = absurd h
Among-left a (x ∷ xs) ys (inl e) = inl e
Among-left a (x ∷ xs) ys (inr h) = inr (Among-left a xs ys h)

pub Settled-both : (xs ys : List Action) → Settled xs → Settled ys → Settled (xs ++ ys)
Settled-both [] ys hx hy = hy
Settled-both (opens fd ∷ xs) ys (closed, hx) hy =
    (Among-left (closes fd) xs ys closed, Settled-both xs ys hx hy)
Settled-both (closes fd ∷ xs) ys hx hy = Settled-both xs ys hx hy
Settled-both (destroys fd ∷ xs) ys hx hy = Settled-both xs ys hx hy
Settled-both (connects fd to ∷ xs) ys hx hy = Settled-both xs ys hx hy
Settled-both (forks_up ∷ xs) ys hx hy = Settled-both xs ys hx hy
Settled-both (runs_down ∷ xs) ys hx hy = Settled-both xs ys hx hy
Settled-both (calls_linkfd ∷ xs) ys hx hy = Settled-both xs ys hx hy
Settled-both (sleeps ∷ xs) ys hx hy = Settled-both xs ys hx hy
Settled-both (attempts ∷ xs) ys hx hy = Settled-both xs ys hx hy
