-- ===== src/Link/Stack/Chain/Ring.antt =====
-- What several calls of `lfd_add_mod` make of the list's pointers.
use vtun.Common.{
  ℕ, ◌≡◌, ◌≢◌, refl, sym, subst, List, [], ◌∷◌, All, All-append, Option, none, some, arith,
}
use vtun.Link.Stack.{lfd_add_mod}
use vtun.Link.Stack.Chain.{
  Chain, add_at, add_node, add_nodes, added, Leads, LeadsBack, IsFresh, IsDistinct, Holding,
  add_node-back, add_node-Holding, some_tail,
}

-- None of the modules `ys`, which are distinct, is in the list of distinct modules `xs`.
record Apart (xs ys : List ℕ) : Type 0 where
  distinct : IsDistinct xs
  new : IsDistinct ys
  fresh : All (λ y. IsFresh y xs) ys

IsDistinct-added :
    (y : ℕ) (xs : List ℕ) → IsFresh y xs → IsDistinct xs → IsDistinct (lfd_add_mod xs y)
IsDistinct-added y [] fresh distinct = (tt, tt)
IsDistinct-added y (x ∷ xs) fresh distinct = (
  All-append (λ z. z ≢ x) xs (y ∷ []) distinct.0 (λ e. fresh.0 (sym e), tt),
  IsDistinct-added y xs fresh.1 distinct.1,
)

IsFresh-added :
    (y : ℕ) (xs ys : List ℕ)
    → IsFresh y ys
    → All (λ z. IsFresh z xs) ys
    → All (λ z. IsFresh z (lfd_add_mod xs y)) ys
IsFresh-added y xs [] off fresh = tt
IsFresh-added y xs (z ∷ ys) off fresh = (
  All-append (λ w. w ≢ z) xs (y ∷ []) fresh.0 (λ e. off.0 (sym e), tt),
  IsFresh-added y xs ys off.1 fresh.1,
)

Apart-added : (y : ℕ) (xs ys : List ℕ) → Apart xs (y ∷ ys) → Apart (lfd_add_mod xs y) ys
Apart-added y xs ys a = record {
  distinct = IsDistinct-added y xs a.fresh.0 a.distinct;
  new = a.new.1;
  fresh = IsFresh-added y xs ys a.new.0 a.fresh.1;
}

add_nodes-Holding :
    (ys xs : List ℕ) (c : Chain)
    → Apart xs ys
    → Holding c xs
    → Holding (add_nodes ys c) (added xs ys)
unfolding add_nodes
add_nodes-Holding [] xs c a h = h
add_nodes-Holding (y ∷ ys) xs c a h =
    add_nodes-Holding ys (lfd_add_mod xs y) (add_node y c) (Apart-added y xs ys a)
      (add_node-Holding y xs c a.fresh.0 a.distinct h)

add_nodes-back :
    (ys : List ℕ) (x : ℕ) (xs : List ℕ) (h : ℕ) (before : Option ℕ) (c : Chain)
    → Apart (x ∷ xs) ys
    → c.head ≡ some h
    → LeadsBack c.prev before (x ∷ xs) c.tail
    → LeadsBack (add_nodes ys c).prev before (added (x ∷ xs) ys) (add_nodes ys c).tail
unfolding add_nodes
add_nodes-back [] x xs h before c a there back = back
add_nodes-back (y ∷ ys) x xs h before c a there back =
    let (still, longer) = add_node-back y x xs h before c there a.fresh.0 back in
    add_nodes-back ys x (lfd_add_mod xs y) h before (add_node y c) (Apart-added y (x ∷ xs) ys a)
      still longer

-- The first node again, behind the tail.
again-back :
    (a h t : ℕ) (c : Chain)
    → c.head ≡ some h
    → c.tail ≡ some t
    → ((add_node a c).head ≡ some h)
      × LeadsBack (add_node a c).prev (some t) (a ∷ []) (add_node a c).tail
unfolding add_node
again-back a h t c there last =
    let Back = λ (d : Chain). (d.head ≡ some h) × LeadsBack d.prev (some t) (a ∷ []) d.tail in
    subst (λ o. Back (add_at a c o c.tail)) (sym there)
      (subst (λ o. Back (add_at a c (some h) o)) (sym last) (there, (ground arith, refl)))

added-tail :
    (ys : List ℕ) (x : ℕ) (xs : List ℕ) (prev : ℕ → Option ℕ) (before tail : Option ℕ)
    → LeadsBack prev before (added (x ∷ xs) ys) tail
    → (t : ℕ) × (tail ≡ some t)
added-tail [] x xs prev before tail back = some_tail prev before tail x xs back
added-tail (y ∷ ys) x xs prev before tail back =
    added-tail ys x (lfd_add_mod xs y) prev before tail back

added-head :
    (ys : List ℕ) (x : ℕ) (xs : List ℕ) (next : ℕ → Option ℕ) (from : Option ℕ)
    → Leads next from (added (x ∷ xs) ys)
    → from ≡ some x
added-head [] x xs next from forth = forth.0
added-head (y ∷ ys) x xs next from forth = added-head ys x (lfd_add_mod xs y) next from forth

All-IsFresh : (a : ℕ) (ys : List ℕ) → IsFresh a ys → All (λ y. IsFresh y (a ∷ [])) ys
All-IsFresh a [] off = tt
All-IsFresh a (y ∷ ys) off = ((λ e. off.0 (sym e), tt), All-IsFresh a ys off.1)

none_there : (ys : List ℕ) → All (λ y. IsFresh y []) ys
none_there [] = tt
none_there (y ∷ ys) = (tt, none_there ys)

-- Distinct modules that are added to the empty list, whatever links their static variables still hold
-- from an earlier session, are the list that the model has: the links lead through it from the head to
-- the tail and back. Where the same modules are added again without a `lfd_free_mod` between, as after a
-- start that failed, the links back close to a ring: they lead through all modules, and from the first
-- one not to NULL but to the old tail `t`.
pub add_nodes-Chain :
    (a : ℕ) (rest : List ℕ) (c : Chain)
    → c.head ≡ none
    → c.tail ≡ none
    → IsDistinct (a ∷ rest)
    → Holding (add_nodes (a ∷ rest) c) (added [] (a ∷ rest))
      × (t : ℕ) × ((add_nodes (a ∷ rest) c).tail ≡ some t)
      × LeadsBack
          (add_nodes (a ∷ rest) (add_nodes (a ∷ rest) c)).prev
          (some t)
          (added [] (a ∷ rest))
          (add_nodes (a ∷ rest) (add_nodes (a ∷ rest) c)).tail
unfolding add_nodes
add_nodes-Chain a rest c free unended distinct =
    let built = add_nodes (a ∷ rest) c in
    let holding : Holding built (added [] (a ∷ rest)) =
      add_nodes-Holding (a ∷ rest) [] c
        (record { distinct = tt; new = distinct; fresh = none_there (a ∷ rest) })
        (record { forth = free; back = unended }) in
    let (t, last) = added-tail rest a [] built.prev none built.tail holding.back in
    let (still, again) =
      again-back a a t built (added-head rest a [] built.next built.head holding.forth) last in
    let apart : Apart (a ∷ []) rest = record {
      distinct = (tt, tt);
      new = distinct.1;
      fresh = All-IsFresh a rest distinct.0;
    } in
    (holding, t, last, add_nodes-back rest a [] a (some t) (add_node a built) apart still again)
