-- ===== src/Link/Stack/Chain.antt =====
-- linkfd.c: the doubly linked list of `lfd_add_mod`, by its pointers, as what the list of modules
-- stands for.
--
-- A node is the number of a module's static variable; what its `next` and `prev` hold stays there
-- between two sessions. A pointer that is NULL is none.
pub mod Ring
use vtun.Common.{
  ℕ, ◌==◌, ◌≡◌, ◌≢◌, refl, sym, ◌∙◌, ap, subst, List, [], ◌∷◌, All, All-append, Option, none, some,
  Option-cases, inl, inr, if◌then◌else◌, arith,
}
use mathlib.Core.Option
use vtun.Link.Stack.{lfd_add_mod}

-- `lfd_mod_head` and `lfd_mod_tail`, and the two links of every node.
pub record Chain : Type 0 where
  pub head : Option ℕ
  pub tail : Option ℕ
  pub next : ℕ → Option ℕ
  pub prev : ℕ → Option ℕ

-- `node->field = value`
abbrev pub assign : ℕ → Option ℕ → (ℕ → Option ℕ) → ℕ → Option ℕ
assign node value field k = if k == node then value else field k

-- `lfd_add_mod(node)`, by what the head and the tail are. Where there is a head there is a tail.
abbrev pub add_at : ℕ → Chain → (head tail : Option ℕ) → Chain
add_at node c none tail = record {
  head = some node;
  tail = some node;
  next = assign node none c.next;
  prev = assign node none c.prev;
}
add_at node c (some h) none = c
add_at node c (some h) (some t) = record c {
  tail = some node;
  next = assign node none (assign t (some node) c.next);
  prev = assign node (some t) c.prev;
}

unfoldable pub add_node : ℕ → Chain → Chain
add_node node c = add_at node c c.head c.tail

-- One call behind the other.
unfoldable pub add_nodes : List ℕ → Chain → Chain
unfolding add_node
add_nodes [] c = c
add_nodes (x ∷ xs) c = add_nodes xs (add_node x c)

-- Where one of several modules is added behind another, in the list.
abbrev pub added : List ℕ → List ℕ → List ℕ
added xs [] = xs
added xs (y ∷ ys) = added (lfd_add_mod xs y) ys

-- From `from`, the links `next` lead through these nodes, to NULL.
abbrev pub Leads : (ℕ → Option ℕ) → Option ℕ → List ℕ → Type 0
Leads next from [] = from ≡ none
Leads next from (x ∷ xs) = (from ≡ some x) × Leads next (next x) xs

-- The links `prev` of these nodes lead back, the first one's to `before`, and `tail` is the last one.
abbrev pub LeadsBack : (ℕ → Option ℕ) → (before : Option ℕ) → List ℕ → (tail : Option ℕ) → Type 0
LeadsBack prev before [] tail = tail ≡ before
LeadsBack prev before (x ∷ xs) tail = (prev x ≡ before) × LeadsBack prev (some x) xs tail

-- A node that is none of these.
abbrev pub IsFresh : ℕ → List ℕ → Type 0
IsFresh y xs = All (λ x. x ≢ y) xs

abbrev pub IsDistinct : List ℕ → Type 0
IsDistinct [] = Unit
IsDistinct (x ∷ xs) = IsFresh x xs × IsDistinct xs

-- The pointers hold these nodes: from the head to the tail, and back.
pub record Holding (c : Chain) (xs : List ℕ) : Type 0 where
  pub forth : Leads c.next c.head xs
  pub back : LeadsBack c.prev none xs c.tail

Leads-assign :
    (y : ℕ) (v : Option ℕ) (next : ℕ → Option ℕ) (from : Option ℕ) (xs : List ℕ)
    → IsFresh y xs
    → Leads next from xs
    → Leads (assign y v next) from xs
Leads-assign y v next from [] fresh h = h
Leads-assign y v next from (x ∷ xs) (off, fresh) (here, h) = (
  here,
  subst (λ z. Leads (assign y v next) z xs) (ground (arith, off))
      (Leads-assign y v next (next x) xs fresh h),
)

LeadsBack-assign :
    (y : ℕ) (v : Option ℕ) (prev : ℕ → Option ℕ) (before tail : Option ℕ) (xs : List ℕ)
    → IsFresh y xs
    → LeadsBack prev before xs tail
    → LeadsBack (assign y v prev) before xs tail
LeadsBack-assign y v prev before tail [] fresh h = h
LeadsBack-assign y v prev before tail (x ∷ xs) (off, fresh) (here, h) =
    (ground (arith, off, here), LeadsBack-assign y v prev (some x) tail xs fresh h)

-- The tail is one of the nodes.
tail-ne :
    (x t : ℕ) (prev : ℕ → Option ℕ) (before : Option ℕ) (z : ℕ) (xs : List ℕ)
    → IsFresh x (z ∷ xs)
    → LeadsBack prev before (z ∷ xs) (some t)
    → t ≢ x
tail-ne x t prev before z [] fresh back e = fresh.0 (sym (Option.some-injective t z back.1) ∙ e)
tail-ne x t prev before z (w ∷ xs) fresh back e = tail-ne x t prev (some z) w xs fresh.1 back.1 e

-- The links behind the last node `t`, to which `y` is added.
Leads-added :
    (y t : ℕ) (next prev : ℕ → Option ℕ) (from : Option ℕ) (x : ℕ) (before : Option ℕ) (xs : List ℕ)
    → IsFresh y (x ∷ xs)
    → IsDistinct (x ∷ xs)
    → Leads next from (x ∷ xs)
    → LeadsBack prev before (x ∷ xs) (some t)
    → Leads (assign y none (assign t (some y) next)) from (lfd_add_mod (x ∷ xs) y)
Leads-added y t next prev from x before [] fresh distinct h back =
    let same : t ≡ x = Option.some-injective t x back.1 in
    (h.0, (ground (arith, same, fresh.0), ground arith))
Leads-added y t next prev from x before (z ∷ xs) fresh distinct h back =
    let other : t ≢ x = tail-ne x t prev (some x) z xs distinct.0 back.1 in
    let rest = Leads-added y t next prev (next x) z (some x) xs fresh.1 distinct.1 h.1 back.1 in
    let kept : next x ≡ assign y none (assign t (some y) next) x = ground (arith, other, fresh.0) in
    (
      h.0,
      subst (λ f. Leads (assign y none (assign t (some y) next)) f (lfd_add_mod (z ∷ xs) y)) kept
          rest,
    )

LeadsBack-added :
    (y t : ℕ) (prev : ℕ → Option ℕ) (before : Option ℕ) (xs : List ℕ)
    → IsFresh y xs
    → LeadsBack prev before xs (some t)
    → LeadsBack (assign y (some t) prev) before (lfd_add_mod xs y) (some y)
LeadsBack-added y t prev before [] fresh back = (ground arith ∙ back, refl)
LeadsBack-added y t prev before (x ∷ xs) fresh back =
    (ground (arith, fresh.0, back.0), LeadsBack-added y t prev (some x) xs fresh.1 back.1)

pub some_tail :
    (prev : ℕ → Option ℕ) (before tail : Option ℕ) (x : ℕ) (xs : List ℕ)
    → LeadsBack prev before (x ∷ xs) tail
    → (t : ℕ) × (tail ≡ some t)
some_tail prev before tail x [] back = (x, back.1)
some_tail prev before tail x (z ∷ xs) back = some_tail prev (some x) tail z xs back.1

-- A module is added behind the tail: the links back stay, and the new node's one leads to the old tail.
pub add_node-back :
    (y : ℕ) (x : ℕ) (xs : List ℕ) (h : ℕ) (before : Option ℕ) (c : Chain)
    → c.head ≡ some h
    → IsFresh y (x ∷ xs)
    → LeadsBack c.prev before (x ∷ xs) c.tail
    → ((add_node y c).head ≡ some h)
      × LeadsBack (add_node y c).prev before (lfd_add_mod (x ∷ xs) y) (add_node y c).tail
unfolding add_node
add_node-back y x xs h before c there fresh back =
    let (t, last) = some_tail c.prev before c.tail x xs back in
    let Back =
      λ (d : Chain). (d.head ≡ some h) × LeadsBack d.prev before (lfd_add_mod (x ∷ xs) y) d.tail in
    subst (λ o. Back (add_at y c o c.tail)) (sym there)
      (subst (λ o. Back (add_at y c (some h) o)) (sym last)
        (
          there,
          LeadsBack-added y t c.prev before (x ∷ xs) fresh
              (subst (λ o. LeadsBack c.prev before (x ∷ xs) o) last back),
        ))

add_node-forth :
    (y : ℕ) (x : ℕ) (xs : List ℕ) (c : Chain)
    → IsFresh y (x ∷ xs)
    → IsDistinct (x ∷ xs)
    → Holding c (x ∷ xs)
    → Leads (add_node y c).next (add_node y c).head (lfd_add_mod (x ∷ xs) y)
unfolding add_node
add_node-forth y x xs c fresh distinct h =
    let (t, last) = some_tail c.prev none c.tail x xs h.back in
    let Forth = λ (d : Chain). Leads d.next d.head (lfd_add_mod (x ∷ xs) y) in
    subst (λ o. Forth (add_at y c o c.tail)) (sym h.forth.0)
      (subst (λ o. Forth (add_at y c (some x) o)) (sym last)
        (Leads-added y t c.next c.prev c.head x none xs fresh distinct h.forth
          (subst (λ o. LeadsBack c.prev none (x ∷ xs) o) last h.back)))

-- A call with a module that is not in the list is one more element.
pub add_node-Holding :
    (y : ℕ) (xs : List ℕ) (c : Chain)
    → IsFresh y xs
    → IsDistinct xs
    → Holding c xs
    → Holding (add_node y c) (lfd_add_mod xs y)
unfolding add_node
add_node-Holding y [] c fresh distinct h =
    subst (λ o. Holding (add_at y c o c.tail) (y ∷ [])) (sym h.forth)
      (record { forth = (refl, ground arith); back = (ground arith, refl) })
add_node-Holding y (x ∷ xs) c fresh distinct h = record {
  forth = add_node-forth y x xs c fresh distinct h;
  back = (add_node-back y x xs x none c h.forth.0 fresh h.back).1;
}
