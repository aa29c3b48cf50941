-- ===== src/Link/Stack.antt =====
-- linkfd.c: the stack of modules that frames go through, down to the network and up from it.
--
-- The doubly linked list of the modules is a list from its head to its tail; the static variables
-- of a module's file are the state that the module carries. A frame is its `len` bytes.
pub mod RoundTrip
pub mod Checks
pub mod Chain
use vtun.Common.{
  ℕ, List, [], ◌∷◌, ◌++◌, Bytes, Bool, true, false, not, Option, none, some, ℤ, pos, negsuc, ltb_ℤ,
  ◌==ℤ◌, if◌then◌else◌,
}
use vtun.Host.{VtunHost}

-- `struct lfd_mod`
pub record Module : Type 1 where
  pub State : Type 0
  pub state : State
  pub alloc : Option (State → VtunHost → State × ℤ)
  pub encode : Option (State → Bytes → State × ℤ × Bytes)
  pub avail_encode : Option (State → State × ℤ)
  pub decode : Option (State → Bytes → State × ℤ × Bytes)
  pub avail_decode : Option (State → State × ℤ)
  pub free : Option (State → State × ℤ)

-- The module is not in the list: the links between the modules are fields of static variables, so that to
-- add one that is there would cut or close the list, and is not modelled.
abbrev pub lfd_add_mod {ℓ} : {A : Type ℓ} → List A → A → List A
lfd_add_mod mods m = mods ++ m ∷ []

-- A call of `encode` or `decode`, where the module has one.
abbrev pub apply : {S : Type 0} → Option (S → Bytes → S × ℤ × Bytes) → S → ℤ → Bytes → S × ℤ × Bytes
apply none s len input = (s, len, input)
apply (some f) s len input = f s input

-- A call of `avail_encode`, `avail_decode` or `free`, where the module has one.
abbrev pub call : {S : Type 0} → Option (S → S × ℤ) → S → ℤ → S × ℤ
call none s err = (s, err)
call (some f) s err = f s

abbrev pub is_positive : ℤ → Bool
is_positive z = ltb_ℤ (pos 0) z

-- From the head to the tail, while the length is positive.
unfoldable pub lfd_run_down : List Module → ℤ → Bytes → List Module × ℤ × Bytes
lfd_run_down [] len input = ([], len, input)
lfd_run_down (m ∷ mods) len input =
    let (s, ret, out) = apply m.encode m.state len input in
    let (behind, last, result) = lfd_run_down mods ret out in
    if is_positive len
    then (record m { state = s } ∷ behind, last, result)
    else (m ∷ mods, len, input)

-- From the tail to the head: the modules behind one run before it.
unfoldable pub lfd_run_up : List Module → ℤ → Bytes → List Module × ℤ × Bytes
lfd_run_up [] len input = ([], len, input)
lfd_run_up (m ∷ mods) len input =
    let (behind, ret, out) = lfd_run_up mods len input in
    let (s, last, result) = apply m.decode m.state ret out in
    if is_positive ret
    then (record m { state = s } ∷ behind, last, result)
    else (m ∷ behind, ret, out)

-- Each check goes on while the answer is positive.
unfoldable pub check_down_from : List Module → ℤ → List Module × ℤ
check_down_from [] err = ([], err)
check_down_from (m ∷ mods) err =
    let (s, answer) = call m.avail_encode m.state err in
    let (behind, last) = check_down_from mods answer in
    if is_positive err then (record m { state = s } ∷ behind, last) else (m ∷ mods, err)

unfoldable pub lfd_check_down : List Module → List Module × ℤ
lfd_check_down mods = check_down_from mods (pos 1)

unfoldable pub lfd_check_up : List Module → List Module × ℤ
lfd_check_up [] = ([], pos 1)
lfd_check_up (m ∷ mods) =
    let (behind, err) = lfd_check_up mods in
    let (s, answer) = call m.avail_decode m.state err in
    if is_positive err then (record m { state = s } ∷ behind, answer) else (m ∷ behind, err)

abbrev pub call_alloc : {S : Type 0} → Option (S → VtunHost → S × ℤ) → S → VtunHost → S × ℤ
call_alloc none s host = (s, pos 0)
call_alloc (some f) s host = f s host

-- The modules are initialised in order, up to the first that answers other than 0.
unfoldable pub lfd_alloc_mod : List Module → VtunHost → List Module × ℤ
lfd_alloc_mod [] host = ([], pos 0)
lfd_alloc_mod (m ∷ mods) host =
    let (s, err) = call_alloc m.alloc m.state host in
    let (behind, last) = lfd_alloc_mod mods host in
    if err ==ℤ pos 0
    then (record m { state = s } ∷ behind, last)
    else (record m { state = s } ∷ mods, pos 1)

-- The loop of `lfd_free_mod`.
unfoldable pub free_loop : List Module → List Module × ℤ
free_loop [] = ([], pos 0)
free_loop (m ∷ mods) =
    let (s, err) = call m.free m.state (pos 0) in
    let (behind, last) = free_loop mods in
    if err ==ℤ pos 0
    then (record m { state = s } ∷ behind, last)
    else (record m { state = s } ∷ mods, pos 1)

-- The list is emptied only where every module was freed.
unfoldable pub lfd_free_mod : List Module → List Module × ℤ
unfolding free_loop
lfd_free_mod mods =
    let (freed, err) = free_loop mods in if err ==ℤ pos 0 then ([], pos 0) else (freed, err)
