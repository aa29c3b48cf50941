-- ===== src/Common/Strings.antt =====
-- C strings as bytes without the final NUL: the functions of <string.h> that the program calls.
use Prim.Native.Nat.{ℕ, ◌-◌}
use mathlib.Core.Path.{◌≡◌, refl}
use mathlib.Core.Logic.{◌≢◌}
use mathlib.Core.Bool.{Bool, true, false}
use mathlib.Core.List.{[], ◌∷◌, ◌++◌}
use native.Mathlib.Omega.{arith}
use vtun.Common.Tests.{◌==◌, if◌then◌else◌}
use vtun.Common.Lists.{Bytes, All, length, take, drop}

-- The string that starts a buffer: the bytes before the first NUL.
unfoldable pub c_string : Bytes → Bytes
c_string [] = []
c_string (x ∷ s) = let rest = c_string s in if x == 0 then [] else x ∷ rest

-- `strchr(s, c)`: the text from the first `c` on, or none.
unfoldable pub strchr : Bytes → ℕ → Bytes
strchr [] c = []
strchr (x ∷ s) c = let rest = strchr s c in if x == c then x ∷ s else rest

-- Whether a character is one of the delimiters.
abbrev pub member : ℕ → Bytes → Bool
member c [] = false
member c (d ∷ ds) = let rest = member c ds in if c == d then true else rest

-- `s + strspn(s, delims)`
unfoldable pub skip_over : Bytes → Bytes → Bytes
skip_over delims [] = []
skip_over delims (x ∷ s) = let rest = skip_over delims s in if member x delims then rest else x ∷ s

-- The first `strcspn(s, delims)` characters, and those from there on.
unfoldable pub up_to : Bytes → Bytes → Bytes
up_to delims [] = []
up_to delims (x ∷ s) = let rest = up_to delims s in if member x delims then [] else x ∷ rest

unfoldable pub from : Bytes → Bytes → Bytes
from delims [] = []
from delims (x ∷ s) = let rest = from delims s in if member x delims then x ∷ s else rest

-- What `strtok(s, delims)` answers, empty for NULL; what it leaves at `s`, which still holds the
-- delimiters in front of the token; and where the next call goes on.
abbrev pub token : Bytes → Bytes → Bytes
token delims s = up_to delims (skip_over delims s)

abbrev pub cut : Bytes → Bytes → Bytes
cut delims s = take (length s - length (skip_over delims s)) s ++ token delims s

abbrev pub behind_token : Bytes → Bytes → Bytes
behind_token delims s = drop 1 (from delims (skip_over delims s))

-- Equality of strings, `!strcmp(s, t)`.
abbrev pub equal : Bytes → Bytes → Bool
equal [] [] = true
equal [] (y ∷ t) = false
equal (x ∷ s) [] = false
equal (x ∷ s) (y ∷ t) = let rest = equal s t in if x == y then rest else false

-- `!strncmp(s, p, strlen(p))`
abbrev pub starts_with : Bytes → Bytes → Bool
starts_with [] s = true
starts_with (y ∷ p) [] = false
starts_with (y ∷ p) (x ∷ s) = let rest = starts_with p s in if x == y then rest else false

pub equal_refl : (s : Bytes) → equal s s ≡ true
equal_refl [] = refl
equal_refl (x ∷ s) = ground (arith, equal_refl s)

pub equal_eq : (s t : Bytes) → equal s t ≡ true → s ≡ t
equal_eq [] [] h = refl
equal_eq [] (y ∷ t) h = ground arith
equal_eq (x ∷ s) [] h = ground arith
equal_eq (x ∷ s) (y ∷ t) h = ground (arith, equal_eq s t)

pub strchr-append : (c : ℕ) (s t : Bytes) → All (λ x. x ≢ c) s → strchr (s ++ c ∷ t) c ≡ c ∷ t
unfolding strchr
strchr-append c [] t h = ground arith
strchr-append c (x ∷ s) t h = ground (arith, strchr-append c s t h.1)

-- A text without NULs, with one behind it, is a string.
pub c_string-append : (s t : Bytes) → All (λ x. x ≢ 0) s → c_string (s ++ 0 ∷ t) ≡ s
unfolding c_string
c_string-append [] t h = refl
c_string-append (x ∷ s) t h = ground (arith, c_string-append s t h.1)

pub up_to-append :
    (delims s : Bytes) (c : ℕ) (t : Bytes)
    → All (λ x. member x delims ≡ false) s
    → member c delims ≡ true
    → up_to delims (s ++ c ∷ t) ≡ s
unfolding up_to
up_to-append delims [] c t h e = ground arith
up_to-append delims (x ∷ s) c t h e = ground (arith, up_to-append delims s c t h.1 e)

pub from-append :
    (delims s : Bytes) (c : ℕ) (t : Bytes)
    → All (λ x. member x delims ≡ false) s
    → member c delims ≡ true
    → from delims (s ++ c ∷ t) ≡ c ∷ t
unfolding from
from-append delims [] c t h e = ground arith
from-append delims (x ∷ s) c t h e = ground (arith, from-append delims s c t h.1 e)

pub from-All : (delims s : Bytes) → All (λ x. member x delims ≡ false) s → from delims s ≡ []
unfolding from
from-All delims [] h = refl
from-All delims (x ∷ s) h = ground (arith, from-All delims s h.1)

pub skip_over-none :
    (delims s : Bytes) (x : ℕ) → member x delims ≡ false → skip_over delims (x ∷ s) ≡ x ∷ s
unfolding skip_over
skip_over-none delims s x h = rw (h, if◌then◌else◌) refl

pub up_to-All : (delims s : Bytes) → All (λ x. member x delims ≡ false) s → up_to delims s ≡ s
unfolding up_to
up_to-All delims [] h = refl
up_to-All delims (x ∷ s) h = ground (arith, up_to-All delims s h.1)
