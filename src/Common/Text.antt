-- ===== src/Common/Text.antt =====
-- Texts as bytes: what `%d` prints and what `strtol` and `atoi` of the C library read, base 10.
use Prim.Native.Nat.{ℕ, zero, suc, ◌+◌, ◌-◌, ◌*◌, ◌/◌, ◌%◌, ◌^◌, ◌≤◌, ◌<◌}
use Prim.Native.Char.{code}
use Prim.Native.String.{String}
use mathlib.Core.Path.{◌≡◌, refl, ◌∙◌}
use mathlib.Core.Bool.{Bool, true, false, ◌&&◌, ◌||◌}
use mathlib.Core.List.{[], ◌∷◌, ◌++◌, append_assoc}
use mathlib.Core.Logic.{inl, inr}
use native.Mathlib.Omega.{arith}
use vtun.Common.Tests.{ltb, leb, ◌==◌, if◌then◌else◌, Bool-cases}
use vtun.Common.Lists.{Bytes, All, All-append, length}
use vtun.Common.Int.{ℤ, pos, negsuc}

-- The code points of a literal: its bytes, since the literals here are ASCII.
abbrev pub codes : String → Bytes
codes String.[] = []
codes (String.◌∷◌ c s) = code c ∷ codes s

abbrev pub is_digit : ℕ → Bool
is_digit c = leb b'0' c && leb c b'9'

unfoldable pub dec_from : ℕ → ℕ → Bytes
dec_from zero n = []
dec_from (suc fuel) n =
    let more = dec_from fuel (n / 10) in
    if ltb n 10 then (b'0' + n) ∷ [] else more ++ (b'0' + n % 10) ∷ []

-- The decimal digits of `n`.
unfoldable pub dec : ℕ → Bytes
unfolding dec_from
dec n = dec_from (suc n) n

-- What `printf("%d", z)` prints.
unfoldable pub dec_ℤ : ℤ → Bytes
unfolding dec
dec_ℤ (pos n) = dec n
dec_ℤ (negsuc n) = b'-' ∷ dec (suc n)

is_space : ℕ → Bool
is_space c = c == 32 || (leb 9 c && leb c 13)

skip_space : Bytes → Bytes
skip_space [] = []
skip_space (c ∷ s) = let rest = skip_space s in if is_space c then rest else c ∷ s

-- The digits in front: their value behind `n`, whether there was one, and what follows.
scan : Bytes → ℕ → Bool → ℕ × Bool × Bytes
scan [] n seen = (n, seen, [])
scan (c ∷ s) n seen =
    let rest = scan s (n * 10 + (c - b'0')) true in if is_digit c then rest else (n, seen, c ∷ s)

abbrev long_max : ℕ
long_max = 2 ^ 63 - 1

-- A value out of range is cut to LONG_MIN or LONG_MAX.
clamp : Bool → ℕ → ℤ
clamp true zero = pos 0
clamp true (suc n) = if ltb long_max n then negsuc long_max else negsuc n
clamp false n = if ltb long_max n then pos long_max else pos n

-- Without a digit nothing is read: the value is 0 and the end is the start.
finish : Bytes → Bool → ℕ × Bool × Bytes → ℤ × Bytes
finish s negative (n, seen, rest) = if seen then (clamp negative n, rest) else (pos 0, s)

after_sign : Bytes → Bytes → ℤ × Bytes
after_sign s [] = (pos 0, s)
after_sign s (c ∷ t) =
    if c == b'-'
    then finish s true (scan t 0 false)
    else if c == b'+'
    then finish s false (scan t 0 false)
    else finish s false (scan (c ∷ t) 0 false)

-- `strtol(s, &end, 10)`: the value and the text from `end` on.
unfoldable pub strtol : Bytes → ℤ × Bytes
unfolding is_space skip_space scan clamp finish after_sign
strtol s = after_sign s (skip_space s)

-- A `long` stored in an `int` keeps its low 32 bits.
unfoldable pub to_int : ℤ → ℤ
to_int (pos n) = let w = n % 2 ^ 32 in if ltb w (2 ^ 31) then pos w else negsuc (2 ^ 32 - w - 1)
to_int (negsuc n) = let w = n % 2 ^ 32 in if ltb w (2 ^ 31) then negsuc w else pos (2 ^ 32 - w - 1)

-- The range of `int`.
abbrev pub IsInt : ℤ → Type 0
IsInt (pos n) = n < 2 ^ 31
IsInt (negsuc n) = n < 2 ^ 31

pub to_int_self : (z : ℤ) → IsInt z → to_int z ≡ z
unfolding to_int
to_int_self (pos n) h = ground arith
to_int_self (negsuc n) h = ground arith

-- Where a scan of digits ends.
abbrev pub EndsNumber : Bytes → Type 0
EndsNumber [] = Unit
EndsNumber (c ∷ s) = is_digit c ≡ false

scan_end : (s : Bytes) (n : ℕ) (seen : Bool) → EndsNumber s → scan s n seen ≡ (n, seen, s)
unfolding scan
scan_end [] n seen h = refl
scan_end (c ∷ s) n seen h = rw h

scan_digit :
    (d m : ℕ) (s : Bytes) (n : ℕ) (seen : Bool)
    → d < 10
    → n * 10 + d ≡ m
    → scan ((b'0' + d) ∷ s) n seen ≡ scan s m true
unfolding scan
scan_digit d m s n seen h e = ground arith

scan-dec_from :
    (fuel n : ℕ) (s : Bytes) → n < fuel → scan (dec_from fuel n ++ s) 0 false ≡ scan s n true
unfolding dec_from
scan-dec_from zero n s h = elim h [ ]
scan-dec_from (suc fuel) n s h = elim (Bool-cases (ltb n 10)) [
  | inl small ↦ rw small (scan_digit n n s 0 false (ground arith) (omega arith))
  | inr large ↦
      rw (large, append_assoc (dec_from fuel (n / 10)) ((b'0' + n % 10) ∷ []) s)
        (scan-dec_from fuel (n / 10) ((b'0' + n % 10) ∷ s) (ground arith)
          ∙ scan_digit (n % 10) n s (n / 10) true (omega arith) (omega arith))
]

-- A decimal number begins with a digit.
abbrev DigitFirst : Bytes → Type 0
DigitFirst s = (c : ℕ) × (t : Bytes) × (s ≡ c ∷ t) × (b'0' ≤ c) × (c ≤ b'9')

DigitFirst-append : (s t : Bytes) → DigitFirst s → DigitFirst (s ++ t)
DigitFirst-append s t (c, r, e, lo, hi) = (c, r ++ t, rw e, lo, hi)

DigitFirst-dec_from : (fuel n : ℕ) → n < fuel → DigitFirst (dec_from fuel n)
unfolding dec_from
DigitFirst-dec_from zero n h = elim h [ ]
DigitFirst-dec_from (suc fuel) n h = elim (Bool-cases (ltb n 10)) [
  | inl small ↦ rw small (b'0' + n, [], refl, omega arith, ground arith)
  | inr large ↦ rw large (DigitFirst-append _ _ (DigitFirst-dec_from fuel (n / 10) (ground arith)))
]

strtol_digits : (s : Bytes) → DigitFirst s → strtol s ≡ finish s false (scan s 0 false)
unfolding strtol
strtol_digits s (c, t, e, lo, hi) = rw e (ground arith)

strtol_minus : (s : Bytes) → strtol (b'-' ∷ s) ≡ finish (b'-' ∷ s) true (scan s 0 false)
unfolding strtol
strtol_minus s = refl

clamp_pos : (n : ℕ) → n < 2 ^ 31 → clamp false n ≡ pos n
unfolding clamp
clamp_pos n h = ground arith

clamp_neg : (n : ℕ) → n < 2 ^ 31 → clamp true (suc n) ≡ negsuc n
unfolding clamp
clamp_neg n h = ground arith

-- `strtol` reads back what `%d` printed, up to the first character that is no digit.
pub strtol-dec_ℤ :
    (z : ℤ) (rest : Bytes) → IsInt z → EndsNumber rest → strtol (dec_ℤ z ++ rest) ≡ (z, rest)
unfolding dec_ℤ finish
strtol-dec_ℤ (pos n) rest h ends =
    strtol_digits _ (DigitFirst-append _ rest (DigitFirst-dec_from (suc n) n (omega arith)))
    ∙ rw (scan-dec_from (suc n) n rest (omega arith), scan_end rest n true ends, clamp_pos n h)
strtol-dec_ℤ (negsuc n) rest h ends =
    strtol_minus (dec (suc n) ++ rest)
    ∙ rw (
      scan-dec_from (suc (suc n)) (suc n) rest (omega arith),
      scan_end rest (suc n) true ends,
      clamp_neg n h,
    )

strtol_tests :
    (strtol (codes "42>") ≡ (pos 42, codes ">"))
    × (strtol (codes " -7K") ≡ (negsuc 6, codes "K"))
    × (strtol (codes "K") ≡ (pos 0, codes "K"))
    × (dec_ℤ (negsuc 1023) ≡ codes "-1024")
unfolding strtol dec_ℤ
strtol_tests = (refl, refl, refl, refl)

-- A printed number has at least one digit.
pub length-dec_ℤ : (z : ℤ) → 0 < length (dec_ℤ z)
unfolding dec_ℤ
length-dec_ℤ (pos n) =
    let (c, t, e, _, _) = DigitFirst-dec_from (suc n) n (omega arith) in rw e (omega arith)
length-dec_ℤ (negsuc n) = omega arith

-- Where no number stands, `strtol` reads nothing.
pub strtol_gt : (s : Bytes) → strtol (b'>' ∷ s) ≡ (pos 0, b'>' ∷ s)
unfolding strtol
strtol_gt s = refl

-- What is printed for a number is no control character and no blank.
dec_from-IsVisible : (fuel n : ℕ) → All (λ x. 32 < x) (dec_from fuel n)
unfolding dec_from
dec_from-IsVisible zero n = tt
dec_from-IsVisible (suc fuel) n = elim (Bool-cases (ltb n 10)) [
  | inl small ↦ rw (small, if◌then◌else◌) (omega arith, tt)
  | inr large ↦
      rw (large, if◌then◌else◌)
        (All-append (λ x. 32 < x) (dec_from fuel (n / 10)) ((b'0' + n % 10) ∷ [])
          (dec_from-IsVisible fuel (n / 10)) (omega arith, tt))
]

pub dec_ℤ-IsVisible : (z : ℤ) → All (λ x. 32 < x) (dec_ℤ z)
unfolding dec_ℤ dec
dec_ℤ-IsVisible (pos n) = dec_from-IsVisible (suc n) n
dec_ℤ-IsVisible (negsuc n) = (omega arith, dec_from-IsVisible (suc (suc n)) (suc n))
