-- ===== src/Common/Masks.antt =====
-- Masks: `&` with the low `k` ones is the remainder, `&` with the other ones the rest.
use Prim.Native.Nat.{
  bit_and-bitwise, bit_or-bitwise, ℕ, zero, suc, ◌+◌, ◌*◌, ◌/◌, ◌%◌, ◌≤◌, ◌<◌, ◌^◌,
}
use mathlib.Core.Path.{◌≡◌, refl, ◌∙◌, sym, ap}
use mathlib.Core.Logic.{◌⊎◌, inl, inr}
use native.Mathlib.Omega.{arith}
use vtun.Common.Bits.{bit_and, bit_or, bit_and-half, bit_or-half}

bit_and-zero_below : (n a : ℕ) → a ≤ n → bit_and a 0 ≡ 0
bit_and-zero_below n zero h = omega (arith, bit_and-half 0 0)
bit_and-zero_below zero (suc a) h = absurd (omega arith)
bit_and-zero_below (suc n) (suc a) h =
    omega (arith, bit_and-half (suc a) 0, bit_and-zero_below n (suc a / 2) (omega arith))

pub bit_and-zero : (a : ℕ) → bit_and a 0 ≡ 0
bit_and-zero a = bit_and-zero_below a a (omega arith)

abbrev ones : ℕ → ℕ
ones zero = 0
ones (suc k) = ones k * 2 + 1

abbrev low : ℕ → ℕ → ℕ
low zero a = 0
low (suc k) a = low k (a / 2) * 2 + a % 2

abbrev double : ℕ → ℕ → ℕ
double zero m = m
double (suc k) m = double k m * 2

abbrev halve : ℕ → ℕ → ℕ
halve zero a = a
halve (suc k) a = halve k (a / 2)

bit_and-ones : (k a : ℕ) → bit_and a (ones k) ≡ low k a
bit_and-ones zero a = bit_and-zero a
bit_and-ones (suc k) a =
    omega (arith, bit_and-half a (ones k * 2 + 1), half, bit_and-ones k (a / 2))
  where
    half : bit_and (a / 2) ((ones k * 2 + 1) / 2) ≡ bit_and (a / 2) (ones k)
    half = let e : (ones k * 2 + 1) / 2 ≡ ones k = omega arith in rw e

bit_and-double : (k a m : ℕ) → bit_and a (double k m) ≡ double k (bit_and (halve k a) m)
bit_and-double zero a m = refl
bit_and-double (suc k) a m =
    omega (arith, bit_and-half a (double k m * 2), half, bit_and-double k (a / 2) m)
  where
    half : bit_and (a / 2) (double k m * 2 / 2) ≡ bit_and (a / 2) (double k m)
    half = let e : double k m * 2 / 2 ≡ double k m = omega arith in rw e

-- x & 0x0f
pub bit_and_0f : (a : ℕ) → bit_and a 0x0f ≡ a % 16
bit_and_0f a = bit_and-ones 4 a ∙ omega arith

-- x & 0xf0, for a byte
pub bit_and_f0 : (a : ℕ) → a < 256 → bit_and a 0xf0 ≡ a / 16 * 16
bit_and_f0 a h = bit_and-double 4 a 15 ∙ omega (arith, bit_and_0f (halve 4 a))

-- x & 0x0fff
pub bit_and_0fff : (a : ℕ) → bit_and a 0x0fff ≡ a % 4096
bit_and_0fff a = bit_and-ones 12 a ∙ omega arith

bit_and_fffff : (a : ℕ) → bit_and a 0xf_ffff ≡ low 20 a
bit_and_fffff a = bit_and-ones 20 a

-- x & ~0x0fff, for a 16-bit word in a 32-bit register
pub bit_and_fffff000 : (a : ℕ) → a < 2 ^ 16 → bit_and a 0xffff_f000 ≡ a / 4096 * 4096
bit_and_fffff000 a h = bit_and-double 12 a 0xf_ffff ∙ omega (arith, bit_and_fffff (halve 12 a))

-- x & 7
pub bit_and_7 : (a : ℕ) → bit_and a 7 ≡ a % 8
bit_and_7 a = bit_and-ones 3 a ∙ omega arith

bit_and-or_below :
    (n m a b : ℕ) → m ≤ n → bit_and (bit_or a b) m ≡ bit_or (bit_and a m) (bit_and b m)
bit_and-or_below n zero a b h = rw (bit_and-zero (bit_or a b), bit_and-zero a, bit_and-zero b)
bit_and-or_below zero (suc m) a b h = absurd (omega arith)
bit_and-or_below (suc n) (suc m) a b h = ground (
  arith,
  bit_and-half (bit_or a b) (suc m),
  bit_or-half a b,
  bit_and-half a (suc m),
  bit_and-half b (suc m),
  bit_or-half (bit_and a (suc m)) (bit_and b (suc m)),
  bit_and-or_below n (suc m / 2) (a / 2) (b / 2) (omega arith),
)

-- `&` distributes over `|`.
pub bit_and-bit_or : (m a b : ℕ) → bit_and (bit_or a b) m ≡ bit_or (bit_and a m) (bit_and b m)
bit_and-bit_or m a b = bit_and-or_below m m a b (omega arith)

bit_and-and_below : (n m a b : ℕ) → m ≤ n → bit_and (bit_and a b) m ≡ bit_and a (bit_and b m)
bit_and-and_below n zero a b h = rw (bit_and-zero (bit_and a b), bit_and-zero b, bit_and-zero a)
bit_and-and_below zero (suc m) a b h = absurd (omega arith)
bit_and-and_below (suc n) (suc m) a b h = ground (
  arith,
  bit_and-half (bit_and a b) (suc m),
  bit_and-half a b,
  bit_and-half b (suc m),
  bit_and-half a (bit_and b (suc m)),
  bit_and-and_below n (suc m / 2) (a / 2) (b / 2) (omega arith),
)

-- Two masks in turn are one.
pub bit_and_assoc : (m a b : ℕ) → bit_and (bit_and a b) m ≡ bit_and a (bit_and b m)
bit_and_assoc m a b = bit_and-and_below m m a b (omega arith)

pub zero-bit_and : (m : ℕ) → bit_and 0 m ≡ 0
zero-bit_and m = bit_and-bitwise 0 m

bit_or-zero_below : (n a : ℕ) → a ≤ n → bit_or a 0 ≡ a
bit_or-zero_below n zero h = omega (arith, bit_or-half 0 0)
bit_or-zero_below zero (suc a) h = absurd (omega arith)
bit_or-zero_below (suc n) (suc a) h =
    omega (arith, bit_or-half (suc a) 0, bit_or-zero_below n (suc a / 2) (omega arith))

pub bit_or-zero : (a : ℕ) → bit_or a 0 ≡ a
bit_or-zero a = bit_or-zero_below a a (omega arith)

pub zero-bit_or : (a : ℕ) → bit_or 0 a ≡ a
zero-bit_or a = bit_or-bitwise 0 a

double-zero : (k : ℕ) → double k 0 ≡ 0
double-zero zero = refl
double-zero (suc k) = omega (arith, double-zero k)

-- `&` with a single bit is 0 or that bit.
bit_and-single : (k f : ℕ) → (bit_and f (double k 1) ≡ 0) ⊎ (bit_and f (double k 1) ≡ double k 1)
bit_and-single k f = elim (remainder (halve k f)) [
  | inl even ↦
      inl (bit_and-double k f 1 ∙ rw (bit_and-ones 1 (halve k f)) (rw even (double-zero k)))
  | inr odd ↦ inr (bit_and-double k f 1 ∙ rw (bit_and-ones 1 (halve k f)) (rw odd refl))
]
  where
    remainder : (n : ℕ) → (low 1 n ≡ 0) ⊎ (low 1 n ≡ 1)
    remainder n = omega arith

-- The single bits of the flag word.
pub bit_and_1 : (f : ℕ) → (bit_and f 1 ≡ 0) ⊎ (bit_and f 1 ≡ 1)
bit_and_1 = bit_and-single 0

pub bit_and_2 : (f : ℕ) → (bit_and f 2 ≡ 0) ⊎ (bit_and f 2 ≡ 2)
bit_and_2 = bit_and-single 1

pub bit_and_4 : (f : ℕ) → (bit_and f 4 ≡ 0) ⊎ (bit_and f 4 ≡ 4)
bit_and_4 = bit_and-single 2

pub bit_and_8 : (f : ℕ) → (bit_and f 8 ≡ 0) ⊎ (bit_and f 8 ≡ 8)
bit_and_8 = bit_and-single 3

pub bit_and_40 : (f : ℕ) → (bit_and f 0x40 ≡ 0) ⊎ (bit_and f 0x40 ≡ 0x40)
bit_and_40 = bit_and-single 6

-- `f |= bits` leaves a mask alone that it does not meet, and sets one that was clear.
pub or_keeps : (f bits m : ℕ) → bit_and bits m ≡ 0 → bit_and (bit_or f bits) m ≡ bit_and f m
or_keeps f bits m h = bit_and-bit_or m f bits ∙ rw h (bit_or-zero (bit_and f m))

pub or_sets :
    (f bits m : ℕ) → bit_and f m ≡ 0 → bit_and bits m ≡ bits → bit_and (bit_or f bits) m ≡ bits
or_sets f bits m h k = bit_and-bit_or m f bits ∙ rw (h, k) (zero-bit_or bits)

-- `f &= mask` leaves a smaller mask alone.
pub and_keeps : (f mask m : ℕ) → bit_and mask m ≡ m → bit_and (bit_and f mask) m ≡ bit_and f m
and_keeps f mask m h = bit_and_assoc m f mask ∙ rw h

-- A clear mask is clear in each part.
pub clear_part : (f mask m : ℕ) → bit_and f mask ≡ 0 → bit_and mask m ≡ m → bit_and f m ≡ 0
clear_part f mask m h k = sym (and_keeps f mask m k) ∙ rw h (zero-bit_and m)

-- a << k | b, for b below 2 ^ k
bit_or-double : (k a b : ℕ) → b < 2 ^ k → bit_or (double k a) b ≡ double k a + b
bit_or-double zero a zero h = omega (arith, bit_or-zero a)
bit_or-double zero a (suc b) h = absurd (omega arith)
bit_or-double (suc k) a b h =
    omega (arith, bit_or-half (double k a * 2) b, half, bit_or-double k a (b / 2) (omega arith))
  where
    half : bit_or (double k a * 2 / 2) (b / 2) ≡ bit_or (double k a) (b / 2)
    half = let e : double k a * 2 / 2 ≡ double k a = omega arith in rw e

-- a << 4 | b, for a nibble b
pub bit_or-nibble : (a b : ℕ) → b < 16 → bit_or (a * 16) b ≡ a * 16 + b
bit_or-nibble a b h = ap (λ n. bit_or n b) e ∙ bit_or-double 4 a b h ∙ omega arith
  where
    e : a * 16 ≡ double 4 a
    e = omega arith
