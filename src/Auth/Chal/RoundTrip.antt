-- ===== src/Auth/Chal/RoundTrip.antt =====
-- A challenge survives its text.
use vtun.Common.{
  ℕ, zero, suc, ◌+◌, ◌-◌, ◌*◌, ◌/◌, ◌%◌, ◌==◌, ◌≡◌, ◌≢◌, ◌<◌, ◌≤◌, ◌∙◌, refl, ap, sym, subst, [],
  ◌∷◌, ◌++◌, Bytes, IsBytes, length, Bool, true, false, ◌&&◌, some, All, arith, append_assoc,
}
use vtun.Common.Bits.{bit_and, bit_or}
use vtun.Common.Masks.{bit_and_0f, bit_and_f0, bit_or-nibble}
use vtun.Common.Strings.{skip_over, up_to, member, strchr-append, up_to-append}
use vtun.Auth.Chal.{cl2cs, cs2cl, letters, unletters, letter, off_a, vtun_chal_size}

-- A test that holds below a bound.
all_below : ℕ → (ℕ → Bool) → Bool
all_below zero p = true
all_below (suc n) p = p n && all_below n p

all_below-lookup : (n : ℕ) (p : ℕ → Bool) (x : ℕ) → all_below n p ≡ true → x < n → p x ≡ true
unfolding all_below
all_below-lookup zero p x h lt = absurd (omega arith)
all_below-lookup (suc n) p x h lt = ground (arith, all_below-lookup n p x)

letter_table : all_below 16 (λ n. letter n == n + 97) ≡ true
unfolding all_below
letter_table = refl

letter_eq : (n : ℕ) → n < 16 → letter n ≡ n + 97
letter_eq n h = ground (arith, all_below-lookup 16 (λ n. letter n == n + 97) n letter_table h)

high_letter : (c : ℕ) → c < 256 → letter (bit_and c 0xf0 / 16) ≡ c / 16 + 97
high_letter c h =
    let e : bit_and c 0xf0 / 16 ≡ c / 16 = omega (arith, bit_and_f0 c h) in
    ap (λ n. letter n) e ∙ letter_eq (c / 16) (omega arith)

low_letter : (c : ℕ) → letter (bit_and c 0x0f) ≡ c % 16 + 97
low_letter c = ap (λ n. letter n) (bit_and_0f c) ∙ letter_eq (c % 16) (omega arith)

-- The two letters of a byte.
pub letters_byte :
    (c : ℕ) (chal : Bytes)
    → c < 256
    → letters (c ∷ chal) ≡ (c / 16 + 97) ∷ (c % 16 + 97) ∷ letters chal
unfolding letters
letters_byte c chal h = rw (high_letter c h, low_letter c) refl

byte_back : (c : ℕ) → c < 256 → bit_or (off_a (c / 16 + 97) * 16 % 256) (off_a (c % 16 + 97)) ≡ c
byte_back c h =
    let high : off_a (c / 16 + 97) * 16 % 256 ≡ c / 16 * 16 = omega arith in
    let low : off_a (c % 16 + 97) ≡ c % 16 = omega arith in
    rw (high, low) (omega (arith, bit_or-nibble (c / 16) (c % 16) (omega arith)))

pub unletters-letters : (chal : Bytes) → IsBytes chal → unletters (letters chal) ≡ chal
unfolding letters unletters
unletters-letters [] h = refl
unletters-letters (c ∷ chal) h =
    ap (λ s. unletters s) (letters_byte c chal h.0)
    ∙ ap (λ d. d ∷ unletters (letters chal)) (byte_back c h.0)
    ∙ ap (λ s. c ∷ s) (unletters-letters chal h.1)

pub length-letters : (chal : Bytes) → length (letters chal) ≡ length chal * 2
unfolding letters
length-letters [] = refl
length-letters (c ∷ chal) = omega (arith, length-letters chal)

-- Every character of the text is a letter from `a` to `p`.
abbrev pub IsLetter : ℕ → Type 0
IsLetter x = (97 ≤ x) × (x < 113)

pub letters-IsLetter : (chal : Bytes) → IsBytes chal → All IsLetter (letters chal)
unfolding letters
letters-IsLetter [] h = tt
letters-IsLetter (c ∷ chal) h =
    subst (λ s. All IsLetter s) (sym (letters_byte c chal h.0))
      ((omega arith, omega arith), ((omega arith, omega arith), letters-IsLetter chal h.1))

pub All-weaken : (P Q : ℕ → Type 0) (s : Bytes) → ((x : ℕ) → P x → Q x) → All P s → All Q s
All-weaken P Q [] f h = tt
All-weaken P Q (x ∷ s) f h = (f x h.0, All-weaken P Q s f h.1)

skip_none : (s t : Bytes) → All IsLetter s → 0 < length s → skip_over (b'>' ∷ []) (s ++ t) ≡ s ++ t
unfolding skip_over
skip_none [] t h p = absurd (omega arith)
skip_none (x ∷ s) t h p = ground arith

-- A challenge of 16 bytes that `cl2cs` wrote, on a line with no `<` in front of it, is what `cs2cl`
-- reads, whatever follows it.
pub cs2cl-cl2cs :
    (before chal more : Bytes)
    → All (λ x. x ≢ b'<') before
    → IsBytes chal
    → length chal ≡ vtun_chal_size
    → cs2cl (before ++ (cl2cs chal ++ more)) ≡ some chal
unfolding cs2cl cl2cs
cs2cl-cl2cs before chal more clear bytes size =
    let s = letters chal in
    let t = s ++ b'>' ∷ more in
    let n : length s ≡ 32 = omega (arith, length-letters chal) in
    let text : before ++ (cl2cs chal ++ more) ≡ before ++ b'<' ∷ t = simp append_assoc in
    let skipped : skip_over (b'>' ∷ []) t ≡ t =
      skip_none s (b'>' ∷ more) (letters-IsLetter chal bytes) (omega arith) in
    let token : up_to (b'>' ∷ []) t ≡ s =
      up_to-append (b'>' ∷ []) s b'>' more
        (All-weaken IsLetter (λ x. member x (b'>' ∷ []) ≡ false) s (λ x h. ground arith)
          (letters-IsLetter chal bytes))
        refl in
    let front : length t - length t ≡ 0 = omega arith in
    ap (λ z. cs2cl z) text
    ∙ rw (strchr-append b'<' before t clear, cs2cl, skipped, token, front)
        (ground (arith, unletters-letters chal bytes))
