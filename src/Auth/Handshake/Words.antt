-- ===== src/Auth/Handshake/Words.antt =====
-- The texts of the handshake, as the other side reads them.
use vtun.Common.{
  ℕ, zero, suc, ◌+◌, ◌-◌, ◌≡◌, ◌≢◌, ◌<◌, ◌≤◌, ◌∙◌, refl, ap, [], ◌∷◌, ◌++◌, Bytes, false, length,
  take, drop, replicate, arith, All, All-append, take-of_le, length-append,
}
use vtun.Common.Strings.{
  c_string, token, cut, behind_token, member, skip_over, up_to, from, up_to-append, up_to-All,
  from-append, skip_over-none,
}
use vtun.Auth.Chal.RoundTrip.{All-weaken}
use vtun.Auth.Handshake.{print_p, string_of, newline, blanks, line, word1, word2}

string_of_front :
    (n : ℕ) (s t : Bytes) → All (λ x. x ≢ 0) s → length s < n → c_string (take n (s ++ 0 ∷ t)) ≡ s
unfolding c_string
string_of_front zero s t h short = absurd (omega arith)
string_of_front (suc n) [] t h short = refl
string_of_front (suc n) (x ∷ s) t h short = ground (arith, string_of_front n s t h.1 (omega arith))

-- A short text without NULs is read as it was printed.
pub string_of-print_p :
    (text : Bytes) → All (λ x. x ≢ 0) text → length text ≤ 48 → string_of (print_p text) ≡ text
unfolding string_of print_p
string_of-print_p text clean short =
    let whole : take 48 text ≡ text = take-of_le 48 text short in
    let zeros : 50 - length text ≡ suc (49 - length text) = omega arith in
    rw (whole, zeros) (string_of_front 49 text (replicate (49 - length text) 0) clean (omega arith))

cut_eq : (delims s t : Bytes) → skip_over delims s ≡ s → up_to delims s ≡ t → cut delims s ≡ t
cut_eq delims s t kept found =
    let none_cut : length s - length s ≡ 0 = omega arith in rw (kept, found, none_cut) refl

token_eq : (delims s t : Bytes) → skip_over delims s ≡ s → up_to delims s ≡ t → token delims s ≡ t
token_eq delims s t kept found = ap (λ z. up_to delims z) kept ∙ found

-- A character of a word.
pub record IsWordChar (x : ℕ) : Type 0 where
  pub not_nul : x ≢ 0
  pub not_newline : member x newline ≡ false
  pub not_blank : member x blanks ≡ false

module _ (x y : ℕ) (s r : Bytes) (hx : All IsWordChar (x ∷ s)) (hy : All IsWordChar (y ∷ r)) where
  abbrev words : Bytes
  words = (x ∷ s) ++ 58 ∷ 32 ∷ y ∷ r

  words-newline : All (λ z. member z newline ≡ false) words
  words-newline =
      All-append (λ z. member z newline ≡ false) (x ∷ s) (58 ∷ 32 ∷ y ∷ r)
        (All-weaken IsWordChar (λ z. member z newline ≡ false) (x ∷ s) (λ z h. h.not_newline) hx)
        (
          refl,
          (
            refl,
            All-weaken IsWordChar (λ z. member z newline ≡ false) (y ∷ r) (λ z h. h.not_newline) hy,
          ),
        )

  words_nul : All (λ z. z ≢ 0) (words ++ 10 ∷ [])
  words_nul =
      All-append (λ z. z ≢ 0) words (10 ∷ [])
        (All-append (λ z. z ≢ 0) (x ∷ s) (58 ∷ 32 ∷ y ∷ r)
          (All-weaken IsWordChar (λ z. z ≢ 0) (x ∷ s) (λ z h. h.not_nul) hx)
          (
            ground arith,
            (ground arith, All-weaken IsWordChar (λ z. z ≢ 0) (y ∷ r) (λ z h. h.not_nul) hy),
          ))
        (ground arith, tt)

  module _ (short : length s + length r ≤ 43) where
    line_eq : line (print_p (words ++ 10 ∷ [])) ≡ words
    line_eq =
        let read : string_of (print_p (words ++ 10 ∷ [])) ≡ words ++ 10 ∷ [] =
          string_of-print_p (words ++ 10 ∷ []) words_nul (
            omega
              (arith, length-append words (10 ∷ []), length-append (x ∷ s) (58 ∷ 32 ∷ y ∷ r))) in
        let kept : skip_over newline (words ++ 10 ∷ []) ≡ words ++ 10 ∷ [] =
          skip_over-none newline _ x hx.0.not_newline in
        let found : up_to newline (words ++ 10 ∷ []) ≡ words =
          up_to-append newline words 10 [] words-newline refl in
        ap (λ t. cut newline t) read ∙ cut_eq newline (words ++ 10 ∷ []) words kept found

    blanks_x : All (λ z. member z blanks ≡ false) (x ∷ s)
    blanks_x = All-weaken IsWordChar (λ z. member z blanks ≡ false) (x ∷ s) (λ z h. h.not_blank) hx

    blanks_y : All (λ z. member z blanks ≡ false) (y ∷ r)
    blanks_y = All-weaken IsWordChar (λ z. member z blanks ≡ false) (y ∷ r) (λ z h. h.not_blank) hy

    pub word1_eq : word1 (print_p (words ++ 10 ∷ [])) ≡ x ∷ s
    unfolding word1
    word1_eq =
        ap (λ t. token blanks t) line_eq
        ∙ token_eq blanks words (x ∷ s) (skip_over-none blanks _ x hx.0.not_blank)
            (up_to-append blanks (x ∷ s) 58 (32 ∷ y ∷ r) blanks_x refl)

    behind_eq : behind_token blanks words ≡ 32 ∷ y ∷ r
    behind_eq =
        ap (λ t. drop 1 (from blanks t))
          (skip_over-none blanks (s ++ 58 ∷ 32 ∷ y ∷ r) x hx.0.not_blank)
        ∙ ap (λ t. drop 1 t) (from-append blanks (x ∷ s) 58 (32 ∷ y ∷ r) blanks_x refl)

    skip_space : skip_over blanks (32 ∷ y ∷ r) ≡ y ∷ r
    unfolding skip_over
    skip_space = skip_over-none blanks r y hy.0.not_blank

    pub word2_eq : word2 (print_p (words ++ 10 ∷ [])) ≡ y ∷ r
    unfolding word2
    word2_eq =
        ap (λ t. token blanks (behind_token blanks t)) line_eq
        ∙ ap (λ t. token blanks t) behind_eq
        ∙ ap (λ t. up_to blanks t) skip_space
        ∙ up_to-All blanks (y ∷ r) blanks_y
