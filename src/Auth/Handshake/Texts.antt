-- ===== src/Auth/Handshake/Texts.antt =====
-- The messages of the handshake, as the other side reads them.
use vtun.Common.{
  ℕ, ◌≡◌, ◌≢◌, ◌<◌, ◌≤◌, ◌∙◌, refl, ap, sym, [], ◌∷◌, ◌++◌, Bytes, IsBytes, true, false, some,
  length, arith, All, All-append, append-nil, length-append,
}
use vtun.Common.Text.{codes}
use vtun.Common.Strings.{c_string, member, starts_with}
use vtun.Host.{VtunHost}
use vtun.Auth.Chal.{cl2cs, cs2cl, letters, vtun_chal_size}
use vtun.Auth.Chal.RoundTrip.{cs2cl-cl2cs, All-weaken, IsLetter, letters-IsLetter, length-letters}
use vtun.Auth.Flags.{bf2cf, cf2bf}
use vtun.Auth.Flags.Pieces.{IsCarried}
use vtun.Auth.Flags.Reading.{received, cf2bf-received}
use vtun.Auth.Flags.Visible.{bf2cf-visible}
use vtun.Auth.Handshake.{word1, word2, print_p, string_of}
use vtun.Auth.Handshake.Words.{IsWordChar, string_of-print_p, word1_eq, word2_eq}

abbrev pub host_line : Bytes → Bytes
host_line name = print_p (codes "HOST: " ++ (name ++ 10 ∷ []))

abbrev pub chal_line : Bytes → Bytes
chal_line chal = print_p (codes "CHAL: " ++ (cl2cs chal ++ 10 ∷ []))

abbrev pub ok_chal_line : Bytes → Bytes
ok_chal_line chal = print_p (codes "OK CHAL: " ++ (cl2cs chal ++ 10 ∷ []))

abbrev pub ok_flags_line : VtunHost → Bytes
ok_flags_line srv = print_p (codes "OK FLAGS: " ++ (bf2cf srv ++ 10 ∷ []))

abbrev pub greeting_line : Bytes → Bytes
greeting_line ver = print_p (codes "VTUN server ver " ++ (ver ++ 10 ∷ []))

pub word_char : (x : ℕ) → IsLetter x → IsWordChar x
word_char x h = record {
  not_nul = ground arith;
  not_newline = ground arith;
  not_blank = ground arith;
}

capital : (x : ℕ) → 65 ≤ x → x < 91 → IsWordChar x
capital x low high = record {
  not_nul = ground arith;
  not_newline = ground arith;
  not_blank = ground arith;
}

pub host_word : All IsWordChar (codes "HOST")
host_word = (
  capital b'H' (omega arith) (omega arith),
  (
    capital b'O' (omega arith) (omega arith),
    (capital b'S' (omega arith) (omega arith), (capital b'T' (omega arith) (omega arith), tt)),
  ),
)

chal_keyword : All IsWordChar (codes "CHAL")
chal_keyword = (
  capital b'C' (omega arith) (omega arith),
  (
    capital b'H' (omega arith) (omega arith),
    (capital b'A' (omega arith) (omega arith), (capital b'L' (omega arith) (omega arith), tt)),
  ),
)

-- A literal without a character.
pub without : (c : ℕ) (s : Bytes) → member c s ≡ false → All (λ x. x ≢ c) s
without c [] h = tt
without c (x ∷ s) h = (ground arith, without c s (ground arith))

pub greeted : (ver : Bytes) → starts_with (codes "VTUN") (string_of (greeting_line ver)) ≡ true
unfolding string_of print_p c_string
greeted ver = ground arith

-- The text of a challenge is one word.
module _ (chal : Bytes) (bytes : IsBytes chal) where
  chal_word : All IsWordChar (letters chal ++ b'>' ∷ [])
  chal_word =
      All-append IsWordChar (letters chal) (b'>' ∷ [])
        (All-weaken IsLetter IsWordChar (letters chal) word_char (letters-IsLetter chal bytes))
        (record { not_nul = ground arith; not_newline = refl; not_blank = refl }, tt)

  first_word : IsWordChar b'<'
  first_word = record { not_nul = ground arith; not_newline = refl; not_blank = refl }

  module _ (size : length chal ≡ vtun_chal_size) where
    text_size : length (letters chal ++ b'>' ∷ []) ≡ 33
    text_size = omega (arith, length-append (letters chal) (b'>' ∷ []), length-letters chal)

    pub ok_chal_text : string_of (ok_chal_line chal) ≡ codes "OK CHAL: " ++ (cl2cs chal ++ 10 ∷ [])
    unfolding cl2cs
    ok_chal_text =
        string_of-print_p (codes "OK CHAL: " ++ (cl2cs chal ++ 10 ∷ [])) clean
          (omega (arith, text_size, length-append (letters chal ++ b'>' ∷ []) (10 ∷ [])))
      where
        clean : All (λ x. x ≢ 0) (codes "OK CHAL: " ++ (cl2cs chal ++ 10 ∷ []))
        clean =
            All-append (λ x. x ≢ 0) (codes "OK CHAL: ") (cl2cs chal ++ 10 ∷ [])
              (without 0 (codes "OK CHAL: ") refl)
              (All-append (λ x. x ≢ 0) (cl2cs chal) (10 ∷ [])
                (All-weaken IsWordChar (λ x. x ≢ 0) (cl2cs chal) (λ x h. h.not_nul)
                  (first_word, chal_word))
                (without 0 (10 ∷ []) refl))

    pub chal_read : cs2cl (string_of (ok_chal_line chal)) ≡ some chal
    chal_read =
        ap (λ s. cs2cl s) ok_chal_text
        ∙ cs2cl-cl2cs (codes "OK CHAL: ") chal (10 ∷ []) (without b'<' (codes "OK CHAL: ") refl)
            bytes size

    pub chal_asked : word1 (chal_line chal) ≡ codes "CHAL"
    unfolding cl2cs
    chal_asked =
        word1_eq b'C' b'<' (codes "HAL") (letters chal ++ b'>' ∷ []) chal_keyword
          (first_word, chal_word) (omega (arith, text_size))

    pub chal_answer : word2 (chal_line chal) ≡ cl2cs chal
    unfolding cl2cs
    chal_answer =
        word2_eq b'C' b'<' (codes "HAL") (letters chal ++ b'>' ∷ []) chal_keyword
          (first_word, chal_word) (omega (arith, text_size))

    pub answer_read : cs2cl (cl2cs chal) ≡ some chal
    answer_read =
        ap (λ s. cs2cl s) (sym (append-nil (cl2cs chal))) ∙ cs2cl-cl2cs [] chal [] tt bytes size

module _ (srv : VtunHost) (short : length (bf2cf srv) ≤ 37) where
  pub flags_text : string_of (ok_flags_line srv) ≡ codes "OK FLAGS: " ++ (bf2cf srv ++ 10 ∷ [])
  flags_text =
      string_of-print_p (codes "OK FLAGS: " ++ (bf2cf srv ++ 10 ∷ [])) clean
        (omega (arith, length-append (bf2cf srv) (10 ∷ [])))
    where
      clean : All (λ x. x ≢ 0) (codes "OK FLAGS: " ++ (bf2cf srv ++ 10 ∷ []))
      clean =
          All-append (λ x. x ≢ 0) (codes "OK FLAGS: ") (bf2cf srv ++ 10 ∷ [])
            (without 0 (codes "OK FLAGS: ") refl)
            (All-append (λ x. x ≢ 0) (bf2cf srv) (10 ∷ [])
              (All-weaken (λ x. 32 < x) (λ x. x ≢ 0) (bf2cf srv) (λ x h. ground arith)
                (bf2cf-visible srv))
              (without 0 (10 ∷ []) refl))

  pub flags_read :
      (erange : ℕ) (cl : VtunHost)
      → 0 < erange
      → IsCarried erange srv
      → cf2bf erange (string_of (ok_flags_line srv)) cl ≡ (true, received srv cl)
  flags_read erange cl positive carried =
      ap (λ s. cf2bf erange s cl) flags_text
      ∙ cf2bf-received erange srv cl (codes "OK FLAGS: ") (10 ∷ []) positive carried
          (without b'<' (codes "OK FLAGS: ") refl)

pub ok_start :
    (chal : Bytes)
    → IsBytes chal
    → length chal ≡ vtun_chal_size
    → starts_with (codes "OK") (string_of (ok_chal_line chal)) ≡ true
ok_start chal bytes size = ap (λ s. starts_with (codes "OK") s) (ok_chal_text chal bytes size)

pub flags_start :
    (srv : VtunHost)
    → length (bf2cf srv) ≤ 37
    → starts_with (codes "OK") (string_of (ok_flags_line srv)) ≡ true
flags_start srv short = ap (λ s. starts_with (codes "OK") s) (flags_text srv short)
