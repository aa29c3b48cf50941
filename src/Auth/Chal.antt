-- ===== src/Auth/Chal.antt =====
-- auth.c: `cl2cs` and `cs2cl`, the text in which a challenge of 16 bytes travels.
--
-- A `char` is a byte; `cs2cl` takes the C string of its argument. Where it refuses the text it does
-- so before it writes to the challenge.
pub mod RoundTrip
use vtun.Common.{
  ℕ, ◌+◌, ◌*◌, ◌/◌, ◌%◌, ◌==◌, List, [], ◌∷◌, ◌++◌, Bytes, if◌then◌else◌, length, get_or, Bool,
  ◌||◌, not, ◌-◌, take, Option, none, some,
}
use vtun.Common.Bits.{bit_and, bit_or}
use vtun.Common.Text.{codes}
use vtun.Common.Strings.{strchr, cut, token}

abbrev pub vtun_chal_size : ℕ
vtun_chal_size = 16

-- The table `chr` of `cl2cs`.
abbrev pub letter : ℕ → ℕ
letter n = get_or (codes "abcdefghijklmnop") n 0

-- The loop of `cl2cs`.
unfoldable pub letters : Bytes → Bytes
letters [] = []
letters (c ∷ chal) = letter (bit_and c 0xf0 / 16) ∷ letter (bit_and c 0x0f) ∷ letters chal

unfoldable pub cl2cs : Bytes → Bytes
unfolding letters
cl2cs chal = b'<' ∷ (letters chal ++ b'>' ∷ [])

-- `c - 'a'` in a char.
abbrev pub off_a : ℕ → ℕ
off_a c = (c + 256 - b'a') % 256

-- The loop of `cs2cl`.
unfoldable pub unletters : Bytes → Bytes
unletters [] = []
unletters (c ∷ []) = []
unletters (c ∷ d ∷ s) = bit_or (off_a c * 16 % 256) (off_a d) ∷ unletters s

-- `cs2cl(str, chal)`: the challenge it writes, or none where it returns 0. `strtok` ends the text at
-- `ptr` behind its first token, and leaves at `ptr` the delimiters in front of it.
unfoldable pub cs2cl : Bytes → Option Bytes
cs2cl str = elim (strchr str b'<') [
  | [] ↦ none
  | c ∷ ptr ↦
      let text = cut (b'>' ∷ []) ptr in
      if length (token (b'>' ∷ []) ptr) == 0 || not (length text == vtun_chal_size * 2)
      then none
      else some (unletters text)
]
