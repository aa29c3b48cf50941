-- ===== src/Cipher/Rotate.antt =====
-- A concrete cipher, which adds a number to each byte: the laws of `BlockCipher` can hold.
use vtun.Common.{ℕ, ◌+◌, ◌-◌, ◌%◌, ◌≡◌, refl, ap, ◌∙◌, [], ◌∷◌, Bytes, IsBytes, length, arith}
use vtun.Cipher.{BlockCipher}

abbrev pub shift : ℕ → Bytes → Bytes
shift k [] = []
shift k (x ∷ s) = (x + k) % 256 ∷ shift k s

abbrev pub unshift : ℕ → Bytes → Bytes
unshift k [] = []
unshift k (x ∷ s) = (x + 256 - k % 256) % 256 ∷ unshift k s

pub unshift-shift : (k : ℕ) (s : Bytes) → IsBytes s → unshift k (shift k s) ≡ s
unshift-shift k [] h = refl
unshift-shift k (x ∷ s) h =
    let e : ((x + k) % 256 + 256 - k % 256) % 256 ≡ x = omega (arith, h.0) in
    ap (λ y. y ∷ unshift k (shift k s)) e ∙ ap (λ t. x ∷ t) (unshift-shift k s h.1)

pub length-shift : (k : ℕ) (s : Bytes) → length (shift k s) ≡ length s
length-shift k [] = refl
length-shift k (x ∷ s) = omega (arith, length-shift k s)

pub shift-IsBytes : (k : ℕ) (s : Bytes) → IsBytes (shift k s)
shift-IsBytes k [] = tt
shift-IsBytes k (x ∷ s) = (omega arith, shift-IsBytes k s)

abbrev pub rotate : BlockCipher
rotate = record {
  Key = ℕ;
  set_key = λ text. length text;
  encrypt = shift;
  decrypt = unshift;
  decrypt-encrypt = λ k b size bytes. unshift-shift k b bytes;
  length-encrypt = λ k b size. length-shift k b ∙ size;
  encrypt-IsBytes = λ k b size bytes. shift-IsBytes k b;
}
