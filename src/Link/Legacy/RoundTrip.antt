-- ===== src/Link/Legacy/RoundTrip.antt =====
-- A frame survives the old encryption, whose output is whole blocks.
use vtun.Common.{
  ℕ, zero, suc, ◌+◌, ◌-◌, ◌*◌, ◌/◌, ◌%◌, ◌^◌, ◌≡◌, ◌<◌, ◌≤◌, ◌∙◌, refl, ap, sym, ◌++◌, [], ◌∷◌,
  Bytes, IsBytes, pos, -ℤ_parts, ◌-ℤ◌, length, take, drop, replicate, set, arith, length-append,
  length-take, append_assoc, take-append-drop, All-append, take_front, drop_front, length-replicate,
  eq_of_parts,
}
use vtun.Common.Masks.{bit_and_7}
use vtun.Host.{invert}
use vtun.Cipher.{BlockCipher, ecb, ecb-decrypt, length-ecb, ecb-IsBytes, ecb-append}
use vtun.Link.Legacy.{pad_of, legacy_encrypt_buf, legacy_decrypt_buf}

pub pad_eq : (len : ℕ) → len < 2 ^ 31 → pad_of len ≡ 8 - len % 8
unfolding pad_of
pad_eq len h = omega (arith, bit_and_7 (invert len))

-- The bytes in front of a frame.
abbrev padding : ℕ → Bytes
padding zero = []
padding (suc n) = suc n ∷ replicate n 0

padding_eq : (n : ℕ) → set (replicate n 0) 0 n ≡ padding n
padding_eq zero = refl
padding_eq (suc n) = refl

length-padding : (n : ℕ) → length (padding n) ≡ n
length-padding zero = refl
length-padding (suc n) = omega (arith, length-replicate {A = ℕ} n 0)

IsBytes-zeros : (n : ℕ) → IsBytes (replicate n 0)
IsBytes-zeros zero = tt
IsBytes-zeros (suc n) = (omega arith, IsBytes-zeros n)

IsBytes-padding : (n : ℕ) → n < 256 → IsBytes (padding n)
IsBytes-padding zero h = tt
IsBytes-padding (suc n) h = (h, IsBytes-zeros n)

-- The first block of a padded frame, and what follows it.
module _ (p : ℕ) (input : Bytes) (below : p < 8) (fits : p ≤ length input) where
  first_block : Bytes
  first_block = padding (8 - p) ++ take p input

  split : padding (8 - p) ++ input ≡ first_block ++ drop p input
  unfolding first_block
  split =
      ap (λ s. padding (8 - p) ++ s) (sym (take-append-drop p input))
      ∙ sym (append_assoc (padding (8 - p)) (take p input) (drop p input))

  length-first_block : length first_block ≡ 8
  unfolding first_block
  length-first_block = omega (
    arith,
    length-append (padding (8 - p)) (take p input),
    length-padding (8 - p),
    length-take p input,
  )

  first_block_eq : take 8 (padding (8 - p) ++ input) ≡ first_block
  first_block_eq =
      ap (λ s. take 8 s) split ∙ take_front 8 first_block (drop p input) length-first_block

  behind_first : drop 8 (padding (8 - p) ++ input) ≡ drop p input
  behind_first =
      ap (λ s. drop 8 s) split ∙ drop_front 8 first_block (drop p input) length-first_block

  first_block-set : set (replicate (8 - p) 0) 0 (8 - p) ++ take p input ≡ first_block
  unfolding first_block
  first_block-set = ap (λ s. s ++ take p input) (padding_eq (8 - p))

module _ (c : BlockCipher) (key : c.Key) (input : Bytes) (small : length input < 2 ^ 31) where
  abbrev p : ℕ
  p = length input % 8

  -- The blocks behind the first.
  abbrev more : ℕ
  more = length input / 8

  abbrev padded : Bytes
  padded = padding (8 - p) ++ input

  length-padded : length padded ≡ suc more * 8
  length-padded = omega (arith, length-append (padding (8 - p)) input, length-padding (8 - p))

  encoded :
      legacy_encrypt_buf c key input ≡ (pos (length padded), ecb (c.encrypt key) (suc more) padded)
  unfolding legacy_encrypt_buf ecb
  encoded =
      let e = c.encrypt key in
      let below : p < 8 = omega arith in
      let fits : p ≤ length input = omega arith in
      let size : 8 - (8 - p) ≡ p = omega arith in
      let total : length input - p + 8 ≡ length padded = omega (arith, length-padded) in
      let count : (length input - p + 7) / 8 ≡ more = omega arith in
      rw (pad_eq (length input) small, legacy_encrypt_buf, size, total, count)
        (rw
          (
            first_block-set p input below fits,
            first_block_eq p input below fits,
            behind_first p input below fits,
          )
          refl)

module _ (c : BlockCipher) (key : c.Key) where
  -- The old decryption of a buffer whose frame is the encryption of a padded frame.
  decoded :
      (n k : ℕ) (input behind : Bytes)
      → length (padding (suc k) ++ input) ≡ n * 8
      → k < 8
      → IsBytes input
      → legacy_decrypt_buf c key (ecb (c.encrypt key) n (padding (suc k) ++ input)) behind
        ≡ (pos (length input), input)
  unfolding legacy_decrypt_buf
  decoded n k input behind size small bytes =
      let clear = padding (suc k) ++ input in
      let s = ecb (c.encrypt key) n clear in
      let long : length s ≡ n * 8 = length-ecb c key n clear size in
      let count : (length s + 7) / 8 ≡ n = omega arith in
      let back : ecb (c.decrypt key) n (s ++ behind) ≡ clear =
        ecb-append (c.decrypt key) n s behind long
        ∙ ecb-decrypt c key n clear size (
            All-append (λ x. x < 256) (padding (suc k)) input
              (IsBytes-padding (suc k) (omega arith)) bytes) in
      let rest : drop k (replicate k 0 ++ input) ≡ input =
        drop_front k (replicate k 0) input (length-replicate {A = ℕ} k 0) in
      let total : length s ≡ length input + suc k =
        omega (arith, length-append (padding (suc k)) input, length-padding (suc k)) in
      let ret : pos (length input + suc k) -ℤ pos (suc k) ≡ pos (length input) =
        eq_of_parts _ _ (omega (arith, -ℤ_parts (pos (length input + suc k)) (pos (suc k)))) in
      rw (count, legacy_decrypt_buf, back, total, rest, ret) (ground arith)

-- A frame that the old encryption module encodes comes back from the same key, whatever stands
-- behind it in the buffer; encoded, it is bytes in whole blocks, which are the returned length, and
-- from 1 to 8 bytes longer.
pub legacy_round_trip :
    (c : BlockCipher) (key : c.Key) (input behind : Bytes)
    → length input < 2 ^ 31
    → IsBytes input
    → (e : Bytes) × (legacy_encrypt_buf c key input ≡ (pos (length e), e))
      × (length e % 8 ≡ 0)
      × (length input < length e)
      × (length e ≤ length input + 8)
      × IsBytes e
      × (legacy_decrypt_buf c key e behind ≡ (pos (length input), input))
legacy_round_trip c key input behind small bytes =
    let n = suc (length input / 8) in
    let k = 7 - length input % 8 in
    let clear = padding (8 - length input % 8) ++ input in
    let same : 8 - length input % 8 ≡ suc k = omega arith in
    let size : length clear ≡ n * 8 = length-padded c key input small in
    let size' : length (padding (suc k) ++ input) ≡ n * 8 =
      ap (λ z. length (padding z ++ input)) (sym same) ∙ size in
    let e = ecb (c.encrypt key) n clear in
    let long : length e ≡ length clear = length-ecb c key n clear size ∙ sym size in
    (
      e,
      encoded c key input small ∙ ap (λ z. (pos z, e)) (sym long),
      omega arith,
      omega arith,
      omega arith,
      ecb-IsBytes c key n clear size (
          All-append (λ x. x < 256) (padding (8 - length input % 8)) input
            (IsBytes-padding (8 - length input % 8) (omega arith)) bytes),
      ap (λ z. legacy_decrypt_buf c key (ecb (c.encrypt key) n (padding z ++ input)) behind) same
          ∙ decoded c key n k input behind size' (omega arith) bytes,
    )
