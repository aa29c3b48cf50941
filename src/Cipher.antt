-- ===== src/Cipher.antt =====
-- The block cipher of OpenSSL's libcrypto, which the program only calls: an interface of its
-- operations with the laws that the program relies on; and the loop over blocks of 8 bytes that the
-- callers write.
pub mod Rotate
use vtun.Common.{
  ℕ, zero, suc, ◌+◌, ◌*◌, ◌≡◌, ◌≤◌, ◌∙◌, refl, ap, sym, subst, List, [], ◌∷◌, ◌++◌, Bytes, IsBytes,
  All-append, length, length-append, take, drop, arith, take_front, drop_front, drop-append,
  take-append, take-append-drop, length-take, length-drop,
}

pub record BlockCipher : Type 1 where
  pub Key : Type 0
  -- `BF_set_key(&key, 16, MD5(text, strlen(text), NULL))`
  pub set_key : Bytes → Key
  -- `BF_ecb_encrypt(in, out, &key, BF_ENCRYPT)`, and with BF_DECRYPT
  pub encrypt : Key → Bytes → Bytes
  pub decrypt : Key → Bytes → Bytes
  pub decrypt-encrypt :
      (k : Key) (b : Bytes) → length b ≡ 8 → IsBytes b → decrypt k (encrypt k b) ≡ b
  pub length-encrypt : (k : Key) (b : Bytes) → length b ≡ 8 → length (encrypt k b) ≡ 8
  pub encrypt-IsBytes : (k : Key) (b : Bytes) → length b ≡ 8 → IsBytes b → IsBytes (encrypt k b)

-- A cipher applied to the first `n` blocks of a buffer.
unfoldable pub ecb : (Bytes → Bytes) → ℕ → Bytes → Bytes
ecb f zero s = []
ecb f (suc n) s = f (take 8 s) ++ ecb f n (drop 8 s)

IsBytes-take : (n : ℕ) (s : Bytes) → IsBytes s → IsBytes (take n s)
IsBytes-take zero s h = tt
IsBytes-take (suc n) [] h = tt
IsBytes-take (suc n) (x ∷ s) h = (h.0, IsBytes-take n s h.1)

pub IsBytes-drop : (n : ℕ) (s : Bytes) → IsBytes s → IsBytes (drop n s)
IsBytes-drop zero s h = h
IsBytes-drop (suc n) [] h = tt
IsBytes-drop (suc n) (x ∷ s) h = IsBytes-drop n s h.1

module _ (c : BlockCipher) (k : c.Key) where
  first_size : (n : ℕ) (s : Bytes) → length s ≡ suc n * 8 → length (take 8 s) ≡ 8
  first_size n s e = omega (arith, length-take 8 s)

  rest_size : (n : ℕ) (s : Bytes) → length s ≡ suc n * 8 → length (drop 8 s) ≡ n * 8
  rest_size n s e = omega (arith, length-drop 8 s)

  pub length-ecb : (n : ℕ) (s : Bytes) → length s ≡ n * 8 → length (ecb (c.encrypt k) n s) ≡ n * 8
  unfolding ecb
  length-ecb zero s e = refl
  length-ecb (suc n) s e = omega (
    arith,
    length-append (c.encrypt k (take 8 s)) (ecb (c.encrypt k) n (drop 8 s)),
    c.length-encrypt k (take 8 s) (first_size n s e),
    length-ecb n (drop 8 s) (rest_size n s e),
  )

  pub ecb-IsBytes :
      (n : ℕ) (s : Bytes) → length s ≡ n * 8 → IsBytes s → IsBytes (ecb (c.encrypt k) n s)
  unfolding ecb
  ecb-IsBytes zero s e h = tt
  ecb-IsBytes (suc n) s e h =
      All-append _ _ _ (c.encrypt-IsBytes k (take 8 s) (first_size n s e) (IsBytes-take 8 s h))
        (ecb-IsBytes n (drop 8 s) (rest_size n s e) (IsBytes-drop 8 s h))

  -- Whole blocks come back.
  pub ecb-decrypt :
      (n : ℕ) (s : Bytes)
      → length s ≡ n * 8
      → IsBytes s
      → ecb (c.decrypt k) n (ecb (c.encrypt k) n s) ≡ s
  unfolding ecb
  ecb-decrypt zero [] e h = refl
  ecb-decrypt zero (x ∷ s) e h = absurd (omega arith)
  ecb-decrypt (suc n) s e h =
      let first = c.encrypt k (take 8 s) in
      let more = ecb (c.encrypt k) n (drop 8 s) in
      let size : length first ≡ 8 = c.length-encrypt k (take 8 s) (first_size n s e) in
      let front : take 8 (first ++ more) ≡ first = take_front 8 first more size in
      let back : drop 8 (first ++ more) ≡ more = drop_front 8 first more size in
      ap (λ z. c.decrypt k z ++ ecb (c.decrypt k) n (drop 8 (first ++ more))) front
      ∙ ap (λ z. c.decrypt k first ++ ecb (c.decrypt k) n z) back
      ∙ ap (λ z. z ++ ecb (c.decrypt k) n more)
          (c.decrypt-encrypt k (take 8 s) (first_size n s e) (IsBytes-take 8 s h))
      ∙ ap (λ z. take 8 s ++ z) (ecb-decrypt n (drop 8 s) (rest_size n s e) (IsBytes-drop 8 s h))
      ∙ take-append-drop 8 s

-- What stands behind the blocks does not matter.
pub ecb-append :
    (f : Bytes → Bytes) (n : ℕ) (s t : Bytes) → length s ≡ n * 8 → ecb f n (s ++ t) ≡ ecb f n s
unfolding ecb
ecb-append f zero s t e = refl
ecb-append f (suc n) s t e =
    let first : take 8 (s ++ t) ≡ take 8 s = take-append 8 s t (omega arith) in
    let rest : drop 8 (s ++ t) ≡ drop 8 s ++ t = drop-append 8 s t (omega arith) in
    ap (λ z. f z ++ ecb f n (drop 8 (s ++ t))) first
    ∙ ap (λ z. f (take 8 s) ++ ecb f n z) rest
    ∙ ap (λ z. f (take 8 s) ++ z) (ecb-append f n (drop 8 s) t (omega (arith, length-drop 8 s)))
