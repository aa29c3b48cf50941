-- ===== src/Link/Encrypt/Modes.antt =====
-- lfd_encrypt.c: what `alloc_encrypt`, `cipher_enc_init` and `cipher_dec_init` choose for the cipher
-- of a session, and the interface to OpenSSL's EVP functions and to MD5.
pub mod Tables
use vtun.Common.{
  ℕ, ◌+◌, ◌-◌, ◌/◌, ◌==◌, ◌≡◌, ◌%◌, ◌≤◌, [], ◌∷◌, ◌++◌, Bytes, IsBytes, Bool, true, false, ◌||◌,
  Option, none, some, ℤ, pos, ◌==ℤ◌, if◌then◌else◌, length, take, drop,
}

-- The functions that name a cipher: EVP_aes_256_ecb() and so on.
pub data EvpCipher : Type 0 where
  aes_256_ecb : EvpCipher
  aes_256_cbc : EvpCipher
  aes_256_cfb : EvpCipher
  aes_256_ofb : EvpCipher
  aes_128_ecb : EvpCipher
  aes_128_cbc : EvpCipher
  aes_128_cfb : EvpCipher
  aes_128_ofb : EvpCipher
  bf_ecb : EvpCipher
  bf_cbc : EvpCipher
  bf_cfb : EvpCipher
  bf_ofb : EvpCipher

-- The size of a block of a cipher, in bytes, as its documentation gives it.
abbrev pub block_of : EvpCipher → ℕ
block_of bf_ecb = 8
block_of bf_cbc = 8
block_of bf_cfb = 8
block_of bf_ofb = 8
block_of _ = 16

-- OpenSSL, which the program only calls. Contexts are made without padding; a key length is set for
-- some ciphers. What one side encrypts in whole blocks, the other side decrypts in the same order;
-- an ECB context has no state.
pub record Evp : Type 1 where
  pub EncCtx : Type 0
  pub DecCtx : Type 0
  pub EcbCtx : Type 0
  pub enc_init : EvpCipher → Option ℕ → Bytes → Bytes → EncCtx
  pub dec_init : EvpCipher → Option ℕ → Bytes → Bytes → DecCtx
  pub enc_update : EncCtx → Bytes → EncCtx × Bytes
  pub dec_update : DecCtx → Bytes → DecCtx × Bytes
  pub ecb_init : EvpCipher → Option ℕ → Bytes → EcbCtx
  pub ecb_encrypt : EcbCtx → Bytes → Bytes
  pub ecb_decrypt : EcbCtx → Bytes → Bytes
  pub md5 : Bytes → Bytes
  pub Synced : ℕ → EncCtx → DecCtx → Type 0
  pub Synced-init :
      (t : EvpCipher) (n : Option ℕ) (key iv : Bytes)
      → Synced (block_of t) (enc_init t n key iv) (dec_init t n key iv)
  pub updates :
      (n : ℕ) (e : EncCtx) (d : DecCtx) (b : Bytes)
      → Synced n e d
      → length b % n ≡ 0
      → IsBytes b
      → (e' : EncCtx) × (d' : DecCtx) × (x : Bytes) × (enc_update e b ≡ (e', x))
        × (dec_update d x ≡ (d', b))
        × Synced n e' d'
        × (length x ≡ length b)
        × IsBytes x
  pub ecb_decrypt-encrypt :
      (c : EcbCtx) (b : Bytes) → length b % 16 ≡ 0 → IsBytes b → ecb_decrypt c (ecb_encrypt c b) ≡ b
  pub length-ecb_encrypt :
      (c : EcbCtx) (b : Bytes) → length b % 16 ≡ 0 → length (ecb_encrypt c b) ≡ length b
  pub ecb_encrypt-IsBytes :
      (c : EcbCtx) (b : Bytes) → length b % 16 ≡ 0 → IsBytes b → IsBytes (ecb_encrypt c b)

-- Cipher options of vtun.h.
abbrev pub vtun_enc_bf128ecb : ℕ
vtun_enc_bf128ecb = 1

abbrev pub vtun_enc_bf128cbc : ℕ
vtun_enc_bf128cbc = 2

abbrev pub vtun_enc_bf128cfb : ℕ
vtun_enc_bf128cfb = 3

abbrev pub vtun_enc_bf128ofb : ℕ
vtun_enc_bf128ofb = 4

abbrev pub vtun_enc_bf256ecb : ℕ
vtun_enc_bf256ecb = 5

abbrev pub vtun_enc_bf256cbc : ℕ
vtun_enc_bf256cbc = 6

abbrev pub vtun_enc_bf256cfb : ℕ
vtun_enc_bf256cfb = 7

abbrev pub vtun_enc_bf256ofb : ℕ
vtun_enc_bf256ofb = 8

abbrev pub vtun_enc_aes128ecb : ℕ
vtun_enc_aes128ecb = 9

abbrev pub vtun_enc_aes128cbc : ℕ
vtun_enc_aes128cbc = 10

abbrev pub vtun_enc_aes128cfb : ℕ
vtun_enc_aes128cfb = 11

abbrev pub vtun_enc_aes128ofb : ℕ
vtun_enc_aes128ofb = 12

abbrev pub vtun_enc_aes256ecb : ℕ
vtun_enc_aes256ecb = 13

abbrev pub vtun_enc_aes256cbc : ℕ
vtun_enc_aes256cbc = 14

abbrev pub vtun_enc_aes256cfb : ℕ
vtun_enc_aes256cfb = 15

abbrev pub vtun_enc_aes256ofb : ℕ
vtun_enc_aes256ofb = 16

-- What the `switch` of `alloc_encrypt` sets.
pub record Choice : Type 0 where
  pub blocksize : ℕ
  pub keysize : ℕ
  pub var_key : Bool
  pub sb_init : Bool
  pub cipher_type : EvpCipher

abbrev choice : ℕ → ℕ → Bool → Bool → EvpCipher → Choice
choice b k v s t = record { blocksize = b; keysize = k; var_key = v; sb_init = s; cipher_type = t }

unfoldable pub choose : ℤ → Choice
choose c =
    let is : ℕ → Bool = λ n. c ==ℤ pos n in
    if is vtun_enc_aes256ofb || is vtun_enc_aes256cfb || is vtun_enc_aes256cbc
    then choice 16 32 false true aes_256_ecb
    else if is vtun_enc_aes256ecb
    then choice 16 32 false false aes_256_ecb
    else if is vtun_enc_aes128ofb || is vtun_enc_aes128cfb || is vtun_enc_aes128cbc
    then choice 16 16 false true aes_128_ecb
    else if is vtun_enc_aes128ecb
    then choice 16 16 false false aes_128_ecb
    else if is vtun_enc_bf256ofb || is vtun_enc_bf256cfb || is vtun_enc_bf256cbc
    then choice 8 32 true true bf_ecb
    else if is vtun_enc_bf256ecb
    then choice 8 32 true false bf_ecb
    else if is vtun_enc_bf128ofb || is vtun_enc_bf128cfb || is vtun_enc_bf128cbc
    then choice 8 16 true true bf_ecb
    else choice 8 16 true false bf_ecb

-- The `switch` of `cipher_enc_init`: the cipher, and whether its key length is set.
unfoldable pub enc_cipher : ℤ → Option (EvpCipher × Bool)
enc_cipher c =
    let is : ℕ → Bool = λ n. c ==ℤ pos n in
    if is vtun_enc_aes256ofb
    then some (aes_256_ofb, false)
    else if is vtun_enc_aes256cfb
    then some (aes_256_cfb, false)
    else if is vtun_enc_aes256cbc
    then some (aes_256_cbc, false)
    else if is vtun_enc_aes128ofb
    then some (aes_128_ofb, false)
    else if is vtun_enc_aes128cfb
    then some (aes_128_cfb, false)
    else if is vtun_enc_aes128cbc
    then some (aes_128_cbc, false)
    else if is vtun_enc_bf256ofb || is vtun_enc_bf128ofb
    then some (bf_ofb, true)
    else if is vtun_enc_bf256cfb || is vtun_enc_bf128cfb
    then some (bf_cfb, true)
    else if is vtun_enc_bf256cbc || is vtun_enc_bf128cbc
    then some (bf_cbc, true)
    else none

-- The `switch` of `cipher_dec_init`.
unfoldable pub dec_cipher : ℤ → Option (EvpCipher × Bool)
dec_cipher c =
    let is : ℕ → Bool = λ n. c ==ℤ pos n in
    if is vtun_enc_aes256ofb
    then some (aes_256_ofb, false)
    else if is vtun_enc_aes256cfb
    then some (aes_256_cfb, false)
    else if is vtun_enc_aes256cbc
    then some (aes_256_cbc, false)
    else if is vtun_enc_aes128ofb
    then some (aes_128_ofb, false)
    else if is vtun_enc_aes128cfb
    then some (aes_128_cfb, false)
    else if is vtun_enc_aes128cbc
    then some (aes_128_cbc, false)
    else if is vtun_enc_bf256ofb || is vtun_enc_bf128ofb
    then some (bf_ofb, true)
    else if is vtun_enc_bf256cfb || is vtun_enc_bf128cfb
    then some (bf_cfb, true)
    else if is vtun_enc_bf256cbc || is vtun_enc_bf128cbc
    then some (bf_cbc, true)
    else none

module _ (evp : Evp) where
  -- The hashed password as a key of `size` bytes, where `malloc` does not fail.
  unfoldable pub prep_key : ℕ → Bytes → Option Bytes
  prep_key size passwd =
      let halflen = length passwd / 2 in
      if size == 32
      then some (evp.md5 (take halflen passwd) ++ evp.md5 (drop halflen passwd))
      else if size == 16
      then some (evp.md5 passwd)
      else none
