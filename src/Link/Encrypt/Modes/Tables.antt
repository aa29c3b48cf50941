-- ===== src/Link/Encrypt/Modes/Tables.antt =====
-- The three tables of ciphers agree.
use vtun.Common.{◌≡◌, refl, Bool, true, false, ◌⊎◌, Option, none, some, ℤ, arith}
use vtun.Link.Encrypt.Modes.{Choice, choose, enc_cipher, dec_cipher, EvpCipher, block_of}

-- Both ends initialise the same mode.
pub enc_cipher-dec_cipher : (c : ℤ) → enc_cipher c ≡ dec_cipher c
unfolding enc_cipher dec_cipher
enc_cipher-dec_cipher c = refl

-- What a session's cipher selects: a mode with an initial vector, whose blocks and key length are
-- those that the buffers were laid out for, or none.
abbrev pub Fits : Choice → Option (EvpCipher × Bool) → Type 0
Fits ch none = ch.sb_init ≡ false
Fits ch (some (t, v)) = (ch.sb_init ≡ true) × (block_of t ≡ ch.blocksize) × (v ≡ ch.var_key)

-- For every cipher number, `cipher_enc_init` and `cipher_dec_init` choose the same mode; they choose
-- one exactly where `alloc_encrypt` sets up an initial vector, with the block size and the kind of key that
-- `alloc_encrypt` chose; and the block size is that of the cipher that it chose.
pub ciphers_agree :
    (c : ℤ)
    → (enc_cipher c ≡ dec_cipher c)
      × Fits (choose c) (enc_cipher c)
      × (block_of (choose c).cipher_type ≡ (choose c).blocksize)
      × (((choose c).blocksize ≡ 8) ⊎ ((choose c).blocksize ≡ 16))
unfolding enc_cipher dec_cipher choose
ciphers_agree c = (refl, ground arith, ground arith, ground arith)
