-- ===== src/Link/Encrypt/State.antt =====
-- lfd_encrypt.c: the static variables, and how `alloc_encrypt`, `cipher_enc_init` and `cipher_dec_init` set
-- them.
use vtun.Common.{
  ℕ, suc, ◌+◌, ◌*◌, ◌/◌, ◌%◌, ◌^◌, [], ◌∷◌, Bytes, Bool, Option, none, some, ◌>>=◌, ℤ,
  if◌then◌else◌, get_or,
}
use vtun.Host.{VtunHost}
use vtun.Link.Encrypt.Modes.{Evp, choose, enc_cipher, dec_cipher, prep_key}

pub data CipherState : Type 0 where
  cipher_init : CipherState
  cipher_code : CipherState
  cipher_sequence : CipherState
  cipher_req_init : CipherState

abbrev pub max_gibberish : ℕ
max_gibberish = 10

abbrev pub min_gibberish : ℕ
min_gibberish = 1

abbrev pub max_gibberish_time : ℕ
max_gibberish_time = 2

-- The static variables of the module.
pub record Encrypt (evp : Evp) : Type 0 where
  pub cipher : ℤ
  pub blocksize : ℕ
  pub keysize : ℕ
  pub pkey : Bytes
  pub enc_state : CipherState
  pub dec_state : CipherState
  pub sequence_num : ℕ
  pub gibberish : ℕ
  pub gib_time_start : ℕ
  pub ctx_enc : evp.EncCtx
  pub ctx_dec : evp.DecCtx
  -- `ctx_enc_ecb` and `ctx_dec_ecb`
  pub ctx_ecb : evp.EcbCtx
  pub send_a_packet : Bool
  -- the calls of RAND_bytes so far
  pub draws : ℕ

-- Four bytes in network order.
abbrev pub be32 : ℕ → Bytes
be32 n = n / 2 ^ 24 % 256 ∷ n / 2 ^ 16 % 256 ∷ n / 256 % 256 ∷ n % 256 ∷ []

-- The number that four bytes make in the memory of a little-endian machine.
abbrev pub le32 : Bytes → ℕ
le32 s = get_or s 0 0 + get_or s 1 0 * 2 ^ 8 + get_or s 2 0 * 2 ^ 16 + get_or s 3 0 * 2 ^ 24

module _ (evp : Evp) (random : ℕ → ℕ → Bytes) (long_size : ℕ) where
  abbrev pub key_length : Bool → ℕ → Option ℕ
  key_length var_key keysize = if var_key then some keysize else none

  -- The module behind `alloc_encrypt`; none where it answers -1. The buffers were allocated.
  unfoldable pub alloc_encrypt : VtunHost → Encrypt evp → Option (Encrypt evp)
  unfolding prep_key
  alloc_encrypt host s =
      let ch = choose host.cipher in
      let n = key_length ch.var_key ch.keysize in
      let seeded = record s {
        sequence_num = s.sequence_num / 2 ^ 32 * 2 ^ 32 + le32 (random s.draws 4);
        draws = suc s.draws;
        gibberish = 0;
        gib_time_start = 0;
        cipher = host.cipher;
        blocksize = ch.blocksize;
        keysize = ch.keysize;
      } in
      do
        key ← prep_key evp ch.keysize host.passwd
        if ch.sb_init
            then some (record seeded {
              pkey = key;
              ctx_ecb = evp.ecb_init ch.cipher_type n key;
              enc_state = cipher_init;
              dec_state = cipher_init;
            })
            else some (record seeded {
              pkey = key;
              ctx_enc = evp.enc_init ch.cipher_type n key [];
              ctx_dec = evp.dec_init ch.cipher_type n key [];
              enc_state = cipher_code;
              dec_state = cipher_code;
            })

  unfoldable pub cipher_enc_init : Bytes → Encrypt evp → Encrypt evp
  cipher_enc_init iv s = elim (enc_cipher s.cipher) [
    | none ↦ s
    | some (t, var_key) ↦ record s {
      ctx_enc = evp.enc_init t (key_length var_key s.keysize) s.pkey iv;
    }
  ]

  unfoldable pub cipher_dec_init : Bytes → Encrypt evp → Encrypt evp
  cipher_dec_init iv s = elim (dec_cipher s.cipher) [
    | none ↦ s
    | some (t, var_key) ↦ record s {
      ctx_dec = evp.dec_init t (key_length var_key s.keysize) s.pkey iv;
    }
  ]
