-- ===== src/Link/Encrypt/Shifts.antt =====
-- A concrete stand-in for OpenSSL, which adds a number to each byte: the laws of `Evp` can hold.
use vtun.Common.{
  length, suc, ap, sym, ◌∙◌, ◌+◌, get_or, ℕ, ◌≡◌, inl, inr, refl, Bytes, false, pos, replicate,
  length-replicate, arith,
}
use vtun.Link.Encrypt.Modes.{Evp, aes_256_cbc, enc_cipher}
use vtun.Link.Encrypt.State.{Encrypt, cipher_init}
use vtun.Link.Encrypt.Messages.Seal.{IsRandom, replicate-IsBytes}
use vtun.Link.Encrypt.Messages.Passes.{Linked}
use vtun.Cipher.Rotate.{shift, unshift, unshift-shift, length-shift, shift-IsBytes}

-- A context is the number that it adds next; the first is the key's first byte and the vector's.
abbrev pub shifts : Evp
shifts = record {
  EncCtx = ℕ;
  DecCtx = ℕ;
  EcbCtx = ℕ;
  enc_init = λ t n key iv. get_or key 0 0 + get_or iv 0 0;
  dec_init = λ t n key iv. get_or key 0 0 + get_or iv 0 0;
  enc_update = λ e b. (suc e, shift e b);
  dec_update = λ d x. (suc d, unshift d x);
  ecb_init = λ t n key. get_or key 0 0;
  ecb_encrypt = shift;
  ecb_decrypt = unshift;
  md5 = λ text. replicate 16 (length text);
  Synced = λ n e d. e ≡ d;
  Synced-init = λ t n key iv. refl;
  updates = λ n e d b same size bytes. (
    suc e,
    suc d,
    shift e b,
    refl,
    ap (λ z. (suc d, unshift z (shift e b))) (sym same)
        ∙ ap (λ z. (suc d, z)) (unshift-shift e b bytes),
    ap (λ z. suc z) same,
    length-shift e b,
    shift-IsBytes e b,
  );
  ecb_decrypt-encrypt = λ c b size bytes. unshift-shift c b bytes;
  length-ecb_encrypt = λ c b size. length-shift c b;
  ecb_encrypt-IsBytes = λ c b size bytes. shift-IsBytes c b;
}

-- What it draws.
abbrev pub sevens : ℕ → ℕ → Bytes
sevens n m = replicate m 7

pub sevens-IsRandom : IsRandom sevens
sevens-IsRandom = record {
  size = λ n m. length-replicate {A = ℕ} m 7;
  bytes = λ n m. replicate-IsBytes m 7 (omega arith);
}

-- One end of a session with AES-256-CBC, before its first frame.
abbrev pub start : Encrypt shifts
start = record {
  cipher = pos 14;
  blocksize = 16;
  keysize = 32;
  pkey = replicate 32 4;
  enc_state = cipher_init;
  dec_state = cipher_init;
  sequence_num = 77;
  gibberish = 0;
  gib_time_start = 0;
  ctx_enc = 3;
  ctx_dec = 5;
  ctx_ecb = 4;
  send_a_packet = false;
  draws = 1;
}

pub start-Linked : Linked 8 start start
unfolding enc_cipher
start-Linked = record {
  block = inr refl;
  same_block = refl;
  stage = inl (record {
    enc = refl;
    dec = refl;
    ecb = refl;
    cipher = refl;
    pkey = refl;
    keysize = refl;
    type = aes_256_cbc;
    var_key = false;
    mode = refl;
    block = refl;
    four = omega arith;
    fits = omega arith;
  });
}
