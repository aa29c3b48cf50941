-- ===== src/Link/Encrypt/Messages/Alloc.antt =====
-- Two ends that `alloc_encrypt` sets up for one session.
use vtun.Common.{
  ℕ, suc, ◌+◌, ◌*◌, ◌/◌, ◌^◌, ◌≡◌, ◌≤◌, ◌⊎◌, inl, inr, ◌∙◌, refl, ap, sym, subst, [], ◌++◌, Bytes,
  Bool, true, false, Bool-cases, Option, none, some, ℤ, if◌then◌else◌, length, take, drop, arith,
}
use vtun.Host.{VtunHost}
use vtun.Link.Encrypt.Modes.{Evp, EvpCipher, Choice, block_of, choose, enc_cipher, prep_key}
use vtun.Link.Encrypt.Modes.Tables.{Fits, ciphers_agree}
use vtun.Link.Encrypt.State.{Encrypt, le32, key_length, cipher_init, cipher_code, alloc_encrypt}
use vtun.Link.Encrypt.Messages.Seal.{IsBlock}
use vtun.Link.Encrypt.Messages.Passes.{Linked}

keysize-cases : (c : ℤ) → ((choose c).keysize ≡ 16) ⊎ ((choose c).keysize ≡ 32)
unfolding choose
keysize-cases c = ground arith

mode_of :
    (ch : Choice) (o : Option (EvpCipher × Bool))
    → Fits ch o
    → ch.sb_init ≡ true
    → (t : EvpCipher) × (v : Bool) × (o ≡ some (t, v)) × (block_of t ≡ ch.blocksize)
mode_of ch none fits vector = ground arith
mode_of ch (some (t, v)) fits vector = (t, v, refl, fits.1)

module _ (evp : Evp) where
  prep_key-some :
      (c : ℤ) (passwd : Bytes) → (key : Bytes) × (prep_key evp (choose c).keysize passwd ≡ some key)
  unfolding prep_key
  prep_key-some c passwd = elim (keysize-cases c) [
    | inl e ↦ (evp.md5 passwd, rw e refl)
    | inr e ↦ (
      evp.md5 (take (length passwd / 2) passwd) ++ evp.md5 (drop (length passwd / 2) passwd),
      rw e refl,
    )
  ]

module _ (evp : Evp) (random : ℕ → ℕ → Bytes) (long_size : ℕ) where
  -- What `alloc_encrypt` sets for a key, before it looks at the mode.
  abbrev pub keyed : VtunHost → Encrypt evp → Bytes → Encrypt evp
  keyed host s key = record s {
    sequence_num = s.sequence_num / 2 ^ 32 * 2 ^ 32 + le32 (random s.draws 4);
    draws = suc s.draws;
    gibberish = 0;
    gib_time_start = 0;
    cipher = host.cipher;
    blocksize = (choose host.cipher).blocksize;
    keysize = (choose host.cipher).keysize;
    pkey = key;
  }

  abbrev pub vectored : VtunHost → Encrypt evp → Bytes → Encrypt evp
  vectored host s key =
      let ch = choose host.cipher in
      record (keyed host s key) {
        ctx_ecb =
            evp.ecb_init ch.cipher_type (key_length evp random long_size ch.var_key ch.keysize) key;
        enc_state = cipher_init;
        dec_state = cipher_init;
      }

  abbrev pub plainly : VtunHost → Encrypt evp → Bytes → Encrypt evp
  plainly host s key =
      let ch = choose host.cipher in
      let n = key_length evp random long_size ch.var_key ch.keysize in
      record (keyed host s key) {
        ctx_enc = evp.enc_init ch.cipher_type n key [];
        ctx_dec = evp.dec_init ch.cipher_type n key [];
        enc_state = cipher_code;
        dec_state = cipher_code;
      }

  pub alloc_vectored :
      (host : VtunHost) (s : Encrypt evp) (key : Bytes)
      → prep_key evp (choose host.cipher).keysize host.passwd ≡ some key
      → (choose host.cipher).sb_init ≡ true
      → alloc_encrypt evp random long_size host s ≡ some (vectored host s key)
  unfolding alloc_encrypt
  alloc_vectored host s key prepared mode = rw (prepared, alloc_encrypt, mode, if◌then◌else◌) refl

  pub alloc_plainly :
      (host : VtunHost) (s : Encrypt evp) (key : Bytes)
      → prep_key evp (choose host.cipher).keysize host.passwd ≡ some key
      → (choose host.cipher).sb_init ≡ false
      → alloc_encrypt evp random long_size host s ≡ some (plainly host s key)
  unfolding alloc_encrypt
  alloc_plainly host s key prepared mode = rw (prepared, alloc_encrypt, mode, if◌then◌else◌) refl

-- The two ends that `alloc_encrypt` made.
pub record Allocated (evp : Evp) (random peer_random : ℕ → ℕ → Bytes) (long_size : ℕ)
    (host peer : VtunHost) (s0 r0 : Encrypt evp) : Type 0 where
  pub sender : Encrypt evp
  pub receiver : Encrypt evp
  pub allocates : alloc_encrypt evp random long_size host s0 ≡ some sender
  pub allocates_peer : alloc_encrypt evp peer_random long_size peer r0 ≡ some receiver
  pub linked : Linked long_size sender receiver

module _ (evp : Evp) (random peer_random : ℕ → ℕ → Bytes) (long_size : ℕ) where
  -- Where both sides of a session have the same cipher and password, `alloc_encrypt` succeeds at
  -- both, whatever their modules did before and whatever they draw, and leaves them agreed on the
  -- key: started without vectors, or with one due. The latter needs a block with room for the tag
  -- and an `unsigned long`.
  pub alloc_encrypt-Linked :
      (host peer : VtunHost) (s0 r0 : Encrypt evp)
      → host.cipher ≡ peer.cipher
      → host.passwd ≡ peer.passwd
      → ((choose host.cipher).sb_init ≡ false)
        ⊎ ((4 ≤ long_size) × (4 + long_size ≤ (choose host.cipher).blocksize))
      → Allocated evp random peer_random long_size host peer s0 r0
  alloc_encrypt-Linked host peer s0 r0 ciphers passwords room =
      let ch = choose host.cipher in
      let (key, prepared) = prep_key-some evp host.cipher host.passwd in
      let peer_prepared : prep_key evp (choose peer.cipher).keysize peer.passwd ≡ some key =
        ap (λ c. prep_key evp (choose c).keysize peer.passwd) (sym ciphers)
        ∙ ap (λ z. prep_key evp ch.keysize z) (sym passwords)
        ∙ prepared in
      let (same, fits, type_block, block) = ciphers_agree host.cipher in
      let same_block : ch.blocksize ≡ (choose peer.cipher).blocksize =
        ap (λ c. (choose c).blocksize) ciphers in
      let one_block : IsBlock ch.blocksize = block in
      let fit : ch.sb_init ≡ true → (4 ≤ long_size) × (4 + long_size ≤ ch.blocksize) =
        λ vector. elim room [ inl plain ↦ ground arith | inr h ↦ h ] in
      elim (Bool-cases ch.sb_init) [
        | inl vector ↦ record {
          sender = vectored evp random long_size host s0 key;
          receiver = vectored evp peer_random long_size peer r0 key;
          allocates = alloc_vectored evp random long_size host s0 key prepared vector;
          allocates_peer =
              alloc_vectored evp peer_random long_size peer r0 key peer_prepared
                (ap (λ c. (choose c).sb_init) (sym ciphers) ∙ vector);
          linked = record {
            block = one_block;
            same_block = same_block;
            stage =
                let (t, v, mode, size) = mode_of ch (enc_cipher host.cipher) fits vector in
                inl (record {
                  enc = refl;
                  dec = refl;
                  ecb =
                      ap
                        (λ c.
                          evp.ecb_init (choose c).cipher_type
                            (key_length evp random long_size (choose c).var_key (choose c).keysize)
                            key)
                        ciphers;
                  cipher = ciphers;
                  pkey = refl;
                  keysize = ap (λ c. (choose c).keysize) ciphers;
                  type = t;
                  var_key = v;
                  mode = mode;
                  block = size;
                  four = (fit vector).0;
                  fits = (fit vector).1;
                });
          };
        }
        | inr plain ↦ record {
          sender = plainly evp random long_size host s0 key;
          receiver = plainly evp peer_random long_size peer r0 key;
          allocates = alloc_plainly evp random long_size host s0 key prepared plain;
          allocates_peer =
              alloc_plainly evp peer_random long_size peer r0 key peer_prepared
                (ap (λ c. (choose c).sb_init) (sym ciphers) ∙ plain);
          linked = record {
            block = one_block;
            same_block = same_block;
            stage = inr (
                inr (record {
                  enc = refl;
                  dec = refl;
                  synced =
                      subst
                        (λ d.
                          evp.Synced ch.blocksize
                            (evp.enc_init ch.cipher_type
                              (key_length evp random long_size ch.var_key ch.keysize) key [])
                            d)
                        (ap
                          (λ c.
                            evp.dec_init (choose c).cipher_type
                              (key_length evp random long_size (choose c).var_key
                                (choose c).keysize)
                              key [])
                          ciphers)
                        (subst
                          (λ n.
                            evp.Synced n
                              (evp.enc_init ch.cipher_type
                                (key_length evp random long_size ch.var_key ch.keysize) key [])
                              (evp.dec_init ch.cipher_type
                                (key_length evp random long_size ch.var_key ch.keysize) key []))
                          type_block
                          (evp.Synced-init ch.cipher_type
                            (key_length evp random long_size ch.var_key ch.keysize) key []));
                }));
          };
        }
      ]
