-- ===== src/Link/Encrypt/Messages/Vector.antt =====
-- The message with the initial vector, in front of the first frame of a direction.
use vtun.Common.{
  ℕ, suc, ◌-◌, ◌*◌, ◌%◌, ◌≡◌, ◌<◌, ◌≤◌, inl, inr, ◌∙◌, refl, ap, sym, subst, ◌++◌, Bytes, IsBytes,
  Bool, false, some, if◌then◌else◌, ltb, length, take, drop, arith, append_assoc, length-append,
  All-append, take_front, drop_front,
}
use vtun.Common.Text.{codes}
use vtun.Link.Encrypt.Modes.{Evp, EvpCipher, enc_cipher, dec_cipher}
use vtun.Link.Encrypt.State.{Encrypt, key_length, cipher_sequence, cipher_enc_init, cipher_dec_init}
use vtun.Link.Encrypt.Messages.{send_msg, send_msg_in, recv_vector, recv_msg_in, recv_msg}
use vtun.Link.Encrypt.Messages.Seal.{IsRandom, IsBlock}
use vtun.Link.Encrypt.Messages.Passes.{Fresh, InStep}
use vtun.Link.Encrypt.Modes.Tables.{enc_cipher-dec_cipher}

module _ (evp : Evp) (random : ℕ → ℕ → Bytes) (long_size : ℕ) where
  cipher_enc_init_eq :
      (iv : Bytes) (s : Encrypt evp) (t : EvpCipher) (v : Bool)
      → enc_cipher s.cipher ≡ some (t, v)
      → cipher_enc_init evp random long_size iv s ≡ record s {
        ctx_enc = evp.enc_init t (key_length evp random long_size v s.keysize) s.pkey iv;
      }
  unfolding cipher_enc_init
  cipher_enc_init_eq iv s t v h = rw (h, cipher_enc_init) refl

  cipher_dec_init_eq :
      (iv : Bytes) (r : Encrypt evp) (t : EvpCipher) (v : Bool)
      → dec_cipher r.cipher ≡ some (t, v)
      → cipher_dec_init evp random long_size iv r ≡ record r {
        ctx_dec = evp.dec_init t (key_length evp random long_size v r.keysize) r.pkey iv;
      }
  unfolding cipher_dec_init
  cipher_dec_init_eq iv r t v h = rw (h, cipher_dec_init) refl

  -- A receiver that waits for a vector, and gets one.
  recv_vector_eq :
      (now : ℕ) (behind : Bytes) (r : Encrypt evp) (input iv fill : Bytes)
      → evp.ecb_decrypt r.ctx_ecb (take (r.blocksize * 2) (input ++ behind))
        ≡ codes "ivec" ++ (iv ++ fill)
      → length iv ≡ r.blocksize
      → r.blocksize * 2 ≤ length input
      → recv_vector evp random long_size now behind r input
        ≡ some (
          record (cipher_dec_init evp random long_size iv r) {
            dec_state = cipher_sequence;
            gibberish = 0;
            gib_time_start = 0;
          },
          drop (r.blocksize * 2) input,
        )
  unfolding recv_vector
  recv_vector_eq now behind r input iv fill plain size long =
      let whole : ltb (length input) (r.blocksize * 2) ≡ false = ground arith in
      rw (plain, recv_vector, whole, if◌then◌else◌, take_front r.blocksize iv fill size) refl

-- Two ends after the message: what the sender put in front, and how it left the ends.
pub record Started (evp : Evp) (random : ℕ → ℕ → Bytes) (long_size : ℕ) (s r : Encrypt evp)
    : Type 0 where
  pub sender : Encrypt evp
  pub receiver : Encrypt evp
  pub msg : Bytes
  pub sends : send_msg evp random long_size s ≡ (sender, msg)
  pub receives :
      (now : ℕ) (behind frame : Bytes)
      → recv_msg evp random long_size now behind r (msg ++ frame) ≡ some (receiver, frame)
  pub size : length msg ≤ 32
  pub bytes : IsBytes msg
  pub step : InStep long_size sender receiver
  pub same_sender : sender.blocksize ≡ s.blocksize
  pub same_receiver : receiver.blocksize ≡ r.blocksize

module _ (evp : Evp) (random : ℕ → ℕ → Bytes) (long_size : ℕ) (rand : IsRandom random) where
  -- The vector that the sender draws gets across, and puts the two contexts in step.
  pub start_Fresh :
      (s r : Encrypt evp)
      → Fresh long_size s r
      → IsBlock s.blocksize
      → s.blocksize ≡ r.blocksize
      → Started evp random long_size s r
  unfolding send_msg_in recv_msg_in
  start_Fresh s r fresh block same =
      let iv = random s.draws s.blocksize in
      let fill = random (suc s.draws) (s.blocksize - 4) in
      let text = codes "ivec" ++ (iv ++ fill) in
      let iv_size : length iv ≡ s.blocksize = rand.size s.draws s.blocksize in
      let long : length text ≡ s.blocksize * 2 = omega (
        arith,
        iv_size,
        rand.size (suc s.draws) (s.blocksize - 4),
        length-append iv fill,
        fresh.four,
        fresh.fits,
      ) in
      let whole : length text % 16 ≡ 0 = elim block [
        | inl e ↦ omega (arith, long, e)
        | inr e ↦ omega (arith, long, e)
      ] in
      let text_bytes : IsBytes text =
        All-append (λ x. x < 256) (codes "ivec") (iv ++ fill)
          (omega arith, (omega arith, (omega arith, (omega arith, tt))))
          (All-append (λ x. x < 256) iv fill (rand.bytes s.draws s.blocksize)
            (rand.bytes (suc s.draws) (s.blocksize - 4))) in
      let msg = evp.ecb_encrypt s.ctx_ecb text in
      let msg_size : length msg ≡ r.blocksize * 2 =
        evp.length-ecb_encrypt s.ctx_ecb text whole ∙ long ∙ ap (λ z. z * 2) same in
      let n = key_length evp random long_size fresh.var_key s.keysize in
      let dec_mode : dec_cipher r.cipher ≡ some (fresh.type, fresh.var_key) =
        ap (λ z. dec_cipher z) (sym fresh.cipher)
        ∙ sym (enc_cipher-dec_cipher s.cipher)
        ∙ fresh.mode in
      let key : evp.dec_init fresh.type n s.pkey iv
          ≡ evp.dec_init fresh.type (key_length evp random long_size fresh.var_key r.keysize) r.pkey
              iv =
        ap
          (λ z. evp.dec_init fresh.type (key_length evp random long_size fresh.var_key z) s.pkey iv)
          fresh.keysize
        ∙ ap
            (λ z.
              evp.dec_init fresh.type (key_length evp random long_size fresh.var_key r.keysize) z
                iv)
            fresh.pkey in
      record {
        sender = record s {
          ctx_enc = evp.enc_init fresh.type n s.pkey iv;
          enc_state = cipher_sequence;
          draws = suc (suc s.draws);
        };
        receiver = record r {
          ctx_dec =
              evp.dec_init fresh.type (key_length evp random long_size fresh.var_key r.keysize)
                r.pkey iv;
          dec_state = cipher_sequence;
          gibberish = 0;
          gib_time_start = 0;
        };
        msg = msg;
        sends =
            ap (λ z. send_msg_in evp random long_size z s) fresh.enc
            ∙ ap (λ z. (record z { enc_state = cipher_sequence; draws = suc (suc s.draws) }, msg))
                (cipher_enc_init_eq evp random long_size iv s fresh.type fresh.var_key fresh.mode);
        receives = λ now behind frame.
            let front : take (r.blocksize * 2) ((msg ++ frame) ++ behind) ≡ msg =
              ap (λ z. take (r.blocksize * 2) z) (append_assoc msg frame behind)
              ∙ take_front (r.blocksize * 2) msg (frame ++ behind) msg_size in
            let plain : evp.ecb_decrypt r.ctx_ecb
                  (take (r.blocksize * 2) ((msg ++ frame) ++ behind))
                ≡ text =
              ap (λ z. evp.ecb_decrypt r.ctx_ecb z) front
              ∙ ap (λ z. evp.ecb_decrypt z msg) (sym fresh.ecb)
              ∙ evp.ecb_decrypt-encrypt s.ctx_ecb text whole text_bytes in
            ap (λ z. recv_msg_in evp random long_size z now behind r (msg ++ frame)) fresh.dec
            ∙ recv_vector_eq evp random long_size now behind r (msg ++ frame) iv fill plain
                (iv_size ∙ same) (omega (arith, msg_size, length-append msg frame))
            ∙ ap
                (λ z. some (
                  record z { dec_state = cipher_sequence; gibberish = 0; gib_time_start = 0 },
                  drop (r.blocksize * 2) (msg ++ frame),
                ))
                (cipher_dec_init_eq evp random long_size iv r fresh.type fresh.var_key dec_mode)
            ∙ ap (λ z. some (_, z)) (drop_front (r.blocksize * 2) msg frame msg_size);
        size = elim block [
          | inl e ↦ omega (arith, msg_size, e, same)
          | inr e ↦ omega (arith, msg_size, e, same)
        ];
        bytes = evp.ecb_encrypt-IsBytes s.ctx_ecb text whole text_bytes;
        step = record {
          enc = inl refl;
          dec = refl;
          synced =
              subst (λ d. evp.Synced s.blocksize (evp.enc_init fresh.type n s.pkey iv) d) key
                (subst
                  (λ k.
                    evp.Synced k (evp.enc_init fresh.type n s.pkey iv)
                      (evp.dec_init fresh.type n s.pkey iv))
                  fresh.block (evp.Synced-init fresh.type n s.pkey iv));
          four = fresh.four;
          fits = fresh.fits;
        };
        same_sender = refl;
        same_receiver = refl;
      }
