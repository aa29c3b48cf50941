-- ===== src/Link/Encrypt/Messages/Overrun.antt =====
-- The mark of `send_ib_mesg` where the block is too small for an `unsigned long` of 8 bytes.
use vtun.Common.{ℕ, ◌≡◌, ◌≢◌, ◌⊎◌, inl, inr, true, ◌∙◌, refl, ap, sym, [], ◌∷◌, Bytes, arith}
use vtun.Link.Encrypt.Modes.{Evp}
use vtun.Link.Encrypt.State.{
  Encrypt, cipher_enc_init, CipherState, cipher_init, cipher_code, cipher_sequence, cipher_req_init,
}
use vtun.Link.Encrypt.Messages.{send_msg, send_msg_in, mark, send_ib_in, send_ib_mesg, encrypt_buf}

module _ (evp : Evp) (random : ℕ → ℕ → Bytes) where
  mark-Clobbered :
      (t1 t2 t3 t4 : ℕ) (s : Encrypt evp) (a b c d a' b' c' d' : ℕ) (rest : Bytes)
      → s.blocksize ≡ 8
      → mark evp random 8 (t1 ∷ t2 ∷ t3 ∷ t4 ∷ []) s (a ∷ b ∷ c ∷ d ∷ rest)
        ≡ mark evp random 8 (t1 ∷ t2 ∷ t3 ∷ t4 ∷ []) s (a' ∷ b' ∷ c' ∷ d' ∷ rest)
  unfolding mark
  mark-Clobbered t1 t2 t3 t4 s a b c d a' b' c' d' rest h = rw (h, mark) refl

  cipher_enc_init-block :
      (iv : Bytes) (s : Encrypt evp) → (cipher_enc_init evp random 8 iv s).blocksize ≡ s.blocksize
  unfolding cipher_enc_init
  cipher_enc_init-block iv s = ground arith

  -- Behind `send_msg`, a state in which a mark is written.
  sent_Marks :
      (state : CipherState) (s : Encrypt evp)
      → s.enc_state ≡ state
      → (state ≡ cipher_code → ⊥)
      → (((send_msg_in evp random 8 state s).0.enc_state ≡ cipher_sequence)
          ⊎ ((send_msg_in evp random 8 state s).0.enc_state ≡ cipher_req_init))
        × ((send_msg_in evp random 8 state s).0.blocksize ≡ s.blocksize)
  unfolding send_msg_in
  sent_Marks cipher_init s e vector =
      (inl refl, cipher_enc_init-block (random s.draws s.blocksize) s)
  sent_Marks cipher_code s e vector = absurd (vector refl)
  sent_Marks cipher_sequence s e vector = (inl e, refl)
  sent_Marks cipher_req_init s e vector = (inr e, refl)

  marked_in :
      (t : Encrypt evp) (a b c d a' b' c' d' : ℕ) (rest : Bytes)
      → t.blocksize ≡ 8
      → (t.enc_state ≡ cipher_sequence) ⊎ (t.enc_state ≡ cipher_req_init)
      → send_ib_mesg evp random 8 t (a ∷ b ∷ c ∷ d ∷ rest)
        ≡ send_ib_mesg evp random 8 t (a' ∷ b' ∷ c' ∷ d' ∷ rest)
  unfolding send_ib_in
  marked_in t a b c d a' b' c' d' rest h (inl e) =
      ap (λ z. send_ib_in evp random 8 z t (a ∷ b ∷ c ∷ d ∷ rest)) e
      ∙ ap (λ z. (t, z)) (mark-Clobbered b's' b'e' b'q' b'#' t a b c d a' b' c' d' rest h)
      ∙ ap (λ z. send_ib_in evp random 8 z t (a' ∷ b' ∷ c' ∷ d' ∷ rest)) (sym e)
  marked_in t a b c d a' b' c' d' rest h (inr e) =
      let u : Encrypt evp = record t { enc_state = cipher_sequence; send_a_packet = true } in
      ap (λ z. send_ib_in evp random 8 z t (a ∷ b ∷ c ∷ d ∷ rest)) e
      ∙ ap (λ z. (u, z)) (mark-Clobbered b'r' b's' b'y' b'n' t a b c d a' b' c' d' rest h)
      ∙ ap (λ z. send_ib_in evp random 8 z t (a' ∷ b' ∷ c' ∷ d' ∷ rest)) (sym e)

  encrypt_by :
      (s : Encrypt evp) (b b' : Bytes)
      → send_ib_mesg evp random 8 (send_msg evp random 8 s).0 b
        ≡ send_ib_mesg evp random 8 (send_msg evp random 8 s).0 b'
      → encrypt_buf evp random 8 s b ≡ encrypt_buf evp random 8 s b'
  unfolding encrypt_buf
  encrypt_by s b b' h = rw (h, encrypt_buf) refl

  -- On a machine whose `unsigned long` has 8 bytes, with blocks of 8 bytes (Blowfish) and a mode with
  -- vectors, the first four bytes of every frame are lost: two frames that differ in them alone
  -- are encrypted alike.
  pub encrypt_buf-Overrun :
      (s : Encrypt evp) (a b c d a' b' c' d' : ℕ) (rest : Bytes)
      → s.blocksize ≡ 8
      → s.enc_state ≢ cipher_code
      → encrypt_buf evp random 8 s (a ∷ b ∷ c ∷ d ∷ rest)
        ≡ encrypt_buf evp random 8 s (a' ∷ b' ∷ c' ∷ d' ∷ rest)
  encrypt_buf-Overrun s a b c d a' b' c' d' rest h vector =
      let (marks, block) = sent_Marks s.enc_state s refl vector in
      encrypt_by s (a ∷ b ∷ c ∷ d ∷ rest) (a' ∷ b' ∷ c' ∷ d' ∷ rest)
        (marked_in (send_msg evp random 8 s).0 a b c d a' b' c' d' rest (block ∙ h) marks)
