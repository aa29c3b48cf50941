-- ===== src/Link/Encrypt/Messages/Passes.antt =====
-- One frame through `encrypt_buf` and `decrypt_buf`, by the states of the two ends.
use vtun.Common.{
  ℕ, ◌+◌, ◌==◌, ◌≡◌, ◌<◌, ◌≤◌, ◌⊎◌, inl, inr, ◌∙◌, refl, ap, sym, subst, [], ◌∷◌, ◌++◌, Bytes,
  IsBytes, Bool, false, some, pos, if◌then◌else◌, length, arith, length-append, All-append,
}
use vtun.Link.Encrypt.Modes.{Evp, EvpCipher, block_of, enc_cipher}
use vtun.Link.Encrypt.State.{Encrypt, cipher_init, cipher_code, cipher_sequence, cipher_req_init}
use vtun.Link.Encrypt.Messages.{
  send_msg, mark, send_ib_mesg, seal, encrypt_buf, recv_msg, recv_ib_mesg, strip, stripped,
  unseal_text, unseal, decrypt_buf,
}
use vtun.Link.Encrypt.Messages.Seal.{IsRandom, IsBlock, Kept, Opens, seal-Opens, strip-padded}
use vtun.Link.Encrypt.Messages.Mark.{Marked, mark-Marked}

module _ (evp : Evp) (random : ℕ → ℕ → Bytes) (long_size : ℕ) where
  pub encrypt_eq :
      (s s1 s2 s3 : Encrypt evp) (msg b frame x : Bytes)
      → send_msg evp random long_size s ≡ (s1, msg)
      → send_ib_mesg evp random long_size s1 b ≡ (s2, frame)
      → seal evp random long_size s2 frame ≡ (s3, x)
      → 0 < length frame
      → encrypt_buf evp random long_size s b ≡ (s3, pos (length x + length msg), msg ++ x)
  unfolding encrypt_buf
  encrypt_eq s s1 s2 s3 msg b frame x sent marked sealed some_byte =
      let some_len : (length frame == 0) ≡ false = ground arith in
      rw (sent, encrypt_buf, marked, sealed, some_len, if◌then◌else◌) refl

  pub decrypt_eq :
      (now : ℕ) (behind stale : Bytes) (r r1 : Encrypt evp) (e frame : Bytes)
      → recv_msg evp random long_size now behind r e ≡ some (r1, frame)
      → 0 < length frame
      → decrypt_buf evp random long_size now behind stale r e
        ≡ unseal evp random long_size stale r1 frame
  unfolding decrypt_buf
  decrypt_eq now behind stale r r1 e frame got some_byte =
      let some_len : (length frame == 0) ≡ false = ground arith in
      rw (got, decrypt_buf, some_len, if◌then◌else◌) refl

  pub unseal_eq :
      (stale : Bytes) (r r1 : Encrypt evp) (d : evp.DecCtx) (x text : Bytes) (skip : ℕ)
      → evp.dec_update r.ctx_dec x ≡ (d, text)
      → recv_ib_mesg evp random long_size (record r { ctx_dec = d }) (text ++ stale)
        ≡ (r1, some skip)
      → unseal evp random long_size stale r x ≡ strip evp random long_size r1 skip text
  unfolding unseal
  unseal_eq stale r r1 d x text skip opened marked =
      ap (λ z. unseal_text evp random long_size stale r z) opened
      ∙ ap (λ z. stripped evp random long_size text z) marked

-- Two ends before the first frame of a direction: the sender is to send an initial vector, and the
-- receiver waits for one.
pub record Fresh {evp : Evp} (long_size : ℕ) (s r : Encrypt evp) : Type 0 where
  pub enc : s.enc_state ≡ cipher_init
  pub dec : r.dec_state ≡ cipher_init
  pub ecb : s.ctx_ecb ≡ r.ctx_ecb
  pub cipher : s.cipher ≡ r.cipher
  pub pkey : s.pkey ≡ r.pkey
  pub keysize : s.keysize ≡ r.keysize
  pub type : EvpCipher
  pub var_key : Bool
  pub mode : enc_cipher s.cipher ≡ some (type, var_key)
  pub block : block_of type ≡ s.blocksize
  pub four : 4 ≤ long_size
  pub fits : 4 + long_size ≤ s.blocksize

-- Two ends whose contexts are in step; the sender may have a request for a new vector to send.
pub record InStep {evp : Evp} (long_size : ℕ) (s r : Encrypt evp) : Type 0 where
  pub enc : (s.enc_state ≡ cipher_sequence) ⊎ (s.enc_state ≡ cipher_req_init)
  pub dec : r.dec_state ≡ cipher_sequence
  pub synced : evp.Synced s.blocksize s.ctx_enc r.ctx_dec
  pub four : 4 ≤ long_size
  pub fits : 4 + long_size ≤ s.blocksize

-- Two ends of a session without initial vectors.
pub record Plain {evp : Evp} (s r : Encrypt evp) : Type 0 where
  pub enc : s.enc_state ≡ cipher_code
  pub dec : r.dec_state ≡ cipher_code
  pub synced : evp.Synced s.blocksize s.ctx_enc r.ctx_dec

pub record Linked {evp : Evp} (long_size : ℕ) (s r : Encrypt evp) : Type 0 where
  pub block : IsBlock s.blocksize
  pub same_block : s.blocksize ≡ r.blocksize
  pub stage : Fresh long_size s r ⊎ InStep long_size s r ⊎ Plain s r

-- What the end of `encrypt_buf` and of `decrypt_buf` do with a frame, behind the message outside the
-- cipher.
pub record Through (evp : Evp) (random : ℕ → ℕ → Bytes) (long_size : ℕ) (stale : Bytes)
    (s r : Encrypt evp) (b : Bytes) : Type 0 where
  pub marked : Encrypt evp
  pub frame : Bytes
  pub sent : Encrypt evp
  pub wire : Bytes
  pub got : Encrypt evp
  pub marks : send_ib_mesg evp random long_size s b ≡ (marked, frame)
  pub some_byte : 0 < length frame
  pub seals : seal evp random long_size marked frame ≡ (sent, wire)
  pub unseals : unseal evp random long_size stale r wire ≡ some (got, pos (length b), b)
  pub linked : Linked long_size sent got
  pub bytes : IsBytes wire
  pub nonempty : 0 < length wire
  pub room : length wire ≤ length b + 32
  pub kept_sent : Kept s sent
  pub kept_got : Kept r got
  pub same_dec : sent.dec_state ≡ s.dec_state
  -- the receiver of a request starts over
  pub answers : s.enc_state ≡ cipher_req_init → got.enc_state ≡ cipher_init

module _ (evp : Evp) (random : ℕ → ℕ → Bytes) (long_size : ℕ) (rand : IsRandom random)
    (stale : Bytes) where
  -- A frame with a mark, for either tag.
  pub tagged_frame :
      (a1 a2 a3 a4 : ℕ) (s r s2 : Encrypt evp) (r2 : evp.DecCtx → Encrypt evp) (b : Bytes)
      → IsBytes (a1 ∷ a2 ∷ a3 ∷ a4 ∷ [])
      → IsBytes b
      → IsBlock s.blocksize
      → s.blocksize ≡ r.blocksize
      → 4 ≤ long_size
      → 4 + long_size ≤ s.blocksize
      → evp.Synced s.blocksize s2.ctx_enc r.ctx_dec
      → Kept s s2
      → s2.dec_state ≡ s.dec_state
      → s2.enc_state ≡ cipher_sequence
      → send_ib_mesg evp random long_size s b
        ≡ (s2, mark evp random long_size (a1 ∷ a2 ∷ a3 ∷ a4 ∷ []) s b)
      → ((d : evp.DecCtx) (t : Bytes)
          → recv_ib_mesg evp random long_size (record r { ctx_dec = d }) (a1 ∷ a2 ∷ a3 ∷ a4 ∷ t)
            ≡ (r2 d, some r.blocksize))
      → ((d : evp.DecCtx)
          → ((r2 d).blocksize ≡ r.blocksize)
            × ((r2 d).dec_state ≡ cipher_sequence)
            × ((r2 d).ctx_dec ≡ d)
            × Kept r (r2 d)
            × (s.enc_state ≡ cipher_req_init → (r2 d).enc_state ≡ cipher_init))
      → (t : Through evp random long_size stale s r b) × InStep long_size t.sent t.got
  tagged_frame a1 a2 a3 a4 s r s2 r2 b tag_bytes b_bytes block same_block four fits synced s2_kept
        s2_dec s2_state marks receives r2_facts =
      let s2_block : s2.blocksize ≡ s.blocksize = ap (λ z. z.4) s2_kept in
      let tag : Bytes = a1 ∷ a2 ∷ a3 ∷ a4 ∷ [] in
      let frame = mark evp random long_size tag s b in
      let m : Marked tag s.blocksize b frame =
        mark-Marked evp random long_size a1 a2 a3 a4 s b four fits in
      let frame_bytes : IsBytes frame =
        subst (λ z. IsBytes z) (sym m.shape)
          (All-append (λ z. z < 256) (tag ++ m.rest) b
            (All-append (λ z. z < 256) tag m.rest tag_bytes m.bytes) b_bytes) in
      let frame_size : length frame ≡ s.blocksize + length b =
        ap (λ z. length z) m.shape ∙ omega (arith, m.size, length-append (tag ++ m.rest) b) in
      let s2_IsBlock : IsBlock s2.blocksize = subst (λ n. IsBlock n) (sym s2_block) block in
      let s2_synced : evp.Synced s2.blocksize s2.ctx_enc r.ctx_dec =
        subst (λ n. evp.Synced n s2.ctx_enc r.ctx_dec) (sym s2_block) synced in
      let small : s.blocksize ≤ 16 = ground (arith, block) in
      let o : Opens evp random long_size s2 r frame =
        seal-Opens evp random long_size rand s2 r frame s2_IsBlock s2_synced frame_bytes in
      let facts = r2_facts o.ctx in
      let step : InStep long_size o.sent (r2 o.ctx) = record {
        enc = inl (o.same_state ∙ s2_state);
        dec = facts.1;
        synced =
            subst (λ d. evp.Synced o.sent.blocksize o.sent.ctx_enc d) (sym facts.2)
              (subst (λ n. evp.Synced n o.sent.ctx_enc o.ctx) (sym o.same_block) o.synced);
        four = four;
        fits = omega (arith, o.same_block, s2_block);
      } in
      (
        record {
          marked = s2;
          frame = frame;
          sent = o.sent;
          wire = o.wire;
          got = r2 o.ctx;
          marks = marks;
          some_byte = omega (arith, frame_size);
          seals = o.seals;
          unseals =
              unseal_eq evp random long_size stale r (r2 o.ctx) o.ctx o.wire (frame ++ o.fill)
                r.blocksize o.opens
                (ap
                    (λ z.
                      recv_ib_mesg evp random long_size (record r { ctx_dec = o.ctx })
                        ((z ++ o.fill) ++ stale))
                    m.shape
                  ∙ receives o.ctx (((m.rest ++ b) ++ o.fill) ++ stale))
              ∙ ap (λ z. strip evp random long_size (r2 o.ctx) r.blocksize (z ++ o.fill)) m.shape
              ∙ strip-padded evp random long_size (r2 o.ctx) r.blocksize o.pad (tag ++ m.rest) b
                  o.fill (m.size ∙ same_block) o.pads o.some_pad
                  (omega (arith, o.small, s2_block, same_block, facts.0));
          linked = record {
            block = subst (λ n. IsBlock n) (sym o.same_block) s2_IsBlock;
            same_block = o.same_block ∙ s2_block ∙ same_block ∙ sym facts.0;
            stage = inr (inl step);
          };
          bytes = o.bytes;
          nonempty = omega (arith, o.size, frame_size);
          room = omega (arith, o.size, o.small, s2_block, frame_size);
          kept_sent = o.kept ∙ s2_kept;
          kept_got = facts.3;
          same_dec = o.same_dec ∙ s2_dec;
          answers = facts.4;
        },
        step,
      )
