-- ===== src/Link/Encrypt/Messages/Resync.antt =====
-- How a receiver that is out of step gets back into step.
use vtun.Common.{
  ℕ, ◌+◌, ◌≡◌, ◌<◌, ◌≤◌, inl, inr, ◌∙◌, refl, ap, sym, subst, [], ◌++◌, Bytes, IsBytes, Bool, false,
  none, some, pos, if◌then◌else◌, length,
}
use vtun.Common.Text.{codes}
use vtun.Common.Strings.{starts_with}
use vtun.Link.Encrypt.Modes.{Evp, EvpCipher, block_of, enc_cipher}
use vtun.Link.Encrypt.State.{Encrypt, cipher_init, cipher_sequence, cipher_req_init}
use vtun.Link.Encrypt.Messages.{
  encrypt_buf, decrypt_buf, recv_msg_in, recv_ib_in, lose_step, unseal, stripped,
}
use vtun.Link.Encrypt.Messages.Seal.{IsRandom, IsBlock, Kept}
use vtun.Link.Encrypt.Messages.Passes.{Fresh, InStep, decrypt_eq}
use vtun.Link.Encrypt.Messages.Stacked.{stepped_frame, passes, send_nothing, receive_nothing}

-- An end `s` that receives from an end `r` and sends to it, with one key.
pub record Session {evp : Evp} (long_size : ℕ) (s r : Encrypt evp) : Type 0 where
  pub enc : s.enc_state ≡ cipher_sequence
  pub dec : s.dec_state ≡ cipher_sequence
  pub peer_dec : r.dec_state ≡ cipher_sequence
  pub synced : evp.Synced s.blocksize s.ctx_enc r.ctx_dec
  pub same : Kept s r
  pub block : IsBlock s.blocksize
  pub type : EvpCipher
  pub var_key : Bool
  pub mode : enc_cipher s.cipher ≡ some (type, var_key)
  pub block_type : block_of type ≡ s.blocksize
  pub four : 4 ≤ long_size
  pub fits : 4 + long_size ≤ s.blocksize

module _ (evp : Evp) (random : ℕ → ℕ → Bytes) (long_size : ℕ) where
  -- The end that lost its step.
  abbrev pub lost : Encrypt evp → evp.DecCtx → Encrypt evp
  lost s d = record s { ctx_dec = d; dec_state = cipher_init; enc_state = cipher_req_init }

  -- A frame with neither mark.
  pub decrypt_lost :
      (now : ℕ) (behind stale : Bytes) (s : Encrypt evp) (x : Bytes)
      → s.enc_state ≡ cipher_sequence
      → s.dec_state ≡ cipher_sequence
      → 0 < length x
      → starts_with (codes "seq#") ((evp.dec_update s.ctx_dec x).1 ++ stale) ≡ false
      → starts_with (codes "rsyn") ((evp.dec_update s.ctx_dec x).1 ++ stale) ≡ false
      → decrypt_buf evp random long_size now behind stale s x
        ≡ some (lost s (evp.dec_update s.ctx_dec x).0, pos 0, [])
  unfolding recv_msg_in unseal recv_ib_in lose_step
  decrypt_lost now behind stale s x enc dec some_byte no_mark no_request =
      let d = (evp.dec_update s.ctx_dec x).0 in
      let text = (evp.dec_update s.ctx_dec x).1 in
      let t : Encrypt evp = record s { ctx_dec = d } in
      let tested : recv_ib_in evp random long_size cipher_sequence t (text ++ stale)
          ≡ (lose_step evp random long_size s.enc_state t, none) =
        rw (no_mark, no_request, if◌then◌else◌) refl in
      decrypt_eq evp random long_size now behind stale s s x x
        (ap (λ z. recv_msg_in evp random long_size z now behind s x) dec) some_byte
      ∙ ap
          (λ z.
            stripped evp random long_size text
              (recv_ib_in evp random long_size z t (text ++ stale)))
          dec
      ∙ ap (λ z. stripped evp random long_size text z) tested
      ∙ ap (λ z. some (lose_step evp random long_size z t, pos 0, [])) enc

-- What gets the ends of a session into step again: a frame that is dropped, and one with a request.
pub record Resynced (evp : Evp) (random : ℕ → ℕ → Bytes) (long_size now : ℕ) (behind stale : Bytes)
    (s r : Encrypt evp) (x b : Bytes) : Type 0 where
  pub out_of_step : Encrypt evp
  pub asking : Encrypt evp
  pub asked : Encrypt evp
  pub wire : Bytes
  pub drops : decrypt_buf evp random long_size now behind stale s x ≡ some (out_of_step, pos 0, [])
  pub asks : encrypt_buf evp random long_size out_of_step b ≡ (asking, pos (length wire), wire)
  pub hears :
      decrypt_buf evp random long_size now behind stale r wire ≡ some (asked, pos (length b), b)
  pub ahead : InStep long_size asking asked
  pub back : Fresh long_size asked asking

module _ (evp : Evp) (random : ℕ → ℕ → Bytes) (long_size : ℕ) (rand : IsRandom random) (now : ℕ)
    (behind stale : Bytes) where
  -- Where an end of a session decrypts a frame without a mark, it drops the frame; its next frame
  -- carries a request, which comes through whole; and then the peer is to send a new vector and the
  -- end waits for it, while the end's own direction stays in step. So by `encrypt_round_trip` the next
  -- frame in each direction comes through.
  pub resync :
      (s r : Encrypt evp) (x b : Bytes)
      → Session long_size s r
      → 0 < length x
      → starts_with (codes "seq#") ((evp.dec_update s.ctx_dec x).1 ++ stale) ≡ false
      → starts_with (codes "rsyn") ((evp.dec_update s.ctx_dec x).1 ++ stale) ≡ false
      → IsBytes b
      → Resynced evp random long_size now behind stale s r x b
  resync s r x b session some_byte no_mark no_request bytes =
      let a : Encrypt evp = lost evp random long_size s (evp.dec_update s.ctx_dec x).0 in
      let same_block : s.blocksize ≡ r.blocksize = sym (ap (λ z. z.4) session.same) in
      let ready : InStep long_size a r = record {
        enc = inr refl;
        dec = session.peer_dec;
        synced = session.synced;
        four = session.four;
        fits = session.fits;
      } in
      let (t, ahead) =
        stepped_frame evp random long_size rand stale a r b bytes session.block same_block ready in
      let both =
        passes evp random long_size rand now behind stale a r a r [] b
          (send_nothing evp random long_size rand now behind stale a (inl (inr refl)))
          (λ frame.
            receive_nothing evp random long_size rand now behind stale r frame
              (inl session.peer_dec))
          t in
      let got_same : Kept s t.got = t.kept_got ∙ session.same in
      let ends_same : Kept t.sent t.got = got_same ∙ sym t.kept_sent in
      record {
        out_of_step = a;
        asking = t.sent;
        asked = t.got;
        wire = t.wire;
        drops =
            decrypt_lost evp random long_size now behind stale s x session.enc session.dec some_byte
              no_mark no_request;
        asks = both.0;
        hears = both.1;
        ahead = ahead;
        back = record {
          enc = t.answers refl;
          dec = t.same_dec;
          ecb = ap (λ z. z.0) ends_same;
          cipher = ap (λ z. z.1) ends_same;
          pkey = ap (λ z. z.2) ends_same;
          keysize = ap (λ z. z.3) ends_same;
          type = session.type;
          var_key = session.var_key;
          mode = ap (λ z. enc_cipher z.1) got_same ∙ session.mode;
          block = session.block_type ∙ sym (ap (λ z. z.4) got_same);
          four = session.four;
          fits = subst (λ n. 4 + long_size ≤ n) (sym (ap (λ z. z.4) got_same)) session.fits;
        };
      }
