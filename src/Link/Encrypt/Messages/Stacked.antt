-- ===== src/Link/Encrypt/Messages/Stacked.antt =====
-- What one end encrypts, the other end decrypts.
use vtun.Common.{
  ℕ, ◌+◌, ◌≡◌, ◌<◌, ◌≤◌, ◌⊎◌, inl, inr, ◌∙◌, refl, ap, sym, subst, [], ◌∷◌, ◌++◌, Bytes, IsBytes,
  true, some, pos, length, arith, length-append, All-append,
}
use vtun.Link.Encrypt.Modes.{Evp}
use vtun.Link.Encrypt.State.{Encrypt, cipher_init, cipher_code, cipher_sequence, cipher_req_init}
use vtun.Link.Encrypt.Messages.{
  send_msg_in, recv_msg_in, send_msg, send_ib_in, send_ib_mesg, encrypt_buf, recv_msg, recv_ib_in,
  recv_ib_mesg, decrypt_buf,
}
use vtun.Link.Encrypt.Messages.Seal.{IsRandom, IsBlock, Opens, seal-Opens, strip-padded}
use vtun.Link.Encrypt.Messages.Passes.{
  encrypt_eq, decrypt_eq, unseal_eq, InStep, Plain, Linked, Through, tagged_frame,
}
use vtun.Link.Encrypt.Messages.Vector.{Started, start_Fresh}

module _ (evp : Evp) (random : ℕ → ℕ → Bytes) (long_size : ℕ) (rand : IsRandom random)
    (stale : Bytes) where
  -- Contexts in step: a frame goes through with a mark.
  pub stepped_frame :
      (s r : Encrypt evp) (b : Bytes)
      → IsBytes b
      → IsBlock s.blocksize
      → s.blocksize ≡ r.blocksize
      → InStep long_size s r
      → (t : Through evp random long_size stale s r b) × InStep long_size t.sent t.got
  unfolding send_ib_in recv_ib_in
  stepped_frame s r b bytes block same step = elim step.enc [
    | inl sequence ↦
        tagged_frame evp random long_size rand stale b's' b'e' b'q' b'#' s r s
          (λ d. record r { ctx_dec = d }) b (omega arith) bytes block same step.four step.fits
          step.synced refl refl sequence (ap (λ z. send_ib_in evp random long_size z s b) sequence)
          (λ d t.
            ap
              (λ z.
                recv_ib_in evp random long_size z (record r { ctx_dec = d })
                  (115 ∷ 101 ∷ 113 ∷ 35 ∷ t))
              step.dec)
          (λ d. (refl, step.dec, refl, refl, λ other. ground (arith, sequence, other)))
    | inr request ↦
        tagged_frame evp random long_size rand stale b'r' b's' b'y' b'n' s r
          (record s { enc_state = cipher_sequence; send_a_packet = true })
          (λ d. record r { ctx_dec = d; enc_state = cipher_init }) b (omega arith) bytes block same
          step.four step.fits step.synced refl refl refl
          (ap (λ z. send_ib_in evp random long_size z s b) request)
          (λ d t.
            ap
              (λ z.
                recv_ib_in evp random long_size z (record r { ctx_dec = d })
                  (114 ∷ 115 ∷ 121 ∷ 110 ∷ t))
              step.dec)
          (λ d. (refl, step.dec, refl, refl, λ h. refl))
  ]

  send_ib-code :
      (s : Encrypt evp) (b : Bytes)
      → s.enc_state ≡ cipher_code
      → send_ib_mesg evp random long_size s b ≡ (s, b)
  unfolding send_ib_in
  send_ib-code s b h = ap (λ z. send_ib_in evp random long_size z s b) h

  recv_ib-code :
      (r : Encrypt evp) (t : Bytes)
      → r.dec_state ≡ cipher_code
      → recv_ib_mesg evp random long_size r t ≡ (r, some 0)
  unfolding recv_ib_in
  recv_ib-code r t h = ap (λ z. recv_ib_in evp random long_size z r t) h

  -- A session without vectors: a frame goes through with its padding.
  pub codeless_frame :
      (s r : Encrypt evp) (b : Bytes)
      → IsBytes b
      → 0 < length b
      → IsBlock s.blocksize
      → s.blocksize ≡ r.blocksize
      → Plain s r
      → Through evp random long_size stale s r b
  codeless_frame s r b bytes some_byte block same plain =
      let o : Opens evp random long_size s r b =
        seal-Opens evp random long_size rand s r b block plain.synced bytes in
      let got : Encrypt evp = record r { ctx_dec = o.ctx } in
      let small : s.blocksize ≤ 16 = ground (arith, block) in
      record {
        marked = s;
        frame = b;
        sent = o.sent;
        wire = o.wire;
        got = got;
        marks = send_ib-code s b plain.enc;
        some_byte = some_byte;
        seals = o.seals;
        unseals =
            unseal_eq evp random long_size stale r got o.ctx o.wire (b ++ o.fill) 0 o.opens
              (recv_ib-code got ((b ++ o.fill) ++ stale) plain.dec)
            ∙ strip-padded evp random long_size got 0 o.pad [] b o.fill refl o.pads o.some_pad
                (omega (arith, o.small, same));
        linked = record {
          block = subst (λ n. IsBlock n) (sym o.same_block) block;
          same_block = o.same_block ∙ same;
          stage = inr (
              inr (record {
                enc = o.same_state ∙ plain.enc;
                dec = plain.dec;
                synced = subst (λ n. evp.Synced n o.sent.ctx_enc o.ctx) (sym o.same_block) o.synced;
              }));
        };
        bytes = o.bytes;
        nonempty = omega (arith, o.size, o.some_pad);
        room = omega (arith, o.size, o.small);
        kept_sent = o.kept;
        kept_got = refl;
        same_dec = o.same_dec;
        answers = λ other. ground (arith, plain.enc, other);
      }

-- A frame from one end to the other: what `encrypt_buf` answers, and what `decrypt_buf` makes of it.
pub record Crosses (evp : Evp) (random : ℕ → ℕ → Bytes) (long_size now : ℕ) (behind stale : Bytes)
    (s r : Encrypt evp) (b : Bytes) : Type 0 where
  pub sent : Encrypt evp
  pub got : Encrypt evp
  pub wire : Bytes
  pub encrypts : encrypt_buf evp random long_size s b ≡ (sent, pos (length wire), wire)
  pub decrypts :
      decrypt_buf evp random long_size now behind stale r wire ≡ some (got, pos (length b), b)
  pub linked : Linked long_size sent got
  pub bytes : IsBytes wire
  pub nonempty : 0 < length wire
  pub room : length wire ≤ length b + 64

module _ (evp : Evp) (random : ℕ → ℕ → Bytes) (long_size : ℕ) (rand : IsRandom random) (now : ℕ)
    (behind stale : Bytes) where
  -- The message in front, and then the frame.
  pub passes :
      (s r s1 r1 : Encrypt evp) (msg b : Bytes)
      → send_msg evp random long_size s ≡ (s1, msg)
      → ((frame : Bytes)
          → recv_msg evp random long_size now behind r (msg ++ frame) ≡ some (r1, frame))
      → (t : Through evp random long_size stale s1 r1 b)
      → (encrypt_buf evp random long_size s b
          ≡ (t.sent, pos (length (msg ++ t.wire)), msg ++ t.wire))
        × (decrypt_buf evp random long_size now behind stale r (msg ++ t.wire)
            ≡ some (t.got, pos (length b), b))
  passes s r s1 r1 msg b sends receives t = (
    encrypt_eq evp random long_size s s1 t.marked t.sent msg b t.frame t.wire sends t.marks t.seals
          t.some_byte
        ∙ ap (λ z. (t.sent, pos z, msg ++ t.wire)) (omega (arith, length-append msg t.wire)),
    decrypt_eq evp random long_size now behind stale r r1 (msg ++ t.wire) t.wire (receives t.wire)
          t.nonempty
        ∙ t.unseals,
  )

  with_message :
      (s r s1 r1 : Encrypt evp) (msg b : Bytes)
      → send_msg evp random long_size s ≡ (s1, msg)
      → ((frame : Bytes)
          → recv_msg evp random long_size now behind r (msg ++ frame) ≡ some (r1, frame))
      → length msg ≤ 32
      → IsBytes msg
      → Through evp random long_size stale s1 r1 b
      → Crosses evp random long_size now behind stale s r b
  with_message s r s1 r1 msg b sends receives small msg_bytes through =
      let both = passes s r s1 r1 msg b sends receives through in
      record {
        sent = through.sent;
        got = through.got;
        wire = msg ++ through.wire;
        encrypts = both.0;
        decrypts = both.1;
        linked = through.linked;
        bytes = All-append (λ x. x < 256) msg through.wire msg_bytes through.bytes;
        nonempty = omega (arith, length-append msg through.wire, through.nonempty);
        room = omega (arith, length-append msg through.wire, through.room);
      }

  -- No message in front.
  pub send_nothing :
      (s : Encrypt evp)
      → ((s.enc_state ≡ cipher_sequence) ⊎ (s.enc_state ≡ cipher_req_init))
        ⊎ (s.enc_state ≡ cipher_code)
      → send_msg evp random long_size s ≡ (s, [])
  unfolding send_msg_in
  send_nothing s enc = elim enc [
    | inl (inl e) ↦ ap (λ z. send_msg_in evp random long_size z s) e
    | inl (inr e) ↦ ap (λ z. send_msg_in evp random long_size z s) e
    | inr e ↦ ap (λ z. send_msg_in evp random long_size z s) e
  ]

  pub receive_nothing :
      (r : Encrypt evp) (frame : Bytes)
      → (r.dec_state ≡ cipher_sequence) ⊎ (r.dec_state ≡ cipher_code)
      → recv_msg evp random long_size now behind r frame ≡ some (r, frame)
  unfolding recv_msg_in
  receive_nothing r frame dec = elim dec [
    | inl e ↦ ap (λ z. recv_msg_in evp random long_size z now behind r frame) e
    | inr e ↦ ap (λ z. recv_msg_in evp random long_size z now behind r frame) e
  ]

  -- Between two ends that agree on the key and are not yet started, in step, or without vectors, what
  -- `encrypt_buf` makes of a frame, with the vector and the mark that its state puts in front, is
  -- what `decrypt_buf` gives back, whatever stands in the buffers behind it. The ends are then in
  -- step, or still without vectors, and the frame on the wire is at most 64 bytes longer.
  pub encrypt_round_trip :
      (s r : Encrypt evp) (b : Bytes)
      → Linked long_size s r
      → IsBytes b
      → 0 < length b
      → Crosses evp random long_size now behind stale s r b
  encrypt_round_trip s r b linked bytes some_byte = elim linked.stage [
    | inl fresh ↦
        let st : Started evp random long_size s r =
          start_Fresh evp random long_size rand s r fresh linked.block linked.same_block in
        with_message s r st.sender st.receiver st.msg b st.sends
          (λ frame. st.receives now behind frame) st.size st.bytes
          (stepped_frame evp random long_size rand stale st.sender st.receiver b bytes
            (subst (λ n. IsBlock n) (sym st.same_sender) linked.block)
            (st.same_sender ∙ linked.same_block ∙ sym st.same_receiver) st.step).0
    | inr (inl step) ↦
        with_message s r s r [] b (send_nothing s (inl step.enc))
          (λ frame. receive_nothing r frame (inl step.dec)) (omega arith) tt
          (stepped_frame evp random long_size rand stale s r b bytes linked.block linked.same_block
            step).0
    | inr (inr plain) ↦
        with_message s r s r [] b (send_nothing s (inr plain.enc))
          (λ frame. receive_nothing r frame (inr plain.dec)) (omega arith) tt
          (codeless_frame evp random long_size rand stale s r b bytes some_byte linked.block
            linked.same_block plain)
  ]
