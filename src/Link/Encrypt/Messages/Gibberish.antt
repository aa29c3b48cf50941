-- ===== src/Link/Encrypt/Messages/Gibberish.antt =====
-- The count of frames that were not the initial vector that was due.
use vtun.Common.{
  ℕ, suc, ◌-◌, ◌*◌, ◌==◌, ◌≡◌, ◌<◌, ◌≤◌, ◌⊎◌, inl, inr, ◌∙◌, refl, ap, sym, subst, [], ◌++◌, Bytes,
  true, false, Bool-cases, Option, none, some, ◌>>=◌, ℤ, pos, if◌then◌else◌, length, take, arith,
}
use vtun.Common.Text.{codes}
use vtun.Common.Strings.{starts_with}
use vtun.Link.Encrypt.Modes.{Evp}
use vtun.Link.Encrypt.State.{
  Encrypt, max_gibberish, max_gibberish_time, CipherState, cipher_init, cipher_code,
  cipher_sequence, cipher_req_init,
}
use vtun.Link.Encrypt.Messages.{
  count_gibberish, recv_vector, recv_msg_in, recv_msg, recv_ib_in, lose_step, strip, stripped,
  unseal, decrypt_buf,
}

module _ (evp : Evp) (random : ℕ → ℕ → Bytes) (long_size : ℕ) where
  -- What a frame that is not the vector does: either the limit is reached, the count starts over and
  -- the end is to send a vector of its own; or it is counted, and the first one also makes the end ask for a
  -- vector.
  abbrev pub Counted : ℕ → Encrypt evp → Encrypt evp → Type 0
  Counted now s t =
      (t.dec_state ≡ s.dec_state)
      × (t.ctx_dec ≡ s.ctx_dec)
      × ((((max_gibberish ≤ suc s.gibberish) ⊎ (max_gibberish_time ≤ now - s.gib_time_start))
            × (t.gibberish ≡ 0)
            × (t.enc_state ≡ cipher_init)
            × (t.send_a_packet ≡ true))
          ⊎ ((t.gibberish ≡ suc s.gibberish)
              × (t.gibberish < max_gibberish)
              × (now - t.gib_time_start < max_gibberish_time)
              × (s.gibberish ≡ 0
                  → (t.enc_state ≡ cipher_req_init)
                    × (t.send_a_packet ≡ true)
                    × (t.gib_time_start ≡ now))
              × (0 < s.gibberish
                  → (t.enc_state ≡ s.enc_state) × (t.gib_time_start ≡ s.gib_time_start))))

  count_gibberish-Counted :
      (now : ℕ) (s : Encrypt evp) → Counted now s (count_gibberish evp random long_size now s)
  unfolding count_gibberish
  count_gibberish-Counted now s = ground arith

  -- The count stays below its limit.
  abbrev pub IsCounting : Encrypt evp → Type 0
  IsCounting s = s.gibberish < max_gibberish

  recv_vector-IsCounting :
      (now : ℕ) (behind : Bytes) (s : Encrypt evp) (input : Bytes)
      → IsCounting s
      → (t : Encrypt evp) (frame : Bytes)
      → recv_vector evp random long_size now behind s input ≡ some (t, frame)
      → IsCounting t
  unfolding recv_vector
  recv_vector-IsCounting now behind s input h t frame e =
      let counted : IsCounting (count_gibberish evp random long_size now s) =
        ground (arith, h, count_gibberish-Counted now s) in
      ground (arith, e, counted)

  recv_msg-IsCounting :
      (state : CipherState) (now : ℕ) (behind : Bytes) (s : Encrypt evp) (input : Bytes)
      → IsCounting s
      → (t : Encrypt evp) (frame : Bytes)
      → recv_msg_in evp random long_size state now behind s input ≡ some (t, frame)
      → IsCounting t
  unfolding recv_msg_in
  recv_msg-IsCounting cipher_init now behind s input h t frame e =
      recv_vector-IsCounting now behind s input h t frame e
  recv_msg-IsCounting cipher_code now behind s input h t frame e = ground (arith, e)
  recv_msg-IsCounting cipher_sequence now behind s input h t frame e = ground (arith, e)
  recv_msg-IsCounting cipher_req_init now behind s input h t frame e = ground (arith, e)

  lose_step-gibberish :
      (state : CipherState) (s : Encrypt evp)
      → (lose_step evp random long_size state s).gibberish ≡ s.gibberish
  unfolding lose_step
  lose_step-gibberish cipher_init s = refl
  lose_step-gibberish cipher_code s = refl
  lose_step-gibberish cipher_sequence s = refl
  lose_step-gibberish cipher_req_init s = refl

  recv_ib-gibberish :
      (state : CipherState) (s : Encrypt evp) (text : Bytes)
      → (recv_ib_in evp random long_size state s text).0.gibberish ≡ s.gibberish
  unfolding recv_ib_in
  recv_ib-gibberish cipher_init s text = refl
  recv_ib-gibberish cipher_code s text = refl
  recv_ib-gibberish cipher_sequence s text = ground (arith, lose_step-gibberish s.enc_state s)
  recv_ib-gibberish cipher_req_init s text = refl

  strip-same :
      (s : Encrypt evp) (skip : ℕ) (text : Bytes) (t : Encrypt evp) (n : ℤ) (out : Bytes)
      → strip evp random long_size s skip text ≡ some (t, n, out)
      → s ≡ t
  unfolding strip
  strip-same s skip text t n out e = ground (arith, e)

  stripped-IsCounting :
      (text : Bytes) (got : Encrypt evp × Option ℕ)
      → IsCounting got.0
      → (t : Encrypt evp) (n : ℤ) (out : Bytes)
      → stripped evp random long_size text got ≡ some (t, n, out)
      → IsCounting t
  stripped-IsCounting text (s, none) h t n out e = ground (arith, e)
  stripped-IsCounting text (s, some skip) h t n out e =
      subst (λ z. IsCounting z) (strip-same s skip text t n out e) h

  unseal-IsCounting :
      (stale : Bytes) (s : Encrypt evp) (frame : Bytes)
      → IsCounting s
      → (t : Encrypt evp) (n : ℤ) (out : Bytes)
      → unseal evp random long_size stale s frame ≡ some (t, n, out)
      → IsCounting t
  unfolding unseal
  unseal-IsCounting stale s frame h t n out e =
      let d = evp.dec_update s.ctx_dec frame in
      let u : Encrypt evp = record s { ctx_dec = d.0 } in
      let same = recv_ib-gibberish u.dec_state u (d.1 ++ stale) in
      stripped-IsCounting d.1 (recv_ib_in evp random long_size u.dec_state u (d.1 ++ stale))
        (omega (arith, h, same)) t n out e

  got-IsCounting :
      (stale : Bytes) (s : Encrypt evp) (frame : Bytes)
      → IsCounting s
      → (t : Encrypt evp) (n : ℤ) (out : Bytes)
      → (if length frame == 0
          then some (s, pos 0, [])
          else unseal evp random long_size stale s frame)
        ≡ some (t, n, out)
      → IsCounting t
  got-IsCounting stale s frame h t n out e = elim (Bool-cases (length frame == 0)) [
    | inl none_left ↦ ground (arith, e, none_left)
    | inr some_left ↦ unseal-IsCounting stale s frame h t n out (
        sym (
          ap (λ z. if z then some (s, pos 0, []) else unseal evp random long_size stale s frame)
            some_left)
        ∙ e)
  ]

  bound-IsCounting :
      (stale : Bytes) (o : Option (Encrypt evp × Bytes))
      → ((u : Encrypt evp) (frame : Bytes) → o ≡ some (u, frame) → IsCounting u)
      → (t : Encrypt evp) (n : ℤ) (out : Bytes)
      → (o >>= λ got.
          if length got.1 == 0
          then some (got.0, pos 0, [])
          else unseal evp random long_size stale got.0 got.1)
        ≡ some (t, n, out)
      → IsCounting t
  bound-IsCounting stale none h t n out e = ground (arith, e)
  bound-IsCounting stale (some (u, frame)) h t n out e =
      got-IsCounting stale u frame (h u frame refl) t n out e

  -- Whatever arrives, in whatever state, the count of frames that were not the vector stays below its
  -- limit of 10.
  pub decrypt_buf-IsCounting :
      (now : ℕ) (behind stale : Bytes) (s : Encrypt evp) (input : Bytes)
      → IsCounting s
      → (t : Encrypt evp) (n : ℤ) (out : Bytes)
      → decrypt_buf evp random long_size now behind stale s input ≡ some (t, n, out)
      → IsCounting t
  unfolding decrypt_buf
  decrypt_buf-IsCounting now behind stale s input h t n out e =
      bound-IsCounting stale (recv_msg evp random long_size now behind s input)
        (λ u frame got. recv_msg-IsCounting s.dec_state now behind s input h u frame got) t n out e

  -- What a receiver that waits for a vector does with a frame that is not one: it drops the frame
  -- and goes on waiting. It counts the frame, and asks for a vector at the first; or, at the tenth or two
  -- seconds after the first, it starts the count over and is to send a vector of its own.
  pub waiting-Counted :
      (now : ℕ) (behind stale : Bytes) (s : Encrypt evp) (input : Bytes)
      → s.dec_state ≡ cipher_init
      → starts_with
          (codes "ivec")
          (evp.ecb_decrypt s.ctx_ecb (take (s.blocksize * 2) (input ++ behind)))
        ≡ false
      → (t : Encrypt evp) × (decrypt_buf evp random long_size now behind stale s input
          ≡ some (t, pos 0, []))
        × Counted now s t
  unfolding decrypt_buf recv_msg_in recv_vector
  waiting-Counted now behind stale s input waits other =
      let received : recv_msg evp random long_size now behind s input
          ≡ some (count_gibberish evp random long_size now s, []) =
        ap (λ z. recv_msg_in evp random long_size z now behind s input) waits
        ∙ rw (other, recv_vector, if◌then◌else◌) refl in
      (
        count_gibberish evp random long_size now s,
        rw (received, decrypt_buf) refl,
        count_gibberish-Counted now s,
      )
