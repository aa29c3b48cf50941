-- ===== src/Link/Encrypt/Messages/InStack.antt =====
-- The encryption module as a module of the stack.
use vtun.Common.{ℕ, ◌≡◌, ◌∙◌, refl, ap, Bytes, none, some, ℤ, pos, negsuc}
use vtun.Link.Encrypt.Modes.{Evp}
use vtun.Link.Encrypt.State.{Encrypt, alloc_encrypt, cipher_dec_init}
use vtun.Link.Encrypt.Messages.{
  encrypt_buf, decrypt_buf, recv_msg_in, recv_vector, count_gibberish, recv_ib_in, unseal, strip,
  lose_step,
}
use vtun.Link.Encrypt.Messages.Seal.{IsRandom}
use vtun.Link.Encrypt.Messages.Passes.{Linked}
use vtun.Link.Encrypt.Messages.Stacked.{Crosses, encrypt_round_trip}
use vtun.Link.Stack.{Module}
use vtun.Link.Stack.RoundTrip.{Inverts}

module _ (evp : Evp) (random : ℕ → ℕ → Bytes) (long_size now : ℕ) (behind stale : Bytes)
    (lost : Encrypt evp → Bytes → Encrypt evp × ℤ × Bytes) where
  -- `lfd_encrypt`: its state is the static variables. What a frame does on which `decrypt_buf` is
  -- undefined is the parameter `lost`.
  abbrev pub lfd_encrypt : Encrypt evp → Module
  lfd_encrypt s = record {
    State = Encrypt evp;
    state = s;
    alloc = some (λ t host. elim (alloc_encrypt evp random long_size host t) [
      | none ↦ (t, negsuc 0)
      | some u ↦ (u, pos 0)
    ]);
    encode = some (λ t input. encrypt_buf evp random long_size t input);
    avail_encode = none;
    decode = some (λ t input. elim (decrypt_buf evp random long_size now behind stale t input) [
      | none ↦ lost t input
      | some answer ↦ answer
    ]);
    avail_decode = none;
    free = some (λ t. (t, pos 0));
  }

module _ (evp : Evp) (random peer_random : ℕ → ℕ → Bytes) (long_size now : ℕ) (behind stale : Bytes)
    (lost : Encrypt evp → Bytes → Encrypt evp × ℤ × Bytes) (rand : IsRandom random) where
  -- Decrypting draws nothing.
  same_decrypt :
      (t : Encrypt evp) (x : Bytes)
      → decrypt_buf evp peer_random long_size now behind stale t x
        ≡ decrypt_buf evp random long_size now behind stale t x
  unfolding decrypt_buf recv_msg_in recv_vector cipher_dec_init count_gibberish recv_ib_in unseal
      strip lose_step
  same_decrypt t x = refl

  -- Two linked ends are a module that the stack carries frames through, with 64 bytes of growth.
  unfoldable pub encrypt-Inverts :
      (s r : Encrypt evp)
      → Linked long_size s r
      → Inverts
          (lfd_encrypt evp random long_size now behind stale lost s)
          (lfd_encrypt evp peer_random long_size now behind stale lost r)
  unfolding same_decrypt
  encrypt-Inverts s r linked = record {
    growth = 64;
    Linked = λ t u. Linked long_size t u;
    linked = linked;
    inverts = λ t u b same frame.
        let c : Crosses evp random long_size now behind stale t u b =
          encrypt_round_trip evp random long_size rand now behind stale t u b same frame.bytes
            frame.nonempty in
        (
          c.sent,
          c.got,
          c.wire,
          c.linked,
          c.bytes,
          c.nonempty,
          c.room,
          c.encrypts,
          ap (λ z. elim z [ none ↦ lost u c.wire | some answer ↦ answer ])
              (same_decrypt u c.wire ∙ c.decrypts),
        );
  }
