-- ===== src/Link/Legacy/Stacked.antt =====
-- The old encryption as a module of the stack, and what the stack asks of it.
use vtun.Common.{◌≡◌, ◌∙◌, refl, ap, sym, Bytes, pos, none, some, arith}
use vtun.Cipher.{BlockCipher}
use vtun.Link.Legacy.{legacy_encrypt_buf, legacy_decrypt_buf, alloc_legacy_encrypt}
use vtun.Link.Legacy.RoundTrip.{legacy_round_trip}
use vtun.Link.Stack.{Module}
use vtun.Link.Stack.RoundTrip.{Inverts}

module _ (c : BlockCipher) (behind : Bytes) where
  -- `lfd_legacy_encrypt`: its state is the key, and its buffer was allocated.
  abbrev pub lfd_legacy_encrypt : c.Key → Module
  lfd_legacy_encrypt key = record {
    State = c.Key;
    state = key;
    alloc = some (λ k host. (alloc_legacy_encrypt c host, pos 0));
    encode =
        some (λ k input. (k, (legacy_encrypt_buf c k input).0, (legacy_encrypt_buf c k input).1));
    avail_encode = none;
    decode = some (λ k input.
        (k, (legacy_decrypt_buf c k input behind).0, (legacy_decrypt_buf c k input behind).1));
    avail_decode = none;
    free = some (λ k. (k, pos 0));
  }

  -- Two ends with one key are a mirror: the old encryption is a module that the stack can carry
  -- frames through, with 8 bytes of growth.
  unfoldable pub legacy-Inverts :
      (key : c.Key) → Inverts (lfd_legacy_encrypt key) (lfd_legacy_encrypt key)
  legacy-Inverts key = record {
    growth = 8;
    Linked = λ k l. k ≡ l;
    linked = refl;
    inverts = λ k l b same frame.
        let (e, encoded, blocks, longer, room, bytes, decoded) =
          legacy_round_trip c k b behind (omega (arith, frame.room)) frame.bytes in
        (
          k,
          l,
          e,
          same,
          bytes,
          omega (arith, longer),
          room,
          ap (λ z. (k, z.0, z.1)) encoded,
          ap (λ z. (l, (legacy_decrypt_buf c z e behind).0, (legacy_decrypt_buf c z e behind).1))
                (sym same)
              ∙ ap (λ z. (l, z.0, z.1)) decoded,
        );
  }
