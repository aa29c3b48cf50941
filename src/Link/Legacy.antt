-- ===== src/Link/Legacy.antt =====
-- lfd_legacy_encrypt.c: the old encryption module, ECB with the padding in front.
--
-- `encode` and `decode` take the `len` bytes of the frame; the result is what the C function
-- returns, and the bytes from `*out` on. The buffer of `legacy_decrypt_buf` is decrypted in place in
-- whole blocks: what stands behind the frame in it is the argument `behind`.
pub mod RoundTrip
pub mod Stacked
use vtun.Common.{
  ℕ, zero, suc, ◌+◌, ◌-◌, ◌*◌, ◌/◌, ◌%◌, ◌==◌, ◌++◌, [], ◌∷◌, Bytes, ℤ, pos, -ℤ_parts, ◌-ℤ◌,
  if◌then◌else◌, length, take, drop, replicate, get_or, ltb, Bool, ◌||◌, set,
}
use vtun.Common.Bits.{bit_and}
use vtun.Host.{VtunHost, invert}
use vtun.Cipher.{BlockCipher, ecb}

-- `(~len & 0x07) + 1`
unfoldable pub pad_of : ℕ → ℕ
pad_of len = bit_and (invert len) 7 + 1

module _ (c : BlockCipher) where
  -- `alloc_legacy_encrypt`, where the buffer is allocated: the key.
  abbrev pub alloc_legacy_encrypt : VtunHost → c.Key
  alloc_legacy_encrypt host = c.set_key host.passwd

  unfoldable pub legacy_encrypt_buf : c.Key → Bytes → ℤ × Bytes
  legacy_encrypt_buf key input =
      let pad = pad_of (length input) in
      let p = 8 - pad in
      let first = set (replicate pad 0) 0 pad ++ take p input in
      let len = length input - p in
      (pos (len + 8), c.encrypt key first ++ ecb (c.encrypt key) ((len + 7) / 8) (drop p input))

  unfoldable pub legacy_decrypt_buf : c.Key → Bytes → Bytes → ℤ × Bytes
  legacy_decrypt_buf key input behind =
      let len = length input in
      let clear = ecb (c.decrypt key) ((len + 7) / 8) (input ++ behind) in
      let p = get_or clear 0 0 in
      if ltb p 1 || ltb 8 p then (pos 0, []) else (pos len -ℤ pos p, drop p clear)
