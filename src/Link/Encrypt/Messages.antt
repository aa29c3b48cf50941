-- ===== src/Link/Encrypt/Messages.antt =====
-- lfd_encrypt.c: `send_msg`, `recv_msg`, `send_ib_mesg`, `recv_ib_mesg`,
-- `encrypt_buf` and `decrypt_buf`.
--
-- A frame is its bytes; the buffer has the room in front of it that the module writes to. The n-th
-- call of RAND_bytes for m bytes gives `random n m`. An `unsigned long` has `long_size` bytes, of
-- which `htonl` fills the four that come first in memory (little-endian). Behind a frame stand the bytes `behind`, and
-- behind a decrypted one the bytes `stale` of its buffer. `decrypt_buf` is `none` where it would call
-- EVP_DecryptUpdate with a negative length or read in front of its buffer. Cleaning a context up, which
-- is made anew before its next use, is not modelled.
pub mod Seal
pub mod Mark
pub mod Passes
pub mod Stacked
pub mod Vector
pub mod Alloc
pub mod InStack
pub mod Resync
pub mod Gibberish
pub mod Overrun
use vtun.Common.{
  ℕ, suc, ◌+◌, ◌-◌, ◌*◌, ◌/◌, ◌%◌, ◌^◌, ◌==◌, [], ◌∷◌, ◌++◌, Bytes, Bool, true, false, ◌&&◌, ◌||◌,
  not, Option, none, some, ◌>>=◌, ℤ, pos, ◌-ℤ◌, ltb, leb, if◌then◌else◌, length, take, drop,
  replicate, get_or,
}
use vtun.Common.Bits.{bit_and}
use vtun.Common.Text.{codes}
use vtun.Common.Strings.{starts_with}
use vtun.Host.{VtunHost}
use vtun.Link.Encrypt.State.{
  CipherState, cipher_init, cipher_code, cipher_sequence, cipher_req_init, max_gibberish,
  min_gibberish, max_gibberish_time, Encrypt, be32, le32, key_length, alloc_encrypt,
  cipher_enc_init, cipher_dec_init,
}
use vtun.Link.Encrypt.Modes.{Evp, EvpCipher, Choice, choose, enc_cipher, dec_cipher, prep_key}

-- `memcpy(s + i, w, length w)`
abbrev pub overwrite : Bytes → ℕ → Bytes → Bytes
overwrite s i w = take i s ++ (w ++ drop (i + length w) s)

module _ (evp : Evp) (random : ℕ → ℕ → Bytes) (long_size : ℕ) where
  -- What is put in front of the next frame, outside the cipher, in a state of the sender.
  unfoldable pub send_msg_in : CipherState → Encrypt evp → Encrypt evp × Bytes
  send_msg_in cipher_init s =
      let iv = random s.draws s.blocksize in
      let fill = random (suc s.draws) (s.blocksize - 4) in
      (
        record (cipher_enc_init evp random long_size iv s) {
          enc_state = cipher_sequence;
          draws = suc (suc s.draws);
        },
        evp.ecb_encrypt s.ctx_ecb (codes "ivec" ++ (iv ++ fill)),
      )
  send_msg_in _ s = (s, [])

  abbrev pub send_msg : Encrypt evp → Encrypt evp × Bytes
  send_msg s = send_msg_in s.enc_state s

  -- A mark in front of a frame: a block with a tag and the sequence number, which is written as an
  -- `unsigned long`, over the first bytes of the frame where the block is too small; what it writes behind
  -- the frame is not sent.
  unfoldable pub mark : Bytes → Encrypt evp → Bytes → Bytes
  mark tag s frame = take (s.blocksize + length frame) (
      overwrite (tag ++ replicate (s.blocksize - 4) 0 ++ frame) 4
        (be32 s.sequence_num ++ replicate (long_size - 4) 0))

  unfoldable pub send_ib_in : CipherState → Encrypt evp → Bytes → Encrypt evp × Bytes
  send_ib_in cipher_sequence s frame = (s, mark (codes "seq#") s frame)
  send_ib_in cipher_req_init s frame =
      (record s { enc_state = cipher_sequence; send_a_packet = true }, mark (codes "rsyn") s frame)
  send_ib_in _ s frame = (s, frame)

  abbrev pub send_ib_mesg : Encrypt evp → Bytes → Encrypt evp × Bytes
  send_ib_mesg s frame = send_ib_in s.enc_state s frame

  -- How many bytes fill the last block behind a frame of this size.
  unfoldable pub pad_size : Encrypt evp → ℕ → ℕ
  pad_size s len = s.blocksize - bit_and len (s.blocksize - 1)

  -- These bytes, of which the last one is their number.
  unfoldable pub padding : Encrypt evp → ℕ → Bytes
  padding s len =
      let pad = pad_size s len in
      if pad == s.blocksize then random s.draws (s.blocksize - 1) ++ pad ∷ [] else replicate pad pad

  -- The rest of `encrypt_buf` behind the messages.
  unfoldable pub seal : Encrypt evp → Bytes → Encrypt evp × Bytes
  seal s frame =
      let (ctx, sealed) = evp.enc_update s.ctx_enc (frame ++ padding s (length frame)) in
      (
        record s {
          ctx_enc = ctx;
          sequence_num = (s.sequence_num + 1) % 2 ^ (8 * long_size);
          draws = if pad_size s (length frame) == s.blocksize then suc s.draws else s.draws;
        },
        sealed,
      )

  unfoldable pub encrypt_buf : Encrypt evp → Bytes → Encrypt evp × ℤ × Bytes
  encrypt_buf s input =
      let (sent, msg) = send_msg s in
      let (marked, frame) = send_ib_mesg sent input in
      let (sealed, out) = seal marked frame in
      if length frame == 0
      then (marked, pos 0, [])
      else (sealed, pos (length out + length msg), msg ++ out)

  -- A frame that was not the initial vector that it should be, at the time `now`.
  unfoldable pub count_gibberish : ℕ → Encrypt evp → Encrypt evp
  count_gibberish now s =
      let n = suc s.gibberish in
      let started = if n == 1 then now else s.gib_time_start in
      let counted = record s { gibberish = n; gib_time_start = started } in
      let asked =
        if n == min_gibberish
        then record counted { enc_state = cipher_req_init; send_a_packet = true }
        else counted in
      if leb max_gibberish n || leb max_gibberish_time (now - started)
      then record asked {
        gibberish = 0;
        gib_time_start = 0;
        send_a_packet = true;
        enc_state = cipher_init;
      }
      else asked

  -- A message where an initial vector is due.
  unfoldable pub recv_vector : ℕ → Bytes → Encrypt evp → Bytes → Option (Encrypt evp × Bytes)
  recv_vector now behind s input =
      let size = s.blocksize * 2 in
      let plain = evp.ecb_decrypt s.ctx_ecb (take size (input ++ behind)) in
      let began = cipher_dec_init evp random long_size (take s.blocksize (drop 4 plain)) s in
      if starts_with (codes "ivec") plain
      then (if ltb (length input) size
          then none
          else some (
            record began { dec_state = cipher_sequence; gibberish = 0; gib_time_start = 0 },
            drop size input,
          ))
      else some (count_gibberish now s, [])

  unfoldable pub recv_msg_in :
      CipherState → ℕ → Bytes → Encrypt evp → Bytes → Option (Encrypt evp × Bytes)
  recv_msg_in cipher_init now behind s input = recv_vector now behind s input
  recv_msg_in _ now behind s input = some (s, input)

  abbrev pub recv_msg : ℕ → Bytes → Encrypt evp → Bytes → Option (Encrypt evp × Bytes)
  recv_msg now behind s input = recv_msg_in s.dec_state now behind s input

  -- A frame without a mark: the receiver is out of step, and asks for a new vector unless its own
  -- sender has one to send or to ask for.
  unfoldable pub lose_step : CipherState → Encrypt evp → Encrypt evp
  lose_step cipher_req_init s = s
  lose_step cipher_init s = s
  lose_step _ s = record s { dec_state = cipher_init; enc_state = cipher_req_init }

  -- Whether a decrypted frame has a mark: the module, and how many bytes the mark takes; none for a
  -- frame that is dropped.
  unfoldable pub recv_ib_in : CipherState → Encrypt evp → Bytes → Encrypt evp × Option ℕ
  recv_ib_in cipher_sequence s text =
      if starts_with (codes "seq#") text
      then (s, some s.blocksize)
      else if starts_with (codes "rsyn") text
      then (record s { enc_state = cipher_init }, some s.blocksize)
      else (lose_step s.enc_state s, none)
  recv_ib_in _ s text = (s, some 0)

  abbrev pub recv_ib_mesg : Encrypt evp → Bytes → Encrypt evp × Option ℕ
  recv_ib_mesg s text = recv_ib_in s.dec_state s text

  -- The end of `decrypt_buf`: the padding of a decrypted frame behind a mark of `skip` bytes.
  unfoldable pub strip : Encrypt evp → ℕ → Bytes → Option (Encrypt evp × ℤ × Bytes)
  strip s skip text =
      let pad = get_or text (length text - 1) 0 in
      if length text == skip
      then some (s, pos 0, [])
      else if length text == 0
      then none
      else if ltb pad 1 || ltb s.blocksize pad
      then some (s, pos 0, [])
      else some (
        s,
        pos (length text) -ℤ pos (skip + pad),
        take (length text - skip - pad) (drop skip text),
      )

  -- The frame behind its mark, or no frame.
  abbrev pub stripped : Bytes → Encrypt evp × Option ℕ → Option (Encrypt evp × ℤ × Bytes)
  stripped text (s, none) = some (s, pos 0, [])
  stripped text (s, some skip) = strip s skip text

  -- The rest of `decrypt_buf` behind EVP_DecryptUpdate, and behind `recv_msg`.
  abbrev pub unseal_text :
      Bytes → Encrypt evp → evp.DecCtx × Bytes → Option (Encrypt evp × ℤ × Bytes)
  unseal_text stale s (ctx, text) =
      stripped text (recv_ib_mesg (record s { ctx_dec = ctx }) (text ++ stale))

  unfoldable pub unseal : Bytes → Encrypt evp → Bytes → Option (Encrypt evp × ℤ × Bytes)
  unseal stale s input = unseal_text stale s (evp.dec_update s.ctx_dec input)

  unfoldable pub decrypt_buf :
      ℕ → Bytes → Bytes → Encrypt evp → Bytes → Option (Encrypt evp × ℤ × Bytes)
  decrypt_buf now behind stale s input = do
    (got, frame) ← recv_msg now behind s input
    if length frame == 0 then some (got, pos 0, []) else unseal stale got frame
