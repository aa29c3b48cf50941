-- ===== src/Link/Encrypt/Messages/Seal.antt =====
-- The padding and the cipher around one frame.
use vtun.Common.{
  ℕ, zero, suc, ◌+◌, ◌-◌, ◌%◌, ◌==◌, ◌≡◌, ◌<◌, ◌≤◌, ◌⊎◌, inl, inr, ◌∙◌, refl, ap, sym, subst, [],
  ◌∷◌, ◌++◌, Bytes, IsBytes, some, ℤ, pos, ◌-ℤ◌, -ℤ_parts, eq_of_parts, if◌then◌else◌, length, take,
  drop, replicate, get_or, arith, append_assoc, length-append, length-replicate, All-append,
  Bool-cases, take_front, drop_front,
}
use vtun.Common.Masks.{bit_and_7, bit_and_0f}
use vtun.Link.Encrypt.Modes.{Evp}
use vtun.Link.Encrypt.State.{Encrypt}
use vtun.Link.Encrypt.Messages.{pad_size, padding, seal, strip}

-- RAND_bytes fills what it is given.
pub record IsRandom (random : ℕ → ℕ → Bytes) : Type 0 where
  pub size : (n m : ℕ) → length (random n m) ≡ m
  pub bytes : (n m : ℕ) → IsBytes (random n m)

-- The two block sizes.
abbrev pub IsBlock : ℕ → Type 0
IsBlock n = (n ≡ 8) ⊎ (n ≡ 16)

replicate_snoc : (n x : ℕ) → replicate (suc n) x ≡ replicate n x ++ x ∷ []
replicate_snoc zero x = refl
replicate_snoc (suc n) x = ap (λ s. x ∷ s) (replicate_snoc n x)

pub replicate-IsBytes : (n x : ℕ) → x < 256 → IsBytes (replicate n x)
replicate-IsBytes zero x h = tt
replicate-IsBytes (suc n) x h = (h, replicate-IsBytes n x h)

get_or-last : (s : Bytes) (x : ℕ) → get_or (s ++ x ∷ []) (length s) 0 ≡ x
get_or-last [] x = refl
get_or-last (y ∷ s) x = get_or-last s x

-- What the padding of a frame is: bytes that end with their number.
pub record Pads (pad : ℕ) (q : Bytes) : Type 0 where
  pub front : Bytes
  pub shape : q ≡ front ++ pad ∷ []
  pub size : suc (length front) ≡ pad
  pub bytes : IsBytes q

filled :
    (k n : ℕ) (r : Bytes)
    → suc k ≤ n
    → n ≤ 16
    → suc (length r) ≡ n
    → IsBytes r
    → Pads (suc k) (if suc k == n then r ++ suc k ∷ [] else replicate (suc k) (suc k))
filled k n r below small size bytes = elim (Bool-cases (suc k == n)) [
  | inl whole ↦
      rw (whole, if◌then◌else◌)
        (record {
          front = r;
          shape = refl;
          size = ground (arith, whole);
          bytes = All-append (λ x. x < 256) r (suc k ∷ []) bytes (omega arith, tt);
        })
  | inr part ↦
      rw (part, if◌then◌else◌)
        (record {
          front = replicate k (suc k);
          shape = replicate_snoc k (suc k);
          size = omega (arith, length-replicate {A = ℕ} k (suc k));
          bytes = replicate-IsBytes (suc k) (suc k) (omega arith);
        })
]

whole_or_part :
    (pad n : ℕ) (r : Bytes)
    → 0 < pad
    → pad ≤ n
    → n ≤ 16
    → suc (length r) ≡ n
    → IsBytes r
    → Pads pad (if pad == n then r ++ pad ∷ [] else replicate pad pad)
whole_or_part zero n r some_pad = absurd (omega arith)
whole_or_part (suc k) n r some_pad = filled k n r

-- The last byte of a padded frame, and what is left without it.
last_padded : (f q : Bytes) (pad : ℕ) → Pads pad q → get_or (f ++ q) (length (f ++ q) - 1) 0 ≡ pad
last_padded f q pad pads =
    let text : f ++ q ≡ (f ++ pads.front) ++ pad ∷ [] =
      ap (λ z. f ++ z) pads.shape ∙ sym (append_assoc f pads.front (pad ∷ [])) in
    let size : length ((f ++ pads.front) ++ pad ∷ []) - 1 ≡ length (f ++ pads.front) =
      omega (arith, length-append (f ++ pads.front) (pad ∷ [])) in
    ap (λ z. get_or z (length z - 1) 0) text
    ∙ ap (λ n. get_or ((f ++ pads.front) ++ pad ∷ []) n 0) size
    ∙ get_or-last (f ++ pads.front) pad

length-Pads : (q : Bytes) (pad : ℕ) → Pads pad q → length q ≡ pad
length-Pads q pad pads =
    ap (λ z. length z) pads.shape ∙ omega (arith, pads.size, length-append pads.front (pad ∷ []))

module _ (evp : Evp) (random : ℕ → ℕ → Bytes) (long_size : ℕ) where
  pub pad_size_eq :
      (s : Encrypt evp) (len : ℕ)
      → IsBlock s.blocksize
      → pad_size evp random long_size s len ≡ s.blocksize - len % s.blocksize
  unfolding pad_size
  pad_size_eq s len (inl e) = rw (e, pad_size) (omega (arith, bit_and_7 len))
  pad_size_eq s len (inr e) = rw (e, pad_size) (omega (arith, bit_and_0f len))

  positive : (n len : ℕ) → 0 < n → 0 < n - len % n
  positive n len h = omega arith

  pub padding-Pads :
      (s : Encrypt evp) (len : ℕ)
      → IsRandom random
      → IsBlock s.blocksize
      → Pads (s.blocksize - len % s.blocksize) (padding evp random long_size s len)
  unfolding padding
  padding-Pads s len rand block =
      let n = s.blocksize in
      let small : n ≤ 16 = ground (arith, block) in
      let some_block : 0 < n = ground (arith, block) in
      let pad : pad_size evp random long_size s len ≡ n - len % n = pad_size_eq s len block in
      rw (pad, padding)
        (whole_or_part (n - len % n) n (random s.draws (n - 1)) (positive n len some_block)
          (omega arith) small (omega (arith, rand.size s.draws (n - 1)))
          (rand.bytes s.draws (n - 1)))

  -- A frame behind a mark comes out of its padding.
  pub strip-padded :
      (s : Encrypt evp) (skip pad : ℕ) (m payload q : Bytes)
      → length m ≡ skip
      → Pads pad q
      → 0 < pad
      → pad ≤ s.blocksize
      → strip evp random long_size s skip ((m ++ payload) ++ q)
        ≡ some (s, pos (length payload), payload)
  unfolding strip
  strip-padded s skip pad m payload q size pads some_pad small =
      let text = (m ++ payload) ++ q in
      let long : length text ≡ skip + length payload + pad = omega (
        arith,
        size,
        length-append (m ++ payload) q,
        length-append m payload,
        length-Pads q pad pads,
      ) in
      let last = last_padded (m ++ payload) q pad pads in
      let behind : drop skip text ≡ payload ++ q =
        ap (λ z. drop skip z) (append_assoc m payload q) ∙ drop_front skip m (payload ++ q) size in
      let front : take (length payload) (payload ++ q) ≡ payload =
        take_front (length payload) payload q refl in
      let left : skip + length payload + pad - skip - pad ≡ length payload = omega arith in
      let ret : pos (skip + length payload + pad) -ℤ pos (skip + pad) ≡ pos (length payload) =
        eq_of_parts _ _
          (omega (arith, -ℤ_parts (pos (skip + length payload + pad)) (pos (skip + pad)))) in
      rw (last, strip, long, behind, left, front, ret) (ground arith)

-- What a session keeps while frames go through: the cipher and its key.
abbrev pub keys : {evp : Evp} → Encrypt evp → evp.EcbCtx × ℤ × Bytes × ℕ × ℕ
keys s = (s.ctx_ecb, s.cipher, s.pkey, s.keysize, s.blocksize)

abbrev pub Kept : {evp : Evp} → Encrypt evp → Encrypt evp → Type 0
Kept s t = keys t ≡ keys s

-- What both ends do with one frame: it is padded and encrypted, and decrypted with its padding.
pub record Opens (evp : Evp) (random : ℕ → ℕ → Bytes) (long_size : ℕ) (s r : Encrypt evp)
    (frame : Bytes) : Type 0 where
  pub sent : Encrypt evp
  pub wire : Bytes
  pub ctx : evp.DecCtx
  pub pad : ℕ
  pub fill : Bytes
  pub seals : seal evp random long_size s frame ≡ (sent, wire)
  pub opens : evp.dec_update r.ctx_dec wire ≡ (ctx, frame ++ fill)
  pub pads : Pads pad fill
  pub some_pad : 0 < pad
  pub small : pad ≤ s.blocksize
  pub synced : evp.Synced s.blocksize sent.ctx_enc ctx
  pub size : length wire ≡ length frame + pad
  pub bytes : IsBytes wire
  pub same_state : sent.enc_state ≡ s.enc_state
  pub same_block : sent.blocksize ≡ s.blocksize
  pub same_dec : sent.dec_state ≡ s.dec_state
  pub kept : Kept s sent

module _ (evp : Evp) (random : ℕ → ℕ → Bytes) (long_size : ℕ) (rand : IsRandom random) where
  whole : (n len : ℕ) → IsBlock n → (len + (n - len % n)) % n ≡ 0
  whole n len (inl e) = rw e (omega arith)
  whole n len (inr e) = rw e (omega arith)

  pub seal-Opens :
      (s r : Encrypt evp) (frame : Bytes)
      → IsBlock s.blocksize
      → evp.Synced s.blocksize s.ctx_enc r.ctx_dec
      → IsBytes frame
      → Opens evp random long_size s r frame
  unfolding seal
  seal-Opens s r frame block synced bytes =
      let n = s.blocksize in
      let pad = n - length frame % n in
      let fill = padding evp random long_size s (length frame) in
      let pads : Pads pad fill = padding-Pads evp random long_size s (length frame) rand block in
      let size : length (frame ++ fill) ≡ length frame + pad =
        omega (arith, length-append frame fill, length-Pads fill pad pads) in
      let (e, d, x, encrypted, decrypted, after, long, x_bytes) =
        evp.updates n s.ctx_enc r.ctx_dec (frame ++ fill) synced
          (ap (λ z. z % n) size ∙ whole n (length frame) block)
          (All-append (λ z. z < 256) frame fill bytes pads.bytes) in
      record {
        sent = (seal evp random long_size s frame).0;
        wire = x;
        ctx = d;
        pad = pad;
        fill = fill;
        seals = ap (λ z. ((seal evp random long_size s frame).0, z.1)) encrypted;
        opens = decrypted;
        pads = pads;
        some_pad = positive evp random long_size n (length frame) (ground (arith, block));
        small = omega arith;
        synced = subst (λ z. evp.Synced n z d) (sym (ap (λ z. z.0) encrypted)) after;
        size = long ∙ size;
        bytes = x_bytes;
        same_state = refl;
        same_block = refl;
        same_dec = refl;
        kept = refl;
      }
