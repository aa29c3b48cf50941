-- ===== src/Link/Encrypt/Messages/Mark.antt =====
-- The mark in front of a frame, where the block has room for it.
use vtun.Common.{
  ℕ, zero, suc, ◌+◌, ◌-◌, ◌≡◌, ◌<◌, ◌≤◌, ◌∙◌, refl, ap, sym, [], ◌∷◌, ◌++◌, Bytes, IsBytes, length,
  drop, drop-drop, replicate, take, take-of_le, arith, append_assoc, length-append,
  length-replicate, All-append,
}
use vtun.Link.Encrypt.Modes.{Evp}
use vtun.Link.Encrypt.State.{Encrypt, be32}
use vtun.Link.Encrypt.Messages.{mark}
use vtun.Link.Encrypt.Messages.Seal.{replicate-IsBytes}

be32-IsBytes : (n : ℕ) → IsBytes (be32 n)
be32-IsBytes n = (omega arith, (omega arith, (omega arith, (omega arith, tt))))

drop_zeros : (k n : ℕ) (t : Bytes) → k ≤ n → drop k (replicate n 0 ++ t) ≡ replicate (n - k) 0 ++ t
drop_zeros zero n t h = let e : n - 0 ≡ n = omega arith in rw e refl
drop_zeros (suc k) zero t h = absurd (omega arith)
drop_zeros (suc k) (suc n) t h =
    let e : suc n - suc k ≡ n - k = omega arith in rw e (drop_zeros k n t (omega arith))

-- A mark that fits its block: the block, in front of the frame.
pub record Marked (tag : Bytes) (n : ℕ) (frame marked : Bytes) : Type 0 where
  pub rest : Bytes
  pub shape : marked ≡ (tag ++ rest) ++ frame
  pub size : length (tag ++ rest) ≡ n
  pub bytes : IsBytes rest

module _ (evp : Evp) (random : ℕ → ℕ → Bytes) (long_size : ℕ) where
  pub mark-Marked :
      (a b c d : ℕ) (s : Encrypt evp) (frame : Bytes)
      → 4 ≤ long_size
      → 4 + long_size ≤ s.blocksize
      → Marked
          (a ∷ b ∷ c ∷ d ∷ [])
          s.blocksize
          frame
          (mark evp random long_size (a ∷ b ∷ c ∷ d ∷ []) s frame)
  unfolding mark
  mark-Marked a b c d s frame four fits =
      let w = be32 s.sequence_num ++ replicate (long_size - 4) 0 in
      let long : length w ≡ long_size = omega (
        arith,
        length-append (be32 s.sequence_num) (replicate (long_size - 4) 0),
        length-replicate {A = ℕ} (long_size - 4) 0,
      ) in
      let rest = w ++ replicate (s.blocksize - 4 - length w) 0 in
      let head = a ∷ b ∷ c ∷ d ∷ rest in
      let shape =
        ap (λ z. a ∷ b ∷ c ∷ d ∷ (w ++ z))
          (drop-drop 4 (length w) (a ∷ b ∷ c ∷ d ∷ (replicate (s.blocksize - 4) 0 ++ frame))
            ∙ drop_zeros (length w) (s.blocksize - 4) frame (omega (arith, long)))
        ∙ ap (λ z. a ∷ b ∷ c ∷ d ∷ z)
            (sym (append_assoc w (replicate (s.blocksize - 4 - length w) 0) frame)) in
      let size : length head ≡ s.blocksize = omega (
        arith,
        long,
        length-append w (replicate (s.blocksize - 4 - length w) 0),
        length-replicate {A = ℕ} (s.blocksize - 4 - length w) 0,
      ) in
      record {
        rest = rest;
        shape =
            ap (λ z. take (s.blocksize + length frame) z) shape
            ∙ take-of_le (s.blocksize + length frame) (head ++ frame)
                (omega (arith, size, length-append head frame));
        size = size;
        bytes =
            All-append (λ x. x < 256) w (replicate (s.blocksize - 4 - length w) 0)
              (All-append (λ x. x < 256) (be32 s.sequence_num) (replicate (long_size - 4) 0)
                (be32-IsBytes s.sequence_num) (replicate-IsBytes (long_size - 4) 0 (omega arith)))
              (replicate-IsBytes (s.blocksize - 4 - length w) 0 (omega arith));
      }
