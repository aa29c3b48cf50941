-- ===== src/Link/Compress/Zlib.antt =====
-- lfd_zlib.c: a frame goes through deflate or inflate until all of it is taken, in a buffer that grows.
pub mod RoundTrip
use vtun.Common.{
  ℕ, zero, suc, ◌+◌, ◌-◌, ◌==◌, ◌≡◌, ◌<◌, ◌≤◌, [], ◌∷◌, ◌++◌, Bytes, IsBytes, Option, none, some, ℤ,
  pos, negsuc, ◌==ℤ◌, if◌then◌else◌, length, take, drop,
}
use vtun.Host.{VtunHost, vtun_frame_size, vtun_frame_overhead}

-- What a call answers: the error, the stream, how many bytes of the input it took, and its output.
abbrev pub Stream : Type 0 → Type 0
Stream S = S → Bytes → (avail_out : ℕ) → ℤ × S × ℕ × Bytes

-- zlib, with Z_SYNC_FLUSH. What deflate makes of an input, `compress`, is whole where there is room to
-- spare, and for an input of a frame's size `growth` bytes longer at most, and inflate gives the input
-- back where there is room to spare. Nothing is assumed of other inputs to inflate.
pub record Zlib : Type 1 where
  pub Deflate : Type 0
  pub Inflate : Type 0
  pub deflate_init : ℤ → Option Deflate
  pub inflate_init : Option Inflate
  pub deflate : Stream Deflate
  pub inflate : Stream Inflate
  pub growth : ℕ
  pub small : growth < 100
  pub compress : Deflate → Bytes → Deflate × Bytes
  pub deflate-compress :
      (d : Deflate) (b : Bytes) (room : ℕ)
      → 0 < length b
      → length (compress d b).1 < room
      → deflate d b room ≡ (pos 0, (compress d b).0, length b, (compress d b).1)
  pub compress_growth :
      (d : Deflate) (b : Bytes)
      → length b ≤ vtun_frame_size + vtun_frame_overhead
      → length (compress d b).1 ≤ length b + growth
  pub compress_some : (d : Deflate) (b : Bytes) → 0 < length b → 0 < length (compress d b).1
  pub compress-IsBytes : (d : Deflate) (b : Bytes) → IsBytes b → IsBytes (compress d b).1
  pub Synced : Deflate → Inflate → Type 0
  pub Synced-init :
      (level : ℤ) (d : Deflate) (i : Inflate)
      → deflate_init level ≡ some d
      → inflate_init ≡ some i
      → Synced d i
  pub inflates :
      (d : Deflate) (i : Inflate) (b : Bytes) (room : ℕ)
      → Synced d i
      → IsBytes b
      → 0 < length b
      → length b < room
      → (i' : Inflate) × (inflate i (compress d b).1 room ≡ (pos 0, i', length (compress d b).1, b))
        × Synced (compress d b).0 i'

-- The static variables; `zbuf_size` is the length of `zbuf`.
pub record Streams (z : Zlib) : Type 0 where
  pub zd : z.Deflate
  pub zi : z.Inflate
  pub zbuf : Bytes

-- `memcpy(buf + i, out, length out)`
abbrev pub store : Bytes → ℕ → Bytes → Bytes
store buf i out = take i buf ++ (out ++ drop (i + length out) buf)

-- What `realloc` puts behind the buffer: 100 bytes with unknown content.
module _ (fresh : Bytes) where
  -- The loop of `zlib_comp` and `zlib_decomp`, on fuel: `olen` bytes are stored, and the next
  -- byte goes to `next`, where `avail` bytes are left. The stream, the buffer, and the answer.
  unfoldable pub pump :
      {S : Type 0}
      → Stream S
      → ℕ
      → S
      → Bytes
      → Bytes
      → (next avail olen : ℕ) → Option (S × Bytes × ℤ × Bytes)
  pump call zero s b zbuf next avail olen = none
  pump call (suc fuel) s b zbuf next avail olen =
      let (err, s', n, out) = call s b avail in
      let stored = store zbuf next out in
      let more =
        pump call fuel s' (drop n b) (stored ++ fresh) (length stored) 100 (olen + length out) in
      if err ==ℤ pos 0
      then if n == length b
        then some (s', stored, pos (olen + length out), take (olen + length out) stored)
        else more
      else some (s', stored, negsuc 0, b)

module _ (z : Zlib) where
  -- `zlib_alloc`, where the buffer is allocated; none where it answers 1.
  unfoldable pub zlib_alloc : VtunHost → Bytes → Option (Streams z)
  zlib_alloc host zbuf =
      let zlevel = if host.zlevel ==ℤ pos 0 then pos 1 else host.zlevel in
      elim (z.deflate_init zlevel) [
        | none ↦ none
        | some d ↦ elim z.inflate_init [
          | none ↦ none
          | some i ↦ some (record { zd = d; zi = i; zbuf = zbuf })
        ]
      ]

  module _ (fresh : Bytes) where
    unfoldable pub zlib_comp : ℕ → Streams z → Bytes → Option (Streams z × ℤ × Bytes)
    zlib_comp fuel s b = elim (pump fresh z.deflate fuel s.zd b s.zbuf 0 (length s.zbuf) 0) [
      | none ↦ none
      | some (d, zbuf, ret, out) ↦ some (record s { zd = d; zbuf = zbuf }, ret, out)
    ]

    unfoldable pub zlib_decomp : ℕ → Streams z → Bytes → Option (Streams z × ℤ × Bytes)
    zlib_decomp fuel s b = elim (pump fresh z.inflate fuel s.zi b s.zbuf 0 (length s.zbuf) 0) [
      | none ↦ none
      | some (i, zbuf, ret, out) ↦ some (record s { zi = i; zbuf = zbuf }, ret, out)
    ]
