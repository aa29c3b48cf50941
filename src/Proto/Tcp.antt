-- ===== src/Proto/Tcp.antt =====
-- generic/tcp_proto.c: `tcp_write` and `tcp_read`.
pub mod Header
pub mod Frames
pub mod Oversized
pub mod Bounds
use vtun.Common.{
  ℕ, zero, suc, ◌+◌, ◌-◌, ◌*◌, ◌/◌, ◌%◌, ◌^◌, ◌==◌, ltb, min, List, [], ◌∷◌, ◌++◌, Option, none,
  some, Bytes, pos, pos_part, ltb_ℤ, if◌then◌else◌, take, ◌>>=◌,
}
use vtun.Common.Bits.{bit_and}
use vtun.Host.{vtun_frame_size, vtun_frame_overhead, vtun_fsize_mask, vtun_bad_frame, invert}
use vtun.Io.{Event, Conn, Got, read_n, write_n}

-- The two bytes of `htons(len)` stored in an `unsigned short`.
abbrev pub htons : ℕ → Bytes
htons len = (len % 2 ^ 16 / 256) ∷ (len % 256) ∷ []

-- `ntohs` of the two bytes in front.
abbrev pub ntohs : Bytes → ℕ
ntohs (hi ∷ lo ∷ _) = hi * 256 + lo
ntohs _ = 0

unfoldable pub tcp_write : List Event → Conn → Bytes → ℕ → Option Got
tcp_write es c buf len = write_n es c (htons len ++ take (bit_and len vtun_fsize_mask) buf)

-- The loop that drops an oversized frame: `flen` bytes of it are left.
pub skip_frame : ℕ → ℕ → Got → Option Got
skip_frame zero flen g = some (record g { ret = pos vtun_bad_frame })
skip_frame (suc fuel) flen g =
    let next = do
      h ← read_n g.rest g.conn (min flen vtun_frame_size)
      let more = skip_frame fuel (flen - pos_part h.ret) h
      if ltb_ℤ (pos 0) h.ret then more else some (record h { ret = pos vtun_bad_frame })
    in if flen == 0 then some (record g { ret = pos vtun_bad_frame }) else next

-- What follows a header `len`.
pub read_body : ℕ → Got → Option Got
unfolding skip_frame
read_body len g =
    let flen = bit_and len vtun_fsize_mask in
    if ltb (vtun_frame_size + vtun_frame_overhead) flen
    then skip_frame flen flen (record g { stored = [] })
    else if bit_and len (invert vtun_fsize_mask) == 0
    then read_n g.rest g.conn flen
    else some (record g { ret = pos len; stored = [] })

-- `uninit` is what the variable `len` holds before `read_n` stores into it.
unfoldable pub tcp_read : Bytes → List Event → Conn → Option Got
unfolding read_body
tcp_read uninit es c = do
  g ← read_n es c 2
  if ltb_ℤ (pos 0) g.ret
      then read_body (ntohs (g.stored ++ uninit)) g
      else some (record g { stored = [] })
