-- ===== src/Proto/Tcp/Bounds.antt =====
-- The buffer of the linker is never overrun, whatever the peer sends and the kernel does.
use vtun.Common.{
  ℕ, zero, suc, ◌+◌, ◌-◌, ◌≤◌, ◌≡◌, min, List, [], ◌++◌, some, Bytes, pos_part, length, arith, inl,
  inr, Option-cases,
}
use vtun.Common.Bits.{bit_and}
use vtun.Host.{vtun_fsize_mask, vtun_frame_size, vtun_frame_overhead}
use vtun.Io.{Event, Conn, Got, read_n}
use vtun.Io.Bound.{read_n-bound}
use vtun.Proto.Tcp.{ntohs, tcp_read, read_body, skip_frame}

skip_frame-bound :
    (fuel flen : ℕ) (g r : Got)
    → length g.stored ≤ 2148
    → skip_frame fuel flen g ≡ some r
    → length r.stored ≤ 2148
unfolding skip_frame
skip_frame-bound zero flen g r h e = ground arith
skip_frame-bound (suc fuel) flen g r h e =
    elim (Option-cases (read_n g.rest g.conn (min flen 2048))) [
      | inl blocked ↦ ground arith
      | inr (k, got) ↦
          let b = read_n-bound g.rest g.conn (min flen 2048) k got in
          ground (arith, skip_frame-bound fuel (flen - pos_part k.ret) k r (omega arith))
    ]

read_body-bound : (len : ℕ) (g r : Got) → read_body len g ≡ some r → length r.stored ≤ 2148
unfolding read_body
read_body-bound len g r e =
    let flen = bit_and len vtun_fsize_mask in
    ground (
      arith,
      skip_frame-bound flen flen (record g { stored = [] }) r (omega arith),
      read_n-bound g.rest g.conn flen r,
    )

-- Whatever the peer sends and however the calls of `read` end, `tcp_read` stores no more than
-- VTUN_FRAME_SIZE + VTUN_FRAME_OVERHEAD bytes, the size of the buffer that `lfd_linker` hands it.
pub tcp_read-bound :
    (uninit : Bytes) (es : List Event) (c : Conn) (r : Got)
    → tcp_read uninit es c ≡ some r
    → length r.stored ≤ vtun_frame_size + vtun_frame_overhead
unfolding tcp_read
tcp_read-bound uninit es c r e = elim (Option-cases (read_n es c 2)) [
  | inl blocked ↦ ground arith
  | inr (g, got) ↦ ground (arith, read_body-bound (ntohs (g.stored ++ uninit)) g r)
]
