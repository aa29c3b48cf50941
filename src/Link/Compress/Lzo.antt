-- ===== src/Link/Compress/Lzo.antt =====
-- lfd_lzo.c: a frame is compressed by one of two algorithms and decompressed by one.
use vtun.Common.{
  ℕ, ◌+◌, ◌*◌, ◌/◌, ◌≡◌, ◌<◌, ◌≤◌, ap, Bytes, IsBytes, Bool, true, false, none, some, ℤ, pos,
  negsuc, ◌==ℤ◌, if◌then◌else◌, length, arith,
}
use vtun.Host.{VtunHost, vtun_frame_size}
use vtun.Link.Stack.{Module}
use vtun.Link.Stack.RoundTrip.{Inverts}

-- LZO: what its functions answer, LZO_E_OK or another error, with their output. The output of a
-- compressor is longer than its input by a sixteenth and 67 bytes at most, and the
-- decompressor gives the input back.
pub record Lzo : Type 0 where
  pub lzo1x_999_compress : Bytes → ℤ × Bytes
  pub lzo1x_1_15_compress : Bytes → ℤ × Bytes
  pub lzo1x_decompress : Bytes → ℤ × Bytes
  pub compresses :
      (b : Bytes)
      → IsBytes b
      → 0 < length b
      → ((out : Bytes) × (lzo1x_999_compress b ≡ (pos 0, out))
          × IsBytes out
          × (0 < length out)
          × (length out ≤ length b + length b / 16 + 67)
          × (lzo1x_decompress out ≡ (pos 0, b)))
        × (out : Bytes) × (lzo1x_1_15_compress b ≡ (pos 0, out))
        × IsBytes out
        × (0 < length out)
        × (length out ≤ length b + length b / 16 + 67)
        × (lzo1x_decompress out ≡ (pos 0, b))

abbrev pub zbuf_size : ℕ
zbuf_size = vtun_frame_size * vtun_frame_size / 64 + 16 + 3

module _ (l : Lzo) where
  -- `lzo1x_compress`, the function that `alloc_lzo` chose.
  abbrev pub lzo1x_compress : (best : Bool) → Bytes → ℤ × Bytes
  lzo1x_compress best = if best then l.lzo1x_999_compress else l.lzo1x_1_15_compress

  -- `alloc_lzo`: whether the best algorithm is chosen, and the answer, where `lzo_init` answers
  -- `ready` and the buffers are allocated.
  unfoldable pub alloc_lzo : (ready : Bool) → VtunHost → Bool × ℤ
  alloc_lzo ready host =
      let zlevel = if host.zlevel ==ℤ pos 0 then pos 1 else host.zlevel in
      (zlevel ==ℤ pos 9, if ready then pos 0 else pos 1)

  unfoldable pub comp_lzo : (best : Bool) → Bytes → ℤ × Bytes
  comp_lzo best b =
      let (err, out) = lzo1x_compress best b in
      if err ==ℤ pos 0 then (pos (length out), out) else (negsuc 0, b)

  unfoldable pub decomp_lzo : Bytes → ℤ × Bytes
  decomp_lzo b =
      let (err, out) = l.lzo1x_decompress b in
      if err ==ℤ pos 0 then (pos (length out), out) else (negsuc 0, b)

  -- `lfd_lzo`: its state is the algorithm.
  abbrev pub lfd_lzo : (ready : Bool) → Bool → Module
  lfd_lzo ready best = record {
    State = Bool;
    state = best;
    alloc = some (λ s host. alloc_lzo ready host);
    encode = some (λ s b. (s, (comp_lzo s b).0, (comp_lzo s b).1));
    avail_encode = none;
    decode = some (λ s b. (s, (decomp_lzo b).0, (decomp_lzo b).1));
    avail_decode = none;
    free = some (λ s. (s, pos 0));
  }

  chosen :
      (best : Bool) (b : Bytes)
      → IsBytes b
      → 0 < length b
      → (out : Bytes) × (lzo1x_compress best b ≡ (pos 0, out))
        × IsBytes out
        × (0 < length out)
        × (length out ≤ length b + length b / 16 + 67)
        × (l.lzo1x_decompress out ≡ (pos 0, b))
  chosen true b bytes some_byte = (l.compresses b bytes some_byte).0
  chosen false b bytes some_byte =
      let (_, out, made, out_bytes, nonempty, longer, back) = l.compresses b bytes some_byte in
      (out, made, out_bytes, nonempty, longer, back)

  -- Whichever level either end has, a frame that one end compresses is what the other end
  -- decompresses, and what is stored fits the buffers of both.
  pub lzo_round_trip :
      (best : Bool) (b : Bytes)
      → IsBytes b
      → 0 < length b
      → length b ≤ vtun_frame_size + 100
      → (out : Bytes) × (comp_lzo best b ≡ (pos (length out), out))
        × (decomp_lzo out ≡ (pos (length b), b))
        × IsBytes out
        × (0 < length out)
        × (length out ≤ length b + 201)
        × (length out ≤ zbuf_size)
        × (length b ≤ zbuf_size)
  unfolding comp_lzo decomp_lzo
  lzo_round_trip best b bytes some_byte small =
      let (out, made, out_bytes, nonempty, longer, back) = chosen best b bytes some_byte in
      (
        out,
        ap (λ z. if z.0 ==ℤ pos 0 then (pos (length z.1), z.1) else (negsuc 0, b)) made,
        ap (λ z. if z.0 ==ℤ pos 0 then (pos (length z.1), z.1) else (negsuc 0, out)) back,
        out_bytes,
        nonempty,
        omega (arith, longer, small),
        omega (arith, longer, small),
        omega (arith, small),
      )

module _ (l : Lzo) (ready : Bool) where
  -- Two ends are a module that the stack carries frames through, whichever levels they have.
  unfoldable pub lzo-Inverts :
      (best peer : Bool) → Inverts (lfd_lzo l ready best) (lfd_lzo l ready peer)
  lzo-Inverts best peer = record {
    growth = 201;
    Linked = λ s r. Unit;
    linked = tt;
    inverts = λ s r b same frame.
        let (out, compressed, decompressed, bytes, nonempty, longer, _, _) =
          lzo_round_trip l s b frame.bytes frame.nonempty (omega (arith, frame.room)) in
        (
          s,
          r,
          out,
          tt,
          bytes,
          nonempty,
          longer,
          ap (λ z. (s, z.0, z.1)) compressed,
          ap (λ z. (r, z.0, z.1)) decompressed,
        );
  }
