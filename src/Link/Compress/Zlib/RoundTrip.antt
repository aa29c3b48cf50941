-- ===== src/Link/Compress/Zlib/RoundTrip.antt =====
-- What one end compresses with zlib, the other end decompresses, as a module of the stack.
use vtun.Common.{
  ℕ, suc, ◌+◌, ◌==◌, ◌≡◌, ◌<◌, ◌≤◌, ◌∙◌, refl, ap, [], Bytes, IsBytes, true, none, some, pos,
  negsuc, if◌then◌else◌, length, length-append, length-drop, take, drop, take_front, arith,
}
use vtun.Host.{vtun_frame_size}
use vtun.Link.Compress.Zlib.{Stream, Zlib, Streams, store, pump, zlib_comp, zlib_decomp, zlib_alloc}
use vtun.Link.Stack.{Module}
use vtun.Link.Stack.RoundTrip.{IsFrame, Inverts}

pump_once :
    (S : Type 0) (call : Stream S) (fresh : Bytes) (fuel : ℕ) (s s' : S) (b zbuf out : Bytes)
    → call s b (length zbuf) ≡ (pos 0, s', length b, out)
    → pump fresh call (suc fuel) s b zbuf 0 (length zbuf) 0
      ≡ some (s', store zbuf 0 out, pos (length out), out)
unfolding pump
pump_once S call fresh fuel s s' b zbuf out called =
    let all : (length b == length b) ≡ true = ground arith in
    let size : 0 + length out ≡ length out = omega arith in
    let front : take (length out) (store zbuf 0 out) ≡ out =
      take_front (length out) out (drop (0 + length out) zbuf) refl in
    rw (called, all, if◌then◌else◌)
      (ap (λ n. some (s', store zbuf 0 out, pos n, take n (store zbuf 0 out))) size
        ∙ ap (λ t. some (s', store zbuf 0 out, pos (length out), t)) front)

-- Two ends of a session: the sender's deflate and the receiver's inflate have seen the same frames, and
-- the buffers have their first size at least.
pub record Linked (z : Zlib) (s r : Streams z) : Type 0 where
  pub synced : z.Synced s.zd r.zi
  pub room : vtun_frame_size + 200 ≤ length s.zbuf
  pub peer_room : vtun_frame_size + 200 ≤ length r.zbuf

store-length :
    (zbuf out : Bytes) → length out ≤ length zbuf → length (store zbuf 0 out) ≡ length zbuf
store-length zbuf out h =
    omega (arith, length-append out (drop (0 + length out) zbuf), length-drop (0 + length out) zbuf)

-- A frame from one end to the other.
pub record Crosses (z : Zlib) (fresh : Bytes) (fuel : ℕ) (s r : Streams z) (b : Bytes)
    : Type 0 where
  pub sent : Streams z
  pub got : Streams z
  pub wire : Bytes
  pub compresses : zlib_comp z fresh (suc fuel) s b ≡ some (sent, pos (length wire), wire)
  pub decompresses : zlib_decomp z fresh (suc fuel) r wire ≡ some (got, pos (length b), b)
  pub linked : Linked z sent got
  pub bytes : IsBytes wire
  pub nonempty : 0 < length wire
  pub longer : length wire ≤ length b + z.growth

module _ (z : Zlib) (fresh : Bytes) (fuel : ℕ) where
  -- A frame that the buffers of the stack hold, with what zlib adds to it, goes through deflate at one
  -- end and inflate at the other in one turn of the loop each, and comes out as it was; the
  -- streams are in step again.
  pub zlib_round_trip :
      (s r : Streams z) (b : Bytes) → Linked z s r → IsFrame z.growth b → Crosses z fresh fuel s r b
  unfolding zlib_comp zlib_decomp
  zlib_round_trip s r b linked frame =
      let made = z.compress s.zd b in
      let longer : length made.1 ≤ length b + z.growth =
        z.compress_growth s.zd b (omega (arith, frame.room)) in
      let fits : length made.1 < length s.zbuf = omega (arith, longer, linked.room, frame.room) in
      let peer_fits : length b < length r.zbuf = omega (arith, linked.peer_room, frame.room) in
      let (i, inflated, synced) =
        z.inflates s.zd r.zi b (length r.zbuf) linked.synced frame.bytes frame.nonempty peer_fits in
      let comp =
        pump_once z.Deflate z.deflate fresh fuel s.zd made.0 b s.zbuf made.1
          (z.deflate-compress s.zd b (length s.zbuf) frame.nonempty fits) in
      let decomp = pump_once z.Inflate z.inflate fresh fuel r.zi i made.1 r.zbuf b inflated in
      record {
        sent = record s { zd = made.0; zbuf = store s.zbuf 0 made.1 };
        got = record r { zi = i; zbuf = store r.zbuf 0 b };
        wire = made.1;
        compresses = rw (comp, zlib_comp) refl;
        decompresses = rw (decomp, zlib_decomp) refl;
        linked = record {
          synced = synced;
          room = omega (arith, linked.room, store-length s.zbuf made.1 (omega arith));
          peer_room = omega (arith, linked.peer_room, store-length r.zbuf b (omega arith));
        };
        bytes = z.compress-IsBytes s.zd b frame.bytes;
        nonempty = z.compress_some s.zd b frame.nonempty;
        longer = longer;
      }

  -- `lfd_zlib`, with `suc fuel` turns of its loop at most; a frame that wants more is not modelled, and
  -- stands as a failure here.
  abbrev pub lfd_zlib : Streams z → Module
  lfd_zlib s = record {
    State = Streams z;
    state = s;
    alloc =
        some
          (λ t host. elim (zlib_alloc z host t.zbuf) [ none ↦ (t, pos 1) | some u ↦ (u, pos 0) ]);
    encode = some (λ t b. elim (zlib_comp z fresh (suc fuel) t b) [
      | none ↦ (t, negsuc 0, b)
      | some answer ↦ answer
    ]);
    avail_encode = none;
    decode = some (λ t b. elim (zlib_decomp z fresh (suc fuel) t b) [
      | none ↦ (t, negsuc 0, b)
      | some answer ↦ answer
    ]);
    avail_decode = none;
    free = some (λ t. (record t { zbuf = [] }, pos 0));
  }

  -- Two ends in step are a module that the stack carries frames through.
  unfoldable pub zlib-Inverts : (s r : Streams z) → Linked z s r → Inverts (lfd_zlib s) (lfd_zlib r)
  zlib-Inverts s r linked = record {
    growth = z.growth;
    Linked = λ t u. Linked z t u;
    linked = linked;
    inverts = λ t u b same frame.
        let c : Crosses z fresh fuel t u b = zlib_round_trip t u b same frame in
        (
          c.sent,
          c.got,
          c.wire,
          c.linked,
          c.bytes,
          c.nonempty,
          c.longer,
          ap (λ o. elim o [ none ↦ (t, negsuc 0, b) | some answer ↦ answer ]) c.compresses,
          ap (λ o. elim o [ none ↦ (u, negsuc 0, c.wire) | some answer ↦ answer ]) c.decompresses,
        );
  }
