-- ===== src/Link/Stack/RoundTrip.antt =====
-- What one end's stack encodes, the other end's stack decodes.
use vtun.Common.{
  ℕ, ◌+◌, ◌≡◌, ◌<◌, ◌≤◌, refl, ap, List, [], ◌∷◌, Bytes, IsBytes, true, ℤ, pos, if◌then◌else◌,
  length, arith,
}
use vtun.Host.{vtun_frame_size, vtun_frame_overhead}
use vtun.Link.Stack.{Module, apply, is_positive, lfd_run_down, lfd_run_up}

-- A frame that the buffers have room for, with `growth` bytes to spare.
pub record IsFrame (growth : ℕ) (b : Bytes) : Type 0 where
  pub bytes : IsBytes b
  pub nonempty : 0 < length b
  pub room : length b + growth ≤ vtun_frame_size + vtun_frame_overhead

-- A module of the sender and the module of the receiver at the same place: their states stay linked,
-- and the receiver decodes what the sender encodes, which is `growth` bytes longer at most.
pub record Inverts (m n : Module) : Type 1 where
  pub growth : ℕ
  pub Linked : m.State → n.State → Type 0
  pub linked : Linked m.state n.state
  pub inverts :
      (s : m.State) (r : n.State) (b : Bytes)
      → Linked s r
      → IsFrame growth b
      → (s' : m.State) × (r' : n.State) × (e : Bytes) × Linked s' r'
        × IsBytes e
        × (0 < length e)
        × (length e ≤ length b + growth)
        × (apply m.encode s (pos (length b)) b ≡ (s', pos (length e), e))
        × (apply n.decode r (pos (length e)) e ≡ (r', pos (length b), b))

-- The modules of two stacks, place by place.
abbrev pub Mirror : List Module → List Module → Type 1
Mirror [] [] = Unit
Mirror [] (n ∷ ns) = ⊥ × Unit
Mirror (m ∷ ms) [] = ⊥ × Unit
Mirror (m ∷ ms) (n ∷ ns) = Inverts m n × Mirror ms ns

abbrev pub growths : (ms ns : List Module) → Mirror ms ns → ℕ
growths [] [] h = 0
growths [] (n ∷ ns) h = 0
growths (m ∷ ms) [] h = 0
growths (m ∷ ms) (n ∷ ns) h = h.0.growth + growths ms ns h.1

-- What a frame does to two stacks: they run, and are a mirror again.
pub record Carries (ms ns : List Module) (growth : ℕ) (b : Bytes) : Type 1 where
  pub sender : List Module
  pub receiver : List Module
  pub wire : Bytes
  pub bytes : IsBytes wire
  pub nonempty : 0 < length wire
  pub room : length wire ≤ length b + growth
  pub down : lfd_run_down ms (pos (length b)) b ≡ (sender, pos (length wire), wire)
  pub up : lfd_run_up ns (pos (length wire)) wire ≡ (receiver, pos (length b), b)
  pub mirror : Mirror sender receiver
  pub same : growths sender receiver mirror ≡ growth

positive : (n : ℕ) → 0 < n → is_positive (pos n) ≡ true
positive n h = ground arith

down-cons :
    (m : Module) (ms : List Module) (s : m.State) (b e : Bytes) (sender : List Module) (ret : ℤ)
    (wire : Bytes)
    → 0 < length b
    → apply m.encode m.state (pos (length b)) b ≡ (s, pos (length e), e)
    → lfd_run_down ms (pos (length e)) e ≡ (sender, ret, wire)
    → lfd_run_down (m ∷ ms) (pos (length b)) b ≡ (record m { state = s } ∷ sender, ret, wire)
unfolding lfd_run_down
down-cons m ms s b e sender ret wire p here behind =
    rw (here, lfd_run_down, behind, positive (length b) p, if◌then◌else◌) refl

up-cons :
    (n : Module) (ns : List Module) (r : n.State) (b e wire : Bytes) (receiver : List Module)
    (len : ℤ)
    → 0 < length e
    → apply n.decode n.state (pos (length e)) e ≡ (r, pos (length b), b)
    → lfd_run_up ns len wire ≡ (receiver, pos (length e), e)
    → lfd_run_up (n ∷ ns) len wire ≡ (record n { state = r } ∷ receiver, pos (length b), b)
unfolding lfd_run_up
up-cons n ns r b e wire receiver len p here behind =
    rw (behind, lfd_run_up, here, positive (length e) p, if◌then◌else◌) refl

-- Two stacks that mirror each other carry a frame that the buffers have room for, with what the
-- modules add to it: run down one and up the other, it comes back, it is not longer on the wire
-- than the modules add, and the stacks are a mirror again, for the next frame.
pub stack-Carries :
    (ms ns : List Module) (mirror : Mirror ms ns) (b : Bytes)
    → IsFrame (growths ms ns mirror) b
    → Carries ms ns (growths ms ns mirror) b
unfolding lfd_run_down lfd_run_up
stack-Carries [] [] h b frame = record {
  sender = [];
  receiver = [];
  wire = b;
  bytes = frame.bytes;
  nonempty = frame.nonempty;
  room = omega arith;
  down = refl;
  up = refl;
  mirror = tt;
  same = refl;
}
stack-Carries [] (n ∷ ns) h b frame = absurd h.0
stack-Carries (m ∷ ms) [] h b frame = absurd h.0
stack-Carries (m ∷ ms) (n ∷ ns) (here, behind) b frame =
    let (s, r, e, linked, bytes, nonempty, small, down, up) =
      here.inverts m.state n.state b here.linked
        (record { bytes = frame.bytes; nonempty = frame.nonempty; room = omega arith }) in
    let rest : Carries ms ns (growths ms ns behind) e =
      stack-Carries ms ns behind e
        (record { bytes = bytes; nonempty = nonempty; room = omega arith }) in
    record {
      sender = record m { state = s } ∷ rest.sender;
      receiver = record n { state = r } ∷ rest.receiver;
      wire = rest.wire;
      bytes = rest.bytes;
      nonempty = rest.nonempty;
      room = omega arith;
      down = down-cons m ms s b e rest.sender _ rest.wire frame.nonempty down rest.down;
      up = up-cons n ns r b e rest.wire rest.receiver _ nonempty up rest.up;
      mirror = (
        record {
          growth = here.growth;
          Linked = here.Linked;
          linked = linked;
          inverts = here.inverts;
        },
        rest.mirror,
      );
      same = ap (λ z. here.growth + z) rest.same;
    }
