-- ===== src/Link/Tunnel.antt =====
-- linkfd.c with generic/tcp_proto.c: the frames of a session from one end's device to the other's, by the
-- calls that `lfd_linker` makes for them.
use vtun.Common.{
  ℕ, ◌≡◌, ◌≤◌, ◌∙◌, refl, ap, sym, subst, List, [], ◌∷◌, ◌++◌, Bytes, All, some, false, inl, ℤ, pos,
  pos_part, length, arith,
}
use vtun.Io.{Event, Conn}
use vtun.Io.Whole.{IsCalm, supply}
use vtun.Proto.Tcp.Frames.{Frame, IsData, wires, send_all, receive_all, frames_in_order}
use vtun.Proto.Tcp.Frames
use vtun.Proto.Tcp.Header.{fed}
use vtun.Link.Stack.{Module, lfd_run_down, lfd_run_up}
use vtun.Link.Stack.RoundTrip.{IsFrame, Mirror, growths, Carries, stack-Carries}

-- Frames from the device, each down the modules: what `proto_write` gets for them.
unfoldable pub run_down_all : List Module → List Bytes → List Module × List Frame
run_down_all mods [] = (mods, [])
run_down_all mods (b ∷ bs) =
    let (next, ret, out) = lfd_run_down mods (pos (length b)) b in
    let (last, frames) = run_down_all next bs in
    (last, record { len = pos_part ret; payload = out } ∷ frames)

-- Frames from `proto_read`, each up the modules: what the device gets.
unfoldable pub run_up_all : List Module → List Frame → List Module × List (ℤ × Bytes)
run_up_all mods [] = (mods, [])
run_up_all mods (f ∷ fs) =
    let (next, ret, out) = lfd_run_up mods (pos f.len) f.payload in
    let (last, frames) = run_up_all next fs in (last, (ret, out) ∷ frames)

-- A frame with its length.
abbrev pub sized : List Bytes → List (ℤ × Bytes)
sized [] = []
sized (b ∷ bs) = (pos (length b), b) ∷ sized bs

-- What two stacks do with the frames of a session.
pub record Delivers (ms ns : List Module) (bs : List Bytes) : Type 1 where
  pub frames : List Frame
  pub sender : List Module
  pub receiver : List Module
  pub down : run_down_all ms bs ≡ (sender, frames)
  pub up : run_up_all ns frames ≡ (receiver, sized bs)
  pub sendable : All Frames.IsFrame frames
  pub mirror : Mirror sender receiver

delivers :
    (ms ns : List Module) (growth : ℕ) (mirror : Mirror ms ns) (bs : List Bytes)
    → growths ms ns mirror ≡ growth
    → All (IsFrame growth) bs
    → Delivers ms ns bs
unfolding run_down_all run_up_all
delivers ms ns growth mirror [] same h = record {
  frames = [];
  sender = ms;
  receiver = ns;
  down = refl;
  up = refl;
  sendable = tt;
  mirror = mirror;
}
delivers ms ns growth mirror (b ∷ bs) same h =
    let here : IsFrame (growths ms ns mirror) b = subst (λ n. IsFrame n b) (sym same) h.0 in
    let c : Carries ms ns (growths ms ns mirror) b = stack-Carries ms ns mirror b here in
    let rest : Delivers c.sender c.receiver bs =
      delivers c.sender c.receiver growth c.mirror bs (c.same ∙ same) h.1 in
    record {
      frames = record { len = length c.wire; payload = c.wire } ∷ rest.frames;
      sender = rest.sender;
      receiver = rest.receiver;
      down = rw (c.down, rest.down) refl;
      up = rw (c.up, rest.up) refl;
      sendable = (inl (refl, omega (arith, c.room, here.room)), rest.sendable);
      mirror = rest.mirror;
    }

length-run_down_all :
    (ms : List Module) (bs : List Bytes) → length (run_down_all ms bs).1 ≡ length bs
unfolding run_down_all
length-run_down_all ms [] = refl
length-run_down_all ms (b ∷ bs) =
    omega (arith, length-run_down_all (lfd_run_down ms (pos (length b)) b).0 bs)

-- What the receiver's device gets of the frames of the sender's device.
pub record Arrives (ms ns : List Module) (bs : List Bytes) (ws rs : List Event) (w r : Conn)
    (uninit more : Bytes) : Type 1 where
  pub after : Conn
  pub received : List Frame
  pub sends : send_all ws w (run_down_all ms bs).1 ≡ some after
  pub receives :
      receive_all (length bs) uninit rs (fed r (after.output ++ more)) ≡ some (received, fed r more)
  pub delivered : (run_up_all ns received).1 ≡ sized bs
  pub mirror : Mirror (run_down_all ms bs).0 (run_up_all ns received).0

-- Any frames that the sender's device gives are what the receiver's device gets, in order and with
-- their lengths: each goes down one stack, through `tcp_write` and `tcp_read`, and up a stack that
-- mirrors the first, however the kernels split and interrupt the stream. The stacks are a mirror
-- again behind them. The frames are such that the buffers hold them with what the modules add, the
-- connections are new and not canceled, and the kernels move all bytes.
pub tunnel-Arrives :
    (ms ns : List Module) (mirror : Mirror ms ns) (bs : List Bytes) (ws rs : List Event)
    (w r : Conn) (uninit more : Bytes)
    → All (IsFrame (growths ms ns mirror)) bs
    → IsCalm ws
    → IsCalm rs
    → w.canceled ≡ false
    → r.canceled ≡ false
    → w.output ≡ []
    → length (wires (run_down_all ms bs).1) ≤ supply ws
    → length (wires (run_down_all ms bs).1) ≤ supply rs
    → Arrives ms ns bs ws rs w r uninit more
tunnel-Arrives ms ns mirror bs ws rs w r uninit more ok calm_w calm_r live_w live_r fresh enough_w
      enough_r =
    let d : Delivers ms ns bs = delivers ms ns (growths ms ns mirror) mirror bs refl ok in
    let frames = (run_down_all ms bs).1 in
    let same : frames ≡ d.frames = ap (λ z. z.1) d.down in
    let sendable : All Frames.IsFrame frames =
      subst (λ z. All Frames.IsFrame z) (sym same) d.sendable in
    let (after, sends, receives) =
      frames_in_order ws rs w r uninit more frames calm_w calm_r live_w live_r fresh enough_w
        enough_r sendable in
    let up : run_up_all ns frames ≡ (d.receiver, sized bs) =
      ap (λ z. run_up_all ns z) same ∙ d.up in
    record {
      after = after;
      received = frames;
      sends = sends;
      receives =
          subst
            (λ n.
              receive_all n uninit rs (fed r (after.output ++ more)) ≡ some (frames, fed r more))
            (length-run_down_all ms bs) receives;
      delivered = ap (λ z. z.1) up;
      mirror =
          subst (λ z. Mirror z (run_up_all ns frames).0) (sym (ap (λ z. z.0) d.down))
            (subst (λ z. Mirror d.sender z) (sym (ap (λ z. z.0) up)) d.mirror);
    }
