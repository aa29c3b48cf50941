-- ===== src/Proto/Tcp/Frames.antt =====
-- Frames written by `tcp_write` and read by `tcp_read`.
use vtun.Common.{
  ℕ, zero, suc, ◌>>=◌, none, ltb_ℤ, pos_part, if◌then◌else◌, append-nil, ◌+◌, ◌%◌, ◌^◌, ◌≤◌, ◌<◌,
  ◌≡◌, refl, ◌∙◌, false, List, [], ◌∷◌, ◌++◌, Option, some, ◌⊎◌, inl, inr, Bytes, pos, length, take,
  arith, All, append_assoc, take-of_le, take_front, drop_front, length-append,
}
use native.Mathlib.Nat.{zero-add}
use vtun.Common.Bits.{bit_and}
use vtun.Common.Masks.{bit_and_0fff}
use vtun.Host.{vtun_fsize_mask}
use vtun.Io.{Event, Conn}
use vtun.Io.Whole.{IsCalm, supply, read_n_whole, write_n_whole}
use vtun.Proto.Tcp.{htons, tcp_read, tcp_write}
use vtun.Proto.Tcp.Header.{fed, tcp_read-Headed, read_body-data, read_body-flags}

-- What the linker hands to `proto_write`: a length word and a buffer.
pub record Frame : Type 0 where
  pub len : ℕ
  pub payload : Bytes

-- Plain data, of the size that the length word says and that the reader's buffer holds.
abbrev pub IsData : Frame → Type 0
IsData f = (length f.payload ≡ f.len) × (f.len ≤ 2148)

-- A flag in the high 4 bits, with no payload: ECHO_REQ, ECHO_REP, CONN_CLOSE.
abbrev pub IsFlag : Frame → Type 0
IsFlag f = (4096 ≤ f.len) × (f.len < 2 ^ 16) × (f.len % 4096 ≡ 0) × (f.payload ≡ [])

abbrev pub IsFrame : Frame → Type 0
IsFrame f = IsData f ⊎ IsFlag f

-- The bytes that a frame takes on the wire.
abbrev pub wire : Frame → Bytes
wire f = htons f.len ++ f.payload

pub size_le :
    (f : Frame) → IsFrame f → (f.len < 2 ^ 16) × (f.len % 4096 ≤ 2148) × (length f.payload ≤ 2148)
size_le f (inl d) = omega (arith, d.0, d.1)
size_le f (inr g) = rw g.3 (omega arith)

pub take_payload :
    (f : Frame) → IsFrame f → take (bit_and f.len vtun_fsize_mask) f.payload ≡ f.payload
take_payload f (inl d) =
    rw (bit_and_0fff f.len) (take-of_le (f.len % 4096) f.payload (omega (arith, d.0, d.1)))
take_payload f (inr g) =
    rw (bit_and_0fff f.len) (take-of_le (f.len % 4096) f.payload (rw g.3 (omega arith)))

-- What `tcp_read` leaves of a frame: its length word, its payload, and the input behind it.
pub record Received (uninit : Bytes) (es : List Event) (c : Conn) (f : Frame) (more : Bytes)
    : Type 0 where
  pub events : List Event
  pub calm : IsCalm events
  pub spent : supply es ≤ supply events + length (wire f)
  pub returns :
      tcp_read uninit es (fed c (wire f ++ more))
      ≡ some (record { ret = pos f.len; stored = f.payload; conn = fed c more; rest = events })

receive_data :
    (uninit : Bytes) (es : List Event) (c : Conn) (f : Frame) (more : Bytes)
    → IsCalm es
    → c.canceled ≡ false
    → length (wire f) ≤ supply es
    → IsData f
    → Received uninit es c f more
receive_data uninit es c f more calm live enough d =
    let h =
      tcp_read-Headed uninit es c f.len (f.payload ++ more) calm live (omega arith)
        (omega (arith, d.1)) in
    let m =
      read_n_whole h.events (fed c (f.payload ++ more)) f.len h.calm live
        (omega (arith, d.0, h.spent)) (omega (arith, d.0, length-append f.payload more)) in
    record {
      events = m.rest;
      calm = m.calm;
      spent = omega (arith, d.0, h.spent, m.spent);
      returns =
          h.goes_on
          ∙ read_body-data f.len _ d.1
          ∙ m.returns
          ∙ rw (
            take_front f.len f.payload more d.0,
            drop_front f.len f.payload more d.0,
            zero-add f.len,
          );
    }

receive_flag :
    (uninit : Bytes) (es : List Event) (c : Conn) (f : Frame) (more : Bytes)
    → IsCalm es
    → c.canceled ≡ false
    → length (wire f) ≤ supply es
    → IsFlag f
    → Received uninit es c f more
receive_flag uninit es c f more calm live enough g =
    let h = tcp_read-Headed uninit es c f.len (f.payload ++ more) calm live (omega arith) g.1 in
    record {
      events = h.events;
      calm = h.calm;
      spent = omega (arith, h.spent);
      returns =
          h.goes_on ∙ read_body-flags f.len _ g.1 g.0 (omega (arith, g.2)) ∙ ground (arith, g.3);
    }

receive :
    (uninit : Bytes) (es : List Event) (c : Conn) (f : Frame) (more : Bytes)
    → IsCalm es
    → c.canceled ≡ false
    → length (wire f) ≤ supply es
    → IsFrame f
    → Received uninit es c f more
receive uninit es c f more calm live enough (inl d) =
    receive_data uninit es c f more calm live enough d
receive uninit es c f more calm live enough (inr g) =
    receive_flag uninit es c f more calm live enough g

-- Successive calls of `tcp_write`, one for each frame, each of which returns its size.
abbrev pub send_all : List Event → Conn → List Frame → Option Conn
send_all es c [] = some c
send_all es c (f ∷ fs) = do
  g ← tcp_write es c f.payload f.len
  let more = send_all g.rest g.conn fs
  if ltb_ℤ g.ret (pos 0) then none else more

-- `n` successive calls of `tcp_read`: the frames received and the connection behind them.
abbrev pub receive_all : ℕ → Bytes → List Event → Conn → Option (List Frame × Conn)
receive_all zero uninit es c = some ([], c)
receive_all (suc n) uninit es c = do
  g ← tcp_read uninit es c
  (fs, c') ← receive_all n uninit g.rest g.conn
  some (record { len = pos_part g.ret; payload = g.stored } ∷ fs, c')

abbrev pub wires : List Frame → Bytes
wires [] = []
wires (f ∷ fs) = wire f ++ wires fs

not_negative : (n : ℕ) → ltb_ℤ (pos n) (pos 0) ≡ false
not_negative n = ground arith

send_wires :
    (es : List Event) (c : Conn) (fs : List Frame)
    → IsCalm es
    → c.canceled ≡ false
    → length (wires fs) ≤ supply es
    → All IsFrame fs
    → send_all es c fs ≡ some (record c { output = c.output ++ wires fs })
unfolding tcp_write
send_wires es c [] calm live enough ok = rw (append-nil c.output)
send_wires es c (f ∷ fs) calm live enough ok =
    let whole = length-append f.payload (wires fs) in
    let m = write_n_whole es c (wire f) calm live (omega (arith, whole)) in
    rw (take_payload f ok.0, m.returns, not_negative (0 + length (wire f)))
      (send_wires m.rest _ fs m.calm live (omega (arith, whole, m.spent)) ok.1
        ∙ rw (append_assoc c.output (wire f) (wires fs)))

receive_wires :
    (uninit : Bytes) (es : List Event) (c : Conn) (fs : List Frame) (more : Bytes)
    → IsCalm es
    → c.canceled ≡ false
    → length (wires fs) ≤ supply es
    → All IsFrame fs
    → receive_all (length fs) uninit es (fed c (wires fs ++ more)) ≡ some (fs, fed c more)
receive_wires uninit es c [] more calm live enough ok = refl
receive_wires uninit es c (f ∷ fs) more calm live enough ok =
    let whole = length-append f.payload (wires fs) in
    let m = receive uninit es c f (wires fs ++ more) calm live (omega (arith, whole)) ok.0 in
    rw (
      append_assoc (wire f) (wires fs) more,
      m.returns,
      receive_wires uninit m.events c fs more m.calm live (omega (arith, whole, m.spent)) ok.1,
    )

-- Any frames that `tcp_write` sends one after the other come out of as many calls of `tcp_read`
-- one by one, each with its length word and its payload, and what was sent behind them is left
-- unread; however the kernels at both ends split and interrupt the transfer.
pub frames_in_order :
    (ws rs : List Event) (w r : Conn) (uninit more : Bytes) (fs : List Frame)
    → IsCalm ws
    → IsCalm rs
    → w.canceled ≡ false
    → r.canceled ≡ false
    → w.output ≡ []
    → length (wires fs) ≤ supply ws
    → length (wires fs) ≤ supply rs
    → All IsFrame fs
    → (w' : Conn) × (send_all ws w fs ≡ some w')
      × (receive_all (length fs) uninit rs (fed r (w'.output ++ more)) ≡ some (fs, fed r more))
frames_in_order ws rs w r uninit more fs calm_w calm_r live_w live_r fresh enough_w enough_r ok = (
  record w { output = w.output ++ wires fs },
  send_wires ws w fs calm_w live_w enough_w ok,
  rw fresh (receive_wires uninit rs r fs more calm_r live_r enough_r ok),
)
