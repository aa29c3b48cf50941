-- ===== src/Link/Linker/SameHost.antt =====
-- What the linker does to the record of its session.
use vtun.Common.{
  ℕ, ◌==◌, ◌≡◌, ◌⊎◌, inl, inr, refl, sym, subst, List, [], ◌∷◌, Bytes, Bool, false, ◌&&◌, if_both,
  Holds, if-Holds, some-Holds, Option, none, some, ℤ, pos, negsuc, if◌then◌else◌, take, length,
  arith,
}
use mathlib.Core.Option
use vtun.Common.Bits.{bit_and}
use vtun.Host.{VtunHost, vtun_fsize_mask, vtun_sig_term, vtun_echo_req}
use vtun.Link.Stack.{lfd_check_up, lfd_check_down}
use vtun.Link.Linker.{
  write_flag, Answer, answers, interrupted, broken, Round, Linker, Flow, goes_on, continues, breaks,
  ◌▷◌, wait, verify, send_down, send_packet, receive_up, handle_frame, network, device, turn,
}
use vtun.Link.Linker.Run.{
  Happening, round, sig_term, sig_hup, sig_usr1, sig_alarm, on_alarm, happens, linker_loop, stop,
  Wire, greet, close, lfd_linker,
}

-- The linker that a part of a turn leaves has the record `h`.
abbrev HostOf : VtunHost → Flow → Type 0
HostOf h (goes_on k) = k.host ≡ h
HostOf h (continues k) = k.host ≡ h
HostOf h (breaks k) = k.host ≡ h

▷-HostOf :
    (h : VtunHost) (f : Flow) (g : Linker → Flow)
    → HostOf h f
    → ((k : Linker) → HostOf k.host (g k))
    → HostOf h (f ▷ g)
▷-HostOf h (goes_on k) g same next = subst (λ z. HostOf z (g k)) same (next k)
▷-HostOf h (continues k) g same next = same
▷-HostOf h (breaks k) g same next = same

answer_all :
    (P : Flow → Type 0) (a : Answer) (x y z : Flow)
    → P x
    → P y
    → P z
    → P (elim a [ answers ↦ x | interrupted ↦ y | broken ↦ z ])
answer_all P answers x y z hx hy hz = hx
answer_all P interrupted x y z hx hy hz = hy
answer_all P broken x y z hx hy hz = hz

wait-HostOf : (r : Round) (l : Linker) → HostOf l.host (wait r l)
wait-HostOf r l =
    answer_all (HostOf l.host) r.select (goes_on l) (continues l) (breaks l) refl refl refl

verify-HostOf : (r : Round) (l : Linker) → HostOf l.host (verify r l)
unfolding verify
verify-HostOf r l = ground arith

send_down-HostOf :
    (len : ℤ) (frame : Bytes) (written : Bool) (l : Linker)
    → HostOf l.host (send_down len frame written l)
unfolding send_down
send_down-HostOf len frame written l = ground arith

send_packet-HostOf : (r : Round) (l : Linker) → HostOf l.host (send_packet r l)
send_packet-HostOf r l =
    if_both (HostOf l.host) l.send_a_packet
      (send_down (pos 1) (r.scratch ∷ []) r.packet_written (record l { send_a_packet = false }))
      (goes_on l)
      (send_down-HostOf (pos 1) (r.scratch ∷ []) r.packet_written
        (record l { send_a_packet = false }))
      refl

receive_up-HostOf :
    (r : Round) (len : ℤ) (frame : Bytes) (l : Linker) → HostOf l.host (receive_up r len frame l)
unfolding receive_up
receive_up-HostOf r len frame l = ground arith

handle_frame-HostOf : (r : Round) (len : ℕ) (l : Linker) → HostOf l.host (handle_frame r len l)
unfolding handle_frame
handle_frame-HostOf r len l =
    let size = bit_and len vtun_fsize_mask in
    ground (arith, receive_up-HostOf r (pos size) (take size r.net_frame) l)

frame-HostOf :
    (r : Round) (len : ℤ) (l : Linker)
    → HostOf l.host
        (elim len [ pos n ↦ if n == 0 then breaks l else handle_frame r n l | negsuc n ↦ breaks l ])
frame-HostOf r (pos n) l =
    if_both (HostOf l.host) (n == 0) (breaks l) (handle_frame r n l) refl
      (handle_frame-HostOf r n l)
frame-HostOf r (negsuc n) l = refl

network-HostOf : (r : Round) (l : Linker) → HostOf l.host (network r l)
unfolding network
network-HostOf r l =
    let checked = record l { mods = (lfd_check_up l.mods).0 } in
    let read = record checked { idle = 0; ka_need_verify = false } in
    ground (arith, frame-HostOf r r.net_len read)

device-HostOf : (r : Round) (l : Linker) → HostOf l.host (device r l)
unfolding device
device-HostOf r l =
    let checked = record l { mods = (lfd_check_down l.mods).0 } in
    ground (arith, send_down-HostOf (pos (length r.dev_frame)) r.dev_frame r.data_written checked)

turn-HostOf : (r : Round) (l : Linker) → HostOf l.host (turn r l)
turn-HostOf r l =
    ▷-HostOf l.host _ (device r)
      (▷-HostOf l.host _ (network r)
        (▷-HostOf l.host _ (send_packet r)
          (▷-HostOf l.host (wait r l) (verify r) (wait-HostOf r l) (verify-HostOf r))
          (send_packet-HostOf r))
        (network-HostOf r))
      (device-HostOf r)

on_alarm-host : (now : ℤ) (l : Linker) → (on_alarm now l).host ≡ l.host
unfolding on_alarm
on_alarm-host now l = ground arith

happens-HostOf : (e : Happening) (l : Linker) → HostOf l.host (happens e l)
unfolding happens
happens-HostOf (round r) l = turn-HostOf r l
happens-HostOf sig_term l = refl
happens-HostOf sig_hup l = refl
happens-HostOf sig_usr1 l = refl
happens-HostOf (sig_alarm now) l = on_alarm-host now l

abbrev SameAs : VtunHost → Linker → Type 0
SameAs h k = k.host ≡ h

next-host :
    (h : VtunHost) (es : List Happening) (f : Flow)
    → ((k : Linker) → Holds (SameAs k.host) (linker_loop es k))
    → HostOf h f
    → Holds (SameAs h) (elim f [
      | goes_on k ↦ linker_loop es k
      | continues k ↦ linker_loop es k
      | breaks k ↦ some k
    ])
next-host h es (goes_on k) rest same =
    subst (λ z. Holds (SameAs z) (linker_loop es k)) same (rest k)
next-host h es (continues k) rest same =
    subst (λ z. Holds (SameAs z) (linker_loop es k)) same (rest k)
next-host h es (breaks k) rest same = same

linker_loop-host : (es : List Happening) (l : Linker) → Holds (SameAs l.host) (linker_loop es l)
unfolding linker_loop
linker_loop-host [] l = if-Holds (SameAs l.host) (l.linker_term == 0) none (some l) tt refl
linker_loop-host (e ∷ es) l =
    let next : Option Linker = elim (happens e l) [
      | goes_on k ↦ linker_loop es k
      | continues k ↦ linker_loop es k
      | breaks k ↦ some k
    ] in
    if-Holds (SameAs l.host) (l.linker_term == 0) next (some l)
      (next-host l.host es (happens e l) (linker_loop-host es) (happens-HostOf e l)) refl

-- A session's record behind the linker: it is as it was, or is not to persist any more.
abbrev pub Kept : VtunHost → VtunHost → Type 0
Kept h k = (k ≡ h) ⊎ (k ≡ record h { persist = 0 })

stop-Kept : (l : Linker) → Kept l.host (stop l).host
unfolding stop
stop-Kept l =
    if_both (λ (k : Linker). Kept l.host k.host) (l.linker_term == vtun_sig_term)
      (record l { host = record l.host { persist = 0 } }) l (inr refl) (inl refl)

close-host : (wire : Wire) (l : Linker) → (close wire l).host ≡ (stop l).host
close-host wire l =
    let Same = λ (k : Linker). k.host ≡ (stop l).host in
    if_both Same (wire.tcp && (stop l).canceled) (stop l) _ refl
      (if_both Same wire.close_written _ (stop l) refl refl)

greet-host : (nat_hack : Bool) (wire : Wire) (l : Linker) → (greet nat_hack wire l).host ≡ l.host
greet-host nat_hack wire l =
    let Same = λ (k : Linker). k.host ≡ l.host in
    if_both Same nat_hack l _ refl
      (if_both Same wire.echo_written (write_flag vtun_echo_req l) l refl refl)

closed-Kept :
    (wire : Wire) (h : VtunHost) (o : Option Linker)
    → Holds (SameAs h) o
    → Holds (λ k. Kept h k.host) (Option.map (close wire) o)
closed-Kept wire h none same = tt
closed-Kept wire h (some l) same =
    subst (λ z. Kept h z) (sym (close-host wire l))
      (subst (λ z. Kept z (stop l).host) same (stop-Kept l))

-- Whatever happens to a session, the linker changes nothing of its record but that a SIGTERM clears its
-- `persist`.
pub lfd_linker-Kept :
    (nat_hack : Bool) (wire : Wire) (es : List Happening) (l k : Linker)
    → lfd_linker nat_hack wire es l ≡ some k
    → Kept l.host k.host
unfolding lfd_linker
lfd_linker-Kept nat_hack wire es l k e =
    let start = greet nat_hack wire l in
    let begun = record start { linker_term = 0; idle = 0 } in
    let same : start.host ≡ l.host = greet-host nat_hack wire l in
    subst (λ z. Kept z k.host) same
      (some-Holds (λ (z : Linker). Kept start.host z.host)
        (Option.map (close wire) (linker_loop es begun)) k
        (closed-Kept wire start.host (linker_loop es begun) (linker_loop-host es begun)) e)
