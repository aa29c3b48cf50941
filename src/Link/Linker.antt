-- ===== src/Link/Linker.antt =====
-- linkfd.c: `lfd_linker`, which moves frames between the device and the network, and its signal
-- handlers.
--
-- One turn of the loop takes what the system calls of that turn answer, a `Round`. The frames that
-- were written to the network are recorded with the length word that `proto_write` got. The buffer
-- was allocated. The flag `send_a_packet`, which lfd_encrypt.c sets, is a field. The turns
-- and the signals in sequence are in the child `Run`.
pub mod Run
pub mod KeepAlive
pub mod SameHost
use vtun.Common.{
  ℕ, suc, ◌+◌, ◌==◌, ◌%◌, ◌^◌, ltb, List, [], ◌∷◌, ◌++◌, Bytes, Bool, true, false, not, ◌&&◌, ◌||◌,
  ℤ, pos, negsuc, ltb_ℤ, ◌==ℤ◌, ◌-ℤ◌, ◌+ℤ◌, if◌then◌else◌, take, length, Option, none, some,
}
use mathlib.Core.Option
use vtun.Common.Bits.{bit_and}
use vtun.Host.{
  VtunHost, vtun_fsize_mask, vtun_bad_frame, vtun_echo_req, vtun_echo_rep, vtun_conn_close,
  vtun_sig_term, vtun_sig_hup, vtun_keep_alive, vtun_stat, invert,
}
use vtun.Link.Stack.{Module, lfd_run_down, lfd_run_up, lfd_check_down, lfd_check_up}
use vtun.Link.Shaper.{to_ulong, ulong}

-- What the answer of a system call on the device or of `select` says.
pub data Answer : Type 0 where
  answers : Answer
  -- EAGAIN or EINTR
  interrupted : Answer
  broken : Answer

-- What the system calls of one turn answer, in the order of the calls.
pub record Round : Type 0 where
  pub select : Answer
  pub net_ready : Bool
  pub dev_ready : Bool
  -- whether the ECHO request, the requested packet, the ECHO reply and the data are written
  pub echo_written : Bool
  pub packet_written : Bool
  pub reply_written : Bool
  pub data_written : Bool
  -- the byte that the buffer starts with, which a requested packet holds
  pub scratch : ℕ
  -- `proto_read`: its result and what it stored
  pub net_len : ℤ
  pub net_frame : Bytes
  pub dev_write : Answer
  -- `dev_read`, and what it stored
  pub dev_read : Answer
  pub dev_frame : Bytes

-- lfd_host->stat
pub record Stat : Type 0 where
  pub byte_in : ℕ
  pub byte_out : ℕ
  pub comp_in : ℕ
  pub comp_out : ℕ

pub record Linker : Type 1 where
  pub host : VtunHost
  pub mods : List Module
  pub linker_term : ℕ
  -- `__io_canceled`
  pub canceled : Bool
  pub ka_need_verify : Bool
  pub ka_timer : ℤ
  pub stat_timer : ℤ
  pub tm : ℤ
  pub idle : ℕ
  pub send_a_packet : Bool
  pub stat : Stat
  -- frames written to the network, the last one first, and to the device
  pub to_net : List (ℤ × Bytes)
  pub to_dev : List (ℤ × Bytes)

-- Where a part of a turn leaves the loop's body: it goes on, or by `continue`, or by `break`.
pub data Flow : Type 1 where
  goes_on : Linker → Flow
  continues : Linker → Flow
  breaks : Linker → Flow

infixl 20 ◌▷◌
abbrev pub ◌▷◌ : Flow → (Linker → Flow) → Flow
goes_on l ▷ f = f l
continues l ▷ f = continues l
breaks l ▷ f = breaks l

abbrev pub write_net : ℤ → Bytes → Linker → Linker
write_net len frame l = record l { to_net = (len, frame) ∷ l.to_net }

-- A frame that is only a flag.
abbrev pub write_flag : ℕ → Linker → Linker
write_flag flag l = write_net (pos flag) [] l

abbrev pub wait : Round → Linker → Flow
wait r l = elim r.select [ answers ↦ goes_on l | interrupted ↦ continues l | broken ↦ breaks l ]

-- The keep-alive check.
unfoldable pub verify : Round → Linker → Flow
verify r l =
    let asked = write_flag vtun_echo_req (record l { idle = suc l.idle }) in
    if not l.ka_need_verify
    then goes_on l
    else if ltb l.host.ka_maxfail l.idle
    then breaks l
    else if l.idle == 0
    then goes_on (record l { idle = 1; ka_need_verify = false })
    else if r.echo_written
    then goes_on (record asked { ka_need_verify = false })
    else breaks (record l { idle = suc l.idle })

abbrev pub count_out : ℤ → Linker → Linker
count_out n l = record l {
  stat = record l.stat { byte_out = ulong (l.stat.byte_out + to_ulong n) };
}

abbrev pub count_comp_out : ℤ → Linker → Linker
count_comp_out n l = record l {
  stat = record l.stat { comp_out = ulong (l.stat.comp_out + to_ulong n) };
}

abbrev pub count_in : ℤ → Linker → Linker
count_in n l = record l { stat = record l.stat { byte_in = ulong (l.stat.byte_in + to_ulong n) } }

abbrev pub count_comp_in : ℤ → Linker → Linker
count_comp_in n l = record l {
  stat = record l.stat { comp_in = ulong (l.stat.comp_in + to_ulong n) };
}

-- A frame of `len` bytes goes down the modules and to the network, which takes it or not.
unfoldable pub send_down : ℤ → Bytes → Bool → Linker → Flow
send_down len frame written l =
    let (mods, ret, out) = lfd_run_down l.mods len frame in
    let run = record (count_out len l) { mods = mods } in
    if ret ==ℤ negsuc 0
    then breaks run
    else if ret ==ℤ pos 0
    then goes_on (count_comp_out ret run)
    else if written
    then goes_on (count_comp_out ret (write_net ret out run))
    else breaks run

-- The packet that a module asked for.
abbrev pub send_packet : Round → Linker → Flow
send_packet r l =
    if l.send_a_packet
    then send_down (pos 1) (r.scratch ∷ []) r.packet_written (record l { send_a_packet = false })
    else goes_on l

-- A data frame goes up the modules and to the device.
unfoldable pub receive_up : Round → ℤ → Bytes → Linker → Flow
receive_up r len frame l =
    let (mods, ret, out) = lfd_run_up l.mods len frame in
    let run = record (count_comp_in len l) { mods = mods } in
    if ret ==ℤ negsuc 0
    then breaks run
    else if ret ==ℤ pos 0
    then goes_on (count_in ret run)
    else elim r.dev_write [
      | answers ↦ goes_on (count_in ret (record run { to_dev = (ret, out) ∷ l.to_dev }))
      | interrupted ↦ continues run
      | broken ↦ breaks run
    ]

-- A frame from the network with the length word `len`, by its flags.
unfoldable pub handle_frame : Round → ℕ → Linker → Flow
handle_frame r len l =
    let fl = bit_and len (invert vtun_fsize_mask) in
    let size = bit_and len vtun_fsize_mask in
    if fl == vtun_bad_frame
    then continues l
    else if fl == vtun_echo_req
    then (if r.reply_written then continues (write_flag vtun_echo_rep l) else breaks l)
    else if fl == vtun_echo_rep
    then continues l
    else if fl == vtun_conn_close
    then breaks l
    else receive_up r (pos size) (take size r.net_frame) l

abbrev pub nonzero : ℤ → Bool
nonzero z = not (z ==ℤ pos 0)

unfoldable pub network : Round → Linker → Flow
network r l =
    let (mods, ready) = lfd_check_up l.mods in
    let checked = record l { mods = mods } in
    let read = record checked { idle = 0; ka_need_verify = false } in
    let handled : Flow = elim r.net_len [
      | pos len ↦ if len == 0 then breaks read else handle_frame r len read
      | negsuc n ↦ breaks read
    ] in
    if r.net_ready then (if nonzero ready then handled else goes_on checked) else goes_on l

unfoldable pub device : Round → Linker → Flow
device r l =
    let (mods, ready) = lfd_check_down l.mods in
    let checked = record l { mods = mods } in
    let len = length r.dev_frame in
    let handled : Flow = elim r.dev_read [
      | broken ↦ breaks checked
      | interrupted ↦ continues checked
      | answers ↦
          if len == 0
          then breaks checked
          else send_down (pos len) r.dev_frame r.data_written checked
    ] in
    if r.dev_ready then (if nonzero ready then handled else goes_on checked) else goes_on l

-- The body of the loop.
abbrev pub turn : Round → Linker → Flow
turn r l = wait r l ▷ verify r ▷ send_packet r ▷ network r ▷ device r
