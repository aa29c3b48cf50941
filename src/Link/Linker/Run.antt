-- ===== src/Link/Linker/Run.antt =====
-- linkfd.c: the loop of `lfd_linker` around its turns, the signal handlers, and what follows the loop.
--
-- A signal arrives between two turns, where it ends `select`. The dump of the statistics to their
-- file is not modelled.
use vtun.Common.{
  ℕ, suc, ◌==◌, List, [], ◌∷◌, Bool, true, not, ◌&&◌, ℤ, pos, ltb_ℤ, ◌-ℤ◌, if◌then◌else◌, Option,
  none, some,
}
use mathlib.Core.Option
use vtun.Common.Bits.{bit_and}
use vtun.Host.{
  vtun_echo_req, vtun_conn_close, vtun_sig_term, vtun_sig_hup, vtun_keep_alive, vtun_stat,
}
use vtun.Link.Linker.{Round, Linker, Flow, goes_on, continues, breaks, write_flag, turn}

-- What happens to a linker: a turn, or a signal between two turns.
pub data Happening : Type 0 where
  round : Round → Happening
  sig_term : Happening
  sig_hup : Happening
  sig_usr1 : Happening
  -- SIGALRM at a time in seconds
  sig_alarm : ℤ → Happening

abbrev pub vtun_stat_ival : ℕ
vtun_stat_ival = 300

-- The timers of `sig_alarm`; the next alarm that it sets is not modelled, alarms are happenings.
unfoldable pub on_alarm : ℤ → Linker → Linker
on_alarm now l =
    let spent = now -ℤ l.tm in
    let ka = l.ka_timer -ℤ spent in
    let st = l.stat_timer -ℤ spent in
    let keeping = not (bit_and l.host.flags vtun_keep_alive == 0) in
    let dumping = not (bit_and l.host.flags vtun_stat == 0) in
    let timed = record l { tm = now } in
    let kept =
      if not keeping
      then timed
      else if not (ltb_ℤ (pos 0) ka)
      then record timed { ka_need_verify = true; ka_timer = pos (suc l.host.ka_interval) }
      else record timed { ka_timer = ka } in
    if not dumping
    then kept
    else if not (ltb_ℤ (pos 0) st)
    then record kept { stat_timer = pos vtun_stat_ival }
    else record kept { stat_timer = st }

unfoldable pub happens : Happening → Linker → Flow
happens (round r) l = turn r l
happens sig_term l = goes_on (record l { linker_term = vtun_sig_term; canceled = true })
happens sig_hup l = goes_on (record l { linker_term = vtun_sig_hup; canceled = true })
happens sig_usr1 l =
    goes_on (record l { stat = record { byte_in = 0; byte_out = 0; comp_in = 0; comp_out = 0 } })
happens (sig_alarm now) l = goes_on (on_alarm now l)

-- The loop; none where the linker still runs at the end of what happens.
unfoldable pub linker_loop : List Happening → Linker → Option Linker
linker_loop [] l = if l.linker_term == 0 then none else some l
linker_loop (e ∷ es) l =
    let next : Option Linker = elim (happens e l) [
      | goes_on k ↦ linker_loop es k
      | continues k ↦ linker_loop es k
      | breaks k ↦ some k
    ] in
    if l.linker_term == 0 then next else some l

-- A session that a signal ends is not set up again.
unfoldable pub stop : Linker → Linker
stop l =
    if l.linker_term == vtun_sig_term then record l { host = record l.host { persist = 0 } } else l

-- The connection under the linker: whether it is TCP, and whether the two frames that the linker writes
-- outside its loop, without a look at the answer, are written there.
pub record Wire : Type 0 where
  pub tcp : Bool
  pub echo_written : Bool
  pub close_written : Bool

-- The word to the other end. Over TCP a write after a signal is canceled; another can fail, or write
-- nothing on a UDP socket whose peer is gone.
abbrev pub notify : Wire → Linker → Linker
notify wire l =
    if wire.tcp && l.canceled
    then l
    else if wire.close_written
    then write_flag vtun_conn_close l
    else l

-- The first frame, which the NAT hack leaves out.
abbrev pub greet : (nat_hack : Bool) → Wire → Linker → Linker
greet nat_hack wire l =
    if nat_hack then l else if wire.echo_written then write_flag vtun_echo_req l else l

-- Behind the loop.
abbrev pub close : Wire → Linker → Linker
close wire l = notify wire (stop l)

unfoldable pub lfd_linker : (nat_hack : Bool) → Wire → List Happening → Linker → Option Linker
unfolding linker_loop
lfd_linker nat_hack wire es l =
    let start = greet nat_hack wire l in
    Option.map (close wire) (linker_loop es (record start { linker_term = 0; idle = 0 }))
