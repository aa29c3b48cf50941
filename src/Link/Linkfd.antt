-- ===== src/Link/Linkfd.antt =====
-- linkfd.c: `linkfd`, which runs the linker over the modules of a session between its set-up and its
-- end.
--
-- What the calls change is the state of the process: the static variables of linkfd.c, which are the
-- linker's, the priority, the signal handlers, the alarm and the file of the statistics.
pub mod Ends
mod Tests
use vtun.Common.{
  ℕ, ◌+◌, ◌==◌, ltb, List, [], ◌∷◌, Bool, true, false, not, ◌&&◌, ◌||◌, Option, none, some, ℤ, pos,
  negsuc, ◌==ℤ◌, if◌then◌else◌,
}
use mathlib.Core.Option
use vtun.Common.Bits.{bit_and}
use vtun.Host.{VtunHost, vtun_stat, vtun_keep_alive}
use vtun.Link.Stack.{Module, lfd_alloc_mod, lfd_free_mod}
use vtun.Link.Build.{Modules, build_stack}
use vtun.Link.Linker.{Linker}
use vtun.Link.Linker.Run.{Happening, Wire, vtun_stat_ival, lfd_linker}

-- What a process does at a signal: as it was set up before, or by a handler of linkfd.c.
pub data Handler : Type 0 where
  earlier : ℕ → Handler
  on_term : Handler
  on_hup : Handler
  on_alarm : Handler
  on_usr1 : Handler

pub record Handlers : Type 0 where
  pub sigterm : Handler
  pub sigint : Handler
  pub sighup : Handler
  pub sigalrm : Handler
  pub sigusr1 : Handler

pub record Process : Type 1 where
  pub linker : Linker
  pub priority : ℤ
  pub handlers : Handlers
  -- seconds to the next alarm, 0 for none
  pub alarm : ℕ
  pub stat_file : Bool

abbrev pub linkfd_prio : ℤ
linkfd_prio = negsuc 0

abbrev pub ticks : VtunHost → Bool
ticks host = not (bit_and host.flags (vtun_stat + vtun_keep_alive) == 0)

abbrev pub dumps : VtunHost → Bool
dumps host = not (bit_and host.flags vtun_stat == 0)

-- The handlers while the linker runs.
abbrev pub set_handlers : VtunHost → Handlers → Handlers
set_handlers host hs = record {
  sigterm = on_term;
  sigint = on_term;
  sighup = on_hup;
  sigalrm = if ticks host then on_alarm else hs.sigalrm;
  sigusr1 = if dumps host then on_usr1 else hs.sigusr1;
}

-- Those of SIGALRM and SIGUSR1 stay.
abbrev pub restore_handlers : (old now : Handlers) → Handlers
restore_handlers old now = record now {
  sigterm = old.sigterm;
  sigint = old.sigint;
  sighup = old.sighup;
}

-- Up to `lfd_alloc_mod`: the state, and what that answers.
unfoldable pub prepare : Modules → VtunHost → Process → Process × ℤ
prepare ms host p =
    let (mods, err) = lfd_alloc_mod (build_stack ms host) host in
    (
      record p { linker = record p.linker { host = host; mods = mods }; priority = linkfd_prio },
      err,
    )

-- The state in which the linker starts; `opened` is whether the file of the statistics could be opened.
unfoldable pub start : (opened : Bool) → Process → Process
start opened p =
    let host = p.linker.host in
    record p {
      linker = record p.linker { canceled = false };
      handlers = set_handlers host p.handlers;
      alarm =
          if ticks host
          then if ltb host.ka_interval vtun_stat_ival then host.ka_interval else vtun_stat_ival
          else p.alarm;
      stat_file = if dumps host then opened else p.stat_file;
    }

-- Behind the linker. `old` is the state at the call.
unfoldable pub finish : (old : Process) → Process → Linker → Process
finish old p l = record p {
  linker = record l { mods = (lfd_free_mod l.mods).0 };
  priority = old.priority;
  handlers = restore_handlers old.handlers p.handlers;
  alarm = if ticks l.host then 0 else p.alarm;
  stat_file = if ticks l.host then false else p.stat_file;
}

abbrev pub is_empty : List Module → Bool
is_empty [] = true
is_empty (m ∷ mods) = false

module _ (nat_hack : Bool) (wire : Wire) (es : List Happening) (opened : Bool) where
  -- The linker and what follows it.
  unfoldable pub run_linker : (old : Process) → Process → Option (ℕ × Process)
  unfolding start finish
  run_linker old p =
      let ready = start opened p in
      Option.map (λ l. (l.linker_term, finish old ready l))
        (lfd_linker nat_hack wire es ready.linker)

  -- The result and the state; none where the linker still runs at the end of what happens, and where
  -- an earlier call has left modules in the list, which cannot be added again.
  unfoldable pub linkfd : Modules → VtunHost → Process → Option (ℕ × Process)
  unfolding run_linker prepare
  linkfd ms host p =
      let (q, err) = prepare ms host p in
      let ran = run_linker p q in
      if is_empty p.linker.mods then (if err ==ℤ pos 0 then ran else some (0, q)) else none
