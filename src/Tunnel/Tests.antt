-- ===== src/Tunnel/Tests.antt =====
-- Runs of `tunnel` and of its child at concrete inputs.
use vtun.Common.{
  false, ◌≡◌, ◌⊎◌, refl, [], ◌∷◌, true, none, some, pos, negsuc, arith, sym, ◌==◌, if◌then◌else◌,
}
use vtun.Common.Text.{codes}
use mathlib.Core.Option
use vtun.Host.{VtunHost, vtun_echo_req}
use vtun.Session.{Session, opens, closes, destroys, forks_up, runs_down, calls_linkfd}
use vtun.Link.Stack.{lfd_alloc_mod, lfd_free_mod, free_loop}
use vtun.Link.Linker.Run.{lfd_linker, linker_loop, happens, stop}
use vtun.Link.Linkfd.{Process, linkfd, prepare, run_linker, start, finish}
use vtun.Tunnel.{
  Tunnelled, tunnel, tunnel_on, get_device, open_device, protocol, forked, linked, run_linkfd,
  closing, close_pipe,
}
use vtun.Tunnel.Sample.{host, session, process, world}
use vtun.Tunnel.Opening.{commands}
use vtun.Tunnel.Order.{around, FromLinkfd, tunnel-commands}
use vtun.Tunnel.Settled.{Among}
use vtun.Tunnel.Closing.{Ends, tunnel-Ends}
use vtun.Tunnel.Keep.{tunnel-kept}
use vtun.Tunnel.Child.{Table, set_fd, tty_child, open_file, search_free}
use vtun.Tunnel.Stdio.{Wired, tty_child-Wired}

-- What `linkfd` leaves behind a hang-up.
abbrev left : VtunHost → Process
left h = record process {
  linker = record process.linker {
    host = h;
    linker_term = 2;
    canceled = true;
    to_net = (pos vtun_echo_req, []) ∷ [];
  };
}

abbrev result : Tunnelled
result = record {
  ret = pos 2;
  session = record session {
    loc_fd = pos 5;
    sopt = record session.sopt { dev = some (codes "tun0") };
  };
  process = left host;
  acts =
      opens (pos 5)
      ∷ forks_up
      ∷ calls_linkfd
      ∷ runs_down
      ∷ destroys (pos 5)
      ∷ closes (pos 5)
      ∷ closes (pos 4)
      ∷ closes (negsuc 0)
      ∷ [];
}

tunnel_test : tunnel world session process ≡ some result
unfolding tunnel tunnel_on get_device open_device protocol forked linked run_linkfd closing
    close_pipe linkfd prepare run_linker start finish lfd_linker linker_loop happens stop
    lfd_alloc_mod lfd_free_mod free_loop
tunnel_test = refl

tunnel-commands_example :
    ((commands result.acts ≡ around) × FromLinkfd world session process result)
    ⊎ ((commands result.acts ≡ [])
        × (result.process ≡ process)
        × ((result.ret ≡ negsuc 0) ⊎ (result.ret ≡ pos 0)))
tunnel-commands_example = tunnel-commands world session process result tunnel_test

tunnel-Ends_example : Ends session result
tunnel-Ends_example = tunnel-Ends world session process result tunnel_test refl refl

-- A session that keeps its interface, at its second connection.
abbrev keeping : VtunHost
keeping = record host { persist = 2 }

abbrev again : Session
again = record session { host = keeping; loc_fd = pos 5 }

abbrev kept_result : Tunnelled
kept_result = record {
  ret = pos 2;
  session = record again { sopt = record session.sopt { dev = some (codes "tun0") } };
  process = left keeping;
  acts = forks_up ∷ calls_linkfd ∷ runs_down ∷ closes (pos 4) ∷ closes (negsuc 0) ∷ [];
}

kept_test : tunnel world again process ≡ some kept_result
unfolding tunnel tunnel_on get_device open_device protocol forked linked run_linkfd closing
    close_pipe linkfd prepare run_linker start finish lfd_linker linker_loop happens stop
    lfd_alloc_mod lfd_free_mod free_loop
kept_test = refl

tunnel-kept_example :
    (kept_result.session.loc_fd ≡ pos 5) × ¬ Among (closes (pos 5)) kept_result.acts
tunnel-kept_example =
    tunnel-kept world again process kept_result refl kept_test refl refl (λ e. ground (arith, e))
      (λ e. ground (arith, e))

-- The process has its streams, at file 0, and the master, file 9, at descriptor 3.
abbrev table : Table
table k =
    if k == 0
    then some 0
    else if k == 1
    then some 0
    else if k == 2
    then some 0
    else if k == 3
    then some 9
    else none

abbrev with_slave_at_4 : Table
with_slave_at_4 = set_fd 4 (some 7) table

tty_child-Wired_example :
    (tty_child 8 7 1 true true 3 table ≡ some table)
    × (r : Table) × (tty_child 8 7 1 false true 3 table ≡ some r)
    × Wired table r 3 4 7 1
    × (table 4 ≡ none)
unfolding open_file search_free
tty_child-Wired_example =
    tty_child-Wired 8 7 1 3 4 5 table with_slave_at_4 (set_fd 5 (some 1) with_slave_at_4)
      (omega arith)
      (record { file0 = 0; file1 = 0; file2 = 0; input = refl; output = refl; error = refl })
      (omega arith) (λ e. Option.none-ne-some 9 (sym e)) refl refl
