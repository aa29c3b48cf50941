-- ===== src/Io/Ended.antt =====
-- Reads at the end of the stream.
use vtun.Common.{ℕ, suc, zero, ◌≤◌, ◌<◌, ◌≡◌, false, List, [], ◌∷◌, Option, some, pos, arith}
use vtun.Io.{Event, moves, again, fails, signal, Conn, Got, read_loop, read_n}
use vtun.Io.Whole.{IsCalm, supply}

-- What a read at the end of the stream leaves.
pub record Ended (r : Option Got) (c : Conn) : Type 0 where
  pub events : List Event
  pub calm : IsCalm events
  pub returns : r ≡ some (record { ret = pos 0; stored = []; conn = c; rest = events })

pub read_n-Ended :
    (es : List Event) (c : Conn) (n : ℕ)
    → IsCalm es
    → c.canceled ≡ false
    → 1 ≤ supply es
    → 0 < n
    → Ended (read_n es (record c { input = [] }) n) (record c { input = [] })
unfolding read_n read_loop
read_n-Ended [] c n calm live enough some_wanted = absurd (omega arith)
read_n-Ended (again ∷ es) c n calm live enough some_wanted =
    let m = read_n-Ended es c n calm live enough some_wanted in
    record { events = m.events; calm = m.calm; returns = ground (arith, m.returns) }
read_n-Ended (moves zero ∷ es) c n calm live enough some_wanted = absurd calm
read_n-Ended (fails ∷ es) c n calm live enough some_wanted = absurd calm
read_n-Ended (signal ∷ es) c n calm live enough some_wanted = absurd calm
read_n-Ended (moves (suc k) ∷ es) c n calm live enough some_wanted = record {
  events = es;
  calm = calm;
  returns = ground arith;
}
