-- ===== src/Io/Whole.antt =====
-- Short reads and writes, and interruptions, do not show: what is asked for is moved whole.
use vtun.Common.{
  ℕ, zero, suc, ◌-◌, ◌+◌, ◌≤◌, ◌≡◌, min, false, List, [], ◌∷◌, ◌++◌, Option, some, Bytes, pos,
  length, take, drop, arith, append_assoc, append-nil, take-drop, drop-drop, length-drop,
  take-append-drop,
}
use native.Mathlib.Nat.{add-zero, add_assoc}
use vtun.Io.{
  Event, moves, again, fails, signal, Conn, Got, read_size, read_loop, read_n, write_loop, write_n,
}

-- Nothing but progress and retries.
abbrev pub IsCalm : List Event → Type 0
IsCalm [] = Unit
IsCalm (moves zero ∷ es) = ⊥
IsCalm (moves (suc k) ∷ es) = IsCalm es
IsCalm (again ∷ es) = IsCalm es
IsCalm (fails ∷ es) = ⊥
IsCalm (signal ∷ es) = ⊥

-- How many calls of `read` or `write` move something.
abbrev pub supply : List Event → ℕ
supply [] = 0
supply (moves k ∷ es) = suc (supply es)
supply (_ ∷ es) = supply es

-- The connection after `n` bytes of its input are read.
abbrev pub taken : Conn → ℕ → Conn
taken c n = record c { input = drop n c.input }

-- What a call returns that stored `n` bytes behind the `t` of `stored`.
abbrev pub read_result : Conn → ℕ → ℕ → Bytes → List Event → Option Got
read_result c n t stored rest =
    some (record {
      ret = pos (t + n);
      stored = stored ++ take n c.input;
      conn = taken c n;
      rest = rest;
    })

-- A calm call that ends with `result rest`, having spent `n` of the supply at most.
pub record Moved (r : Option Got) (es : List Event) (n : ℕ) (result : List Event → Option Got)
    : Type 0 where
  pub rest : List Event
  pub returns : r ≡ result rest
  pub calm : IsCalm rest
  pub spent : supply es ≤ supply rest + n

read_none :
    (c : Conn) (t : ℕ) (stored : Bytes) (rest : List Event)
    → some (record { ret = pos t; stored = stored; conn = c; rest = rest })
      ≡ read_result c 0 t stored rest
read_none c t stored rest = rw (append-nil stored, add-zero t)

read_both :
    (c : Conn) (w n m t : ℕ) (stored : Bytes) (rest : List Event)
    → w + n ≡ m
    → read_result (taken c w) n (t + w) (stored ++ take w c.input) rest
      ≡ read_result c m t stored rest
read_both c w n m t stored rest e = rw (
  ← e,
  take-drop w n c.input,
  drop-drop w n c.input,
  append_assoc stored (take w c.input) (take n (drop w c.input)),
  add_assoc t w n,
)

read_loop_whole :
    (es : List Event) (c : Conn) (len t : ℕ) (stored : Bytes)
    → IsCalm es
    → c.canceled ≡ false
    → len ≤ supply es
    → len ≤ length c.input
    → Moved (read_loop es c len t stored) es len (read_result c len t stored)
unfolding read_loop
read_loop_whole [] c zero t stored calm live enough avail = record {
  rest = [];
  returns = ground (arith, read_none c t stored []);
  calm = calm;
  spent = omega arith;
}
read_loop_whole [] c (suc n) t stored calm live enough avail = absurd (omega arith)
read_loop_whole (again ∷ es) c zero t stored calm live enough avail = record {
  rest = again ∷ es;
  returns = ground (arith, read_none c t stored (again ∷ es));
  calm = calm;
  spent = omega arith;
}
read_loop_whole (again ∷ es) c (suc n) t stored calm live enough avail =
    let m = read_loop_whole es c (suc n) t stored calm live enough avail in
    record { rest = m.rest; returns = ground (arith, m.returns); calm = m.calm; spent = m.spent }
read_loop_whole (moves zero ∷ es) c len t stored calm live enough avail = absurd calm
read_loop_whole (fails ∷ es) c len t stored calm live enough avail = absurd calm
read_loop_whole (signal ∷ es) c len t stored calm live enough avail = absurd calm
read_loop_whole (moves (suc k) ∷ es) c zero t stored calm live enough avail = record {
  rest = moves (suc k) ∷ es;
  returns = ground (arith, read_none c t stored (moves (suc k) ∷ es));
  calm = calm;
  spent = omega arith;
}
read_loop_whole (moves (suc k) ∷ es) c (suc n) t stored calm live enough avail =
    let w = read_size (suc k) (suc n) c.input in
    let m =
      read_loop_whole es (taken c w) (suc n - w) (t + w) (stored ++ take w c.input) calm live
        (omega arith) (omega (arith, length-drop w c.input)) in
    record {
      rest = m.rest;
      returns =
          ground
            (arith, m.returns, read_both c w (suc n - w) (suc n) t stored m.rest (omega arith));
      calm = m.calm;
      spent = omega (arith, m.spent);
    }

-- From a live connection with `len` bytes to come, `read_n` stores exactly the next `len` of them
-- and returns `len`, however the kernel splits and interrupts the calls.
pub read_n_whole :
    (es : List Event) (c : Conn) (len : ℕ)
    → IsCalm es
    → c.canceled ≡ false
    → len ≤ supply es
    → len ≤ length c.input
    → Moved (read_n es c len) es len (read_result c len 0 [])
unfolding read_n
read_n_whole es c len = read_loop_whole es c len 0 []

abbrev sent : Conn → Bytes → Conn
sent c buf = record c { output = c.output ++ buf }

abbrev pub write_result : Conn → Bytes → ℕ → List Event → Option Got
write_result c buf t rest =
    some (record { ret = pos (t + length buf); stored = []; conn = sent c buf; rest = rest })

write_none :
    (c : Conn) (t : ℕ) (rest : List Event)
    → some (record { ret = pos t; stored = []; conn = c; rest = rest }) ≡ write_result c [] t rest
write_none c t rest = rw (append-nil c.output, add-zero t)

write_both :
    (c : Conn) (w t : ℕ) (buf : Bytes) (rest : List Event)
    → w ≤ length buf
    → write_result (sent c (take w buf)) (drop w buf) (t + w) rest ≡ write_result c buf t rest
write_both c w t buf rest fits =
    let e : t + w + length (drop w buf) ≡ t + length buf = omega (arith, length-drop w buf) in
    rw (e, append_assoc c.output (take w buf) (drop w buf), take-append-drop w buf)

write_loop_whole :
    (es : List Event) (c : Conn) (buf : Bytes) (t : ℕ)
    → IsCalm es
    → c.canceled ≡ false
    → length buf ≤ supply es
    → Moved (write_loop es c buf t) es (length buf) (write_result c buf t)
unfolding write_loop
write_loop_whole [] c [] t calm live enough = record {
  rest = [];
  returns = ground (arith, write_none c t []);
  calm = calm;
  spent = omega arith;
}
write_loop_whole [] c (b ∷ buf) t calm live enough = absurd (omega arith)
write_loop_whole (again ∷ es) c [] t calm live enough = record {
  rest = again ∷ es;
  returns = ground (arith, write_none c t (again ∷ es));
  calm = calm;
  spent = omega arith;
}
write_loop_whole (again ∷ es) c (b ∷ buf) t calm live enough =
    let m = write_loop_whole es c (b ∷ buf) t calm live enough in
    record { rest = m.rest; returns = ground (arith, m.returns); calm = m.calm; spent = m.spent }
write_loop_whole (moves zero ∷ es) c buf t calm live enough = absurd calm
write_loop_whole (fails ∷ es) c buf t calm live enough = absurd calm
write_loop_whole (signal ∷ es) c buf t calm live enough = absurd calm
write_loop_whole (moves (suc k) ∷ es) c [] t calm live enough = record {
  rest = moves (suc k) ∷ es;
  returns = ground (arith, write_none c t (moves (suc k) ∷ es));
  calm = calm;
  spent = omega arith;
}
write_loop_whole (moves (suc k) ∷ es) c (b ∷ buf) t calm live enough =
    let w = min (suc k) (length (b ∷ buf)) in
    let m =
      write_loop_whole es (sent c (take w (b ∷ buf))) (drop w (b ∷ buf)) (t + w) calm live
        (omega (arith, length-drop w (b ∷ buf))) in
    record {
      rest = m.rest;
      returns = ground (arith, m.returns, write_both c w t (b ∷ buf) m.rest (omega arith));
      calm = m.calm;
      spent = omega (arith, m.spent, length-drop w (b ∷ buf));
    }

-- To a live connection `write_n` writes the whole buffer and returns its size, however the kernel
-- splits and interrupts the calls.
pub write_n_whole :
    (es : List Event) (c : Conn) (buf : Bytes)
    → IsCalm es
    → c.canceled ≡ false
    → length buf ≤ supply es
    → Moved (write_n es c buf) es (length buf) (write_result c buf 0)
unfolding write_n
write_n_whole es c buf = write_loop_whole es c buf 0
