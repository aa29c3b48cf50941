-- ===== src/Io.antt =====
-- lib.h: `read_n` and `write_n`, over a connected socket.
--
-- What the peer sends is a list of bytes, and what the kernel does at each `read` or `write` is a
-- list of events; where the events run out the call blocks, which is `none`. The flag
-- `__io_canceled`, which a signal handler sets, is a field of the connection.
pub mod Whole
pub mod Ended
pub mod Bound
use vtun.Common.{
  ℕ, zero, suc, ◌-◌, ◌+◌, ◌==◌, ◌≡◌, refl, min, Bool, true, false, ◌||◌, List, [], ◌∷◌, ◌++◌,
  Option, none, some, Bytes, ℤ, pos, negsuc, if◌then◌else◌, length, take, drop,
}

pub data Event : Type 0 where
  -- The call moves `k` bytes at most; `moves 0` is the end of the stream.
  moves : ℕ → Event
  -- EINTR or EAGAIN.
  again : Event
  -- Any other error.
  fails : Event
  -- EINTR, after a handler that called `io_cancel`.
  signal : Event

pub record Conn : Type 0 where
  pub canceled : Bool
  pub input : Bytes
  pub output : Bytes

-- What a call leaves: its result, the bytes that it stored, the connection and the events to come.
pub record Got : Type 0 where
  pub ret : ℤ
  pub stored : Bytes
  pub conn : Conn
  pub rest : List Event

-- `read(fd, buf, len)` under `moves k`.
abbrev pub read_size : ℕ → ℕ → Bytes → ℕ
read_size k len input = min k (min len (length input))

-- The loop of `read_n`: `len` bytes are wanted still, `t` are stored.
pub read_loop : List Event → Conn → ℕ → ℕ → Bytes → Option Got
read_loop [] c len t stored =
    if c.canceled || len == 0
    then some (record { ret = pos t; stored = stored; conn = c; rest = [] })
    else none
read_loop (again ∷ es) c len t stored =
    let more = read_loop es c len t stored in
    if c.canceled || len == 0
    then some (record { ret = pos t; stored = stored; conn = c; rest = again ∷ es })
    else more
read_loop (signal ∷ es) c len t stored =
    let more = read_loop es (record c { canceled = true }) len t stored in
    if c.canceled || len == 0
    then some (record { ret = pos t; stored = stored; conn = c; rest = signal ∷ es })
    else more
read_loop (fails ∷ es) c len t stored =
    if c.canceled || len == 0
    then some (record { ret = pos t; stored = stored; conn = c; rest = fails ∷ es })
    else some (record { ret = negsuc 0; stored = stored; conn = c; rest = es })
read_loop (moves k ∷ es) c len t stored =
    let w = read_size k len c.input in
    let after = record c { input = drop w c.input } in
    let more = read_loop es after (len - w) (t + w) (stored ++ take w c.input) in
    if c.canceled || len == 0
    then some (record { ret = pos t; stored = stored; conn = c; rest = moves k ∷ es })
    else if w == 0
    then some (record { ret = pos 0; stored = stored; conn = c; rest = es })
    else more

unfoldable pub read_n : List Event → Conn → ℕ → Option Got
unfolding read_loop
read_n es c len = read_loop es c len 0 []

-- The loop of `write_n`: `buf` is what is left to write.
unfoldable pub write_loop : List Event → Conn → Bytes → ℕ → Option Got
write_loop [] c buf t =
    if c.canceled || length buf == 0
    then some (record { ret = pos t; stored = []; conn = c; rest = [] })
    else none
write_loop (again ∷ es) c buf t =
    let more = write_loop es c buf t in
    if c.canceled || length buf == 0
    then some (record { ret = pos t; stored = []; conn = c; rest = again ∷ es })
    else more
write_loop (signal ∷ es) c buf t =
    let more = write_loop es (record c { canceled = true }) buf t in
    if c.canceled || length buf == 0
    then some (record { ret = pos t; stored = []; conn = c; rest = signal ∷ es })
    else more
write_loop (fails ∷ es) c buf t =
    if c.canceled || length buf == 0
    then some (record { ret = pos t; stored = []; conn = c; rest = fails ∷ es })
    else some (record { ret = negsuc 0; stored = []; conn = c; rest = es })
write_loop (moves k ∷ es) c buf t =
    let w = min k (length buf) in
    let after = record c { output = c.output ++ take w buf } in
    let more = write_loop es after (drop w buf) (t + w) in
    if c.canceled || length buf == 0
    then some (record { ret = pos t; stored = []; conn = c; rest = moves k ∷ es })
    else if w == 0
    then some (record { ret = pos 0; stored = []; conn = c; rest = es })
    else more

unfoldable pub write_n : List Event → Conn → Bytes → Option Got
unfolding write_loop
write_n es c buf = write_loop es c buf 0
