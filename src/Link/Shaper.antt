-- ===== src/Link/Shaper.antt =====
-- lfd_shaper.c: the module that stops accepting frames while the session is over its speed.
--
-- An `unsigned long` is 64 bits and wraps; a time is seconds and microseconds, and the time that
-- `gettimeofday` answers is an argument. The nap of a microsecond on refusal changes no state.
pub mod Rate
pub mod Stacked
use vtun.Common.{
  ℕ, suc, ◌+◌, ◌-◌, ◌*◌, ◌/◌, ◌%◌, ◌^◌, ◌==◌, ltb, Bool, true, false, if◌then◌else◌, ℤ, pos, negsuc,
  Bytes, length,
}
use mathlib.Core.Option.{none, some}
use vtun.Host.{VtunHost}
use vtun.Link.Stack.{Module}

pub record Time : Type 0 where
  pub tv_sec : ℕ
  pub tv_usec : ℕ

pub record Shaper : Type 0 where
  pub bytes : ℕ
  pub max_speed : ℕ
  pub curr_time : Time
  pub last_time : Time

-- An `unsigned long`, and an `int` (of 32 bits, which wraps) converted to one.
abbrev pub ulong : ℕ → ℕ
ulong n = n % 2 ^ 64

abbrev pub to_ulong : ℤ → ℕ
to_ulong (pos n) = let m = n % 2 ^ 32 in if ltb m (2 ^ 31) then m else 2 ^ 64 - (2 ^ 32 - m)
to_ulong (negsuc n) =
    let m = suc n % 2 ^ 32 in
    if m == 0 then 0 else if ltb (2 ^ 31) m then 2 ^ 32 - m else 2 ^ 64 - m

-- `spd / 8 * 1024`, where division goes towards 0.
abbrev pub bytes_of : ℤ → ℤ
bytes_of (pos n) = pos (n / 8 * 1024)
bytes_of (negsuc n) = let k = suc n / 8 * 1024 in if k == 0 then pos 0 else negsuc (k - 1)

unfoldable pub shaper_init : VtunHost → Shaper → Shaper
shaper_init host s = record s {
  max_speed = ulong (to_ulong (bytes_of host.spd_out) + 400);
  bytes = 0;
}

-- `shaper_counter(len, in, out)`: the bytes are counted, and the frame stays.
unfoldable pub shaper_counter : Shaper → ℕ → Bytes → Shaper × ℤ × Bytes
shaper_counter s len input = (record s { bytes = ulong (s.bytes + len) }, pos len, input)

-- `timersub(a, b, result)`; the seconds of a clock that went back wrap.
unfoldable pub timersub : Time → Time → Time
timersub a b =
    if ltb a.tv_usec b.tv_usec
    then record {
      tv_sec = ulong (a.tv_sec + 2 ^ 64 - b.tv_sec - 1);
      tv_usec = a.tv_usec + 1_000_000 - b.tv_usec;
    }
    else record { tv_sec = ulong (a.tv_sec + 2 ^ 64 - b.tv_sec); tv_usec = a.tv_usec - b.tv_usec }

unfoldable pub tv2ms : Time → ℕ
tv2ms tv = let ms = ulong (tv.tv_sec * 1000 + tv.tv_usec / 1000) in if ms == 0 then 1 else ms

-- `shaper_avail()`: the answer, 1 or 0.
unfoldable pub shaper_avail : Time → Shaper → Shaper × ℤ
shaper_avail now s =
    let speed = ulong (s.bytes * 1000) / tv2ms (timersub now s.last_time) in
    let looked = record s { curr_time = now } in
    if ltb s.max_speed speed
    then (looked, pos 0)
    else if ltb s.last_time.tv_sec now.tv_sec
    then (record looked { last_time = now; bytes = 0 }, pos 1)
    else (looked, pos 1)

-- The module, while the clock shows `now`: it counts what goes down, and has no part in what comes
-- up.
abbrev pub lfd_shaper : Time → Shaper → Module
lfd_shaper now shaper = record {
  State = Shaper;
  state = shaper;
  alloc = some (λ s host. (shaper_init host s, pos 0));
  encode = some (λ s input. shaper_counter s (length input) input);
  avail_encode = some (shaper_avail now);
  decode = none;
  avail_decode = none;
  free = none;
}
