-- ===== src/Link/Shaper/Rate.antt =====
-- The speed that the shaper lets through.
use vtun.Common.{
  ℕ, ◌+◌, ◌-◌, ◌==◌, if◌then◌else◌, ap, ◌*◌, ◌/◌, ◌^◌, ◌≡◌, ◌<◌, ◌≤◌, ◌⊎◌, inl, inr, refl, ltb,
  ltb→lt, true, false, Bool-cases, ℤ, pos, arith,
}
use native.Mathlib.Nat.{le-div_iff_mul-le, div-lt_iff_lt-mul}
use vtun.Link.Shaper.{Time, Shaper, ulong, timersub, tv2ms, shaper_avail}

abbrev pub microseconds : Time → ℕ
microseconds t = t.tv_sec * 1_000_000 + t.tv_usec

-- The whole milliseconds since the count began, at least 1, of a clock that has not gone back.
abbrev pub elapsed : Time → Shaper → ℕ
elapsed now s =
    let ms = (microseconds now - microseconds s.last_time) / 1000 in if ms == 0 then 1 else ms

-- A clock whose seconds fit 53 bits, which has not gone back since the count began.
pub record Clock (now last : Time) : Type 0 where
  pub usec : now.tv_usec < 1_000_000
  pub last_usec : last.tv_usec < 1_000_000
  pub sec : now.tv_sec < 2 ^ 53
  pub forward : microseconds last ≤ microseconds now

borrowed :
    (x y u v : ℕ)
    → u < 1_000_000
    → v < 1_000_000
    → x < 2 ^ 53
    → y * 1_000_000 + v ≤ x * 1_000_000 + u
    → u < v
    → ulong (ulong (x + 2 ^ 64 - y - 1) * 1000 + (u + 1_000_000 - v) / 1000)
      ≡ (x * 1_000_000 + u - (y * 1_000_000 + v)) / 1000
borrowed x y u v hu hv hx later less =
    let sec : ulong (x + 2 ^ 64 - y - 1) ≡ x - y - 1 = omega arith in rw sec (omega arith)

unborrowed :
    (x y u v : ℕ)
    → u < 1_000_000
    → v < 1_000_000
    → x < 2 ^ 53
    → y * 1_000_000 + v ≤ x * 1_000_000 + u
    → v ≤ u
    → ulong (ulong (x + 2 ^ 64 - y) * 1000 + (u - v) / 1000)
      ≡ (x * 1_000_000 + u - (y * 1_000_000 + v)) / 1000
unborrowed x y u v hu hv hx later more =
    let sec : ulong (x + 2 ^ 64 - y) ≡ x - y = omega arith in rw sec (omega arith)

tv2ms-elapsed :
    (now : Time) (s : Shaper)
    → Clock now s.last_time
    → tv2ms (timersub now s.last_time) ≡ elapsed now s
unfolding tv2ms timersub
tv2ms-elapsed now s c =
    let x = now.tv_sec in
    let y = s.last_time.tv_sec in
    let u = now.tv_usec in
    let v = s.last_time.tv_usec in
    elim (Bool-cases (ltb u v)) [
      | inl less ↦
          rw (less, timersub, tv2ms, if◌then◌else◌)
            (ap (λ n. if n == 0 then 1 else n)
              (borrowed x y u v c.usec c.last_usec c.sec c.forward (ltb→lt u v less)))
      | inr more ↦
          rw (more, timersub, tv2ms, if◌then◌else◌)
            (ap (λ n. if n == 0 then 1 else n)
              (unborrowed x y u v c.usec c.last_usec c.sec c.forward (ground arith)))
    ]

-- What a check leaves. It accepts, with a count within the speed; then the count and its start stay
-- in the second in which the count began, and begin anew in a later one. Or it refuses, with a count
-- over the speed, and keeps the count.
abbrev pub Answers : Time → Shaper → Shaper × ℤ → Type 0
Answers now s (t, answer) =
    ((answer ≡ pos 1)
      × (s.bytes * 1000 < (s.max_speed + 1) * elapsed now s)
      × (t.max_speed ≡ s.max_speed)
      × (((t.bytes ≡ s.bytes) × (t.last_time ≡ s.last_time) × (now.tv_sec ≡ s.last_time.tv_sec))
          ⊎ ((t.bytes ≡ 0) × (t.last_time ≡ now) × (s.last_time.tv_sec < now.tv_sec))))
    ⊎ ((answer ≡ pos 0)
        × ((s.max_speed + 1) * elapsed now s ≤ s.bytes * 1000)
        × (t.max_speed ≡ s.max_speed)
        × (t.bytes ≡ s.bytes)
        × (t.last_time ≡ s.last_time))

within : (max b ms : ℕ) → 0 < ms → ltb max (b / ms) ≡ false → b < (max + 1) * ms
within max b ms positive h =
    let low : b / ms < max + 1 = ground arith in (div-lt_iff_lt-mul positive).0 low

over : (max b ms : ℕ) → 0 < ms → ltb max (b / ms) ≡ true → (max + 1) * ms ≤ b
over max b ms positive h =
    let high : max + 1 ≤ b / ms = ground arith in (le-div_iff_mul-le positive).0 high

same_second :
    (x y u v : ℕ) → u < 1_000_000 → y * 1_000_000 + v ≤ x * 1_000_000 + u → ltb y x ≡ false → x ≡ y
same_second x y u v hu later h = let most : x ≤ y = ground arith in omega arith

-- A clock that has not gone back since the count began, and a count whose thousandfold fits an unsigned
-- long: a check accepts exactly while the bytes counted are within the maximal speed over the whole
-- milliseconds since the count began; where it accepts it begins the count anew in every second later
-- than the one in which the count began, and else keeps it; where it refuses it keeps the count.
pub shaper_avail-Answers :
    (now : Time) (s : Shaper)
    → Clock now s.last_time
    → s.bytes * 1000 < 2 ^ 64
    → Answers now s (shaper_avail now s)
unfolding shaper_avail
shaper_avail-Answers now s c fits =
    let ms = elapsed now s in
    let exact : ulong (s.bytes * 1000) ≡ s.bytes * 1000 = omega arith in
    let time = tv2ms-elapsed now s c in
    let positive : 0 < ms = ground arith in
    elim (Bool-cases (ltb s.max_speed (s.bytes * 1000 / ms))) [
      | inl fast ↦
          rw (time, exact, shaper_avail, fast)
            (inr (refl, over s.max_speed (s.bytes * 1000) ms positive fast, refl, refl, refl))
      | inr slow ↦
          let fine = within s.max_speed (s.bytes * 1000) ms positive slow in
          elim (Bool-cases (ltb s.last_time.tv_sec now.tv_sec)) [
            | inl later ↦
                rw (time, exact, shaper_avail, slow, later)
                  (inl (refl, fine, refl, inr (refl, refl, ltb→lt _ _ later)))
            | inr same ↦
                rw (time, exact, shaper_avail, slow, same)
                  (inl (
                    refl,
                    fine,
                    refl,
                    inl (
                      refl,
                      refl,
                      same_second now.tv_sec s.last_time.tv_sec now.tv_usec s.last_time.tv_usec
                          c.usec c.forward same,
                    ),
                  ))
          ]
    ]
