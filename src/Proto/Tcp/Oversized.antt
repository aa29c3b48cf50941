-- ===== src/Proto/Tcp/Oversized.antt =====
-- An oversized frame is dropped whole, and the next frame is found.
use vtun.Common.{
  ℕ, zero, suc, ◌+◌, ◌-◌, ◌%◌, ◌^◌, ◌≤◌, ◌<◌, ◌≡◌, refl, min, true, false, List, [], ◌∷◌, ◌++◌,
  Option, some, Bytes, pos, length, take, drop, arith, ltb_ℤ, lt→ltb, ◌==◌, length-append,
  drop-append, length-drop,
}
use vtun.Common.Masks.{bit_and_0fff}
use vtun.Host.{vtun_bad_frame}
use vtun.Io.{Event, Conn, Got}
use vtun.Io.Whole.{IsCalm, supply, read_n_whole}
use vtun.Proto.Tcp.{htons, tcp_read, read_body, skip_frame}
use vtun.Proto.Tcp.Header.{fed, behind, tcp_read-Headed}

-- `r` reports a bad frame, with `more` left to read.
abbrev pub Dropped : Option Got → Conn → Bytes → Type 0
Dropped r c more =
    (es : List Event) × (stored : Bytes) × (r
      ≡ some (record { ret = pos vtun_bad_frame; stored = stored; conn = fed c more; rest = es }))
    × IsCalm es

abbrev at_input : Got → Conn → Bytes → Got
at_input g c input = record g { conn = fed c input }

positive : (n : ℕ) → 0 < n → ltb_ℤ (pos 0) (pos n) ≡ true
positive n h = ground arith

skip_frame-Dropped :
    (fuel flen : ℕ) (g : Got) (c : Conn) (junk more : Bytes)
    → flen ≤ fuel
    → length junk ≡ flen
    → IsCalm g.rest
    → c.canceled ≡ false
    → flen ≤ supply g.rest
    → Dropped (skip_frame fuel flen (at_input g c (junk ++ more))) c more
unfolding skip_frame
skip_frame-Dropped zero flen g c [] more fits size calm live enough = (g.rest, g.stored, refl, calm)
skip_frame-Dropped zero flen g c (b ∷ junk) more fits size calm live enough = absurd (omega arith)
skip_frame-Dropped (suc fuel) flen g c [] more fits size calm live enough =
    (g.rest, g.stored, ground arith, calm)
skip_frame-Dropped (suc fuel) flen g c (b ∷ junk) more fits size calm live enough =
    let n = min flen 2048 in
    let input = b ∷ junk ++ more in
    let m =
      read_n_whole g.rest (fed c input) n calm live (omega arith)
        (omega (arith, length-append junk more)) in
    let left = drop-append n (b ∷ junk) more (omega arith) in
    let g' : Got = record { ret = pos (0 + n); stored = take n input; conn = c; rest = m.rest } in
    let nonzero : (flen == 0) ≡ false = ground arith in
    rw (nonzero, m.returns, positive (0 + n) (omega arith), left)
      (skip_frame-Dropped fuel (flen - (0 + n)) g' c (drop n (b ∷ junk)) more (omega arith)
        (omega (arith, length-drop n (b ∷ junk))) m.calm live (omega (arith, m.spent)))

read_body-oversized :
    (len : ℕ) (g : Got)
    → 2148 < len % 4096
    → read_body len g ≡ skip_frame (len % 4096) (len % 4096) (record g { stored = [] })
unfolding read_body
read_body-oversized len g h = rw (bit_and_0fff len, lt→ltb 2148 (len % 4096) h)

-- A frame whose size is over the reader's buffer, with any flags, is reported as a bad frame; the
-- payload that its header announces, and nothing more, is taken from the stream.
pub oversized-Dropped :
    (uninit : Bytes) (es : List Event) (c : Conn) (len : ℕ) (junk more : Bytes)
    → IsCalm es
    → c.canceled ≡ false
    → len < 2 ^ 16
    → 2148 < len % 4096
    → length junk ≡ len % 4096
    → length junk + 2 ≤ supply es
    → Dropped (tcp_read uninit es (fed c (htons len ++ junk ++ more))) c more
oversized-Dropped uninit es c len junk more calm live small large size enough =
    let h = tcp_read-Headed uninit es c len (junk ++ more) calm live (omega arith) small in
    let g : Got = record { ret = pos 2; stored = []; conn = c; rest = h.events } in
    rw (h.goes_on, read_body-oversized len (behind len (fed c (junk ++ more)) h.events) large)
      (skip_frame-Dropped (len % 4096) (len % 4096) g c junk more (omega arith) size h.calm live
        (omega (arith, h.spent)))
