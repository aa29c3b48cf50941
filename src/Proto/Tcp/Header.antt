-- ===== src/Proto/Tcp/Header.antt =====
-- How `tcp_read` goes on behind a header that arrived whole.
use vtun.Common.{
  ℕ, ◌+◌, ◌%◌, ◌^◌, ◌≤◌, ◌<◌, ◌≡◌, ap, false, List, [], ◌++◌, some, Bytes, pos, arith,
}
use vtun.Common.Masks.{bit_and_0fff, bit_and_fffff000}
use vtun.Io.{Event, Conn, Got, read_n}
use vtun.Io.Whole.{IsCalm, supply, read_n_whole}
use vtun.Proto.Tcp.{htons, ntohs, tcp_read, read_body}

pub ntohs-htons : (len : ℕ) (rest : Bytes) → len < 2 ^ 16 → ntohs (htons len ++ rest) ≡ len
ntohs-htons len rest h = omega arith

-- The connection with `input` still to come.
abbrev pub fed : Conn → Bytes → Conn
fed c input = record c { input = input }

-- The state behind the two bytes of a header.
abbrev pub behind : ℕ → Conn → List Event → Got
behind len c es = record { ret = pos 2; stored = htons len; conn = c; rest = es }

pub record Headed (uninit : Bytes) (es : List Event) (c : Conn) (len : ℕ) (rest : Bytes)
    : Type 0 where
  pub events : List Event
  pub calm : IsCalm events
  pub spent : supply es ≤ supply events + 2
  pub goes_on :
      tcp_read uninit es (fed c (htons len ++ rest))
      ≡ read_body len (behind len (fed c rest) events)

-- A header that arrived whole is read back, and its body comes next.
pub tcp_read-Headed :
    (uninit : Bytes) (es : List Event) (c : Conn) (len : ℕ) (rest : Bytes)
    → IsCalm es
    → c.canceled ≡ false
    → 2 ≤ supply es
    → len < 2 ^ 16
    → Headed uninit es c len rest
unfolding tcp_read
tcp_read-Headed uninit es c len rest calm live enough small =
    let m = read_n_whole es (fed c (htons len ++ rest)) 2 calm live enough (omega arith) in
    record {
      events = m.rest;
      calm = m.calm;
      spent = m.spent;
      goes_on =
          rw (m.returns, tcp_read)
            (ap (λ n. read_body n (behind len (fed c rest) m.rest)) (ntohs-htons len uninit small));
    }

-- A body of plain data is read whole.
pub read_body-data : (len : ℕ) (g : Got) → len ≤ 2148 → read_body len g ≡ read_n g.rest g.conn len
unfolding read_body
read_body-data len g h = ground (arith, bit_and_0fff len, bit_and_fffff000 len (omega arith))

-- A header with a flag is returned, and nothing behind it is read.
pub read_body-flags :
    (len : ℕ) (g : Got)
    → len < 2 ^ 16
    → 4096 ≤ len
    → len % 4096 ≤ 2148
    → read_body len g ≡ some (record g { ret = pos len; stored = [] })
unfolding read_body
read_body-flags len g small flagged h = ground (arith, bit_and_0fff len, bit_and_fffff000 len small)
