-- ===== src/Io/Bound.antt =====
-- `read_n` stays within its buffer.
use vtun.Common.{
  ℕ, ◌+◌, ◌-◌, ◌≤◌, ◌≡◌, true, List, [], ◌∷◌, ◌++◌, some, Bytes, length, take, drop, arith,
  length-append, length-take,
}
use vtun.Io.{Event, moves, again, fails, signal, Conn, Got, read_size, read_loop, read_n}

read_loop-bound :
    (es : List Event) (c : Conn) (len t : ℕ) (stored : Bytes) (g : Got)
    → read_loop es c len t stored ≡ some g
    → length g.stored ≤ length stored + len
unfolding read_loop
read_loop-bound [] c len t stored g e = ground arith
read_loop-bound (again ∷ es) c len t stored g e =
    ground (arith, read_loop-bound es c len t stored g)
read_loop-bound (signal ∷ es) c len t stored g e =
    ground (arith, read_loop-bound es (record c { canceled = true }) len t stored g)
read_loop-bound (fails ∷ es) c len t stored g e = ground arith
read_loop-bound (moves k ∷ es) c len t stored g e =
    let w = read_size k len c.input in
    ground (
      arith,
      read_loop-bound es (record c { input = drop w c.input }) (len - w) (t + w)
          (stored ++ take w c.input) g,
      length-append stored (take w c.input),
      length-take w c.input,
    )

-- `read_n` stores no more than it was asked for.
pub read_n-bound :
    (es : List Event) (c : Conn) (len : ℕ) (g : Got)
    → read_n es c len ≡ some g
    → length g.stored ≤ len
unfolding read_n
read_n-bound es c len g e = omega (arith, read_loop-bound es c len 0 [] g e)
