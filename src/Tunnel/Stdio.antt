-- ===== src/Tunnel/Stdio.antt =====
-- The standard streams of the commands that the child of `tunnel` runs.
use vtun.Common.{
  false, ℕ, zero, suc, ◌≤◌, ◌==◌, ◌≡◌, ◌≢◌, refl, sym, ap, ◌∙◌, subst, inl, inr, true, Option, none,
  some, Option-cases, Bool-cases, arith,
}
use mathlib.Core.Option
use vtun.Tunnel.Child.{
  Table, set_fd, close_fd, search_free, lowest, open_file, put_file, copied, dup, redirect,
  opened_at, with_null, with_slave, pipe_child, tty_child,
}

-- The descriptor that is found is free, and all below it, from `n` on, are taken.
search_free-free : (fuel n k : ℕ) (t : Table) → search_free fuel n t ≡ some k → t k ≡ none
unfolding search_free
search_free-free zero n k t e = absurd (Option.none-ne-some k e)
search_free-free (suc fuel) n k t e = elim (Option-cases (t n)) [
  | inl free ↦
      let found : search_free (suc fuel) n t ≡ some n = rw (free, search_free) refl in
      subst (λ z. t z ≡ none) (Option.some-injective n k (sym found ∙ e)) free
  | inr (file, taken) ↦
      let goes_on : search_free (suc fuel) n t ≡ search_free fuel (suc n) t =
        rw (taken, search_free) refl in
      search_free-free fuel (suc n) k t (sym goes_on ∙ e)
]

lowest-0 : (limit : ℕ) (t : Table) → 1 ≤ limit → t 0 ≡ none → lowest limit t ≡ some 0
unfolding search_free
lowest-0 zero t h free = absurd (omega arith)
lowest-0 (suc limit) t h free = rw (free, search_free) refl

lowest-1 :
    (limit a : ℕ) (t : Table) → 2 ≤ limit → t 0 ≡ some a → t 1 ≡ none → lowest limit t ≡ some 1
unfolding search_free
lowest-1 zero a t h taken free = absurd (omega arith)
lowest-1 (suc zero) a t h taken free = absurd (omega arith)
lowest-1 (suc (suc limit)) a t h taken free = rw (taken, free, search_free) refl

lowest-2 :
    (limit a b : ℕ) (t : Table)
    → 3 ≤ limit
    → t 0 ≡ some a
    → t 1 ≡ some b
    → t 2 ≡ none
    → lowest limit t ≡ some 2
unfolding search_free
lowest-2 zero a b t h x y free = absurd (omega arith)
lowest-2 (suc zero) a b t h x y free = absurd (omega arith)
lowest-2 (suc (suc zero)) a b t h x y free = absurd (omega arith)
lowest-2 (suc (suc (suc limit))) a b t h x y free = rw (x, y, free, search_free) refl

dup-to :
    (limit fd k file : ℕ) (t : Table)
    → t fd ≡ some file
    → lowest limit t ≡ some k
    → dup limit fd t ≡ set_fd k (some file) t
unfolding dup
dup-to limit fd k file t there free = ap (copied limit t) there ∙ ap (put_file file t) free

-- The table that `redirect` leaves.
abbrev on_in : (fd0 slave : ℕ) → Table → Table
on_in fd0 slave t = set_fd 0 (some slave) (close_fd 0 (close_fd fd0 t))

abbrev on_out : (fd0 slave : ℕ) → Table → Table
on_out fd0 slave t = set_fd 1 (some slave) (close_fd 1 (on_in fd0 slave t))

abbrev no_err : (fd0 fd1 slave : ℕ) → Table → Table
no_err fd0 fd1 slave t = close_fd 2 (close_fd fd1 (on_out fd0 slave t))

abbrev on_err : (fd0 fd1 n slave null_file : ℕ) → Table → Table
on_err fd0 fd1 n slave null_file t = close_fd n (set_fd 2 (some null_file) (no_err fd0 fd1 slave t))

redirect-on_err :
    (limit fd0 fd1 n slave null_file : ℕ) (t : Table)
    → 3 ≤ limit
    → 3 ≤ fd0
    → 3 ≤ fd1
    → 3 ≤ n
    → fd0 ≢ fd1
    → fd0 ≢ n
    → fd1 ≢ n
    → t fd1 ≡ some slave
    → t n ≡ some null_file
    → redirect limit fd0 fd1 (some n) t ≡ on_err fd0 fd1 n slave null_file t
unfolding redirect
redirect-on_err limit fd0 fd1 n slave null_file t l h0 h1 hn d01 d0n d1n there null_there =
    let first : dup limit fd1 (close_fd 0 (close_fd fd0 t)) ≡ on_in fd0 slave t =
      dup-to limit fd1 0 slave _ (ground (arith, there, d01, h1))
        (lowest-0 limit _ (omega arith) refl) in
    let second : dup limit fd1 (close_fd 1 (on_in fd0 slave t)) ≡ on_out fd0 slave t =
      dup-to limit fd1 1 slave _ (ground (arith, there, d01, h1))
        (lowest-1 limit slave _ (omega arith) refl refl) in
    let third : dup limit n (no_err fd0 fd1 slave t)
        ≡ set_fd 2 (some null_file) (no_err fd0 fd1 slave t) =
      dup-to limit n 2 null_file _ (ground (arith, null_there, d0n, d1n, hn))
        (lowest-2 limit slave slave _ l (ground (arith, h1)) (ground (arith, h1)) refl) in
    rw (first, redirect, second, third) refl

-- The standard streams of `r` are the file `slave` and, for errors, the file `null_file`; the descriptors
-- `fd0` and `fd1` are closed, and all others above the streams are those of `t`.
pub record Wired (t r : Table) (fd0 fd1 slave null_file : ℕ) : Type 0 where
  pub input : r 0 ≡ some slave
  pub output : r 1 ≡ some slave
  pub error : r 2 ≡ some null_file
  pub closed0 : r fd0 ≡ none
  pub closed1 : r fd1 ≡ none
  pub others : (k : ℕ) → 3 ≤ k → k ≢ fd0 → k ≢ fd1 → r k ≡ t k

-- The standard streams are open.
pub record HasStreams (t : Table) : Type 0 where
  pub file0 : ℕ
  pub file1 : ℕ
  pub file2 : ℕ
  pub input : t 0 ≡ some file0
  pub output : t 1 ≡ some file1
  pub error : t 2 ≡ some file2

above_streams : (k : ℕ) (t : Table) → HasStreams t → t k ≡ none → 3 ≤ k
above_streams zero t s free = absurd (ground (arith, s.input, free))
above_streams (suc zero) t s free = absurd (ground (arith, s.output, free))
above_streams (suc (suc zero)) t s free = absurd (ground (arith, s.error, free))
above_streams (suc (suc (suc k))) t s free = omega arith

opened_at-free :
    (limit file fd : ℕ) (t u : Table) (o : Option ℕ)
    → lowest limit t ≡ o
    → opened_at file t o ≡ some (fd, u)
    → (t fd ≡ none) × (u ≡ set_fd fd (some file) t)
opened_at-free limit file fd t u none l e = absurd (Option.none-ne-some (fd, u) e)
opened_at-free limit file fd t u (some k) l e =
    let both = Option.some-injective (k, set_fd k (some file) t) (fd, u) e in
    let same = ap (λ (z : ℕ × Table). z.0) both in
    (
      subst (λ z. t z ≡ none) same (search_free-free limit 0 k t l),
      sym (ap (λ (z : ℕ × Table). z.1) both) ∙ ap (λ z. set_fd z (some file) t) same,
    )

-- A file that is opened stands at a descriptor that was free.
open_file-free :
    (limit file fd : ℕ) (t u : Table)
    → open_file limit file t ≡ some (fd, u)
    → (t fd ≡ none) × (u ≡ set_fd fd (some file) t)
unfolding open_file
open_file-free limit file fd t u e = opened_at-free limit file fd t u (lowest limit t) refl e

on_err-Wired :
    (slave null_file fd0 fd1 n : ℕ) (t : Table)
    → 3 ≤ fd0
    → 3 ≤ fd1
    → 3 ≤ n
    → fd0 ≢ fd1
    → t n ≡ none
    → Wired t
        (on_err fd0 fd1 n slave null_file (set_fd n (some null_file) t))
        fd0
        fd1
        slave
        null_file
on_err-Wired slave null_file fd0 fd1 n t h0 h1 hn d01 free = record {
  input = ground (arith, h1, hn);
  output = ground (arith, h1, hn);
  error = ground (arith, h1, hn);
  closed0 = ground (arith, h0);
  closed1 = ground (arith, h1);
  others = λ k hk k0 k1. elim (Bool-cases (k == n)) [
    | inl e ↦
        let same : n ≡ k = ground (arith, e) in
        let gone : t k ≡ none = subst (λ z. t z ≡ none) same free in ground (arith, e, gone)
    | inr e ↦ ground (arith, e, hk, k0, k1)
  ];
}

pub pipe_child-Wired :
    (limit slave null_file fd0 fd1 n : ℕ) (t u : Table)
    → 3 ≤ limit
    → HasStreams t
    → 3 ≤ fd0
    → 3 ≤ fd1
    → fd0 ≢ fd1
    → t fd0 ≢ none
    → t fd1 ≡ some slave
    → open_file limit null_file t ≡ some (n, u)
    → Wired t (pipe_child limit null_file fd0 fd1 t) fd0 fd1 slave null_file
unfolding pipe_child
pipe_child-Wired limit slave null_file fd0 fd1 n t u l std h0 h1 d01 taken there opened =
    let (free, same) = open_file-free limit null_file n t u opened in
    let hn = above_streams n t std free in
    let d0n : fd0 ≢ n = λ e. taken (subst (λ z. t z ≡ none) (sym e) free) in
    let d1n : fd1 ≢ n =
      λ e. Option.none-ne-some slave (sym free ∙ subst (λ z. t z ≡ some slave) e there) in
    let u' = set_fd n (some null_file) t in
    let ends : pipe_child limit null_file fd0 fd1 t ≡ on_err fd0 fd1 n slave null_file u' =
      ap (with_null limit fd0 fd1 t) opened
      ∙ ap (λ z. redirect limit fd0 fd1 (some n) z) same
      ∙ redirect-on_err limit fd0 fd1 n slave null_file u' l h0 h1 hn d01 d0n d1n
          (ground (arith, there, d1n)) (ground arith) in
    subst (λ r. Wired t r fd0 fd1 slave null_file) (sym ends)
      (on_err-Wired slave null_file fd0 fd1 n t h0 h1 hn d01 free)

-- The child of a session on a pseudo tty, whose process has its standard streams and the master `fd0`.
-- Where the interface was open before the call, the descriptors stay as they are. Where it was not, the
-- slave can be opened, and there are descriptors for it and for /dev/null, the commands read from and
-- write to the slave, their errors go to /dev/null, the master is closed, the descriptor that the slave
-- was opened at is free again, and every other descriptor above the streams is what it was.
pub tty_child-Wired :
    (limit slave null_file fd0 fd1 n : ℕ) (t u v : Table)
    → 3 ≤ limit
    → HasStreams t
    → 3 ≤ fd0
    → t fd0 ≢ none
    → open_file limit slave t ≡ some (fd1, u)
    → open_file limit null_file u ≡ some (n, v)
    → (tty_child limit slave null_file true true fd0 t ≡ some t)
      × (r : Table) × (tty_child limit slave null_file false true fd0 t ≡ some r)
      × Wired t r fd0 fd1 slave null_file
      × (t fd1 ≡ none)
unfolding tty_child
tty_child-Wired limit slave null_file fd0 fd1 n t u v l std h0 taken opened null_opened =
    let (free, same) = open_file-free limit slave fd1 t u opened in
    let h1 = above_streams fd1 t std free in
    let d01 : fd0 ≢ fd1 = λ e. taken (subst (λ z. t z ≡ none) (sym e) free) in
    let at : (k : ℕ) → u k ≡ set_fd fd1 (some slave) t k = λ k. ap (λ z. z k) same in
    let streams : HasStreams u = record {
      file0 = std.file0;
      file1 = std.file1;
      file2 = std.file2;
      input = at 0 ∙ ground (arith, h1, std.input);
      output = at 1 ∙ ground (arith, h1, std.output);
      error = at 2 ∙ ground (arith, h1, std.error);
    } in
    let master : u fd0 ≡ t fd0 = at fd0 ∙ ground (arith, d01) in
    let r = pipe_child limit null_file fd0 fd1 u in
    let wired =
      pipe_child-Wired limit slave null_file fd0 fd1 n u v l streams h0 h1 d01
        (λ e. taken (sym master ∙ e)) (at fd1 ∙ ground arith) null_opened in
    (
      refl,
      r,
      ap (with_slave limit null_file fd0) opened,
      record {
        input = wired.input;
        output = wired.output;
        error = wired.error;
        closed0 = wired.closed0;
        closed1 = wired.closed1;
        others = λ k hk k0 k1. wired.others k hk k0 k1 ∙ at k ∙ ground (arith, k1);
      },
      free,
    )
