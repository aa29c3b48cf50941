-- ===== src/Tunnel/Child.antt =====
-- tunnel.c: how the child of `tunnel` puts its standard input, output and error on the device before it
-- runs the list `up`.
--
-- A table says which open file a descriptor stands for, by a number for the file. `open` and `dup`
-- take the lowest descriptor that is free below `limit`, and fail where there is none.
use vtun.Common.{ℕ, zero, suc, ◌==◌, Bool, Option, none, some, if◌then◌else◌}

abbrev pub Table : Type 0
Table = ℕ → Option ℕ

abbrev pub set_fd : ℕ → Option ℕ → Table → Table
set_fd fd file t k = if k == fd then file else t k

abbrev pub close_fd : ℕ → Table → Table
close_fd fd t = set_fd fd none t

-- From `n` on, `fuel` descriptors.
unfoldable pub search_free : (fuel n : ℕ) → Table → Option ℕ
search_free zero n t = none
search_free (suc fuel) n t = elim (t n) [ none ↦ some n | some file ↦ search_free fuel (suc n) t ]

abbrev pub lowest : ℕ → Table → Option ℕ
lowest limit t = search_free limit 0 t

abbrev pub opened_at : (file : ℕ) → Table → Option ℕ → Option (ℕ × Table)
opened_at file t none = none
opened_at file t (some fd) = some (fd, set_fd fd (some file) t)

unfoldable pub open_file : (limit file : ℕ) → Table → Option (ℕ × Table)
unfolding search_free
open_file limit file t = opened_at file t (lowest limit t)

abbrev pub put_file : ℕ → Table → Option ℕ → Table
put_file file t none = t
put_file file t (some fd) = set_fd fd (some file) t

abbrev pub copied : ℕ → Table → Option ℕ → Table
copied limit t none = t
copied limit t (some file) = put_file file t (lowest limit t)

-- The table is unchanged where the call fails.
unfoldable pub dup : (limit fd : ℕ) → Table → Table
unfolding search_free
dup limit fd t = copied limit t (t fd)

-- From `close(fd[0])` on; `null_fd` could be opened or not.
unfoldable pub redirect : (limit fd0 fd1 : ℕ) → (null_fd : Option ℕ) → Table → Table
unfolding dup
redirect limit fd0 fd1 null_fd t =
    let on_in = dup limit fd1 (close_fd 0 (close_fd fd0 t)) in
    let on_out = close_fd fd1 (dup limit fd1 (close_fd 1 on_in)) in
    let no_err = close_fd 2 on_out in
    elim null_fd [ none ↦ no_err | some n ↦ close_fd n (dup limit n no_err) ]

abbrev pub with_null : (limit fd0 fd1 : ℕ) → Table → Option (ℕ × Table) → Table
with_null limit fd0 fd1 t none = redirect limit fd0 fd1 none t
with_null limit fd0 fd1 t (some (n, u)) = redirect limit fd0 fd1 (some n) u

-- From the open of /dev/null on, where the flags name a pipe, whose other end is `fd1`.
unfoldable pub pipe_child : (limit null_file fd0 fd1 : ℕ) → Table → Table
unfolding open_file redirect
pipe_child limit null_file fd0 fd1 t = with_null limit fd0 fd1 t (open_file limit null_file t)

abbrev pub with_slave : (limit null_file fd0 : ℕ) → Option (ℕ × Table) → Option Table
with_slave limit null_file fd0 none = none
with_slave limit null_file fd0 (some (fd1, t)) = some (pipe_child limit null_file fd0 fd1 t)

-- A pseudo tty: the slave is opened first. Where the interface was open before the call of `tunnel`
-- the child leaves its descriptors alone. None is the child's `exit(0)`, where the slave cannot be
-- opened, which `openable` says, or there is no descriptor for it.
unfoldable pub tty_child :
    (limit slave null_file : ℕ) → (already_open openable : Bool) → (fd0 : ℕ) → Table → Option Table
unfolding open_file pipe_child
tty_child limit slave null_file already_open openable fd0 t =
    if already_open
    then some t
    else if openable
    then with_slave limit null_file fd0 (open_file limit slave t)
    else none
