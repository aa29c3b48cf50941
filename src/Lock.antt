-- ===== src/Lock.antt =====
-- lock.c: the lock file of a session, which holds the process that runs it.
--
-- The file system is a function from a path to the content of the file there. What kill(2) answers is
-- a list, `none` where it runs out; `opens` and `writes` say whether the open and the write of
-- `create_lock` succeed. Removing a file succeeds where it stands. `behind` is what the stack holds
-- behind the bytes that `read_lock` reads, and `erange` whether errno is ERANGE after `strtol` of a
-- text, which ends at the first character that is no digit, a NUL or another. The names fit their
-- buffers of 255 bytes. Waiting between two polls changes nothing that the model holds.
pub mod Create
pub mod Exclusive
pub mod Read
pub mod Host
mod Tests
use vtun.Common.{
  ℕ, zero, suc, ◌==◌, [], ◌∷◌, ◌++◌, List, Bytes, Bool, true, false, not, ◌||◌, Option, none, some,
  ◌>>=◌, ℤ, pos, negsuc, ltb_ℤ, ◌==ℤ◌, if◌then◌else◌, take,
}
use vtun.Common.Text.{codes, dec, strtol, to_int}
use vtun.Common.Strings.{equal}
use vtun.Host.{VtunHost, vtun_multi_deny, vtun_multi_allow, vtun_multi_kill}

-- The files by their paths.
abbrev pub Files : Type 0
Files = Bytes → Option Bytes

unfoldable pub put : Bytes → Bytes → Files → Files
put path content fs q = if equal q path then some content else fs q

-- `unlink(path)`
unfoldable pub unlink : Bytes → Files → Files
unlink path fs q = if equal q path then none else fs q

-- `link(old, new)`, which fails where there is a file at the new path.
unfoldable pub link : Bytes → Bytes → Files → Files × ℤ
link old new fs = elim (fs new) [
  | some there ↦ (fs, negsuc 0)
  | none ↦ elim (fs old) [ none ↦ (fs, negsuc 0) | some content ↦ (put new content fs, pos 0) ]
]

abbrev pub tmp_file : ℕ → Bytes → Bytes
tmp_file pid file = file ++ (codes "_" ++ (dec pid ++ codes "_tmp\n"))

-- What a process writes into its lock.
abbrev pub pid_text : ℕ → Bytes
pid_text pid = dec pid ++ 10 ∷ []

unfoldable pub create_lock : ℕ → (opens writes : Bool) → Bytes → Files → Files × ℤ
create_lock pid opens writes file fs =
    let tmp = tmp_file pid file in
    let (linked, ret) = link tmp file (put tmp (pid_text pid) fs) in
    if not opens
    then (fs, negsuc 0)
    else if writes
    then (unlink tmp linked, ret)
    else (unlink tmp (put tmp [] fs), negsuc 0)

-- What kill(2) answers: 0, or -1 with ESRCH or with another error.
pub data Answer : Type 0 where
  sent : Answer
  no_process : Answer
  not_allowed : Answer

abbrev pub next : List Answer → Option (Answer × List Answer)
next [] = none
next (a ∷ es) = some (a, es)

-- `kill(pid, 0)` of `read_lock`: a process that is gone leaves its lock to be removed.
abbrev pub alive_or_remove : Bytes → Files → ℤ → Answer × List Answer → Files × List Answer × ℤ
alive_or_remove file fs pid (no_process, es) = (unlink file fs, es, negsuc 0)
alive_or_remove file fs pid (_, es) = (fs, es, pid)

module _ (erange : Bytes → Bool) (behind : Bytes) where
  -- The text of a lock, cut to the 20 bytes of the buffer and ended.
  abbrev pub lock_text : Bytes → Bytes
  lock_text content = take 19 (take 20 content ++ behind)

  unfoldable pub judge : Bytes → Bytes → Files → List Answer → Option (Files × List Answer × ℤ)
  judge file content fs es =
      let text = lock_text content in
      let pid = to_int (strtol text).0 in
      let checked = next es >>= λ answer. some (alive_or_remove file fs pid answer) in
      if equal content []
      then some (fs, es, negsuc 0)
      else if pid ==ℤ pos 0 || erange text
      then some (unlink file fs, es, negsuc 0)
      else checked

  unfoldable pub read_lock : Bytes → Files → List Answer → Option (Files × List Answer × ℤ)
  read_lock file fs es = elim (fs file) [
    | none ↦ some (fs, es, negsuc 0)
    | some content ↦ judge file content fs es
  ]

-- Up to ten times half a second for the old process to end.
abbrev pub wait_dead : ℕ → List Answer → Option (List Answer)
wait_dead zero es = some es
wait_dead (suc n) [] = none
wait_dead (suc n) (sent ∷ es) = wait_dead n es
wait_dead (suc n) (_ ∷ es) = some es

-- A process that outlives this is killed, and its lock removed.
abbrev pub remove_killed : Bytes → Files → Answer × List Answer → Files × List Answer
remove_killed file fs (sent, es) = (unlink file fs, es)
remove_killed file fs (_, es) = (fs, es)

-- The end of an old session: the files, and whether the new one may go on.
abbrev pub after_term : Bytes → Files → Answer × List Answer → Option (Files × List Answer × Bool)
after_term file fs (not_allowed, es) = some (fs, es, false)
after_term file fs (_, es) = do
  left ← wait_dead 10 es
  answer ← next left
  some ((remove_killed file fs answer).0, (remove_killed file fs answer).1, true)

unfoldable pub kill_old : Bytes → Files → List Answer → Option (Files × List Answer × Bool)
kill_old file fs es = next es >>= after_term file fs

module _ (dir : Bytes) (erange : Bytes → Bool) (behind : Bytes) (pid : ℕ)
    (opens writes : Bool) where
  abbrev pub lock_file : VtunHost → Bytes
  lock_file host = dir ++ (codes "/" ++ host.host)

  abbrev pub created : Bytes → Files × List Answer → Files × List Answer × ℤ
  created file (fs, es) = let made = create_lock pid opens writes file fs in (made.0, es, made.1)

  -- An old process that is alive.
  unfoldable pub lock_alive : VtunHost → Files → List Answer → Option (Files × List Answer × ℤ)
  lock_alive host fs es =
      let file = lock_file host in
      let killed = kill_old file fs es >>= λ k.
      some (if k.2 then created file (k.0, k.1) else (k.0, k.1, negsuc 0)) in
      if host.multi == vtun_multi_kill
      then killed
      else if host.multi == vtun_multi_deny
      then some (fs, es, negsuc 0)
      else some (created file (fs, es))

  unfoldable pub lock_host : VtunHost → Files → List Answer → Option (Files × List Answer × ℤ)
  lock_host host fs es =
      let file = lock_file host in
      let locked = read_lock erange behind file fs es >>= λ r.
      if ltb_ℤ (pos 0) r.2 then lock_alive host r.0 r.1 else some (created file (r.0, r.1)) in
      if host.multi == vtun_multi_allow then some (fs, es, pos 0) else locked

  unfoldable pub unlock_host : VtunHost → Files → Files
  unlock_host host fs = if host.multi == vtun_multi_allow then fs else unlink (lock_file host) fs
