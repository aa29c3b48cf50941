-- ===== src/Lock/Exclusive.antt =====
-- Several processes that lock one session at the same time, by their system calls.
use vtun.Common.{
  ℕ, suc, ◌≡◌, ◌≤◌, ◌⊎◌, inl, inr, ◌∙◌, refl, ap, [], ◌∷◌, List, Bytes, Bool, true, false, some,
  Option-cases, ℤ, pos, negsuc, ◌==ℤ◌, if◌then◌else◌, arith,
}
use vtun.Lock.{Files, put, unlink, link, tmp_file, pid_text, create_lock}
use vtun.Lock.Create.{
  put_self, put_other, unlink_other, tmp_file-ne, link_free, link_gone, link_taken,
}

-- The system calls of `create_lock` that change the file system: the temporary file with the process's
-- number, or without it where the write fails; the link; and the end of the temporary file.
pub data Call : Type 0 where
  writes : Call
  opens : Call
  links : Call
  cleans : Call

-- The calls of several processes in any order: the files, and what the `link` calls answer.
unfoldable pub interleaved : Bytes → List (ℕ × Call) → Files → Files × List ℤ
interleaved file [] fs = (fs, [])
interleaved file ((pid, writes) ∷ more) fs =
    interleaved file more (put (tmp_file pid file) (pid_text pid) fs)
interleaved file ((pid, opens) ∷ more) fs = interleaved file more (put (tmp_file pid file) [] fs)
interleaved file ((pid, links) ∷ more) fs =
    let (left, answers) = interleaved file more (link (tmp_file pid file) file fs).0 in
    (left, (link (tmp_file pid file) file fs).1 ∷ answers)
interleaved file ((pid, cleans) ∷ more) fs = interleaved file more (unlink (tmp_file pid file) fs)

-- The calls of one `create_lock` that could open its temporary file, in order.
abbrev pub calls_of : (pid : ℕ) → (written : Bool) → List (ℕ × Call)
calls_of pid true = (pid, writes) ∷ (pid, links) ∷ (pid, cleans) ∷ []
calls_of pid false = (pid, opens) ∷ (pid, cleans) ∷ []

-- What `create_lock` answers, from what its `link` answered: -1 where it did not come to it.
abbrev pub answer_of : List ℤ → ℤ
answer_of [] = negsuc 0
answer_of (ret ∷ more) = ret

-- How many of them got the lock.
unfoldable pub winners : List ℤ → ℕ
winners [] = 0
winners (ret ∷ more) = let rest = winners more in if ret ==ℤ pos 0 then suc rest else rest

-- A call of `create_lock` is these calls: with nobody between them, they leave the files that it leaves,
-- and answer what it answers.
abbrev pub Alone : Bytes → ℕ → Bool → Files → Type 0
Alone file pid written fs =
    let (left, answers) = interleaved file (calls_of pid written) fs in
    create_lock pid true written file fs ≡ (left, answer_of answers)

create_lock-Alone :
    (file : Bytes) (pid : ℕ) (written : Bool) (fs : Files) → Alone file pid written fs
unfolding interleaved create_lock
create_lock-Alone file pid true fs = refl
create_lock-Alone file pid false fs = refl

link_cases :
    (old new : Bytes) (fs : Files)
    → (((link old new fs).1 ≡ pos 0) × (c : Bytes) × ((link old new fs).0 new ≡ some c))
      ⊎ (((link old new fs).1 ≡ negsuc 0) × ((link old new fs).0 new ≡ fs new))
link_cases old new fs = elim (Option-cases (fs new)) [
  | inl free ↦ elim (Option-cases (fs old)) [
    | inl gone ↦ inr (
      ap (λ z. z.1) (link_gone old new fs free gone),
      ap (λ z. z.0 new) (link_gone old new fs free gone),
    )
    | inr (c, there) ↦ inl (
      ap (λ z. z.1) (link_free old new c fs free there),
      c,
      ap (λ z. z.0 new) (link_free old new c fs free there) ∙ put_self new c fs,
    )
  ]
  | inr (c, taken) ↦ inr (
    ap (λ z. z.1) (link_taken old new c fs taken),
    ap (λ z. z.0 new) (link_taken old new c fs taken),
  )
]

-- While the lock stands, nobody gets it.
taken_none :
    (file : Bytes) (calls : List (ℕ × Call)) (fs : Files) (c : Bytes)
    → fs file ≡ some c
    → winners (interleaved file calls fs).1 ≡ 0
unfolding interleaved winners
taken_none file [] fs c taken = refl
taken_none file ((pid, writes) ∷ more) fs c taken =
    taken_none file more (put (tmp_file pid file) (pid_text pid) fs) c
      (put_other (tmp_file pid file) (pid_text pid) fs file (tmp_file-ne pid file) ∙ taken)
taken_none file ((pid, opens) ∷ more) fs c taken =
    taken_none file more (put (tmp_file pid file) [] fs) c
      (put_other (tmp_file pid file) [] fs file (tmp_file-ne pid file) ∙ taken)
taken_none file ((pid, links) ∷ more) fs c taken =
    rw (link_taken (tmp_file pid file) file c fs taken) (taken_none file more fs c taken)
taken_none file ((pid, cleans) ∷ more) fs c taken =
    taken_none file more (unlink (tmp_file pid file) fs) c
      (unlink_other (tmp_file pid file) fs file (tmp_file-ne pid file) ∙ taken)

-- At most one of the `link` calls gets the lock.
one_winner :
    (file : Bytes) (calls : List (ℕ × Call)) (fs : Files)
    → winners (interleaved file calls fs).1 ≤ 1
unfolding interleaved winners
one_winner file [] fs = omega arith
one_winner file ((pid, writes) ∷ more) fs =
    one_winner file more (put (tmp_file pid file) (pid_text pid) fs)
one_winner file ((pid, opens) ∷ more) fs = one_winner file more (put (tmp_file pid file) [] fs)
one_winner file ((pid, links) ∷ more) fs = elim (link_cases (tmp_file pid file) file fs) [
  | inl (won, c, taken) ↦
      rw (won, taken_none file more (link (tmp_file pid file) file fs).0 c taken) (omega arith)
  | inr (lost, same) ↦ rw lost (one_winner file more (link (tmp_file pid file) file fs).0)
]
one_winner file ((pid, cleans) ∷ more) fs = one_winner file more (unlink (tmp_file pid file) fs)

-- However the system calls of any number of processes in `create_lock` are interleaved, and however
-- many of their writes fail, at most one process gets the lock, as long as nobody removes it. The calls
-- are those of `create_lock`: for every process, whether its write succeeds or not, they leave, with
-- nobody between them, the files that `create_lock` leaves, and answer what it answers.
pub create_lock-exclusive :
    (file : Bytes) (calls : List (ℕ × Call)) (fs : Files) (pid : ℕ) (written : Bool)
    → (winners (interleaved file calls fs).1 ≤ 1) × Alone file pid written fs
create_lock-exclusive file calls fs pid written =
    (one_winner file calls fs, create_lock-Alone file pid written fs)
