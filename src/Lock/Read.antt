-- ===== src/Lock/Read.antt =====
-- What `read_lock` makes of a lock that `create_lock` made, and the stale lock that two processes find.
use vtun.Common.{
  ℕ, zero, suc, ◌+◌, ◌-◌, ◌*◌, ◌/◌, ◌%◌, ◌^◌, ◌≡◌, ◌<◌, ◌≤◌, inl, inr, ◌∙◌, refl, ap, sym, [], ◌∷◌,
  ◌++◌, append_assoc, List, Bytes, Bool, true, false, Bool-cases, some, pos, negsuc, ◌==ℤ◌,
  if◌then◌else◌, ltb, length, length-append, take, take-of_le, take-drop, take-length-append,
  drop-length-append, drop, arith,
}
use vtun.Common.Text.{dec, dec_from, dec_ℤ, strtol, strtol-dec_ℤ, to_int, to_int_self}
use vtun.Common.Strings.{equal}
use vtun.Lock.{
  Files, unlink, pid_text, create_lock, Answer, sent, no_process, not_allowed, alive_or_remove,
  lock_text, judge, read_lock,
}
use vtun.Lock.Create.{create_lock-Leaves, create_free, equal_ne, unlink_self}

length-dec_from : (fuel n k : ℕ) → n < 10 ^ suc k → length (dec_from fuel n) ≤ suc k
unfolding dec_from
length-dec_from zero n k h = omega arith
length-dec_from (suc fuel) n zero h = ground arith
length-dec_from (suc fuel) n (suc k) h =
    let power : 10 ^ suc (suc k) ≡ 10 ^ suc k * 10 = omega arith in
    elim (Bool-cases (ltb n 10)) [
      | inl small ↦ rw (small, if◌then◌else◌) (omega arith)
      | inr large ↦
          rw (large, if◌then◌else◌)
            (omega (
              arith,
              length-append (dec_from fuel (n / 10)) ((b'0' + n % 10) ∷ []),
              length-dec_from fuel (n / 10) k (omega (arith, power, h)),
            ))
    ]

-- A process number is read from what it was written as.
lock_text_eq :
    (erange : Bytes → Bool) (behind : Bytes) (content : Bytes)
    → length content ≤ 19
    → lock_text erange behind content ≡ content ++ take (19 - length content) behind
lock_text_eq erange behind content small =
    let m = length content in
    let sum : 19 ≡ m + (19 - m) = omega arith in
    ap (λ z. take 19 (z ++ behind)) (take-of_le 20 content (omega arith))
    ∙ ap (λ n. take n (content ++ behind)) sum
    ∙ take-drop m (19 - m) (content ++ behind)
    ∙ ap (λ z. z ++ take (19 - m) (drop m (content ++ behind))) (take-length-append content behind)
    ∙ ap (λ z. content ++ take (19 - m) z) (drop-length-append content behind)

pub created_holds :
    (pid : ℕ) (file : Bytes) (fs fs' : Files)
    → create_lock pid true true file fs ≡ (fs', pos 0)
    → fs' file ≡ some (pid_text pid)
created_holds pid file fs fs' made = elim (create_lock-Leaves pid file fs) [
  | inl (free, left, e, leaves) ↦ ap (λ z. z.0 file) (sym made ∙ e) ∙ leaves.lock
  | inr (c, taken, left, e, leaves) ↦
      let other : negsuc 0 ≡ pos 0 = ap (λ z. z.1) (sym e ∙ made) in ground (arith, other)
]

module _ (erange : Bytes → Bool) (behind : Bytes) where
  pid_text-strtol :
      (pid : ℕ)
      → pid < 2 ^ 31
      → to_int (strtol (lock_text erange behind (pid_text pid))).0 ≡ pos pid
  unfolding dec_ℤ dec
  pid_text-strtol pid small =
      let long : length (pid_text pid) ≤ 19 = omega (
        arith,
        length-append (dec pid) (10 ∷ []),
        length-dec_from (suc pid) pid 9 (omega (arith, small)),
      ) in
      let rest = take (19 - length (pid_text pid)) behind in
      ap (λ z. to_int (strtol z).0)
        (lock_text_eq erange behind (pid_text pid) long ∙ append_assoc (dec pid) (10 ∷ []) rest)
      ∙ ap (λ z. to_int z.0) (strtol-dec_ℤ (pos pid) (10 ∷ rest) small refl)
      ∙ to_int_self (pos pid) small

  pid_text-ne : (pid : ℕ) → equal (pid_text pid) [] ≡ false
  pid_text-ne pid =
      equal_ne (pid_text pid) []
        (λ h. omega (arith, length-append (dec pid) (10 ∷ []), ap (λ z. length z) h))

  -- What a process's lock says of it.
  pub judge-pid_text :
      (pid : ℕ) (file : Bytes) (fs : Files) (es : List Answer) (answer : Answer)
      → 0 < pid
      → pid < 2 ^ 31
      → erange (lock_text erange behind (pid_text pid)) ≡ false
      → judge erange behind file (pid_text pid) fs (answer ∷ es)
        ≡ some (alive_or_remove file fs (pos pid) (answer, es))
  unfolding judge
  judge-pid_text pid file fs es answer some_pid small in_range =
      let nonzero : (pos pid ==ℤ pos 0) ≡ false = ground arith in
      rw (pid_text-strtol pid small, judge, pid_text-ne pid, in_range, nonzero, if◌then◌else◌)
        (ap (λ z. some (alive_or_remove file fs z (answer, es))) (pid_text-strtol pid small))

  -- A process that got the lock is the one that `read_lock` finds, while it is alive; the files stay as
  -- they are. Once it is gone, `read_lock` finds nobody and removes the lock.
  pub read_lock-create_lock :
      (pid : ℕ) (file : Bytes) (fs fs' : Files) (es : List Answer)
      → 0 < pid
      → pid < 2 ^ 31
      → erange (lock_text erange behind (pid_text pid)) ≡ false
      → create_lock pid true true file fs ≡ (fs', pos 0)
      → (read_lock erange behind file fs' (sent ∷ es) ≡ some (fs', es, pos pid))
        × (read_lock erange behind file fs' (not_allowed ∷ es) ≡ some (fs', es, pos pid))
        × (read_lock erange behind file fs' (no_process ∷ es)
            ≡ some (unlink file fs', es, negsuc 0))
  unfolding read_lock
  read_lock-create_lock pid file fs fs' es some_pid small in_range made =
      let held : fs' file ≡ some (pid_text pid) = created_holds pid file fs fs' made in
      let finds : (answer : Answer)
          → read_lock erange behind file fs' (answer ∷ es)
            ≡ some (alive_or_remove file fs' (pos pid) (answer, es)) =
        λ answer.
          rw (held, read_lock) (judge-pid_text pid file fs' es answer some_pid small in_range) in
      (finds sent, finds not_allowed, finds no_process)

  -- Two processes that read the lock of a process that is gone, before either of them removes it,
  -- both get the lock: the second removes the lock that the first one made.
  pub stale_race :
      (old p q : ℕ) (file : Bytes) (fs : Files)
      → 0 < old
      → old < 2 ^ 31
      → erange (lock_text erange behind (pid_text old)) ≡ false
      → (judge erange behind file (pid_text old) fs (no_process ∷ [])
          ≡ some (unlink file fs, [], negsuc 0))
        × (fs1 : Files) × (create_lock p true true file (unlink file fs) ≡ (fs1, pos 0))
        × (judge erange behind file (pid_text old) fs1 (no_process ∷ [])
            ≡ some (unlink file fs1, [], negsuc 0))
        × (fs2 : Files) × (create_lock q true true file (unlink file fs1) ≡ (fs2, pos 0))
        × (fs2 file ≡ some (pid_text q))
  stale_race old p q file fs some_pid small in_range =
      let first = create_free p file (unlink file fs) (unlink_self file fs) in
      let fs1 = (create_lock p true true file (unlink file fs)).0 in
      let second = create_free q file (unlink file fs1) (unlink_self file fs1) in
      let fs2 = (create_lock q true true file (unlink file fs1)).0 in
      let won : create_lock p true true file (unlink file fs) ≡ (fs1, pos 0) =
        ap (λ z. (fs1, z.1)) first in
      let won_too : create_lock q true true file (unlink file fs1) ≡ (fs2, pos 0) =
        ap (λ z. (fs2, z.1)) second in
      (
        judge-pid_text old file fs [] no_process some_pid small in_range,
        fs1,
        won,
        judge-pid_text old file fs1 [] no_process some_pid small in_range,
        fs2,
        won_too,
        created_holds q file (unlink file fs1) fs2 won_too,
      )
