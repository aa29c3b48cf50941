-- ===== src/Lock/Host.antt =====
-- `lock_host` and `unlock_host`: every call returns, and who may lock a session.
use vtun.Common.{
  ℕ, zero, suc, ◌+◌, ◌^◌, ◌==◌, ◌≡◌, ◌<◌, ◌≤◌, inl, inr, ◌∙◌, refl, ap, sym, [], ◌∷◌, List, Bytes,
  Bool, true, false, Option, none, some, Option-cases, ◌>>=◌, ℤ, pos, negsuc, ltb_ℤ, if◌then◌else◌,
  length, arith,
}
use vtun.Common.Text.{strtol, to_int}
use vtun.Host.{vtun_multi_deny, vtun_multi_allow, vtun_multi_kill, VtunHost}
use vtun.Lock.{
  Files, unlink, tmp_file, pid_text, create_lock, Answer, sent, no_process, not_allowed,
  alive_or_remove, next, lock_text, judge, read_lock, wait_dead, remove_killed, kill_old, lock_file,
  lock_alive, lock_host, unlock_host,
}
use vtun.Lock.Create.{tmp_file-ne, Leaves, create_lock-Leaves, unlink_self, unlink_other}
use vtun.Lock.Read.{read_lock-create_lock}

wait_dead-some :
    (n : ℕ) (es : List Answer)
    → n < length es
    → (a : Answer) × (left : List Answer) × (wait_dead n es ≡ some (a ∷ left))
wait_dead-some zero [] h = absurd (omega arith)
wait_dead-some zero (a ∷ es) h = (a, es, refl)
wait_dead-some (suc n) [] h = absurd (omega arith)
wait_dead-some (suc n) (sent ∷ es) h = wait_dead-some n es (omega arith)
wait_dead-some (suc n) (no_process ∷ []) h = absurd (omega arith)
wait_dead-some (suc n) (no_process ∷ a ∷ es) h = (a, es, refl)
wait_dead-some (suc n) (not_allowed ∷ []) h = absurd (omega arith)
wait_dead-some (suc n) (not_allowed ∷ a ∷ es) h = (a, es, refl)

-- A result that is there, with what holds of it.
abbrev Yields : (A : Type 0) → Option A → (A → Type 0) → Type 0
Yields A o P = (a : A) × (o ≡ some a) × P a

branch :
    (A : Type 0) (P : A → Type 0) (b : Bool) (o p : Option A)
    → Yields A o P
    → Yields A p P
    → Yields A (if b then o else p) P
branch A P true o p h k = h
branch A P false o p h k = k

bind :
    (A B : Type 0) (P : A → Type 0) (Q : B → Type 0) (o : Option A) (f : A → Option B)
    → Yields A o P
    → ((a : A) → P a → Yields B (f a) Q)
    → Yields B (o >>= f) Q
bind A B P Q o f (a, e, h) k =
    let (b, found, holds) = k a h in (b, ap (λ z. z >>= f) e ∙ found, holds)

abbrev Any : {A : Type 0} → A → Type 0
Any a = Unit

waited :
    (file : Bytes) (fs : Files) (es : List Answer)
    → 10 < length es
    → Yields
        (Files × List Answer × Bool)
        (wait_dead 10 es >>= λ left. next left >>= λ answer.
          some ((remove_killed file fs answer).0, (remove_killed file fs answer).1, true))
        Any
waited file fs es h =
    let (a, left, e) = wait_dead-some 10 es h in
    let end = remove_killed file fs (a, left) in
    (
      (end.0, end.1, true),
      ap
          (λ z. z >>= λ l. next l >>= λ answer.
            some ((remove_killed file fs answer).0, (remove_killed file fs answer).1, true))
          e,
      tt,
    )

kill_old-some :
    (file : Bytes) (fs : Files) (es : List Answer)
    → 11 < length es
    → Yields (Files × List Answer × Bool) (kill_old file fs es) Any
unfolding kill_old
kill_old-some file fs [] h = absurd (omega arith)
kill_old-some file fs (sent ∷ es) h = waited file fs es (omega arith)
kill_old-some file fs (no_process ∷ es) h = waited file fs es (omega arith)
kill_old-some file fs (not_allowed ∷ es) h = ((fs, es, false), refl, tt)

alive_or_remove-rest :
    (file : Bytes) (fs : Files) (n : ℤ) (a : Answer) (es : List Answer)
    → (alive_or_remove file fs n (a, es)).1 ≡ es
alive_or_remove-rest file fs n sent es = refl
alive_or_remove-rest file fs n no_process es = refl
alive_or_remove-rest file fs n not_allowed es = refl

module _ (erange : Bytes → Bool) (behind : Bytes) where
  -- One answer is used at most.
  abbrev Reads : List Answer → Files × List Answer × ℤ → Type 0
  Reads es r = length es ≤ length r.1 + 1

  judge-some :
      (file content : Bytes) (fs : Files) (es : List Answer)
      → 0 < length es
      → Yields (Files × List Answer × ℤ) (judge erange behind file content fs es) (Reads es)
  unfolding judge
  judge-some file content fs [] h = absurd (omega arith)
  judge-some file content fs (a ∷ es) h =
      let n = to_int (strtol (lock_text erange behind content)).0 in
      let R : Type 0 = Files × List Answer × ℤ in
      branch R (Reads (a ∷ es)) _ _ _ ((fs, a ∷ es, negsuc 0), refl, omega arith)
        (branch R (Reads (a ∷ es)) _ _ _ ((unlink file fs, a ∷ es, negsuc 0), refl, omega arith)
          (
            alive_or_remove file fs n (a, es),
            refl,
            omega (arith, ap (λ z. length z) (alive_or_remove-rest file fs n a es)),
          ))

  read_lock-some :
      (file : Bytes) (fs : Files) (es : List Answer)
      → 0 < length es
      → Yields (Files × List Answer × ℤ) (read_lock erange behind file fs es) (Reads es)
  unfolding read_lock
  read_lock-some file fs es h = elim (Option-cases (fs file)) [
    | inl free ↦ rw (free, read_lock) ((fs, es, negsuc 0), refl, omega arith)
    | inr (content, taken) ↦ rw (taken, read_lock) (judge-some file content fs es h)
  ]

module _ (dir : Bytes) (erange : Bytes → Bool) (behind : Bytes) (pid : ℕ)
    (opens writes : Bool) where
  lock_alive-some :
      (host : VtunHost) (fs : Files) (es : List Answer)
      → 11 < length es
      → Yields
          (Files × List Answer × ℤ)
          (lock_alive dir erange behind pid opens writes host fs es)
          Any
  unfolding lock_alive
  lock_alive-some host fs es h =
      branch _ Any _ _ _
        (bind _ _ Any Any (kill_old (lock_file dir erange behind pid opens writes host) fs es) _
          (kill_old-some _ fs es h) (λ k any. (_, refl, tt)))
        (branch _ Any _ _ _ (_, refl, tt) (_, refl, tt))

  -- `lock_host` always returns: whatever the files hold and whatever kill(2) answers, it asks at most
  -- 13 times, once for the process of an old lock and up to 12 times to end it.
  pub lock_host-returns :
      (host : VtunHost) (fs : Files) (es : List Answer)
      → 13 ≤ length es
      → (r : Files × List Answer × ℤ) × (lock_host dir erange behind pid opens writes host fs es
          ≡ some r)
  unfolding lock_host
  lock_host-returns host fs es h =
      let whole : Yields (Files × List Answer × ℤ)
          (lock_host dir erange behind pid opens writes host fs es) Any =
        branch _ Any _ _ _ (_, refl, tt)
          (bind _ _ (Reads erange behind es) Any
            (read_lock erange behind (lock_file dir erange behind pid opens writes host) fs es) _
            (read_lock-some erange behind (lock_file dir erange behind pid opens writes host) fs es
              (omega arith))
            (λ r reads.
              branch _ Any _ _ _ (lock_alive-some host r.0 r.1 (omega arith)) (_, refl, tt))) in
      (whole.0, whole.1)

  -- While the process that locked a session is alive, a second `lock_host` for a session that allows no
  -- other is refused, and the lock and all files stay as they are.
  pub lock_host-denied :
      (owner : ℕ) (host : VtunHost) (fs fs' : Files) (es : List Answer)
      → host.multi ≡ vtun_multi_deny
      → 0 < owner
      → owner < 2 ^ 31
      → erange (lock_text erange behind (pid_text owner)) ≡ false
      → create_lock owner true true (lock_file dir erange behind pid opens writes host) fs
        ≡ (fs', pos 0)
      → lock_host dir erange behind pid opens writes host fs' (sent ∷ es) ≡ some (fs', es, negsuc 0)
  unfolding lock_host lock_alive
  lock_host-denied owner host fs fs' es deny some_owner small in_range made =
      let file = lock_file dir erange behind pid opens writes host in
      let (found, _, _) =
        read_lock-create_lock erange behind owner file fs fs' es some_owner small in_range made in
      let not_allow : (host.multi == vtun_multi_allow) ≡ false = ground (arith, deny) in
      let not_kill : (host.multi == vtun_multi_kill) ≡ false = ground (arith, deny) in
      let is_deny : (host.multi == vtun_multi_deny) ≡ true = ground (arith, deny) in
      let positive : ltb_ℤ (pos 0) (pos owner) ≡ true = ground arith in
      rw (not_allow, lock_host, found, positive, not_kill, lock_alive, is_deny, if◌then◌else◌) refl

module _ (dir : Bytes) (erange : Bytes → Bool) (behind : Bytes) (pid : ℕ) where
  -- Where a session has no lock and is not one that several may use, `lock_host` gets the lock without
  -- asking about any process, and `unlock_host` then takes it away again: no file is left of it, and every
  -- other file is what it was.
  pub unlock_host-lock_host :
      (host : VtunHost) (fs : Files) (es : List Answer)
      → (host.multi == vtun_multi_allow) ≡ false
      → fs (lock_file dir erange behind pid true true host) ≡ none
      → (fs' : Files) × (lock_host dir erange behind pid true true host fs es
          ≡ some (fs', es, pos 0))
        × (fs' (lock_file dir erange behind pid true true host) ≡ some (pid_text pid))
        × Leaves pid
            (lock_file dir erange behind pid true true host)
            fs
            (unlock_host dir erange behind pid true true host fs')
            none
  unfolding lock_host unlock_host read_lock
  unlock_host-lock_host host fs es not_allow free =
      let file = lock_file dir erange behind pid true true host in
      let none_alive : ltb_ℤ (pos 0) (negsuc 0) ≡ false = refl in
      let reads : read_lock erange behind file fs es ≡ some (fs, es, negsuc 0) =
        rw (free, read_lock) refl in
      elim (create_lock-Leaves pid file fs) [
        | inl (none_there, fs', made, leaves) ↦ (
          fs',
          rw (not_allow, lock_host, reads, made, if◌then◌else◌) refl,
          leaves.lock,
          rw (not_allow, unlock_host, if◌then◌else◌)
              (record {
                lock = unlink_self file fs';
                tmp =
                    unlink_other file fs' (tmp_file pid file) (λ e. tmp_file-ne pid file (sym e))
                    ∙ leaves.tmp;
                others = λ q here there. unlink_other file fs' q here ∙ leaves.others q here there;
              }),
        )
        | inr (c, taken, _, _, _) ↦ ground (arith, free, taken)
      ]
