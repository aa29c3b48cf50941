-- ===== src/Lock/Create.antt =====
-- What `create_lock` leaves in the file system, and that one process at most gets the lock.
use vtun.Common.{
  ℕ, suc, ◌+◌, ◌≡◌, ◌≢◌, ◌⊎◌, inl, inr, ◌∙◌, refl, ap, ◌++◌, Bytes, true, false, Bool-cases, Option,
  none, some, Option-cases, pos, negsuc, length, length-append, arith,
}
use vtun.Common.Text.{codes, dec}
use vtun.Common.Strings.{equal, equal_refl, equal_eq}
use vtun.Lock.{Files, put, unlink, link, tmp_file, pid_text, create_lock}

pub equal_ne : (s t : Bytes) → s ≢ t → equal s t ≡ false
equal_ne s t h = elim (Bool-cases (equal s t)) [
  | inl same ↦ absurd (h (equal_eq s t same))
  | inr other ↦ other
]

pub tmp_file-ne : (pid : ℕ) (file : Bytes) → file ≢ tmp_file pid file
tmp_file-ne pid file h =
    let longer : length (tmp_file pid file)
        ≡ length file + suc (length (dec pid ++ codes "_tmp\n")) =
      length-append file (codes "_" ++ (dec pid ++ codes "_tmp\n")) in
    omega (arith, longer, ap (λ z. length z) h)

pub put_self : (p c : Bytes) (fs : Files) → put p c fs p ≡ some c
unfolding put
put_self p c fs = rw (equal_refl p) refl

pub put_other : (p c : Bytes) (fs : Files) (q : Bytes) → q ≢ p → put p c fs q ≡ fs q
unfolding put
put_other p c fs q h = rw (equal_ne q p h) refl

pub unlink_self : (p : Bytes) (fs : Files) → unlink p fs p ≡ none
unfolding unlink
unlink_self p fs = rw (equal_refl p) refl

pub unlink_other : (p : Bytes) (fs : Files) (q : Bytes) → q ≢ p → unlink p fs q ≡ fs q
unfolding unlink
unlink_other p fs q h = rw (equal_ne q p h) refl

pub link_free :
    (old new c : Bytes) (fs : Files)
    → fs new ≡ none
    → fs old ≡ some c
    → link old new fs ≡ (put new c fs, pos 0)
unfolding link
link_free old new c fs free there = rw (free, link, there) refl

pub link_gone :
    (old new : Bytes) (fs : Files)
    → fs new ≡ none
    → fs old ≡ none
    → link old new fs ≡ (fs, negsuc 0)
unfolding link
link_gone old new fs free gone = rw (free, link, gone) refl

pub link_taken :
    (old new c : Bytes) (fs : Files) → fs new ≡ some c → link old new fs ≡ (fs, negsuc 0)
unfolding link
link_taken old new c fs taken = rw (taken, link) refl

pub create_free :
    (pid : ℕ) (file : Bytes) (fs : Files)
    → fs file ≡ none
    → create_lock pid true true file fs ≡ (
      unlink
          (tmp_file pid file)
          (put file (pid_text pid) (put (tmp_file pid file) (pid_text pid) fs)),
      pos 0,
    )
unfolding create_lock
create_free pid file fs free =
    let tmp = tmp_file pid file in
    ap (λ z. (unlink tmp z.0, z.1))
      (link_free tmp file (pid_text pid) (put tmp (pid_text pid) fs)
        (put_other tmp (pid_text pid) fs file (tmp_file-ne pid file) ∙ free)
        (put_self tmp (pid_text pid) fs))

pub create_taken :
    (pid : ℕ) (file c : Bytes) (fs : Files)
    → fs file ≡ some c
    → create_lock pid true true file fs
      ≡ (unlink (tmp_file pid file) (put (tmp_file pid file) (pid_text pid) fs), negsuc 0)
unfolding create_lock
create_taken pid file c fs taken =
    let tmp = tmp_file pid file in
    ap (λ z. (unlink tmp z.0, z.1))
      (link_taken tmp file c (put tmp (pid_text pid) fs)
        (put_other tmp (pid_text pid) fs file (tmp_file-ne pid file) ∙ taken))

-- What a call leaves at every path: its lock with its own content where there was none, no temporary file,
-- and else what was there.
pub record Leaves (pid : ℕ) (file : Bytes) (fs fs' : Files) (content : Option Bytes) : Type 0 where
  pub lock : fs' file ≡ content
  pub tmp : fs' (tmp_file pid file) ≡ none
  pub others : (q : Bytes) → q ≢ file → q ≢ tmp_file pid file → fs' q ≡ fs q

-- Where its open and write succeed, `create_lock` succeeds exactly if there is no lock. The lock is
-- then the process's own text; a lock that was there stays as it is. At the end the temporary file is
-- gone, and every other file is what it was.
pub create_lock-Leaves :
    (pid : ℕ) (file : Bytes) (fs : Files)
    → ((fs file ≡ none)
        × (fs' : Files) × (create_lock pid true true file fs ≡ (fs', pos 0))
        × Leaves pid file fs fs' (some (pid_text pid)))
      ⊎ ((c : Bytes) × (fs file ≡ some c)
          × (fs' : Files) × (create_lock pid true true file fs ≡ (fs', negsuc 0))
          × Leaves pid file fs fs' (some c))
create_lock-Leaves pid file fs =
    let tmp = tmp_file pid file in
    let text = pid_text pid in
    elim (Option-cases (fs file)) [
      | inl free ↦ inl (
        free,
        unlink tmp (put file text (put tmp text fs)),
        create_free pid file fs free,
        record {
          lock =
              unlink_other tmp (put file text (put tmp text fs)) file (tmp_file-ne pid file)
              ∙ put_self file text (put tmp text fs);
          tmp = unlink_self tmp (put file text (put tmp text fs));
          others = λ q here there.
              unlink_other tmp (put file text (put tmp text fs)) q there
              ∙ put_other file text (put tmp text fs) q here
              ∙ put_other tmp text fs q there;
        },
      )
      | inr (c, taken) ↦ inr (
        c,
        taken,
        unlink tmp (put tmp text fs),
        create_taken pid file c fs taken,
        record {
          lock =
              unlink_other tmp (put tmp text fs) file (tmp_file-ne pid file)
              ∙ put_other tmp text fs file (tmp_file-ne pid file)
              ∙ taken;
          tmp = unlink_self tmp (put tmp text fs);
          others = λ q here there.
              unlink_other tmp (put tmp text fs) q there ∙ put_other tmp text fs q there;
        },
      )
    ]
