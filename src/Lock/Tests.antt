-- ===== src/Lock/Tests.antt =====
-- Runs of the locks at concrete inputs.
use vtun.Common.{
  ℕ, ◌≡◌, ◌≤◌, refl, [], ◌∷◌, List, Bytes, Bool, true, false, none, some, ℤ, pos, negsuc, arith,
}
use vtun.Common.Text.{codes, dec}
use vtun.Host.{VtunHost}
use vtun.Lock.{
  Files, put, unlink, link, pid_text, create_lock, judge, sent, no_process, Answer, lock_host,
}
use vtun.Lock.Exclusive.{
  Alone, Call, writes, links, cleans, interleaved, winners, create_lock-exclusive,
}
use vtun.Lock.Read.{stale_race}
use vtun.Lock.Host.{lock_host-returns}

abbrev dir : Bytes
dir = codes "/l"

abbrev in_range : Bytes → Bool
in_range text = false

abbrev no_files : Files
no_files q = none

abbrev lion : VtunHost
lion = record {
  host = codes "lion";
  passwd = codes "ma-kunpa";
  flags = 0x0055;
  timeout = 60;
  spd_in = pos 0;
  spd_out = pos 0;
  zlevel = pos 0;
  cipher = pos 0;
  persist = 0;
  multi = 0;
  ka_interval = 30;
  ka_maxfail = 4;
}

abbrev lock_path : Bytes
lock_path = codes "/l/lion"

abbrev schedule : List (ℕ × Call)
schedule =
    (42, writes) ∷ (43, writes) ∷ (43, links) ∷ (42, links) ∷ (42, cleans) ∷ (43, cleans) ∷ []

create_lock-exclusive_example :
    (winners (interleaved lock_path schedule no_files).1 ≤ 1) × Alone lock_path 42 true no_files
create_lock-exclusive_example = create_lock-exclusive lock_path schedule no_files 42 true

abbrev locked_42 : Files
locked_42 = (create_lock 42 true true lock_path no_files).0

made_42 : create_lock 42 true true lock_path no_files ≡ (locked_42, pos 0)
unfolding create_lock link put dec
made_42 = refl

stale_race_example :
    (judge in_range (7 ∷ []) lock_path (pid_text 9) no_files (no_process ∷ [])
      ≡ some (unlink lock_path no_files, [], negsuc 0))
    × (fs1 : Files) × (create_lock 42 true true lock_path (unlink lock_path no_files)
        ≡ (fs1, pos 0))
    × (judge in_range (7 ∷ []) lock_path (pid_text 9) fs1 (no_process ∷ [])
        ≡ some (unlink lock_path fs1, [], negsuc 0))
    × (fs2 : Files) × (create_lock 43 true true lock_path (unlink lock_path fs1) ≡ (fs2, pos 0))
    × (fs2 lock_path ≡ some (pid_text 43))
stale_race_example =
    stale_race in_range (7 ∷ []) 9 42 43 lock_path no_files (omega arith) (omega arith) refl

abbrev thirteen : List Answer
thirteen =
    sent ∷ sent ∷ sent ∷ sent ∷ sent ∷ sent ∷ sent ∷ sent ∷ sent ∷ sent ∷ sent ∷ sent ∷ sent ∷ []

lock_host-returns_example :
    (r : Files × List Answer × ℤ) × (lock_host dir in_range [] 43 true true
        (record lion { multi = 2 })
        locked_42
        thirteen
      ≡ some r)
lock_host-returns_example =
    lock_host-returns dir in_range [] 43 true true (record lion { multi = 2 }) locked_42 thirteen
      (omega arith)
