-- ===== src/Link/Encrypt/Tests.antt =====
-- Runs of the encryption module at concrete inputs.
use vtun.Common.{◌≡◌, inr, refl, [], ◌∷◌, false, pos, arith}
use vtun.Common.Text.{codes}
use vtun.Host.{VtunHost}
use vtun.Link.Encrypt.Modes.{aes_256_cbc, choose, enc_cipher}
use vtun.Link.Encrypt.Shifts.{shifts, sevens, sevens-IsRandom, start, start-Linked}
use vtun.Link.Encrypt.State.{Encrypt, cipher_sequence}
use vtun.Link.Encrypt.Messages.{encrypt_buf}
use vtun.Link.Encrypt.Messages.Stacked.{Crosses, encrypt_round_trip}
use vtun.Link.Encrypt.Messages.Alloc.{Allocated, alloc_encrypt-Linked}
use vtun.Link.Encrypt.Messages.Resync.{Resynced, resync}
use vtun.Link.Encrypt.Messages.Overrun.{encrypt_buf-Overrun}

-- AES-256-CBC
abbrev session : VtunHost
session = record {
  host = codes "lion";
  passwd = codes "ma-kunpa";
  flags = 0x0c55;
  timeout = 60;
  spd_in = pos 0;
  spd_out = pos 0;
  zlevel = pos 0;
  cipher = pos 14;
  persist = 0;
  multi = 0;
  ka_interval = 30;
  ka_maxfail = 4;
}

alloc_encrypt-Linked_example : Allocated shifts sevens sevens 8 session session start start
unfolding choose
alloc_encrypt-Linked_example =
    alloc_encrypt-Linked shifts sevens sevens 8 session session start start refl refl
      (inr (omega arith, omega arith))

encrypt_round_trip_example : Crosses shifts sevens 8 100 (9 ∷ []) [] start start (1 ∷ 2 ∷ 3 ∷ [])
encrypt_round_trip_example =
    encrypt_round_trip shifts sevens 8 sevens-IsRandom 100 (9 ∷ []) [] start start (1 ∷ 2 ∷ 3 ∷ [])
      start-Linked (omega arith, (omega arith, (omega arith, tt))) (omega arith)

-- Two ends whose vectors have come through.
abbrev running : Encrypt shifts
running = record start { enc_state = cipher_sequence; dec_state = cipher_sequence; ctx_enc = 5 }

resync_example :
    Resynced shifts sevens 8 100 [] [] running running (1 ∷ 2 ∷ 3 ∷ 4 ∷ 5 ∷ []) (6 ∷ 7 ∷ [])
unfolding enc_cipher
resync_example =
    resync shifts sevens 8 sevens-IsRandom 100 [] [] running running (1 ∷ 2 ∷ 3 ∷ 4 ∷ 5 ∷ [])
      (6 ∷ 7 ∷ [])
      (record {
        enc = refl;
        dec = refl;
        peer_dec = refl;
        synced = refl;
        same = refl;
        block = inr refl;
        type = aes_256_cbc;
        var_key = false;
        mode = refl;
        block_type = refl;
        four = omega arith;
        fits = omega arith;
      })
      (omega arith) refl refl (omega arith, (omega arith, tt))

-- The ninth frame that is not a vector, and the tenth.
abbrev waiting : Encrypt shifts
waiting = record start { gibberish = 8; gib_time_start = 100 }

-- A session with Blowfish.
abbrev short : Encrypt shifts
short = record running { cipher = pos 2; blocksize = 8 }

encrypt_buf-Overrun_example :
    encrypt_buf shifts sevens 8 short (69 ∷ 0 ∷ 0 ∷ 84 ∷ 1 ∷ 2 ∷ [])
    ≡ encrypt_buf shifts sevens 8 short (0 ∷ 0 ∷ 0 ∷ 0 ∷ 1 ∷ 2 ∷ [])
encrypt_buf-Overrun_example =
    encrypt_buf-Overrun shifts sevens short 69 0 0 84 0 0 0 0 (1 ∷ 2 ∷ []) refl (ground arith)
