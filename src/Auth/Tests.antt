-- ===== src/Auth/Tests.antt =====
-- Runs of the authentication at concrete inputs.
use vtun.Common.{
  ◌≡◌, ◌++◌, refl, Bool, true, false, List, [], ◌∷◌, Bytes, pos, some, replicate, arith, inl, inr,
}
use vtun.Common.Text.{codes, dec_ℤ, dec, dec_from}
use vtun.Host.{VtunHost}
use vtun.Cipher.Rotate.{rotate}
use vtun.Auth.Flags.{bf2cf, cf2bf}
use vtun.Auth.Flags.Agreement.{flags_agree, Agrees}
use vtun.Auth.Flags.Reading.{received}
use vtun.Auth.Flags.Erange.{erange_refused}
use vtun.Auth.Flags.Pieces.{IsCarried}
use vtun.Auth.Handshake.Texts.{without, word_char}
use vtun.Auth.Hosts.{find_host, llist_free}
use vtun.Auth.Handshake.{auth_server, auth_client}
use vtun.Auth.Handshake.Agreement.{handshake, IsShared}
use vtun.Auth.Handshake.Safety.{auth_server-Admitted, Admitted}

-- <TuS256C9KE>
abbrev served : VtunHost
served = record {
  host = codes "lion";
  passwd = codes "ma-kunpa";
  flags = 0x085d;
  timeout = 60;
  spd_in = pos 256;
  spd_out = pos 128;
  zlevel = pos 9;
  cipher = pos 999;
  persist = 0;
  multi = 0;
  ka_interval = 30;
  ka_maxfail = 4;
}

abbrev asking : VtunHost
asking = record served {
  flags = 0x1000;
  spd_in = pos 0;
  spd_out = pos 0;
  zlevel = pos 0;
  cipher = pos 0;
}

served-IsCarried : IsCarried 34 served
served-IsCarried = record {
  spd_in = λ on. (omega arith, ground arith);
  zlevel_zlib = λ on. (omega arith, ground arith);
  zlevel_lzo = λ on. (omega arith, ground arith);
  cipher = λ on. (omega arith, ground arith, ground arith);
}

abbrev prefix : Bytes
prefix = codes "OK FLAGS: "

flags_agree_example :
    (final : VtunHost) × (cf2bf 34 (prefix ++ (bf2cf served ++ 10 ∷ [])) asking ≡ (true, final))
    × Agrees served asking final
flags_agree_example =
    flags_agree 34 served asking prefix (10 ∷ []) (omega arith) served-IsCarried (inl refl)
      (inr (inr (inr refl))) refl refl (without b'<' prefix refl)

abbrev challenge : Bytes
challenge = replicate 15 200 ++ 7 ∷ []

abbrev free_lock : VtunHost → Bool
free_lock h = true

shared : IsShared 34 free_lock (served ∷ []) served asking
unfolding find_host llist_free bf2cf dec_ℤ dec dec_from
shared = record {
  known = refl;
  passwd = refl;
  locked = refl;
  carried = served-IsCarried;
  flags_fit = omega arith;
  name_fits = omega arith;
  named = omega arith;
  word = (
    word_char b'l' (omega arith),
    (
      word_char b'i' (omega arith),
      (word_char b'o' (omega arith), (word_char b'n' (omega arith), tt)),
    ),
  );
}

handshake_example :
    (from_client : List Bytes) × (from_server : List Bytes) × (auth_server rotate challenge
        (codes "3.X")
        free_lock
        (served ∷ [])
        from_client
      ≡ (some served, from_server))
    × (auth_client rotate 34 asking from_server ≡ ((true, received served asking), from_client))
handshake_example =
    handshake rotate challenge (codes "3.X") free_lock (served ∷ []) 34 served asking (omega arith)
      refl (omega arith) shared

-- The messages of that run.
run :
    (from_client : List Bytes) × (from_server : List Bytes) × (auth_server rotate challenge
        (codes "3.X")
        free_lock
        (served ∷ [])
        from_client
      ≡ (some served, from_server))
    × (auth_client rotate 34 asking from_server ≡ ((true, received served asking), from_client))
run =
    handshake rotate challenge (codes "3.X") free_lock (served ∷ []) 34 served asking (omega arith)
      refl (omega arith) shared

auth_server-Admitted_example : Admitted rotate challenge free_lock (served ∷ []) run.0 served
auth_server-Admitted_example =
    auth_server-Admitted rotate challenge (codes "3.X") free_lock (served ∷ []) run.0 run.1 served
      run.2

abbrev slow : VtunHost
slow = record served { spd_in = pos 34 }

erange_refused_example :
    (final : VtunHost) × (cf2bf 34 (prefix ++ (bf2cf slow ++ 10 ∷ [])) asking ≡ (false, final))
erange_refused_example =
    erange_refused 34 slow asking prefix (10 ∷ []) (omega arith) refl refl
      (without b'<' prefix refl)
