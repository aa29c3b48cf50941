-- ===== src/Link/LinkerTests.antt =====
-- Runs of the linker at concrete inputs.
use vtun.Common.{◌≡◌, refl, [], ◌∷◌, true, false, pos}
use vtun.Common.Text.{codes}
use vtun.Host.{VtunHost}
use vtun.Cipher.Rotate.{rotate}
use vtun.Link.Build.{Modules, build_stack}
use vtun.Link.Build.Same.{Invert, build_stack-Mirror}
use vtun.Link.Legacy.Stacked.{lfd_legacy_encrypt, legacy-Inverts}
use vtun.Link.Compress.Copies.{copies, copying, roomy, roomy-Linked}
use vtun.Link.Compress.Lzo.{lfd_lzo, lzo-Inverts}
use vtun.Link.Compress.Zlib.RoundTrip.{lfd_zlib, zlib-Inverts}
use vtun.Link.Encrypt.Shifts.{shifts, sevens, sevens-IsRandom, start, start-Linked}
use vtun.Link.Encrypt.Messages.InStack.{lfd_encrypt, encrypt-Inverts}
use vtun.Link.Shaper.{Time, Shaper, lfd_shaper}
use vtun.Link.Shaper.Stacked.{shaper-Inverts}
use vtun.Link.Stack.RoundTrip.{Mirror}
use vtun.Link.Linker.{answers, Round, Linker, goes_on, breaks}
use vtun.Link.Linker.KeepAlive.{echo_request, turns, silent_peer}

abbrev session : VtunHost
session = record {
  host = codes "lion";
  passwd = codes "ma-kunpa";
  flags = 0x0850;
  timeout = 60;
  spd_in = pos 0;
  spd_out = pos 0;
  zlevel = pos 0;
  cipher = pos 0;
  persist = 1;
  multi = 0;
  ka_interval = 30;
  ka_maxfail = 4;
}

abbrev linker : Linker
linker = record {
  host = session;
  mods = [];
  linker_term = 0;
  canceled = false;
  ka_need_verify = false;
  ka_timer = pos 31;
  stat_timer = pos 0;
  tm = pos 0;
  idle = 0;
  send_a_packet = false;
  stat = record { byte_in = 0; byte_out = 0; comp_in = 0; comp_out = 0 };
  to_net = [];
  to_dev = [];
}

abbrev silence : Round
silence = record {
  select = answers;
  net_ready = false;
  dev_ready = false;
  echo_written = true;
  packet_written = true;
  reply_written = true;
  data_written = true;
  scratch = 0;
  net_len = pos 0;
  net_frame = [];
  dev_write = answers;
  dev_read = answers;
  dev_frame = [];
}

silent_peer_example :
    (k : Linker) × (turns 5 silence linker ≡ goes_on k)
    × (k.to_net ≡ echo_request ∷ echo_request ∷ echo_request ∷ echo_request ∷ [])
    × (turns 6 silence linker ≡ breaks (record k { ka_need_verify = true }))
silent_peer_example = silent_peer silence linker (refl, refl, refl, refl) refl refl

abbrev clock : Time
clock = record { tv_sec = 100; tv_usec = 0 }

abbrev idle_shaper : Shaper
idle_shaper = record { bytes = 0; max_speed = 400; curr_time = clock; last_time = clock }

-- All modules, over stand-ins for the libraries.
abbrev modules : Modules
modules = record {
  lfd_zlib = lfd_zlib copying [] 0 roomy;
  lfd_lzo = lfd_lzo copies true true;
  lfd_legacy_encrypt = lfd_legacy_encrypt rotate [] 3;
  lfd_encrypt = lfd_encrypt shifts sevens 8 100 [] [] (λ s b. (s, pos 0, [])) start;
  lfd_shaper = lfd_shaper clock idle_shaper;
}

modules-Invert : Invert modules modules
modules-Invert = record {
  zlib = zlib-Inverts copying [] 0 roomy roomy roomy-Linked;
  lzo = lzo-Inverts copies true true true;
  legacy = legacy-Inverts rotate [] 3;
  encrypt =
      encrypt-Inverts shifts sevens sevens 8 100 [] [] (λ s b. (s, pos 0, [])) sevens-IsRandom start
        start start-Linked;
  shaper = shaper-Inverts clock clock idle_shaper idle_shaper;
}

abbrev encrypted : VtunHost
encrypted = record session { flags = 0x085d; cipher = pos 999 }

abbrev other : VtunHost
other = record encrypted { flags = 0x185d }

build_stack-Mirror_example :
    (build_stack modules encrypted
      ≡ modules.lfd_zlib ∷ modules.lfd_legacy_encrypt ∷ modules.lfd_shaper ∷ [])
    × (build_stack modules other
        ≡ modules.lfd_zlib ∷ modules.lfd_legacy_encrypt ∷ modules.lfd_shaper ∷ [])
    × Mirror (build_stack modules encrypted) (build_stack modules other)
build_stack-Mirror_example =
    build_stack-Mirror modules modules encrypted other modules-Invert refl refl refl refl refl
