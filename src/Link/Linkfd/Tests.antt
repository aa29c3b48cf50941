-- ===== src/Link/Linkfd/Tests.antt =====
-- Runs of `linkfd` at concrete inputs.
use vtun.Common.{[], true, false, none, some, ℤ, pos}
use vtun.Common.Text.{codes}
use vtun.Host.{VtunHost}
use vtun.Link.Stack.{Module}
use vtun.Link.Build.{Modules}
use vtun.Link.Linker.Run.{Wire}
use vtun.Link.Linkfd.{earlier, Process}

-- A stand-in for a module, which starts or refuses to.
abbrev stand_in : ℤ → Module
stand_in answer = record {
  State = Unit;
  state = tt;
  alloc = some (λ s host. (s, answer));
  encode = none;
  avail_encode = none;
  decode = none;
  avail_decode = none;
  free = some (λ s. (s, pos 0));
}

abbrev modules : Modules
modules = record {
  lfd_zlib = stand_in (pos 1);
  lfd_lzo = stand_in (pos 0);
  lfd_legacy_encrypt = stand_in (pos 0);
  lfd_encrypt = stand_in (pos 0);
  lfd_shaper = stand_in (pos 0);
}

-- LZO, encryption and a keep-alive.
abbrev host : VtunHost
host = record {
  host = codes "lion";
  passwd = codes "ma-kunpa";
  flags = 0x085a;
  timeout = 60;
  spd_in = pos 0;
  spd_out = pos 0;
  zlevel = pos 0;
  cipher = pos 1;
  persist = 1;
  multi = 0;
  ka_interval = 30;
  ka_maxfail = 4;
}

-- zlib, which refuses, and encryption
abbrev refused : VtunHost
refused = record host { flags = 0x0859 }

abbrev process : Process
process = record {
  linker = record {
    host = host;
    mods = [];
    linker_term = 0;
    canceled = false;
    ka_need_verify = false;
    ka_timer = pos 31;
    stat_timer = pos 0;
    tm = pos 0;
    idle = 0;
    send_a_packet = false;
    stat = record { byte_in = 0; byte_out = 0; comp_in = 0; comp_out = 0 };
    to_net = [];
    to_dev = [];
  };
  priority = pos 0;
  handlers = record {
    sigterm = earlier 1;
    sigint = earlier 1;
    sighup = earlier 2;
    sigalrm = earlier 0;
    sigusr1 = earlier 0;
  };
  alarm = 0;
  stat_file = false;
}

abbrev wire : Wire
wire = record { tcp = true; echo_written = true; close_written = true }
