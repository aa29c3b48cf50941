-- ===== src/Tunnel/Sample.antt =====
-- A concrete session, process and world, for runs at concrete inputs.
use vtun.Common.{[], ◌∷◌, true, false, none, some, pos, negsuc}
use vtun.Common.Text.{codes}
use vtun.Host.{VtunHost}
use vtun.Session.{Session, SockAddr}
use vtun.Link.Stack.{Module}
use vtun.Link.Build.{Modules}
use vtun.Link.Linker.Run.{sig_hup}
use vtun.Link.Linkfd.{earlier, Process}
use vtun.Tunnel.{World}

abbrev plain : Module
plain = record {
  State = Unit;
  state = tt;
  alloc = none;
  encode = none;
  avail_encode = none;
  decode = none;
  avail_decode = none;
  free = none;
}

abbrev pub modules : Modules
modules = record {
  lfd_zlib = plain;
  lfd_lzo = plain;
  lfd_legacy_encrypt = plain;
  lfd_encrypt = plain;
  lfd_shaper = plain;
}

-- A tun device over TCP.
abbrev pub host : VtunHost
host = record {
  host = codes "lion";
  passwd = codes "ma-kunpa";
  flags = 0x0810;
  timeout = 60;
  spd_in = pos 0;
  spd_out = pos 0;
  zlevel = pos 0;
  cipher = pos 0;
  persist = 0;
  multi = 0;
  ka_interval = 30;
  ka_maxfail = 4;
}

abbrev pub session : Session
session = record {
  host = host;
  dev = some (codes "tun0");
  rmt_fd = pos 4;
  loc_fd = negsuc 0;
  src_addr = record { name = []; port = 0; kind = 0 };
  sopt = record {
    dev = none;
    laddr = none;
    lport = pos 0;
    raddr = none;
    rport = pos 0;
    host = some (codes "lion");
  };
}

abbrev pub process : Process
process = record {
  linker = record {
    host = host;
    mods = [];
    linker_term = 0;
    canceled = false;
    ka_need_verify = false;
    ka_timer = pos 0;
    stat_timer = pos 0;
    tm = pos 0;
    idle = 0;
    send_a_packet = false;
    stat = record { byte_in = 0; byte_out = 0; comp_in = 0; comp_out = 0 };
    to_net = [];
    to_dev = [];
  };
  priority = pos 0;
  handlers = record {
    sigterm = earlier 1;
    sigint = earlier 1;
    sighup = earlier 2;
    sigalrm = earlier 0;
    sigusr1 = earlier 0;
  };
  alarm = 0;
  stat_file = false;
}

abbrev pub nowhere : SockAddr
nowhere = record { addr = 0; port = 0 }

abbrev pub world : World
world = record {
  drivers = record {
    pty_open = λ dev. none;
    pipe_open = none;
    tap_open = λ dev. none;
    tun_open = λ dev. some (pos 5, dev);
  };
  nat_hack = false;
  kernel = record {
    names = record {
      socket = true;
      ioctl = λ n. none;
      gethostbyname = λ n. none;
      inet_ntoa = λ a. [];
    };
    socket = none;
    own = none;
    binds = λ a. true;
    named = λ a. none;
    ready = true;
    peer = none;
    connected = λ a. true;
    uninit = nowhere;
  };
  events = [];
  conn = record { canceled = false; input = []; output = [] };
  forks = true;
  modules = modules;
  happenings = sig_hup ∷ [];
  stat_opens = true;
  tcp = true;
  echo_written = true;
  close_written = true;
}
