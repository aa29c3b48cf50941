-- ===== src/Host.antt =====
-- vtun.h: the constants of the frame protocol and of the flag word, and the session record
-- `struct vtun_host` with the fields that the modelled code reads or writes.
use vtun.Common.{ℕ, ◌-◌, ◌^◌, Bytes, ℤ}

-- #define VTUN_FRAME_SIZE and what follows it
abbrev pub vtun_frame_size : ℕ
vtun_frame_size = 2048

abbrev pub vtun_frame_overhead : ℕ
vtun_frame_overhead = 100

abbrev pub vtun_fsize_mask : ℕ
vtun_fsize_mask = 0x0fff

abbrev pub vtun_conn_close : ℕ
vtun_conn_close = 0x1000

abbrev pub vtun_echo_req : ℕ
vtun_echo_req = 0x2000

abbrev pub vtun_echo_rep : ℕ
vtun_echo_rep = 0x4000

abbrev pub vtun_bad_frame : ℕ
vtun_bad_frame = 0x8000

abbrev pub vtun_mesg_size : ℕ
vtun_mesg_size = 50

-- The complement of a mask in a 32-bit int.
abbrev pub invert : ℕ → ℕ
invert m = 2 ^ 32 - 1 - m

-- Host flags.
abbrev pub vtun_tty : ℕ
vtun_tty = 0x0100

abbrev pub vtun_pipe : ℕ
vtun_pipe = 0x0200

abbrev pub vtun_ether : ℕ
vtun_ether = 0x0400

abbrev pub vtun_tun : ℕ
vtun_tun = 0x0800

abbrev pub vtun_type_mask : ℕ
vtun_type_mask = 0x0f00

abbrev pub vtun_tcp : ℕ
vtun_tcp = 0x0010

abbrev pub vtun_udp : ℕ
vtun_udp = 0x0020

abbrev pub vtun_prot_mask : ℕ
vtun_prot_mask = 0x0030

abbrev pub vtun_keep_alive : ℕ
vtun_keep_alive = 0x0040

abbrev pub vtun_zlib : ℕ
vtun_zlib = 0x0001

abbrev pub vtun_lzo : ℕ
vtun_lzo = 0x0002

abbrev pub vtun_shape : ℕ
vtun_shape = 0x0004

abbrev pub vtun_encrypt : ℕ
vtun_encrypt = 0x0008

abbrev pub vtun_legacy_encrypt : ℕ
vtun_legacy_encrypt = 999

abbrev pub vtun_clnt_mask : ℕ
vtun_clnt_mask = 0xf000

abbrev pub vtun_stat : ℕ
vtun_stat = 0x1000

-- Values of `multi` and of the signal flag.
abbrev pub vtun_multi_deny : ℕ
vtun_multi_deny = 0

abbrev pub vtun_multi_allow : ℕ
vtun_multi_allow = 1

abbrev pub vtun_multi_kill : ℕ
vtun_multi_kill = 2

abbrev pub vtun_persist_keepif : ℕ
vtun_persist_keepif = 2

abbrev pub vtun_sig_term : ℕ
vtun_sig_term = 1

abbrev pub vtun_sig_hup : ℕ
vtun_sig_hup = 2

-- struct vtun_host
pub record VtunHost : Type 0 where
  pub host : Bytes
  pub passwd : Bytes
  pub flags : ℕ
  pub timeout : ℕ
  pub spd_in : ℤ
  pub spd_out : ℤ
  pub zlevel : ℤ
  pub cipher : ℤ
  pub persist : ℕ
  pub multi : ℕ
  pub ka_interval : ℕ
  pub ka_maxfail : ℕ
