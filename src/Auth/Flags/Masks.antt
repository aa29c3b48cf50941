-- ===== src/Auth/Flags/Masks.antt =====
-- Which bits of the client's flags each piece of the flag text sets, and which it leaves alone.
use vtun.Common.{ℕ, ◌≡◌, ◌∙◌, arith, ◌==ℤ◌, pos, if◌then◌else◌, ◌⊎◌}
use vtun.Common.Bits.{bit_and}
use vtun.Common.Masks.{
  bit_and_assoc, bit_and-zero, or_keeps, or_sets, and_keeps, bit_and_1, bit_and_2, bit_and_4,
  bit_and_8, bit_and_40,
}
use vtun.Host.{
  VtunHost, invert, vtun_tcp, vtun_udp, vtun_prot_mask, vtun_tty, vtun_pipe, vtun_ether, vtun_tun,
  vtun_type_mask, vtun_shape, vtun_zlib, vtun_lzo, vtun_keep_alive, vtun_encrypt,
}
use vtun.Auth.Flags.Pieces.{
  take_prot, take_type, take_shape, take_zlib, take_lzo, take_alive, take_encrypt,
}

module _ (srv h : VtunHost) (m : ℕ) where
  pub prot-keeps :
      bit_and (invert vtun_prot_mask) m ≡ m
      → bit_and vtun_tcp m ≡ 0
      → bit_and vtun_udp m ≡ 0
      → bit_and (take_prot srv h).flags m ≡ bit_and h.flags m
  prot-keeps a b c =
      let cleared = bit_and h.flags (invert vtun_prot_mask) in
      let kept = and_keeps h.flags (invert vtun_prot_mask) m a in
      ground (arith, or_keeps cleared vtun_tcp m b ∙ kept, or_keeps cleared vtun_udp m c ∙ kept)

  pub type-keeps :
      bit_and vtun_tty m ≡ 0
      → bit_and vtun_pipe m ≡ 0
      → bit_and vtun_ether m ≡ 0
      → bit_and vtun_tun m ≡ 0
      → bit_and (take_type srv h).flags m ≡ bit_and h.flags m
  type-keeps a b c d = ground (
    arith,
    or_keeps h.flags vtun_tty m a,
    or_keeps h.flags vtun_pipe m b,
    or_keeps h.flags vtun_ether m c,
    or_keeps h.flags vtun_tun m d,
  )

  pub shape-keeps :
      bit_and vtun_shape m ≡ 0 → bit_and (take_shape srv h).flags m ≡ bit_and h.flags m
  shape-keeps a = ground (arith, or_keeps h.flags vtun_shape m a)

  pub zlib-keeps : bit_and vtun_zlib m ≡ 0 → bit_and (take_zlib srv h).flags m ≡ bit_and h.flags m
  zlib-keeps a = ground (arith, or_keeps h.flags vtun_zlib m a)

  pub lzo-keeps : bit_and vtun_lzo m ≡ 0 → bit_and (take_lzo srv h).flags m ≡ bit_and h.flags m
  lzo-keeps a = ground (arith, or_keeps h.flags vtun_lzo m a)

  pub alive-keeps :
      bit_and vtun_keep_alive m ≡ 0 → bit_and (take_alive srv h).flags m ≡ bit_and h.flags m
  alive-keeps a = ground (arith, or_keeps h.flags vtun_keep_alive m a)

  pub encrypt-keeps :
      bit_and vtun_encrypt m ≡ 0 → bit_and (take_encrypt srv h).flags m ≡ bit_and h.flags m
  encrypt-keeps a = ground (arith, or_keeps h.flags vtun_encrypt m a)

-- Exactly one protocol, and one type of device.
abbrev pub HasProt : VtunHost → Type 0
HasProt h =
    (bit_and h.flags vtun_prot_mask ≡ vtun_tcp) ⊎ (bit_and h.flags vtun_prot_mask ≡ vtun_udp)

abbrev pub HasType : VtunHost → Type 0
HasType h =
    (bit_and h.flags vtun_type_mask ≡ vtun_tty)
    ⊎ (bit_and h.flags vtun_type_mask ≡ vtun_pipe)
    ⊎ (bit_and h.flags vtun_type_mask ≡ vtun_ether)
    ⊎ (bit_and h.flags vtun_type_mask ≡ vtun_tun)

module _ (srv h : VtunHost) where
  pub prot-sets :
      HasProt srv
      → bit_and (take_prot srv h).flags vtun_prot_mask ≡ bit_and srv.flags vtun_prot_mask
  prot-sets one =
      let cleared = bit_and h.flags (invert vtun_prot_mask) in
      let clear : bit_and cleared vtun_prot_mask ≡ 0 =
        bit_and_assoc vtun_prot_mask h.flags (invert vtun_prot_mask) ∙ bit_and-zero h.flags in
      ground (
        arith,
        or_sets cleared vtun_tcp vtun_prot_mask clear,
        or_sets cleared vtun_udp vtun_prot_mask clear,
      )

  pub type-sets :
      HasType srv
      → bit_and h.flags vtun_type_mask ≡ 0
      → bit_and (take_type srv h).flags vtun_type_mask ≡ bit_and srv.flags vtun_type_mask
  type-sets one clear = ground (
    arith,
    or_sets h.flags vtun_tty vtun_type_mask clear,
    or_sets h.flags vtun_pipe vtun_type_mask clear,
    or_sets h.flags vtun_ether vtun_type_mask clear,
    or_sets h.flags vtun_tun vtun_type_mask clear,
  )

  pub zlib-sets :
      bit_and h.flags vtun_zlib ≡ 0
      → bit_and (take_zlib srv h).flags vtun_zlib ≡ bit_and srv.flags vtun_zlib
  zlib-sets clear = ground (arith, bit_and_1 srv.flags, or_sets h.flags 1 1 clear)

  pub lzo-sets :
      bit_and h.flags vtun_lzo ≡ 0
      → bit_and (take_lzo srv h).flags vtun_lzo ≡ bit_and srv.flags vtun_lzo
  lzo-sets clear = ground (arith, bit_and_2 srv.flags, or_sets h.flags 2 2 clear)

  pub shape-sets :
      bit_and h.flags vtun_shape ≡ 0
      → bit_and (take_shape srv h).flags vtun_shape
        ≡ (if srv.spd_in ==ℤ pos 0 then 0 else bit_and srv.flags vtun_shape)
  shape-sets clear = ground (arith, bit_and_4 srv.flags, or_sets h.flags 4 4 clear)

  pub encrypt-sets :
      bit_and h.flags vtun_encrypt ≡ 0
      → bit_and (take_encrypt srv h).flags vtun_encrypt ≡ bit_and srv.flags vtun_encrypt
  encrypt-sets clear = ground (arith, bit_and_8 srv.flags, or_sets h.flags 8 8 clear)

  pub alive-sets :
      bit_and h.flags vtun_keep_alive ≡ 0
      → bit_and (take_alive srv h).flags vtun_keep_alive ≡ bit_and srv.flags vtun_keep_alive
  alive-sets clear = ground (arith, bit_and_40 srv.flags, or_sets h.flags 0x40 0x40 clear)
