-- ===== src/Auth/Flags/Fields.antt =====
-- The other fields of the client's host that the pieces of the flag text set or leave alone.
use vtun.Common.{◌≡◌, arith, pos, if◌then◌else◌}
use vtun.Host.{VtunHost, vtun_shape, vtun_zlib, vtun_lzo, vtun_encrypt}
use vtun.Auth.Flags.{has}
use vtun.Auth.Flags.Pieces.{
  take_prot, take_type, take_shape, take_zlib, take_lzo, take_alive, take_encrypt,
}

module _ (srv h : VtunHost) where
  pub spd_out-prot : (take_prot srv h).spd_out ≡ h.spd_out
  spd_out-prot = ground arith

  pub zlevel-prot : (take_prot srv h).zlevel ≡ h.zlevel
  zlevel-prot = ground arith

  pub cipher-prot : (take_prot srv h).cipher ≡ h.cipher
  cipher-prot = ground arith

  pub spd_out-type : (take_type srv h).spd_out ≡ h.spd_out
  spd_out-type = ground arith

  pub zlevel-type : (take_type srv h).zlevel ≡ h.zlevel
  zlevel-type = ground arith

  pub cipher-type : (take_type srv h).cipher ≡ h.cipher
  cipher-type = ground arith

  pub zlevel-shape : (take_shape srv h).zlevel ≡ h.zlevel
  zlevel-shape = ground arith

  pub cipher-shape : (take_shape srv h).cipher ≡ h.cipher
  cipher-shape = ground arith

  pub spd_out-zlib : (take_zlib srv h).spd_out ≡ h.spd_out
  spd_out-zlib = ground arith

  pub cipher-zlib : (take_zlib srv h).cipher ≡ h.cipher
  cipher-zlib = ground arith

  pub spd_out-lzo : (take_lzo srv h).spd_out ≡ h.spd_out
  spd_out-lzo = ground arith

  pub cipher-lzo : (take_lzo srv h).cipher ≡ h.cipher
  cipher-lzo = ground arith

  pub spd_out-alive : (take_alive srv h).spd_out ≡ h.spd_out
  spd_out-alive = ground arith

  pub zlevel-alive : (take_alive srv h).zlevel ≡ h.zlevel
  zlevel-alive = ground arith

  pub cipher-alive : (take_alive srv h).cipher ≡ h.cipher
  cipher-alive = ground arith

  pub spd_out-encrypt : (take_encrypt srv h).spd_out ≡ h.spd_out
  spd_out-encrypt = ground arith

  pub zlevel-encrypt : (take_encrypt srv h).zlevel ≡ h.zlevel
  zlevel-encrypt = ground arith

  pub spd_out-shape :
      h.spd_out ≡ pos 0
      → (take_shape srv h).spd_out ≡ (if has srv.flags vtun_shape then srv.spd_in else pos 0)
  spd_out-shape unset = ground arith

  pub zlevel-zlib :
      (take_zlib srv h).zlevel ≡ (if has srv.flags vtun_zlib then srv.zlevel else h.zlevel)
  zlevel-zlib = ground arith

  pub zlevel-lzo :
      (take_lzo srv h).zlevel ≡ (if has srv.flags vtun_lzo then srv.zlevel else h.zlevel)
  zlevel-lzo = ground arith

  pub cipher-encrypt :
      (take_encrypt srv h).cipher ≡ (if has srv.flags vtun_encrypt then srv.cipher else h.cipher)
  cipher-encrypt = ground arith
