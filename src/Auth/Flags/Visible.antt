-- ===== src/Auth/Flags/Visible.antt =====
-- The flag text holds no NUL, so that it is one C string.
use vtun.Common.{◌<◌, ◌++◌, [], ◌∷◌, Bytes, All, All-append, arith}
use vtun.Common.Text.{dec_ℤ-IsVisible}
use vtun.Host.{VtunHost}
use vtun.Auth.Flags.{
  bf2cf, prot_text, type_text, shape_text, zlib_text, lzo_text, alive_text, encrypt_text,
}

abbrev AllVisible : Bytes → Type 0
AllVisible s = All (λ x. 32 < x) s

module _ (h : VtunHost) where
  prot : AllVisible (prot_text h)
  prot = ground arith

  type : AllVisible (type_text h)
  type = ground arith

  shape : AllVisible (shape_text h)
  shape = ground (arith, dec_ℤ-IsVisible h.spd_in)

  zlib : AllVisible (zlib_text h)
  zlib = ground (arith, dec_ℤ-IsVisible h.zlevel)

  lzo : AllVisible (lzo_text h)
  lzo = ground (arith, dec_ℤ-IsVisible h.zlevel)

  alive : AllVisible (alive_text h)
  alive = ground arith

  encrypt : AllVisible (encrypt_text h)
  encrypt = ground (arith, dec_ℤ-IsVisible h.cipher)

  join : (s t : Bytes) → AllVisible s → AllVisible t → AllVisible (s ++ t)
  join s t hs ht = All-append (λ x. 32 < x) s t hs ht

  pub bf2cf-visible : All (λ x. 32 < x) (bf2cf h)
  unfolding bf2cf
  bf2cf-visible = (
    omega arith,
    join _ _ prot (
        join _ _ type (
          join _ _ shape (
            join _ _ zlib (
              join _ _ lzo
                (join _ _ alive (join (encrypt_text h) (b'>' ∷ []) encrypt (omega arith, tt))))))),
  )
