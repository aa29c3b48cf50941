-- ===== src/Auth/Flags/Agreement.antt =====
-- What server and client agree on once the client has read the flag text.
use vtun.Common.{
  ℕ, ℤ, ◌==ℤ◌, ◌≡◌, ◌≢◌, ◌<◌, ◌∙◌, refl, ap, Bool, true, ◌||◌, ◌++◌, Bytes, pos, if◌then◌else◌, All,
  arith,
}
use vtun.Common.Bits.{bit_and}
use vtun.Common.Masks.{clear_part}
use vtun.Host.{
  VtunHost, vtun_prot_mask, vtun_type_mask, vtun_shape, vtun_zlib, vtun_lzo, vtun_keep_alive,
  vtun_encrypt, vtun_clnt_mask,
}
use vtun.Auth.Flags.{has, bf2cf, cf2bf}
use vtun.Auth.Flags.Pieces.{
  IsCarried, take_prot, take_type, take_shape, take_zlib, take_lzo, take_alive,
}
use vtun.Auth.Flags.Fields
use vtun.Auth.Flags.Masks
use vtun.Auth.Flags.Masks.{HasProt, HasType}
use vtun.Auth.Flags.Reading.{received, cf2bf-received}

-- The session that the client runs after it has read the flags of `srv`, from the state `cl` in
-- which `client` left its host.
pub record Agrees (srv cl final : VtunHost) : Type 0 where
  pub prot : bit_and final.flags vtun_prot_mask ≡ bit_and srv.flags vtun_prot_mask
  pub type : bit_and final.flags vtun_type_mask ≡ bit_and srv.flags vtun_type_mask
  pub zlib : bit_and final.flags vtun_zlib ≡ bit_and srv.flags vtun_zlib
  pub lzo : bit_and final.flags vtun_lzo ≡ bit_and srv.flags vtun_lzo
  pub keep_alive : bit_and final.flags vtun_keep_alive ≡ bit_and srv.flags vtun_keep_alive
  pub encrypt : bit_and final.flags vtun_encrypt ≡ bit_and srv.flags vtun_encrypt
  pub shape :
      bit_and final.flags vtun_shape
      ≡ (if srv.spd_in ==ℤ pos 0 then 0 else bit_and srv.flags vtun_shape)
  pub kept : bit_and final.flags vtun_clnt_mask ≡ bit_and cl.flags vtun_clnt_mask
  pub speed : final.spd_out ≡ (if has srv.flags vtun_shape then srv.spd_in else pos 0)
  pub level :
      final.zlevel
      ≡ (if has srv.flags vtun_zlib || has srv.flags vtun_lzo then srv.zlevel else cl.zlevel)
  pub cipher : final.cipher ≡ (if has srv.flags vtun_encrypt then srv.cipher else cl.cipher)

either :
    (a b : Bool) (x y z : ℤ)
    → y ≡ (if a then x else z)
    → (if b then x else y) ≡ (if a || b then x else z)
either a b x y z e = ground arith

-- The host behind the first pieces.
abbrev behind_prot : VtunHost → VtunHost → VtunHost
behind_prot srv cl = take_prot srv cl

abbrev behind_type : VtunHost → VtunHost → VtunHost
behind_type srv cl = take_type srv (behind_prot srv cl)

abbrev behind_shape : VtunHost → VtunHost → VtunHost
behind_shape srv cl = take_shape srv (behind_type srv cl)

abbrev behind_zlib : VtunHost → VtunHost → VtunHost
behind_zlib srv cl = take_zlib srv (behind_shape srv cl)

abbrev behind_lzo : VtunHost → VtunHost → VtunHost
behind_lzo srv cl = take_lzo srv (behind_zlib srv cl)

abbrev behind_alive : VtunHost → VtunHost → VtunHost
behind_alive srv cl = take_alive srv (behind_lzo srv cl)

module _ (srv cl : VtunHost) (clean : bit_and cl.flags 0x0fff ≡ 0) where
  agree_prot :
      HasProt srv
      → bit_and (received srv cl).flags vtun_prot_mask ≡ bit_and srv.flags vtun_prot_mask
  agree_prot one =
      Masks.encrypt-keeps srv (behind_alive srv cl) vtun_prot_mask refl
      ∙ Masks.alive-keeps srv (behind_lzo srv cl) vtun_prot_mask refl
      ∙ Masks.lzo-keeps srv (behind_zlib srv cl) vtun_prot_mask refl
      ∙ Masks.zlib-keeps srv (behind_shape srv cl) vtun_prot_mask refl
      ∙ Masks.shape-keeps srv (behind_type srv cl) vtun_prot_mask refl
      ∙ Masks.type-keeps srv (behind_prot srv cl) vtun_prot_mask refl refl refl refl
      ∙ Masks.prot-sets srv cl one

  agree_type :
      HasType srv
      → bit_and (received srv cl).flags vtun_type_mask ≡ bit_and srv.flags vtun_type_mask
  agree_type one =
      Masks.encrypt-keeps srv (behind_alive srv cl) vtun_type_mask refl
      ∙ Masks.alive-keeps srv (behind_lzo srv cl) vtun_type_mask refl
      ∙ Masks.lzo-keeps srv (behind_zlib srv cl) vtun_type_mask refl
      ∙ Masks.zlib-keeps srv (behind_shape srv cl) vtun_type_mask refl
      ∙ Masks.shape-keeps srv (behind_type srv cl) vtun_type_mask refl
      ∙ Masks.type-sets srv (behind_prot srv cl) one (
          Masks.prot-keeps srv cl vtun_type_mask refl refl refl
          ∙ clear_part cl.flags 0x0fff vtun_type_mask clean refl)

  agree_shape :
      bit_and (received srv cl).flags vtun_shape
      ≡ (if srv.spd_in ==ℤ pos 0 then 0 else bit_and srv.flags vtun_shape)
  agree_shape =
      Masks.encrypt-keeps srv (behind_alive srv cl) vtun_shape refl
      ∙ Masks.alive-keeps srv (behind_lzo srv cl) vtun_shape refl
      ∙ Masks.lzo-keeps srv (behind_zlib srv cl) vtun_shape refl
      ∙ Masks.zlib-keeps srv (behind_shape srv cl) vtun_shape refl
      ∙ Masks.shape-sets srv (behind_type srv cl) (
          Masks.type-keeps srv (behind_prot srv cl) vtun_shape refl refl refl refl
          ∙ Masks.prot-keeps srv cl vtun_shape refl refl refl
          ∙ clear_part cl.flags 0x0fff vtun_shape clean refl)

  agree_zlib : bit_and (received srv cl).flags vtun_zlib ≡ bit_and srv.flags vtun_zlib
  agree_zlib =
      Masks.encrypt-keeps srv (behind_alive srv cl) vtun_zlib refl
      ∙ Masks.alive-keeps srv (behind_lzo srv cl) vtun_zlib refl
      ∙ Masks.lzo-keeps srv (behind_zlib srv cl) vtun_zlib refl
      ∙ Masks.zlib-sets srv (behind_shape srv cl) (
          Masks.shape-keeps srv (behind_type srv cl) vtun_zlib refl
          ∙ Masks.type-keeps srv (behind_prot srv cl) vtun_zlib refl refl refl refl
          ∙ Masks.prot-keeps srv cl vtun_zlib refl refl refl
          ∙ clear_part cl.flags 0x0fff vtun_zlib clean refl)

  agree_lzo : bit_and (received srv cl).flags vtun_lzo ≡ bit_and srv.flags vtun_lzo
  agree_lzo =
      Masks.encrypt-keeps srv (behind_alive srv cl) vtun_lzo refl
      ∙ Masks.alive-keeps srv (behind_lzo srv cl) vtun_lzo refl
      ∙ Masks.lzo-sets srv (behind_zlib srv cl) (
          Masks.zlib-keeps srv (behind_shape srv cl) vtun_lzo refl
          ∙ Masks.shape-keeps srv (behind_type srv cl) vtun_lzo refl
          ∙ Masks.type-keeps srv (behind_prot srv cl) vtun_lzo refl refl refl refl
          ∙ Masks.prot-keeps srv cl vtun_lzo refl refl refl
          ∙ clear_part cl.flags 0x0fff vtun_lzo clean refl)

  agree_alive : bit_and (received srv cl).flags vtun_keep_alive ≡ bit_and srv.flags vtun_keep_alive
  agree_alive =
      Masks.encrypt-keeps srv (behind_alive srv cl) vtun_keep_alive refl
      ∙ Masks.alive-sets srv (behind_lzo srv cl) (
          Masks.lzo-keeps srv (behind_zlib srv cl) vtun_keep_alive refl
          ∙ Masks.zlib-keeps srv (behind_shape srv cl) vtun_keep_alive refl
          ∙ Masks.shape-keeps srv (behind_type srv cl) vtun_keep_alive refl
          ∙ Masks.type-keeps srv (behind_prot srv cl) vtun_keep_alive refl refl refl refl
          ∙ Masks.prot-keeps srv cl vtun_keep_alive refl refl refl
          ∙ clear_part cl.flags 0x0fff vtun_keep_alive clean refl)

  agree_encrypt : bit_and (received srv cl).flags vtun_encrypt ≡ bit_and srv.flags vtun_encrypt
  agree_encrypt = Masks.encrypt-sets srv (behind_alive srv cl) (
      Masks.alive-keeps srv (behind_lzo srv cl) vtun_encrypt refl
      ∙ Masks.lzo-keeps srv (behind_zlib srv cl) vtun_encrypt refl
      ∙ Masks.zlib-keeps srv (behind_shape srv cl) vtun_encrypt refl
      ∙ Masks.shape-keeps srv (behind_type srv cl) vtun_encrypt refl
      ∙ Masks.type-keeps srv (behind_prot srv cl) vtun_encrypt refl refl refl refl
      ∙ Masks.prot-keeps srv cl vtun_encrypt refl refl refl
      ∙ clear_part cl.flags 0x0fff vtun_encrypt clean refl)

  agree_kept : bit_and (received srv cl).flags vtun_clnt_mask ≡ bit_and cl.flags vtun_clnt_mask
  agree_kept =
      Masks.encrypt-keeps srv (behind_alive srv cl) vtun_clnt_mask refl
      ∙ Masks.alive-keeps srv (behind_lzo srv cl) vtun_clnt_mask refl
      ∙ Masks.lzo-keeps srv (behind_zlib srv cl) vtun_clnt_mask refl
      ∙ Masks.zlib-keeps srv (behind_shape srv cl) vtun_clnt_mask refl
      ∙ Masks.shape-keeps srv (behind_type srv cl) vtun_clnt_mask refl
      ∙ Masks.type-keeps srv (behind_prot srv cl) vtun_clnt_mask refl refl refl refl
      ∙ Masks.prot-keeps srv cl vtun_clnt_mask refl refl refl

module _ (srv cl : VtunHost) where
  agree_speed :
      cl.spd_out ≡ pos 0
      → (received srv cl).spd_out ≡ (if has srv.flags vtun_shape then srv.spd_in else pos 0)
  agree_speed unset =
      Fields.spd_out-encrypt srv (behind_alive srv cl)
      ∙ Fields.spd_out-alive srv (behind_lzo srv cl)
      ∙ Fields.spd_out-lzo srv (behind_zlib srv cl)
      ∙ Fields.spd_out-zlib srv (behind_shape srv cl)
      ∙ Fields.spd_out-shape srv (behind_type srv cl)
          (Fields.spd_out-type srv (behind_prot srv cl) ∙ Fields.spd_out-prot srv cl ∙ unset)

  agree_cipher :
      (received srv cl).cipher ≡ (if has srv.flags vtun_encrypt then srv.cipher else cl.cipher)
  agree_cipher =
      Fields.cipher-encrypt srv (behind_alive srv cl)
      ∙ ap (λ z. if has srv.flags vtun_encrypt then srv.cipher else z)
          (Fields.cipher-alive srv (behind_lzo srv cl)
            ∙ Fields.cipher-lzo srv (behind_zlib srv cl)
            ∙ Fields.cipher-zlib srv (behind_shape srv cl)
            ∙ Fields.cipher-shape srv (behind_type srv cl)
            ∙ Fields.cipher-type srv (behind_prot srv cl)
            ∙ Fields.cipher-prot srv cl)

  agree_level :
      (received srv cl).zlevel
      ≡ (if has srv.flags vtun_zlib || has srv.flags vtun_lzo then srv.zlevel else cl.zlevel)
  agree_level =
      Fields.zlevel-encrypt srv (behind_alive srv cl)
      ∙ Fields.zlevel-alive srv (behind_lzo srv cl)
      ∙ Fields.zlevel-lzo srv (behind_zlib srv cl)
      ∙ either (has srv.flags vtun_zlib) (has srv.flags vtun_lzo) _ _ _ (
          Fields.zlevel-zlib srv (behind_shape srv cl)
          ∙ ap (λ z. if has srv.flags vtun_zlib then srv.zlevel else z)
              (Fields.zlevel-shape srv (behind_type srv cl)
                ∙ Fields.zlevel-type srv (behind_prot srv cl)
                ∙ Fields.zlevel-prot srv cl))

-- A server with one protocol and one type of device, whose numbers the text can carry, and a client
-- that has cleared what the server supplies (its low flags and its speed): the client accepts the
-- line, and then runs the server's session (protocol, device type, compression, encryption and keep
-- alive bits, level and cipher where they are used, and the server's inbound speed as its outbound
-- one, with shaping off where that speed is 0); its own high flags stay.
pub flags_agree :
    (erange : ℕ) (srv cl : VtunHost) (before more : Bytes)
    → 0 < erange
    → IsCarried erange srv
    → HasProt srv
    → HasType srv
    → bit_and cl.flags 0x0fff ≡ 0
    → cl.spd_out ≡ pos 0
    → All (λ x. x ≢ b'<') before
    → (final : VtunHost) × (cf2bf erange (before ++ (bf2cf srv ++ more)) cl ≡ (true, final))
      × Agrees srv cl final
flags_agree erange srv cl before more positive carried one_prot one_type clean unset clear = (
  received srv cl,
  cf2bf-received erange srv cl before more positive carried clear,
  record {
    prot = agree_prot srv cl clean one_prot;
    type = agree_type srv cl clean one_type;
    zlib = agree_zlib srv cl clean;
    lzo = agree_lzo srv cl clean;
    keep_alive = agree_alive srv cl clean;
    encrypt = agree_encrypt srv cl clean;
    shape = agree_shape srv cl clean;
    kept = agree_kept srv cl clean;
    speed = agree_speed srv cl unset;
    level = agree_level srv cl;
    cipher = agree_cipher srv cl;
  },
)
