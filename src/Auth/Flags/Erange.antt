-- ===== src/Auth/Flags/Erange.antt =====
-- The value of ERANGE, which the client mistakes for an error.
use vtun.Common.{
  ℕ, ◌≡◌, ◌≢◌, ◌<◌, ◌^◌, subst, ◌∙◌, refl, ap, sym, true, false, ◌∷◌, ◌++◌, Bytes, pos, All, arith,
}
use vtun.Common.Text.{EndsNumber}
use vtun.Host.{VtunHost, vtun_shape}
use vtun.Auth.Flags.{
  has, bf2cf, cf2bf, type_text, shape_text, zlib_text, lzo_text, alive_text, encrypt_text,
}
use vtun.Auth.Flags.Steps.{Ends}
use vtun.Auth.Flags.Pieces
use vtun.Auth.Flags.Pieces.{
  IsCarried, take_prot, take_type, take_shape, take_zlib, take_lzo, take_alive, take_encrypt,
}
use vtun.Common.Text.{dec_ℤ, strtol-dec_ℤ, to_int_self}
use vtun.Auth.Flags.{action}
use vtun.Auth.Flags.Steps.{Ends-return}
use vtun.Auth.Flags.Reading.{pieces, text-append, cf2bf-found}

-- What follows the speed does not continue its number.
behind_speed :
    (srv : VtunHost) (more : Bytes)
    → EndsNumber
        (zlib_text srv ++ (lzo_text srv ++ (alive_text srv ++ (encrypt_text srv ++ b'>' ∷ more))))
behind_speed srv more =
    let e6 = Pieces.EndsNumber-encrypt srv (b'>' ∷ more) refl in
    let e5 = Pieces.EndsNumber-alive srv _ e6 in
    let e4 = Pieces.EndsNumber-lzo srv _ e5 in Pieces.EndsNumber-zlib srv _ e4

refused :
    (erange : ℕ) (s : Bytes) (h : VtunHost)
    → erange < 2 ^ 31
    → EndsNumber s
    → Ends erange (b'S' ∷ dec_ℤ (pos erange) ++ s) h (false, h)
unfolding action
refused erange s h small ends = Ends-return erange b'S' (dec_ℤ (pos erange) ++ s) h h false (
    rw (strtol-dec_ℤ (pos erange) s small ends, action, to_int_self (pos erange) small)
      (ground arith))

shape_refused :
    (erange : ℕ) (srv h : VtunHost) (s : Bytes)
    → erange < 2 ^ 31
    → has srv.flags vtun_shape ≡ true
    → srv.spd_in ≡ pos erange
    → EndsNumber s
    → Ends erange (shape_text srv ++ s) h (false, h)
shape_refused erange srv h s small on e ends =
    let text : shape_text srv ≡ b'S' ∷ dec_ℤ (pos erange) = ground (arith, on, e) in
    subst (λ t. Ends erange (t ++ s) h (false, h)) (sym text) (refused erange s h small ends)

-- A server whose shaped speed is the number ERANGE (34 on Linux) writes a flag text that every
-- client refuses, since `cf2bf` compares the number that it read, and not `errno`, to ERANGE.
pub erange_refused :
    (erange : ℕ) (srv cl : VtunHost) (before more : Bytes)
    → erange < 2 ^ 31
    → has srv.flags vtun_shape ≡ true
    → srv.spd_in ≡ pos erange
    → All (λ x. x ≢ b'<') before
    → (final : VtunHost) × (cf2bf erange (before ++ (bf2cf srv ++ more)) cl ≡ (false, final))
erange_refused erange srv cl before more small on e clear =
    let behind =
      zlib_text srv ++ (lzo_text srv ++ (alive_text srv ++ (encrypt_text srv ++ b'>' ∷ more))) in
    let h = take_type srv (take_prot srv cl) in
    let ends : Ends erange (pieces srv more) cl (false, h) =
      Pieces.prot_piece erange srv cl (false, h) (type_text srv ++ (shape_text srv ++ behind))
        (Pieces.type_piece erange srv (take_prot srv cl) (false, h) (shape_text srv ++ behind)
          (shape_refused erange srv h behind small on e (behind_speed srv more))) in
    (
      h,
      ap (λ s. cf2bf erange (before ++ s) cl) (text-append srv more)
          ∙ cf2bf-found erange cl before (pieces srv more) (false, h) clear ends,
    )
