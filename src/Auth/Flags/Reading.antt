-- ===== src/Auth/Flags/Reading.antt =====
-- `cf2bf` reads the text of `bf2cf`.
use vtun.Common.{
  ℕ, suc, ◌≡◌, ◌≢◌, ◌<◌, ◌∙◌, refl, ap, Bool, true, ◌∷◌, ◌++◌, Bytes, length, All, arith,
  append_assoc,
}
use vtun.Common.Strings.{strchr-append}
use vtun.Common.Text.{EndsNumber}
use vtun.Host.{VtunHost}
use vtun.Auth.Flags.{
  bf2cf, cf2bf, prot_text, type_text, shape_text, zlib_text, lzo_text, alive_text, encrypt_text,
}
use vtun.Auth.Flags.Steps.{Ends}
use vtun.Auth.Flags.Pieces
use vtun.Auth.Flags.Pieces.{
  IsCarried, take_prot, take_type, take_shape, take_zlib, take_lzo, take_alive, take_encrypt,
}

-- The client's host behind all the pieces.
abbrev pub received : VtunHost → VtunHost → VtunHost
received srv cl = take_encrypt srv (
    take_alive srv
      (take_lzo srv (take_zlib srv (take_shape srv (take_type srv (take_prot srv cl))))))

-- The flag text behind its `<`, and what follows it on the line.
abbrev pub pieces : VtunHost → Bytes → Bytes
pieces srv more =
    prot_text srv
    ++ (type_text srv
        ++ (shape_text srv
            ++ (zlib_text srv
                ++ (lzo_text srv ++ (alive_text srv ++ (encrypt_text srv ++ b'>' ∷ more))))))

pieces_end :
    (erange : ℕ) (srv cl : VtunHost) (more : Bytes)
    → 0 < erange
    → IsCarried erange srv
    → Ends erange (pieces srv more) cl (true, received srv cl)
pieces_end erange srv cl more positive carried =
    let h1 = take_prot srv cl in
    let h2 = take_type srv h1 in
    let h3 = take_shape srv h2 in
    let h4 = take_zlib srv h3 in
    let h5 = take_lzo srv h4 in
    let h6 = take_alive srv h5 in
    let r : Bool × VtunHost = (true, received srv cl) in
    let s6 = encrypt_text srv ++ b'>' ∷ more in
    let e6 : EndsNumber s6 = Pieces.EndsNumber-encrypt srv (b'>' ∷ more) refl in
    let s5 = alive_text srv ++ s6 in
    let e5 : EndsNumber s5 = Pieces.EndsNumber-alive srv s6 e6 in
    let s4 = lzo_text srv ++ s5 in
    let e4 : EndsNumber s4 = Pieces.EndsNumber-lzo srv s5 e5 in
    let s3 = zlib_text srv ++ s4 in
    let e3 : EndsNumber s3 = Pieces.EndsNumber-zlib srv s4 e4 in
    let s2 = shape_text srv ++ s3 in
    let s1 = type_text srv ++ s2 in
    Pieces.prot_piece erange srv cl r s1 (
      Pieces.type_piece erange srv h1 r s2 (
        Pieces.shape_piece erange srv h2 r s3 carried e3 (
          Pieces.zlib_piece erange srv h3 r s4 carried e4 (
            Pieces.lzo_piece erange srv h4 r s5 carried e5 (
              Pieces.alive_piece erange srv h5 r s6 (
                Pieces.encrypt_piece erange srv h6 r more positive carried
                  (Pieces.end_piece erange srv (received srv cl) r more)))))))

pub text-append : (srv : VtunHost) (more : Bytes) → bf2cf srv ++ more ≡ b'<' ∷ pieces srv more
unfolding bf2cf
text-append srv more = simp append_assoc

pub cf2bf-found :
    (erange : ℕ) (cl : VtunHost) (before s : Bytes) (r : Bool × VtunHost)
    → All (λ x. x ≢ b'<') before
    → Ends erange s cl r
    → cf2bf erange (before ++ b'<' ∷ s) cl ≡ r
unfolding cf2bf
cf2bf-found erange cl before s r clear ends =
    rw (strchr-append b'<' before s clear, cf2bf) (ends (suc (length s)) (omega arith))

-- `cf2bf` on a line that holds the flag text of `srv`.
pub cf2bf-received :
    (erange : ℕ) (srv cl : VtunHost) (before more : Bytes)
    → 0 < erange
    → IsCarried erange srv
    → All (λ x. x ≢ b'<') before
    → cf2bf erange (before ++ (bf2cf srv ++ more)) cl ≡ (true, received srv cl)
cf2bf-received erange srv cl before more positive carried clear =
    ap (λ s. cf2bf erange (before ++ s) cl) (text-append srv more)
    ∙ cf2bf-found erange cl before (pieces srv more) (true, received srv cl) clear
        (pieces_end erange srv cl more positive carried)
