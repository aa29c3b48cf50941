-- ===== src/Auth/Flags/Pieces.antt =====
-- The pieces of the flag text, each written by `bf2cf` and read back by `cf2bf`.
use vtun.Common.{
  ℕ, ◌==◌, ◌≡◌, ◌≢◌, ◌<◌, ◌∙◌, refl, ==ℤ-ne, Bool, true, false, ◌∷◌, ◌++◌, Bytes, ℤ, pos,
  if◌then◌else◌, arith, length-append, inl, inr, Bool-cases,
}
use vtun.Common.Bits.{bit_and}
use vtun.Common.Text.{dec_ℤ, IsInt, EndsNumber, strtol_gt, to_int}
use vtun.Host.{
  VtunHost, vtun_tcp, vtun_udp, vtun_prot_mask, vtun_tty, vtun_pipe, vtun_ether, vtun_tun,
  vtun_type_mask, vtun_shape, vtun_zlib, vtun_lzo, vtun_keep_alive, vtun_encrypt,
}
use vtun.Auth.Flags.{
  action, number, raise, set_prot, set_cipher, set_speed, has, prot_text, type_text, shape_text,
  zlib_text, lzo_text, alive_text, encrypt_text,
}
use vtun.Auth.Flags.Steps.{Ends, Ends-step, Ends-return, number-dec_ℤ}

-- What reading the pieces of `srv` does to the client's host `h`.
abbrev pub take_prot : VtunHost → VtunHost → VtunHost
take_prot srv h =
    let prot = bit_and srv.flags vtun_prot_mask in
    if prot == vtun_tcp
    then set_prot vtun_tcp h
    else if prot == vtun_udp
    then set_prot vtun_udp h
    else h

abbrev pub take_type : VtunHost → VtunHost → VtunHost
take_type srv h =
    let type = bit_and srv.flags vtun_type_mask in
    if type == vtun_tty
    then raise vtun_tty h
    else if type == vtun_pipe
    then raise vtun_pipe h
    else if type == vtun_ether
    then raise vtun_ether h
    else if type == vtun_tun
    then raise vtun_tun h
    else h

abbrev pub take_shape : VtunHost → VtunHost → VtunHost
take_shape srv h = if has srv.flags vtun_shape then set_speed srv.spd_in h else h

abbrev pub take_zlib : VtunHost → VtunHost → VtunHost
take_zlib srv h =
    if has srv.flags vtun_zlib then record (raise vtun_zlib h) { zlevel = srv.zlevel } else h

abbrev pub take_lzo : VtunHost → VtunHost → VtunHost
take_lzo srv h =
    if has srv.flags vtun_lzo then record (raise vtun_lzo h) { zlevel = srv.zlevel } else h

abbrev pub take_alive : VtunHost → VtunHost → VtunHost
take_alive srv h = if has srv.flags vtun_keep_alive then raise vtun_keep_alive h else h

abbrev pub take_encrypt : VtunHost → VtunHost → VtunHost
take_encrypt srv h =
    if has srv.flags vtun_encrypt then record (raise vtun_encrypt h) { cipher = srv.cipher } else h

-- The values that the text can carry to a C library with this ERANGE.
pub record IsCarried (erange : ℕ) (srv : VtunHost) : Type 0 where
  pub spd_in : has srv.flags vtun_shape ≡ true → IsInt srv.spd_in × (srv.spd_in ≢ pos erange)
  pub zlevel_zlib : has srv.flags vtun_zlib ≡ true → IsInt srv.zlevel × (srv.zlevel ≢ pos erange)
  pub zlevel_lzo : has srv.flags vtun_lzo ≡ true → IsInt srv.zlevel × (srv.zlevel ≢ pos erange)
  pub cipher :
      has srv.flags vtun_encrypt ≡ true
      → IsInt srv.cipher × (srv.cipher ≢ pos erange) × (srv.cipher ≢ pos 0)

-- No piece continues the number of the piece before it.
pub EndsNumber-encrypt :
    (srv : VtunHost) (s : Bytes) → EndsNumber s → EndsNumber (encrypt_text srv ++ s)
EndsNumber-encrypt srv s e = ground arith

pub EndsNumber-alive :
    (srv : VtunHost) (s : Bytes) → EndsNumber s → EndsNumber (alive_text srv ++ s)
EndsNumber-alive srv s e = ground arith

pub EndsNumber-lzo : (srv : VtunHost) (s : Bytes) → EndsNumber s → EndsNumber (lzo_text srv ++ s)
EndsNumber-lzo srv s e = ground arith

pub EndsNumber-zlib : (srv : VtunHost) (s : Bytes) → EndsNumber s → EndsNumber (zlib_text srv ++ s)
EndsNumber-zlib srv s e = ground arith

module _ (erange : ℕ) (srv h : VtunHost) (r : Bool × VtunHost) (s : Bytes) where
  pub prot_piece : Ends erange s (take_prot srv h) r → Ends erange (prot_text srv ++ s) h r
  unfolding action
  prot_piece next = ground (
    arith,
    Ends-step erange b'T' s s h (set_prot vtun_tcp h) r refl (omega arith),
    Ends-step erange b'U' s s h (set_prot vtun_udp h) r refl (omega arith),
  )

  pub type_piece : Ends erange s (take_type srv h) r → Ends erange (type_text srv ++ s) h r
  unfolding action
  type_piece next = ground (
    arith,
    Ends-step erange b't' s s h (raise vtun_tty h) r refl (omega arith),
    Ends-step erange b'p' s s h (raise vtun_pipe h) r refl (omega arith),
    Ends-step erange b'e' s s h (raise vtun_ether h) r refl (omega arith),
    Ends-step erange b'u' s s h (raise vtun_tun h) r refl (omega arith),
  )

  pub alive_piece : Ends erange s (take_alive srv h) r → Ends erange (alive_text srv ++ s) h r
  unfolding action
  alive_piece next =
      ground (arith, Ends-step erange b'K' s s h (raise vtun_keep_alive h) r refl (omega arith))

  -- A letter with a number behind it.
  numbered :
      (letter : ℕ) (optional : Bool) (z : ℤ) (use_it : ℤ → VtunHost → VtunHost)
      → ((t : Bytes) → action erange letter t h ≡ number erange optional t use_it h)
      → IsInt z
      → z ≢ pos erange
      → EndsNumber s
      → Ends erange s (use_it z h) r
      → Ends erange (letter ∷ dec_ℤ z ++ s) h r
  numbered letter optional z use_it acts small other ends next =
      Ends-step erange letter (dec_ℤ z ++ s) s h (use_it z h) r
        (acts (dec_ℤ z ++ s) ∙ number-dec_ℤ erange optional z s use_it h small other ends)
        (omega (arith, length-append (dec_ℤ z) s)) next

  pub shape_piece :
      IsCarried erange srv
      → EndsNumber s
      → Ends erange s (take_shape srv h) r
      → Ends erange (shape_text srv ++ s) h r
  unfolding action
  shape_piece carried ends next = elim (Bool-cases (has srv.flags vtun_shape)) [
    | inl on ↦
        let c = carried.spd_in on in
        ground (arith, on, numbered b'S' false srv.spd_in set_speed (λ t. refl) c.0 c.1 ends)
    | inr off ↦ ground (arith, off)
  ]

  pub zlib_piece :
      IsCarried erange srv
      → EndsNumber s
      → Ends erange s (take_zlib srv h) r
      → Ends erange (zlib_text srv ++ s) h r
  unfolding action
  zlib_piece carried ends next = elim (Bool-cases (has srv.flags vtun_zlib)) [
    | inl on ↦
        let c = carried.zlevel_zlib on in
        let use_it : ℤ → VtunHost → VtunHost = λ z k. record (raise vtun_zlib k) { zlevel = z } in
        ground (arith, on, numbered b'C' false srv.zlevel use_it (λ t. refl) c.0 c.1 ends)
    | inr off ↦ ground (arith, off)
  ]

  pub lzo_piece :
      IsCarried erange srv
      → EndsNumber s
      → Ends erange s (take_lzo srv h) r
      → Ends erange (lzo_text srv ++ s) h r
  unfolding action
  lzo_piece carried ends next = elim (Bool-cases (has srv.flags vtun_lzo)) [
    | inl on ↦
        let c = carried.zlevel_lzo on in
        let use_it : ℤ → VtunHost → VtunHost = λ z k. record (raise vtun_lzo k) { zlevel = z } in
        ground (arith, on, numbered b'L' false srv.zlevel use_it (λ t. refl) c.0 c.1 ends)
    | inr off ↦ ground (arith, off)
  ]

module _ (erange : ℕ) (srv h : VtunHost) (r : Bool × VtunHost) (s : Bytes) where
  -- A bare `E`, in front of the end.
  old_method :
      0 < erange
      → Ends erange (b'>' ∷ s) (set_cipher (pos 0) h) r
      → Ends erange (b'E' ∷ b'>' ∷ s) h r
  unfolding action to_int
  old_method positive next =
      Ends-step erange b'E' (b'>' ∷ s) (b'>' ∷ s) h (set_cipher (pos 0) h) r
        (rw (strtol_gt s) (ground arith)) (omega arith) next

  set_cipher-other :
      (z : ℤ) → z ≢ pos 0 → set_cipher z h ≡ record (raise vtun_encrypt h) { cipher = z }
  set_cipher-other z other = rw (==ℤ-ne z (pos 0) other)

  pub encrypt_piece :
      0 < erange
      → IsCarried erange srv
      → Ends erange (b'>' ∷ s) (take_encrypt srv h) r
      → Ends erange (encrypt_text srv ++ b'>' ∷ s) h r
  unfolding action
  encrypt_piece positive carried next = elim (Bool-cases (has srv.flags vtun_encrypt)) [
    | inl on ↦
        let c = carried.cipher on in
        ground (
          arith,
          on,
          old_method positive,
          set_cipher-other srv.cipher c.2,
          numbered erange srv h r (b'>' ∷ s) b'E' true srv.cipher set_cipher (λ t. refl) c.0 c.1
              refl,
        )
    | inr off ↦ ground (arith, off)
  ]

  pub end_piece : Ends erange (b'>' ∷ s) h (true, h)
  unfolding action
  end_piece = Ends-return erange b'>' s h h true refl
