-- ===== src/Auth/Flags.antt =====
-- auth.c: `bf2cf` and `cf2bf`, the text in which the server tells a client the flags of a session.
--
-- `bf2cf` writes through a pointer that is static: this is its first call in the process, which is
-- the only one; that its 20-byte buffer has room for the text is not modelled. The test of `cf2bf`
-- for a missing number compares two places of one text, which here is a comparison of the lengths
-- of what is left of it.
pub mod Steps
pub mod Pieces
pub mod Masks
pub mod Fields
pub mod Reading
pub mod Agreement
pub mod Erange
pub mod Visible
use vtun.Common.{
  ℕ, zero, suc, ◌==◌, ◌==ℤ◌, Bool, true, false, not, List, [], ◌∷◌, ◌++◌, Bytes, ℤ, pos,
  if◌then◌else◌, length, ◌||◌, ◌&&◌,
}
use vtun.Common.Bits.{bit_and, bit_or}
use vtun.Common.Strings.{strchr}
use vtun.Common.Text.{dec_ℤ, strtol, to_int}
use vtun.Host.{
  VtunHost, invert, vtun_tcp, vtun_udp, vtun_prot_mask, vtun_tty, vtun_pipe, vtun_ether, vtun_tun,
  vtun_type_mask, vtun_shape, vtun_zlib, vtun_lzo, vtun_keep_alive, vtun_encrypt,
  vtun_legacy_encrypt,
}

-- `flags & mask` as a condition.
abbrev pub has : ℕ → ℕ → Bool
has flags mask = not (bit_and flags mask == 0)

abbrev pub prot_text : VtunHost → Bytes
prot_text h =
    let prot = bit_and h.flags vtun_prot_mask in
    if prot == vtun_tcp then b'T' ∷ [] else if prot == vtun_udp then b'U' ∷ [] else []

abbrev pub type_text : VtunHost → Bytes
type_text h =
    let type = bit_and h.flags vtun_type_mask in
    if type == vtun_tty
    then b't' ∷ []
    else if type == vtun_pipe
    then b'p' ∷ []
    else if type == vtun_ether
    then b'e' ∷ []
    else if type == vtun_tun
    then b'u' ∷ []
    else []

abbrev pub shape_text : VtunHost → Bytes
shape_text h = if has h.flags vtun_shape then b'S' ∷ dec_ℤ h.spd_in else []

abbrev pub zlib_text : VtunHost → Bytes
zlib_text h = if has h.flags vtun_zlib then b'C' ∷ dec_ℤ h.zlevel else []

abbrev pub lzo_text : VtunHost → Bytes
lzo_text h = if has h.flags vtun_lzo then b'L' ∷ dec_ℤ h.zlevel else []

abbrev pub alive_text : VtunHost → Bytes
alive_text h = if has h.flags vtun_keep_alive then b'K' ∷ [] else []

abbrev pub encrypt_text : VtunHost → Bytes
encrypt_text h =
    if has h.flags vtun_encrypt
    then (if h.cipher ==ℤ pos vtun_legacy_encrypt then b'E' ∷ [] else b'E' ∷ dec_ℤ h.cipher)
    else []

unfoldable pub bf2cf : VtunHost → Bytes
bf2cf h =
    b'<'
    ∷ (prot_text h
        ++ (type_text h
            ++ (shape_text h
                ++ (zlib_text h
                    ++ (lzo_text h ++ (alive_text h ++ (encrypt_text h ++ b'>' ∷ [])))))))

-- What the loop of `cf2bf` does after one character: it returns, or goes on from a place.
pub data Action : Type 0 where
  returns : Bool → VtunHost → Action
  goes_on : Bytes → VtunHost → Action

-- `host->flags |= bits`.
abbrev pub raise : ℕ → VtunHost → VtunHost
raise bits h = record h { flags = bit_or h.flags bits }

-- `host->flags &= ~VTUN_PROT_MASK; host->flags |= bits`.
abbrev pub set_prot : ℕ → VtunHost → VtunHost
set_prot bits h = record h { flags = bit_or (bit_and h.flags (invert vtun_prot_mask)) bits }

-- A client's case for `E`: a missing number and the number 0 mean the old method.
abbrev pub set_cipher : ℤ → VtunHost → VtunHost
set_cipher s h = record (raise vtun_encrypt h) {
  cipher = if s ==ℤ pos 0 then pos vtun_legacy_encrypt else s;
}

-- A client's case for `S`.
abbrev pub set_speed : ℤ → VtunHost → VtunHost
set_speed s h = if s ==ℤ pos 0 then h else record (raise vtun_shape h) { spd_out = s }

-- `ERANGE` of the C library, to which the code compares what `strtol` returned.
module _ (erange : ℕ) where
  -- A number is read behind a letter; it is refused if it equals ERANGE, and if it is missing.
  abbrev pub number : Bool → Bytes → (ℤ → VtunHost → VtunHost) → VtunHost → Action
  number optional s use_it h =
      let (long, rest) = strtol s in
      let value = to_int long in
      if (value ==ℤ pos erange) || (not optional && length rest == length s)
      then returns false h
      else goes_on rest (use_it value h)

  -- The `switch` of `cf2bf` on the character `c`, with `s` behind it.
  unfoldable pub action : ℕ → Bytes → VtunHost → Action
  action c s h =
      if c == b't'
      then goes_on s (raise vtun_tty h)
      else if c == b'p'
      then goes_on s (raise vtun_pipe h)
      else if c == b'e'
      then goes_on s (raise vtun_ether h)
      else if c == b'u'
      then goes_on s (raise vtun_tun h)
      else if c == b'U'
      then goes_on s (set_prot vtun_udp h)
      else if c == b'T'
      then goes_on s (set_prot vtun_tcp h)
      else if c == b'K'
      then goes_on s (raise vtun_keep_alive h)
      else if c == b'C'
      then number false s (λ z k. record (raise vtun_zlib k) { zlevel = z }) h
      else if c == b'L'
      then number false s (λ z k. record (raise vtun_lzo k) { zlevel = z }) h
      else if c == b'E'
      then number true s set_cipher h
      else if c == b'S'
      then number false s set_speed h
      else if c == b'F'
      then goes_on s h
      else if c == b'>'
      then returns true h
      else returns false h

  -- The loop of `cf2bf` over the text behind `<`.
  unfoldable pub flags_loop : ℕ → Bytes → VtunHost → Bool × VtunHost
  flags_loop zero s h = (false, h)
  flags_loop (suc fuel) [] h = (false, h)
  flags_loop (suc fuel) (c ∷ s) h = elim (action c s h) [
    | returns b k ↦ (b, k)
    | goes_on rest k ↦ flags_loop fuel rest k
  ]

module _ (erange : ℕ) where
  -- `cf2bf(str, host)` for a C string: its result, and the host that it wrote to.
  unfoldable pub cf2bf : Bytes → VtunHost → Bool × VtunHost
  unfolding strchr flags_loop action
  cf2bf str h = elim (strchr str b'<') [
    | [] ↦ (false, h)
    | c ∷ s ↦ flags_loop erange (suc (length s)) s h
  ]
