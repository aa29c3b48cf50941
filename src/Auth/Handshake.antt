-- ===== src/Auth/Handshake.antt =====
-- auth.c: `auth_server` and `auth_client`, which exchange padded messages of 50 bytes.
--
-- The messages that a side reads are a list, which ends where `readn_t` answers 0 or less (the peer
-- is gone, or the time is up); a result carries the messages that the side wrote. What comes from
-- outside is a parameter: the cipher, the random challenge, the version text, and whether
-- `lock_host` takes the lock, which depends on the file system.
pub mod Words
pub mod Texts
pub mod Safety
pub mod Agreement
use vtun.Common.{
  ℕ, ◌-◌, ◌==◌, List, [], ◌∷◌, ◌++◌, Bytes, Bool, true, false, ◌&&◌, ◌||◌, Option, none, some,
  if◌then◌else◌, length, take, replicate,
}
use vtun.Common.Text.{codes}
use vtun.Common.Strings.{c_string, token, cut, behind_token, equal, starts_with}
use vtun.Host.{VtunHost, vtun_mesg_size}
use vtun.Cipher.{BlockCipher, ecb}
use vtun.Auth.Chal.{cl2cs, cs2cl}
use vtun.Auth.Flags.{bf2cf, cf2bf}
use vtun.Auth.Hosts.{find_host}

pub data Stage : Type 0 where
  st_init : Stage
  st_host : Stage
  st_chal : Stage

-- lib.c: what `print_p` sends. `vsnprintf` writes the text and a NUL into all but the last byte.
unfoldable pub print_p : Bytes → Bytes
print_p text =
    let s = take (vtun_mesg_size - 2) text in s ++ replicate (vtun_mesg_size - length s) 0

-- The C string of a message that was read, where `buf[sizeof(buf) - 1] = '\0'`.
unfoldable pub string_of : Bytes → Bytes
string_of buf = c_string (take (vtun_mesg_size - 1) buf)

abbrev pub newline : Bytes
newline = 13 ∷ 10 ∷ []

abbrev pub blanks : Bytes
blanks = codes " :"

-- The line of a message, and the two words that the server takes from it; no word is empty text.
abbrev pub line : Bytes → Bytes
line buf = cut newline (string_of buf)

unfoldable pub word1 : Bytes → Bytes
word1 buf = token blanks (line buf)

unfoldable pub word2 : Bytes → Bytes
word2 buf = token blanks (behind_token blanks (line buf))

pub record Server : Type 0 where
  pub stage : Stage
  pub host : Bytes
  pub chal_req : Bytes

pub data Turn (S R : Type 0) : Type 0 where
  -- `continue`, with what was written
  continues : S → List Bytes → Turn S R
  -- the loop is left
  breaks : R → List Bytes → Turn S R

module _ (c : BlockCipher) where
  unfoldable pub encrypt_chal : Bytes → Bytes → Bytes
  unfolding ecb
  encrypt_chal chal pwd = ecb (c.encrypt (c.set_key pwd)) 2 chal

  unfoldable pub decrypt_chal : Bytes → Bytes → Bytes
  unfolding ecb
  decrypt_chal chal pwd = ecb (c.decrypt (c.set_key pwd)) 2 chal

  module _ (random ver : Bytes) (lock_host : VtunHost → Bool) (hosts : List VtunHost) where
    -- The case ST_CHAL behind the test for the word CHAL: the session that is granted.
    unfoldable pub granted : Server → Bytes → Option VtunHost
    unfolding cs2cl find_host
    granted s text = elim (cs2cl text) [
      | none ↦ none
      | some chal_res ↦ elim (find_host hosts s.host) [
        | none ↦ none
        | some h ↦
            if equal s.chal_req (decrypt_chal chal_res h.passwd) && lock_host h
            then some h
            else none
      ]
    ]

    -- The body of the loop of `auth_server`.
    unfoldable pub server_turn : Server → Bytes → Turn Server (Option VtunHost)
    server_turn s buf =
        if length (word1 buf) == 0 || length (word2 buf) == 0
        then breaks none []
        else elim s.stage [
          | st_host ↦
              if equal (word1 buf) (codes "HOST")
              then continues (record { stage = st_chal; host = word2 buf; chal_req = random })
                  (print_p (codes "OK CHAL: " ++ (cl2cs random ++ 10 ∷ [])) ∷ [])
              else breaks none []
          | st_chal ↦
              if equal (word1 buf) (codes "CHAL")
              then elim (granted s (word2 buf)) [
                | none ↦ breaks none []
                | some h ↦
                    breaks (some h) (print_p (codes "OK FLAGS: " ++ (bf2cf h ++ 10 ∷ [])) ∷ [])
              ]
              else breaks none []
          | st_init ↦ breaks none []
        ]

    unfoldable pub server_loop : Server → List Bytes → Option VtunHost × List Bytes
    server_loop s [] = (none, [])
    server_loop s (buf ∷ bufs) = elim (server_turn s buf) [
      | continues next out ↦ let (h, more) = server_loop next bufs in (h, out ++ more)
      | breaks h out ↦ (h, out)
    ]

    unfoldable pub auth_server : List Bytes → Option VtunHost × List Bytes
    unfolding server_loop
    auth_server bufs =
        let (h, out) = server_loop (record { stage = st_host; host = []; chal_req = [] }) bufs in
        let refusal : List Bytes = elim h [
          | none ↦ print_p (codes "ERR" ++ 10 ∷ []) ∷ []
          | some k ↦ []
        ] in
        (h, print_p (codes "VTUN server ver " ++ (ver ++ 10 ∷ [])) ∷ (out ++ refusal))

  module _ (erange : ℕ) where
    -- The body of the loop of `auth_client`; the result is whether it succeeded, and the host.
    unfoldable pub client_turn :
        Stage × VtunHost → Bytes → Turn (Stage × VtunHost) (Bool × VtunHost)
    client_turn (st_init, host) buf =
        if starts_with (codes "VTUN") (string_of buf)
        then continues (st_host, host) (print_p (codes "HOST: " ++ (host.host ++ 10 ∷ [])) ∷ [])
        else breaks (false, host) []
    client_turn (st_host, host) buf =
        let answer : Turn (Stage × VtunHost) (Bool × VtunHost) = elim (cs2cl (string_of buf)) [
          | none ↦ breaks (false, host) []
          | some chal ↦
              continues (st_chal, host)
                (print_p (codes "CHAL: " ++ (cl2cs (encrypt_chal chal host.passwd) ++ 10 ∷ []))
                  ∷ [])
        ] in
        if starts_with (codes "OK") (string_of buf) then answer else breaks (false, host) []
    client_turn (st_chal, host) buf =
        if starts_with (codes "OK") (string_of buf)
        then breaks (cf2bf erange (string_of buf) host) []
        else breaks (false, host) []

    unfoldable pub client_loop : Stage × VtunHost → List Bytes → (Bool × VtunHost) × List Bytes
    client_loop (stage, host) [] = ((false, host), [])
    client_loop s (buf ∷ bufs) = elim (client_turn s buf) [
      | continues next out ↦ let (r, more) = client_loop next bufs in (r, out ++ more)
      | breaks r out ↦ (r, out)
    ]

    unfoldable pub auth_client : VtunHost → List Bytes → (Bool × VtunHost) × List Bytes
    unfolding client_loop
    auth_client host bufs = client_loop (st_init, host) bufs
