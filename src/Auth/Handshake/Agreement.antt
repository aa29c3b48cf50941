-- ===== src/Auth/Handshake/Agreement.antt =====
-- A whole handshake: the server and a client that knows the password.
use vtun.Common.{
  ℕ, ◌≡◌, ◌<◌, ◌≤◌, ◌∙◌, ap, List, [], ◌∷◌, Bytes, IsBytes, Bool, true, some, length, arith, All,
}
use vtun.Common.Text.{codes}
use vtun.Common.Strings.{equal_refl}
use vtun.Host.{VtunHost}
use vtun.Cipher.{BlockCipher, ecb-decrypt, ecb-IsBytes, length-ecb}
use vtun.Auth.Chal.{cl2cs, cs2cl, vtun_chal_size}
use vtun.Auth.Flags.{bf2cf}
use vtun.Auth.Flags.Pieces.{IsCarried}
use vtun.Auth.Flags.Reading.{received}
use vtun.Auth.Hosts.{find_host}
use vtun.Auth.Handshake.{
  st_host, st_chal, st_init, Server, continues, breaks, granted, server_turn, server_loop,
  auth_server, client_turn, client_loop, auth_client, encrypt_chal, decrypt_chal, word1, word2,
}
use vtun.Auth.Handshake.Words.{IsWordChar, word1_eq, word2_eq}
use vtun.Auth.Handshake.Texts.{
  ok_start, flags_start, host_line, chal_line, ok_chal_line, ok_flags_line, greeting_line,
  host_word, chal_read, chal_asked, chal_answer, answer_read, flags_read, greeted,
}

cl2cs_nonempty : (chal : Bytes) → 0 < length (cl2cs chal)
unfolding cl2cs
cl2cs_nonempty chal = omega arith

-- A session that both sides know, and the lock for it: the name is one word that fits the message,
-- and the flag text fits its own.
pub record IsShared (erange : ℕ) (lock_host : VtunHost → Bool) (hosts : List VtunHost)
    (srv cl : VtunHost) : Type 0 where
  pub known : find_host hosts cl.host ≡ some srv
  pub passwd : srv.passwd ≡ cl.passwd
  pub locked : lock_host srv ≡ true
  pub carried : IsCarried erange srv
  pub flags_fit : length (bf2cf srv) ≤ 37
  pub name_fits : length cl.host ≤ 40
  pub named : 0 < length cl.host
  pub word : All IsWordChar cl.host

module _ (c : BlockCipher) (random ver : Bytes) (lock_host : VtunHost → Bool)
    (hosts : List VtunHost) where
  host_words :
      (name : Bytes)
      → 0 < length name
      → length name ≤ 40
      → All IsWordChar name
      → (word1 (host_line name) ≡ codes "HOST") × (word2 (host_line name) ≡ name)
  host_words [] some_name fits word = absurd (omega arith)
  host_words (y ∷ r) some_name fits word = (
    word1_eq b'H' y (codes "OST") r host_word word (omega arith),
    word2_eq b'H' y (codes "OST") r host_word word (omega arith),
  )

  module _ (bytes : IsBytes random) (size : length random ≡ vtun_chal_size) where
    response_bytes : (pwd : Bytes) → IsBytes (encrypt_chal c random pwd)
    unfolding encrypt_chal
    response_bytes pwd = ecb-IsBytes c (c.set_key pwd) 2 random size bytes

    response_size : (pwd : Bytes) → length (encrypt_chal c random pwd) ≡ vtun_chal_size
    unfolding encrypt_chal
    response_size pwd = length-ecb c (c.set_key pwd) 2 random size

    response_right : (pwd : Bytes) → decrypt_chal c (encrypt_chal c random pwd) pwd ≡ random
    unfolding encrypt_chal decrypt_chal
    response_right pwd = ecb-decrypt c (c.set_key pwd) 2 random size bytes

    module _ (erange : ℕ) (srv cl : VtunHost)
        (shared : IsShared erange lock_host hosts srv cl) where
      abbrev response : Bytes
      response = encrypt_chal c random cl.passwd

      abbrev asked : Server
      asked = record { stage = st_chal; host = cl.host; chal_req = random }

      granted_eq :
          granted c random ver lock_host hosts asked (word2 (chal_line response)) ≡ some srv
      unfolding granted
      granted_eq =
          let read : cs2cl (word2 (chal_line response)) ≡ some response =
            ap (λ s. cs2cl s)
              (chal_answer response (response_bytes cl.passwd) (response_size cl.passwd))
            ∙ answer_read response (response_bytes cl.passwd) (response_size cl.passwd) in
          let right : decrypt_chal c response srv.passwd ≡ random =
            ap (λ p. decrypt_chal c response p) shared.passwd ∙ response_right cl.passwd in
          ground (arith, read, shared.known, right, equal_refl random, shared.locked)

      server_first :
          server_turn c random ver lock_host hosts
            (record { stage = st_host; host = []; chal_req = [] })
            (host_line cl.host)
          ≡ continues asked (ok_chal_line random ∷ [])
      unfolding server_turn
      server_first =
          let w = host_words cl.host shared.named shared.name_fits shared.word in
          let one : word1 (host_line cl.host) ≡ codes "HOST" = w.0 in
          let two : word2 (host_line cl.host) ≡ cl.host = w.1 in
          ground (arith, one, two, shared.named)

      server_second :
          server_turn c random ver lock_host hosts asked (chal_line response)
          ≡ breaks (some srv) (ok_flags_line srv ∷ [])
      unfolding server_turn
      server_second =
          let one : word1 (chal_line response) ≡ codes "CHAL" =
            chal_asked response (response_bytes cl.passwd) (response_size cl.passwd) in
          let two : word2 (chal_line response) ≡ cl2cs response =
            chal_answer response (response_bytes cl.passwd) (response_size cl.passwd) in
          ground (arith, one, two, cl2cs_nonempty response, granted_eq)

      server_run :
          auth_server c random ver lock_host hosts (host_line cl.host ∷ chal_line response ∷ [])
          ≡ (some srv, greeting_line ver ∷ ok_chal_line random ∷ ok_flags_line srv ∷ [])
      unfolding auth_server server_loop
      server_run = ground (arith, server_first, server_second)

      client_first :
          client_turn c erange (st_init, cl) (greeting_line ver)
          ≡ continues (st_host, cl) (host_line cl.host ∷ [])
      unfolding client_turn
      client_first = ground (arith, greeted ver)

      client_second :
          client_turn c erange (st_host, cl) (ok_chal_line random)
          ≡ continues (st_chal, cl) (chal_line response ∷ [])
      unfolding client_turn
      client_second = ground (arith, chal_read random bytes size, ok_start random bytes size)

      client_third :
          0 < erange
          → client_turn c erange (st_chal, cl) (ok_flags_line srv)
            ≡ breaks (true, received srv cl) []
      unfolding client_turn
      client_third positive = ground (
        arith,
        flags_start srv shared.flags_fit,
        flags_read srv shared.flags_fit erange cl positive shared.carried,
      )

      client_run :
          0 < erange
          → auth_client c erange cl
              (greeting_line ver ∷ ok_chal_line random ∷ ok_flags_line srv ∷ [])
            ≡ ((true, received srv cl), host_line cl.host ∷ chal_line response ∷ [])
      unfolding auth_client client_loop
      client_run positive = ground (arith, client_first, client_second, client_third positive)

-- A server and a client that share a session (same password, the name known to the server and its
-- lock free, a name and flags that fit their messages): each side's messages, read by the other,
-- make the server let the session in and the client succeed, with the flags of the session.
pub handshake :
    (c : BlockCipher) (random ver : Bytes) (lock_host : VtunHost → Bool) (hosts : List VtunHost)
    (erange : ℕ) (srv cl : VtunHost)
    → IsBytes random
    → length random ≡ vtun_chal_size
    → 0 < erange
    → IsShared erange lock_host hosts srv cl
    → (from_client : List Bytes) × (from_server : List Bytes) × (auth_server c random ver lock_host
          hosts from_client
        ≡ (some srv, from_server))
      × (auth_client c erange cl from_server ≡ ((true, received srv cl), from_client))
handshake c random ver lock_host hosts erange srv cl bytes size positive shared = (
  _,
  _,
  server_run c random ver lock_host hosts bytes size erange srv cl shared,
  client_run c random ver lock_host hosts bytes size erange srv cl shared positive,
)
