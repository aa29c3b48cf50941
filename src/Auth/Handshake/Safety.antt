-- ===== src/Auth/Handshake/Safety.antt =====
-- Whom the server lets in.
use vtun.Common.{
  ◌==◌, ◌≡◌, inl, inr, refl, subst, List, [], ◌∷◌, Bytes, Bool, true, ◌&&◌, ◌||◌, some, length,
  arith, Bool-cases, Option-cases,
}
use vtun.Common.Text.{codes}
use vtun.Common.Strings.{equal, equal_eq}
use vtun.Host.{VtunHost}
use vtun.Cipher.{BlockCipher}
use vtun.Auth.Chal.{cs2cl}
use vtun.Auth.Hosts.{find_host}
use vtun.Auth.Handshake.{
  st_host, st_chal, Server, granted, server_turn, server_loop, auth_server, decrypt_chal, word1,
  word2,
}

-- A response, read from a text, that proves the password of the session.
pub record Proves (c : BlockCipher) (challenge text : Bytes) (h : VtunHost) : Type 0 where
  pub response : Bytes
  pub read : cs2cl text ≡ some response
  pub right : challenge ≡ decrypt_chal c response h.passwd

-- What the server has seen and done when it lets a session in: it read the name of the session,
-- then a right response to its challenge, and took the lock.
pub record Admitted (c : BlockCipher) (random : Bytes) (lock_host : VtunHost → Bool)
    (hosts : List VtunHost) (bufs : List Bytes) (h : VtunHost) : Type 0 where
  pub first : Bytes
  pub second : Bytes
  pub more : List Bytes
  pub messages : bufs ≡ first ∷ second ∷ more
  pub asked : word1 first ≡ codes "HOST"
  pub answered : word1 second ≡ codes "CHAL"
  pub known : find_host hosts (word2 first) ≡ some h
  pub proves : Proves c random (word2 second) h
  pub locked : lock_host h ≡ true

both : (a b : Bool) → (a && b) ≡ true → (a ≡ true) × (b ≡ true)
both a b h = ground arith

module _ (c : BlockCipher) (random ver : Bytes) (lock_host : VtunHost → Bool)
    (hosts : List VtunHost) where
  granted-Proves :
      (s : Server) (text : Bytes) (h : VtunHost)
      → granted c random ver lock_host hosts s text ≡ some h
      → (find_host hosts s.host ≡ some h) × Proves c s.chal_req text h × (lock_host h ≡ true)
  unfolding granted
  granted-Proves s text h e = elim (Option-cases (cs2cl text)) [
    | inl none_read ↦ ground (arith, none_read)
    | inr (res, read) ↦ elim (Option-cases (find_host hosts s.host)) [
      | inl none_found ↦ ground (arith, read, none_found)
      | inr (k, found) ↦
          elim (Bool-cases (equal s.chal_req (decrypt_chal c res k.passwd) && lock_host k)) [
            | inl right ↦
                let same : k ≡ h = ground (arith, read, found, right) in
                subst
                  (λ z.
                    (find_host hosts s.host ≡ some z)
                    × Proves c s.chal_req text z
                    × (lock_host z ≡ true))
                  same
                  (
                    found,
                    record { response = res; read = read; right = equal_eq _ _ (both _ _ right).0 },
                    (both _ _ right).1,
                  )
            | inr wrong ↦ ground (arith, read, found, wrong)
          ]
    ]
  ]

  abbrev at_chal : Bytes → Server
  at_chal name = record { stage = st_chal; host = name; chal_req = random }

  -- The turn that answers a challenge.
  chal_turn :
      (name buf : Bytes) (bufs out : List Bytes) (h : VtunHost)
      → server_loop c random ver lock_host hosts (at_chal name) (buf ∷ bufs) ≡ (some h, out)
      → (word1 buf ≡ codes "CHAL")
        × (granted c random ver lock_host hosts (at_chal name) (word2 buf) ≡ some h)
  unfolding server_loop server_turn
  chal_turn name buf bufs out h e =
      elim (Bool-cases (length (word1 buf) == 0 || length (word2 buf) == 0)) [
        | inl empty ↦ ground (arith, empty)
        | inr words ↦ elim (Bool-cases (equal (word1 buf) (codes "CHAL"))) [
          | inl chal ↦
              elim (Option-cases
                (granted c random ver lock_host hosts (at_chal name) (word2 buf))) [
                  | inl refused ↦ ground (arith, words, chal, refused)
                  | inr (k, given) ↦ (equal_eq _ _ chal, ground (arith, words, chal, given))
                ]
          | inr other ↦ ground (arith, words, other)
        ]
      ]

  -- The turn that reads the name of the session.
  host_turn :
      (s : Server) (buf : Bytes) (bufs out : List Bytes) (h : VtunHost)
      → s.stage ≡ st_host
      → server_loop c random ver lock_host hosts s (buf ∷ bufs) ≡ (some h, out)
      → (word1 buf ≡ codes "HOST")
        × (rest : List Bytes) × (server_loop c random ver lock_host hosts (at_chal (word2 buf)) bufs
            ≡ (some h, rest))
  unfolding server_loop server_turn
  host_turn s buf bufs out h at e =
      elim (Bool-cases (length (word1 buf) == 0 || length (word2 buf) == 0)) [
        | inl empty ↦ ground (arith, empty)
        | inr words ↦ elim (Bool-cases (equal (word1 buf) (codes "HOST"))) [
          | inl asked ↦ (
            equal_eq _ _ asked,
            (server_loop c random ver lock_host hosts (at_chal (word2 buf)) bufs).1,
            ground (arith, at, words, asked),
          )
          | inr other ↦ ground (arith, at, words, other)
        ]
      ]

  admitted :
      (bufs out : List Bytes) (h : VtunHost)
      → server_loop c random ver lock_host hosts
          (record { stage = st_host; host = []; chal_req = [] })
          bufs
        ≡ (some h, out)
      → Admitted c random lock_host hosts bufs h
  unfolding server_loop
  admitted [] out h e = ground arith
  admitted (first ∷ []) out h e = let t = host_turn _ first [] out h refl e in ground (arith, t.2)
  admitted (first ∷ second ∷ more) out h e =
      let t = host_turn _ first (second ∷ more) out h refl e in
      let u = chal_turn (word2 first) second more t.1 h t.2 in
      let g = granted-Proves (at_chal (word2 first)) (word2 second) h u.1 in
      record {
        first = first;
        second = second;
        more = more;
        messages = refl;
        asked = t.0;
        answered = u.0;
        known = g.0;
        proves = g.1;
        locked = g.2;
      }

  -- Whatever messages the server reads, it lets a session in only if the first names that session,
  -- the second holds a response that decrypts with the session's password to the challenge that
  -- the server drew, and the lock of the session was taken.
  pub auth_server-Admitted :
      (bufs out : List Bytes) (h : VtunHost)
      → auth_server c random ver lock_host hosts bufs ≡ (some h, out)
      → Admitted c random lock_host hosts bufs h
  unfolding auth_server
  auth_server-Admitted bufs out h e =
      let r =
        server_loop c random ver lock_host hosts
          (record { stage = st_host; host = []; chal_req = [] }) bufs in
      admitted bufs r.1 h (ground arith)
