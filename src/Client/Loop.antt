-- ===== src/Client/Loop.antt =====
-- When the client goes on and when it ends.
use vtun.Common.{
  ℕ, ◌==◌, ◌≡◌, ◌≢◌, ◌⊎◌, refl, sym, ap, ◌∙◌, subst, inl, inr, List, [], ◌∷◌, ◌++◌, append_assoc,
  append-nil, All, replicate, length, Bool, true, false, Bool-cases, not, ◌&&◌, ◌||◌, none, some,
  Option-cases, ℤ, pos, ◌==ℤ◌, if◌then◌else◌, arith,
}
use vtun.Host.{vtun_sig_term, vtun_sig_hup}
use vtun.Session.{Session, sleeps, attempts}
use vtun.Cipher.{BlockCipher}
use vtun.Net.{server_addr}
use vtun.Link.Linkfd.{Process}
use vtun.Client.{
  Options, Attempt, Attempted, Client, returned, running, blocked, goes_on, stops, begins,
  with_server, attempt, after_turn, client_turn, client_loop, start, client,
}

returned-injective : (c d : Client) → returned c ≡ returned d → c ≡ d
returned-injective c d e = ground (arith, e)

running-ne-returned : (c d : Client) → running c ≢ returned d
running-ne-returned c d e = ground (arith, e)

blocked-ne-returned : (d : Client) → blocked ≢ returned d
blocked-ne-returned d e = ground (arith, e)

-- The test of the loop, on its parts.
no_more :
    (g h o : Bool) (q : ℕ)
    → o ≡ false
    → q ≡ 0
    → h ≡ false
    → (not g || ((true && not h) && not (o || not (q == 0)))) ≡ true
no_more g h o q a b c = ground (arith, a, b, c)

-- Why the loop ends: by a signal or a critical error, or because nothing asks the client, which has
-- made an attempt that no hang-up ended, to persist.
abbrev pub Over : Options → Client → Type 0
Over opts d =
    (goes_on d.client_term ≡ false)
    ⊎ ((opts.persist ≡ false)
        × (d.session.host.persist ≡ 0)
        × (d.reconnect ≡ true)
        × ((d.client_term ==ℤ pos vtun_sig_hup) ≡ false))

ended :
    (g r h o : Bool) (q : ℕ)
    → (not g || ((r && not h) && not (o || not (q == 0)))) ≡ true
    → (g ≡ false) ⊎ ((o ≡ false) × (q ≡ 0) × (r ≡ true) × (h ≡ false))
ended false r h o q e = inl refl
ended true false h o q e = absurd (ground (arith, e))
ended true true true o q e = absurd (ground (arith, e))
ended true true false true q e = absurd (ground (arith, e))
ended true true false false q e = inr (refl, ground (arith, e), refl, refl)

forced :
    (z : ℤ) (r o : Bool) (q : ℕ)
    → z ≡ pos vtun_sig_hup
    → (not (goes_on z) || ((r && not (z ==ℤ pos vtun_sig_hup)) && not (o || not (q == 0)))) ≡ false
forced z r o q e = ground (arith, e)

not_again : (z : ℤ) (r : Bool) → z ≡ pos vtun_sig_hup → (r && not (z ==ℤ pos vtun_sig_hup)) ≡ false
not_again z r e = ground (arith, e)

module _ (cipher : BlockCipher) (erange : ℕ) (opts : Options) where
  client_loop-stops :
      (todo : List Attempt) (c : Client)
      → stops cipher erange opts c ≡ true
      → client_loop cipher erange opts todo c ≡ returned c
  unfolding client_loop
  client_loop-stops [] c h = rw (h, client_loop, if◌then◌else◌) refl
  client_loop-stops (a ∷ rest) c h = rw (h, client_loop) refl

  client_loop-runs :
      (c : Client)
      → stops cipher erange opts c ≡ false
      → client_loop cipher erange opts [] c ≡ running c
  unfolding client_loop
  client_loop-runs c h = rw (h, client_loop, if◌then◌else◌) refl

  client_loop-turn :
      (a : Attempt) (rest : List Attempt) (c d : Client)
      → stops cipher erange opts c ≡ false
      → client_turn cipher erange opts a c ≡ some d
      → client_loop cipher erange opts (a ∷ rest) c ≡ client_loop cipher erange opts rest d
  unfolding client_loop
  client_loop-turn a rest c d h turn = rw (h, client_loop, turn) refl

  -- The state behind the one turn of a client that does not go on.
  abbrev first_turn : Attempted → Client
  first_turn d = record {
    client_term = d.client_term;
    reconnect = true;
    session = d.session;
    process = d.process;
    acts = attempts ∷ d.acts;
  }

  -- A client that neither the options nor the session ask to persist makes one attempt: whatever becomes of
  -- it, unless a hang-up ended its session, the client returns behind it, and has not slept.
  pub client-once :
      (a : Attempt) (rest : List Attempt) (s : Session) (p : Process) (d : Attempted)
      → opts.persist ≡ false
      → attempt cipher erange opts a (pos 0) s p ≡ some d
      → d.session.host.persist ≡ 0
      → (d.client_term ==ℤ pos vtun_sig_hup) ≡ false
      → client cipher erange opts (a ∷ rest) s p ≡ returned (first_turn d)
  unfolding client client_turn
  client-once a rest s p d once made over no_hup =
      client_loop-turn a rest (start cipher erange opts s p) (first_turn d) refl
        (ap (after_turn cipher erange opts (start cipher erange opts s p)) made)
      ∙ client_loop-stops rest (first_turn d) (
          no_more (goes_on d.client_term) (d.client_term ==ℤ pos vtun_sig_hup) opts.persist
            d.session.host.persist once over no_hup)

  client_loop-persistent :
      (todo : List Attempt) (c d : Client)
      → client_loop cipher erange opts todo c ≡ returned d
      → Over opts d
  unfolding client_loop
  client_loop-persistent [] c d e = elim (Bool-cases (stops cipher erange opts c)) [
    | inl over ↦
        let same = returned-injective c d (sym (client_loop-stops [] c over) ∙ e) in
        subst (λ (z : Client). Over opts z) same
          (ended (goes_on c.client_term) c.reconnect (c.client_term ==ℤ pos vtun_sig_hup)
            opts.persist c.session.host.persist over)
    | inr on ↦ absurd (running-ne-returned c d (sym (client_loop-runs c on) ∙ e))
  ]
  client_loop-persistent (a ∷ rest) c d e = elim (Bool-cases (stops cipher erange opts c)) [
    | inl over ↦
        let same = returned-injective c d (sym (client_loop-stops (a ∷ rest) c over) ∙ e) in
        subst (λ (z : Client). Over opts z) same
          (ended (goes_on c.client_term) c.reconnect (c.client_term ==ℤ pos vtun_sig_hup)
            opts.persist c.session.host.persist over)
    | inr on ↦ elim (Option-cases (client_turn cipher erange opts a c)) [
      | inl runs ↦
          let still : client_loop cipher erange opts (a ∷ rest) c ≡ blocked =
            rw (on, client_loop, runs) refl in
          absurd (blocked-ne-returned d (sym still ∙ e))
      | inr (next, turn) ↦
          client_loop-persistent rest next d (sym (client_loop-turn a rest c next on turn) ∙ e)
    ]
  ]

  -- Whatever happens to a client, where it returns there is one of two reasons: its flag is neither 0 nor
  -- that of a hang-up, so a signal or a critical error ended it; or neither the options nor the session
  -- ask it to persist, it has made an attempt, and its flag is not that of a hang-up.
  pub client-persistent :
      (todo : List Attempt) (s : Session) (p : Process) (d : Client)
      → client cipher erange opts todo s p ≡ returned d
      → Over opts d
  unfolding client
  client-persistent todo s p d e = client_loop-persistent todo (start cipher erange opts s p) d e

  -- An attempt whose server has no address, and that no signal reaches.
  abbrev pub NoServer : Attempt → Type 0
  NoServer a = (a.sigterm ≡ false) × (a.names.gethostbyname opts.svr_name ≡ none)

  client_turn-NoServer :
      (a : Attempt) (c : Client)
      → NoServer a
      → c.client_term ≡ pos vtun_sig_hup
      → (d : Client) × (client_turn cipher erange opts a c ≡ some d)
        × (d.client_term ≡ pos vtun_sig_hup)
        × (d.acts ≡ c.acts ++ attempts ∷ [])
  unfolding client_turn attempt with_server server_addr
  client_turn-NoServer a c (quiet, gone) hup =
      let unfound : server_addr a.names opts.svr_name opts.port c.session ≡ none =
        rw (gone, server_addr) refl in
      let term : ℤ = if a.sigterm then pos vtun_sig_term else c.client_term in
      (
        record {
          client_term = term;
          reconnect = true;
          session = c.session;
          process = c.process;
          acts = c.acts ++ (begins cipher erange opts c ++ []);
        },
        ap
            (λ o.
              after_turn cipher erange opts c
                (with_server cipher erange opts a term c.session c.process o))
            unfound,
        rw (quiet, if◌then◌else◌) hup,
        ap (λ z. c.acts ++ ((if z then sleeps ∷ attempts ∷ [] else attempts ∷ []) ++ []))
            (not_again c.client_term c.reconnect hup),
      )

  -- A hang-up is never forgotten: a client whose session a hang-up ended tries again at once, and where the
  -- server has no address then, it tries again without a pause as often as the attempt fails, whether
  -- or not it is to persist. It does not return, and has not slept.
  pub client_loop-hup :
      (todo : List Attempt) (c : Client)
      → All NoServer todo
      → c.client_term ≡ pos vtun_sig_hup
      → (d : Client) × (client_loop cipher erange opts todo c ≡ running d)
        × (d.client_term ≡ pos vtun_sig_hup)
        × (d.acts ≡ c.acts ++ replicate (length todo) attempts)
  client_loop-hup [] c all hup = (
    c,
    client_loop-runs c (forced c.client_term c.reconnect opts.persist c.session.host.persist hup),
    hup,
    sym (append-nil c.acts),
  )
  client_loop-hup (a ∷ rest) c (first, all) hup =
      let (next, turn, still, acts) = client_turn-NoServer a c first hup in
      let (d, runs, end, more) = client_loop-hup rest next all still in
      (
        d,
        client_loop-turn a rest c next
              (forced c.client_term c.reconnect opts.persist c.session.host.persist hup) turn
            ∙ runs,
        end,
        more
            ∙ ap (λ z. z ++ replicate (length rest) attempts) acts
            ∙ append_assoc c.acts (attempts ∷ []) (replicate (length rest) attempts),
      )
