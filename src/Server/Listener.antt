-- ===== src/Server/Listener.antt =====
-- server.c: `listener` in the process that accepts the clients, and the choice that `server` makes.
--
-- What `accept` and `fork` answer in a turn is an `Accept`. A child closes the listening socket and serves
-- its client by `connection`, which does not return.
use vtun.Common.{
  ℕ, ◌==◌, ◌≡◌, refl, sym, ◌∙◌, subst, append-nil, append_assoc, List, [], ◌∷◌, ◌++◌, Bool, true,
  false, not, ◌||◌, Option, none, some, Option-cases, ℤ, if◌then◌else◌, inl, inr,
}
use mathlib.Core.Option
use vtun.Host.{vtun_sig_term, vtun_sig_hup}
use vtun.Session.{VtunAddr, SockAddr, Action, opens, closes}
use vtun.Net.{Names, generic_addr}
use vtun.Link.Linkfd.{Process}
use vtun.Lock.{Files}
use vtun.Server.{Config, Guest, Served, connection}
use vtun.Tunnel.Settled.{Settled, Settled-both}

pub data Accept : Type 0 where
  -- `accept` fails
  refused : Accept
  -- SIGTERM or SIGINT arrives, by which `accept` fails too
  by_signal : Accept
  -- a client's socket, and whether `fork` makes a process for it
  accepted : ℤ → (forks : Bool) → Accept

-- What the system answers to the set-up.
pub record Setup : Type 0 where
  pub names : Names
  pub bind_addr : VtunAddr
  pub socket : Option ℤ
  pub binds : SockAddr → Bool
  pub listens : Bool

-- The state of the loop; `children` are the sockets that have a process.
pub record Listening : Type 0 where
  pub listening : ℤ
  pub server_term : ℕ
  pub children : List ℤ
  pub acts : List Action

unfoldable pub accept_turn : Accept → Listening → Listening
accept_turn refused l = l
accept_turn by_signal l = record l { server_term = vtun_sig_term }
accept_turn (accepted fd forks) l = record l {
  children = if forks then l.children ++ fd ∷ [] else l.children;
  acts = l.acts ++ opens fd ∷ closes fd ∷ [];
}

abbrev pub ends : Listening → Bool
ends l = not ((l.server_term == 0) || (l.server_term == vtun_sig_hup))

-- The state behind the turns, and whether the loop has ended.
unfoldable pub listener_loop : List Accept → Listening → Listening × Bool
unfolding accept_turn
listener_loop [] l = (l, ends l)
listener_loop (a ∷ turns) l = elim (ends l) [
  | true ↦ (l, true)
  | false ↦ listener_loop turns (accept_turn a l)
]

-- The listening socket, or none where the process exits with 1.
unfoldable pub listen_socket : Setup → Option ℤ
unfolding generic_addr
listen_socket u = elim (generic_addr u.names u.bind_addr) [
  | none ↦ none
  | some my_addr ↦ elim u.socket [
    | none ↦ none
    | some fd ↦ if u.binds my_addr then (if u.listens then some fd else none) else none
  ]
]

-- The loop from its start; none is the exit with 1.
unfoldable pub listener : Setup → List Accept → Option (Listening × Bool)
unfolding listen_socket listener_loop
listener u turns = elim (listen_socket u) [
  | none ↦ none
  | some fd ↦
      some
        (listener_loop turns (record { listening = fd; server_term = 0; children = []; acts = [] }))
]

-- A child's connection, behind the close of the listening socket.
abbrev pub child : Config → Guest → (listening sock : ℤ) → Process → Files → Option Served
child conf g listening sock p fs = elim (connection conf g sock p fs) [
  | none ↦ none
  | some r ↦ some (record r { acts = closes listening ∷ r.acts })
]

-- The sockets of the turns up to the signal that have a process.
unfoldable pub served : List Accept → List ℤ
served [] = []
served (refused ∷ turns) = served turns
served (by_signal ∷ turns) = []
served (accepted fd true ∷ turns) = fd ∷ served turns
served (accepted fd false ∷ turns) = served turns

-- Whether a signal is among the turns.
unfoldable pub signalled : List Accept → Bool
signalled [] = false
signalled (by_signal ∷ turns) = true
signalled (refused ∷ turns) = signalled turns
signalled (accepted fd forks ∷ turns) = signalled turns

-- What the loop has done from the state `l` on.
pub record Listened (turns : List Accept) (l : Listening) (r : Listening × Bool) : Type 0 where
  pub settled : Settled r.0.acts
  pub children : r.0.children ≡ l.children ++ served turns
  pub ended : r.1 ≡ signalled turns

listener_loop-ended :
    (turns : List Accept) (l : Listening) → ends l ≡ true → listener_loop turns l ≡ (l, true)
unfolding listener_loop
listener_loop-ended [] l h = rw (h, listener_loop) refl
listener_loop-ended (a ∷ turns) l h = rw (h, listener_loop) refl

listener_loop-turn :
    (a : Accept) (turns : List Accept) (l : Listening)
    → ends l ≡ false
    → listener_loop (a ∷ turns) l ≡ listener_loop turns (accept_turn a l)
unfolding listener_loop
listener_loop-turn a turns l h = rw (h, listener_loop) refl

listener_loop-Listened :
    (turns : List Accept) (l : Listening)
    → ends l ≡ false
    → Settled l.acts
    → Listened turns l (listener_loop turns l)
unfolding listener_loop accept_turn served signalled
listener_loop-Listened [] l on h = record {
  settled = h;
  children = sym (append-nil l.children);
  ended = on;
}
listener_loop-Listened (refused ∷ turns) l on h =
    let m = listener_loop-Listened turns l on h in
    subst (λ z. Listened (refused ∷ turns) l z) (sym (listener_loop-turn refused turns l on))
      (record { settled = m.settled; children = m.children; ended = m.ended })
listener_loop-Listened (by_signal ∷ turns) l on h =
    let over : Listening = record l { server_term = vtun_sig_term } in
    subst (λ z. Listened (by_signal ∷ turns) l z)
      (sym (listener_loop-turn by_signal turns l on ∙ listener_loop-ended turns over refl))
      (record { settled = h; children = sym (append-nil l.children); ended = refl })
listener_loop-Listened (accepted fd true ∷ turns) l on h =
    let next = accept_turn (accepted fd true) l in
    let m =
      listener_loop-Listened turns next on
        (Settled-both l.acts (opens fd ∷ closes fd ∷ []) h (inl refl, tt)) in
    subst (λ z. Listened (accepted fd true ∷ turns) l z)
      (sym (listener_loop-turn (accepted fd true) turns l on))
      (record {
        settled = m.settled;
        children = m.children ∙ append_assoc l.children (fd ∷ []) (served turns);
        ended = m.ended;
      })
listener_loop-Listened (accepted fd false ∷ turns) l on h =
    let next = accept_turn (accepted fd false) l in
    let m =
      listener_loop-Listened turns next on
        (Settled-both l.acts (opens fd ∷ closes fd ∷ []) h (inl refl, tt)) in
    subst (λ z. Listened (accepted fd false ∷ turns) l z)
      (sym (listener_loop-turn (accepted fd false) turns l on))
      (record { settled = m.settled; children = m.children; ended = m.ended })

-- The listener, once its socket listens, ends exactly by a signal. Behind any turns it holds no client's
-- socket open, each that it accepted it has closed again, and the processes that it made serve just the
-- sockets that were accepted before the signal and for which `fork` succeeded, in their order.
pub listener-Listened :
    (u : Setup) (turns : List Accept) (r : Listening × Bool)
    → listener u turns ≡ some r
    → Settled r.0.acts × (r.0.children ≡ served turns) × (r.1 ≡ signalled turns)
unfolding listener
listener-Listened u turns r e = elim (Option-cases (listen_socket u)) [
  | inl gone ↦
      let exits : listener u turns ≡ none = rw (gone, listener) refl in
      absurd (Option.none-ne-some r (sym exits ∙ e))
  | inr (fd, made) ↦
      let l : Listening = record { listening = fd; server_term = 0; children = []; acts = [] } in
      let runs : listener u turns ≡ some (listener_loop turns l) = rw (made, listener) refl in
      let same = Option.some-injective (listener_loop turns l) r (sym runs ∙ e) in
      let m = subst (λ z. Listened turns l z) same (listener_loop-Listened turns l refl tt) in
      (m.settled, m.children, m.ended)
]
