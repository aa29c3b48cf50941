-- ===== src/Server/Unlocks.antt =====
-- What a connection leaves of its lock.
use vtun.Common.{
  ◌==◌, ◌≡◌, refl, sym, ap, ◌∙◌, subst, inl, inr, List, [], ◌∷◌, ◌++◌, true, false, Option, none,
  some, ◌>>=◌, ℤ, pos,
}
use vtun.Host.{VtunHost, vtun_multi_allow}
use vtun.Session.{SockAddr, closes}
use vtun.Lock.{Files, Answer, lock_file, lock_host, unlock_host}
use vtun.Lock.Create.{Leaves}
use vtun.Lock.Host.{unlock_host-lock_host}
use vtun.Link.Linker.SameHost.{Kept}
use vtun.Link.Linkfd.{Process}
use vtun.Tunnel.{Tunnelled, tunnel}
use vtun.Tunnel.SameHost.{tunnel-Kept}
use vtun.Server.{
  Config, Guest, Served, locks, takes, admits, session_of, unlocks, serve, answered, authenticated,
  with_names, connection,
}

module _ (conf : Config) (g : Guest) where
  -- Unlocking a session that is not to persist any more is unlocking it.
  unlocks-Kept :
      (h k : VtunHost) (fs : Files) → Kept h k → unlocks conf g k fs ≡ unlocks conf g h fs
  unfolding unlock_host
  unlocks-Kept h k fs (inl same) = ap (λ z. unlocks conf g z fs) same
  unlocks-Kept h k fs (inr same) = ap (λ z. unlocks conf g z fs) same

  -- What a connection leaves behind the tunnel.
  abbrev result : ℤ → Files → Tunnelled → Served
  result sock fs t = record {
    exit = 0;
    files = unlocks conf g t.session.host fs;
    acts = t.acts ++ closes sock ∷ [];
  }

  -- A connection has ended behind the tunnel `t` for the host `h`.
  pub record Ended (sock : ℤ) (h : VtunHost) (fs : Files) (t : Tunnelled) (r : Served)
      : Type 0 where
    pub exit : r.exit ≡ 0
    pub acts : r.acts ≡ t.acts ++ closes sock ∷ []
    pub files :
        Leaves g.pid (lock_file conf.dir conf.erange conf.behind g.pid true true h) fs r.files none

  -- The lock of an admitted session is gone with the connection: where a session that may not be used
  -- twice has no lock, the server admits a client to it, and the tunnel for it comes to its end, the
  -- connection ends as well; the lock file of the session is gone again then, all other files are what
  -- they were, and the socket is closed behind what the tunnel did.
  pub connection-Ended :
      (sock : ℤ) (p : Process) (fs : Files) (h : VtunHost) (peer own : SockAddr) (t : Tunnelled)
      → g.opens ≡ true
      → g.writes ≡ true
      → g.peer ≡ some peer
      → g.own ≡ some own
      → admits conf g (takes conf g fs) ≡ some h
      → (h.multi == vtun_multi_allow) ≡ false
      → fs (lock_file conf.dir conf.erange conf.behind g.pid true true h) ≡ none
      → tunnel g.world (session_of conf g sock peer own h) p ≡ some t
      → (r : Served) × (connection conf g sock p fs ≡ some r) × Ended sock h fs t r
  unfolding connection authenticated answered serve unlock_host session_of
  connection-Ended sock p fs h peer own t opened written there here granted single free ran =
      let (before, locks_it, content, leaves) =
        unlock_host-lock_host conf.dir conf.erange conf.behind g.pid h fs g.kills single free in
      let s = session_of conf g sock peer own h in
      let takes_it : locks conf g h fs ≡ some (before, g.kills, pos 0) =
        ap (λ b. lock_host conf.dir conf.erange conf.behind g.pid b g.writes h fs g.kills) opened
        ∙ ap (λ b. lock_host conf.dir conf.erange conf.behind g.pid true b h fs g.kills) written
        ∙ locks_it in
      let reached : connection conf g sock p fs ≡ serve conf g sock peer own p before (some h) =
        ap (λ o. with_names conf g sock p fs o g.own) there
        ∙ ap (with_names conf g sock p fs (some peer)) here
        ∙ ap (answered conf g sock peer own p fs) granted
        ∙ ap
            (λ (o : Option (Files × List Answer × ℤ)).
              (o >>= λ r. some r.0) >>= λ after. serve conf g sock peer own p after (some h))
            takes_it in
      let serves : serve conf g sock peer own p before (some h) ≡ some (result sock before t) =
        ap (λ (o : Option Tunnelled). o >>= λ z. some (result sock before z)) ran in
      let kept = unlocks-Kept h t.session.host before (tunnel-Kept g.world s p t ran) in
      (
        result sock before t,
        reached ∙ serves,
        record {
          exit = refl;
          acts = refl;
          files =
              subst
                (λ z.
                  Leaves g.pid (lock_file conf.dir conf.erange conf.behind g.pid true true h) fs z
                    none)
                (sym kept) leaves;
        },
      )
