-- ===== src/Monitor/Status/Told.antt =====
-- What the clients of the bridge are told of the daemon.
use dstx.Common.{◌≡◌, ◌∙◌, refl, sym, ap, subst, Bool, List, [], ◌∷◌, ◌++◌, not, arith}
use dstx.Monitor.Status.{
  Bridge, Observation, online, offline, RoundResult, daemon_round, daemon_rounds,
}

-- What a client that follows the signals believes, from what it believed before.
abbrev pub believed : Bool → List Bool → Bool
believed before [] = before
believed before (alive ∷ status) = believed alive status

-- Every signal brings news.
abbrev pub Alternates : Bool → List Bool → Type 0
Alternates before [] = Unit
Alternates before (alive ∷ status) = (alive ≡ not before) × Alternates alive status

Alternates-append :
    (before : Bool) (xs ys : List Bool)
    → Alternates before xs
    → Alternates (believed before xs) ys
    → Alternates before (xs ++ ys)
Alternates-append before [] ys h k = k
Alternates-append before (x ∷ xs) ys h k = (h.0, Alternates-append x xs ys h.1 k)

believed-append :
    (before : Bool) (xs ys : List Bool)
    → believed before (xs ++ ys) ≡ believed (believed before xs) ys
believed-append before [] ys = refl
believed-append before (x ∷ xs) ys = believed-append x xs ys

-- The flags of the thread and of the bridge agree.
abbrev pub Agrees : Bridge → Type 0
Agrees b = (b.prev_daemon_alive ≡ b.daemon_alive) × (b.last_alive_state ≡ b.daemon_alive)

abbrev pub IsTold : Bridge → RoundResult → Type 0
IsTold b o =
    Agrees o.bridge
    × Alternates b.daemon_alive o.status
    × (believed b.daemon_alive o.status ≡ o.bridge.daemon_alive)

daemon_round-IsTold : (t : Observation) (b : Bridge) → Agrees b → IsTold b (daemon_round t b)
unfolding daemon_round online offline
daemon_round-IsTold t b h = ground arith

-- The clients know whether the daemon is alive: if the flags agree, as at the start, then over any
-- sequence of rounds every DaemonStatusChanged says the opposite of the one before, a client that
-- follows them believes at the end what the bridge knows, and the flags agree again.
pub daemon_rounds-IsTold :
    (turns : List Observation) (b : Bridge) → Agrees b → IsTold b (daemon_rounds turns b)
unfolding daemon_rounds
daemon_rounds-IsTold [] b h = (h, tt, refl)
daemon_rounds-IsTold (t ∷ turns) b h =
    let first = daemon_round t b in
    let told = daemon_round-IsTold t b h in
    let rest = daemon_rounds-IsTold turns first.bridge told.0 in
    let later = (daemon_rounds turns first.bridge).status in
    let same = told.2 in
    (
      rest.0,
      Alternates-append b.daemon_alive first.status later told.1
          (subst (λ a. Alternates a later) (sym same) rest.1),
      believed-append b.daemon_alive first.status later
          ∙ (ap (λ a. believed a later) same ∙ rest.2),
    )
