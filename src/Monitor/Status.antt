-- ===== src/Monitor/Status.antt =====
-- The rounds of daemon_monitor in dstx/src/dbus-monitor.c: whether the daemon is alive, and what the
-- bridge tells of it. What the system calls of a round answer is an argument.
pub mod Told
use dstx.Common.{
  ℕ, ◌+◌, ◌≡◌, refl, Bool, true, false, List, [], ◌∷◌, ◌++◌, map, ◌==◌, not, ◌&&◌, ◌||◌, arith,
  replicate, Bool-cases, ◌⊎◌, inl, inr, if◌then◌else◌,
}
use dstx.Common.Int.{ℤ, pos, sub_ℕ, quot_ℤ, ltb_ℤ, ◌+ℤ◌, ◌*ℤ◌}
use dstx.Controller.{Controller, Timeval}
use dstx.Debounce.{max_slots}
use dstx.Registry.{zero_slot}
use dstx.Monitor.Round.{Signal, Clock, Monitored, start_monitored, monitor_slot}

-- The variables of the thread and those of the bridge; `mapped` is that `shm_ptr` is not null.
pub record Bridge : Type 0 where
  pub mapped : Bool
  pub last_heartbeat : ℕ
  pub last_heartbeat_time : Timeval
  pub last_alive_state : Bool
  pub prev_daemon_alive : Bool
  pub daemon_alive : Bool
  pub slots : List Monitored

abbrev pub start_bridge : Bridge
start_bridge = record {
  mapped = false;
  last_heartbeat = 0;
  last_heartbeat_time = record { sec = 0; usec = 0 };
  last_alive_state = false;
  prev_daemon_alive = false;
  daemon_alive = false;
  slots = replicate max_slots start_monitored;
}

-- Whether the memory can be mapped and has its magic number, the heartbeat that is read and the time
-- after it, whether the daemon's process exists, and the slots with the times read for each.
pub record Observation : Type 0 where
  pub maps : Bool
  pub heartbeat : ℕ
  pub now : Timeval
  pub process_exists : Bool
  pub slots : List (Clock × Controller)

-- At most a second since the heartbeat changed; both are `long`.
unfoldable pub is_recent : (now last : Timeval) → Bool
is_recent now last =
    let diff_ms = sub_ℕ now.sec last.sec *ℤ pos 1000 +ℤ quot_ℤ (sub_ℕ now.usec last.usec) 1000 in
    not (ltb_ℤ (pos 1000) diff_ms)

unfoldable pub is_alive : Observation → Bridge → Bool
is_alive t b =
    (not (t.heartbeat == b.last_heartbeat) || is_recent t.now b.last_heartbeat_time)
    && t.process_exists

-- The loop over the slots, from a number on.
unfoldable pub monitor_slots :
    ℕ → List (Clock × Controller) → List Monitored → List Monitored × List (ℕ × Signal)
monitor_slots i readings [] = ([], [])
monitor_slots i [] (m ∷ slots) = (m ∷ slots, [])
monitor_slots i (r ∷ readings) (m ∷ slots) =
    let first = monitor_slot r.0 r.1 m in
    let rest = monitor_slots (i + 1) readings slots in
    (first.0 ∷ rest.0, map (λ s. (i, s)) first.1 ++ rest.1)

-- What a round leaves, the signals of the slots, and those of DaemonStatusChanged.
pub record RoundResult : Type 0 where
  pub bridge : Bridge
  pub signals : List (ℕ × Signal)
  pub status : List Bool

-- The time of the heartbeat, if it changed.
abbrev pub beat : Observation → Bridge → Bridge
beat t b =
    if t.heartbeat == b.last_heartbeat
    then b
    else record b { last_heartbeat = t.heartbeat; last_heartbeat_time = t.now }

unfoldable pub online : Observation → Bridge → RoundResult
online t b =
    let seen = monitor_slots 0 t.slots b.slots in
    let telling = not b.last_alive_state && not b.prev_daemon_alive in
    record {
      bridge = record b {
        mapped = true;
        daemon_alive = true;
        slots = seen.0;
        prev_daemon_alive = b.prev_daemon_alive || telling;
        last_alive_state = true;
      };
      signals = seen.1;
      status = if telling then true ∷ [] else [];
    }

-- What is kept of a slot when the daemon goes away.
abbrev forget : Monitored → Monitored
forget m = record m { prev = zero_slot; limits = start_monitored.limits }

-- The two branches without the daemon; the first forgets the slots and the mapping.
unfoldable pub offline : Bool → Bridge → RoundResult
offline had_memory b =
    let telling = b.last_alive_state && b.prev_daemon_alive in
    record {
      bridge = record b {
        mapped = false;
        daemon_alive = false;
        slots = if had_memory && b.last_alive_state then map forget b.slots else b.slots;
        prev_daemon_alive = b.prev_daemon_alive && not telling;
        last_alive_state = false;
      };
      signals = [];
      status = if telling then false ∷ [] else [];
    }

unfoldable pub daemon_round : Observation → Bridge → RoundResult
daemon_round t b =
    if b.mapped || t.maps
    then if is_alive t b then online t (beat t b) else offline true (beat t b)
    else offline false b

unfoldable pub daemon_rounds : List Observation → Bridge → RoundResult
daemon_rounds [] b = record { bridge = b; signals = []; status = [] }
daemon_rounds (t ∷ turns) b =
    let first = daemon_round t b in
    let rest = daemon_rounds turns first.bridge in
    record {
      bridge = rest.bridge;
      signals = first.signals ++ rest.signals;
      status = first.status ++ rest.status;
    }
