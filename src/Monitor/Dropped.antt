-- ===== src/Monitor/Dropped.antt =====
-- Changes of the configuration that the bridge's monitor does not report.
use dstx.Common.{
  ℕ, ◌+◌, ◌≤◌, ◌<◌, ◌≡◌, refl, Bool, true, false, List, [], ◌∷◌, All, All-append, arith, ◌⊎◌, inl,
  inr,
}
use dstx.Controller.{Controller}
use dstx.Monitor.{should_emit_signal, copy_controller_state, config_changed}
use dstx.Monitor.Round.{
  Signal, controller_updated, Clock, Monitored, RateLimit, controller_update_interval_us,
  connection_signals, update_signals, telemetry_signal, button_signal, axis_signal,
  telemetry_signals, monitor_slot, monitor_rounds,
}

unfoldable pub is_update : Signal → Bool
is_update controller_updated = true
is_update _ = false

-- Every signal but ControllerUpdated.
abbrev pub IsOther : Signal → Type 0
IsOther s = is_update s ≡ false

-- The slot keeps its configuration from round to round.
abbrev pub Unchanged : Controller → List (Clock × Controller) → Type 0
Unchanged last [] = Unit
Unchanged last (r ∷ rounds) = (config_changed r.1 last ≡ false) × Unchanged r.1 rounds

pub copy_controller_state_lem : (dst src : Controller) → copy_controller_state dst src ≡ src
unfolding copy_controller_state
copy_controller_state_lem dst src = refl

connection-IsOther : (dst prev : Controller) → All IsOther (connection_signals dst prev)
unfolding connection_signals is_update
connection-IsOther dst prev = ground arith

telemetry-IsOther :
    (clock : Clock) (dst prev : Controller) (limits : RateLimit)
    → All IsOther (telemetry_signals clock dst prev limits).1
unfolding telemetry_signals telemetry_signal button_signal axis_signal is_update
telemetry-IsOther clock dst prev limits = ground arith

telemetry_limit :
    (clock : Clock) (dst prev : Controller) (limits : RateLimit)
    → (telemetry_signals clock dst prev limits).0.last_controller_update_us
      ≡ limits.last_controller_update_us
unfolding telemetry_signals telemetry_signal button_signal axis_signal
telemetry_limit clock dst prev limits = ground arith

-- Without a change, or within the interval, the update is not sent.
update-quiet :
    (clock : Clock) (dst prev : Controller) (limits : RateLimit)
    → (config_changed dst prev ≡ false)
      ⊎ (should_emit_signal clock.update_tested limits.last_controller_update_us
            controller_update_interval_us
          ≡ false)
    → update_signals clock dst prev limits ≡ (limits, [])
unfolding update_signals
update-quiet clock dst prev limits quiet = ground arith

monitor_slot-IsOther :
    (clock : Clock) (src : Controller) (m : Monitored)
    → update_signals clock src m.prev m.limits ≡ (m.limits, [])
    → All IsOther (monitor_slot clock src m).1
unfolding monitor_slot copy_controller_state
monitor_slot-IsOther clock src m quiet =
    All-append IsOther (connection_signals src m.prev) _ (connection-IsOther src m.prev)
      (rw quiet (telemetry-IsOther clock src m.prev m.limits))

Unchanged-IsOther :
    (rounds : List (Clock × Controller)) (m : Monitored)
    → Unchanged m.prev rounds
    → All IsOther (monitor_rounds rounds m).1
unfolding monitor_rounds monitor_slot copy_controller_state
Unchanged-IsOther [] m h = tt
Unchanged-IsOther (r ∷ rounds) m h =
    All-append IsOther (monitor_slot r.0 r.1 m).1 _
      (monitor_slot-IsOther r.0 r.1 m (update-quiet r.0 r.1 m.prev m.limits (inl h.0)))
      (Unchanged-IsOther rounds (monitor_slot r.0 r.1 m).0 h.1)

within_interval :
    (now last : ℕ)
    → last ≤ now
    → now < last + 100000
    → should_emit_signal now last controller_update_interval_us ≡ false
unfolding should_emit_signal
within_interval now last after soon = ground arith

-- A change of the configuration within 100 ms of the last ControllerUpdated is never reported: if
-- the first of a sequence of rounds tests the interval that early, and the configuration of the
-- slot does not change after it, no round of the sequence emits ControllerUpdated, however many
-- there are and whatever else changes.
pub monitor_rounds-IsOther :
    (clock : Clock) (src : Controller) (rounds : List (Clock × Controller)) (m : Monitored)
    → m.limits.last_controller_update_us ≤ clock.update_tested
    → clock.update_tested < m.limits.last_controller_update_us + 100000
    → Unchanged src rounds
    → All IsOther (monitor_rounds ((clock, src) ∷ rounds) m).1
unfolding monitor_rounds monitor_slot copy_controller_state
monitor_rounds-IsOther clock src rounds m after soon h =
    let early = within_interval clock.update_tested m.limits.last_controller_update_us after soon in
    All-append IsOther (monitor_slot clock src m).1 _
      (monitor_slot-IsOther clock src m (update-quiet clock src m.prev m.limits (inr early)))
      (Unchanged-IsOther rounds (monitor_slot clock src m).0 h)
