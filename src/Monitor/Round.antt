-- ===== src/Monitor/Round.antt =====
-- What daemon_monitor of dstx/src/dbus-monitor.c does with one slot in a round.
use dstx.Common.{ℕ, Bool, List, [], ◌∷◌, ◌++◌, ◌==◌, not, ◌&&◌, ◌||◌, if◌then◌else◌}
use dstx.Common.Int.{ℤ}
use dstx.Controller.{Controller, Axes}
use dstx.Profiles.{same_bool}
use dstx.Registry.{zero_slot}
use dstx.Monitor.{
  should_emit_signal, pack_buttons, copy_controller_state, telemetry_changed, config_changed,
}

-- rate_limit_t
pub record RateLimit : Type 0 where
  pub last_telemetry_us : ℕ
  pub last_button_us : ℕ
  pub last_axis_us : ℕ
  pub last_controller_update_us : ℕ

abbrev pub telemetry_min_interval_us : ℕ
telemetry_min_interval_us = 16666

abbrev pub button_min_interval_us : ℕ
button_min_interval_us = 33333

abbrev pub axis_min_interval_us : ℕ
axis_min_interval_us = 16666

abbrev pub controller_update_interval_us : ℕ
controller_update_interval_us = 100000

-- The signals of a slot, with what they carry.
pub data Signal : Type 0 where
  controller_connected controller_disconnected controller_updated : Signal
  telemetry_update : (axes : Axes) (hat_x hat_y : ℤ) (buttons : ℕ) → Signal
  button_update : (buttons : ℕ) → Signal
  axis_update : (axes : Axes) (hat_x hat_y : ℤ) → Signal

-- The times that a round reads for a slot: the two `now_us`, and those of should_emit_signal.
pub record Clock : Type 0 where
  pub update_now : ℕ
  pub update_tested : ℕ
  pub telemetry_now : ℕ
  pub telemetry_tested : ℕ
  pub button_tested : ℕ
  pub axis_tested : ℕ

-- What the bridge keeps of a slot: its copy, the one of the last round, and the limits.
pub record Monitored : Type 0 where
  pub current : Controller
  pub prev : Controller
  pub limits : RateLimit

-- At the start, and, but for the copy, after the daemon went away.
abbrev pub start_monitored : Monitored
start_monitored = record {
  current = zero_slot;
  prev = zero_slot;
  limits = record {
    last_telemetry_us = 0;
    last_button_us = 0;
    last_axis_us = 0;
    last_controller_update_us = 0;
  };
}

unfoldable pub connection_signals : (dst prev : Controller) → List Signal
connection_signals dst prev =
    if same_bool dst.connected prev.connected
    then []
    else if dst.connected
    then controller_connected ∷ []
    else controller_disconnected ∷ []

unfoldable pub update_signals :
    Clock → (dst prev : Controller) → RateLimit → RateLimit × List Signal
update_signals clock dst prev limits =
    if dst.connected
      && config_changed dst prev
      && should_emit_signal clock.update_tested limits.last_controller_update_us
          controller_update_interval_us
    then (record limits { last_controller_update_us = clock.update_now }, controller_updated ∷ [])
    else (limits, [])

-- The three signals of the telemetry, one after another.
unfoldable pub telemetry_signal : Clock → Controller → RateLimit → RateLimit × List Signal
telemetry_signal clock dst limits =
    if should_emit_signal clock.telemetry_tested limits.last_telemetry_us telemetry_min_interval_us
    then (
      record limits { last_telemetry_us = clock.telemetry_now },
      telemetry_update dst.axes dst.hat_x dst.hat_y (pack_buttons dst) ∷ [],
    )
    else (limits, [])

unfoldable pub button_signal : Bool → Clock → Controller → RateLimit → RateLimit × List Signal
button_signal buttons_changed clock dst limits =
    if buttons_changed
      && should_emit_signal clock.button_tested limits.last_button_us button_min_interval_us
    then (
      record limits { last_button_us = clock.telemetry_now },
      button_update (pack_buttons dst) ∷ [],
    )
    else (limits, [])

unfoldable pub axis_signal : Bool → Clock → Controller → RateLimit → RateLimit × List Signal
axis_signal axes_changed clock dst limits =
    if axes_changed && should_emit_signal clock.axis_tested limits.last_axis_us axis_min_interval_us
    then (
      record limits { last_axis_us = clock.telemetry_now },
      axis_update dst.axes dst.hat_x dst.hat_y ∷ [],
    )
    else (limits, [])

unfoldable pub telemetry_signals :
    Clock → (dst prev : Controller) → RateLimit → RateLimit × List Signal
telemetry_signals clock dst prev limits =
    let buttons_changed = not (pack_buttons dst == pack_buttons prev) in
    let axes_changed = telemetry_changed dst prev in
    let telemetry = telemetry_signal clock dst limits in
    let button = button_signal buttons_changed clock dst telemetry.0 in
    let axis = axis_signal axes_changed clock dst button.0 in
    if dst.connected && (buttons_changed || axes_changed)
    then (axis.0, telemetry.1 ++ (button.1 ++ axis.1))
    else (limits, [])

unfoldable pub monitor_slot : Clock → Controller → Monitored → Monitored × List Signal
monitor_slot clock src m =
    let dst = copy_controller_state m.current src in
    let update = update_signals clock dst m.prev m.limits in
    let telemetry = telemetry_signals clock dst m.prev update.0 in
    (
      record { current = dst; prev = copy_controller_state m.prev dst; limits = telemetry.0 },
      connection_signals dst m.prev ++ (update.1 ++ telemetry.1),
    )

-- The rounds while the daemon is alive: what the slot holds at each, with its times.
unfoldable pub monitor_rounds : List (Clock × Controller) → Monitored → Monitored × List Signal
monitor_rounds [] m = (m, [])
monitor_rounds (r ∷ rounds) m =
    let first = monitor_slot r.0 r.1 m in
    let rest = monitor_rounds rounds first.0 in (rest.0, first.1 ++ rest.1)
