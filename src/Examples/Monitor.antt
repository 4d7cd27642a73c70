-- ===== src/Examples/Monitor.antt =====
-- Runs of the bridge's monitor.
use dstx.Common.{ℕ, ◌≡◌, refl, true, false, List, [], ◌∷◌, All, arith}
use dstx.Common.Int.{◌+ℤ◌, ◌*ℤ◌, quot_ℤ}
use dstx.Controller.{Controller}
use dstx.Registry.{zero_slot}
use dstx.Monitor.{
  should_emit_signal, pack_from, pack_buttons, copy_controller_state, telemetry_changed,
  config_changed,
}
use dstx.Monitor.Dropped.{IsOther, monitor_rounds-IsOther}
use dstx.Monitor.Round.{
  controller_updated, Clock, Monitored, start_monitored, connection_signals, update_signals,
  telemetry_signals, monitor_slot, monitor_rounds,
}
use dstx.Monitor.Status.{
  Observation, start_bridge, is_alive, is_recent, online, offline, monitor_slots, daemon_round,
  daemon_rounds,
}
use dstx.Monitor.Status.Told.{IsTold, daemon_rounds-IsTold}

abbrev at : ℕ → Clock
at now = record {
  update_now = now;
  update_tested = now;
  telemetry_now = now;
  telemetry_tested = now;
  button_tested = now;
  axis_tested = now;
}

-- A controller with its cross and its R3 pressed.
abbrev pressed : Controller
pressed = record zero_slot {
  connected = true;
  buttons = record (zero_slot.buttons) { cross = 1; r3 = 1 };
}

packed : pack_buttons pressed ≡ 2049
unfolding pack_buttons pack_from
packed = refl

-- The gain changes from 0 to 100 at the connection, and to 50 in a later round.
abbrev with_gain : ℕ → Controller
with_gain gain = record pressed { feedback = record (pressed.feedback) { rumble_gain = gain } }

abbrev connected_slot : Monitored
connected_slot = record start_monitored {
  current = with_gain 100;
  prev = with_gain 100;
  limits = record (start_monitored.limits) { last_controller_update_us = 1000000 };
}

-- 50 ms after the signal the change is not reported, nor a second later.
monitor_rounds-IsOther_example :
    All IsOther
      (monitor_rounds
        ((at 1050000, with_gain 50) ∷ (at 2050000, with_gain 50) ∷ [])
        connected_slot).1
unfolding config_changed
monitor_rounds-IsOther_example =
    monitor_rounds-IsOther (at 1050000) (with_gain 50) ((at 2050000, with_gain 50) ∷ [])
      connected_slot (omega arith) (omega arith) (refl, tt)

-- After 100 ms it would have been.
reported : (monitor_slot (at 1100000) (with_gain 50) connected_slot).1 ≡ controller_updated ∷ []
unfolding monitor_slot connection_signals update_signals telemetry_signals copy_controller_state
    config_changed telemetry_changed should_emit_signal pack_buttons pack_from
reported = refl

-- The daemon beats, then stands still for 1.2 s.
abbrev turn : ℕ → ℕ → Observation
turn heartbeat sec = record {
  maps = true;
  heartbeat = heartbeat;
  now = record { sec = sec; usec = 0 };
  process_exists = true;
  slots = [];
}

abbrev turns : List Observation
turns = turn 1 100 ∷ turn 2 101 ∷ turn 2 103 ∷ turn 3 104 ∷ []

daemon_rounds-IsTold_example : IsTold start_bridge (daemon_rounds turns start_bridge)
daemon_rounds-IsTold_example = daemon_rounds-IsTold turns start_bridge (refl, refl)

told : (daemon_rounds turns start_bridge).status ≡ true ∷ false ∷ true ∷ []
unfolding daemon_rounds daemon_round is_alive is_recent online offline monitor_slots ◌+ℤ◌ ◌*ℤ◌
    quot_ℤ
told = refl
