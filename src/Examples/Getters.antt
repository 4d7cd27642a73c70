-- ===== src/Examples/Getters.antt =====
-- A call of the bridge, and what its getters answer afterwards; requests of the three clients.
use dstx.Common.{◌≡◌, refl, true, List, [], ◌∷◌, ◌++◌, arith, get_or, All}
use dstx.Common.Int.{pos}
use dstx.Registry.{zero_slot}
use dstx.Monitor.Round.{Clock}
use dstx.Monitor.Status.{Observation, start_bridge, is_alive, daemon_round}
use dstx.Bus.{BusSlot, empty_slot, set_sensitivity_preset_left, write_slot, handle, is_valid, done}
use dstx.Bus.ProfileCalls.{set_auto_save, request_of, handle_profile, clamp_delay}
use dstx.Bus.Getters.{get_sensitivity_preset, values, read_slot, handle_get}
use dstx.Bus.Getters.Expected.{expected}
use dstx.Bus.Getters.Shown.{handle_get-handle}
use dstx.Commands.Cli.{process_cli_command}
use dstx.Console.Keys.{run_keys, start_console}
use dstx.Clients.Requests.{IsServable}
use dstx.Clients.Requests.Typed.{requests-AreServable}
use dstx.Text.{Word, codes}
use dstx.Examples.Commands.{some_libc}
use dstx.Examples.Console.{type_text, world}

abbrev plugged : BusSlot
plugged = record empty_slot { slot = record zero_slot { connected = true } }

abbrev two_plugged : List BusSlot
two_plugged = empty_slot ∷ plugged ∷ plugged ∷ empty_slot ∷ []

abbrev early : Clock
early = record {
  update_now = 0;
  update_tested = 0;
  telemetry_now = 0;
  telemetry_tested = 0;
  button_tested = 0;
  axis_tested = 0;
}

abbrev after_call : List BusSlot
after_call = (handle true 1 (set_sensitivity_preset_left 3) two_plugged).0

-- The daemon beats for the first time.
abbrev first_beat : Observation
first_beat = record {
  maps = true;
  heartbeat = 1;
  now = record { sec = 100; usec = 0 };
  process_exists = true;
  slots =
      (early, zero_slot)
      ∷ (early, (get_or after_call 1 empty_slot).slot)
      ∷ (early, (get_or after_call 2 empty_slot).slot)
      ∷ [];
}

beating : is_alive first_beat start_bridge ≡ true
unfolding is_alive
beating = refl

preset_valid : is_valid (set_sensitivity_preset_left 3) ≡ true
unfolding is_valid
preset_valid = refl

handle_get-handle_example :
    ((handle true 1 (set_sensitivity_preset_left 3) two_plugged).1 ≡ done ∷ [])
    × (handle_get
          (daemon_round first_beat start_bridge).bridge
          true
          after_call
          1
          get_sensitivity_preset
        ≡ values (
            expected
              (set_sensitivity_preset_left 3)
              plugged.slot
              get_sensitivity_preset
              (read_slot get_sensitivity_preset (get_or two_plugged 1 empty_slot).slot)))
handle_get-handle_example =
    handle_get-handle first_beat start_bridge (set_sensitivity_preset_left 3) get_sensitivity_preset
      1 two_plugged (early, zero_slot) refl refl (omega arith) (omega arith) preset_valid refl refl
      beating refl

preset_shown :
    read_slot get_sensitivity_preset
      (write_slot (set_sensitivity_preset_left 3) (get_or two_plugged 1 empty_slot).slot)
    ≡ pos 3 ∷ pos 0 ∷ []
unfolding read_slot write_slot
preset_shown = refl

-- A line with its end.
abbrev load_pad : Word
load_pad = codes "profile load pad" ++ (13 ∷ [])

requests-AreServable_example :
    All IsServable (handle_profile true true (set_auto_save true (pos 20))).0
    × (All IsServable
          (process_cli_command some_libc true true
            (codes "auto-save")
            (codes "delay" ∷ codes "3000" ∷ [])
            two_plugged).posted
        × All IsServable (run_keys some_libc (type_text load_pad) start_console world).1.posted)
requests-AreServable_example =
    requests-AreServable some_libc true true true (set_auto_save true (pos 20)) (codes "auto-save")
      (codes "delay" ∷ codes "3000" ∷ []) two_plugged (type_text load_pad) start_console world refl

delay_raised : (request_of (set_auto_save true (pos 20))).auto_delay ≡ pos 100
unfolding request_of clamp_delay
delay_raised = refl
