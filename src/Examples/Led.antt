-- ===== src/Examples/Led.antt =====
-- The colour of a fresh slot: retries, requests, frames, and its configuration.
use dstx.Common.{ℕ, ◌≡◌, refl, false, true, none, some, [], ◌∷◌, arith}
use dstx.Common.Int.{pos}
use dstx.Controller.{Controller, Timeval}
use dstx.Controller.Config.{SlotConfig, controller_to_slot_config}
use dstx.Ledfx.{Colour, LedSlotState, initial_state}
use dstx.Ledfx.Requests.{IsAnimated}
use dstx.Output.{send_output_report}
use dstx.Pipeline.{output_report, Turn, led_process_pipeline}
use dstx.Pipeline.Led.{led_calls, led_settles}
use dstx.Examples.Data.{fresh, fresh_feedback, fixed_float, checksum, time_zero}

abbrev at_second : ℕ → Timeval
at_second n = record { sec = n; usec = 0 }

abbrev retrying : Controller
retrying = record fresh { feedback = record fresh_feedback { external_retry_count = 2 } }

abbrev settled : Turn
settled =
    led_process_pipeline checksum (at_second 3)
      (led_calls checksum (at_second 1 ∷ at_second 2 ∷ []) retrying time_zero).0
      (led_calls checksum (at_second 1 ∷ at_second 2 ∷ []) retrying time_zero).1

led_settles_example :
    (settled.slot.feedback.external_retry_count ≡ 0)
    × (settled.sent
        ≡ some (
            output_report (
              send_output_report checksum
                (led_calls checksum (at_second 1 ∷ at_second 2 ∷ []) retrying time_zero).0)))
    × (settled.slot.feedback.led_dirty ≡ false)
    × (led_process_pipeline checksum (at_second 9) settled.slot settled.last
        ≡ record { slot = settled.slot; last = at_second 3; sent = none })
led_settles_example =
    led_settles checksum (at_second 1 ∷ at_second 2 ∷ []) retrying time_zero (at_second 3)
      (at_second 9) refl (omega arith, (omega arith, tt)) refl (omega arith)

-- A request for the effect 2 at a speed out of range.
abbrev asking : Controller
asking = record fresh {
  led_request = record (fresh.led_request) {
    led_request_effect = pos 2;
    led_request_speed = 77;
    led_request_pending = true;
  };
}

idle-IsAnimated :
    (slot : Controller)
    → slot.led_request.led_static ≡ true
    → IsAnimated fixed_float (slot, initial_state fixed_float)
unfolding initial_state
idle-IsAnimated slot h = record {
  mode = h;
  effect = omega arith;
  speed = (omega arith, omega arith);
  brightness = (omega arith, omega arith);
}

abbrev red : Colour
red = record { r = 255; g = 0; b = 0 }

abbrev breathing : LedSlotState fixed_float
breathing = record (initial_state fixed_float) { current_effect = 1; active = true }

abbrev animated : Controller
animated = record fresh { led_request = record (fresh.led_request) { led_static = false } }

breathing-IsAnimated : IsAnimated fixed_float (animated, breathing)
unfolding initial_state
breathing-IsAnimated = record {
  mode = refl;
  effect = omega arith;
  speed = (omega arith, omega arith);
  brightness = (omega arith, omega arith);
}

abbrev profile : SlotConfig
profile = record (controller_to_slot_config fresh) { led_effect = 4 }
