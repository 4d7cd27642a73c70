-- ===== src/Examples/Reports.antt =====
-- Reports of a fresh slot in both directions.
use dstx.Common.{ℕ, ◌≡◌, ◌≢◌, refl, true, false, some, List, arith}
use dstx.Controller.{Controller, type_nsw_pro, type_ds4}
use dstx.Output.{send_output_report}
use dstx.Output.Reports.{IsFeedback, Shows, layout_of, send_output_report-Shows}
use dstx.Examples.Data.{fresh, fresh_settings, fresh_feedback, checksum}

ds4≢nsw : fresh.type ≢ type_nsw_pro
ds4≢nsw e = cc

fresh-IsFeedback : IsFeedback fresh.feedback
fresh-IsFeedback = record {
  led_r = omega arith;
  led_g = omega arith;
  led_b = omega arith;
  rumble_weak = omega arith;
  rumble_strong = omega arith;
}

-- The blue of a fresh slot, 255 at 80 percent, is 204.
send_output_report-Shows_example :
    (r : List ℕ) × (send_output_report checksum fresh ≡ some r)
    × Shows (layout_of type_ds4 false) r 0 0 0 0 204
send_output_report-Shows_example =
    send_output_report-Shows checksum fresh refl ds4≢nsw fresh-IsFeedback

abbrev wireless : Controller
wireless = record fresh { is_bluetooth = true }

abbrev digital : Controller
digital = record fresh { settings = record fresh_settings { is_trigger_digital = true } }

abbrev halved : Controller
halved = record fresh { feedback = record fresh_feedback { rumble_gain = 50 } }

halved-IsFeedback : IsFeedback halved.feedback
halved-IsFeedback = record {
  led_r = omega arith;
  led_g = omega arith;
  led_b = omega arith;
  rumble_weak = omega arith;
  rumble_strong = omega arith;
}
