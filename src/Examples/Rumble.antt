-- ===== src/Examples/Rumble.antt =====
-- Effects and reports of rumble on a fresh slot.
use dstx.Common.{some, ◌≡◌, true, [], ◌∷◌}
use dstx.Controller.{Controller, Timeval}
use dstx.Effects.{rumble_handle_ff_event}
use dstx.Effects.Invariant.{IsPlayable, rumble_handle_ff_event-IsPlayable}
use dstx.Effects.Playback.{start_event}
use dstx.Pipeline.Rumble.{send_times, IsSpaced, send_times-IsSpaced}
use dstx.Examples.Data.{
  fresh, fresh_feedback, fixed_float, saw_waves, checksum, time_zero, fresh-IsPlayable,
}

abbrev second : Timeval
second = record { sec = 1; usec = 0 }

abbrev third : Timeval
third = record { sec = 1; usec = 20000 }

rumble_handle_ff_event-IsPlayable_example :
    (after : Controller) × (rumble_handle_ff_event fixed_float saw_waves second
        (start_event 3 0)
        fresh
      ≡ some after)
    × IsPlayable after
rumble_handle_ff_event-IsPlayable_example =
    rumble_handle_ff_event-IsPlayable fixed_float saw_waves second (start_event 3 0) fresh
      fresh-IsPlayable

abbrev running : Controller
running = record fresh {
  feedback = record fresh_feedback { rumble_strong = 200; rumble_dirty = true };
}

send_times-IsSpaced_example :
    IsSpaced fixed_float saw_waves checksum time_zero (
      send_times fixed_float saw_waves checksum ((second, running) ∷ (third, fresh) ∷ []) time_zero)
send_times-IsSpaced_example =
    send_times-IsSpaced fixed_float saw_waves checksum ((second, running) ∷ (third, fresh) ∷ [])
      time_zero
