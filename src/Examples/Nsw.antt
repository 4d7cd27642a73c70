-- ===== src/Examples/Nsw.antt =====
-- The Switch Pro controller: events, forwarding and rumble.
use dstx.Common.{
  ℕ, ◌*◌, ◌≡◌, inl, inr, refl, true, false, Option, none, some, List, [], ◌∷◌, All, arith,
  replicate,
}
use dstx.Common.Int.{pos}
use dstx.Controller.{Controller, Timeval}
use dstx.Drivers.{btn_south}
use dstx.Nsw.{NswContext, Forwarded, initial_abs}
use dstx.Keys.{keys_apply_map}
use dstx.AxisSystem.{apply_sensitivity_core, magnitude_squared, apply_curve}
use dstx.Nsw.Read.{key, got, nsw_read_events, Pass, drain_events, handle_event, forward_slot}
use dstx.Nsw.Read.Held.{Decided, nsw_read_events-Decided}
use dstx.Nsw.Read.Lost.{Call, IsSilent, run_calls, run_calls-IsSilent}
use dstx.Nsw.Rumble.{Answers, nsw_send_rumble}
use dstx.Nsw.Rumble.Loaded.{LoadedEffect, HoldsOnly, execute_all, nsw_send_rumble-HoldsOnly}
use dstx.Nsw.Rumble.Stale.{RumbleCall, run_rumble, run_rumble-stale}
use dstx.Examples.Data.{fresh, time_zero, fixed_float}

abbrev at_ms : ℕ → Timeval
at_ms n = record { sec = 0; usec = n * 1000 }

abbrev pressed : Controller
pressed = record fresh { buttons = record (fresh.buttons) { cross = 1 } }

abbrev nothing_sent : Forwarded
nothing_sent = record { last_key = λ k. 0; last_abs = initial_abs }

-- A context after nsw_init at time zero.
abbrev ready : NswContext
ready = record {
  event_open = true;
  effect_id = none;
  connected = true;
  initialized = true;
  last_strong = 0;
  last_weak = 0;
  last_rumble_time = time_zero;
  cache = nothing_sent;
  last_uinput_time = time_zero;
  is_active = true;
  uhid_open = false;
  lx = pos 0;
  ly = pos 0;
  rx = pos 0;
  ry = pos 0;
  phy_raw = replicate 18 0;
}

-- What a pass gives, or a pass that did nothing.
abbrev result : Option Pass → Pass
result (some p) = p
result none = record { slot = fresh; ctx = ready; events = []; report = none; count = 0 }

abbrev one_press : Option Pass
one_press =
    nsw_read_events fixed_float (got (key btn_south (pos 1)) ∷ []) (at_ms 10) true fresh ready

one_press_succeeds : one_press ≡ some (result one_press)
unfolding nsw_read_events drain_events apply_sensitivity_core magnitude_squared handle_event
    apply_curve forward_slot
one_press_succeeds = refl

nsw_read_events-Decided_example :
    Decided
      (at_ms 10)
      (drain_events (got (key btn_south (pos 1)) ∷ []) fresh.axes ready 0).count
      ready
      (result one_press)
nsw_read_events-Decided_example =
    nsw_read_events-Decided fixed_float (got (key btn_south (pos 1)) ∷ []) (at_ms 10) true fresh
      ready (result one_press) one_press_succeeds

-- A one_press 2 ms after the last forward, and a call without events much later.
abbrev early_calls : List Call
early_calls =
    record { reads = got (key btn_south (pos 1)) ∷ []; at = at_ms 2 }
    ∷ record { reads = []; at = at_ms 900 }
    ∷ []

abbrev passes : Option (List Pass) → List Pass
passes (some ps) = ps
passes none = []

early_calls_succeed :
    run_calls fixed_float true early_calls fresh ready
    ≡ some (passes (run_calls fixed_float true early_calls fresh ready))
unfolding run_calls nsw_read_events drain_events apply_sensitivity_core magnitude_squared
    handle_event apply_curve forward_slot keys_apply_map
early_calls_succeed = refl

run_calls-IsSilent_example :
    All IsSilent (passes (run_calls fixed_float true early_calls fresh ready))
run_calls-IsSilent_example =
    run_calls-IsSilent fixed_float true early_calls fresh ready
      (passes (run_calls fixed_float true early_calls fresh ready))
      (inr (omega arith), (inl tt, tt)) early_calls_succeed

abbrev all_well : Answers
all_well = record {
  present = true;
  stop_written = true;
  erased = true;
  uploaded = some 7;
  play_written = true;
}

-- A slot that rumbles.
abbrev rumbling : Controller
rumbling = record fresh { feedback = record (fresh.feedback) { rumble_strong = 200 } }

abbrev playing : LoadedEffect
playing = record { id = 3; strong = 25700; weak = 0; playing = true }

abbrev with_effect : NswContext
with_effect = record ready { effect_id = some 3; last_strong = 100 }

one_effect : HoldsOnly (some 3) (playing ∷ [])
unfolding HoldsOnly
one_effect = (playing, refl, refl)

nsw_send_rumble-HoldsOnly_example :
    HoldsOnly (nsw_send_rumble all_well (at_ms 100) rumbling with_effect).0.effect_id (
      execute_all true (nsw_send_rumble all_well (at_ms 100) rumbling with_effect).1 (playing ∷ []))
nsw_send_rumble-HoldsOnly_example =
    nsw_send_rumble-HoldsOnly (playing ∷ []) all_well (at_ms 100) rumbling with_effect refl
      one_effect

-- The level changes 20 ms after the last call.
abbrev soon : RumbleCall
soon = record { answers = all_well; at = at_ms 20 }

abbrev much_later : RumbleCall
much_later = record { answers = all_well; at = at_ms 900 }

run_rumble-stale_example : run_rumble (soon ∷ much_later ∷ []) rumbling with_effect ≡ []
run_rumble-stale_example =
    run_rumble-stale rumbling refl soon (much_later ∷ []) with_effect refl (omega arith)
