-- ===== src/Pipeline.antt =====
-- rumble_process_pipeline and led_process_pipeline of dstx/src/output.c: when the loop of a
-- controller sends, from the time, the slot and the time of the last report.
-- A call reads the clock once (`now`) and works on the slot as it finds it.
pub mod Rumble
pub mod Led
use dstx.Common.{
  ℕ, suc, ◌+◌, ◌-◌, ◌≤◌, ◌≡◌, arith, Bool, true, false, Option, none, some, List, ltb, ◌&&◌, ◌||◌,
  not, ◌==◌, if◌then◌else◌, get_or, set,
}
use dstx.Common.Int.{ℤ, pos, negsuc, ltb_ℤ}
use dstx.Controller.{
  Controller, ControllerType, type_ds4, type_dualsense, type_nsw_pro, Effects, Feedback,
  PeriodicEffect, Timeval, in_us, elapsed_us,
}
use dstx.AxisSystem.{Float}
use dstx.Effects.{Waves, no_periodic, apply_wave_to_rumble, compute_periodic_wave}
use dstx.Output.{send_output_report}

-- What a call hands to the device: a rumble command of nsw.c, with its two frequencies, or what
-- send_output_report writes.
pub data Emission : Type 0 where
  nsw_rumble : (left_freq right_freq : ℕ) → Emission
  output_report : Option (List ℕ) → Emission

-- A call: the slot it leaves, the time of the last report, and what it handed over, if anything.
pub record Turn : Type 0 where
  pub slot : Controller
  pub last : Timeval
  pub sent : Option Emission

abbrev pub at_least : ℤ → ℕ → Bool
at_least elapsed timeout = not (ltb_ℤ elapsed (pos timeout))

pub at_least-le :
    (now last : Timeval) (n : ℕ)
    → at_least (elapsed_us now last) (suc n) ≡ true
    → in_us last + suc n ≤ in_us now
at_least-le now last n h = ground arith

pub le-at_least :
    (now last : Timeval) (n : ℕ)
    → in_us last + n ≤ in_us now
    → at_least (elapsed_us now last) n ≡ true
le-at_least now last n h = ground arith

abbrev pub motors_on : Feedback → Bool
motors_on fb = ltb 0 fb.rumble_strong || ltb 0 fb.rumble_weak

abbrev pub should_send : Feedback → ℤ → Bool
should_send fb elapsed =
    (fb.rumble_dirty && at_least elapsed 5000) || (motors_on fb && at_least elapsed 20000)

module _ (crc32 : ℕ → List ℕ → ℕ) where
  -- The time since `last_retry` counts while retries are left, and since the last report otherwise.
  unfoldable pub led_process_pipeline : Timeval → Controller → Timeval → Turn
  led_process_pipeline now slot last =
      let fb = slot.feedback in
      let retrying = ltb 0 fb.external_retry_count in
      let timeout_us =
        if retrying then 100000 else if slot.led_request.led_static then 20000 else 5000 in
      let since = if retrying then fb.last_external_retry else last in
      let retried = record fb {
        last_external_retry = now;
        external_retry_count = fb.external_retry_count - 1;
      } in
      let sent = some (output_report (send_output_report crc32 slot)) in
      if not fb.led_dirty && fb.external_retry_count == 0
      then record { slot = slot; last = last; sent = none }
      else if at_least (elapsed_us now since) timeout_us
      then if retrying
        then record { slot = record slot { feedback = retried }; last = last; sent = sent }
        else record {
          slot = record slot { feedback = record fb { led_dirty = false } };
          last = now;
          sent = sent;
        }
      else record { slot = slot; last = last; sent = none }

module _ (dbl : Float) (w : Waves dbl) (crc32 : ℕ → List ℕ → ℕ) where
  -- The next value of the periodic effect `eid`, and the frequencies of the command if it changed.
  unfoldable pub refresh_effect : Timeval → ℕ → Controller → Controller × ℕ × ℕ
  refresh_effect now eid slot =
      let p = get_or slot.effects.periodic_effects eid no_periodic in
      let new_val = compute_periodic_wave dbl w p now in
      let wave_fb = apply_wave_to_rumble new_val slot.feedback in
      let refreshed = record slot {
        feedback = record wave_fb { rumble_dirty = true };
        effects = record (slot.effects) {
          periodic_effects =
              set slot.effects.periodic_effects eid (record p { last_value = new_val });
        };
      } in
      if new_val == p.last_value then (slot, 0, 0) else (refreshed, p.left_freq, p.right_freq)

  -- Only a Switch Pro controller plays periodic effects on.
  unfoldable pub refresh_periodic : Timeval → ControllerType → ℤ → Controller → Controller × ℕ × ℕ
  refresh_periodic now type_nsw_pro (pos eid) slot =
      if slot.effects.active_effect_type == 2 then refresh_effect now eid slot else (slot, 0, 0)
  refresh_periodic now type_nsw_pro (negsuc n) slot = (slot, 0, 0)
  refresh_periodic now type_ds4 id slot = (slot, 0, 0)
  refresh_periodic now type_dualsense id slot = (slot, 0, 0)

  unfoldable pub rumble_emission : ControllerType → ℕ → ℕ → Controller → Emission
  rumble_emission type_nsw_pro left right slot = nsw_rumble left right
  rumble_emission type_ds4 left right slot = output_report (send_output_report crc32 slot)
  rumble_emission type_dualsense left right slot = output_report (send_output_report crc32 slot)

  -- The sending logic: a new value after 5 ms, and a motor that runs kept alive every 20 ms.
  unfoldable pub send_rumble : Timeval → Controller → ℕ → ℕ → Timeval → Turn
  send_rumble now slot left right last =
      if should_send slot.feedback (elapsed_us now last) && slot.connected
      then record {
        slot = record slot { feedback = record (slot.feedback) { rumble_dirty = false } };
        last = now;
        sent = some (rumble_emission slot.type left right slot);
      }
      else record { slot = slot; last = last; sent = none }

  unfoldable pub rumble_process_pipeline : Timeval → Controller → Timeval → Turn
  rumble_process_pipeline now slot last =
      let refreshed = refresh_periodic now slot.type slot.effects.active_effect_id slot in
      send_rumble now refreshed.0 refreshed.1 refreshed.2 last
