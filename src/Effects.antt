-- ===== src/Effects.antt =====
-- Force feedback in dstx/src/output.c: the effects that a program uploads to the virtual device
-- and starts and stops, and the value of a periodic effect at a time.
pub mod Invariant
pub mod Playback
use dstx.Common.{
  Option, none, some, length, ℕ, ◌+◌, ◌*◌, ◌/◌, Bool, true, false, List, ltb, leb, ◌==◌, ◌&&◌, ◌||◌,
  not, u8, truth, if◌then◌else◌, get_or, set,
}
use dstx.Common.Int.{ℤ, pos, negsuc, ltb_ℤ, eqb_ℤ, sub_ℕ, rem_ℤ, u8_of_ℤ, pos_part}
use dstx.Controller.{
  Controller, Effects, Feedback, FfEffect, PeriodicEffect, Settings, Timeval, elapsed_us,
}
use dstx.AxisSystem.{Float}

-- What compute_periodic_wave takes from math.h and linux/input.h, over `double`.
pub record Waves (dbl : Float) : Type 1 where
  pub sin : dbl.F → dbl.F
  pub fabs : dbl.F → dbl.F
  pub two_pi : dbl.F
  pub ff_sine : ℕ
  pub ff_square : ℕ
  pub ff_triangle : ℕ

abbrev pub max_effects : ℕ
max_effects = 16

-- The effect in a `struct uinput_ff_upload`; `id` is an `__s16`.
pub data Upload : Type 0 where
  rumble : (strong_magnitude weak_magnitude : ℕ) → Upload
  periodic : (waveform period : ℕ) → (magnitude offset : ℤ) → (phase : ℕ) → Upload
  other_effect : Upload

-- The fields of an input event that the handler reads; `is_ff` is `type == EV_FF`.
pub record FfEvent : Type 0 where
  pub is_ff : Bool
  pub code : ℕ
  pub value : ℤ

abbrev pub no_ff : FfEffect
no_ff = record { strong = 0; weak = 0 }

abbrev pub no_periodic : PeriodicEffect
no_periodic = record {
  active = false;
  waveform = 0;
  period = 0;
  magnitude = pos 0;
  offset = pos 0;
  phase = 0;
  start_time = record { sec = 0; usec = 0 };
  last_value = 0;
  left_freq = 0;
  right_freq = 0;
}

-- The effect that an upload stores under a valid index, and whether there is one.
unfoldable pub store_effect : ℕ → Upload → Effects → Effects × Bool
store_effect i (rumble strong weak) e = (
  record e {
    effect_type = set e.effect_type i 1;
    ff_effects = set e.ff_effects i (record { strong = u8 (strong / 256); weak = u8 (weak / 256) });
  },
  true,
)
store_effect i (periodic waveform period magnitude offset phase) e =
    let p = record (get_or e.periodic_effects i no_periodic) {
      waveform = waveform;
      period = period;
      magnitude = magnitude;
      offset = offset;
      phase = phase;
      active = false;
      last_value = 0;
      left_freq = 0;
      right_freq = 0;
    } in
    (
      record e {
        effect_type = set e.effect_type i 2;
        periodic_effects = set e.periodic_effects i p;
      },
      true,
    )
store_effect i other_effect e = (e, false)

-- rumble_handle_ff_upload, on an upload event: `begun` is the success of UI_BEGIN_FF_UPLOAD.
unfoldable pub rumble_handle_ff_upload : Bool → ℤ → Upload → Controller → Controller × Bool
unfolding store_effect
rumble_handle_ff_upload false id upload slot = (slot, false)
rumble_handle_ff_upload true (negsuc n) upload slot = (slot, false)
rumble_handle_ff_upload true (pos i) upload slot =
    let stored = store_effect i upload slot.effects in
    if ltb i max_effects then (record slot { effects = stored.0 }, stored.1) else (slot, false)

-- apply_wave_to_rumble: the upper half of the wave goes to the strong motor, the lower to the weak.
unfoldable pub apply_wave_to_rumble : ℕ → Feedback → Feedback
apply_wave_to_rumble wave_value fb =
    if ltb 127 wave_value
    then record fb { rumble_strong = wave_value; rumble_weak = 0 }
    else record fb { rumble_strong = 0; rumble_weak = wave_value }

module _ (dbl : Float) (w : Waves dbl) where
  open dbl use {F, lit, of_int, to_int, add, sub, mul, div, lt}

  -- The `switch` on the waveform, at the position `norm` within a period.
  unfoldable pub wave_at : ℕ → F → F
  wave_at waveform norm =
      let one = lit 1 1 in
      let minus_one = sub (lit 0 1) one in
      let triangle = sub (mul (lit 2 1) (w.fabs (sub (mul (lit 2 1) norm) one))) one in
      if waveform == w.ff_sine
      then w.sin (mul w.two_pi norm)
      else if waveform == w.ff_square
      then if lt norm (lit 1 2) then one else minus_one
      else if waveform == w.ff_triangle
      then triangle
      else lit 0 1

  unfoldable pub compute_periodic_wave : PeriodicEffect → Timeval → ℕ
  compute_periodic_wave p now =
      let period_us = p.period * 1000 in
      let t = div (of_int (rem_ℤ (elapsed_us now p.start_time) period_us)) (lit 1000 1) in
      let norm = div t (of_int (pos p.period)) in
      let raw = add (of_int p.offset) (mul (of_int p.magnitude) (wave_at p.waveform norm)) in
      let floored = if lt raw (lit 0 1) then lit 0 1 else raw in
      let value = if lt (lit 32767 1) floored then lit 32767 1 else floored in
      if period_us == 0 then 0 else u8_of_ℤ (to_int (div value (lit 128 1)))

  -- Start of the effect `i`: a rumble effect plays at once, a periodic one from its first value.
  unfoldable pub start_effect : Timeval → ℕ → Controller → Controller
  start_effect now i slot =
      let e = slot.effects in
      let ff = get_or e.ff_effects i no_ff in
      let p = record (get_or e.periodic_effects i no_periodic) {
        start_time = now;
        active = true;
      } in
      let first_val = compute_periodic_wave p now in
      let wave_fb = apply_wave_to_rumble first_val slot.feedback in
      if get_or e.effect_type i 0 == 1
      then record slot {
        feedback = record (slot.feedback) {
          rumble_strong = ff.strong;
          rumble_weak = ff.weak;
          rumble_dirty = true;
        };
        effects = record e { active_effect_id = negsuc 0; active_effect_type = 0 };
      }
      else if get_or e.effect_type i 0 == 2
      then record slot {
        feedback = record wave_fb { rumble_dirty = true };
        effects = record e {
          active_effect_id = pos i;
          active_effect_type = 2;
          periodic_effects = set e.periodic_effects i (record p { last_value = first_val });
        };
      }
      else slot

  -- A stop is for the effect that runs.
  unfoldable pub stop_effect : ℕ → Controller → Controller
  stop_effect i slot =
      let e = slot.effects in
      if eqb_ℤ e.active_effect_id (pos i)
      then record slot {
        feedback = record (slot.feedback) {
          rumble_strong = 0;
          rumble_weak = 0;
          rumble_dirty = true;
        };
        effects = record e { active_effect_id = negsuc 0; active_effect_type = 0 };
      }
      else slot

  -- A start reads effect_type, and what it then finds at the same index of the other two arrays, which
  -- are as long.
  unfoldable pub reads_outside : FfEvent → Effects → Bool
  reads_outside ev e = ltb_ℤ (pos 0) ev.value && leb (length e.effect_type) ev.code

  -- `none` is undefined behaviour: a read outside of the arrays.
  unfoldable pub rumble_handle_ff_event : Timeval → FfEvent → Controller → Option Controller
  rumble_handle_ff_event now ev slot =
      let stop = ev.is_ff && eqb_ℤ ev.value (pos 0) in
      let handled =
        if ltb_ℤ (pos 0) ev.value
        then start_effect now ev.code slot
        else stop_effect ev.code slot in
      if not slot.settings.rumble_active && not stop
      then some slot
      else if not ev.is_ff || leb max_effects ev.code
      then some slot
      else if reads_outside ev slot.effects
      then none
      else some handled
