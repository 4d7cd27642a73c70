-- ===== src/Examples/Data.antt =====
-- A slot as the daemon sets it up, and a fixed-point stand-in for `float`.
use dstx.Common.{
  ℕ, zero, suc, ◌+◌, ◌*◌, ◌/◌, ◌≡◌, refl, true, false, not, leb, if◌then◌else◌, replicate, arith,
}
use dstx.Common.Int.{ℤ, pos, negsuc, pos_part, neg_part, sub_ℕ, ltb_ℤ, ◌+ℤ◌, ◌-ℤ◌, ◌*ℤ◌}
use dstx.Controller.{Controller, Effects, Feedback, Settings, Timeval, type_ds4}
use dstx.Keys.{no_buttons}
use dstx.AxisSystem.{Float, FloatLaws}
use dstx.Effects.{Waves, no_periodic}
use dstx.Effects.Invariant.{IsPlayable, IsMotors}
use dstx.Common.{List, [], ◌∷◌, All-replicate, ◌%◌, ◌≤◌, ◌<◌}

abbrev pub time_zero : Timeval
time_zero = record { sec = 0; usec = 0 }

abbrev pub fresh_effects : Effects
fresh_effects = record {
  ff_effects = replicate 16 (record { strong = 0; weak = 0 });
  periodic_effects = replicate 16 no_periodic;
  effect_type = replicate 16 0;
  active_effect_id = negsuc 0;
  active_effect_type = 0;
}

abbrev pub fresh_feedback : Feedback
fresh_feedback = record {
  led_r = 0;
  led_g = 0;
  led_b = 255;
  led_base_r = 0;
  led_base_g = 0;
  led_base_b = 255;
  rumble_weak = 0;
  rumble_strong = 0;
  rumble_gain = 100;
  global_led_brightness = 80;
  player_leds = 0;
  led_dirty = true;
  rumble_dirty = false;
  external_retry_count = 0;
  last_external_retry = time_zero;
}

abbrev pub fresh_settings : Settings
fresh_settings = record {
  deadzone = 0;
  debounce_enabled = false;
  sensitivity_left_preset = 0;
  sensitivity_right_preset = 0;
  emulate_active = true;
  is_uhid = false;
  led_reapply = true;
  rumble_active = true;
  invert_ly = false;
  invert_ry = false;
  is_trigger_digital = false;
}

abbrev pub fresh : Controller
fresh = record {
  axes = record { lx = pos 0; ly = pos 0; rx = pos 0; ry = pos 0; lt = pos 0; rt = pos 0 };
  buttons = no_buttons;
  hat_x = pos 0;
  hat_y = pos 0;
  battery = pos 0;
  connected = true;
  is_bluetooth = false;
  type = type_ds4;
  feedback = fresh_feedback;
  led_request = record {
    led_static = true;
    led_request_effect = negsuc 0;
    led_request_speed = 5;
    led_request_brightness = 80;
    led_request_pending = false;
  };
  settings = fresh_settings;
  keymap = replicate 18 0;
  effects = fresh_effects;
}

-- Square root rounded down; the fuel counts pairs of bits.
unfoldable pub isqrt : ℕ → ℕ → ℕ
isqrt zero n = 0
isqrt (suc fuel) n =
    let r = 2 * isqrt fuel (n / 4) in if leb ((r + 1) * (r + 1)) n then r + 1 else r

-- Division that rounds towards zero, by a number that is not negative.
abbrev pub div_ℤ : ℤ → ℕ → ℤ
div_ℤ (pos a) n = pos (a / n)
div_ℤ (negsuc a) n = sub_ℕ 0 (suc a / n)

-- Fixed point with three decimals in place of floats.
abbrev pub fixed_float : Float
fixed_float = record {
  F = ℤ;
  lit = λ n d. pos (n * 1000 / d);
  of_int = λ a. a *ℤ pos 1000;
  to_int = λ a. div_ℤ a 1000;
  add = ◌+ℤ◌;
  sub = ◌-ℤ◌;
  mul = λ a b. div_ℤ (a *ℤ b) 1000;
  div = λ a b. div_ℤ (a *ℤ pos 1000) (pos_part b);
  sqrt = λ a. pos (isqrt 32 (pos_part a * 1000));
  pow = λ a b. a;
  lt = ltb_ℤ;
  le = λ a b. not (ltb_ℤ b a);
}

mul_pos : (a b : ℤ) → neg_part a ≡ 0 → neg_part b ≡ 0 → neg_part (a *ℤ b) ≡ 0
unfolding ◌*ℤ◌
mul_pos a b h k = ground arith

div_pos : (a : ℤ) (n : ℕ) → neg_part a ≡ 0 → neg_part (div_ℤ a n) ≡ 0
div_pos (pos a) n h = refl
div_pos (negsuc a) n h = absurd (omega arith)

pub fixed_laws : FloatLaws fixed_float
fixed_laws = record {
  IsBelow = λ a e. neg_part a ≡ 0;
  of_int_below = λ n lt. mul_pos (pos n) (pos 1000) refl refl;
  sqrt_below = λ a e h. refl;
  div_below = λ a e h. div_pos (a *ℤ pos 1000) 32768000 (mul_pos a (pos 1000) h refl);
  mul_below = λ a e h lt.
      div_pos (a *ℤ (pos 256 *ℤ pos 1000)) 1000
        (mul_pos a (pos 256 *ℤ pos 1000) h (mul_pos (pos 256) (pos 1000) refl refl));
  to_int_below = λ a e h lt. div_pos a 1000 h;
}

-- A sawtooth in place of the sine.
abbrev pub saw_waves : Waves fixed_float
saw_waves = record {
  sin = λ a. a;
  fabs = λ a. if ltb_ℤ a (pos 0) then pos 0 -ℤ a else a;
  two_pi = pos 6283;
  ff_sine = 0x5A;
  ff_square = 0x58;
  ff_triangle = 0x59;
}

-- A checksum of 32 bits in place of the one of zlib.
abbrev pub checksum : ℕ → List ℕ → ℕ
checksum crc [] = crc % 4294967296
checksum crc (b ∷ bytes) = checksum ((crc * 31 + b) % 4294967296) bytes

pub checksum_small : (crc : ℕ) (bytes : List ℕ) → checksum crc bytes < 4294967296
checksum_small crc [] = omega arith
checksum_small crc (b ∷ bytes) = checksum_small ((crc * 31 + b) % 4294967296) bytes

pub fresh-IsPlayable : IsPlayable fresh
fresh-IsPlayable = record {
  ff_length = refl;
  periodic_length = refl;
  type_length = refl;
  motors = All-replicate IsMotors 16 _ (omega arith, omega arith);
  types = All-replicate (λ t. t ≤ 2) 16 0 (omega arith);
  running = (refl, refl);
  strong = omega arith;
  weak = omega arith;
}
