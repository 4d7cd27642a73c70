-- ===== src/Monitor.antt =====
-- The monitor of the D-Bus bridge, which compares the slots with those of its last round and emits
-- signals: the loop over the slots in daemon_monitor of dstx/src/dbus-monitor.c, for one slot, with
-- the comparisons and the copy of dstx/src/dbus-utils.c.
pub mod Buttons
pub mod Dropped
pub mod Round
pub mod Status
use dstx.Common.{
  ℕ, ◌+◌, ◌*◌, ◌-◌, ◌^◌, Bool, true, false, List, [], ◌∷◌, ◌++◌, ◌==◌, leb, not, ◌&&◌, ◌||◌, truth,
  of_bool, u64, if◌then◌else◌,
}
use dstx.Common.Int.{ℤ, eqb_ℤ}
use dstx.Controller.{Controller, Axes}
use dstx.Profiles.{same_bool, same_keymap}
use dstx.Registry.{zero_slot}

-- Whether the interval has passed; the times are `uint64_t`.
unfoldable pub should_emit_signal : (now last_emit min_interval_us : ℕ) → Bool
should_emit_signal now last_emit min_interval_us =
    leb min_interval_us (u64 (now + 18446744073709551616 - last_emit))

-- The buttons in the order of their bits.
abbrev pub button_list : Controller → List ℕ
button_list c =
    c.buttons.cross ∷ c.buttons.circle ∷ c.buttons.square ∷ c.buttons.triangle ∷ c.buttons.l1
    ∷ c.buttons.r1 ∷ c.buttons.l2 ∷ c.buttons.r2 ∷ c.buttons.share ∷ c.buttons.options
    ∷ c.buttons.l3 ∷ c.buttons.r3 ∷ c.buttons.ps ∷ c.buttons.touch_btn ∷ []

-- The `if`s from a bit on; different bits, so that `|=` adds.
unfoldable pub pack_from : List ℕ → (bit : ℕ) → ℕ
pack_from [] bit = 0
pack_from (b ∷ buttons) bit =
    let rest = pack_from buttons (bit + 1) in if truth b then 2 ^ bit + rest else rest

unfoldable pub pack_buttons : Controller → ℕ
pack_buttons c = pack_from (button_list c) 0

-- The copy, field by field.
unfoldable pub copy_controller_state : (dst src : Controller) → Controller
copy_controller_state dst src = record dst {
  axes = record {
    lx = src.axes.lx;
    ly = src.axes.ly;
    rx = src.axes.rx;
    ry = src.axes.ry;
    lt = src.axes.lt;
    rt = src.axes.rt;
  };
  hat_x = src.hat_x;
  hat_y = src.hat_y;
  buttons = record {
    square = src.buttons.square;
    cross = src.buttons.cross;
    circle = src.buttons.circle;
    triangle = src.buttons.triangle;
    l1 = src.buttons.l1;
    r1 = src.buttons.r1;
    l2 = src.buttons.l2;
    r2 = src.buttons.r2;
    share = src.buttons.share;
    options = src.buttons.options;
    l3 = src.buttons.l3;
    r3 = src.buttons.r3;
    ps = src.buttons.ps;
    touch_btn = src.buttons.touch_btn;
    dpad_up = src.buttons.dpad_up;
    dpad_down = src.buttons.dpad_down;
    dpad_left = src.buttons.dpad_left;
    dpad_right = src.buttons.dpad_right;
  };
  battery = src.battery;
  is_bluetooth = src.is_bluetooth;
  type = src.type;
  feedback = record {
    led_r = src.feedback.led_r;
    led_g = src.feedback.led_g;
    led_b = src.feedback.led_b;
    led_base_r = src.feedback.led_base_r;
    led_base_g = src.feedback.led_base_g;
    led_base_b = src.feedback.led_base_b;
    rumble_weak = src.feedback.rumble_weak;
    rumble_strong = src.feedback.rumble_strong;
    rumble_gain = src.feedback.rumble_gain;
    global_led_brightness = src.feedback.global_led_brightness;
    external_retry_count = src.feedback.external_retry_count;
    last_external_retry = src.feedback.last_external_retry;
    led_dirty = src.feedback.led_dirty;
    rumble_dirty = src.feedback.rumble_dirty;
    player_leds = src.feedback.player_leds;
  };
  settings = record {
    deadzone = src.settings.deadzone;
    debounce_enabled = src.settings.debounce_enabled;
    emulate_active = src.settings.emulate_active;
    is_uhid = src.settings.is_uhid;
    led_reapply = src.settings.led_reapply;
    rumble_active = src.settings.rumble_active;
    invert_ly = src.settings.invert_ly;
    invert_ry = src.settings.invert_ry;
    is_trigger_digital = src.settings.is_trigger_digital;
    sensitivity_left_preset = src.settings.sensitivity_left_preset;
    sensitivity_right_preset = src.settings.sensitivity_right_preset;
  };
  effects = record {
    active_effect_id = src.effects.active_effect_id;
    active_effect_type = src.effects.active_effect_type;
    ff_effects = src.effects.ff_effects;
    periodic_effects = src.effects.periodic_effects;
    effect_type = src.effects.effect_type;
  };
  keymap = src.keymap;
  connected = src.connected;
  led_request = record {
    led_static = src.led_request.led_static;
    led_request_pending = src.led_request.led_request_pending;
    led_request_speed = src.led_request.led_request_speed;
    led_request_brightness = src.led_request.led_request_brightness;
    led_request_effect = src.led_request.led_request_effect;
  };
}

-- `!=` on the two widths.
abbrev differs : ℕ → ℕ → Bool
differs a b = not (a == b)

abbrev differs_ℤ : ℤ → ℤ → Bool
differs_ℤ a b = not (eqb_ℤ a b)

unfoldable pub telemetry_changed : Controller → Controller → Bool
telemetry_changed a b =
    differs_ℤ a.axes.lx b.axes.lx
    || differs_ℤ a.axes.ly b.axes.ly
    || differs_ℤ a.axes.rx b.axes.rx
    || differs_ℤ a.axes.ry b.axes.ry
    || differs_ℤ a.axes.lt b.axes.lt
    || differs_ℤ a.axes.rt b.axes.rt
    || differs_ℤ a.hat_x b.hat_x
    || differs_ℤ a.hat_y b.hat_y
    || differs a.buttons.square b.buttons.square
    || differs a.buttons.cross b.buttons.cross
    || differs a.buttons.circle b.buttons.circle
    || differs a.buttons.triangle b.buttons.triangle
    || differs a.buttons.l1 b.buttons.l1
    || differs a.buttons.r1 b.buttons.r1
    || differs a.buttons.l2 b.buttons.l2
    || differs a.buttons.r2 b.buttons.r2
    || differs a.buttons.share b.buttons.share
    || differs a.buttons.options b.buttons.options
    || differs a.buttons.l3 b.buttons.l3
    || differs a.buttons.r3 b.buttons.r3
    || differs a.buttons.ps b.buttons.ps
    || differs a.buttons.touch_btn b.buttons.touch_btn
    || differs a.buttons.dpad_up b.buttons.dpad_up
    || differs a.buttons.dpad_down b.buttons.dpad_down
    || differs a.buttons.dpad_left b.buttons.dpad_left
    || differs a.buttons.dpad_right b.buttons.dpad_right

abbrev flag_differs : Bool → Bool → Bool
flag_differs a b = not (same_bool a b)

unfoldable pub config_changed : Controller → Controller → Bool
unfolding same_bool
config_changed a b =
    differs a.feedback.led_r b.feedback.led_r
    || differs a.feedback.led_g b.feedback.led_g
    || differs a.feedback.led_b b.feedback.led_b
    || differs a.feedback.rumble_gain b.feedback.rumble_gain
    || differs a.settings.deadzone b.settings.deadzone
    || differs a.feedback.global_led_brightness b.feedback.global_led_brightness
    || differs a.feedback.player_leds b.feedback.player_leds
    || flag_differs a.settings.debounce_enabled b.settings.debounce_enabled
    || flag_differs a.settings.emulate_active b.settings.emulate_active
    || flag_differs a.settings.is_uhid b.settings.is_uhid
    || flag_differs a.settings.led_reapply b.settings.led_reapply
    || flag_differs a.settings.rumble_active b.settings.rumble_active
    || flag_differs a.settings.invert_ly b.settings.invert_ly
    || flag_differs a.settings.invert_ry b.settings.invert_ry
    || flag_differs a.settings.is_trigger_digital b.settings.is_trigger_digital
    || differs a.settings.sensitivity_left_preset b.settings.sensitivity_left_preset
    || differs a.settings.sensitivity_right_preset b.settings.sensitivity_right_preset
    || not (same_keymap a.keymap b.keymap)
