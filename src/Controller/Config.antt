-- ===== src/Controller/Config.antt =====
-- `slot_config_t` of dstx/src/dstx.h, and the two conversions of dstx/src/utils.c between it and a
-- slot, with which a profile is saved and restored.
use dstx.Common.{ℕ, ◌<◌, ◌≡◌, ◌∙◌, ap, Bool, true, List, ◌==◌, arith}
use dstx.Common.Int.{pos, u8_of_ℤ}
use dstx.Controller.{Controller}

pub record SlotConfig : Type 0 where
  pub led_r : ℕ
  pub led_g : ℕ
  pub led_b : ℕ
  pub led_base_r : ℕ
  pub led_base_g : ℕ
  pub led_base_b : ℕ
  pub rumble_gain : ℕ
  pub deadzone : ℕ
  pub global_led_brightness : ℕ
  pub player_leds : ℕ
  pub debounce_enabled : Bool
  pub emulate_active : Bool
  pub is_uhid : Bool
  pub led_reapply : Bool
  pub rumble_active : Bool
  pub invert_ly : Bool
  pub invert_ry : Bool
  pub sensitivity_left_preset : ℕ
  pub sensitivity_right_preset : ℕ
  pub led_effect : ℕ
  pub led_effect_speed : ℕ
  pub led_effect_brightness : ℕ
  pub keymap : List ℕ
  pub treat_triggers_as_digital : Bool

unfoldable pub slot_config_to_controller : SlotConfig → Controller → Controller
slot_config_to_controller cfg ctrl = record ctrl {
  feedback = record (ctrl.feedback) {
    led_r = cfg.led_r;
    led_g = cfg.led_g;
    led_b = cfg.led_b;
    led_base_r = cfg.led_base_r;
    led_base_g = cfg.led_base_g;
    led_base_b = cfg.led_base_b;
    rumble_gain = cfg.rumble_gain;
    global_led_brightness = cfg.global_led_brightness;
    player_leds = cfg.player_leds;
  };
  settings = record {
    deadzone = cfg.deadzone;
    debounce_enabled = cfg.debounce_enabled;
    sensitivity_left_preset = cfg.sensitivity_left_preset;
    sensitivity_right_preset = cfg.sensitivity_right_preset;
    emulate_active = cfg.emulate_active;
    is_uhid = cfg.is_uhid;
    led_reapply = cfg.led_reapply;
    rumble_active = cfg.rumble_active;
    invert_ly = cfg.invert_ly;
    invert_ry = cfg.invert_ry;
    is_trigger_digital = cfg.treat_triggers_as_digital;
  };
  led_request = record {
    led_static = cfg.led_effect == 0;
    led_request_effect = pos cfg.led_effect;
    led_request_speed = cfg.led_effect_speed;
    led_request_brightness = cfg.led_effect_brightness;
    led_request_pending = true;
  };
  keymap = cfg.keymap;
}

-- The effect, an `int`, is stored into a `uint8_t`.
unfoldable pub controller_to_slot_config : Controller → SlotConfig
controller_to_slot_config ctrl = record {
  led_r = ctrl.feedback.led_r;
  led_g = ctrl.feedback.led_g;
  led_b = ctrl.feedback.led_b;
  led_base_r = ctrl.feedback.led_base_r;
  led_base_g = ctrl.feedback.led_base_g;
  led_base_b = ctrl.feedback.led_base_b;
  rumble_gain = ctrl.feedback.rumble_gain;
  deadzone = ctrl.settings.deadzone;
  global_led_brightness = ctrl.feedback.global_led_brightness;
  player_leds = ctrl.feedback.player_leds;
  debounce_enabled = ctrl.settings.debounce_enabled;
  emulate_active = ctrl.settings.emulate_active;
  is_uhid = ctrl.settings.is_uhid;
  led_reapply = ctrl.settings.led_reapply;
  rumble_active = ctrl.settings.rumble_active;
  invert_ly = ctrl.settings.invert_ly;
  invert_ry = ctrl.settings.invert_ry;
  sensitivity_left_preset = ctrl.settings.sensitivity_left_preset;
  sensitivity_right_preset = ctrl.settings.sensitivity_right_preset;
  led_effect = u8_of_ℤ ctrl.led_request.led_request_effect;
  led_effect_speed = ctrl.led_request.led_request_speed;
  led_effect_brightness = ctrl.led_request.led_request_brightness;
  keymap = ctrl.keymap;
  treat_triggers_as_digital = ctrl.settings.is_trigger_digital;
}

u8_of_small : (n : ℕ) → n < 256 → u8_of_ℤ (pos n) ≡ n
unfolding u8_of_ℤ
u8_of_small n h = omega arith

-- A profile that is restored into any slot and saved from it again is the same profile, for an
-- effect of eight bits.
pub config_roundtrip :
    (cfg : SlotConfig) (ctrl : Controller)
    → cfg.led_effect < 256
    → controller_to_slot_config (slot_config_to_controller cfg ctrl) ≡ cfg
unfolding slot_config_to_controller controller_to_slot_config
config_roundtrip cfg ctrl byte =
    ap (λ e. record cfg { led_effect = e }) (u8_of_small cfg.led_effect byte)

-- The profile saved from a slot whose effect has eight bits, and restored into it, changes nothing but
-- the request for the LED effect, which is made again: the mode is static exactly for the effect 0.
pub restore-save :
    (ctrl : Controller) (effect : ℕ)
    → ctrl.led_request.led_request_effect ≡ pos effect
    → effect < 256
    → slot_config_to_controller (controller_to_slot_config ctrl) ctrl ≡ record ctrl {
      led_request = record (ctrl.led_request) {
        led_static = effect == 0;
        led_request_effect = pos effect;
        led_request_pending = true;
      };
    }
unfolding slot_config_to_controller controller_to_slot_config
restore-save ctrl effect requested byte =
    ap
      (λ e. record ctrl {
        led_request = record (ctrl.led_request) {
          led_static = e == 0;
          led_request_effect = pos e;
          led_request_pending = true;
        };
      })
      (ap u8_of_ℤ requested ∙ u8_of_small effect byte)
