-- ===== src/Registry.antt =====
-- How dstx/src/daemon.c hands out the four slots: the bitmap of free slots, and the part of
-- try_register_control that sets up the slot for a controller.
pub mod Bitmap
pub mod Persistence
use dstx.Common.{
  ℕ, zero, suc, ◌+◌, ◌-◌, ◌^◌, Bool, true, false, Option, none, some, List, ltb, truth, bit_and,
  bit_or, u8, if◌then◌else◌, replicate, set, get_or,
}
use dstx.Common.Int.{ℤ, pos, negsuc}
use dstx.Controller.{
  Controller, ControllerType, Effects, Feedback, PeriodicEffect, FfEffect, Timeval, type_ds4,
  type_dualsense, type_nsw_pro,
}
use dstx.Controller.Config.{SlotConfig, slot_config_to_controller, controller_to_slot_config}
use dstx.Effects.{no_ff, no_periodic}
use dstx.Debounce.{max_slots}
use dstx.Keys.{no_buttons}

-- The loop of find_free_slot at `i`, with `left` rounds left; none is -1.
unfoldable pub find_from : ℕ → ℕ → ℕ → Option ℕ
find_from bitmap i zero = none
find_from bitmap i (suc left) =
    let rest = find_from bitmap (i + 1) left in
    if truth (bit_and bitmap (2 ^ i)) then some i else rest

unfoldable pub find_free_slot : ℕ → Option ℕ
find_free_slot bitmap = find_from bitmap 0 max_slots

-- ~(1 << slot), stored into a uint8_t, is 255 - 2 ^ slot.
unfoldable pub mark_slot_busy : ℕ → ℤ → ℕ
mark_slot_busy bitmap (negsuc n) = bitmap
mark_slot_busy bitmap (pos slot) =
    if ltb slot max_slots then bit_and bitmap (255 - 2 ^ slot) else bitmap

unfoldable pub mark_slot_free : ℕ → ℤ → ℕ
mark_slot_free bitmap (negsuc n) = bitmap
mark_slot_free bitmap (pos slot) = if ltb slot max_slots then bit_or bitmap (2 ^ slot) else bitmap

-- A slot of zero bytes.
abbrev pub zero_slot : Controller
zero_slot = record {
  axes = record { lx = pos 0; ly = pos 0; rx = pos 0; ry = pos 0; lt = pos 0; rt = pos 0 };
  buttons = no_buttons;
  hat_x = pos 0;
  hat_y = pos 0;
  battery = pos 0;
  connected = false;
  is_bluetooth = false;
  type = type_ds4;
  feedback = record {
    led_r = 0;
    led_g = 0;
    led_b = 0;
    led_base_r = 0;
    led_base_g = 0;
    led_base_b = 0;
    rumble_weak = 0;
    rumble_strong = 0;
    rumble_gain = 0;
    global_led_brightness = 0;
    player_leds = 0;
    led_dirty = false;
    rumble_dirty = false;
    external_retry_count = 0;
    last_external_retry = record { sec = 0; usec = 0 };
  };
  led_request = record {
    led_static = false;
    led_request_effect = pos 0;
    led_request_speed = 0;
    led_request_brightness = 0;
    led_request_pending = false;
  };
  settings = record {
    deadzone = 0;
    debounce_enabled = false;
    sensitivity_left_preset = 0;
    sensitivity_right_preset = 0;
    emulate_active = false;
    is_uhid = false;
    led_reapply = false;
    rumble_active = false;
    invert_ly = false;
    invert_ry = false;
    is_trigger_digital = false;
  };
  keymap = replicate 18 0;
  effects = record {
    ff_effects = replicate 16 no_ff;
    periodic_effects = replicate 16 no_periodic;
    effect_type = replicate 16 0;
    active_effect_id = pos 0;
    active_effect_type = 0;
  };
}

abbrev has_led : ControllerType → Bool
has_led type_nsw_pro = false
has_led type_ds4 = true
has_led type_dualsense = true

-- The set-up of a slot: the configuration is saved, the slot is zeroed, the device's fields are
-- filled in, the configuration is restored, and what is not persistent starts anew.
unfoldable pub register_slot : ControllerType → Bool → Controller → Controller
register_slot type bluetooth slot =
    let saved_config = controller_to_slot_config slot in
    let connected = record zero_slot { type = type; is_bluetooth = bluetooth; connected = true } in
    let restored = slot_config_to_controller saved_config connected in
    record restored {
      effects = record (restored.effects) { active_effect_id = negsuc 0; active_effect_type = 0 };
      battery = pos 100;
      feedback = record (restored.feedback) {
        external_retry_count = 0;
        last_external_retry = record { sec = 0; usec = 0 };
        led_dirty = has_led type;
      };
    }

pub record Registry : Type 0 where
  pub free_slots_bitmap : ℕ
  pub slots : List Controller

-- The first free slot is set up and marked; `none` is the limit of the slots.
unfoldable pub claim_slot : ControllerType → Bool → Registry → Option (Registry × ℕ)
claim_slot type bluetooth reg = elim (find_free_slot reg.free_slots_bitmap) [
  | none ↦ none
  | some i ↦ some (
    record {
      free_slots_bitmap = mark_slot_busy reg.free_slots_bitmap (pos i);
      slots = set reg.slots i (register_slot type bluetooth (get_or reg.slots i zero_slot));
    },
    i,
  )
]
