-- ===== src/Startup.antt =====
-- The start of the daemon in dstx/src/main.c: what becomes of the slots in the shared memory. Fields of
-- the device, and the bitmap of the free slots, which is Registry's, are left out.
use dstx.Common.{
  ℕ, ◌≤◌, ◌≡◌, ◌∙◌, refl, Bool, true, false, List, [], ◌∷◌, map, replicate, ◌==◌, length, All,
  All-map, All-replicate, suc, ap, arith, if◌then◌else◌,
}
use dstx.Common.Int.{pos, u8_of_ℤ}
use dstx.Controller.{type_ds4}
use dstx.Controller.Config.{controller_to_slot_config}
use dstx.Debounce.{max_slots}
use dstx.Keys.{keys_get_default_map}
use dstx.Profiles.Json.Ranges.{IsValidMap}
use dstx.Bus.{BusSlot, empty_slot}
use dstx.Bus.Written.{IsSavable, IsSavableSlot, AreSavable, default_map-IsValidMap}

abbrev pub sens_preset_default : ℕ
sens_preset_default = 0

-- One round of the loop over the slots; the gain is kept unless it is 0.
unfoldable pub init_slot : BusSlot → BusSlot
init_slot s = record {
  slot = record (s.slot) {
    connected = false;
    feedback = record (s.slot.feedback) {
      rumble_gain = if s.slot.feedback.rumble_gain == 0 then 100 else s.slot.feedback.rumble_gain;
      led_base_r = 0;
      led_base_g = 0;
      led_base_b = 255;
      led_r = 0;
      led_g = 0;
      led_b = 255;
      led_dirty = true;
      external_retry_count = 0;
      player_leds = 0;
      global_led_brightness = 100;
      last_external_retry = record { sec = 0; usec = 0 };
    };
    led_request = record {
      led_request_effect = pos 0;
      led_request_speed = 5;
      led_request_brightness = 80;
      led_request_pending = false;
      led_static = true;
    };
    settings = record (s.slot.settings) {
      debounce_enabled = false;
      rumble_active = true;
      led_reapply = true;
      is_uhid = false;
      deadzone = 0;
      invert_ly = false;
      invert_ry = false;
      sensitivity_left_preset = sens_preset_default;
      sensitivity_right_preset = sens_preset_default;
      is_trigger_digital = false;
    };
    keymap = keys_get_default_map type_ds4 s.slot.keymap;
  };
  requests = record {
    request_switch_layout = false;
    request_xbox_layout = false;
    request_reset_all_keybinds = false;
  };
}

-- Memory that is new, has no magic number or belonged to a process that died is zeroed first.
unfoldable pub start_slots : (dirty : Bool) → List BusSlot → List BusSlot
start_slots true slots = map init_slot (replicate max_slots empty_slot)
start_slots false slots = map init_slot slots

-- What the slots of the memory have before the start: bytes for the gain, and 18 logical buttons.
pub record IsOld (s : BusSlot) : Type 0 where
  pub gain : s.slot.feedback.rumble_gain ≤ 100
  pub keymap : IsValidMap s.slot.keymap

init_slot-IsSavable : (s : BusSlot) → IsOld s → IsSavableSlot (init_slot s)
unfolding init_slot IsSavable controller_to_slot_config u8_of_ℤ
init_slot-IsSavable s h = record {
  led_r = omega arith;
  led_g = omega arith;
  led_b = omega arith;
  led_base_r = omega arith;
  led_base_g = omega arith;
  led_base_b = omega arith;
  rumble_gain = ground (arith, h.gain);
  deadzone = omega arith;
  global_led_brightness = omega arith;
  player_leds = omega arith;
  sensitivity_left_preset = omega arith;
  sensitivity_right_preset = omega arith;
  led_effect = omega arith;
  led_effect_speed = (omega arith, omega arith);
  led_effect_brightness = omega arith;
  keymap = default_map-IsValidMap type_ds4 s.slot.keymap h.keymap;
}

savable-IsOld : (s : BusSlot) → IsSavableSlot s → IsOld s
unfolding IsSavable controller_to_slot_config
savable-IsOld s h = record { gain = h.rumble_gain; keymap = h.keymap }

empty-IsOld : IsOld empty_slot
empty-IsOld = record {
  gain = omega arith;
  keymap = record { has_entries = refl; buttons = omega arith };
}

length-init_slots : (slots : List BusSlot) → length (map init_slot slots) ≡ length slots
length-init_slots [] = refl
length-init_slots (s ∷ slots) = ap suc (length-init_slots slots)

init_slots-All : (slots : List BusSlot) → All IsOld slots → All IsSavableSlot (map init_slot slots)
init_slots-All [] h = tt
init_slots-All (s ∷ slots) h = (init_slot-IsSavable s h.0, init_slots-All slots h.1)

-- After the start the configuration of every slot is in range, if it was before or the memory was
-- zeroed.
pub start_slots-AreSavable :
    (dirty : Bool) (slots : List BusSlot)
    → (dirty ≡ false → AreSavable slots)
    → AreSavable (start_slots dirty slots)
unfolding start_slots
start_slots-AreSavable true slots h = (
  refl,
  init_slots-All (replicate max_slots empty_slot)
      (All-replicate IsOld max_slots empty_slot empty-IsOld),
)
start_slots-AreSavable false slots h = (
  length-init_slots slots ∙ (h refl).0,
  init_slots-All slots (All-map IsSavableSlot IsOld slots savable-IsOld (h refl).1),
)
