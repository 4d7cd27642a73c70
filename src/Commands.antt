-- ===== src/Commands.antt =====
-- The slot commands of the command line, in dstx/src/commands.c: one function for each handler, from
-- its arguments and the slot to the slot that it leaves and its exit code. What is printed is left
-- out.
pub mod Slot
pub mod Ranges
pub mod Kept
pub mod Percent
pub mod Cli
use dstx.Common.{
  ℕ, suc, Bool, true, false, Option, none, some, List, [], ◌∷◌, ◌==◌, ◌-◌, not, ◌&&◌, ◌||◌, set,
  if◌then◌else◌,
}
use dstx.Common.Int.{ℤ, pos, negsuc, ltb_ℤ, eqb_ℤ, pos_part, u8_of_ℤ}
use dstx.Controller.{
  Controller, ControllerType, type_ds4, type_dualsense, type_nsw_pro, phy_btn_count,
  logical_btn_count,
}
use dstx.AxisSystem.{sens_preset_count}
use dstx.Ledfx.{ledfx_count}
use dstx.Worker.Requests.{mark_dirty}
use dstx.Bus.{BusSlot, request_switch, request_xbox, write_led}
use dstx.Text.{Word, Libc, codes, same_text, atoi, scan_color}

-- The slot with its requests, and the exit code.
abbrev pub Handler : Type 0
Handler = List Word → BusSlot → BusSlot × ℕ

-- A write to the slot.
abbrev pub write : (Controller → Controller) → BusSlot → BusSlot
write f s = record s { slot = f s.slot }

-- An `int` from 0 to a bound, both included.
unfoldable pub within : ℕ → ℤ → Bool
within high v = not (ltb_ℤ v (pos 0) || ltb_ℤ (pos high) v)

unfoldable pub str_to_bool : Word → Bool
str_to_bool s = same_text s (codes "on") || same_text s (codes "1")

-- What the commands write, which are those of the user interface as well.
unfoldable pub write_emulation : Bool → Controller → Controller
write_emulation val c = record c { settings = record (c.settings) { emulate_active = val } }

-- Emulation is switched off and on again.
unfoldable pub force_uhid : Bool → Controller → Controller
force_uhid val c = record c {
  settings = record (c.settings) { is_uhid = val; emulate_active = true };
}

unfoldable pub write_keybind : ℕ → ℕ → Controller → Controller
write_keybind phy log c = mark_dirty (record c { keymap = set c.keymap phy log })

unfoldable pub write_invert_ly : Bool → Controller → Controller
write_invert_ly val c = record c { settings = record (c.settings) { invert_ly = val } }

unfoldable pub write_invert_ry : Bool → Controller → Controller
write_invert_ry val c = record c { settings = record (c.settings) { invert_ry = val } }

-- A preset that is not one of them is refused.
unfoldable pub apply_sensitivity_preset_left : ℤ → Controller → Controller
apply_sensitivity_preset_left preset c =
    if not (within (sens_preset_count - 1) preset)
      || c.settings.sensitivity_left_preset == pos_part preset
    then c
    else record c { settings = record (c.settings) { sensitivity_left_preset = pos_part preset } }

unfoldable pub apply_sensitivity_preset_right : ℤ → Controller → Controller
apply_sensitivity_preset_right preset c =
    if not (within (sens_preset_count - 1) preset)
      || c.settings.sensitivity_right_preset == pos_part preset
    then c
    else record c { settings = record (c.settings) { sensitivity_right_preset = pos_part preset } }

unfoldable pub write_triggers : Bool → Controller → Controller
write_triggers val c = record c { settings = record (c.settings) { is_trigger_digital = val } }

-- The static mode with the base colour.
unfoldable pub write_static : Controller → Controller
write_static c = record c {
  led_request = record (c.led_request) { led_static = true; led_request_pending = false };
  feedback = record (c.feedback) {
    led_r = c.feedback.led_base_r;
    led_g = c.feedback.led_base_g;
    led_b = c.feedback.led_base_b;
    led_dirty = true;
  };
}

unfoldable pub write_ledfx : ℤ → ℕ → ℕ → Controller → Controller
unfolding write_static
write_ledfx effect speed brightness c = if eqb_ℤ effect (pos 0) then write_static c else record c {
  led_request = record {
    led_static = false;
    led_request_effect = effect;
    led_request_speed = speed;
    led_request_brightness = brightness;
    led_request_pending = true;
  };
}

unfoldable pub write_brightness : ℤ → Controller → Controller
write_brightness b c =
    mark_dirty (record c { feedback = record (c.feedback) { global_led_brightness = u8_of_ℤ b } })

unfoldable pub write_deadzone : ℤ → Controller → Controller
write_deadzone dz c = record c { settings = record (c.settings) { deadzone = u8_of_ℤ dz } }

unfoldable pub write_gain : ℤ → Controller → Controller
write_gain g c = record c { feedback = record (c.feedback) { rumble_gain = u8_of_ℤ g } }

unfoldable pub write_rumble : Bool → Controller → Controller
write_rumble val c =
    let switched = record c { settings = record (c.settings) { rumble_active = val } } in
    if val then switched else record switched {
      feedback = record (c.feedback) { rumble_strong = 0; rumble_weak = 0; rumble_dirty = true };
    }

unfoldable pub write_debounce : Bool → Controller → Controller
write_debounce val c = record c { settings = record (c.settings) { debounce_enabled = val } }

unfoldable pub write_reapply : Bool → Controller → Controller
write_reapply val c = record c { settings = record (c.settings) { led_reapply = val } }

unfoldable pub write_pled : ℤ → Controller → Controller
write_pled p c =
    mark_dirty (record c { feedback = record (c.feedback) { player_leds = u8_of_ℤ p } })
