-- ===== src/Bus.antt =====
-- The methods of the D-Bus bridge that write to a slot, in dstx/src/dbus-handlers.c: their checks,
-- what they write, and what they reply. A message with arguments of other types is answered by an
-- error before what is modelled here; the arguments of a method are bytes and flags.
pub mod ProfileCalls
pub mod Replies
pub mod Getters
pub mod Written
use dstx.Common.{
  ℕ, Bool, true, false, List, [], ◌∷◌, ltb, leb, not, ◌&&◌, get_or, set, if◌then◌else◌,
}
use dstx.Common.Int.{pos}
use dstx.Controller.{Controller, phy_btn_count, logical_btn_count}
use dstx.Debounce.{max_slots}
use dstx.AxisSystem.{sens_preset_count}
use dstx.Keys.{keys_get_default_map}
use dstx.Worker.Requests.{LayoutRequests, mark_dirty}
use dstx.Profiles.{same_bool}
use dstx.Registry.{zero_slot}

pub data Method : Type 0 where
  set_led : (r g b : ℕ) → Method
  set_effect : (effect speed brightness : ℕ) → Method
  set_gain : (gain : ℕ) → Method
  set_deadzone : (deadzone : ℕ) → Method
  set_global_brightness : (brightness : ℕ) → Method
  set_player_leds : (mode : ℕ) → Method
  set_emulate : (enable : Bool) → Method
  set_uhid : (enable : Bool) → Method
  set_debounce : (enable : Bool) → Method
  set_invert_ly : (enable : Bool) → Method
  set_invert_ry : (enable : Bool) → Method
  set_led_reapply : (enable : Bool) → Method
  set_rumble_active : (enable : Bool) → Method
  set_sensitivity_preset_left : (preset : ℕ) → Method
  set_sensitivity_preset_right : (preset : ℕ) → Method
  set_keybind : (physical logical : ℕ) → Method
  reset_keybinds : Method
  reset_all_keybinds : Method
  set_triggers_digital : (enable : Bool) → Method
  apply_switch_layout : Method
  apply_xbox_layout : Method
  set_switch_layout_legacy : (enable : Bool) → Method

-- The slot with its three one-shot requests.
pub record BusSlot : Type 0 where
  pub slot : Controller
  pub requests : LayoutRequests

abbrev pub empty_slot : BusSlot
empty_slot = record {
  slot = zero_slot;
  requests = record {
    request_switch_layout = false;
    request_xbox_layout = false;
    request_reset_all_keybinds = false;
  };
}

-- The checks that answer with an error.
unfoldable pub is_valid : Method → Bool
is_valid (set_sensitivity_preset_left preset) = ltb preset sens_preset_count
is_valid (set_sensitivity_preset_right preset) = ltb preset sens_preset_count
is_valid (set_keybind physical logical) =
    ltb physical phy_btn_count && ltb logical logical_btn_count
is_valid m = true

abbrev at_most : ℕ → ℕ → ℕ
at_most limit n = if ltb limit n then limit else n

abbrev pub request_switch : BusSlot → BusSlot
request_switch s = record s { requests = record (s.requests) { request_switch_layout = true } }

abbrev pub request_xbox : BusSlot → BusSlot
request_xbox s = record s { requests = record (s.requests) { request_xbox_layout = true } }

-- The colour of the static mode.
unfoldable pub write_led : ℕ → ℕ → ℕ → Controller → Controller
write_led r g b c = record c {
  led_request = record (c.led_request) { led_static = true; led_request_pending = false };
  feedback = record (c.feedback) {
    led_base_r = r;
    led_base_g = g;
    led_base_b = b;
    led_r = r;
    led_g = g;
    led_b = b;
    led_dirty = true;
  };
}

unfoldable pub write_effect : ℕ → ℕ → ℕ → Controller → Controller
write_effect effect speed brightness c = record c {
  led_request = record {
    led_static = false;
    led_request_effect = pos effect;
    led_request_speed = speed;
    led_request_brightness = brightness;
    led_request_pending = true;
  };
}

-- A change of the kind of device switches emulation off and on again, whether it was on or not.
unfoldable pub write_uhid : Bool → Controller → Controller
write_uhid enable c =
    if same_bool c.settings.is_uhid enable
    then c
    else record c { settings = record (c.settings) { is_uhid = enable; emulate_active = true } }

unfoldable pub write_rumble_active : Bool → Controller → Controller
write_rumble_active enable c =
    if same_bool c.settings.rumble_active enable
    then c
    else if enable
    then record c { settings = record (c.settings) { rumble_active = true } }
    else record c {
      settings = record (c.settings) { rumble_active = false };
      feedback = record (c.feedback) { rumble_strong = 0; rumble_weak = 0; rumble_dirty = true };
    }

-- What a method writes to the controller.
unfoldable pub write_slot : Method → Controller → Controller
unfolding write_led write_effect write_uhid write_rumble_active
write_slot (set_led r g b) c = write_led r g b c
write_slot (set_effect effect speed brightness) c = write_effect effect speed brightness c
write_slot (set_gain gain) c = record c {
  feedback = record (c.feedback) { rumble_gain = at_most 100 gain };
}
write_slot (set_deadzone deadzone) c = record c {
  settings = record (c.settings) { deadzone = at_most 100 deadzone };
}
write_slot (set_global_brightness brightness) c =
    mark_dirty (record c {
      feedback = record (c.feedback) { global_led_brightness = at_most 100 brightness };
    })
write_slot (set_player_leds mode) c =
    mark_dirty (record c { feedback = record (c.feedback) { player_leds = at_most 5 mode } })
write_slot (set_emulate enable) c = record c {
  settings = record (c.settings) { emulate_active = enable };
}
write_slot (set_uhid enable) c = write_uhid enable c
write_slot (set_debounce enable) c = record c {
  settings = record (c.settings) { debounce_enabled = enable };
}
write_slot (set_invert_ly enable) c = record c {
  settings = record (c.settings) { invert_ly = enable };
}
write_slot (set_invert_ry enable) c = record c {
  settings = record (c.settings) { invert_ry = enable };
}
write_slot (set_led_reapply enable) c = record c {
  settings = record (c.settings) { led_reapply = enable };
}
write_slot (set_rumble_active enable) c = write_rumble_active enable c
write_slot (set_sensitivity_preset_left preset) c = record c {
  settings = record (c.settings) { sensitivity_left_preset = preset };
}
write_slot (set_sensitivity_preset_right preset) c = record c {
  settings = record (c.settings) { sensitivity_right_preset = preset };
}
write_slot (set_keybind physical logical) c =
    mark_dirty (record c { keymap = set c.keymap physical logical })
write_slot reset_keybinds c =
    mark_dirty (record c { keymap = keys_get_default_map c.type c.keymap })
write_slot (set_triggers_digital enable) c = record c {
  settings = record (c.settings) { is_trigger_digital = enable };
}
write_slot m c = c

-- The one-shot requests that a method makes.
unfoldable pub write_requests : Method → BusSlot → BusSlot
write_requests reset_all_keybinds s = record s {
  requests = record (s.requests) { request_reset_all_keybinds = true };
}
write_requests apply_switch_layout s = request_switch s
write_requests apply_xbox_layout s = request_xbox s
write_requests (set_switch_layout_legacy enable) s =
    if enable then request_switch s else request_xbox s
write_requests m s = s

-- A reply of the bridge: an error of the kind "invalid arguments", or the empty answer.
pub data Reply : Type 0 where
  invalid_args done : Reply

-- open_shm_handle of dstx/src/dbus-utils.c: `maps` is that the daemon is alive and its memory can be
-- mapped and has its magic number; the slot must be connected.
unfoldable pub open_shm_handle : (maps : Bool) → ℕ → List BusSlot → Bool
open_shm_handle maps i slots =
    maps && not (leb max_slots i) && (get_or slots i empty_slot).slot.connected

-- A call. Where open_shm_handle does not give the shared memory, the handler returns.
unfoldable pub handle : Bool → ℕ → Method → List BusSlot → List BusSlot × List Reply
unfolding write_slot write_requests open_shm_handle
handle maps i m slots =
    let s = get_or slots i empty_slot in
    let written = write_requests m (record s { slot = write_slot m s.slot }) in
    if leb max_slots i
    then (slots, invalid_args ∷ [])
    else if not (is_valid m)
    then (slots, invalid_args ∷ [])
    else if not (open_shm_handle maps i slots)
    then (slots, [])
    else (set slots i written, done ∷ [])
