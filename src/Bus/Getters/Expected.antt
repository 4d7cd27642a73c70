-- ===== src/Bus/Getters/Expected.antt =====
-- What a client expects of the getters after a call of dstx/src/dbus-handlers.c: the position in the
-- answer of each number that a method sets, and the number, read off the interface and not off the
-- fields of the slot.
use dstx.Common.{
  ℕ, zero, suc, ◌+◌, ◌≡◌, refl, ap, Bool-cases, inl, inr, Bool, true, false, List, [], ◌∷◌, leb,
  set, get_or, map, of_bool, arith, if◌then◌else◌,
}
use dstx.Common.Int.{ℤ, pos, eqb_ℤ}
use dstx.Controller.{Controller}
use dstx.Monitor.{pack_buttons}
use dstx.Keys.{keys_get_default_map}
use dstx.Profiles.{same_bool}
use dstx.Bus.{
  Method, set_led, set_effect, set_gain, set_deadzone, set_global_brightness, set_player_leds,
  set_emulate, set_uhid, set_debounce, set_invert_ly, set_invert_ry, set_led_reapply,
  set_rumble_active, set_sensitivity_preset_left, set_sensitivity_preset_right, set_keybind,
  reset_keybinds, reset_all_keybinds, set_triggers_digital, apply_switch_layout, apply_xbox_layout,
  set_switch_layout_legacy, write_led, write_effect, write_uhid, write_rumble_active, write_slot,
}
use dstx.Bus.Getters.{
  Getter, get_controller_info, get_telemetry, get_invert_status, get_sensitivity_preset, get_keymap,
  get_triggers_digital, info_settings, axes_of, info_buttons, dpad_of, shown_effect, read_slot,
}

capped : ℕ → ℕ → ℤ
capped limit n = pos (if leb n limit then n else limit)

-- The first three numbers from a position on.
set_three : ℕ → ℕ → ℕ → ℕ → List ℤ → List ℤ
set_three i r g b l = set (set (set l i (pos r)) (i + 1) (pos g)) (i + 2) (pos b)

-- The answer of GetControllerInfo after a call, from the one before.
unfoldable pub info_after : Method → List ℤ → List ℤ
unfolding capped set_three
info_after (set_led r g b) l = set (set_three 5 r g b (set_three 2 r g b l)) 23 (pos 1)
info_after (set_effect effect speed brightness) l =
    set (set (set l 23 (pos 0)) 24 (pos (if leb effect 8 then effect else 0))) 25
      (pos (if leb 1 speed then speed else 5))
info_after (set_gain gain) l = set l 9 (capped 100 gain)
info_after (set_deadzone deadzone) l = set l 10 (capped 100 deadzone)
info_after (set_global_brightness brightness) l = set l 11 (capped 100 brightness)
info_after (set_player_leds mode) l = set l 12 (capped 5 mode)
info_after (set_emulate enable) l = set l 13 (pos (of_bool enable))
info_after (set_uhid enable) l =
    if eqb_ℤ (get_or l 14 (pos 0)) (pos (of_bool enable))
    then l
    else set (set l 14 (pos (of_bool enable))) 13 (pos 1)
info_after (set_triggers_digital enable) l = set l 15 (pos (of_bool enable))
info_after (set_debounce enable) l = set l 16 (pos (of_bool enable))
info_after (set_led_reapply enable) l = set l 17 (pos (of_bool enable))
info_after (set_rumble_active enable) l = set l 18 (pos (of_bool enable))
info_after (set_invert_ly enable) l = set l 19 (pos (of_bool enable))
info_after (set_invert_ry enable) l = set l 20 (pos (of_bool enable))
info_after (set_sensitivity_preset_left preset) l = set l 21 (pos preset)
info_after (set_sensitivity_preset_right preset) l = set l 22 (pos preset)
info_after m l = l

-- The two coordinates that can be inverted.
unfoldable pub invert_after : Method → List ℤ → List ℤ
invert_after (set_invert_ly enable) l = set l 0 (pos (of_bool enable))
invert_after (set_invert_ry enable) l = set l 1 (pos (of_bool enable))
invert_after m l = l

-- The left and the right stick.
unfoldable pub sensitivity_after : Method → List ℤ → List ℤ
sensitivity_after (set_sensitivity_preset_left preset) l = set l 0 (pos preset)
sensitivity_after (set_sensitivity_preset_right preset) l = set l 1 (pos preset)
sensitivity_after m l = l

unfoldable pub triggers_after : Method → List ℤ → List ℤ
triggers_after (set_triggers_digital enable) l = pos (of_bool enable) ∷ []
triggers_after m l = l

-- The keymap, which the reset takes from keys_get_default_map.
unfoldable pub keymap_after : Method → Controller → List ℤ → List ℤ
keymap_after (set_keybind physical logical) c l = set l physical (pos logical)
keymap_after reset_keybinds c l = map (λ n. pos n) (keys_get_default_map c.type c.keymap)
keymap_after m c l = l

-- The answer of a getter after a call, from the slot and the answer before. No method changes what the
-- telemetry shows.
unfoldable pub expected : Method → Controller → Getter → List ℤ → List ℤ
expected m c get_controller_info l = info_after m l
expected m c get_telemetry l = l
expected m c get_invert_status l = invert_after m l
expected m c get_sensitivity_preset l = sensitivity_after m l
expected m c get_keymap l = keymap_after m c l
expected m c get_triggers_digital l = triggers_after m l

same_flag : (a b : Bool) → eqb_ℤ (pos (of_bool a)) (pos (of_bool b)) ≡ same_bool a b
unfolding same_bool
same_flag true true = refl
same_flag true false = refl
same_flag false true = refl
same_flag false false = refl

map-set :
    (xs : List ℕ) (i v : ℕ) → map (λ n. pos n) (set xs i v) ≡ set (map (λ n. pos n) xs) i (pos v)
map-set [] i v = refl
map-set (x ∷ xs) zero v = refl
map-set (x ∷ xs) (suc i) v = ap (λ l. pos x ∷ l) (map-set xs i v)

info_written :
    (m : Method) (c : Controller)
    → read_slot get_controller_info (write_slot m c)
      ≡ info_after m (read_slot get_controller_info c)
unfolding read_slot info_settings axes_of info_buttons dpad_of shown_effect write_slot write_led
    write_effect write_uhid write_rumble_active info_after capped set_three same_bool
info_written (set_led r g b) c = refl
info_written (set_effect effect speed brightness) c = ground arith
info_written (set_gain gain) c = ground arith
info_written (set_deadzone deadzone) c = ground arith
info_written (set_global_brightness brightness) c = ground arith
info_written (set_player_leds mode) c = ground arith
info_written (set_emulate enable) c = refl
info_written (set_uhid enable) c =
    rw (same_flag c.settings.is_uhid enable)
      (elim (Bool-cases (same_bool c.settings.is_uhid enable)) [
        | inl e ↦ rw e refl
        | inr e ↦ rw e refl
      ])
info_written (set_debounce enable) c = refl
info_written (set_invert_ly enable) c = refl
info_written (set_invert_ry enable) c = refl
info_written (set_led_reapply enable) c = refl
info_written (set_rumble_active true) c = elim (Bool-cases c.settings.rumble_active) [
  | inl e ↦ rw e refl
  | inr e ↦ rw e refl
]
info_written (set_rumble_active false) c = elim (Bool-cases c.settings.rumble_active) [
  | inl e ↦ rw e refl
  | inr e ↦ rw e refl
]
info_written (set_sensitivity_preset_left preset) c = refl
info_written (set_sensitivity_preset_right preset) c = refl
info_written (set_keybind physical logical) c = refl
info_written reset_keybinds c = refl
info_written reset_all_keybinds c = refl
info_written (set_triggers_digital enable) c = refl
info_written apply_switch_layout c = refl
info_written apply_xbox_layout c = refl
info_written (set_switch_layout_legacy enable) c = refl

telemetry_written :
    (m : Method) (c : Controller)
    → read_slot get_telemetry (write_slot m c) ≡ read_slot get_telemetry c
unfolding read_slot info_settings axes_of info_buttons dpad_of shown_effect write_slot write_led
    write_effect write_uhid write_rumble_active pack_buttons
telemetry_written (set_led r g b) c = refl
telemetry_written (set_effect effect speed brightness) c = refl
telemetry_written (set_gain gain) c = refl
telemetry_written (set_deadzone deadzone) c = refl
telemetry_written (set_global_brightness brightness) c = refl
telemetry_written (set_player_leds mode) c = refl
telemetry_written (set_emulate enable) c = refl
telemetry_written (set_uhid enable) c = ground arith
telemetry_written (set_debounce enable) c = refl
telemetry_written (set_invert_ly enable) c = refl
telemetry_written (set_invert_ry enable) c = refl
telemetry_written (set_led_reapply enable) c = refl
telemetry_written (set_rumble_active enable) c = ground arith
telemetry_written (set_sensitivity_preset_left preset) c = refl
telemetry_written (set_sensitivity_preset_right preset) c = refl
telemetry_written (set_keybind physical logical) c = refl
telemetry_written reset_keybinds c = refl
telemetry_written reset_all_keybinds c = refl
telemetry_written (set_triggers_digital enable) c = refl
telemetry_written apply_switch_layout c = refl
telemetry_written apply_xbox_layout c = refl
telemetry_written (set_switch_layout_legacy enable) c = refl

invert_written :
    (m : Method) (c : Controller)
    → read_slot get_invert_status (write_slot m c) ≡ invert_after m (read_slot get_invert_status c)
unfolding read_slot info_settings axes_of info_buttons dpad_of shown_effect write_slot write_led
    write_effect write_uhid write_rumble_active invert_after
invert_written (set_led r g b) c = refl
invert_written (set_effect effect speed brightness) c = refl
invert_written (set_gain gain) c = refl
invert_written (set_deadzone deadzone) c = refl
invert_written (set_global_brightness brightness) c = refl
invert_written (set_player_leds mode) c = refl
invert_written (set_emulate enable) c = refl
invert_written (set_uhid enable) c = ground arith
invert_written (set_debounce enable) c = refl
invert_written (set_invert_ly enable) c = refl
invert_written (set_invert_ry enable) c = refl
invert_written (set_led_reapply enable) c = refl
invert_written (set_rumble_active enable) c = ground arith
invert_written (set_sensitivity_preset_left preset) c = refl
invert_written (set_sensitivity_preset_right preset) c = refl
invert_written (set_keybind physical logical) c = refl
invert_written reset_keybinds c = refl
invert_written reset_all_keybinds c = refl
invert_written (set_triggers_digital enable) c = refl
invert_written apply_switch_layout c = refl
invert_written apply_xbox_layout c = refl
invert_written (set_switch_layout_legacy enable) c = refl

sensitivity_written :
    (m : Method) (c : Controller)
    → read_slot get_sensitivity_preset (write_slot m c)
      ≡ sensitivity_after m (read_slot get_sensitivity_preset c)
unfolding read_slot info_settings axes_of info_buttons dpad_of shown_effect write_slot write_led
    write_effect write_uhid write_rumble_active sensitivity_after
sensitivity_written (set_led r g b) c = refl
sensitivity_written (set_effect effect speed brightness) c = refl
sensitivity_written (set_gain gain) c = refl
sensitivity_written (set_deadzone deadzone) c = refl
sensitivity_written (set_global_brightness brightness) c = refl
sensitivity_written (set_player_leds mode) c = refl
sensitivity_written (set_emulate enable) c = refl
sensitivity_written (set_uhid enable) c = ground arith
sensitivity_written (set_debounce enable) c = refl
sensitivity_written (set_invert_ly enable) c = refl
sensitivity_written (set_invert_ry enable) c = refl
sensitivity_written (set_led_reapply enable) c = refl
sensitivity_written (set_rumble_active enable) c = ground arith
sensitivity_written (set_sensitivity_preset_left preset) c = refl
sensitivity_written (set_sensitivity_preset_right preset) c = refl
sensitivity_written (set_keybind physical logical) c = refl
sensitivity_written reset_keybinds c = refl
sensitivity_written reset_all_keybinds c = refl
sensitivity_written (set_triggers_digital enable) c = refl
sensitivity_written apply_switch_layout c = refl
sensitivity_written apply_xbox_layout c = refl
sensitivity_written (set_switch_layout_legacy enable) c = refl

triggers_written :
    (m : Method) (c : Controller)
    → read_slot get_triggers_digital (write_slot m c)
      ≡ triggers_after m (read_slot get_triggers_digital c)
unfolding read_slot info_settings axes_of info_buttons dpad_of shown_effect write_slot write_led
    write_effect write_uhid write_rumble_active triggers_after
triggers_written (set_led r g b) c = refl
triggers_written (set_effect effect speed brightness) c = refl
triggers_written (set_gain gain) c = refl
triggers_written (set_deadzone deadzone) c = refl
triggers_written (set_global_brightness brightness) c = refl
triggers_written (set_player_leds mode) c = refl
triggers_written (set_emulate enable) c = refl
triggers_written (set_uhid enable) c = ground arith
triggers_written (set_debounce enable) c = refl
triggers_written (set_invert_ly enable) c = refl
triggers_written (set_invert_ry enable) c = refl
triggers_written (set_led_reapply enable) c = refl
triggers_written (set_rumble_active enable) c = ground arith
triggers_written (set_sensitivity_preset_left preset) c = refl
triggers_written (set_sensitivity_preset_right preset) c = refl
triggers_written (set_keybind physical logical) c = refl
triggers_written reset_keybinds c = refl
triggers_written reset_all_keybinds c = refl
triggers_written (set_triggers_digital enable) c = refl
triggers_written apply_switch_layout c = refl
triggers_written apply_xbox_layout c = refl
triggers_written (set_switch_layout_legacy enable) c = refl

keymap_written :
    (m : Method) (c : Controller)
    → read_slot get_keymap (write_slot m c) ≡ keymap_after m c (read_slot get_keymap c)
unfolding read_slot info_settings axes_of info_buttons dpad_of shown_effect write_slot write_led
    write_effect write_uhid write_rumble_active keymap_after
keymap_written (set_led r g b) c = refl
keymap_written (set_effect effect speed brightness) c = refl
keymap_written (set_gain gain) c = refl
keymap_written (set_deadzone deadzone) c = refl
keymap_written (set_global_brightness brightness) c = refl
keymap_written (set_player_leds mode) c = refl
keymap_written (set_emulate enable) c = refl
keymap_written (set_uhid enable) c = ground arith
keymap_written (set_debounce enable) c = refl
keymap_written (set_invert_ly enable) c = refl
keymap_written (set_invert_ry enable) c = refl
keymap_written (set_led_reapply enable) c = refl
keymap_written (set_rumble_active enable) c = ground arith
keymap_written (set_sensitivity_preset_left preset) c = refl
keymap_written (set_sensitivity_preset_right preset) c = refl
keymap_written (set_keybind physical logical) c = map-set c.keymap physical logical
keymap_written reset_keybinds c = refl
keymap_written reset_all_keybinds c = refl
keymap_written (set_triggers_digital enable) c = refl
keymap_written apply_switch_layout c = refl
keymap_written apply_xbox_layout c = refl
keymap_written (set_switch_layout_legacy enable) c = refl

-- Every getter reads of a slot that a method wrote what is expected.
pub read_slot-write_slot :
    (m : Method) (c : Controller) (g : Getter)
    → read_slot g (write_slot m c) ≡ expected m c g (read_slot g c)
unfolding expected
read_slot-write_slot m c get_controller_info = info_written m c
read_slot-write_slot m c get_telemetry = telemetry_written m c
read_slot-write_slot m c get_invert_status = invert_written m c
read_slot-write_slot m c get_sensitivity_preset = sensitivity_written m c
read_slot-write_slot m c get_keymap = keymap_written m c
read_slot-write_slot m c get_triggers_digital = triggers_written m c
