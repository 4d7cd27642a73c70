-- ===== src/Bus/Written.antt =====
-- What the methods of the bridge leave of the ranges of a slot, and of its profile.
use dstx.Common.{
  ℕ, zero, suc, length, ◌%◌, ◌≤◌, ◌<◌, ◌≡◌, refl, sym, ap, subst, ◌∙◌, Bool, true, false, if_cases,
  List, [], ◌∷◌, ltb, leb, ltb→lt, not, ◌&&◌, get_or, set, length-set, All, All-set, arith,
}
use dstx.Common.Int.{pos, u8_of_ℤ}
use dstx.Controller.{Controller, ControllerType, phy_btn_count, logical_btn_count}
use dstx.Controller.Config.{SlotConfig, controller_to_slot_config, slot_config_to_controller}
use dstx.Debounce.{max_slots}
use dstx.Keys.{keys_get_default_map}
use dstx.Worker.Requests.{mark_dirty}
use dstx.Profiles.Json.{CJson, save_slot, load_slot}
use dstx.Profiles.Json.Ranges.{IsButton, IsValidMap, InRange, default_map_loop-IsValidMap}
use dstx.Profiles.Json.RoundTrip.{load_slot-save_slot}
use dstx.Bus.{
  Method, set_led, set_effect, set_gain, set_deadzone, set_global_brightness, set_player_leds,
  set_emulate, set_uhid, set_debounce, set_invert_ly, set_invert_ry, set_led_reapply,
  set_rumble_active, set_sensitivity_preset_left, set_sensitivity_preset_right, set_keybind,
  reset_keybinds, reset_all_keybinds, set_triggers_digital, apply_switch_layout, apply_xbox_layout,
  set_switch_layout_legacy, BusSlot, empty_slot, is_valid, write_led, write_effect, write_uhid,
  write_rumble_active, write_slot, write_requests, Reply, open_shm_handle, handle,
}

-- The arguments are bytes, and those of an effect, which the handler does not check, are in range.
abbrev pub HasRange : Method → Type 0
HasRange (set_led r g b) = (r ≤ 255) × (g ≤ 255) × (b ≤ 255)
HasRange (set_effect effect speed brightness) =
    (effect ≤ 8) × (1 ≤ speed) × (speed ≤ 10) × (brightness ≤ 100)
HasRange m = Unit

-- The configuration that is saved for a slot is in range.
unfoldable pub IsSavable : Controller → Type 0
IsSavable c = InRange (controller_to_slot_config c)

and_right : (a b : Bool) → a && b ≡ true → b ≡ true
and_right true b h = h
and_right false b h = cc

pub default_map-IsValidMap :
    (type : ControllerType) (m : List ℕ) → IsValidMap m → IsValidMap (keys_get_default_map type m)
unfolding keys_get_default_map
default_map-IsValidMap type m h = default_map_loop-IsValidMap 18 0 m (omega arith) h

-- A keymap that was written, with the flag that follows.
pub with_keymap-IsSavable :
    (c : Controller) (m : List ℕ)
    → IsSavable c
    → IsValidMap m
    → IsSavable (mark_dirty (record c { keymap = m }))
unfolding IsSavable controller_to_slot_config
with_keymap-IsSavable c m h valid = record {
  led_r = h.led_r;
  led_g = h.led_g;
  led_b = h.led_b;
  led_base_r = h.led_base_r;
  led_base_g = h.led_base_g;
  led_base_b = h.led_base_b;
  rumble_gain = h.rumble_gain;
  deadzone = h.deadzone;
  global_led_brightness = h.global_led_brightness;
  player_leds = h.player_leds;
  sensitivity_left_preset = h.sensitivity_left_preset;
  sensitivity_right_preset = h.sensitivity_right_preset;
  led_effect = h.led_effect;
  led_effect_speed = h.led_effect_speed;
  led_effect_brightness = h.led_effect_brightness;
  keymap = valid;
}

write_slot-IsSavable :
    (m : Method) (c : Controller)
    → HasRange m
    → is_valid m ≡ true
    → IsSavable c
    → IsSavable (write_slot m c)
unfolding IsSavable write_slot write_led write_effect write_uhid write_rumble_active is_valid
    controller_to_slot_config u8_of_ℤ
write_slot-IsSavable (set_led r g b) c args ok h = ground arith
write_slot-IsSavable (set_effect effect speed brightness) c args ok h = ground arith
write_slot-IsSavable (set_gain gain) c args ok h = ground arith
write_slot-IsSavable (set_deadzone deadzone) c args ok h = ground arith
write_slot-IsSavable (set_global_brightness brightness) c args ok h = ground arith
write_slot-IsSavable (set_player_leds mode) c args ok h = ground arith
write_slot-IsSavable (set_emulate enable) c args ok h = ground arith
write_slot-IsSavable (set_uhid enable) c args ok h = ground arith
write_slot-IsSavable (set_debounce enable) c args ok h = ground arith
write_slot-IsSavable (set_invert_ly enable) c args ok h = ground arith
write_slot-IsSavable (set_invert_ry enable) c args ok h = ground arith
write_slot-IsSavable (set_led_reapply enable) c args ok h = ground arith
write_slot-IsSavable (set_rumble_active true) c args ok h = ground arith
write_slot-IsSavable (set_rumble_active false) c args ok h = ground arith
write_slot-IsSavable (set_sensitivity_preset_left preset) c args ok h = ground arith
write_slot-IsSavable (set_sensitivity_preset_right preset) c args ok h = ground arith
write_slot-IsSavable (set_keybind physical logical) c args ok h =
    with_keymap-IsSavable c (set c.keymap physical logical) h (record {
      has_entries = length-set c.keymap physical logical ∙ h.keymap.has_entries;
      buttons =
          All-set IsButton c.keymap physical logical h.keymap.buttons
            (ltb→lt logical logical_btn_count (and_right (ltb physical phy_btn_count) _ ok));
    })
write_slot-IsSavable reset_keybinds c args ok h =
    with_keymap-IsSavable c (keys_get_default_map c.type c.keymap) h
      (default_map-IsValidMap c.type c.keymap h.keymap)
write_slot-IsSavable reset_all_keybinds c args ok h = h
write_slot-IsSavable (set_triggers_digital enable) c args ok h = ground arith
write_slot-IsSavable apply_switch_layout c args ok h = h
write_slot-IsSavable apply_xbox_layout c args ok h = h
write_slot-IsSavable (set_switch_layout_legacy enable) c args ok h = h

not-false : (b : Bool) → not b ≡ false → b ≡ true
not-false true h = refl
not-false false h = cc

not_leb : (i : ℕ) → leb max_slots i ≡ false → i < max_slots
not_leb i h = ground arith

below_256 : (n : ℕ) → n < 256 → n % 256 ≡ n
below_256 n h = omega arith

write_requests-slot : (m : Method) (s : BusSlot) → (write_requests m s).slot ≡ s.slot
unfolding write_requests
write_requests-slot reset_all_keybinds s = refl
write_requests-slot apply_switch_layout s = refl
write_requests-slot apply_xbox_layout s = refl
write_requests-slot (set_switch_layout_legacy true) s = refl
write_requests-slot (set_switch_layout_legacy false) s = refl
write_requests-slot (set_led r g b) s = refl
write_requests-slot (set_effect effect speed brightness) s = refl
write_requests-slot (set_gain gain) s = refl
write_requests-slot (set_deadzone deadzone) s = refl
write_requests-slot (set_global_brightness brightness) s = refl
write_requests-slot (set_player_leds mode) s = refl
write_requests-slot (set_emulate enable) s = refl
write_requests-slot (set_uhid enable) s = refl
write_requests-slot (set_debounce enable) s = refl
write_requests-slot (set_invert_ly enable) s = refl
write_requests-slot (set_invert_ry enable) s = refl
write_requests-slot (set_led_reapply enable) s = refl
write_requests-slot (set_rumble_active enable) s = refl
write_requests-slot (set_sensitivity_preset_left preset) s = refl
write_requests-slot (set_sensitivity_preset_right preset) s = refl
write_requests-slot (set_keybind physical logical) s = refl
write_requests-slot reset_keybinds s = refl
write_requests-slot (set_triggers_digital enable) s = refl

abbrev pub IsSavableSlot : BusSlot → Type 0
IsSavableSlot s = IsSavable s.slot

pub element :
    (slots : List BusSlot) (i : ℕ)
    → i < length slots
    → All IsSavableSlot slots
    → IsSavable (get_or slots i empty_slot).slot
element [] i lt all = elim lt [ ]
element (s ∷ slots) zero lt all = all.0
element (s ∷ slots) (suc i) lt all = element slots i (omega arith) all.1

-- A call of a method.
pub record Call : Type 0 where
  pub opens : Bool
  pub slot_number : ℕ
  pub method : Method

unfoldable pub handle_all : List Call → List BusSlot → List BusSlot
handle_all [] slots = slots
handle_all (c ∷ calls) slots = handle_all calls (handle c.opens c.slot_number c.method slots).0

-- The four slots, each with a configuration in range.
abbrev pub AreSavable : List BusSlot → Type 0
AreSavable slots = (length slots ≡ max_slots) × All IsSavableSlot slots

pub handle-AreSavable :
    (opens : Bool) (i : ℕ) (m : Method) (slots : List BusSlot)
    → HasRange m
    → AreSavable slots
    → AreSavable (handle opens i m slots).0
unfolding handle IsSavable
handle-AreSavable opens i m slots args h =
    let P : List BusSlot × List Reply → Type 0 = λ r. AreSavable r.0 in
    let s = get_or slots i empty_slot in
    if_cases P (leb max_slots i) (λ e. h)
      (λ inside.
        if_cases P (not (is_valid m)) (λ e. h)
          (λ valid.
            if_cases P (not (open_shm_handle opens i slots)) (λ e. h)
              (λ open_now. (
                length-set slots i _ ∙ h.0,
                All-set IsSavableSlot slots i _ h.1 (
                    subst IsSavable
                      (sym (write_requests-slot m (record s { slot = write_slot m s.slot })))
                      (write_slot-IsSavable m s.slot args (not-false (is_valid m) valid)
                        (element slots i (omega (arith, h.0, not_leb i inside)) h.1))),
              ))))

-- Any sequence of calls of the bridge's methods, whatever slots they name, keeps every slot's
-- configuration in range, if the effects that are asked for are; so that each configuration, saved
-- into a profile and loaded over any slot, comes back whole.
pub handle_all-saved :
    (json : CJson) (calls : List Call) (slots : List BusSlot) (old : SlotConfig) (i : ℕ)
    → All (λ (c : Call). HasRange c.method) calls
    → AreSavable slots
    → i < max_slots
    → let config = controller_to_slot_config (get_or (handle_all calls slots) i empty_slot).slot in
      load_slot json (save_slot json config) old ≡ config
unfolding handle_all IsSavable
handle_all-saved json [] slots old i args h lt =
    load_slot-save_slot json (controller_to_slot_config (get_or slots i empty_slot).slot) old
      (element slots i (omega (arith, h.0)) h.1)
handle_all-saved json (c ∷ calls) slots old i args h lt =
    handle_all-saved json calls (handle c.opens c.slot_number c.method slots).0 old i args.1
      (handle-AreSavable c.opens c.slot_number c.method slots args.0 h) lt

-- A static colour is not what a profile remembers: if a slot's last effect is not the static one,
-- then after a call that sets a colour the slot is in static mode, but its configuration, saved and
-- restored, puts it into the mode of that effect again.
pub write_led-forgotten :
    (c : Controller) (r g b n : ℕ)
    → c.led_request.led_request_effect ≡ pos (suc n)
    → suc n < 256
    → let coloured = write_led r g b c in
      let restored = slot_config_to_controller (controller_to_slot_config coloured) coloured in
      (coloured.led_request.led_static ≡ true)
      × (restored.led_request.led_static ≡ false)
      × (restored.led_request.led_request_effect ≡ pos (suc n))
unfolding write_led controller_to_slot_config slot_config_to_controller u8_of_ℤ
write_led-forgotten c r g b n effect small =
    let kept : u8_of_ℤ c.led_request.led_request_effect ≡ suc n =
      ap u8_of_ℤ effect ∙ below_256 (suc n) small in
    rw kept (refl, ground arith, refl)
