-- ===== src/Profiles/Json/Ranges.antt =====
-- What a profile that was loaded can hold, whatever the file says.
use dstx.Common.{
  ℕ, zero, suc, ◌+◌, ◌-◌, ◌≤◌, ◌<◌, ◌≡◌, refl, ap, ◌∙◌, Bool, true, if_cases, Option, none, some,
  List, [], ◌∷◌, length, All, set, length-set, All-set, arith,
}
use dstx.Common.Int.{ℤ, pos, negsuc, u8_of_ℤ}
use dstx.Controller.{phy_btn_count, logical_btn_count}
use dstx.Controller.Config.{SlotConfig}
use dstx.Keys.{keys_get_default_map, default_map_loop}
use dstx.Profiles.Json.{
  Key, key, Item, number, array, other, CJson, in_range, item_in_range, load_button, load_keymap,
  load_keymap_of, safe_json_get_int_range, safe_json_get_uint8, load_slot,
}

value_in_range :
    (v : ℤ) (low high : ℕ)
    → in_range (pos low) (pos high) v ≡ true
    → high < 256
    → (low ≤ u8_of_ℤ v) × (u8_of_ℤ v ≤ high)
unfolding u8_of_ℤ
value_in_range (pos n) low high h lt = ground arith
value_in_range (negsuc n) low high h lt = ground arith

default_in_range :
    (d low high : ℕ)
    → low ≤ d
    → d ≤ high
    → high < 256
    → (low ≤ u8_of_ℤ (pos d)) × (u8_of_ℤ (pos d) ≤ high)
unfolding u8_of_ℤ
default_in_range d low high h k lt = (omega arith, omega arith)

-- A byte that was read lies in its range.
item_bounds :
    (item : Option Item) (low high d : ℕ)
    → low ≤ d
    → d ≤ high
    → high < 256
    → (low ≤ u8_of_ℤ (item_in_range item (pos low) (pos high) (pos d)).0)
      × (u8_of_ℤ (item_in_range item (pos low) (pos high) (pos d)).0 ≤ high)
unfolding item_in_range
item_bounds none low high d h k lt = default_in_range d low high h k lt
item_bounds (some other) low high d h k lt = default_in_range d low high h k lt
item_bounds (some (array items)) low high d h k lt = default_in_range d low high h k lt
item_bounds (some (number v)) low high d h k lt =
    if_cases (λ (r : ℤ × Bool). (low ≤ u8_of_ℤ r.0) × (u8_of_ℤ r.0 ≤ high))
      (in_range (pos low) (pos high) v) (λ e. value_in_range v low high e lt)
      (λ e. default_in_range d low high h k lt)

-- The codes of the logical buttons.
abbrev pub IsButton : ℕ → Type 0
IsButton b = b < logical_btn_count

load_button-IsButton : (k : ℕ) (item : Option ℤ) → k < phy_btn_count → IsButton (load_button k item)
unfolding load_button
load_button-IsButton k none lt = omega arith
load_button-IsButton k (some v) lt =
    if_cases IsButton (in_range (pos 0) (pos (logical_btn_count - 1)) v)
      (λ e. omega (arith, (value_in_range v 0 18 e (omega arith)).1)) (λ e. omega arith)

load_keymap-IsButton :
    (left k : ℕ) (items : List (Option ℤ))
    → k + left ≤ phy_btn_count
    → All IsButton (load_keymap left k items) × (length (load_keymap left k items) ≡ left)
unfolding load_keymap
load_keymap-IsButton zero k items h = (tt, refl)
load_keymap-IsButton (suc left) k [] h =
    let rest = load_keymap-IsButton left (k + 1) [] (omega arith) in
    ((load_button-IsButton k none (omega arith), rest.0), ap suc rest.1)
load_keymap-IsButton (suc left) k (item ∷ items) h =
    let rest = load_keymap-IsButton left (k + 1) items (omega arith) in
    ((load_button-IsButton k item (omega arith), rest.0), ap suc rest.1)

-- The keymaps that the program reads: 18 logical buttons.
pub record IsValidMap (m : List ℕ) : Type 0 where
  pub has_entries : length m ≡ phy_btn_count
  pub buttons : All IsButton m

pub default_map_loop-IsValidMap :
    (left i : ℕ) (m : List ℕ)
    → i + left ≤ phy_btn_count
    → IsValidMap m
    → IsValidMap (default_map_loop left i m)
unfolding default_map_loop
default_map_loop-IsValidMap zero i m h valid = valid
default_map_loop-IsValidMap (suc left) i m h valid =
    default_map_loop-IsValidMap left (i + 1) (set m i (i + 1)) (omega arith) (record {
      has_entries = length-set m i (i + 1) ∙ valid.has_entries;
      buttons = All-set IsButton m i (i + 1) valid.buttons (omega arith);
    })

keymap-IsValidMap :
    (item : Option Item) (old : List ℕ) → IsValidMap old → IsValidMap (load_keymap_of item old)
unfolding load_keymap_of keys_get_default_map
keymap-IsValidMap (some (array items)) old valid =
    let loaded = load_keymap-IsButton phy_btn_count 0 items (omega arith) in
    record { has_entries = loaded.1; buttons = loaded.0 }
keymap-IsValidMap none old valid = default_map_loop-IsValidMap 18 0 old (omega arith) valid
keymap-IsValidMap (some (number v)) old valid =
    default_map_loop-IsValidMap 18 0 old (omega arith) valid
keymap-IsValidMap (some other) old valid = default_map_loop-IsValidMap 18 0 old (omega arith) valid

-- The ranges of a configuration.
pub record InRange (cfg : SlotConfig) : Type 0 where
  pub led_r : cfg.led_r ≤ 255
  pub led_g : cfg.led_g ≤ 255
  pub led_b : cfg.led_b ≤ 255
  pub led_base_r : cfg.led_base_r ≤ 255
  pub led_base_g : cfg.led_base_g ≤ 255
  pub led_base_b : cfg.led_base_b ≤ 255
  pub rumble_gain : cfg.rumble_gain ≤ 100
  pub deadzone : cfg.deadzone ≤ 100
  pub global_led_brightness : cfg.global_led_brightness ≤ 100
  pub player_leds : cfg.player_leds ≤ 5
  pub sensitivity_left_preset : cfg.sensitivity_left_preset ≤ 7
  pub sensitivity_right_preset : cfg.sensitivity_right_preset ≤ 7
  pub led_effect : cfg.led_effect ≤ 8
  pub led_effect_speed : (1 ≤ cfg.led_effect_speed) × (cfg.led_effect_speed ≤ 10)
  pub led_effect_brightness : cfg.led_effect_brightness ≤ 100
  pub keymap : IsValidMap cfg.keymap

module _ (json : CJson) where
  open json use {Object, get}

  byte_bounds :
      (obj : Object) (k : Key) (low high d : ℕ)
      → low ≤ d
      → d ≤ high
      → high < 256
      → (low ≤ safe_json_get_uint8 json obj k low high d)
        × (safe_json_get_uint8 json obj k low high d ≤ high)
  unfolding safe_json_get_uint8 safe_json_get_int_range
  byte_bounds obj k low high d h h' lt = item_bounds (get obj k) low high d h h' lt

  -- Whatever a file holds (missing entries, entries of another kind, numbers out of range, a keymap
  -- that is too short, too long or no array), a slot that is loaded from it over one with a valid
  -- keymap has every value in its range and a keymap of 18 logical buttons.
  pub load_slot-InRange :
      (obj : Object) (old : SlotConfig) → IsValidMap old.keymap → InRange (load_slot json obj old)
  unfolding load_slot
  load_slot-InRange obj old valid = record {
    led_r = (byte_bounds obj (key 0) 0 255 0 (omega arith) (omega arith) (omega arith)).1;
    led_g = (byte_bounds obj (key 1) 0 255 0 (omega arith) (omega arith) (omega arith)).1;
    led_b = (byte_bounds obj (key 2) 0 255 255 (omega arith) (omega arith) (omega arith)).1;
    led_base_r = (byte_bounds obj (key 3) 0 255 0 (omega arith) (omega arith) (omega arith)).1;
    led_base_g = (byte_bounds obj (key 4) 0 255 0 (omega arith) (omega arith) (omega arith)).1;
    led_base_b = (byte_bounds obj (key 5) 0 255 255 (omega arith) (omega arith) (omega arith)).1;
    rumble_gain = (byte_bounds obj (key 6) 0 100 100 (omega arith) (omega arith) (omega arith)).1;
    deadzone = (byte_bounds obj (key 7) 0 100 10 (omega arith) (omega arith) (omega arith)).1;
    global_led_brightness =
        (byte_bounds obj (key 8) 0 100 80 (omega arith) (omega arith) (omega arith)).1;
    player_leds = (byte_bounds obj (key 9) 0 5 0 (omega arith) (omega arith) (omega arith)).1;
    sensitivity_left_preset =
        (byte_bounds obj (key 17) 0 7 0 (omega arith) (omega arith) (omega arith)).1;
    sensitivity_right_preset =
        (byte_bounds obj (key 18) 0 7 0 (omega arith) (omega arith) (omega arith)).1;
    led_effect = (byte_bounds obj (key 19) 0 8 0 (omega arith) (omega arith) (omega arith)).1;
    led_effect_speed = byte_bounds obj (key 20) 1 10 5 (omega arith) (omega arith) (omega arith);
    led_effect_brightness =
        (byte_bounds obj (key 21) 0 100 80 (omega arith) (omega arith) (omega arith)).1;
    keymap = keymap-IsValidMap (get obj (key 23)) old.keymap valid;
  }
