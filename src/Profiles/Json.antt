-- ===== src/Profiles/Json.antt =====
-- The file of a profile in dstx/src/settings.c: how save_profile_to_disk writes the configuration of
-- a slot into a tree of cJSON, and how load_profile_from_disk reads it back with its checks. cJSON,
-- which prints and parses the tree, is the parameter `CJson`.
pub mod Ranges
pub mod RoundTrip
use dstx.Common.{
  ℕ, zero, suc, ◌+◌, ◌≡◌, Bool, true, false, Option, none, some, List, [], ◌∷◌, map, ◌==◌, leb, ◌-◌,
  not, ◌||◌, of_bool, if◌then◌else◌,
}
use dstx.Common.Int.{ℤ, pos, ltb_ℤ, eqb_ℤ, u8_of_ℤ, pos_part}
use dstx.Controller.{phy_btn_count, logical_btn_count, type_ds4}
use dstx.Controller.Config.{SlotConfig}
use dstx.Keys.{keys_get_default_map}
use dstx.AxisSystem.{sens_preset_count}
use dstx.Ledfx.{ledfx_count}

-- The names of the entries of a slot, as numbers, in the order in which they are saved.
pub data Key : Type 0 where
  key : (number : ℕ) → Key

abbrev pub key_number : Key → ℕ
key_number (key n) = n

-- An item as the checks see it: a number with its `valueint`, an array, each item of which is a
-- number or none, or neither.
pub data Item : Type 0 where
  number : ℤ → Item
  array : List (Option ℤ) → Item
  other : Item

abbrev pub or_else : Option Item → Option Item → Option Item
or_else none o = o
or_else (some v) o = some v

-- cJSON_CreateObject, cJSON_AddItemToObject and cJSON_GetObjectItem, and what is documented of them: an
-- item is added at the end, and the first one with the name is found.
pub record CJson : Type 1 where
  pub Object : Type 0
  pub create : Object
  pub add : Object → Key → Item → Object
  pub get : Object → Key → Option Item
  pub get_create : (k : Key) → get create k ≡ none
  pub get_add :
      (o : Object) (k j : Key) (v : Item)
      → get (add o k v) j
        ≡ or_else (get o j) (if key_number k == key_number j then some v else none)

-- `true` and `false` in a number.
abbrev pub flag_item : Bool → Item
flag_item b = number (pos (of_bool b))

abbrev pub count_item : ℕ → Item
count_item n = number (pos n)

-- The entries of a slot, in the order of the code.
unfoldable pub entries : SlotConfig → List (Key × Item)
entries cfg =
    (key 0, count_item cfg.led_r)
    ∷ (key 1, count_item cfg.led_g)
    ∷ (key 2, count_item cfg.led_b)
    ∷ (key 3, count_item cfg.led_base_r)
    ∷ (key 4, count_item cfg.led_base_g)
    ∷ (key 5, count_item cfg.led_base_b)
    ∷ (key 6, count_item cfg.rumble_gain)
    ∷ (key 7, count_item cfg.deadzone)
    ∷ (key 8, count_item cfg.global_led_brightness)
    ∷ (key 9, count_item cfg.player_leds)
    ∷ (key 10, flag_item cfg.debounce_enabled)
    ∷ (key 11, flag_item cfg.emulate_active)
    ∷ (key 12, flag_item cfg.is_uhid)
    ∷ (key 13, flag_item cfg.led_reapply)
    ∷ (key 14, flag_item cfg.rumble_active)
    ∷ (key 15, flag_item cfg.invert_ly)
    ∷ (key 16, flag_item cfg.invert_ry)
    ∷ (key 17, count_item cfg.sensitivity_left_preset)
    ∷ (key 18, count_item cfg.sensitivity_right_preset)
    ∷ (key 19, count_item cfg.led_effect)
    ∷ (key 20, count_item cfg.led_effect_speed)
    ∷ (key 21, count_item cfg.led_effect_brightness)
    ∷ (key 22, flag_item cfg.treat_triggers_as_digital)
    ∷ (key 23, array (map (λ b. some (pos b)) cfg.keymap))
    ∷ []

-- Whether a value lies in the closed range.
abbrev pub in_range : ℤ → ℤ → ℤ → Bool
in_range low high v = not (ltb_ℤ v low || ltb_ℤ high v)

-- The entry of a keymap at index k: the number if it is a logical button, else the identity.
unfoldable pub load_button : ℕ → Option ℤ → ℕ
load_button k none = k + 1
load_button k (some v) =
    if in_range (pos 0) (pos (logical_btn_count - 1)) v then u8_of_ℤ v else k + 1

-- From index k on, `left` of them; the file may have fewer entries, or more.
unfoldable pub load_keymap : (left k : ℕ) → List (Option ℤ) → List ℕ
load_keymap zero k items = []
load_keymap (suc left) k [] = load_button k none ∷ load_keymap left (k + 1) []
load_keymap (suc left) k (item ∷ items) = load_button k item ∷ load_keymap left (k + 1) items

-- The value of the item that was found, if it passes the checks, and whether it does.
unfoldable pub item_in_range : Option Item → ℤ → ℤ → ℤ → ℤ × Bool
item_in_range (some (number v)) low high default_val =
    if in_range low high v then (v, true) else (default_val, false)
item_in_range item low high default_val = (default_val, false)

-- The keymap, over the one that the slot of the profile has.
unfoldable pub load_keymap_of : Option Item → List ℕ → List ℕ
load_keymap_of (some (array items)) old = load_keymap phy_btn_count 0 items
load_keymap_of o old = keys_get_default_map type_ds4 old

module _ (json : CJson) where
  open json use {Object, create, add, get}

  unfoldable pub add_all : List (Key × Item) → Object → Object
  add_all [] o = o
  add_all (e ∷ es) o = add_all es (add o e.0 e.1)

  -- The object that save_profile_to_disk makes of a slot.
  unfoldable pub save_slot : SlotConfig → Object
  save_slot cfg = add_all (entries cfg) create

  unfoldable pub safe_json_get_int_range : Object → Key → ℤ → ℤ → ℤ → ℤ × Bool
  unfolding item_in_range
  safe_json_get_int_range obj k low high default_val =
      item_in_range (get obj k) low high default_val

  unfoldable pub safe_json_get_bool : Object → Key → Bool → Bool
  unfolding safe_json_get_int_range
  safe_json_get_bool obj k default_val =
      not (
        eqb_ℤ (safe_json_get_int_range obj k (pos 0) (pos 1) (pos (of_bool default_val))).0 (pos 0))

  unfoldable pub safe_json_get_uint8 : Object → Key → ℕ → ℕ → ℕ → ℕ
  unfolding safe_json_get_int_range
  safe_json_get_uint8 obj k low high default_val =
      u8_of_ℤ (safe_json_get_int_range obj k (pos low) (pos high) (pos default_val)).0

  -- One round of the loop of load_profile_from_disk, over the slot that the profile has.
  unfoldable pub load_slot : Object → SlotConfig → SlotConfig
  unfolding safe_json_get_bool safe_json_get_uint8 load_keymap_of
  load_slot obj old = record {
    led_r = safe_json_get_uint8 obj (key 0) 0 255 0;
    led_g = safe_json_get_uint8 obj (key 1) 0 255 0;
    led_b = safe_json_get_uint8 obj (key 2) 0 255 255;
    led_base_r = safe_json_get_uint8 obj (key 3) 0 255 0;
    led_base_g = safe_json_get_uint8 obj (key 4) 0 255 0;
    led_base_b = safe_json_get_uint8 obj (key 5) 0 255 255;
    rumble_gain = safe_json_get_uint8 obj (key 6) 0 100 100;
    deadzone = safe_json_get_uint8 obj (key 7) 0 100 10;
    global_led_brightness = safe_json_get_uint8 obj (key 8) 0 100 80;
    player_leds = safe_json_get_uint8 obj (key 9) 0 5 0;
    debounce_enabled = safe_json_get_bool obj (key 10) true;
    emulate_active = safe_json_get_bool obj (key 11) true;
    is_uhid = safe_json_get_bool obj (key 12) false;
    led_reapply = safe_json_get_bool obj (key 13) true;
    rumble_active = safe_json_get_bool obj (key 14) true;
    invert_ly = safe_json_get_bool obj (key 15) false;
    invert_ry = safe_json_get_bool obj (key 16) false;
    sensitivity_left_preset = safe_json_get_uint8 obj (key 17) 0 (sens_preset_count - 1) 0;
    sensitivity_right_preset = safe_json_get_uint8 obj (key 18) 0 (sens_preset_count - 1) 0;
    led_effect = safe_json_get_uint8 obj (key 19) 0 (ledfx_count - 1) 0;
    led_effect_speed = safe_json_get_uint8 obj (key 20) 1 10 5;
    led_effect_brightness = safe_json_get_uint8 obj (key 21) 0 100 80;
    keymap = load_keymap_of (get obj (key 23)) old.keymap;
    treat_triggers_as_digital = safe_json_get_bool obj (key 22) false;
  }

  -- The loop over the slots: a file with fewer of them leaves the others as they are.
  unfoldable pub load_slots : List Object → List SlotConfig → List SlotConfig
  load_slots objects [] = []
  load_slots [] slots = slots
  load_slots (obj ∷ objects) (old ∷ slots) = load_slot obj old ∷ load_slots objects slots

  unfoldable pub save_slots : List SlotConfig → List Object
  unfolding save_slot
  save_slots slots = map save_slot slots
