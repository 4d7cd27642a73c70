-- ===== src/Examples/Bus.antt =====
-- Profiles in files, and calls of the bridge.
use dstx.Common.{
  suc, ◌≡◌, refl, sym, subst, true, false, Option, none, some, List, [], ◌∷◌, ◌++◌, ◌==◌, arith,
  get_or, if◌then◌else◌,
}
use dstx.Common.Int.{pos, negsuc}
use dstx.Controller.{Controller}
use dstx.Controller.Config.{
  SlotConfig, controller_to_slot_config, slot_config_to_controller, config_roundtrip,
}
use dstx.Profiles.Json.{
  CJson, Key, key, key_number, Item, number, array, or_else, save_slot, load_slot, save_slots,
  load_slots,
}
use dstx.Profiles.Json.Ranges.{InRange, load_slot-InRange}
use dstx.Profiles.Json.RoundTrip.{load_slots-save_slots}
use dstx.Bus.{set_gain, BusSlot, empty_slot, write_led}
use dstx.Bus.Written.{Call, IsSavable, AreSavable}
use dstx.Text.{codes, starts_with}
use dstx.Console.Kept.{IsTame}
use dstx.Startup.{start_slots}
use dstx.Clients.{Client, bus, cli, interface, serve_all, serve_all-saved}
use dstx.Examples.Data.{fresh}
use dstx.Examples.Commands.{some_libc}

-- Objects as lists of entries, the first of which is found.
abbrev find : List (Key × Item) → Key → Option Item
find [] k = none
find (e ∷ es) k = or_else (if key_number e.0 == key_number k then some e.1 else none) (find es k)

or_else_assoc : (a b c : Option Item) → or_else a (or_else b c) ≡ or_else (or_else a b) c
or_else_assoc none b c = refl
or_else_assoc (some v) b c = refl

or_else-none : (a : Option Item) → or_else a none ≡ a
or_else-none none = refl
or_else-none (some v) = refl

find_added :
    (es : List (Key × Item)) (k j : Key) (v : Item)
    → find (es ++ ((k, v) ∷ [])) j
      ≡ or_else (find es j) (if key_number k == key_number j then some v else none)
find_added [] k j v = or_else-none (if key_number k == key_number j then some v else none)
find_added (e ∷ es) k j v = rw (find_added es k j v) (
    or_else_assoc (if key_number e.0 == key_number j then some e.1 else none) (find es j)
      (if key_number k == key_number j then some v else none))

abbrev list_json : CJson
list_json = record {
  Object = List (Key × Item);
  create = [];
  add = λ o k v. o ++ ((k, v) ∷ []);
  get = find;
  get_create = λ k. refl;
  get_add = find_added;
}

abbrev config : SlotConfig
config = record {
  led_r = 1;
  led_g = 2;
  led_b = 3;
  led_base_r = 1;
  led_base_g = 2;
  led_base_b = 3;
  rumble_gain = 50;
  deadzone = 10;
  global_led_brightness = 80;
  player_leds = 1;
  debounce_enabled = true;
  emulate_active = true;
  is_uhid = false;
  led_reapply = true;
  rumble_active = true;
  invert_ly = false;
  invert_ry = false;
  sensitivity_left_preset = 0;
  sensitivity_right_preset = 7;
  led_effect = 8;
  led_effect_speed = 5;
  led_effect_brightness = 80;
  keymap = 1 ∷ 2 ∷ 3 ∷ 4 ∷ 5 ∷ 6 ∷ 7 ∷ 8 ∷ 9 ∷ 10 ∷ 11 ∷ 12 ∷ 13 ∷ 14 ∷ 15 ∷ 16 ∷ 17 ∷ 18 ∷ [];
  treat_triggers_as_digital = false;
}

config-InRange : InRange config
config-InRange = ground arith

load_slots-save_slots_example :
    load_slots list_json (save_slots list_json (config ∷ [])) (config ∷ []) ≡ config ∷ []
load_slots-save_slots_example =
    load_slots-save_slots list_json (config ∷ []) (config ∷ []) (config-InRange, tt) refl

-- A file with a deadzone of 200 and a keymap of one entry that is no button.
abbrev odd_object : List (Key × Item)
odd_object = (key 7, number (pos 200)) ∷ (key 23, array (some (negsuc 4) ∷ [])) ∷ []

load_slot-InRange_example : InRange (load_slot list_json odd_object config)
load_slot-InRange_example = load_slot-InRange list_json odd_object config config-InRange.keymap

-- The same as a slot of the bridge.
abbrev bus_slot : BusSlot
bus_slot = record {
  slot = slot_config_to_controller config fresh;
  requests = record {
    request_switch_layout = false;
    request_xbox_layout = false;
    request_reset_all_keybinds = false;
  };
}

abbrev four_slots : List BusSlot
four_slots = bus_slot ∷ bus_slot ∷ bus_slot ∷ bus_slot ∷ []

bus_slot-IsSavable : IsSavable bus_slot.slot
unfolding IsSavable
bus_slot-IsSavable =
    subst InRange (sym (config_roundtrip config fresh (omega arith))) config-InRange

four_slots-AreSavable : AreSavable four_slots
four_slots-AreSavable = (
  refl,
  (bus_slot-IsSavable, (bus_slot-IsSavable, (bus_slot-IsSavable, (bus_slot-IsSavable, tt)))),
)

abbrev one_call : Call
one_call = record { opens = true; slot_number = 1; method = set_gain 170 }

-- A call of the bridge, `dstx 1 --ledfx 3 7 60`, and a line for the third slot.
abbrev three_clients : List Client
three_clients =
    bus one_call
    ∷ cli true true (codes "1") (codes "--ledfx" ∷ codes "3" ∷ codes "7" ∷ codes "60" ∷ [])
    ∷ interface (some 2) (codes "gain 40")
    ∷ []

abbrev second_config : SlotConfig
second_config =
    controller_to_slot_config
      (get_or (serve_all some_libc three_clients (start_slots false four_slots)) 1 empty_slot).slot

no_effect : IsTame some_libc (codes "gain 40")
unfolding starts_with
no_effect h = cc

serve_all-saved_example :
    load_slot list_json (save_slot list_json second_config) config ≡ second_config
serve_all-saved_example =
    serve_all-saved list_json some_libc false three_clients four_slots config 1
      (λ e. four_slots-AreSavable) (tt, (tt, ((omega arith, no_effect), tt))) (omega arith)

-- A red slot after the last effect.
abbrev red : Controller
red = write_led 255 0 0 bus_slot.slot

effect_eight : bus_slot.slot.led_request.led_request_effect ≡ pos (suc 7)
unfolding slot_config_to_controller
effect_eight = refl
