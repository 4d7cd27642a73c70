-- ===== src/Profiles/Json/RoundTrip.antt =====
-- A configuration that is saved and loaded again.
use dstx.Common.{
  ℕ, zero, suc, ◌+◌, ◌≤◌, ◌<◌, ◌≡◌, refl, sym, ap, ◌∙◌, Bool, true, false, Option, none, some, List,
  [], ◌∷◌, map, ◌==◌, length, All, if◌then◌else◌, if_true, arith,
}
use dstx.Common.Int.{pos, u8_of_ℤ}
use dstx.Controller.{phy_btn_count, logical_btn_count}
use dstx.Controller.Config.{SlotConfig}
use dstx.Profiles.Json.{
  Key, key, key_number, Item, or_else, CJson, flag_item, count_item, entries, in_range,
  item_in_range, load_button, load_keymap, load_keymap_of, add_all, save_slot, save_slots,
  safe_json_get_int_range, safe_json_get_bool, safe_json_get_uint8, load_slot, load_slots,
}
use dstx.Profiles.Json.Ranges.{IsButton, InRange}

-- The first entry with a name.
abbrev lookup : Key → List (Key × Item) → Option Item
lookup k [] = none
lookup k (e ∷ es) =
    or_else (if key_number e.0 == key_number k then some e.1 else none) (lookup k es)

or_else_assoc : (a b c : Option Item) → or_else (or_else a b) c ≡ or_else a (or_else b c)
or_else_assoc none b c = refl
or_else_assoc (some v) b c = refl

or_else-none : (a : Option Item) → or_else a none ≡ a
or_else-none none = refl
or_else-none (some v) = refl

in_range_saved :
    (n low high : ℕ) → low ≤ n → n ≤ high → in_range (pos low) (pos high) (pos n) ≡ true
in_range_saved n low high h k = ground arith

u8_saved : (n : ℕ) → n < 256 → u8_of_ℤ (pos n) ≡ n
unfolding u8_of_ℤ
u8_saved n h = omega arith

load_button_saved : (k b : ℕ) → b < logical_btn_count → load_button k (some (pos b)) ≡ b
unfolding load_button
load_button_saved k b h =
    if_true (u8_of_ℤ (pos b)) (k + 1) (in_range_saved b 0 18 (omega arith) (omega arith))
    ∙ u8_saved b (omega arith)

load_keymap_saved :
    (left k : ℕ) (m : List ℕ)
    → length m ≡ left
    → All IsButton m
    → load_keymap left k (map (λ b. some (pos b)) m) ≡ m
unfolding load_keymap
load_keymap_saved zero k [] h all = refl
load_keymap_saved zero k (b ∷ m) h all = absurd (omega (arith, h))
load_keymap_saved (suc left) k [] h all = absurd (omega (arith, h))
load_keymap_saved (suc left) k (b ∷ m) h all =
    rw (load_button_saved k b all.0)
      (ap (λ r. b ∷ r) (load_keymap_saved left (k + 1) m (omega (arith, h)) all.1))

module _ (json : CJson) where
  open json use {Object, create, add, get, get_create, get_add}

  get-add_all :
      (es : List (Key × Item)) (o : Object) (k : Key)
      → get (add_all json es o) k ≡ or_else (get o k) (lookup k es)
  unfolding add_all
  get-add_all [] o k = sym (or_else-none (get o k))
  get-add_all (e ∷ es) o k =
      get-add_all es (add o e.0 e.1) k
      ∙ (ap (λ r. or_else r (lookup k es)) (get_add o e.0 k e.1)
          ∙ or_else_assoc (get o k) (if key_number e.0 == key_number k then some e.1 else none)
              (lookup k es))

  get-save_slot : (cfg : SlotConfig) (k : Key) → get (save_slot json cfg) k ≡ lookup k (entries cfg)
  unfolding save_slot
  get-save_slot cfg k =
      get-add_all (entries cfg) create k
      ∙ ap (λ r. or_else r (lookup k (entries cfg))) (get_create k)

  byte_saved :
      (cfg : SlotConfig) (k : Key) (n low high d : ℕ)
      → lookup k (entries cfg) ≡ some (count_item n)
      → low ≤ n
      → n ≤ high
      → high < 256
      → safe_json_get_uint8 json (save_slot json cfg) k low high d ≡ n
  unfolding safe_json_get_uint8 safe_json_get_int_range item_in_range
  byte_saved cfg k n low high d e h h' lt =
      rw (get-save_slot cfg k)
        (rw e (rw (in_range_saved n low high h h') (u8_saved n (omega arith))))

  flag_saved :
      (cfg : SlotConfig) (k : Key) (b d : Bool)
      → lookup k (entries cfg) ≡ some (flag_item b)
      → safe_json_get_bool json (save_slot json cfg) k d ≡ b
  unfolding safe_json_get_bool safe_json_get_int_range item_in_range
  flag_saved cfg k true d e = rw (get-save_slot cfg k) (rw e refl)
  flag_saved cfg k false d e = rw (get-save_slot cfg k) (rw e refl)

  -- A configuration whose values lie in their ranges comes back whole: the object that is saved for
  -- it, loaded over any slot, gives it again, in every field and every entry of its keymap.
  pub load_slot-save_slot :
      (cfg old : SlotConfig) → InRange cfg → load_slot json (save_slot json cfg) old ≡ cfg
  unfolding load_slot entries load_keymap_of
  load_slot-save_slot cfg old h = λ i. record {
    led_r = byte_saved cfg (key 0) cfg.led_r 0 255 0 refl (omega arith) h.led_r (omega arith) i;
    led_g = byte_saved cfg (key 1) cfg.led_g 0 255 0 refl (omega arith) h.led_g (omega arith) i;
    led_b = byte_saved cfg (key 2) cfg.led_b 0 255 255 refl (omega arith) h.led_b (omega arith) i;
    led_base_r =
        byte_saved cfg (key 3) cfg.led_base_r 0 255 0 refl (omega arith) h.led_base_r (omega arith)
          i;
    led_base_g =
        byte_saved cfg (key 4) cfg.led_base_g 0 255 0 refl (omega arith) h.led_base_g (omega arith)
          i;
    led_base_b =
        byte_saved cfg (key 5) cfg.led_base_b 0 255 255 refl (omega arith) h.led_base_b
          (omega arith) i;
    rumble_gain =
        byte_saved cfg (key 6) cfg.rumble_gain 0 100 100 refl (omega arith) h.rumble_gain
          (omega arith) i;
    deadzone =
        byte_saved cfg (key 7) cfg.deadzone 0 100 10 refl (omega arith) h.deadzone (omega arith) i;
    global_led_brightness =
        byte_saved cfg (key 8) cfg.global_led_brightness 0 100 80 refl (omega arith)
          h.global_led_brightness (omega arith) i;
    player_leds =
        byte_saved cfg (key 9) cfg.player_leds 0 5 0 refl (omega arith) h.player_leds (omega arith)
          i;
    sensitivity_left_preset =
        byte_saved cfg (key 17) cfg.sensitivity_left_preset 0 7 0 refl (omega arith)
          h.sensitivity_left_preset (omega arith) i;
    sensitivity_right_preset =
        byte_saved cfg (key 18) cfg.sensitivity_right_preset 0 7 0 refl (omega arith)
          h.sensitivity_right_preset (omega arith) i;
    led_effect =
        byte_saved cfg (key 19) cfg.led_effect 0 8 0 refl (omega arith) h.led_effect (omega arith)
          i;
    led_effect_speed =
        byte_saved cfg (key 20) cfg.led_effect_speed 1 10 5 refl h.led_effect_speed.0
          h.led_effect_speed.1 (omega arith) i;
    led_effect_brightness =
        byte_saved cfg (key 21) cfg.led_effect_brightness 0 100 80 refl (omega arith)
          h.led_effect_brightness (omega arith) i;
    debounce_enabled = flag_saved cfg (key 10) cfg.debounce_enabled true refl i;
    emulate_active = flag_saved cfg (key 11) cfg.emulate_active true refl i;
    is_uhid = flag_saved cfg (key 12) cfg.is_uhid false refl i;
    led_reapply = flag_saved cfg (key 13) cfg.led_reapply true refl i;
    rumble_active = flag_saved cfg (key 14) cfg.rumble_active true refl i;
    invert_ly = flag_saved cfg (key 15) cfg.invert_ly false refl i;
    invert_ry = flag_saved cfg (key 16) cfg.invert_ry false refl i;
    treat_triggers_as_digital = flag_saved cfg (key 22) cfg.treat_triggers_as_digital false refl i;
    keymap =
        (ap (λ o. load_keymap_of o old.keymap) (get-save_slot cfg (key 23))
            ∙ load_keymap_saved phy_btn_count 0 cfg.keymap h.keymap.has_entries h.keymap.buttons)
          i;
  }

  -- Slots whose values are in range, saved into a profile, come back whole when it is loaded over
  -- any slots, as many as were saved.
  pub load_slots-save_slots :
      (cfgs olds : List SlotConfig)
      → All InRange cfgs
      → length olds ≡ length cfgs
      → load_slots json (save_slots json cfgs) olds ≡ cfgs
  unfolding load_slots save_slots
  load_slots-save_slots [] [] h e = refl
  load_slots-save_slots [] (old ∷ olds) h e = absurd (omega (arith, e))
  load_slots-save_slots (cfg ∷ cfgs) [] h e = absurd (omega (arith, e))
  load_slots-save_slots (cfg ∷ cfgs) (old ∷ olds) h e =
      rw (load_slot-save_slot cfg old h.0)
        (ap (λ rest. cfg ∷ rest) (load_slots-save_slots cfgs olds h.1 (omega (arith, e))))
