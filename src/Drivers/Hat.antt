-- ===== src/Drivers/Hat.antt =====
-- The hat switch from the report of the controller to the report of the virtual HID device.
use dstx.Common.{
  ℕ, ◌-◌, ◌≤◌, ◌<◌, ◌%◌, ◌≡◌, ◌↔◌, refl, Bool, true, false, List, min, get_or, arith, passes_below,
  at_passes_below, ==_iff, ◌==◌, truth, bit_and, of_bool, if◌then◌else◌, ◌||◌,
}
use dstx.Common.Int.{pos, negsuc}
use dstx.Controller.{Controller}
use dstx.Keys.{keys_apply_map, keys_reset_all_keybinds, hat_x_of, hat_y_of}
use dstx.Keys.Apply.{
  LogicalButton, dpad_up, dpad_down, dpad_left, dpad_right, button, code, keys_apply_map-button,
}
use dstx.Keys.Layout.{IsKeymap, keys_reset_all_keybinds-identity}
use dstx.Drivers.{read_buttons}
use dstx.Uhid.{dpad_value}

nibble_table : passes_below (λ b. bit_and b 0x0F == b % 16) 256 ≡ true
unfolding passes_below
nibble_table = refl

nibble : (b : ℕ) → b < 256 → bit_and b 0x0F ≡ b % 16
nibble b h = (==_iff _ _).0 (at_passes_below _ _ b h nibble_table)

truth_of_iff : (v : ℕ) (t : Bool) → v ≤ 1 → (v ≡ 1) ↔ (t ≡ true) → truth v ≡ t
truth_of_iff v t h iff = ground arith

module _ (slot : Controller) (w : IsKeymap slot.keymap) (raw : List ℕ) where
  -- A button of the identity keymap is on when its physical button is down.
  identity_truth :
      (l : LogicalButton)
      → truth (button l (keys_apply_map slot (keys_reset_all_keybinds slot).keymap raw).buttons)
        ≡ truth (get_or raw (code l - 1) 0)
  identity_truth l =
      let keymap = (keys_reset_all_keybinds slot).keymap in
      truth_of_iff _ _ (keys_apply_map-button slot keymap raw l).0
        (keys_reset_all_keybinds-identity slot raw l w)

-- The hat from the four directions.
abbrev hat_of : Bool → Bool → Bool → Bool → ℕ
hat_of up down left right =
    dpad_value (if right then pos 1 else if left then negsuc 0 else pos 0)
      (if up then negsuc 0 else if down then pos 1 else pos 0)

-- The hat from the low half of the byte with the D-pad.
abbrev hat_of_nibble : ℕ → ℕ
hat_of_nibble d =
    hat_of (d == 0 || d == 1 || d == 7) (d == 3 || d == 4 || d == 5) (d == 5 || d == 6 || d == 7)
      (d == 1 || d == 2 || d == 3)

hat_table : passes_below (λ d. hat_of_nibble d == min 8 d) 16 ≡ true
unfolding passes_below dpad_value
hat_table = refl

hat_of_nibble_lem : (d : ℕ) → d < 16 → hat_of_nibble d ≡ min 8 d
hat_of_nibble_lem d h = (==_iff _ _).0 (at_passes_below _ _ d h hat_table)

truth-of_bool : (t : Bool) → truth (of_bool t) ≡ t
truth-of_bool true = refl
truth-of_bool false = refl

-- With the identity keymap the hat of the virtual HID device is the hat of the controller: the
-- low half of the byte with the D-pad for the eight directions, and 8, at rest, for any other.
pub hat_roundtrip :
    (slot : Controller) (main sys1 sys2 : ℕ)
    → IsKeymap slot.keymap
    → main < 256
    → let slot' =
        keys_apply_map slot (keys_reset_all_keybinds slot).keymap (read_buttons main sys1 sys2) in
      dpad_value slot'.hat_x slot'.hat_y ≡ min 8 (main % 16)
unfolding keys_apply_map hat_x_of hat_y_of read_buttons
hat_roundtrip slot main sys1 sys2 w h =
    let raw = read_buttons main sys1 sys2 in
    let pressed = identity_truth slot w raw in
    rw (pressed dpad_up, pressed dpad_down, pressed dpad_left, pressed dpad_right)
      (simp (truth-of_bool, nibble main h) (hat_of_nibble_lem (main % 16) (omega arith)))
