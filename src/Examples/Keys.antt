-- ===== src/Examples/Keys.antt =====
-- The keymap at work.
use dstx.Common.{ℕ, ◌≤◌, ◌<◌, ◌≡◌, ◌↔◌, refl, List, [], ◌∷◌, replicate, min, ◌%◌, arith}
use dstx.Controller.{phy_btn_count}
use dstx.Keys.{
  press, apply_button, apply_loop, keys_apply_map, keys_get_default_map, keys_reset_all_keybinds,
  keys_set_switch_layout,
}
use dstx.Keys.Apply.{circle, button, Presses, keys_apply_map-button}
use dstx.Drivers.{read_buttons}
use dstx.Drivers.Hat.{hat_roundtrip}
use dstx.Uhid.{dpad_value}
use dstx.Examples.Data.{fresh}

-- Cross and the first shoulder button held.
abbrev held : List ℕ
held = 1 ∷ 0 ∷ 0 ∷ 0 ∷ 1 ∷ replicate 13 0

abbrev switch_map : List ℕ
switch_map = 2 ∷ 1 ∷ 4 ∷ 3 ∷ 5 ∷ replicate 13 0

switch_runs :
    (keys_set_switch_layout (keys_reset_all_keybinds fresh)).keymap
    ≡ 2 ∷ 1 ∷ 4 ∷ 3 ∷ 5 ∷ 6 ∷ 7 ∷ 8 ∷ 9 ∷ 10 ∷ 11 ∷ 12 ∷ 13 ∷ 14 ∷ 15 ∷ 16 ∷ 17 ∷ 18 ∷ []
unfolding keys_set_switch_layout keys_reset_all_keybinds keys_get_default_map
switch_runs = refl

cross_is_circle : (keys_apply_map fresh switch_map held).buttons.circle ≡ 1
unfolding keys_apply_map apply_loop apply_button press
cross_is_circle = refl

keys_apply_map-button_example :
    (button circle (keys_apply_map fresh switch_map held).buttons ≤ 1)
    × ((button circle (keys_apply_map fresh switch_map held).buttons ≡ 1)
        ↔ ((phy : ℕ) × (phy < phy_btn_count) × Presses switch_map held circle phy))
keys_apply_map-button_example = keys_apply_map-button fresh switch_map held circle

-- Up and right at once, with the square button held.
hat_roundtrip_example :
    let slot =
      keys_apply_map fresh (keys_reset_all_keybinds fresh).keymap (read_buttons 0x11 0 0) in
    dpad_value slot.hat_x slot.hat_y ≡ min 8 (0x11 % 16)
hat_roundtrip_example = hat_roundtrip fresh 0x11 0 0 refl (omega arith)
