-- ===== src/Keys.antt =====
-- dstx/src/keys.c: the remapping of the physical buttons. A keymap is an array of PHY_BTN_COUNT
-- bytes, indexed by `physical_button_t`, each a `logical_button_t`.
pub mod Apply
pub mod Layout
use dstx.Common.{
  ℕ, zero, suc, ◌+◌, Bool, List, [], ◌∷◌, ◌==◌, leb, truth, if◌then◌else◌, get_or, set,
}
use dstx.Common.Int.{ℤ, pos, negsuc}
use dstx.Controller.{Buttons, Controller, ControllerType, phy_btn_count, logical_btn_count}

-- map_out[i] = i + 1 for i from `i` on, `left` rounds being left.
unfoldable pub default_map_loop : ℕ → ℕ → List ℕ → List ℕ
default_map_loop zero i map_out = map_out
default_map_loop (suc left) i map_out = default_map_loop left (i + 1) (set map_out i (i + 1))

unfoldable pub keys_get_default_map : ControllerType → List ℕ → List ℕ
unfolding default_map_loop
keys_get_default_map type map_out = default_map_loop phy_btn_count 0 map_out

abbrev pub no_buttons : Buttons
no_buttons = record {
  cross = 0;
  circle = 0;
  square = 0;
  triangle = 0;
  l1 = 0;
  r1 = 0;
  l2 = 0;
  r2 = 0;
  share = 0;
  options = 0;
  l3 = 0;
  r3 = 0;
  ps = 0;
  touch_btn = 0;
  dpad_up = 0;
  dpad_down = 0;
  dpad_left = 0;
  dpad_right = 0;
}

-- The `switch` on a logical button, field by field: each case stores 1 into its own field, and
-- the default stores nothing.
unfoldable pub press : ℕ → Buttons → Buttons
press logical b = record {
  cross = if logical == 1 then 1 else b.cross;
  circle = if logical == 2 then 1 else b.circle;
  square = if logical == 3 then 1 else b.square;
  triangle = if logical == 4 then 1 else b.triangle;
  l1 = if logical == 5 then 1 else b.l1;
  r1 = if logical == 6 then 1 else b.r1;
  l2 = if logical == 7 then 1 else b.l2;
  r2 = if logical == 8 then 1 else b.r2;
  share = if logical == 9 then 1 else b.share;
  options = if logical == 10 then 1 else b.options;
  l3 = if logical == 11 then 1 else b.l3;
  r3 = if logical == 12 then 1 else b.r3;
  ps = if logical == 13 then 1 else b.ps;
  touch_btn = if logical == 14 then 1 else b.touch_btn;
  dpad_up = if logical == 15 then 1 else b.dpad_up;
  dpad_down = if logical == 16 then 1 else b.dpad_down;
  dpad_left = if logical == 17 then 1 else b.dpad_left;
  dpad_right = if logical == 18 then 1 else b.dpad_right;
}

-- The body of the loop: a button at rest, one mapped to NONE and one with an invalid entry are
-- passed over.
unfoldable pub apply_button : List ℕ → List ℕ → ℕ → Buttons → Buttons
apply_button keymap raw phy b =
    let logical = get_or keymap phy 0 in
    if truth (get_or raw phy 0)
    then if logical == 0 then b else if leb logical_btn_count logical then b else press logical b
    else b

-- The loop at index `phy`, with `left` rounds left.
unfoldable pub apply_loop : List ℕ → List ℕ → ℕ → ℕ → Buttons → Buttons
apply_loop keymap raw zero phy b = b
apply_loop keymap raw (suc left) phy b =
    apply_loop keymap raw left (phy + 1) (apply_button keymap raw phy b)

-- The two axes of the D-pad, from its stable directions.
unfoldable pub hat_x_of : Buttons → ℤ
hat_x_of b = if truth b.dpad_right then pos 1 else if truth b.dpad_left then negsuc 0 else pos 0

unfoldable pub hat_y_of : Buttons → ℤ
hat_y_of b = if truth b.dpad_up then negsuc 0 else if truth b.dpad_down then pos 1 else pos 0

unfoldable pub keys_apply_map : Controller → List ℕ → List ℕ → Controller
keys_apply_map slot keymap raw =
    let b = apply_loop keymap raw phy_btn_count 0 no_buttons in
    record slot { buttons = b; hat_x = hat_x_of b; hat_y = hat_y_of b }

-- Writes to the four face buttons, at the indices CROSS, CIRCLE, SQUARE and TRIANGLE.
face_layout : ℕ → ℕ → ℕ → ℕ → List ℕ → List ℕ
face_layout cross circle square triangle m =
    set (set (set (set m 0 cross) 1 circle) 2 square) 3 triangle

unfoldable pub keys_set_xbox_layout : Controller → Controller
unfolding face_layout
keys_set_xbox_layout slot = record slot { keymap = face_layout 1 2 3 4 slot.keymap }

unfoldable pub keys_set_switch_layout : Controller → Controller
unfolding face_layout
keys_set_switch_layout slot = record slot { keymap = face_layout 2 1 4 3 slot.keymap }

unfoldable pub keys_reset_all_keybinds : Controller → Controller
keys_reset_all_keybinds slot = record slot { keymap = keys_get_default_map slot.type slot.keymap }
