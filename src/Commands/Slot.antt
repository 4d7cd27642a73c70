-- ===== src/Commands/Slot.antt =====
-- The handlers of the slot commands in dstx/src/commands.c, and their table.
use dstx.Common.{
  ℕ, ◌-◌, Bool, true, false, Option, none, some, List, [], ◌∷◌, ltb, not, ◌&&◌, ◌||◌, if◌then◌else◌,
}
use dstx.Common.Int.{pos_part, u8_of_ℤ}
use dstx.Controller.{
  ControllerType, type_ds4, type_dualsense, type_nsw_pro, phy_btn_count, logical_btn_count,
}
use dstx.AxisSystem.{sens_preset_count}
use dstx.Ledfx.{ledfx_count}
use dstx.Bus.{BusSlot, request_switch, request_xbox, write_led}
use dstx.Text.{Word, Libc, codes, same_text, atoi, scan_color}
use dstx.Commands.{
  Handler, write, within, str_to_bool, write_emulation, force_uhid, write_keybind, write_invert_ly,
  write_invert_ry, apply_sensitivity_preset_left, apply_sensitivity_preset_right, write_triggers,
  write_ledfx, write_brightness, write_deadzone, write_gain, write_rumble, write_debounce,
  write_reapply, write_pled,
}

-- A command that only prints the state.
abbrev is_status : Word → Bool
is_status sub = same_text sub (codes "status")

unfoldable pub is_dualsense : ControllerType → Bool
is_dualsense type_dualsense = true
is_dualsense type_ds4 = false
is_dualsense type_nsw_pro = false

unfoldable pub is_nsw : ControllerType → Bool
is_nsw type_nsw_pro = true
is_nsw type_ds4 = false
is_nsw type_dualsense = false

unfoldable pub cmd_emulation : Handler
cmd_emulation [] s = (s, 1)
cmd_emulation (a ∷ args) s = (write (write_emulation (str_to_bool a)) s, 0)

unfoldable pub cmd_uhid : Handler
cmd_uhid [] s = (s, 1)
cmd_uhid (a ∷ args) s = (write (force_uhid (str_to_bool a)) s, 0)

unfoldable pub cmd_keymap : Handler
cmd_keymap args s = (s, 0)

unfoldable pub cmd_reset_all_keybinds : Handler
cmd_reset_all_keybinds args s =
    (record s { requests = record (s.requests) { request_reset_all_keybinds = true } }, 0)

unfoldable pub cmd_invert : Handler
cmd_invert [] s = (s, 1)
cmd_invert (which ∷ []) s = (s, 1)
cmd_invert (which ∷ a ∷ args) s =
    if is_status which
    then (s, 0)
    else if same_text which (codes "ly")
    then (write (write_invert_ly (str_to_bool a)) s, 0)
    else if same_text which (codes "ry")
    then (write (write_invert_ry (str_to_bool a)) s, 0)
    else (s, 1)

unfoldable pub cmd_triggers_digital : Handler
cmd_triggers_digital [] s = (s, 1)
cmd_triggers_digital (a ∷ args) s =
    if is_status a then (s, 0) else (write (write_triggers (str_to_bool a)) s, 0)

unfoldable pub cmd_rumble : Handler
cmd_rumble [] s = (s, 1)
cmd_rumble (a ∷ args) s =
    if is_status a then (s, 0) else (write (write_rumble (str_to_bool a)) s, 0)

unfoldable pub cmd_debounce : Handler
cmd_debounce [] s = (s, 1)
cmd_debounce (a ∷ args) s = (write (write_debounce (str_to_bool a)) s, 0)

unfoldable pub cmd_reapply : Handler
cmd_reapply [] s = (s, 1)
cmd_reapply (a ∷ args) s =
    if is_status a then (s, 0) else (write (write_reapply (str_to_bool a)) s, 0)

unfoldable pub cmd_layout : Handler
unfolding is_nsw
cmd_layout [] s = (s, 1)
cmd_layout (sub ∷ args) s =
    if same_text sub (codes "switch")
    then if is_nsw s.slot.type then (request_switch s, 0) else (s, 1)
    else if same_text sub (codes "xbox")
    then if is_nsw s.slot.type then (request_xbox s, 0) else (s, 1)
    else (s, 1)

-- An argument of `ledfx`, which is stored into a `uint8_t` and replaced if it is out of range then.
unfoldable pub or_default : (low high default v : ℕ) → ℕ
or_default low high default v = if ltb v low || ltb high v then default else v

unfoldable pub set_color : Option (ℕ × ℕ × ℕ) → BusSlot → BusSlot × ℕ
set_color none s = (s, 1)
set_color (some (r, g, b)) s = (write (write_led r g b) s, 0)

module _ (libc : Libc) where
  unfoldable pub cmd_color : Handler
  unfolding set_color
  cmd_color [] s = (s, 1)
  cmd_color (a ∷ args) s = set_color (scan_color libc a) s

  unfoldable pub cmd_keybind : Handler
  cmd_keybind [] s = (s, 1)
  cmd_keybind (a ∷ []) s = (s, 1)
  cmd_keybind (a ∷ b ∷ args) s =
      let phy = atoi libc a in
      let log = atoi libc b in
      if within (phy_btn_count - 1) phy && within (logical_btn_count - 1) log
      then (write (write_keybind (pos_part phy) (pos_part log)) s, 0)
      else (s, 1)

  unfoldable pub cmd_sensitivity : Handler
  cmd_sensitivity [] s = (s, 1)
  cmd_sensitivity (which ∷ []) s = (s, if is_status which then 0 else 1)
  cmd_sensitivity (which ∷ a ∷ args) s =
      let preset = atoi libc a in
      if is_status which
      then (s, 0)
      else if not (within (sens_preset_count - 1) preset)
      then (s, 1)
      else if same_text which (codes "left")
      then (write (apply_sensitivity_preset_left preset) s, 0)
      else if same_text which (codes "right")
      then (write (apply_sensitivity_preset_right preset) s, 0)
      else (s, 1)

  -- The byte of a further argument.
  unfoldable pub byte_arg : ℕ → List Word → ℕ
  byte_arg default [] = default
  byte_arg default (a ∷ args) = u8_of_ℤ (atoi libc a)

  unfoldable pub more : List Word → List Word
  more [] = []
  more (a ∷ args) = args

  unfoldable pub cmd_ledfx : Handler
  unfolding byte_arg more
  cmd_ledfx [] s = (s, 1)
  cmd_ledfx (a ∷ args) s =
      let effect = atoi libc a in
      let speed = or_default 1 10 5 (byte_arg 5 args) in
      let brightness = or_default 1 100 80 (byte_arg 80 (more args)) in
      if within (ledfx_count - 1) effect
      then (write (write_ledfx effect speed brightness) s, 0)
      else (s, 1)

  unfoldable pub cmd_brightness : Handler
  cmd_brightness [] s = (s, 1)
  cmd_brightness (a ∷ args) s =
      let b = atoi libc a in if within 100 b then (write (write_brightness b) s, 0) else (s, 1)

  unfoldable pub cmd_deadzone : Handler
  cmd_deadzone [] s = (s, 1)
  cmd_deadzone (a ∷ args) s =
      let dz = atoi libc a in if within 100 dz then (write (write_deadzone dz) s, 0) else (s, 1)

  unfoldable pub cmd_gain : Handler
  cmd_gain [] s = (s, 1)
  cmd_gain (a ∷ args) s =
      let g = atoi libc a in if within 100 g then (write (write_gain g) s, 0) else (s, 1)

  unfoldable pub cmd_pled : Handler
  unfolding is_dualsense
  cmd_pled [] s = (s, 1)
  cmd_pled (a ∷ args) s =
      let p = atoi libc a in
      if within 5 p && is_dualsense s.slot.type then (write (write_pled p) s, 0) else (s, 1)

  -- The table, with names and handlers.
  unfoldable pub slot_commands : List (Word × Handler)
  slot_commands =
      (codes "color", cmd_color)
      ∷ (codes "emulation", cmd_emulation)
      ∷ (codes "uhid", cmd_uhid)
      ∷ (codes "keybind", cmd_keybind)
      ∷ (codes "keymap", cmd_keymap)
      ∷ (codes "reset-keybinds", cmd_reset_all_keybinds)
      ∷ (codes "invert", cmd_invert)
      ∷ (codes "sensitivity", cmd_sensitivity)
      ∷ (codes "triggers-digital", cmd_triggers_digital)
      ∷ (codes "ledfx", cmd_ledfx)
      ∷ (codes "brightness", cmd_brightness)
      ∷ (codes "deadzone", cmd_deadzone)
      ∷ (codes "gain", cmd_gain)
      ∷ (codes "rumble", cmd_rumble)
      ∷ (codes "debounce", cmd_debounce)
      ∷ (codes "reapply", cmd_reapply)
      ∷ (codes "pled", cmd_pled)
      ∷ (codes "layout", cmd_layout)
      ∷ []

-- The loop over the table; `none` is its end.
unfoldable pub find_command : List (Word × Handler) → Word → Option Handler
find_command [] name = none
find_command (c ∷ table) name = if same_text c.0 name then some c.1 else find_command table name

unfoldable pub run_found : Option Handler → Handler
run_found none args s = (s, 1)
run_found (some handler) args s = handler args s

unfoldable pub execute_slot_command : Libc → Word → Handler
unfolding find_command slot_commands run_found
execute_slot_command libc name args s = run_found (find_command (slot_commands libc) name) args s
