-- ===== src/Commands/Kept.antt =====
-- Each handler of dstx/src/commands.c keeps the configuration of the slot in range.
use dstx.Common.{ℕ, ◌-◌, ◌≤◌, ◌≡◌, refl, Option, none, some, List, [], ◌∷◌, All, arith}
use dstx.Common.Int.{pos_part}
use dstx.Controller.{logical_btn_count}
use dstx.Bus.{BusSlot}
use dstx.Bus.Written.{IsSavable}
use dstx.Text.{Word, Libc, atoi, scan_color}
use dstx.Text.Bytes.{scan_color-lt}
use dstx.Commands.{Handler, str_to_bool}
use dstx.Commands.Slot.{
  cmd_emulation, cmd_uhid, cmd_keymap, cmd_reset_all_keybinds, cmd_invert, cmd_triggers_digital,
  cmd_rumble, cmd_debounce, cmd_reapply, cmd_layout, or_default, set_color, cmd_color, cmd_keybind,
  cmd_sensitivity, byte_arg, more, cmd_ledfx, cmd_brightness, cmd_deadzone, cmd_gain, cmd_pled,
  slot_commands, find_command, run_found, execute_slot_command,
}
use dstx.Commands.Ranges.{
  within-le, write_emulation-IsSavable, force_uhid-IsSavable, write_keybind-IsSavable,
  write_invert_ly-IsSavable, write_invert_ry-IsSavable, preset_left-IsSavable,
  preset_right-IsSavable, write_triggers-IsSavable, write_led-IsSavable, write_ledfx-IsSavable,
  write_brightness-IsSavable, write_deadzone-IsSavable, write_gain-IsSavable,
  write_rumble-IsSavable, write_debounce-IsSavable, write_reapply-IsSavable, write_pled-IsSavable,
}

abbrev pub IsKeeping : Handler → Type 0
IsKeeping handler =
    (args : List Word) (s : BusSlot) → IsSavable s.slot → IsSavable (handler args s).0.slot

cmd_emulation-IsKeeping : IsKeeping cmd_emulation
unfolding cmd_emulation
cmd_emulation-IsKeeping [] s h = h
cmd_emulation-IsKeeping (a ∷ args) s h = write_emulation-IsSavable s.slot h (str_to_bool a)

cmd_uhid-IsKeeping : IsKeeping cmd_uhid
unfolding cmd_uhid
cmd_uhid-IsKeeping [] s h = h
cmd_uhid-IsKeeping (a ∷ args) s h = force_uhid-IsSavable s.slot h (str_to_bool a)

cmd_keymap-IsKeeping : IsKeeping cmd_keymap
unfolding cmd_keymap
cmd_keymap-IsKeeping args s h = h

cmd_reset-IsKeeping : IsKeeping cmd_reset_all_keybinds
unfolding cmd_reset_all_keybinds
cmd_reset-IsKeeping args s h = h

cmd_invert-IsKeeping : IsKeeping cmd_invert
unfolding cmd_invert
cmd_invert-IsKeeping [] s h = h
cmd_invert-IsKeeping (which ∷ []) s h = h
cmd_invert-IsKeeping (which ∷ a ∷ args) s h = ground (
  arith,
  write_invert_ly-IsSavable s.slot h (str_to_bool a),
  write_invert_ry-IsSavable s.slot h (str_to_bool a),
)

cmd_triggers-IsKeeping : IsKeeping cmd_triggers_digital
unfolding cmd_triggers_digital
cmd_triggers-IsKeeping [] s h = h
cmd_triggers-IsKeeping (a ∷ args) s h =
    ground (arith, write_triggers-IsSavable s.slot h (str_to_bool a))

cmd_rumble-IsKeeping : IsKeeping cmd_rumble
unfolding cmd_rumble
cmd_rumble-IsKeeping [] s h = h
cmd_rumble-IsKeeping (a ∷ args) s h =
    ground (arith, write_rumble-IsSavable s.slot h (str_to_bool a))

cmd_debounce-IsKeeping : IsKeeping cmd_debounce
unfolding cmd_debounce
cmd_debounce-IsKeeping [] s h = h
cmd_debounce-IsKeeping (a ∷ args) s h = write_debounce-IsSavable s.slot h (str_to_bool a)

cmd_reapply-IsKeeping : IsKeeping cmd_reapply
unfolding cmd_reapply
cmd_reapply-IsKeeping [] s h = h
cmd_reapply-IsKeeping (a ∷ args) s h =
    ground (arith, write_reapply-IsSavable s.slot h (str_to_bool a))

cmd_layout-IsKeeping : IsKeeping cmd_layout
unfolding cmd_layout
cmd_layout-IsKeeping [] s h = h
cmd_layout-IsKeeping (a ∷ args) s h = ground arith

or_default-bounds :
    (low high default v : ℕ)
    → low ≤ default
    → default ≤ high
    → (low ≤ or_default low high default v) × (or_default low high default v ≤ high)
unfolding or_default
or_default-bounds low high default v h k = ground arith

set_color-IsSavable :
    (libc : Libc) (a : Word) (o : Option (ℕ × ℕ × ℕ))
    → scan_color libc a ≡ o
    → (s : BusSlot) → IsSavable s.slot
    → IsSavable (set_color o s).0.slot
unfolding set_color
set_color-IsSavable libc a none e s h = h
set_color-IsSavable libc a (some (r, g, b)) e s h =
    let (hr, hg, hb) = scan_color-lt libc a r g b e in write_led-IsSavable s.slot h r g b hr hg hb

module _ (libc : Libc) where
  pub cmd_color-IsKeeping : IsKeeping (cmd_color libc)
  unfolding cmd_color
  cmd_color-IsKeeping [] s h = h
  cmd_color-IsKeeping (a ∷ args) s h = set_color-IsSavable libc a (scan_color libc a) refl s h

  cmd_keybind-IsKeeping : IsKeeping (cmd_keybind libc)
  unfolding cmd_keybind
  cmd_keybind-IsKeeping [] s h = h
  cmd_keybind-IsKeeping (a ∷ []) s h = h
  cmd_keybind-IsKeeping (a ∷ b ∷ args) s h = ground (
    arith,
    within-le (logical_btn_count - 1) (atoi libc b),
    write_keybind-IsSavable s.slot h (pos_part (atoi libc a)) (pos_part (atoi libc b)),
  )

  cmd_sensitivity-IsKeeping : IsKeeping (cmd_sensitivity libc)
  unfolding cmd_sensitivity
  cmd_sensitivity-IsKeeping [] s h = h
  cmd_sensitivity-IsKeeping (which ∷ []) s h = h
  cmd_sensitivity-IsKeeping (which ∷ a ∷ args) s h = ground (
    arith,
    preset_left-IsSavable s.slot h (atoi libc a),
    preset_right-IsSavable s.slot h (atoi libc a),
  )

  cmd_ledfx-IsKeeping : IsKeeping (cmd_ledfx libc)
  unfolding cmd_ledfx
  cmd_ledfx-IsKeeping [] s h = h
  cmd_ledfx-IsKeeping (a ∷ args) s h =
      let speed = byte_arg libc 5 args in
      let brightness = byte_arg libc 80 (more libc args) in
      let hs = or_default-bounds 1 10 5 speed (omega arith) (omega arith) in
      let hb = or_default-bounds 1 100 80 brightness (omega arith) (omega arith) in
      ground (
        arith,
        hs,
        hb,
        write_ledfx-IsSavable s.slot h (atoi libc a) (or_default 1 10 5 speed)
            (or_default 1 100 80 brightness),
      )

  cmd_brightness-IsKeeping : IsKeeping (cmd_brightness libc)
  unfolding cmd_brightness
  cmd_brightness-IsKeeping [] s h = h
  cmd_brightness-IsKeeping (a ∷ args) s h =
      ground (arith, write_brightness-IsSavable s.slot h (atoi libc a))

  cmd_deadzone-IsKeeping : IsKeeping (cmd_deadzone libc)
  unfolding cmd_deadzone
  cmd_deadzone-IsKeeping [] s h = h
  cmd_deadzone-IsKeeping (a ∷ args) s h =
      ground (arith, write_deadzone-IsSavable s.slot h (atoi libc a))

  cmd_gain-IsKeeping : IsKeeping (cmd_gain libc)
  unfolding cmd_gain
  cmd_gain-IsKeeping [] s h = h
  cmd_gain-IsKeeping (a ∷ args) s h = ground (arith, write_gain-IsSavable s.slot h (atoi libc a))

  cmd_pled-IsKeeping : IsKeeping (cmd_pled libc)
  unfolding cmd_pled
  cmd_pled-IsKeeping [] s h = h
  cmd_pled-IsKeeping (a ∷ args) s h = ground (arith, write_pled-IsSavable s.slot h (atoi libc a))

  -- Every entry of the table.
  slot_commands-IsKeeping : All (λ (c : Word × Handler). IsKeeping c.1) (slot_commands libc)
  unfolding slot_commands
  slot_commands-IsKeeping = (
    cmd_color-IsKeeping,
    (
      cmd_emulation-IsKeeping,
      (
        cmd_uhid-IsKeeping,
        (
          cmd_keybind-IsKeeping,
          (
            cmd_keymap-IsKeeping,
            (
              cmd_reset-IsKeeping,
              (
                cmd_invert-IsKeeping,
                (
                  cmd_sensitivity-IsKeeping,
                  (
                    cmd_triggers-IsKeeping,
                    (
                      cmd_ledfx-IsKeeping,
                      (
                        cmd_brightness-IsKeeping,
                        (
                          cmd_deadzone-IsKeeping,
                          (
                            cmd_gain-IsKeeping,
                            (
                              cmd_rumble-IsKeeping,
                              (
                                cmd_debounce-IsKeeping,
                                (
                                  cmd_reapply-IsKeeping,
                                  (cmd_pled-IsKeeping, (cmd_layout-IsKeeping, tt)),
                                ),
                              ),
                            ),
                          ),
                        ),
                      ),
                    ),
                  ),
                ),
              ),
            ),
          ),
        ),
      ),
    ),
  )

find-IsKeeping :
    (table : List (Word × Handler)) (name : Word) (args : List Word) (s : BusSlot)
    → All (λ (c : Word × Handler). IsKeeping c.1) table
    → IsSavable s.slot
    → IsSavable (run_found (find_command table name) args s).0.slot
unfolding find_command run_found
find-IsKeeping [] name args s all h = h
find-IsKeeping (c ∷ table) name args s all h =
    ground (arith, all.0 args s h, find-IsKeeping table name args s all.1 h)

pub execute_slot_command-IsKeeping :
    (libc : Libc) (name : Word) → IsKeeping (execute_slot_command libc name)
unfolding execute_slot_command
execute_slot_command-IsKeeping libc name args s h =
    find-IsKeeping (slot_commands libc) name args s (slot_commands-IsKeeping libc) h
