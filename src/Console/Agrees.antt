-- ===== src/Console/Agrees.antt =====
-- The terminal interface of dstx/src/ui.c against the command line of dstx/src/commands.c.
use dstx.Common.{ℕ, Bool, true, false, leb, if◌then◌else◌, ◌≡◌, List, [], ◌∷◌, ◌++◌, All, arith}
use dstx.Bus.{BusSlot}
use dstx.Worker.Requests.{LayoutRequests}
use dstx.Controller.{Feedback, Settings, ControllerType, type_ds4, type_dualsense, type_nsw_pro}
use dstx.Text.{Word, Libc, codes, same_text, starts_with, atoi}
use dstx.Common.Int.{ℤ, pos, negsuc, u8_of_ℤ}
use dstx.Commands.{
  str_to_bool, within, write_emulation, force_uhid, write_invert_ly, write_invert_ry,
  write_triggers, write_debounce, write_reapply, write_rumble, write_gain, write_deadzone,
  write_brightness, apply_sensitivity_preset_left, apply_sensitivity_preset_right,
}
use dstx.Commands.Slot.{
  cmd_emulation, cmd_uhid, cmd_invert, cmd_triggers_digital, cmd_rumble, cmd_debounce, cmd_reapply,
  cmd_reset_all_keybinds, cmd_layout, cmd_sensitivity, cmd_gain, cmd_deadzone, cmd_brightness,
  is_nsw, slot_commands, find_command, run_found, execute_slot_command,
}
use dstx.Console.{
  mode_rules, button_rules, switch_rules, led_rules, slot_rules, apply_rules, slot_line,
  switch_only, is_bare_color,
}

-- What a command means, read off the help and not off the code: the settings of a slot, or what its
-- settings thread is asked for.
abbrev with_settings : (Settings → Settings) → BusSlot → BusSlot
with_settings f s = record s { slot = record (s.slot) { settings = f s.slot.settings } }

abbrev with_feedback : (Feedback → Feedback) → BusSlot → BusSlot
with_feedback f s = record s { slot = record (s.slot) { feedback = f s.slot.feedback } }

abbrev with_requests : (LayoutRequests → LayoutRequests) → BusSlot → BusSlot
with_requests f s = record s { requests = f s.requests }

-- Only for a Switch Pro.
unfoldable pub on_pro : ControllerType → (BusSlot → BusSlot) → BusSlot → BusSlot
on_pro type_nsw_pro f s = f s
on_pro type_ds4 f s = s
on_pro type_dualsense f s = s

-- Only for a number from 0 to a limit.
unfoldable pub up_to : ℕ → ℤ → (ℕ → BusSlot → BusSlot) → BusSlot → BusSlot
up_to limit (pos n) f s = if leb n limit then f n s else s
up_to limit (negsuc n) f s = s

-- A line, the command and the arguments that it stands for, and what they mean.
pub record Pair : Type 0 where
  pub line : Word
  pub name : Word
  pub args : List Word
  pub meaning : BusSlot → BusSlot

abbrev words : Word → Word → Word
words a b = a ++ (b' ' ∷ b)

abbrev pub two : Word → Word → (BusSlot → BusSlot) → Pair
two name arg f = record { line = words name arg; name = name; args = arg ∷ []; meaning = f }

abbrev pub three : Word → Word → Word → (BusSlot → BusSlot) → Pair
three name a b f = record {
  line = words name (words a b);
  name = name;
  args = a ∷ b ∷ [];
  meaning = f;
}

-- The switches, on and off.
abbrev pub switches : Bool → Word → List Pair
switches on word =
    two (codes "uhid") word (with_settings (λ x. record x { is_uhid = on; emulate_active = true }))
    ∷ three (codes "invert") (codes "ly") word (with_settings (λ x. record x { invert_ly = on }))
    ∷ three (codes "invert") (codes "ry") word (with_settings (λ x. record x { invert_ry = on }))
    ∷ two (codes "triggers-digital") word
        (with_settings (λ x. record x { is_trigger_digital = on }))
    ∷ two (codes "emulation") word (with_settings (λ x. record x { emulate_active = on }))
    ∷ two (codes "debounce") word (with_settings (λ x. record x { debounce_enabled = on }))
    ∷ two (codes "reapply") word (with_settings (λ x. record x { led_reapply = on }))
    ∷ []

-- Rumble stops the motors when it is switched off.
abbrev pub others : List Pair
others =
    two (codes "rumble") (codes "on") (with_settings (λ x. record x { rumble_active = true }))
    ∷ two (codes "rumble") (codes "off") (λ s.
      with_feedback (λ x. record x { rumble_strong = 0; rumble_weak = 0; rumble_dirty = true })
        (with_settings (λ x. record x { rumble_active = false }) s))
    ∷ two (codes "layout") (codes "switch")
        (λ s. on_pro s.slot.type (with_requests (λ x. record x { request_switch_layout = true })) s)
    ∷ two (codes "layout") (codes "xbox")
        (λ s. on_pro s.slot.type (with_requests (λ x. record x { request_xbox_layout = true })) s)
    ∷ record {
      line = codes "reset-keybinds";
      name = codes "reset-keybinds";
      args = [];
      meaning = with_requests (λ x. record x { request_reset_all_keybinds = true });
    }
    ∷ []

abbrev pub numbered : Libc → Word → List Pair
numbered libc arg =
    let v = atoi libc arg in
    two (codes "gain") arg (up_to 100 v (λ n. with_feedback (λ x. record x { rumble_gain = n })))
    ∷ two (codes "deadzone") arg (up_to 100 v (λ n. with_settings (λ x. record x { deadzone = n })))
    ∷ two (codes "brightness") arg (
        up_to 100 v
          (λ n. with_feedback (λ x. record x { global_led_brightness = n; led_dirty = true })))
    ∷ three (codes "sensitivity") (codes "left") arg
        (up_to 7 v (λ n. with_settings (λ x. record x { sensitivity_left_preset = n })))
    ∷ three (codes "sensitivity") (codes "right") arg
        (up_to 7 v (λ n. with_settings (λ x. record x { sensitivity_right_preset = n })))
    ∷ []

-- The line and the command do what they mean.
abbrev pub Agree : Libc → BusSlot → Pair → Type 0
Agree libc s p =
    (slot_line libc p.line s ≡ p.meaning s)
    × ((execute_slot_command libc p.name p.args s).0 ≡ p.meaning s)

switches-Agree :
    (libc : Libc) (s : BusSlot)
    → All (Agree libc s) (switches true (codes "on"))
      × All (Agree libc s) (switches false (codes "off"))
unfolding slot_line slot_rules mode_rules button_rules switch_rules led_rules apply_rules same_text
    starts_with execute_slot_command slot_commands find_command run_found cmd_uhid cmd_invert
    cmd_triggers_digital cmd_emulation cmd_debounce cmd_reapply str_to_bool write_emulation
    force_uhid write_invert_ly write_invert_ry write_triggers write_debounce write_reapply
switches-Agree libc s = ground arith

others-Agree : (libc : Libc) (s : BusSlot) → All (Agree libc s) others
unfolding slot_line slot_rules mode_rules button_rules switch_rules led_rules apply_rules same_text
    starts_with execute_slot_command slot_commands find_command run_found cmd_rumble cmd_layout
    cmd_reset_all_keybinds str_to_bool switch_only write_rumble on_pro is_nsw
others-Agree libc s = ground arith

numbered-Agree : (libc : Libc) (arg : Word) (s : BusSlot) → All (Agree libc s) (numbered libc arg)
unfolding slot_line slot_rules mode_rules button_rules switch_rules led_rules apply_rules same_text
    starts_with execute_slot_command slot_commands find_command run_found cmd_gain cmd_deadzone
    cmd_brightness cmd_sensitivity is_bare_color write_gain write_deadzone write_brightness u8_of_ℤ
    up_to within apply_sensitivity_preset_left apply_sensitivity_preset_right
numbered-Agree libc arg s = ground arith

-- The terminal interface and the command line agree on what they share besides colours and key
-- bindings, and do what the help says: for each switch (uhid, invert, triggers-digital, emulation,
-- debounce, rumble, reapply, each on and off), for both layouts and the reset of the keybinds, and for
-- gain, deadzone, brightness and the sensitivity of each stick with any text as the argument, the line
-- and the command with the same words set the field of the slot that they name, where the number is in
-- range and the layout is for a Switch Pro, and change nothing otherwise. Besides, uhid switches the
-- emulation on, rumble off stops the motors, and brightness marks the LED for an update. Left out are
-- color, pled and ledfx, in which the two differ, and keybind, whose numbers they read differently.
pub slot_line-Agree :
    (libc : Libc) (arg : Word) (s : BusSlot)
    → (All (Agree libc s) (switches true (codes "on"))
        × All (Agree libc s) (switches false (codes "off")))
      × All (Agree libc s) others
      × All (Agree libc s) (numbered libc arg)
slot_line-Agree libc arg s = (switches-Agree libc s, others-Agree libc s, numbered-Agree libc arg s)
