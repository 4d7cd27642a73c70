-- ===== src/Commands/Percent.antt =====
-- The commands of dstx/src/commands.c that take a percentage.
use dstx.Common.{ℕ, ◌<◌, ◌≡◌, List, ◌∷◌, leb, All, arith, if◌then◌else◌}
use dstx.Common.Int.{u8_of_ℤ}
use dstx.Controller.{Controller}
use dstx.Worker.Requests.{mark_dirty}
use dstx.Bus.{BusSlot}
use dstx.Text.{Word, Libc, codes, same_text}
use dstx.Text.Numerals.{IsDigit, spelled, atoi_digits}
use dstx.Commands.{write, within, write_brightness, write_deadzone, write_gain}
use dstx.Commands.Slot.{
  cmd_brightness, cmd_deadzone, cmd_gain, slot_commands, find_command, run_found,
  execute_slot_command,
}

abbrev pub with_gain : ℕ → Controller → Controller
with_gain n c = record c { feedback = record (c.feedback) { rumble_gain = n } }

abbrev pub with_deadzone : ℕ → Controller → Controller
with_deadzone n c = record c { settings = record (c.settings) { deadzone = n } }

abbrev pub with_brightness : ℕ → Controller → Controller
with_brightness n c =
    mark_dirty (record c { feedback = record (c.feedback) { global_led_brightness = n } })

-- A number up to 100 is stored, any other refused.
abbrev pub percentage : ℕ → (ℕ → Controller → Controller) → BusSlot → BusSlot × ℕ
percentage n store s = if leb n 100 then (write (store n) s, 0) else (s, 1)

-- A percentage is stored as it is written: each of the commands that are named gain, deadzone and
-- brightness, given a text of digits that spells a number below 2 ^ 31, stores the number itself if
-- it is at most 100, and otherwise fails and changes nothing; further arguments do not matter. A
-- number from 2 ^ 31 on, for which atoi is not defined, is left out.
pub percent_commands :
    (libc : Libc) (c : ℕ) (digits : Word) (args : List Word) (s : BusSlot)
    → All IsDigit (c ∷ digits)
    → spelled 0 (c ∷ digits) < 2147483648
    → let n = spelled 0 (c ∷ digits) in
      (execute_slot_command libc (codes "gain") ((c ∷ digits) ∷ args) s ≡ percentage n with_gain s)
      × (execute_slot_command libc (codes "deadzone") ((c ∷ digits) ∷ args) s
          ≡ percentage n with_deadzone s)
      × (execute_slot_command libc (codes "brightness") ((c ∷ digits) ∷ args) s
          ≡ percentage n with_brightness s)
unfolding execute_slot_command slot_commands find_command run_found same_text cmd_gain cmd_deadzone
    cmd_brightness within write_gain write_deadzone write_brightness u8_of_ℤ
percent_commands libc c digits args s h lt =
    let e = atoi_digits libc c digits h lt in
    (rw e (ground arith), rw e (ground arith), rw e (ground arith))
