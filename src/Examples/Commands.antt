-- ===== src/Examples/Commands.antt =====
-- Calls of the command line.
use dstx.Common.{ℕ, ◌≡◌, refl, true, List, [], ◌∷◌, arith, set}
use dstx.Common.Int.{negsuc}
use dstx.Registry.{zero_slot}
use dstx.Bus.{BusSlot, empty_slot}
use dstx.Text.{
  Libc, codes, same_text, starts_with, atoi, decimal, skip_spaces, is_space, split_sign,
  unsigned_decimal, is_digit, scan_digits, signed, int_or_zero, as_int, is_int,
}
use dstx.Commands.{within}
use dstx.Commands.Slot.{
  cmd_gain, cmd_deadzone, cmd_uhid, execute_slot_command, slot_commands, find_command, run_found,
}
use dstx.Commands.Percent.{percentage, with_gain, with_deadzone, with_brightness, percent_commands}
use dstx.Commands.Cli.{is_dashed, without_wait, process_cli_command}
use dstx.Commands.Cli.Batch.{Command, run_all, command_line}
use dstx.Commands.Cli.Lines.{digit, process_cli_command-run_all, process_cli_command-undashed}

-- A C library that takes numbers that no `int` holds for -1.
abbrev pub some_libc : Libc
some_libc = record { out_of_int = λ s. negsuc 0; reads_cut_prefix = true }

abbrev pub connected_slot : BusSlot
connected_slot = record empty_slot { slot = record zero_slot { connected = true } }

abbrev pub four_slots : List BusSlot
four_slots = empty_slot ∷ connected_slot ∷ empty_slot ∷ empty_slot ∷ []

-- --gain 80 --deadzone 300 --uhid on
abbrev gain_80 : Command
gain_80 = record { name = codes "gain"; args = codes "80" ∷ [] }

abbrev more_commands : List Command
more_commands =
    record { name = codes "deadzone"; args = codes "300" ∷ [] }
    ∷ record { name = codes "uhid"; args = codes "on" ∷ [] }
    ∷ []

abbrev batch_end : BusSlot × ℕ
batch_end = run_all some_libc (gain_80 ∷ more_commands) connected_slot 0

process_cli_command-run_all_example :
    process_cli_command some_libc true true
      (digit 1)
      (command_line (gain_80 ∷ more_commands))
      four_slots
    ≡ record { slots = set four_slots 1 batch_end.0; posted = []; code = batch_end.1 }
unfolding is_dashed starts_with without_wait same_text command_line
process_cli_command-run_all_example =
    process_cli_command-run_all some_libc true 1 gain_80 more_commands four_slots (omega arith) refl
      ((refl, tt), ((refl, tt), ((refl, tt), tt))) refl

-- The deadzone is refused, the other two commands are executed.
one_failed : batch_end.1 ≡ 1
unfolding run_all execute_slot_command slot_commands find_command run_found same_text cmd_gain
    cmd_deadzone cmd_uhid atoi decimal skip_spaces is_space split_sign unsigned_decimal is_digit
    scan_digits signed int_or_zero as_int is_int within
one_failed = refl

-- dstx 1 deadzone 20
process_cli_command-undashed_example :
    process_cli_command some_libc true true
      (digit 1)
      (codes "deadzone" ∷ codes "20" ∷ [])
      four_slots
    ≡ record { slots = four_slots; posted = []; code = 1 }
unfolding is_dashed starts_with without_wait same_text
process_cli_command-undashed_example =
    process_cli_command-undashed some_libc true 1 (codes "deadzone" ∷ codes "20" ∷ [])
      (codes "deadzone") (codes "20") [] four_slots (omega arith) refl refl

percent_commands_example :
    (execute_slot_command some_libc (codes "gain") (codes "85" ∷ []) connected_slot
      ≡ percentage 85 with_gain connected_slot)
    × (execute_slot_command some_libc (codes "deadzone") (codes "85" ∷ []) connected_slot
        ≡ percentage 85 with_deadzone connected_slot)
    × (execute_slot_command some_libc (codes "brightness") (codes "85" ∷ []) connected_slot
        ≡ percentage 85 with_brightness connected_slot)
unfolding is_digit
percent_commands_example =
    percent_commands some_libc b'8' (codes "5") [] connected_slot (refl, (refl, tt)) (omega arith)
