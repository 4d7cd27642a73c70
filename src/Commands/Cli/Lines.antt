-- ===== src/Commands/Cli/Lines.antt =====
-- Whole command lines of dstx/src/commands.c: a batch of commands for a slot, and the form that the
-- help text gives.
use dstx.Common.{
  ℕ, zero, suc, ◌+◌, ◌<◌, ◌≡◌, ◌∙◌, refl, ap, length, Bool, true, false, some, List, [], ◌∷◌, ◌++◌,
  get_or, set, All, arith, if_true, if_cases,
}
use dstx.Debounce.{max_slots}
use dstx.Bus.{BusSlot, empty_slot}
use dstx.Text.{
  Word, Libc, codes, same_text, strtol, decimal, skip_spaces, is_space, split_sign,
  unsigned_decimal, is_digit, scan_digits, signed, clamp_long,
}
use dstx.Commands.{within}
use dstx.Commands.Cli.{
  is_dashed, run_batch, run_slot, batch_result, is_help, without_wait, slot_number, on_slot,
  dispatch, process_cli_command,
}
use dstx.Commands.Cli.Batch.{Command, run_all, dashed, command_line, IsArgs, run_batch-command_line}

-- The number of a slot, as a word.
abbrev pub digit : ℕ → Word
digit i = (b'0' + i) ∷ []

slot_number-digit : (i : ℕ) → i < max_slots → slot_number (digit i) ≡ some i
unfolding slot_number strtol decimal skip_spaces is_space split_sign unsigned_decimal is_digit
    scan_digits signed clamp_long same_text within
slot_number-digit zero lt = refl
slot_number-digit (suc zero) lt = refl
slot_number-digit (suc (suc zero)) lt = refl
slot_number-digit (suc (suc (suc zero))) lt = refl
slot_number-digit (suc (suc (suc (suc i)))) lt = absurd (omega arith)

is_help-digit : (i : ℕ) → i < max_slots → is_help (digit i) ≡ false
unfolding is_help same_text
is_help-digit zero lt = refl
is_help-digit (suc zero) lt = refl
is_help-digit (suc (suc zero)) lt = refl
is_help-digit (suc (suc (suc zero))) lt = refl
is_help-digit (suc (suc (suc (suc i)))) lt = absurd (omega arith)

process-digit :
    (libc : Libc) (ok : Bool) (i : ℕ) (words : List Word) (slots : List BusSlot)
    → i < max_slots
    → process_cli_command libc true ok (digit i) words slots
      ≡ on_slot libc i (without_wait words) slots
unfolding process_cli_command dispatch
process-digit libc ok i words slots lt = rw (is_help-digit i lt) (rw (slot_number-digit i lt) refl)

run_slot_dashed :
    (libc : Libc) (w : Word) (words : List Word) (s : BusSlot)
    → is_dashed w ≡ true
    → run_slot libc (w ∷ words) s
      ≡ batch_result (run_batch libc (suc (length (w ∷ words))) (w ∷ words) s 0) s
unfolding run_slot
run_slot_dashed libc w [] s h = if_true _ _ h
run_slot_dashed libc w (v ∷ words) s h = refl

run_slot-command_line :
    (libc : Libc) (c : Command) (commands : List Command) (s : BusSlot)
    → All (λ (x : Command). IsArgs x.args) (c ∷ commands)
    → run_slot libc (command_line (c ∷ commands)) s ≡ run_all libc (c ∷ commands) s 0
unfolding command_line batch_result is_dashed dstx.Text.starts_with
run_slot-command_line libc c commands s all =
    run_slot_dashed libc (dashed c.name) (c.args ++ command_line commands) s refl
    ∙ ap (λ o. batch_result o s)
        (run_batch-command_line libc (suc (length (command_line (c ∷ commands)))) (c ∷ commands) s 0
          (omega arith) all)

-- A batch runs its commands: a call with the number of a connected slot and one or more commands,
-- each with `--` before its name and with arguments that do not begin with `--`, executes them one
-- after another, each on the slot that the one before left, and its exit code is that of the last
-- command that failed, or 0; if the call does not end in `--wait`. No other slot changes, and no
-- request is posted.
pub process_cli_command-run_all :
    (libc : Libc) (ok : Bool) (i : ℕ) (c : Command) (commands : List Command) (slots : List BusSlot)
    → i < max_slots
    → (get_or slots i empty_slot).slot.connected ≡ true
    → All (λ (x : Command). IsArgs x.args) (c ∷ commands)
    → without_wait (command_line (c ∷ commands)) ≡ command_line (c ∷ commands)
    → let done = run_all libc (c ∷ commands) (get_or slots i empty_slot) 0 in
      process_cli_command libc true ok (digit i) (command_line (c ∷ commands)) slots
      ≡ record { slots = set slots i done.0; posted = []; code = done.1 }
unfolding on_slot
process_cli_command-run_all libc ok i c commands slots lt connected all no_wait =
    process-digit libc ok i (command_line (c ∷ commands)) slots lt
    ∙ rw no_wait (
        rw connected
          (rw (run_slot-command_line libc c commands (get_or slots i empty_slot) all) refl))

set-get_or : (slots : List BusSlot) (i : ℕ) → set slots i (get_or slots i empty_slot) ≡ slots
set-get_or [] i = refl
set-get_or (s ∷ slots) zero = refl
set-get_or (s ∷ slots) (suc i) = ap (λ xs. s ∷ xs) (set-get_or slots i)

-- The form of the help text, `dstx <slot> <command> [args]`, never works with an argument: a call
-- for a slot with two words or more, `--wait` aside, the first of which does not begin with `--`,
-- fails, changes no slot and posts no request.
pub process_cli_command-undashed :
    (libc : Libc) (ok : Bool) (i : ℕ) (words : List Word) (name arg : Word) (args : List Word)
    → (slots : List BusSlot) → i < max_slots
    → without_wait words ≡ name ∷ arg ∷ args
    → is_dashed name ≡ false
    → process_cli_command libc true ok (digit i) words slots
      ≡ record { slots = slots; posted = []; code = 1 }
unfolding on_slot run_slot run_batch batch_result
process_cli_command-undashed libc ok i words name arg args slots lt stripped plain =
    process-digit libc ok i words slots lt
    ∙ rw stripped (
        rw plain (
          rw (set-get_or slots i) (
            if_cases (λ x. x ≡ record { slots = slots; posted = []; code = 1 })
              (get_or slots i empty_slot).slot.connected (λ e. refl) (λ e. refl))))
