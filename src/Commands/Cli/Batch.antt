-- ===== src/Commands/Cli/Batch.antt =====
-- The batch mode of dstx/src/commands.c, against a list of commands with their arguments.
use dstx.Common.{
  ℕ, zero, suc, ◌≤◌, ◌<◌, ◌≡◌, ◌∙◌, refl, ap, length, true, false, some, List, [], ◌∷◌, ◌++◌, ◌==◌,
  length-append, All, arith, if_true, if_false, if◌then◌else◌,
}
use dstx.Bus.{BusSlot}
use dstx.Text.{Word, Libc, starts_with}
use dstx.Commands.Slot.{execute_slot_command}
use dstx.Commands.Cli.{is_dashed, own_args, next_commands, run_batch}

-- A command with its arguments.
pub record Command : Type 0 where
  pub name : Word
  pub args : List Word

-- Each command in turn, on what the one before left; the exit code is that of the last that failed.
unfoldable pub run_all : Libc → List Command → BusSlot → ℕ → BusSlot × ℕ
run_all libc [] s ret = (s, ret)
run_all libc (c ∷ commands) s ret =
    let done = execute_slot_command libc c.name c.args s in
    run_all libc commands done.0 (if done.1 == 0 then ret else done.1)

-- The words of a command line.
abbrev pub dashed : Word → Word
dashed name = b'-' ∷ b'-' ∷ name

unfoldable pub command_line : List Command → List Word
command_line [] = []
command_line (c ∷ commands) = dashed c.name ∷ (c.args ++ command_line commands)

-- Words that begin no command.
abbrev pub IsArgs : List Word → Type 0
IsArgs words = All (λ w. is_dashed w ≡ false) words

IsHead : List Word → Type 0
IsHead [] = Unit
IsHead (w ∷ words) = is_dashed w ≡ true

command_line-IsHead : (commands : List Command) → IsHead (command_line commands)
unfolding command_line IsHead is_dashed starts_with
command_line-IsHead [] = tt
command_line-IsHead (c ∷ commands) = refl

own_args-append :
    (args rest : List Word) → IsArgs args → IsHead rest → own_args (args ++ rest) ≡ args
unfolding own_args IsHead
own_args-append [] [] h k = refl
own_args-append [] (w ∷ rest) h k = if_true [] _ k
own_args-append (a ∷ args) rest h k =
    if_false [] _ h.0 ∙ ap (λ xs. a ∷ xs) (own_args-append args rest h.1 k)

next_commands-append :
    (args rest : List Word) → IsArgs args → IsHead rest → next_commands (args ++ rest) ≡ rest
unfolding next_commands IsHead
next_commands-append [] [] h k = refl
next_commands-append [] (w ∷ rest) h k = if_true (w ∷ rest) _ k
next_commands-append (a ∷ args) rest h k =
    if_false (a ∷ (args ++ rest)) _ h.0 ∙ next_commands-append args rest h.1 k

length-next_commands : (words : List Word) → length (next_commands words) ≤ length words
unfolding next_commands
length-next_commands [] = omega arith
length-next_commands (w ∷ words) = ground (arith, length-next_commands words)

-- Enough fuel for the words.
pub run_batch-command_line :
    (libc : Libc) (fuel : ℕ) (commands : List Command) (s : BusSlot) (ret : ℕ)
    → length (command_line commands) < fuel
    → All (λ (c : Command). IsArgs c.args) commands
    → run_batch libc fuel (command_line commands) s ret ≡ some (run_all libc commands s ret)
unfolding run_batch run_all command_line is_dashed starts_with
run_batch-command_line libc zero commands s ret lt all = elim lt [ ]
run_batch-command_line libc (suc fuel) [] s ret lt all = refl
run_batch-command_line libc (suc fuel) (c ∷ commands) s ret lt all =
    let rest = command_line commands in
    let head = command_line-IsHead commands in
    rw (own_args-append c.args rest all.0 head) (
      rw (next_commands-append c.args rest all.0 head) (
        run_batch-command_line libc fuel commands _ _ (omega (arith, length-append c.args rest, lt))
          all.1))
