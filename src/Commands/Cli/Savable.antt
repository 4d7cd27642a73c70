-- ===== src/Commands/Cli/Savable.antt =====
-- What a call of process_cli_command in dstx/src/commands.c leaves of the ranges of the slots.
use dstx.Common.{
  ℕ, zero, suc, ◌-◌, ◌<◌, ◌≡◌, ◌∙◌, refl, length, Bool, Option, none, some, List, [], ◌∷◌, ◌==◌,
  not, drop, get_or, length-set, All-set, arith, if_cases, if◌then◌else◌,
}
use dstx.Debounce.{max_slots}
use dstx.Bus.{BusSlot, empty_slot}
use dstx.Bus.Written.{IsSavable, IsSavableSlot, AreSavable, element}
use dstx.Text.{Word, Libc, strtol}
use dstx.Commands.Slot.{execute_slot_command}
use dstx.Commands.Ranges.{within-le}
use dstx.Commands.Kept.{cmd_color-IsKeeping, execute_slot_command-IsKeeping}
use dstx.Commands.Cli.{
  is_dashed, own_args, next_commands, run_batch, run_simple, batch_result, run_slot, Exit, is_help,
  without_wait, slot_number, on_slot, dispatch, process_cli_command,
}

abbrev IsGood : Option (BusSlot × ℕ) → Type 0
IsGood none = Unit
IsGood (some r) = IsSavable r.0.slot

run_batch-IsGood :
    (libc : Libc) (fuel : ℕ) (words : List Word) (s : BusSlot) (ret : ℕ)
    → IsSavable s.slot
    → IsGood (run_batch libc fuel words s ret)
unfolding run_batch
run_batch-IsGood libc zero words s ret h = tt
run_batch-IsGood libc (suc fuel) [] s ret h = h
run_batch-IsGood libc (suc fuel) (w ∷ words) s ret h =
    let done = execute_slot_command libc (drop 2 w) (own_args words) s in
    let kept = execute_slot_command-IsKeeping libc (drop 2 w) (own_args words) s h in
    if_cases IsGood (is_dashed w)
      (λ e.
        run_batch-IsGood libc fuel (next_commands words) done.0
          (if done.1 == 0 then ret else done.1) kept)
      (λ e. h)

batch_result-IsSavable :
    (o : Option (BusSlot × ℕ)) (s : BusSlot)
    → IsSavable s.slot
    → IsGood o
    → IsSavable (batch_result o s).0.slot
unfolding batch_result
batch_result-IsSavable none s h good = h
batch_result-IsSavable (some r) s h good = good

run_slot-IsSavable :
    (libc : Libc) (words : List Word) (s : BusSlot)
    → IsSavable s.slot
    → IsSavable (run_slot libc words s).0.slot
unfolding run_slot run_simple
run_slot-IsSavable libc [] s h = h
run_slot-IsSavable libc (w ∷ []) s h = ground (
  arith,
  batch_result-IsSavable (run_batch libc 2 (w ∷ []) s 0) s h
      (run_batch-IsGood libc 2 (w ∷ []) s 0 h),
  cmd_color-IsKeeping libc (w ∷ []) s h,
  execute_slot_command-IsKeeping libc w [] s h,
)
run_slot-IsSavable libc (w ∷ v ∷ words) s h =
    batch_result-IsSavable (run_batch libc (suc (length (w ∷ v ∷ words))) (w ∷ v ∷ words) s 0) s h
      (run_batch-IsGood libc (suc (length (w ∷ v ∷ words))) (w ∷ v ∷ words) s 0 h)

-- The number of a slot is one of the four.
slot_number-lt : (first : Word) (i : ℕ) → slot_number first ≡ some i → i < max_slots
unfolding slot_number
slot_number-lt first i h = ground (arith, within-le (max_slots - 1) (strtol first).0)

on_slot-AreSavable :
    (libc : Libc) (i : ℕ) (words : List Word) (slots : List BusSlot)
    → i < max_slots
    → AreSavable slots
    → AreSavable (on_slot libc i words slots).slots
unfolding on_slot
on_slot-AreSavable libc i words slots lt h =
    let s = get_or slots i empty_slot in
    let r = run_slot libc words s in
    let kept = run_slot-IsSavable libc words s (element slots i (omega (arith, h.0, lt)) h.1) in
    if_cases (λ (x : Exit). AreSavable x.slots) s.slot.connected
      (λ e. (length-set slots i r.0 ∙ h.0, All-set IsSavableSlot slots i r.0 h.1 kept)) (λ e. h)

dispatch-AreSavable :
    (libc : Libc) (o : Option ℕ) (first : Word)
    → slot_number first ≡ o
    → (args : List Word) (ok : Bool) (slots : List BusSlot) → AreSavable slots
    → AreSavable (dispatch libc o first args ok slots).slots
unfolding dispatch
dispatch-AreSavable libc none first e args ok slots h = h
dispatch-AreSavable libc (some i) first e args ok slots h =
    on_slot-AreSavable libc i args slots (slot_number-lt first i e) h

-- Any call of the program keeps the configuration of every slot in range, whatever its arguments.
pub process_cli_command-AreSavable :
    (libc : Libc) (ready ok : Bool) (first : Word) (words : List Word) (slots : List BusSlot)
    → AreSavable slots
    → AreSavable (process_cli_command libc ready ok first words slots).slots
unfolding process_cli_command
process_cli_command-AreSavable libc ready ok first words slots h =
    let args = without_wait words in
    let P : Exit → Type 0 = λ x. AreSavable x.slots in
    if_cases P (not ready) (λ e. h)
      (λ is_ready.
        if_cases P (is_help first) (λ e. h)
          (λ e. dispatch-AreSavable libc (slot_number first) first refl args ok slots h))
