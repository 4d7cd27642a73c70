-- ===== src/Commands/Cli.antt =====
-- process_cli_command of dstx/src/commands.c: a call of the program with arguments.
pub mod Savable
pub mod Batch
pub mod Lines
use dstx.Common.{
  ℕ, zero, suc, ◌-◌, length, Bool, true, false, Option, none, some, List, [], ◌∷◌, ◌==◌, ltb, not,
  ◌&&◌, ◌||◌, get_or, set, drop, All, if◌then◌else◌,
}
use dstx.Common.Int.{ℤ, pos, negsuc, pos_part}
use dstx.Debounce.{max_slots}
use dstx.Bus.{BusSlot, empty_slot}
use dstx.Text.{Word, Libc, codes, same_text, starts_with, is_xdigit, atoi, strtol}
use dstx.Commands.{within}
use dstx.Commands.Slot.{cmd_color, slot_commands, find_command, execute_slot_command}

-- Whether a word begins a command of a batch.
unfoldable pub is_dashed : Word → Bool
is_dashed w = starts_with (codes "--") w

-- The words up to the next command, and those from it on.
unfoldable pub own_args : List Word → List Word
own_args [] = []
own_args (w ∷ words) = if is_dashed w then [] else w ∷ own_args words

unfoldable pub next_commands : List Word → List Word
next_commands [] = []
next_commands (w ∷ words) = if is_dashed w then w ∷ words else next_commands words

-- The loop of the batch mode, with `ret`; `none` is the end of the fuel.
unfoldable pub run_batch : Libc → (fuel : ℕ) → List Word → BusSlot → ℕ → Option (BusSlot × ℕ)
run_batch libc zero words s ret = none
run_batch libc (suc fuel) [] s ret = some (s, ret)
run_batch libc (suc fuel) (w ∷ words) s ret =
    let done = execute_slot_command libc (drop 2 w) (own_args words) s in
    let rest =
      run_batch libc fuel (next_commands words) done.0 (if done.1 == 0 then ret else done.1) in
    if is_dashed w then rest else some (s, 1)

-- Six hexadecimal digits.
unfoldable pub is_color : Word → Bool
is_color (a ∷ b ∷ c ∷ d ∷ e ∷ f ∷ []) =
    is_xdigit a && is_xdigit b && is_xdigit c && is_xdigit d && is_xdigit e && is_xdigit f
is_color w = false

-- A command without arguments, or a colour.
unfoldable pub run_simple : Libc → Word → BusSlot → BusSlot × ℕ
run_simple libc arg s =
    if is_color arg then cmd_color libc (arg ∷ []) s else execute_slot_command libc arg [] s

-- What the batch leaves; the fuel does not end.
unfoldable pub batch_result : Option (BusSlot × ℕ) → BusSlot → BusSlot × ℕ
batch_result none s = (s, 1)
batch_result (some r) s = r

-- What follows the number of the slot.
unfoldable pub run_slot : Libc → List Word → BusSlot → BusSlot × ℕ
unfolding run_simple batch_result
run_slot libc [] s = (s, 1)
run_slot libc (w ∷ []) s =
    if is_dashed w then batch_result (run_batch libc 2 (w ∷ []) s 0) s else run_simple libc w s
run_slot libc (w ∷ v ∷ words) s =
    let all = w ∷ v ∷ words in batch_result (run_batch libc (suc (length all)) all s 0) s

-- A request to the daemon: the arguments of profile_request_sync.
pub record Posted : Type 0 where
  pub request : ℤ
  pub name : Option Word
  pub auto_enable : ℤ
  pub auto_delay : ℤ

-- The requests that a command makes, if any; the answer decides on the exit code.
abbrev ask : ℤ → Option Word → ℤ → ℤ → Bool → List Posted × ℕ
ask request name auto_enable auto_delay ok = (
  record { request = request; name = name; auto_enable = auto_enable; auto_delay = auto_delay }
      ∷ [],
  if ok then 0 else 1,
)

-- The request for each subcommand with a name.
unfoldable pub profile_request : Word → Option ℤ
profile_request sub =
    if same_text sub (codes "load")
    then some (pos 1)
    else if same_text sub (codes "save")
    then some (pos 2)
    else if same_text sub (codes "delete")
    then some (pos 3)
    else none

unfoldable pub named_request : Option ℤ → List Word → Bool → List Posted × ℕ
named_request none args ok = ([], 1)
named_request (some req) [] ok = ([], 1)
named_request (some req) (name ∷ args) ok = ask req (some name) (negsuc 0) (negsuc 0) ok

unfoldable pub cmd_profile : List Word → Bool → List Posted × ℕ
unfolding named_request profile_request
cmd_profile [] ok = ([], 1)
cmd_profile (sub ∷ args) ok =
    if same_text sub (codes "list")
    then ask (pos 4) none (negsuc 0) (negsuc 0) ok
    else named_request (profile_request sub) args ok

unfoldable pub delay_request : Libc → List Word → Bool → List Posted × ℕ
delay_request libc [] ok = ([], 1)
delay_request libc (a ∷ args) ok =
    let delay = atoi libc a in
    if within 10000 delay && not (within 99 delay)
    then ask (pos 5) none (negsuc 0) delay ok
    else ([], 1)

unfoldable pub cmd_auto_save : Libc → List Word → Bool → List Posted × ℕ
unfolding delay_request
cmd_auto_save libc [] ok = ([], 1)
cmd_auto_save libc (sub ∷ args) ok =
    if same_text sub (codes "on")
    then ask (pos 5) none (pos 1) (negsuc 0) ok
    else if same_text sub (codes "off")
    then ask (pos 5) none (pos 0) (negsuc 0) ok
    else if same_text sub (codes "delay")
    then delay_request libc args ok
    else ([], 1)

unfoldable pub is_help : Word → Bool
is_help w = same_text w (codes "help") || same_text w (codes "--help") || same_text w (codes "-h")

-- The global commands: the requests that they make, and the exit code.
unfoldable pub run_global : Libc → Word → List Word → Bool → List Posted × ℕ
run_global libc first args ok =
    if same_text first (codes "slots")
    then ([], 0)
    else if same_text first (codes "profile")
    then cmd_profile args ok
    else if same_text first (codes "auto-save")
    then cmd_auto_save libc args ok
    else ([], 1)

-- The arguments without a `--wait` at their end.
unfoldable pub without_wait : List Word → List Word
without_wait [] = []
without_wait (w ∷ []) = if same_text w (codes "--wait") then [] else w ∷ []
without_wait (w ∷ v ∷ words) = w ∷ without_wait (v ∷ words)

-- The number of a slot, if the whole word is one.
unfoldable pub slot_number : Word → Option ℕ
slot_number first =
    let r = strtol first in
    if same_text r.1 [] && within (max_slots - 1) r.0 then some (pos_part r.0) else none

-- What a call leaves: the slots, the requests, and the exit code.
pub record Exit : Type 0 where
  pub slots : List BusSlot
  pub posted : List Posted
  pub code : ℕ

unfoldable pub on_slot : Libc → ℕ → List Word → List BusSlot → Exit
on_slot libc i words slots =
    let s = get_or slots i empty_slot in
    let r = run_slot libc words s in
    if s.slot.connected
    then record { slots = set slots i r.0; posted = []; code = r.1 }
    else record { slots = slots; posted = []; code = 1 }

-- A command for a slot, or a global one.
unfoldable pub dispatch :
    Libc → Option ℕ → (first : Word) → List Word → (ok : Bool) → List BusSlot → Exit
unfolding on_slot
dispatch libc none first args ok slots =
    let global = run_global libc first args ok in
    record { slots = slots; posted = global.0; code = global.1 }
dispatch libc (some i) first args ok slots = on_slot libc i args slots

-- The word `first` and those behind it; `ready` is that the shared memory can be opened, has its
-- magic number, and belongs to a daemon that is alive; `ok` is the answer to a request. The last
-- argument's `--wait` is dropped before the first word is looked at, which may be that argument.
unfoldable pub process_cli_command :
    Libc → (ready ok : Bool) → (first : Word) → List Word → List BusSlot → Exit
unfolding dispatch
process_cli_command libc ready ok first words slots =
    if not ready
    then record { slots = slots; posted = []; code = 1 }
    else if is_help first
    then record { slots = slots; posted = []; code = 0 }
    else dispatch libc (slot_number first) first (without_wait words) ok slots
