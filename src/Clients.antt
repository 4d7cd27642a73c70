-- ===== src/Clients.antt =====
-- The three clients that write to the slots of the shared memory: the D-Bus bridge
-- (dstx/src/dbus-handlers.c), the command line (dstx/src/commands.c) and the terminal interface
-- (dstx/src/ui.c). Their calls are taken one after another.
pub mod Requests
use dstx.Common.{
  ℕ, ◌<◌, ◌≡◌, ◌∙◌, Bool, false, Option, none, some, List, [], ◌∷◌, get_or, length-set, All,
  All-set, arith,
}
use dstx.Controller.Config.{SlotConfig, controller_to_slot_config}
use dstx.Debounce.{max_slots}
use dstx.Profiles.Json.{CJson, save_slot, load_slot}
use dstx.Profiles.Json.RoundTrip.{load_slot-save_slot}
use dstx.Bus.{BusSlot, empty_slot, handle}
use dstx.Bus.Written.{
  Call, HasRange, IsSavable, IsSavableSlot, AreSavable, element, handle-AreSavable,
}
use dstx.Text.{Word, Libc}
use dstx.Commands.Cli.{process_cli_command}
use dstx.Commands.Cli.Savable.{process_cli_command-AreSavable}
use dstx.Console.Lines.{line_for}
use dstx.Console.{slot_line}
use dstx.Console.Kept.{IsTame, slot_line-IsSavable}
use dstx.Startup.{start_slots, start_slots-AreSavable}

pub data Client : Type 0 where
  bus : (call : Call) → Client
  cli : (ready ok : Bool) (first : Word) (words : List Word) → Client
  interface : (shown : Option ℕ) (line : Word) → Client

unfoldable pub serve : Libc → Client → List BusSlot → List BusSlot
serve libc (bus call) slots = (handle call.opens call.slot_number call.method slots).0
serve libc (cli ready ok first words) slots =
    (process_cli_command libc ready ok first words slots).slots
serve libc (interface shown line) slots = line_for libc shown line slots

unfoldable pub serve_all : Libc → List Client → List BusSlot → List BusSlot
serve_all libc [] slots = slots
serve_all libc (c ∷ clients) slots = serve_all libc clients (serve libc c slots)

-- The bridge and the interface do not check the numbers of an effect.
abbrev pub IsAllowed : Libc → Client → Type 0
IsAllowed libc (bus call) = HasRange call.method
IsAllowed libc (cli ready ok first words) = Unit
IsAllowed libc (interface none line) = Unit
IsAllowed libc (interface (some i) line) = (i < max_slots) × IsTame libc line

serve-AreSavable :
    (libc : Libc) (c : Client) (slots : List BusSlot)
    → IsAllowed libc c
    → AreSavable slots
    → AreSavable (serve libc c slots)
unfolding serve line_for
serve-AreSavable libc (bus call) slots allowed h =
    handle-AreSavable call.opens call.slot_number call.method slots allowed h
serve-AreSavable libc (cli ready ok first words) slots allowed h =
    process_cli_command-AreSavable libc ready ok first words slots h
serve-AreSavable libc (interface none line) slots allowed h = h
serve-AreSavable libc (interface (some i) line) slots allowed h =
    let s = get_or slots i empty_slot in
    let written = slot_line libc line s in
    (
      length-set slots i written ∙ h.0,
      All-set IsSavableSlot slots i written h.1 (
          slot_line-IsSavable libc line s allowed.1
            (element slots i (omega (arith, h.0, allowed.0)) h.1)),
    )

serve_all-AreSavable :
    (libc : Libc) (clients : List Client) (slots : List BusSlot)
    → All (IsAllowed libc) clients
    → AreSavable slots
    → AreSavable (serve_all libc clients slots)
unfolding serve_all
serve_all-AreSavable libc [] slots allowed h = h
serve_all-AreSavable libc (c ∷ clients) slots allowed h =
    serve_all-AreSavable libc clients (serve libc c slots) allowed.1
      (serve-AreSavable libc c slots allowed.0 h)

-- From the start of the daemon on, any interleaving of calls of the bridge, of the command line with
-- any arguments, and of lines of the terminal interface keeps the configuration of every slot in
-- range, if the effects that the bridge and the interface ask for are: each configuration, saved into a
-- profile and loaded over any slot, comes back whole. The memory before the start was zeroed, or its
-- configurations were in range.
pub serve_all-saved :
    (json : CJson) (libc : Libc) (dirty : Bool) (clients : List Client) (slots : List BusSlot)
    → (old : SlotConfig) (i : ℕ) → (dirty ≡ false → AreSavable slots)
    → All (IsAllowed libc) clients
    → i < max_slots
    → let after = serve_all libc clients (start_slots dirty slots) in
      let config = controller_to_slot_config (get_or after i empty_slot).slot in
      load_slot json (save_slot json config) old ≡ config
unfolding IsSavable
serve_all-saved json libc dirty clients slots old i before allowed lt =
    let after = serve_all libc clients (start_slots dirty slots) in
    let good =
      serve_all-AreSavable libc clients (start_slots dirty slots) allowed
        (start_slots-AreSavable dirty slots before) in
    load_slot-save_slot json (controller_to_slot_config (get_or after i empty_slot).slot) old
      (element after i (omega (arith, good.0, lt)) good.1)
