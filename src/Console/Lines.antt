-- ===== src/Console/Lines.antt =====
-- The line that is entered in the terminal interface of dstx/src/ui.c: which command it is, and what
-- that does. The texts that are shown are left out.
use dstx.Common.{
  ℕ, zero, suc, Option, none, some, List, [], ◌∷◌, not, ◌&&◌, ◌||◌, drop, get_or, set,
  if◌then◌else◌,
}
use dstx.Common.Int.{ℤ, pos, negsuc}
use dstx.Bus.{BusSlot, empty_slot}
use dstx.Text.{Word, Libc, codes, same_text, starts_with, is_space, skip_spaces, scan_int}
use dstx.Commands.{within}
use dstx.Commands.Cli.{Posted, profile_request}
use dstx.Console.{slot_line}

-- Up to a number of bytes that are no spaces, and what follows them.
unfoldable pub take_word : ℕ → Word → Word × Word
take_word zero s = ([], s)
take_word (suc n) [] = ([], [])
take_word (suc n) (c ∷ s) =
    let rest = take_word n s in if is_space c then ([], c ∷ s) else (c ∷ rest.0, rest.1)

-- `%31s` and the like; it needs a byte.
unfoldable pub scan_word : ℕ → Word → Option (Word × Word)
scan_word n s = let r = take_word n (skip_spaces s) in if same_text r.0 [] then none else some r

-- What a line is, in the order of the tests; the profile command has what follows its name.
pub data Entered : Type 0 where
  quit info profiles start stop setup help : Entered
  profile : (rest : Word) → Entered
  auto_save : (line : Word) → Entered
  for_slot : (line : Word) → Entered

unfoldable pub entered : Word → Entered
entered line =
    if same_text line (codes "exit") || same_text line (codes "q")
    then quit
    else if same_text line (codes "info")
    then info
    else if same_text line (codes "profiles")
    then profiles
    else if same_text line (codes "start")
    then start
    else if same_text line (codes "stop")
    then stop
    else if same_text line (codes "setup")
    then setup
    else if same_text line (codes "help")
    then help
    else if starts_with (codes "profile ") line
    then profile (drop 8 line)
    else if starts_with (codes "auto-save") line
    then auto_save line
    else for_slot line

abbrev post : ℤ → Option Word → ℤ → ℤ → List Posted
post request name auto_enable auto_delay =
    record { request = request; name = name; auto_enable = auto_enable; auto_delay = auto_delay }
    ∷ []

unfoldable pub list_or_none : Word → List Posted
list_or_none subcmd =
    if same_text subcmd (codes "list") then post (pos 4) none (negsuc 0) (negsuc 0) else []

unfoldable pub named_post : Option ℤ → Word → List Posted
named_post none arg = []
named_post (some req) arg = post req (some arg) (negsuc 0) (negsuc 0)

-- A subcommand with its name, if there is one.
unfoldable pub profile_named : Word → Option (Word × Word) → List Posted
unfolding list_or_none
profile_named subcmd none = list_or_none subcmd
profile_named subcmd (some arg) =
    if same_text subcmd (codes "list")
    then list_or_none subcmd
    else named_post (profile_request subcmd) arg.0

-- `subcmd` and `arg` have room for 31 and 63 bytes. Where sscanf reads no word, `subcmd` is not
-- initialised: the first argument is what it holds then.
unfoldable pub profile_words : Word → Option (Word × Word) → List Posted
unfolding list_or_none profile_named named_post
profile_words left_over none = list_or_none left_over
profile_words left_over (some r) = profile_named r.0 (scan_word 63 r.1)

unfoldable pub profile_line : Word → Word → List Posted
profile_line left_over rest = profile_words left_over (scan_word 31 rest)

unfoldable pub delay_post : Option (ℤ × Word) → List Posted
delay_post none = []
delay_post (some r) =
    if within 10000 r.0 && not (within 99 r.0) then post (pos 5) none (negsuc 0) r.0 else []

-- sscanf(cmd_line, "auto-save delay %d", &delay)
unfoldable pub scan_delay : Libc → Word → Option (ℤ × Word)
scan_delay libc line =
    let rest = skip_spaces (drop 9 line) in
    if starts_with (codes "delay") rest then scan_int libc (drop 5 rest) else none

unfoldable pub auto_save_line : Libc → Word → List Posted
unfolding delay_post
auto_save_line libc line =
    if same_text line (codes "auto-save on")
    then post (pos 5) none (pos 1) (negsuc 0)
    else if same_text line (codes "auto-save off")
    then post (pos 5) none (pos 0) (negsuc 0)
    else delay_post (scan_delay libc line)

-- A line for the slot that is shown.
unfoldable pub line_for : Libc → Option ℕ → Word → List BusSlot → List BusSlot
line_for libc none line slots = slots
line_for libc (some i) line slots = set slots i (slot_line libc line (get_or slots i empty_slot))
