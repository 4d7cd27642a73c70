-- ===== src/Console/Keys.antt =====
-- The keys of the terminal interface, in run_ui_loop of dstx/src/ui.c: the modes, the line that is
-- being typed, and the arrows. Each byte of the input is a step; the reads behind an escape wait for
-- the next two.
pub mod Typed
pub mod Whole
use dstx.Common.{
  ℕ, zero, suc, ◌+◌, ◌-◌, Bool, true, false, Option, none, some, List, [], ◌∷◌, ◌++◌, ◌==◌, ltb,
  leb, not, ◌&&◌, ◌||◌, length, if◌then◌else◌,
}
use dstx.Common.Int.{ℤ, pos, negsuc, eqb_ℤ}
use dstx.Bus.{BusSlot}
use dstx.Text.{Word, Libc}
use dstx.Commands.Cli.{Posted}
use dstx.Console.Select.{Seat, update_and_get_slot_idx, arrow, current_idx, selected_after}
use dstx.Console.Lines.{
  Entered, quit, info, profiles, start, stop, setup, help, profile, auto_save, for_slot, entered,
  profile_line, auto_save_line, line_for,
}

-- MY_MAX_INPUT and TOTAL_HELP_PAGES
abbrev pub max_input : ℕ
max_input = 256

abbrev pub total_help_pages : ℕ
total_help_pages = 4

-- What a round has found before it reads a key: whether the shared memory is mapped and the daemon
-- alive, and the copy of the slots; and the answer to a request, whether it has a text, and what an
-- array holds that is not initialised.
pub record Sight : Type 0 where
  pub mapped : Bool
  pub alive : Bool
  pub seats : List Seat
  pub answer : Bool
  pub has_text : Bool
  pub left_over : Word

-- How much of an escape sequence was read, in a round that saw the slots so and showed one.
pub data Escape : Type 0 where
  idle : Escape
  escaped : (sight : Sight) (shown : Option ℕ) → Escape
  bracket : (seq : ℕ) (sight : Sight) (shown : Option ℕ) → Escape

-- What is run besides: the service, and the script.
pub data Job : Type 0 where
  start_service stop_service run_setup : Job

pub record Console : Type 0 where
  pub line : Word
  pub help_mode : Bool
  pub help_page : ℕ
  pub info_mode : Bool
  pub list_mode : Bool
  pub keep_running : Bool
  pub escape : Escape
  pub selected : Option ℕ

-- The slots in the shared memory, and what was done so far, the last first.
pub record World : Type 0 where
  pub slots : List BusSlot
  pub posted : List Posted
  pub jobs : List Job

-- A request reaches the memory if it is mapped.
abbrev pub send : Sight → List Posted → World → World
send sight requests w = if sight.mapped then record w { posted = requests ++ w.posted } else w

unfoldable pub list_request : List Posted
list_request =
    record { request = pos 4; name = none; auto_enable = negsuc 0; auto_delay = negsuc 0 } ∷ []

is_list : List Posted → Bool
is_list [] = false
is_list (p ∷ more) = eqb_ℤ p.request (pos 4)

-- What a line does.
unfoldable pub enter_as : Libc → Sight → Option ℕ → Entered → Console → World → Console × World
unfolding list_request is_list
enter_as libc sight shown quit c w = (record c { keep_running = false }, w)
enter_as libc sight shown info c w = (record c { info_mode = true }, w)
enter_as libc sight shown profiles c w = (
  if sight.mapped && sight.answer && sight.has_text then record c { list_mode = true } else c,
  send sight list_request w,
)
enter_as libc sight shown start c w = (c, record w { jobs = start_service ∷ w.jobs })
enter_as libc sight shown stop c w =
    (record c { selected = none }, record w { jobs = stop_service ∷ w.jobs })
enter_as libc sight shown setup c w = (c, record w { jobs = run_setup ∷ w.jobs })
enter_as libc sight shown help c w = (record c { help_mode = true; help_page = 0 }, w)
enter_as libc sight shown (profile rest) c w =
    let requests = profile_line sight.left_over rest in
    (
      if is_list requests && sight.has_text then record c { list_mode = true } else c,
      send sight requests w,
    )
enter_as libc sight shown (auto_save line) c w = (c, send sight (auto_save_line libc line) w)
enter_as libc sight shown (for_slot line) c w =
    (c, record w { slots = line_for libc shown line w.slots })

-- The end of a line, which is empty afterwards.
unfoldable pub enter : Libc → Sight → Option ℕ → Console → World → Console × World
unfolding enter_as
enter libc sight shown c w =
    let r = enter_as libc sight shown (entered c.line) c w in (record (r.0) { line = [] }, r.1)

unfoldable pub is_print : ℕ → Bool
is_print b = leb 32 b && leb b 126

-- The line without its last byte.
unfoldable pub init : Word → Word
init [] = []
init (b ∷ []) = []
init (b ∷ d ∷ s) = b ∷ init (d ∷ s)

unfoldable pub is_empty : Word → Bool
is_empty [] = true
is_empty (b ∷ s) = false

-- A byte outside the modes that is not an escape.
unfoldable pub edit : Libc → Sight → Option ℕ → ℕ → Console → World → Console × World
edit libc sight shown b c w =
    if b == 10 || b == 13
    then if is_empty c.line then (c, w) else enter libc sight shown c w
    else if (b == 127 || b == 8) && not (is_empty c.line)
    then (record c { line = init c.line }, w)
    else if ltb (length c.line) (max_input - 1) && is_print b
    then (record c { line = c.line ++ (b ∷ []) }, w)
    else (c, w)

-- The last byte of an escape sequence: the pages of the help, or the slots. Outside the help the byte
-- behind the escape is not looked at.
unfoldable pub turn_page : ℕ → ℕ → ℕ → ℕ
turn_page seq b page =
    if seq == b'['
    then if b == b'C'
      then if ltb (page + 1) total_help_pages then page + 1 else page
      else if b == b'D'
      then page - 1
      else page
    else page

unfoldable pub press_arrow : Sight → Option ℕ → ℕ → Option ℕ → Option ℕ
press_arrow sight shown b selected =
    if (b == b'C' || b == b'D') && sight.mapped
    then selected_after sight.seats (arrow (b == b'C') sight.seats (current_idx shown)) selected
    else selected

unfoldable pub end_escape : Sight → Option ℕ → ℕ → ℕ → Console → Console
end_escape sight shown seq b c =
    if c.help_mode
    then record c { escape = idle; help_page = turn_page seq b c.help_page }
    else record c { escape = idle; selected = press_arrow sight shown b c.selected }

-- The slot that a round shows, and the path that is selected then.
unfoldable pub show_slot : Sight → Option ℕ → Option ℕ × Option ℕ
show_slot sight selected =
    if sight.mapped && sight.alive
    then update_and_get_slot_idx sight.seats selected
    else (none, selected)

-- A byte that begins a round, which shows a slot.
unfoldable pub first_byte : Libc → Sight → Option ℕ → ℕ → Console → World → Console × World
first_byte libc sight shown b c w =
    if c.help_mode
    then if b == 27
      then (record c { escape = escaped sight shown }, w)
      else (record c { help_mode = false }, w)
    else if c.info_mode
    then (record c { info_mode = false }, w)
    else if c.list_mode
    then (record c { list_mode = false }, w)
    else if b == 27
    then (record c { escape = escaped sight shown }, w)
    else edit libc sight shown b c w

unfoldable pub read_byte : Libc → Sight → ℕ → Escape → Console → World → Console × World
read_byte libc sight b idle c w =
    let now = show_slot sight c.selected in
    first_byte libc sight now.0 b (record c { selected = now.1 }) w
read_byte libc sight b (escaped seen shown) c w = (record c { escape = bracket b seen shown }, w)
read_byte libc sight b (bracket seq seen shown) c w = (end_escape seen shown seq b c, w)

unfoldable pub step : Libc → Sight → ℕ → Console → World → Console × World
unfolding read_byte
step libc sight b c w = read_byte libc sight b c.escape c w

-- A sequence of bytes, each with what its round has found. Nothing is read once the loop has ended.
unfoldable pub run_keys : Libc → List (Sight × ℕ) → Console → World → Console × World
run_keys libc [] c w = (c, w)
run_keys libc (k ∷ keys) c w =
    let r = step libc k.0 k.1 c w in
    let rest = run_keys libc keys r.0 r.1 in if c.keep_running then rest else (c, w)

abbrev pub start_console : Console
start_console = record {
  line = [];
  help_mode = false;
  help_page = 0;
  info_mode = false;
  list_mode = false;
  keep_running = true;
  escape = idle;
  selected = none;
}
