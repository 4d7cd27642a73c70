-- ===== src/Clients/Requests/Typed.antt =====
-- The requests of the three clients together, with those of the lines that are typed in
-- dstx/src/ui.c.
use dstx.Common.{
  ℕ, ◌-◌, ◌≡◌, inl, inr, refl, sym, subst, Bool, Option, none, some, List, [], ◌∷◌, ◌==◌, ltb, not,
  ◌&&◌, ◌||◌, length, All, All-append, if_cases,
}
use dstx.Common.Int.{ℤ}
use dstx.Text.{Word, Libc, codes, same_text}
use dstx.Commands.{within}
use dstx.Commands.Cli.{Posted, profile_request, process_cli_command}
use dstx.Bus.{BusSlot}
use dstx.Bus.ProfileCalls.{ProfileMethod, handle_profile}
use dstx.Console.Lines.{
  Entered, quit, info, profiles, start, stop, setup, help, profile, auto_save, for_slot, entered,
  list_or_none, named_post, profile_named, profile_words, profile_line, scan_word, delay_post,
  scan_delay, auto_save_line,
}
use dstx.Console.Keys.{
  max_input, Sight, Escape, idle, escaped, bracket, Console, World, send, list_request, enter_as,
  enter, is_print, is_empty, edit, show_slot, first_byte, read_byte, step, run_keys,
}
use dstx.Clients.Requests.{
  IsServable, IsNamed, profile_request-IsNamed, within-IsDelay, request_of-IsServable,
  process_cli_command-AreServable,
}

abbrev Good : List Posted → Type 0
Good = All IsServable

list_or_none-AreServable : (subcmd : Word) → Good (list_or_none subcmd)
unfolding list_or_none
list_or_none-AreServable subcmd =
    if_cases Good (same_text subcmd (codes "list")) (λ e. (inr (inl refl), tt)) (λ e. tt)

named_post-AreServable : (o : Option ℤ) (arg : Word) → IsNamed o → Good (named_post o arg)
unfolding named_post IsNamed
named_post-AreServable none arg h = tt
named_post-AreServable (some req) arg h = (inl (h, tt), tt)

profile_named-AreServable :
    (subcmd : Word) (o : Option (Word × Word)) → Good (profile_named subcmd o)
unfolding profile_named
profile_named-AreServable subcmd none = list_or_none-AreServable subcmd
profile_named-AreServable subcmd (some arg) =
    if_cases Good (same_text subcmd (codes "list")) (λ e. list_or_none-AreServable subcmd)
      (λ e. named_post-AreServable (profile_request subcmd) arg.0 (profile_request-IsNamed subcmd))

profile_words-AreServable :
    (left_over : Word) (o : Option (Word × Word)) → Good (profile_words left_over o)
unfolding profile_words
profile_words-AreServable left_over none = list_or_none-AreServable left_over
profile_words-AreServable left_over (some r) = profile_named-AreServable r.0 (scan_word 63 r.1)

delay_post-AreServable : (o : Option (ℤ × Word)) → Good (delay_post o)
unfolding delay_post
delay_post-AreServable none = tt
delay_post-AreServable (some r) =
    if_cases Good (within 10000 r.0 && not (within 99 r.0))
      (λ e. (inr (inr (refl, within-IsDelay r.0 e)), tt)) (λ e. tt)

auto_save_line-AreServable : (libc : Libc) (line : Word) → Good (auto_save_line libc line)
unfolding auto_save_line
auto_save_line-AreServable libc line =
    if_cases Good (same_text line (codes "auto-save on")) (λ e. (inr (inr (refl, refl)), tt))
      (λ e.
        if_cases Good (same_text line (codes "auto-save off")) (λ e. (inr (inr (refl, refl)), tt))
          (λ e. delay_post-AreServable (scan_delay libc line)))

-- What is posted in a world stays servable.
abbrev IsTidy : Console × World → Type 0
IsTidy r = Good r.1.posted

sent :
    (sight : Sight) (requests : List Posted) (w : World)
    → Good requests
    → Good w.posted
    → Good (send sight requests w).posted
sent sight requests w h k =
    if_cases (λ (x : World). Good x.posted) sight.mapped
      (λ e. All-append IsServable requests w.posted h k) (λ e. k)

enter_as-IsTidy :
    (libc : Libc) (sight : Sight) (shown : Option ℕ) (l : Entered) (c : Console) (w : World)
    → Good w.posted
    → IsTidy (enter_as libc sight shown l c w)
unfolding enter_as list_request profile_line
enter_as-IsTidy libc sight shown quit c w h = h
enter_as-IsTidy libc sight shown info c w h = h
enter_as-IsTidy libc sight shown profiles c w h = sent sight list_request w (inr (inl refl), tt) h
enter_as-IsTidy libc sight shown start c w h = h
enter_as-IsTidy libc sight shown stop c w h = h
enter_as-IsTidy libc sight shown setup c w h = h
enter_as-IsTidy libc sight shown help c w h = h
enter_as-IsTidy libc sight shown (profile rest) c w h =
    sent sight (profile_line sight.left_over rest) w
      (profile_words-AreServable sight.left_over (scan_word 31 rest)) h
enter_as-IsTidy libc sight shown (auto_save line) c w h =
    sent sight (auto_save_line libc line) w (auto_save_line-AreServable libc line) h
enter_as-IsTidy libc sight shown (for_slot line) c w h = h

edit-IsTidy :
    (libc : Libc) (sight : Sight) (shown : Option ℕ) (b : ℕ) (c : Console) (w : World)
    → Good w.posted
    → IsTidy (edit libc sight shown b c w)
unfolding edit enter
edit-IsTidy libc sight shown b c w h =
    if_cases IsTidy (b == 10 || b == 13)
      (λ e.
        if_cases IsTidy (is_empty c.line) (λ e. h)
          (λ e. enter_as-IsTidy libc sight shown (entered c.line) c w h))
      (λ e.
        if_cases IsTidy ((b == 127 || b == 8) && not (is_empty c.line)) (λ e. h)
          (λ e.
            if_cases IsTidy (ltb (length c.line) (max_input - 1) && is_print b) (λ e. h) (λ e. h)))

first_byte-IsTidy :
    (libc : Libc) (sight : Sight) (shown : Option ℕ) (b : ℕ) (c : Console) (w : World)
    → Good w.posted
    → IsTidy (first_byte libc sight shown b c w)
unfolding first_byte
first_byte-IsTidy libc sight shown b c w h =
    if_cases IsTidy c.help_mode (λ e. if_cases IsTidy (b == 27) (λ e. h) (λ e. h))
      (λ e.
        if_cases IsTidy c.info_mode (λ e. h)
          (λ e.
            if_cases IsTidy c.list_mode (λ e. h)
              (λ e.
                if_cases IsTidy (b == 27) (λ e. h) (λ e. edit-IsTidy libc sight shown b c w h))))

read_byte-IsTidy :
    (libc : Libc) (sight : Sight) (b : ℕ) (e : Escape) (c : Console) (w : World)
    → Good w.posted
    → IsTidy (read_byte libc sight b e c w)
unfolding read_byte
read_byte-IsTidy libc sight b idle c w h =
    let now = show_slot sight c.selected in
    first_byte-IsTidy libc sight now.0 b (record c { selected = now.1 }) w h
read_byte-IsTidy libc sight b (escaped seen shown) c w h = h
read_byte-IsTidy libc sight b (bracket seq seen shown) c w h = h

run_keys-IsTidy :
    (libc : Libc) (keys : List (Sight × ℕ)) (c : Console) (w : World)
    → Good w.posted
    → IsTidy (run_keys libc keys c w)
unfolding run_keys step
run_keys-IsTidy libc [] c w h = h
run_keys-IsTidy libc (k ∷ keys) c w h =
    let r = step libc k.0 k.1 c w in
    if_cases IsTidy c.keep_running
      (λ e. run_keys-IsTidy libc keys r.0 r.1 (read_byte-IsTidy libc k.0 k.1 c.escape c w h))
      (λ e. h)

-- Every request that a client makes of the settings thread is one of its five, has a name where it is
-- about one profile, and sets the delay of the automatic saving to 100 ms to 10 s, if at all: the
-- calls of the bridge with any arguments, any command line, and any keys that are typed, whatever the
-- uninitialised buffer of the profile command holds. Before the keys nothing was requested.
pub requests-AreServable :
    (libc : Libc) (opens ready ok : Bool) (m : ProfileMethod) (first : Word) (words : List Word)
    → (slots : List BusSlot) (keys : List (Sight × ℕ)) (c : Console) (w : World) → w.posted ≡ []
    → All IsServable (handle_profile opens ok m).0
      × (All IsServable (process_cli_command libc ready ok first words slots).posted
          × All IsServable (run_keys libc keys c w).1.posted)
unfolding handle_profile
requests-AreServable libc opens ready ok m first words slots keys c w unsent = (
  if_cases (λ (x : List Posted × Bool). Good x.0) opens (λ e. (request_of-IsServable m, tt))
      (λ e. tt),
  (
    process_cli_command-AreServable libc ready ok first words slots,
    run_keys-IsTidy libc keys c w (subst Good (sym unsent) tt),
  ),
)
