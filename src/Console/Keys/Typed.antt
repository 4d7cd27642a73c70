-- ===== src/Console/Keys/Typed.antt =====
-- What is typed in the terminal interface of dstx/src/ui.c.
use dstx.Common.{
  ℕ, ◌-◌, ◌≤◌, ◌<◌, ◌≡◌, true, false, Option, List, [], ◌∷◌, ◌==◌, ltb, not, ◌&&◌, ◌||◌, length,
  length-append, All, All-append, arith, if_cases,
}
use dstx.Text.{Word, Libc}
use dstx.Console.Lines.{
  Entered, quit, info, profiles, start, stop, setup, help, profile, auto_save, for_slot, entered,
}
use dstx.Console.Keys.{
  max_input, total_help_pages, Escape, idle, escaped, bracket, Console, World, Sight, enter_as,
  enter, is_print, init, is_empty, edit, turn_page, end_escape, show_slot, first_byte, read_byte,
  step, run_keys,
}

abbrev pub IsPrint : ℕ → Type 0
IsPrint b = is_print b ≡ true

-- The line fits its buffer with the zero behind it and is printable, the page is one of the help, and
-- at most one of the three modes is on.
pub record IsSound (c : Console) : Type 0 where
  pub fits : length c.line < max_input
  pub printable : All IsPrint c.line
  pub page : c.help_page < total_help_pages
  pub one_mode :
      ((c.help_mode && c.info_mode) ≡ false)
      × ((c.help_mode && c.list_mode) ≡ false)
      × ((c.info_mode && c.list_mode) ≡ false)

init-IsPrint : (s : Word) → All IsPrint s → All IsPrint (init s)
unfolding init
init-IsPrint [] h = tt
init-IsPrint (b ∷ []) h = tt
init-IsPrint (b ∷ d ∷ s) h = (h.0, init-IsPrint (d ∷ s) h.1)

length-init : (s : Word) → length (init s) ≤ length s
unfolding init
length-init [] = omega arith
length-init (b ∷ []) = omega arith
length-init (b ∷ d ∷ s) = omega (arith, length-init (d ∷ s))

turn_page-lt : (seq b page : ℕ) → page < total_help_pages → turn_page seq b page < total_help_pages
unfolding turn_page
turn_page-lt seq b page h = ground arith

enter_as-IsSound :
    (libc : Libc) (sight : Sight) (shown : Option ℕ) (e : Entered) (c : Console) (w : World)
    → c.help_mode ≡ false
    → c.info_mode ≡ false
    → c.list_mode ≡ false
    → IsSound c
    → IsSound (record ((enter_as libc sight shown e c w).0) { line = [] })
unfolding enter_as
enter_as-IsSound libc sight shown quit c w a b d h = ground arith
enter_as-IsSound libc sight shown info c w a b d h = ground arith
enter_as-IsSound libc sight shown profiles c w a b d h = ground arith
enter_as-IsSound libc sight shown start c w a b d h = ground arith
enter_as-IsSound libc sight shown stop c w a b d h = ground arith
enter_as-IsSound libc sight shown setup c w a b d h = ground arith
enter_as-IsSound libc sight shown help c w a b d h = ground arith
enter_as-IsSound libc sight shown (profile rest) c w a b d h = ground arith
enter_as-IsSound libc sight shown (auto_save line) c w a b d h = ground arith
enter_as-IsSound libc sight shown (for_slot line) c w a b d h = ground arith

edit-IsSound :
    (libc : Libc) (sight : Sight) (shown : Option ℕ) (b : ℕ) (c : Console) (w : World)
    → c.help_mode ≡ false
    → c.info_mode ≡ false
    → c.list_mode ≡ false
    → IsSound c
    → IsSound (edit libc sight shown b c w).0
unfolding edit enter
edit-IsSound libc sight shown b c w p q r h =
    let P : Console × World → Type 0 = λ x. IsSound x.0 in
    if_cases P (b == 10 || b == 13)
      (λ e.
        if_cases P (is_empty c.line) (λ e. h)
          (λ e. enter_as-IsSound libc sight shown (entered c.line) c w p q r h))
      (λ e.
        if_cases P ((b == 127 || b == 8) && not (is_empty c.line))
          (λ e. record {
            fits = omega (arith, length-init c.line, h.fits);
            printable = init-IsPrint c.line h.printable;
            page = h.page;
            one_mode = h.one_mode;
          })
          (λ e.
            if_cases P (ltb (length c.line) (max_input - 1) && is_print b)
              (λ e. record {
                fits = ground (arith, length-append c.line (b ∷ []));
                printable = All-append IsPrint c.line (b ∷ []) h.printable (ground arith);
                page = h.page;
                one_mode = h.one_mode;
              })
              (λ e. h)))

first_byte-IsSound :
    (libc : Libc) (sight : Sight) (shown : Option ℕ) (b : ℕ) (c : Console) (w : World)
    → IsSound c
    → IsSound (first_byte libc sight shown b c w).0
unfolding first_byte
first_byte-IsSound libc sight shown b c w h = ground (arith, edit-IsSound libc sight shown b c w)

read_byte-IsSound :
    (libc : Libc) (sight : Sight) (b : ℕ) (e : Escape) (c : Console) (w : World)
    → IsSound c
    → IsSound (read_byte libc sight b e c w).0
unfolding read_byte end_escape
read_byte-IsSound libc sight b idle c w h =
    let now = show_slot sight c.selected in
    first_byte-IsSound libc sight now.0 b (record c { selected = now.1 }) w
      (record { fits = h.fits; printable = h.printable; page = h.page; one_mode = h.one_mode })
read_byte-IsSound libc sight b (escaped seen shown) c w h = record {
  fits = h.fits;
  printable = h.printable;
  page = h.page;
  one_mode = h.one_mode;
}
read_byte-IsSound libc sight b (bracket seq seen shown) c w h =
    ground (arith, turn_page-lt seq b c.help_page)

-- Whatever is typed, the line that is being typed fits its buffer of 256 bytes with the zero behind it
-- and is printable, the page of the help is one of the four, and at most one of the modes (help, info,
-- list) is on.
pub run_keys-IsSound :
    (libc : Libc) (keys : List (Sight × ℕ)) (c : Console) (w : World)
    → IsSound c
    → IsSound (run_keys libc keys c w).0
unfolding run_keys step
run_keys-IsSound libc [] c w h = h
run_keys-IsSound libc (k ∷ keys) c w h =
    let r = step libc k.0 k.1 c w in
    if_cases (λ (x : Console × World). IsSound x.0) c.keep_running
      (λ e. run_keys-IsSound libc keys r.0 r.1 (read_byte-IsSound libc k.0 k.1 c.escape c w h))
      (λ e. h)
