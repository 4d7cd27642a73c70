-- ===== src/Console/Keys/Whole.antt =====
-- A line that is typed in the terminal interface of dstx/src/ui.c and entered.
use dstx.Common.{
  ℕ, ◌+◌, ◌-◌, ◌<◌, ◌≡◌, ◌∙◌, refl, sym, ap, subst, true, false, Option, List, [], ◌∷◌, ◌++◌, ◌==◌,
  length, length-append, map, All, arith, if_true, if_false, Bool-cases, inl, inr, append_assoc,
}
use mathlib.Core.List.{append-nil}
use dstx.Text.{Word, Libc}
use dstx.Console.Lines.{
  Entered, quit, info, profiles, start, stop, setup, help, profile, auto_save, for_slot, entered,
}
use dstx.Console.Keys.{
  max_input, Escape, Console, World, Sight, enter_as, enter, start_console, is_print, is_empty,
  edit, show_slot, first_byte, read_byte, step, run_keys,
}
use dstx.Console.Keys.Typed.{IsPrint}

-- No mode is on, no escape is being read, and the loop runs.
pub record IsReady (c : Console) : Type 0 where
  pub help : c.help_mode ≡ false
  pub info : c.info_mode ≡ false
  pub list : c.list_mode ≡ false
  pub idle : c.escape ≡ Escape.idle
  pub running : c.keep_running ≡ true

-- A printable byte is appended; besides the line only what is selected changes.
abbrev append : Console → ℕ → Sight → Console
append c b sight = record c { line = c.line ++ (b ∷ []); selected = (show_slot sight c.selected).1 }

edit_print :
    (libc : Libc) (sight : Sight) (shown : Option ℕ) (b : ℕ) (c : Console) (w : World)
    → IsPrint b
    → length c.line < max_input - 1
    → edit libc sight shown b c w ≡ (record c { line = c.line ++ (b ∷ []) }, w)
unfolding edit is_print
edit_print libc sight shown b c w p lt = ground arith

step_ready :
    (libc : Libc) (sight : Sight) (b : ℕ) (c : Console) (w : World)
    → IsReady c
    → (b == 27) ≡ false
    → let now = show_slot sight c.selected in
      step libc sight b c w ≡ edit libc sight now.0 b (record c { selected = now.1 }) w
unfolding step read_byte first_byte
step_ready libc sight b c w h e = rw (h.idle) (rw (h.help) (rw (h.info) (rw (h.list) (rw e refl))))

step_print :
    (libc : Libc) (sight : Sight) (b : ℕ) (c : Console) (w : World)
    → IsReady c
    → IsPrint b
    → length c.line < max_input - 1
    → step libc sight b c w ≡ (append c b sight, w)
unfolding is_print
step_print libc sight b c w h p lt =
    step_ready libc sight b c w h (ground arith)
    ∙ edit_print libc sight (show_slot sight c.selected).0 b
        (record c { selected = (show_slot sight c.selected).1 }) w p lt

run_keys_running :
    (libc : Libc) (k : Sight × ℕ) (keys : List (Sight × ℕ)) (c : Console) (w : World)
    → c.keep_running ≡ true
    → let r = step libc k.0 k.1 c w in run_keys libc (k ∷ keys) c w ≡ run_keys libc keys r.0 r.1
unfolding run_keys
run_keys_running libc k keys c w h = if_true _ (c, w) h

abbrev pub bytes : List (Sight × ℕ) → Word
bytes keys = map (λ (k : Sight × ℕ). k.1) keys

-- The console after printable bytes.
typed_line :
    (libc : Libc) (keys : List (Sight × ℕ)) (c : Console) (w : World)
    → IsReady c
    → All IsPrint (bytes keys)
    → length c.line + length keys < max_input
    → IsReady (run_keys libc keys c w).0
      × ((run_keys libc keys c w).0.line ≡ c.line ++ bytes keys)
      × ((run_keys libc keys c w).1 ≡ w)
unfolding run_keys
typed_line libc [] c w h all lt = (h, sym (append-nil c.line), refl)
typed_line libc (k ∷ keys) c w h all lt =
    let next = append c k.1 k.0 in
    let ready : IsReady next = record {
      help = h.help;
      info = h.info;
      list = h.list;
      idle = h.idle;
      running = h.running;
    } in
    let (still, line, world) =
      typed_line libc keys next w ready all.1
        (omega (arith, length-append c.line (k.1 ∷ []), lt)) in
    let same : run_keys libc (k ∷ keys) c w ≡ run_keys libc keys next w =
      run_keys_running libc k keys c w h.running
      ∙ ap (λ (r : Console × World). run_keys libc keys r.0 r.1)
          (step_print libc k.0 k.1 c w h all.0 (omega (arith, lt))) in
    (
      subst (λ (r : Console × World). IsReady r.0) (sym same) still,
      ap (λ (r : Console × World). r.0.line) same
          ∙ (line ∙ append_assoc c.line (k.1 ∷ []) (bytes keys)),
      ap (λ (r : Console × World). r.1) same ∙ world,
    )

-- What a line does to the world does not depend on the console.
enter_as-world :
    (libc : Libc) (sight : Sight) (shown : Option ℕ) (e : Entered) (c : Console) (w : World)
    → (enter_as libc sight shown e c w).1 ≡ (enter_as libc sight shown e start_console w).1
unfolding enter_as
enter_as-world libc sight shown quit c w = refl
enter_as-world libc sight shown info c w = refl
enter_as-world libc sight shown profiles c w = refl
enter_as-world libc sight shown start c w = refl
enter_as-world libc sight shown stop c w = refl
enter_as-world libc sight shown setup c w = refl
enter_as-world libc sight shown help c w = refl
enter_as-world libc sight shown (profile rest) c w = refl
enter_as-world libc sight shown (auto_save line) c w = refl
enter_as-world libc sight shown (for_slot line) c w = refl

edit_newline :
    (libc : Libc) (sight : Sight) (shown : Option ℕ) (c : Console) (w : World)
    → is_empty c.line ≡ false
    → (edit libc sight shown 10 c w).1
      ≡ (enter_as libc sight shown (entered c.line) start_console w).1
unfolding edit enter
edit_newline libc sight shown c w e =
    ap (λ (r : Console × World). r.1) (if_false (c, w) _ e)
    ∙ enter_as-world libc sight shown (entered c.line) c w

edit_newline_line :
    (libc : Libc) (sight : Sight) (shown : Option ℕ) (c : Console) (w : World)
    → is_empty c.line ≡ false
    → (edit libc sight shown 10 c w).0.line ≡ []
unfolding edit enter
edit_newline_line libc sight shown c w e =
    ap (λ (r : Console × World). r.0.line) (if_false (c, w) _ e)

run_keys_stopped :
    (libc : Libc) (keys : List (Sight × ℕ)) (c : Console) (w : World)
    → c.keep_running ≡ false
    → run_keys libc keys c w ≡ (c, w)
unfolding run_keys
run_keys_stopped libc [] c w h = refl
run_keys_stopped libc (k ∷ keys) c w h = if_false _ _ h

run_keys-append :
    (libc : Libc) (keys more : List (Sight × ℕ)) (c : Console) (w : World)
    → let r = run_keys libc keys c w in
      run_keys libc (keys ++ more) c w ≡ run_keys libc more r.0 r.1
unfolding run_keys
run_keys-append libc [] more c w = refl
run_keys-append libc (k ∷ keys) more c w =
    let r = step libc k.0 k.1 c w in
    elim (Bool-cases c.keep_running) [
      | inl e ↦
          run_keys_running libc k (keys ++ more) c w e
          ∙ (run_keys-append libc keys more r.0 r.1
              ∙ ap (λ (x : Console × World). run_keys libc more x.0 x.1)
                  (sym (run_keys_running libc k keys c w e)))
      | inr e ↦
          run_keys_stopped libc (k ∷ (keys ++ more)) c w e
          ∙ (sym (run_keys_stopped libc more c w e)
              ∙ ap (λ (x : Console × World). run_keys libc more x.0 x.1)
                  (sym (run_keys_stopped libc (k ∷ keys) c w e)))
    ]

-- A line is entered whole: from a console with an empty line, no mode on and no escape being read,
-- fewer than 256 printable bytes, at least one, and the return key do to the slots, the requests and
-- the services exactly what that line does for the slot that is shown when the key is read, and leave
-- the line empty.
pub run_keys-entered :
    (libc : Libc) (k : Sight × ℕ) (keys : List (Sight × ℕ)) (last : Sight) (c : Console) (w : World)
    → IsReady c
    → c.line ≡ []
    → All IsPrint (bytes (k ∷ keys))
    → length (k ∷ keys) < max_input
    → let shown = (show_slot last (run_keys libc (k ∷ keys) c w).0.selected).0 in
      let after = run_keys libc ((k ∷ keys) ++ ((last, 10) ∷ [])) c w in
      (after.1 ≡ (enter_as libc last shown (entered (bytes (k ∷ keys))) start_console w).1)
      × (after.0.line ≡ [])
unfolding is_empty run_keys
run_keys-entered libc k keys last c w h empty all lt =
    let r = run_keys libc (k ∷ keys) c w in
    let (ready, line, world) =
      typed_line libc (k ∷ keys) c w h all (omega (arith, ap length empty, lt)) in
    let typed : r.0.line ≡ bytes (k ∷ keys) = line ∙ ap (λ s. s ++ bytes (k ∷ keys)) empty in
    let now = show_slot last r.0.selected in
    let ended =
      run_keys-append libc (k ∷ keys) ((last, 10) ∷ []) c w
      ∙ (run_keys_running libc (last, 10) [] r.0 r.1 ready.running
          ∙ step_ready libc last 10 r.0 r.1 ready refl) in
    let full = ap is_empty typed in
    (
      ap (λ (x : Console × World). x.1) ended
          ∙ (edit_newline libc last now.0 (record (r.0) { selected = now.1 }) r.1 full
              ∙ (ap (λ (s : Word). (enter_as libc last now.0 (entered s) start_console r.1).1) typed
                  ∙ ap
                      (λ (v : World).
                        (enter_as libc last now.0 (entered (bytes (k ∷ keys))) start_console v).1)
                      world)),
      ap (λ (x : Console × World). x.0.line) ended
          ∙ edit_newline_line libc last now.0 (record (r.0) { selected = now.1 }) r.1 full,
    )
