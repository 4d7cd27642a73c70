-- ===== src/Examples/Console.antt =====
-- The terminal interface, typed into.
use dstx.Common.{
  ℕ, ◌≡◌, ◌↔◌, refl, true, false, Option, none, some, List, [], ◌∷◌, ◌++◌, map, All, arith,
}
use dstx.Text.{Word, codes}
use dstx.Console.Agrees.{Agree, switches, others, numbered, slot_line-Agree}
use dstx.Console.Select.{Seat, arrow, current_idx}
use dstx.Console.Select.Arrow.{is_out, arrow_out_iff}
use dstx.Console.Lines.{entered}
use dstx.Console.Keys.{World, Sight, start_console, enter_as, show_slot, run_keys, is_print}
use dstx.Console.Keys.Typed.{IsSound, run_keys-IsSound}
use dstx.Console.Keys.Whole.{IsReady, run_keys-entered}
use dstx.Examples.Commands.{some_libc, connected_slot, four_slots}

slot_line-Agree_example :
    (All (Agree some_libc connected_slot) (switches true (codes "on"))
      × All (Agree some_libc connected_slot) (switches false (codes "off")))
    × All (Agree some_libc connected_slot) others
    × All (Agree some_libc connected_slot) (numbered some_libc (codes "50"))
slot_line-Agree_example = slot_line-Agree some_libc (codes "50") connected_slot

abbrev empty_seat : Seat
empty_seat = record { connected = false; dev_path = none }

-- No controller is there.
arrow_out_iff_example :
    (is_out
        (arrow false (empty_seat ∷ empty_seat ∷ empty_seat ∷ empty_seat ∷ []) (current_idx none))
      ≡ true)
    ↔ ((false ≡ false)
        × (◌≡◌ {A = Option ℕ} none none)
        × (false ≡ false)
        × (false ≡ false)
        × (false ≡ false))
arrow_out_iff_example = arrow_out_iff false empty_seat empty_seat empty_seat empty_seat none tt

abbrev sight : Sight
sight = record {
  mapped = true;
  alive = true;
  seats =
      empty_seat ∷ record { connected = true; dev_path = some 7 } ∷ empty_seat ∷ empty_seat ∷ [];
  answer = true;
  has_text = true;
  left_over = [];
}

abbrev pub world : World
world = record { slots = four_slots; posted = []; jobs = [] }

abbrev pub type_text : Word → List (Sight × ℕ)
type_text text = map (λ b. (sight, b)) text

start-IsSound : IsSound start_console
start-IsSound = record {
  fits = omega arith;
  printable = tt;
  page = omega arith;
  one_mode = (refl, refl, refl);
}

run_keys-IsSound_example :
    IsSound (run_keys some_libc (type_text (codes "gain 50")) start_console world).0
run_keys-IsSound_example =
    run_keys-IsSound some_libc (type_text (codes "gain 50")) start_console world start-IsSound

start-IsReady : IsReady start_console
start-IsReady = record { help = refl; info = refl; list = refl; idle = refl; running = refl }

abbrev first_key : Sight × ℕ
first_key = (sight, b'g')

abbrev more_keys : List (Sight × ℕ)
more_keys = type_text (codes "ain 50")

run_keys-entered_example :
    let shown =
      (show_slot sight
        (run_keys some_libc (first_key ∷ more_keys) start_console world).0.selected).0 in
    let after =
      run_keys some_libc ((first_key ∷ more_keys) ++ ((sight, 10) ∷ [])) start_console world in
    (after.1 ≡ (enter_as some_libc sight shown (entered (codes "gain 50")) start_console world).1)
    × (after.0.line ≡ [])
unfolding is_print
run_keys-entered_example =
    run_keys-entered some_libc first_key more_keys sight start_console world start-IsReady refl
      (refl, (refl, (refl, (refl, (refl, (refl, (refl, tt))))))) (omega arith)
