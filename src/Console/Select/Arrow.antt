-- ===== src/Console/Select/Arrow.antt =====
-- What the arrow keys of dstx/src/ui.c select.
use dstx.Common.{
  ℕ, zero, suc, ◌<◌, ◌≡◌, ◌↔◌, Bool, true, false, Option, none, some, List, [], ◌∷◌, get_or, not,
  arith,
}
use dstx.Common.Int.{pos, ◌+ℤ◌, ◌*ℤ◌, rem_ℤ}
use dstx.Debounce.{max_slots}
use dstx.Console.Select.{
  Seat, nobody, Found, found, nothing, out_of_array, slot_at_step, look, arrow_from, arrow,
  current_idx,
}

-- An arrow key behind another.
unfoldable pub then_arrow : Bool → List Seat → Found → Found
then_arrow right seats (found t) = arrow right seats (pos t)
then_arrow right seats nothing = nothing
then_arrow right seats (out_of_array t) = out_of_array t

-- An arrow key can be taken back: from a connected slot, on any four slots, the left arrow behind the
-- right one, or the right behind the left, leads to the slot again.
pub then_arrow-arrow :
    (right : Bool) (a b c d : Seat) (i : ℕ)
    → i < max_slots
    → let seats = a ∷ b ∷ c ∷ d ∷ [] in
      (get_or seats i nobody).connected ≡ true
      → then_arrow (not right) seats (arrow right seats (pos i)) ≡ found i
unfolding then_arrow arrow arrow_from look slot_at_step rem_ℤ ◌+ℤ◌ ◌*ℤ◌
then_arrow-arrow true a b c d zero lt h = ground arith
then_arrow-arrow true a b c d (suc zero) lt h = ground arith
then_arrow-arrow true a b c d (suc (suc zero)) lt h = ground arith
then_arrow-arrow true a b c d (suc (suc (suc zero))) lt h = ground arith
then_arrow-arrow true a b c d (suc (suc (suc (suc i)))) lt h = absurd (omega arith)
then_arrow-arrow false a b c d zero lt h = ground arith
then_arrow-arrow false a b c d (suc zero) lt h = ground arith
then_arrow-arrow false a b c d (suc (suc zero)) lt h = ground arith
then_arrow-arrow false a b c d (suc (suc (suc zero))) lt h = ground arith
then_arrow-arrow false a b c d (suc (suc (suc (suc i)))) lt h = absurd (omega arith)

unfoldable pub is_out : Found → Bool
is_out (found t) = false
is_out nothing = false
is_out (out_of_array t) = true

arrow_inside :
    (right : Bool) (a b c d : Seat) (i : ℕ)
    → i < max_slots
    → is_out (arrow right (a ∷ b ∷ c ∷ d ∷ []) (pos i)) ≡ false
unfolding is_out arrow arrow_from look slot_at_step rem_ℤ ◌+ℤ◌ ◌*ℤ◌
arrow_inside true a b c d zero lt = ground arith
arrow_inside true a b c d (suc zero) lt = ground arith
arrow_inside true a b c d (suc (suc zero)) lt = ground arith
arrow_inside true a b c d (suc (suc (suc zero))) lt = ground arith
arrow_inside true a b c d (suc (suc (suc (suc i)))) lt = absurd (omega arith)
arrow_inside false a b c d zero lt = ground arith
arrow_inside false a b c d (suc zero) lt = ground arith
arrow_inside false a b c d (suc (suc zero)) lt = ground arith
arrow_inside false a b c d (suc (suc (suc zero))) lt = ground arith
arrow_inside false a b c d (suc (suc (suc (suc i)))) lt = absurd (omega arith)

-- The index that is shown.
abbrev pub IsShown : Option ℕ → Type 0
IsShown none = Unit
IsShown (some i) = i < max_slots

-- An arrow key reads the array of the four slots out of its bounds in exactly one case: it is the left
-- one, no slot is shown, and none of the first three slots is connected.
pub arrow_out_iff :
    (right : Bool) (a b c d : Seat) (idx : Option ℕ)
    → IsShown idx
    → (is_out (arrow right (a ∷ b ∷ c ∷ d ∷ []) (current_idx idx)) ≡ true) ↔ (
        (right ≡ false)
        × (idx ≡ none)
        × (a.connected ≡ false)
        × (b.connected ≡ false)
        × (c.connected ≡ false))
unfolding is_out current_idx arrow arrow_from look slot_at_step rem_ℤ ◌+ℤ◌ ◌*ℤ◌
arrow_out_iff true a b c d none h = ground arith
arrow_out_iff false a b c d none h = ground arith
arrow_out_iff right a b c d (some i) h = ground (arith, arrow_inside right a b c d i h)
