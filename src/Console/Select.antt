-- ===== src/Console/Select.antt =====
-- The slot that the terminal interface of dstx/src/ui.c shows: update_and_get_slot_idx of
-- dstx/src/display.c, and the arrow keys. A path is a number, and `none` the empty one.
pub mod Arrow
use dstx.Common.{
  ℕ, zero, suc, ◌+◌, ◌*◌, Bool, true, false, Option, none, some, List, [], ◌∷◌, ◌==◌, ◌&&◌, get_or,
  if◌then◌else◌,
}
use dstx.Common.Int.{ℤ, pos, negsuc, ◌+ℤ◌, ◌*ℤ◌, rem_ℤ}
use dstx.Debounce.{max_slots}

-- What the interface looks at in a slot.
pub record Seat : Type 0 where
  pub connected : Bool
  pub dev_path : Option ℕ

-- strcmp(a, b) == 0 for a path that is selected.
unfoldable pub same_path : ℕ → Option ℕ → Bool
same_path p none = false
same_path p (some q) = p == q

-- The first slot, from a number on, that has the path.
unfoldable pub find_path : ℕ → ℕ → List Seat → Option ℕ
find_path p i [] = none
find_path p i (s ∷ seats) =
    if s.connected && same_path p s.dev_path then some i else find_path p (i + 1) seats

unfoldable pub has_path : Option ℕ → Bool
has_path none = false
has_path (some p) = true

-- The first slot with a path, and what is selected then.
unfoldable pub first_slot : Option ℕ → ℕ → List Seat → Option ℕ × Option ℕ
first_slot selected i [] = (none, selected)
first_slot selected i (s ∷ seats) =
    if s.connected && has_path s.dev_path
    then (some i, s.dev_path)
    else first_slot selected (i + 1) seats

keep_or : Option ℕ → Option ℕ × Option ℕ → Option ℕ → Option ℕ × Option ℕ
keep_or (some i) otherwise selected = (some i, selected)
keep_or none otherwise selected = otherwise

-- The index of the slot, `none` for -1, and the path that is selected.
unfoldable pub update_and_get_slot_idx : List Seat → Option ℕ → Option ℕ × Option ℕ
unfolding keep_or
update_and_get_slot_idx seats none = first_slot none 0 seats
update_and_get_slot_idx seats (some p) =
    keep_or (find_path p 0 seats) (first_slot (some p) 0 seats) (some p)

-- What the loop of an arrow key comes to: a slot, no slot, or an index that is not one of the array.
pub data Found : Type 0 where
  found : (t : ℕ) → Found
  nothing : Found
  out_of_array : (t : ℤ) → Found

-- `t` in the loop; `idx` is an `int`.
unfoldable pub slot_at_step : (step idx : ℤ) → (i : ℕ) → ℤ
slot_at_step step idx i = rem_ℤ (idx +ℤ step *ℤ pos i +ℤ pos max_slots) max_slots

abbrev pub nobody : Seat
nobody = record { connected = false; dev_path = none }

look : List Seat → ℤ → Found → Found
look seats (pos t) later = if (get_or seats t nobody).connected then found t else later
look seats (negsuc t) later = out_of_array (negsuc t)

unfoldable pub arrow_from : List Seat → (step idx : ℤ) → (left i : ℕ) → Found
unfolding look
arrow_from seats step idx zero i = nothing
arrow_from seats step idx (suc left) i =
    look seats (slot_at_step step idx i) (arrow_from seats step idx left (i + 1))

-- The right arrow counts up, the left one down.
unfoldable pub arrow : Bool → List Seat → ℤ → Found
arrow right seats idx = arrow_from seats (if right then pos 1 else negsuc 0) idx max_slots 1

unfoldable pub current_idx : Option ℕ → ℤ
current_idx none = negsuc 0
current_idx (some i) = pos i

-- The path that an arrow selects.
unfoldable pub selected_after : List Seat → Found → Option ℕ → Option ℕ
selected_after seats (found t) selected = (get_or seats t nobody).dev_path
selected_after seats nothing selected = selected
selected_after seats (out_of_array t) selected = selected
