-- ===== src/Bus/Replies.antt =====
-- Which calls of the bridge are answered, and which change a slot.
use dstx.Common.{
  ℕ, ◌<◌, ◌≤◌, ◌≡◌, ◌⊎◌, ◌↔◌, Bool, true, false, List, [], ◌∷◌, length, get_or, arith,
}
use dstx.Debounce.{max_slots}
use dstx.Bus.{Method, BusSlot, empty_slot, open_shm_handle, is_valid, done, handle}

-- A call is left without any reply exactly if its arguments are valid, its slot is one of the four,
-- and the shared memory does not open, as when the daemon is not alive, or the slot is not connected
-- in it; no call gets more than one
-- reply; and the slots are as they were unless the call is answered as done.
pub handle-unanswered :
    (opens : Bool) (i : ℕ) (m : Method) (slots : List BusSlot)
    → (((handle opens i m slots).1 ≡ []) ↔ (
        (i < max_slots)
        × (is_valid m ≡ true)
        × ((opens ≡ false) ⊎ ((get_or slots i empty_slot).slot.connected ≡ false))))
      × (length (handle opens i m slots).1 ≤ 1)
      × (((handle opens i m slots).1 ≡ done ∷ []) ⊎ ((handle opens i m slots).0 ≡ slots))
unfolding handle open_shm_handle
handle-unanswered opens i m slots = (ground arith, ground arith, ground arith)
