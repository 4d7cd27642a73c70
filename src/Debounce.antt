-- ===== src/Debounce.antt =====
-- The debounce of physical buttons in dstx/src/drivers.c: `phy_debounce_t`, one for each slot and
-- button, and debounce_physical.
pub mod History
use dstx.Common.{
  ℕ, ◌+◌, ◌-◌, ◌%◌, Bool, List, [], leb, ◌==◌, ◌||◌, if◌then◌else◌, get_or, set, replicate, u64,
}
use dstx.Controller.{phy_btn_count}

abbrev pub max_slots : ℕ
max_slots = 4

-- DEBOUNCE_DELAY_US
abbrev pub debounce_delay_us : ℕ
debounce_delay_us = 15000

pub record PhyDebounce : Type 0 where
  pub last_change_us : ℕ
  pub pending : ℕ
  pub stable : ℕ

abbrev pub zero_debounce : PhyDebounce
zero_debounce = record { last_change_us = 0; pending = 0; stable = 0 }

-- g_phy_debounce, zero at the start.
abbrev pub DebounceTable : Type 0
DebounceTable = List (List PhyDebounce)

abbrev pub zero_table : DebounceTable
zero_table = replicate max_slots (replicate phy_btn_count zero_debounce)

-- `now - last` on uint64_t.
abbrev pub since_us : ℕ → ℕ → ℕ
since_us now last = u64 (now + 18446744073709551616 - last)

-- What debounce_physical does to the entry of one button, at time `now`.
unfoldable pub debounce_entry : ℕ → ℕ → PhyDebounce → PhyDebounce
debounce_entry now raw db =
    if raw == db.stable
    then record db { pending = raw }
    else if raw == db.pending
    then if leb debounce_delay_us (since_us now db.last_change_us)
      then record db { stable = raw; pending = raw }
      else db
    else record db { pending = raw; last_change_us = now }

-- The new table and the stable value; an index out of range hands the raw value back.
unfoldable pub debounce_physical : ℕ → DebounceTable → ℕ → ℕ → ℕ → DebounceTable × ℕ
unfolding debounce_entry
debounce_physical now table slot_idx phy raw =
    let row = get_or table slot_idx [] in
    let db = debounce_entry now raw (get_or row phy zero_debounce) in
    if leb max_slots slot_idx || leb phy_btn_count phy
    then (table, raw)
    else (set table slot_idx (set row phy db), db.stable)
