-- ===== src/Drivers/Battery.antt =====
-- The battery level that a report gives, in per cent, against the layout of the byte.
use dstx.Common.{
  ℕ, ◌+◌, ◌*◌, ◌/◌, ◌%◌, ◌≤◌, ◌<◌, ◌≡◌, refl, true, ◌==◌, ◌&&◌, ltb, leb, min, if◌then◌else◌, arith,
  passes_below, at_passes_below, ==_iff,
}
use dstx.Drivers.{ds4_battery, dualsense_battery}

-- Ten steps of ten per cent, the middle of each step being shown.
abbrev pub step_charge : ℕ → ℕ
step_charge level = min 100 (level * 10 + 5)

-- The level is the low half of the byte. On a DualShock 4 a level above 10 counts only with the
-- cable in (bit 4), where 11 is full.
abbrev pub ds4_charge : ℕ → ℕ
ds4_charge b =
    if leb (b % 16) 10
    then step_charge (b % 16)
    else if b % 16 == 11 && b / 16 % 2 == 1
    then 100
    else 0

-- On a DualSense the high half is the status: 0 discharging, 1 charging, 2 full.
abbrev pub dualsense_charge : ℕ → ℕ
dualsense_charge b = if ltb (b / 16) 2 then step_charge (b % 16) else if b / 16 == 2 then 100 else 0

ds4_table : passes_below (λ b. ds4_battery b == ds4_charge b) 256 ≡ true
unfolding passes_below ds4_battery
ds4_table = refl

dualsense_table : passes_below (λ b. dualsense_battery b == dualsense_charge b) 256 ≡ true
unfolding passes_below dualsense_battery
dualsense_table = refl

-- Both battery decoders compute, for every byte, the charge that the layout of the byte gives,
-- which is at most 100.
pub battery_charge :
    (b : ℕ)
    → b < 256
    → (ds4_battery b ≡ ds4_charge b)
      × (dualsense_battery b ≡ dualsense_charge b)
      × (ds4_battery b ≤ 100)
      × (dualsense_battery b ≤ 100)
battery_charge b h =
    let e = (==_iff _ _).0 (at_passes_below _ _ b h ds4_table) in
    let e' = (==_iff _ _).0 (at_passes_below _ _ b h dualsense_table) in
    (e, e', rw e (ground arith), rw e' (ground arith))
