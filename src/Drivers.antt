-- ===== src/Drivers.antt =====
-- dstx/src/drivers.c: translation of the input reports of DualShock 4 and DualSense. The buffer
-- `buf` is the 128 bytes that the worker read into; the time of each debounce is an argument, and
-- the events for the virtual device are returned in the order in which they are written.
-- `none` is undefined behaviour in the arithmetic on the sticks.
pub mod Battery
pub mod Sticks
pub mod Hat
use Prim.Native.Nat.{bit_and}
use dstx.Common.{
  ℕ, zero, suc, ◌+◌, ◌-◌, ◌*◌, ◌/◌, Bool, true, Option, none, some, List, [], ◌∷◌, ◌++◌, ◌==◌, leb,
  ltb, ◌||◌, truth, of_bool, if◌then◌else◌, get_or, ◌>>=◌,
}
use dstx.Common.Int.{ℤ, pos, negsuc, sub_ℕ, eqb_ℤ, neg_ℤ, int16_min, int16_max}
use dstx.Controller.{
  Axes, Buttons, Controller, phy_btn_l2, phy_btn_r2, logical_btn_l2, logical_btn_r2,
}
use dstx.Keys.{keys_apply_map}
use dstx.Debounce.{DebounceTable, debounce_physical}
use dstx.AxisSystem.{Float, apply_sensitivity_core, apply_deadzone}

-- 8-bit to 16-bit; the conditions above leave 1 to 254 for the last two returns.
unfoldable pub safe_normalize : ℕ → ℤ
safe_normalize v =
    if v == 128
    then pos 0
    else if v == 0
    then int16_min
    else if v == 255
    then int16_max
    else if ltb v 128
    then sub_ℕ 0 ((128 - v) * 256)
    else pos ((v - 128) * 257 + 128)

-- The event codes of linux/input.h that the drivers use.
pub data AbsCode : Type 0 where
  abs_x abs_y abs_rx abs_ry abs_z abs_rz abs_hat0x abs_hat0y : AbsCode

pub data KeyCode : Type 0 where
  btn_west btn_north btn_south btn_east btn_tl btn_tr btn_tl2 btn_tr2 : KeyCode
  btn_select btn_start btn_thumbl btn_thumbr btn_mode : KeyCode

pub data InputEvent : Type 0 where
  ev_abs : AbsCode → ℤ → InputEvent
  ev_key : KeyCode → ℕ → InputEvent
  syn_report : InputEvent

-- !!(byte & mask)
abbrev pub flag : ℕ → ℕ → ℕ
flag byte mask = of_bool (truth (bit_and byte mask))

-- phy_raw, in the order of `physical_button_t`, from the byte with the face buttons and the
-- D-pad and the two bytes of system buttons.
unfoldable pub read_buttons : ℕ → ℕ → ℕ → List ℕ
read_buttons main sys1 sys2 =
    let dpad = bit_and main 0x0F in
    flag main 0x20
    ∷ flag main 0x40
    ∷ flag main 0x10
    ∷ flag main 0x80
    ∷ flag sys1 0x01
    ∷ flag sys1 0x02
    ∷ flag sys1 0x04
    ∷ flag sys1 0x08
    ∷ flag sys1 0x10
    ∷ flag sys1 0x20
    ∷ flag sys1 0x40
    ∷ flag sys1 0x80
    ∷ flag sys2 0x01
    ∷ flag sys2 0x02
    ∷ of_bool (dpad == 0 || dpad == 1 || dpad == 7)
    ∷ of_bool (dpad == 3 || dpad == 4 || dpad == 5)
    ∷ of_bool (dpad == 5 || dpad == 6 || dpad == 7)
    ∷ of_bool (dpad == 1 || dpad == 2 || dpad == 3)
    ∷ []

-- Debounce of the buttons from index `i` on; `now i` is the time that the call for `i` reads.
unfoldable pub debounce_loop : (ℕ → ℕ) → ℕ → ℕ → List ℕ → DebounceTable → DebounceTable × List ℕ
debounce_loop now slot_idx i [] table = (table, [])
debounce_loop now slot_idx i (raw ∷ rest) table =
    let (table', v) = debounce_physical (now i) table slot_idx i raw in
    let (table'', vs) = debounce_loop now slot_idx (i + 1) rest table' in (table'', v ∷ vs)

-- What the driver holds across reports: the slot and the global debounce array.
pub record Driver : Type 0 where
  pub slot : Controller
  pub table : DebounceTable

-- Negation of an int16_t; the one value without a negative becomes the maximum.
unfoldable pub invert_axis : Bool → ℤ → ℤ
invert_axis inverted y = if inverted then if eqb_ℤ y int16_min then int16_max else neg_ℤ y else y

-- The axis of a trigger in translate_ds4: by the stable physical button.
unfoldable pub trigger_value : ℕ → ℕ → ℕ → ℤ → ℕ → ℤ
trigger_value phy_pressed mapped_to own_button value logical =
    if truth phy_pressed
    then if mapped_to == own_button then value else pos 0
    else if truth logical
    then pos 255
    else pos 0

-- The two trigger axes of analog mode, and the two trigger buttons of digital mode.
trigger_axes : Controller → List ℕ → List InputEvent
unfolding trigger_value
trigger_axes slot phy_stable =
    ev_abs abs_z (
      trigger_value (get_or phy_stable phy_btn_l2 0) (get_or slot.keymap phy_btn_l2 0)
        logical_btn_l2 slot.axes.lt slot.buttons.l2)
    ∷ ev_abs abs_rz (
        trigger_value (get_or phy_stable phy_btn_r2 0) (get_or slot.keymap phy_btn_r2 0)
          logical_btn_r2 slot.axes.rt slot.buttons.r2)
    ∷ []

-- The events of one report.
unfoldable pub report_events : Controller → List ℕ → List InputEvent
unfolding trigger_axes
report_events slot phy_stable =
    let b = slot.buttons in
    let digital = slot.settings.is_trigger_digital in
    ev_abs abs_x slot.axes.lx
      ∷ ev_abs abs_y slot.axes.ly
      ∷ ev_abs abs_rx slot.axes.rx
      ∷ ev_abs abs_ry slot.axes.ry
      ∷ (if digital then [] else trigger_axes slot phy_stable)
    ++ (ev_key btn_west b.triangle
          ∷ ev_key btn_north b.square
          ∷ ev_key btn_south b.cross
          ∷ ev_key btn_east b.circle
          ∷ ev_abs abs_hat0x slot.hat_x
          ∷ ev_abs abs_hat0y slot.hat_y
          ∷ ev_key btn_tl b.l1
          ∷ ev_key btn_tr b.r1
          ∷ ev_key btn_select b.share
          ∷ ev_key btn_start b.options
          ∷ ev_key btn_thumbl b.l3
          ∷ ev_key btn_thumbr b.r3
          ∷ ev_key btn_mode b.ps
          ∷ (if digital then ev_key btn_tl2 b.l2 ∷ ev_key btn_tr2 b.r2 ∷ [] else [])
        ++ (syn_report ∷ []))

-- The battery byte of a DualShock 4: the level in the low half, bit 4 for the cable.
unfoldable pub ds4_battery : ℕ → ℕ
ds4_battery battery_byte =
    let level = bit_and battery_byte 0x0F in
    let cable = truth (bit_and battery_byte 0x10) in
    let charge = if ltb 100 (level * 10 + 5) then 100 else level * 10 + 5 in
    if cable
    then if leb level 10 then charge else if level == 11 then 100 else 0
    else if leb level 10
    then charge
    else 0

-- The battery byte of a DualSense: the level in the low half, the charging status above.
unfoldable pub dualsense_battery : ℕ → ℕ
dualsense_battery battery_byte =
    let level = bit_and battery_byte 0x0F in
    let status = bit_and (battery_byte / 16) 0x0F in
    let raw = level * 10 + 5 in
    if status == 0 || status == 1
    then if ltb 100 raw then 100 else raw
    else if status == 2
    then 100
    else 0

module _ (f : Float) where
  -- Sticks and triggers of a report: normalisation, sensitivity, inversion, deadzone.
  unfoldable pub read_axes : Controller → ℕ → ℕ → ℕ → ℕ → ℕ → ℕ → Option Axes
  read_axes slot lx ly rx ry lt rt = do
    let s = slot.settings
    let dz = if ltb 100 s.deadzone then 0 else s.deadzone
    left ←
        apply_sensitivity_core f s.sensitivity_left_preset (safe_normalize lx) (safe_normalize ly)
    right ←
        apply_sensitivity_core f s.sensitivity_right_preset (safe_normalize rx) (safe_normalize ry)
    left' ← apply_deadzone f left.0 (invert_axis s.invert_ly left.1) dz
    right' ← apply_deadzone f right.0 (invert_axis s.invert_ry right.1) dz
    some (record {
      lx = left'.0;
      ly = left'.1;
      rx = right'.0;
      ry = right'.1;
      lt = pos lt;
      rt = pos rt;
    })

  -- From the raw buttons on: debounce, keymap, events, battery.
  unfoldable pub finish_report :
      (ℕ → ℕ) → ℕ → Bool → Driver → Axes → List ℕ → ℕ → Driver × List InputEvent
  finish_report now slot_idx has_ufd d axes phy_raw battery =
      let slot = record (d.slot) { axes = axes } in
      let debounced = debounce_loop now slot_idx 0 phy_raw d.table in
      let enabled = slot.settings.debounce_enabled in
      let table = if enabled then debounced.0 else d.table in
      let phy_stable = if enabled then debounced.1 else phy_raw in
      let slot' = keys_apply_map slot slot.keymap phy_stable in
      let events = if has_ufd then report_events slot' phy_stable else [] in
      (record { slot = record slot' { battery = pos battery }; table = table }, events)

  unfoldable pub translate_ds4 :
      (ℕ → ℕ) → ℕ → Bool → List ℕ → Driver → Option (Driver × List InputEvent)
  translate_ds4 now slot_idx has_ufd buf d = do
    let offset = if get_or buf 0 0 == 0x11 then 3 else 1
    let at = λ (i : ℕ). get_or buf (offset + i) 0
    axes ← read_axes d.slot (at 0) (at 1) (at 2) (at 3) (at 7) (at 8)
    let phy_raw = read_buttons (at 4) (at 5) (at 6)
    some (finish_report now slot_idx has_ufd d axes phy_raw (ds4_battery (at 29)))

  unfoldable pub translate_dualsense :
      (ℕ → ℕ) → ℕ → Bool → List ℕ → Driver → Option (Driver × List InputEvent)
  translate_dualsense now slot_idx has_ufd buf d = do
    let offset = if get_or buf 0 0 == 0x31 then 2 else 1
    let at = λ (i : ℕ). get_or buf (offset + i) 0
    axes ← read_axes d.slot (at 0) (at 1) (at 2) (at 3) (at 4) (at 5)
    let phy_raw = read_buttons (at 7) (at 8) (at 9)
    some (finish_report now slot_idx has_ufd d axes phy_raw (dualsense_battery (at 52)))
