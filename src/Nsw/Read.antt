-- ===== src/Nsw/Read.antt =====
-- nsw_read_events of dstx/src/nsw.c: the events that the kernel has for the controller, the
-- corrections of the sticks, and when the slot is forwarded. What the calls of read(2) give is a
-- list, whose end is EAGAIN. `none` is undefined behaviour in the arithmetic on the sticks, or a
-- write out of the buffer of the report.
pub mod Held
pub mod Lost
use dstx.Common.{
  ℕ, ◌+◌, ◌-◌, ◌%◌, Bool, true, false, Option, none, some, List, [], ◌∷◌, ltb, leb, ◌==◌, not, ◌&&◌,
  ◌||◌, set, take, replicate, truth, of_bool, if◌then◌else◌, ◌>>=◌,
}
use dstx.Common.Int.{
  ℤ, pos, negsuc, ◌+ℤ◌, ◌-ℤ◌, ltb_ℤ, eqb_ℤ, u8_of_ℤ, int16_min, int16_max, pos_part, neg_part,
  sub_ℕ,
}
use dstx.Controller.{Axes, Controller, Timeval, elapsed_us}
use dstx.AxisSystem.{Float, apply_sensitivity_core, apply_deadzone}
use dstx.Keys.{keys_apply_map}
use dstx.Drivers.{
  invert_axis, KeyCode, btn_west, btn_north, btn_south, btn_east, btn_tl, btn_tr, btn_tl2, btn_tr2,
  btn_select, btn_start, btn_thumbl, btn_thumbr, btn_mode, AbsCode, abs_x, abs_y, abs_rx, abs_ry,
  abs_hat0x, abs_hat0y, InputEvent,
}
use dstx.Uhid.{uhid_build_input_report}
use dstx.Nsw.{NswContext, Forwarded}
use dstx.Nsw.Forward.{forward}

-- What one read of the event device gives: an event, EINTR (or a part of an event), or another
-- error. An event has a code that the switch names and a 32-bit value, or is of another kind.
pub data NswEvent : Type 0 where
  key : KeyCode → ℤ → NswEvent
  btn_z : ℤ → NswEvent
  abs : AbsCode → ℤ → NswEvent
  other : NswEvent

pub data ReadResult : Type 0 where
  got : NswEvent → ReadResult
  interrupted failed : ReadResult

-- The physical button of each key.
unfoldable pub phy_of : KeyCode → ℕ
phy_of btn_south = 0
phy_of btn_east = 1
phy_of btn_west = 2
phy_of btn_north = 3
phy_of btn_tl = 4
phy_of btn_tr = 5
phy_of btn_tl2 = 6
phy_of btn_tr2 = 7
phy_of btn_select = 8
phy_of btn_start = 9
phy_of btn_thumbl = 10
phy_of btn_thumbr = 11
phy_of btn_mode = 12

-- The conversion of a 32-bit value to `int16_t`.
unfoldable pub i16_of_ℤ : ℤ → ℤ
i16_of_ℤ v =
    let low = (pos_part v % 65536 + 65536 - neg_part v % 65536) % 65536 in
    if ltb low 32768 then pos low else sub_ℕ low 65536

abbrev trigger_level : ℤ → ℤ
trigger_level v = if eqb_ℤ v (pos 0) then pos 0 else pos 255

abbrev is_value : ℤ → ℤ → ℕ
is_value v w = of_bool (eqb_ℤ v w)

-- The slot's triggers and the context after one event.
unfoldable pub handle_event : NswEvent → Axes → NswContext → Axes × NswContext
handle_event (key btn_tl2 v) a ctx =
    (record a { lt = trigger_level v }, record ctx { phy_raw = set ctx.phy_raw 6 (u8_of_ℤ v) })
handle_event (key btn_tr2 v) a ctx =
    (record a { rt = trigger_level v }, record ctx { phy_raw = set ctx.phy_raw 7 (u8_of_ℤ v) })
handle_event (key code v) a ctx =
    (a, record ctx { phy_raw = set ctx.phy_raw (phy_of code) (u8_of_ℤ v) })
handle_event (btn_z v) a ctx = (a, record ctx { phy_raw = set ctx.phy_raw 13 (u8_of_ℤ v) })
handle_event (abs abs_x v) a ctx = (a, record ctx { lx = i16_of_ℤ v })
handle_event (abs abs_y v) a ctx = (a, record ctx { ly = i16_of_ℤ v })
handle_event (abs abs_rx v) a ctx = (a, record ctx { rx = i16_of_ℤ v })
handle_event (abs abs_ry v) a ctx = (a, record ctx { ry = i16_of_ℤ v })
handle_event (abs abs_hat0x v) a ctx = (
  a,
  record ctx { phy_raw = set (set ctx.phy_raw 16 (is_value v (negsuc 0))) 17 (is_value v (pos 1)) },
)
handle_event (abs abs_hat0y v) a ctx = (
  a,
  record ctx { phy_raw = set (set ctx.phy_raw 14 (is_value v (negsuc 0))) 15 (is_value v (pos 1)) },
)
handle_event (abs code v) a ctx = (a, ctx)
handle_event other a ctx = (a, ctx)

-- What the loop of reads leaves: the triggers, the context, the count of events, and whether it
-- ended without an error.
pub record Drained : Type 0 where
  pub axes : Axes
  pub ctx : NswContext
  pub count : ℕ
  pub at_end : Bool

unfoldable pub drain_events : List ReadResult → Axes → NswContext → ℕ → Drained
drain_events [] a ctx count = record { axes = a; ctx = ctx; count = count; at_end = true }
drain_events (interrupted ∷ reads) a ctx count = drain_events reads a ctx count
drain_events (failed ∷ reads) a ctx count = record {
  axes = a;
  ctx = record ctx { connected = false };
  count = count;
  at_end = false;
}
drain_events (got ev ∷ reads) a ctx count =
    let handled = handle_event ev a ctx in drain_events reads handled.0 handled.1 (count + 1)

unfoldable pub clamp_axis : ℤ → ℤ
clamp_axis v = if ltb_ℤ int16_max v then int16_max else if ltb_ℤ v int16_min then int16_min else v

-- The correction of the sticks over Bluetooth.
unfoldable pub correct_sticks : Bool → NswContext → (ℤ × ℤ) × (ℤ × ℤ)
unfolding clamp_axis
correct_sticks is_bluetooth ctx =
    if is_bluetooth
    then (
      (clamp_axis (ctx.lx +ℤ pos 2545), clamp_axis (ctx.ly -ℤ pos 2978)),
      (clamp_axis (ctx.rx +ℤ pos 2438), clamp_axis (ctx.ry -ℤ pos 2873)),
    )
    else ((ctx.lx, ctx.ly), (ctx.rx, ctx.ry))

module _ (f : Float) where
  abbrev dead_zone : ℕ → ℤ → ℤ → Option (ℤ × ℤ)
  dead_zone dz x y = if truth dz then apply_deadzone f x y dz else some (x, y)

  unfoldable pub nsw_apply_transforms : Controller → NswContext → Option Controller
  unfolding correct_sticks
  nsw_apply_transforms slot ctx =
      let s = slot.settings in
      let sticks = correct_sticks slot.is_bluetooth ctx in
      let dz = if ltb 100 s.deadzone then 0 else s.deadzone in
      do
        left ← apply_sensitivity_core f s.sensitivity_left_preset sticks.0.0 sticks.0.1
        right ← apply_sensitivity_core f s.sensitivity_right_preset sticks.1.0 sticks.1.1
        left' ← dead_zone dz left.0 (invert_axis s.invert_ly left.1)
        right' ← dead_zone dz right.0 (invert_axis s.invert_ry right.1)
        some (record slot {
          axes = record (slot.axes) { lx = left'.0; ly = left'.1; rx = right'.0; ry = right'.1 };
        })

-- What a pass gives: the slot, the context, the events for uinput, the report for UHID (the bytes
-- that uhid_send_input is given) and the count.
pub record Pass : Type 0 where
  pub slot : Controller
  pub ctx : NswContext
  pub events : List InputEvent
  pub report : Option (List ℕ)
  pub count : ℕ

abbrev idle : Controller → NswContext → ℕ → Pass
idle slot ctx count = record { slot = slot; ctx = ctx; events = []; report = none; count = count }

-- NSW_UINPUT_RATE_LIMIT_US
abbrev pub rate_limit_us : ℕ
rate_limit_us = 4000

-- The 64 bytes of the report are uninitialized there and zero here.
unfoldable pub uhid_report : Controller → Option (Option (List ℕ))
uhid_report slot = do
  built ← uhid_build_input_report slot (replicate 64 0) 64
  some (if truth built.0 then some (take built.0 built.1) else none)

-- The forwarding at time `now`: the events if only uinput is open, the report if UHID is open.
unfoldable pub forward_slot : Timeval → Bool → Controller → NswContext → ℕ → Option Pass
forward_slot now has_ufd slot ctx count =
    let sent = forward slot ctx.cache in
    let to_uinput = has_ufd && not ctx.uhid_open in
    let ctx' = record ctx {
      cache = if to_uinput then sent.0 else ctx.cache;
      last_uinput_time = now;
    } in
    do
      bytes ← if ctx.uhid_open then uhid_report slot else some none
      some (record {
        slot = slot;
        ctx = ctx';
        events = if to_uinput then sent.1 else [];
        report = bytes;
        count = count;
      })

module _ (f : Float) where
  -- From the transforms on, after all events were read.
  unfoldable pub finish_pass : Timeval → Bool → Controller → NswContext → ℕ → Option Pass
  unfolding nsw_apply_transforms
  finish_pass now has_ufd slot ctx count =
      let due = not (ltb_ℤ (elapsed_us now ctx.last_uinput_time) (pos rate_limit_us)) in
      do
        moved ← nsw_apply_transforms f slot ctx
        let slot' = keys_apply_map moved moved.keymap ctx.phy_raw
        elim (ltb 0 count && due) [
          | true ↦ forward_slot now has_ufd slot' ctx count
          | false ↦ some (idle slot' ctx count)
        ]

  unfoldable pub nsw_read_events :
      List ReadResult → Timeval → Bool → Controller → NswContext → Option Pass
  unfolding finish_pass
  nsw_read_events reads now has_ufd slot ctx =
      let d = drain_events reads slot.axes ctx 0 in
      let drained = record slot { axes = d.axes } in
      if not ctx.initialized || not ctx.is_active || not ctx.event_open
      then some (idle slot ctx 0)
      else if d.at_end
      then finish_pass now has_ufd drained d.ctx d.count
      else some (idle drained d.ctx d.count)
