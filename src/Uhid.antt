-- ===== src/Uhid.antt =====
-- dstx/src/uhid.c: the reports of the virtual HID device in both directions.
-- A buffer is a list as long as the array that it stands for; `none` is a write out of range.
pub mod InputReport
pub mod Output
use Prim.Native.Nat.{bit_and, bit_or}
use dstx.Common.{
  ℕ, suc, zero, ◌+◌, ◌-◌, ◌*◌, ◌/◌, ◌%◌, Bool, true, false, Option, none, some, List, [], ◌∷◌, ◌++◌,
  ◌==◌, leb, ltb, ◌&&◌, truth, u8, if◌then◌else◌, get_or, set, length, drop, replicate, ◌>>=◌,
}
use dstx.Common.Int.{u8_of_ℤ, ℤ, pos, negsuc, eqb_ℤ, pos_part, neg_part}
use dstx.Controller.{Buttons, Controller, Feedback, get_trigger_axis_value}

-- buf[i] = v
unfoldable pub store : List ℕ → ℕ → ℕ → Option (List ℕ)
store buf i v = if ltb i (length buf) then some (set buf i v) else none

-- memset(buf, 0, n)
unfoldable pub clear : List ℕ → ℕ → Option (List ℕ)
clear buf n = if leb n (length buf) then some (replicate n 0 ++ drop n buf) else none

abbrev or_bit : ℕ → ℕ → ℕ → ℕ
or_bit pressed mask buttons = if truth pressed then bit_or buttons mask else buttons

-- The 16 bits of the buttons; in digital mode the triggers are among them.
unfoldable pub button_bits : Buttons → Bool → ℕ
button_bits b trig_digital =
    let buttons = or_bit b.cross 0x0001 0 in
    let buttons = or_bit b.circle 0x0002 buttons in
    let buttons = or_bit b.triangle 0x0010 buttons in
    let buttons = or_bit b.square 0x0008 buttons in
    let buttons = or_bit b.l1 0x0040 buttons in
    let buttons = or_bit b.r1 0x0080 buttons in
    let buttons = or_bit b.share 0x0400 buttons in
    let buttons = or_bit b.options 0x0800 buttons in
    let buttons = or_bit b.ps 0x1000 buttons in
    let buttons = or_bit b.l3 0x2000 buttons in
    let buttons = or_bit b.r3 0x4000 buttons in
    if trig_digital then or_bit b.r2 0x0200 (or_bit b.l2 0x0100 buttons) else buttons

-- The hat switch, 0 to 7 clockwise from up, 8 at rest.
unfoldable pub dpad_value : ℤ → ℤ → ℕ
dpad_value x y =
    let up = eqb_ℤ y (negsuc 0) in
    let down = eqb_ℤ y (pos 1) in
    let level = eqb_ℤ y (pos 0) in
    let left = eqb_ℤ x (negsuc 0) in
    let right = eqb_ℤ x (pos 1) in
    let middle = eqb_ℤ x (pos 0) in
    if up && middle
    then 0
    else if up && right
    then 1
    else if level && right
    then 2
    else if down && right
    then 3
    else if down && middle
    then 4
    else if down && left
    then 5
    else if level && left
    then 6
    else if up && left
    then 7
    else 8

-- (axis + 32768) >> 8 of an int16_t.
unfoldable pub stick_byte : ℤ → ℕ
stick_byte v = u8 ((pos_part v + 32768 - neg_part v) / 256)

-- The size and the buffer.
unfoldable pub uhid_build_input_report : Controller → List ℕ → ℕ → Option (ℕ × List ℕ)
uhid_build_input_report slot buf buf_size =
    let digital = slot.settings.is_trigger_digital in
    let buttons = button_bits slot.buttons digital in
    let filled = do
      buf ← clear buf 12
      buf ← store buf 0 0x01
      buf ← store buf 1 (bit_and buttons 0xFF)
      buf ← store buf 2 (bit_and (buttons / 256) 0xFF)
      buf ← store buf 3 (dpad_value slot.hat_x slot.hat_y)
      buf ← store buf 4 (stick_byte slot.axes.lx)
      buf ← store buf 5 (stick_byte slot.axes.ly)
      buf ← store buf 8 (stick_byte slot.axes.rx)
      store buf 9 (stick_byte slot.axes.ry)
    in let analog = do
      buf ← filled
      buf ← store buf 11 (u8_of_ℤ (get_trigger_axis_value slot true))
      store buf 12 (u8_of_ℤ (get_trigger_axis_value slot false))
      in let written = do buf ← if digital then filled else analog; some (13, buf)
        in if ltb buf_size 12 then some (0, buf) else written

-- The rumble that a report asks for, scaled by the gain of the slot. The products stay below
-- 2 ^ 16; `uint8_t` cuts the quotient if the gain is above 100.
unfoldable pub set_rumble : Feedback → ℕ → ℕ → Feedback
set_rumble fb strong weak = record fb {
  rumble_strong = u8 (strong * fb.rumble_gain / 100);
  rumble_weak = u8 (weak * fb.rumble_gain / 100);
  rumble_dirty = true;
}

-- The events of linux/uhid.h that carry something, with their payload; any other only logs.
pub data UhidEvent : Type 0 where
  output : ℕ → List ℕ → UhidEvent
  get_report : ℕ → UhidEvent
  set_report : ℕ → ℕ → ℕ → List ℕ → UhidEvent
  other : UhidEvent

-- What is written back to the kernel: the identifier of the request, err and size being 0.
pub data UhidReply : Type 0 where
  get_report_reply : ℕ → UhidReply
  set_report_reply : ℕ → UhidReply

unfoldable pub uhid_handle_output : ℕ → List ℕ → Controller → Controller
unfolding set_rumble
uhid_handle_output size bytes slot =
    if leb 3 size
    then record slot { feedback = set_rumble slot.feedback (get_or bytes 1 0) (get_or bytes 2 0) }
    else slot

unfoldable pub uhid_handle_set_report : ℕ → ℕ → List ℕ → Controller → Controller
unfolding set_rumble
uhid_handle_set_report size rtype bytes slot =
    if leb 3 size && rtype == 2
    then record slot { feedback = set_rumble slot.feedback (get_or bytes 1 0) (get_or bytes 2 0) }
    else slot

-- One round of the loop of uhid_handle_events.
unfoldable pub uhid_handle_event : UhidEvent → Controller → Controller × List UhidReply
uhid_handle_event (output size bytes) slot = (uhid_handle_output size bytes slot, [])
uhid_handle_event (get_report id) slot = (slot, get_report_reply id ∷ [])
uhid_handle_event (set_report id size rtype bytes) slot =
    (uhid_handle_set_report size rtype bytes slot, set_report_reply id ∷ [])
uhid_handle_event other slot = (slot, [])

-- The loop, over the events that are read before a read fails.
unfoldable pub uhid_handle_events : List UhidEvent → Controller → Controller × List UhidReply
uhid_handle_events [] slot = (slot, [])
uhid_handle_events (ev ∷ rest) slot =
    let (slot', replies) = uhid_handle_event ev slot in
    let (slot'', later) = uhid_handle_events rest slot' in (slot'', replies ++ later)
