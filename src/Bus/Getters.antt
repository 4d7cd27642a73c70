-- ===== src/Bus/Getters.antt =====
-- The methods of the D-Bus bridge that read a slot, in dstx/src/dbus-handlers.c. Most answer from the
-- copy that the monitor keeps, two from the shared memory itself. An answer is the list of its numbers.
pub mod Expected
pub mod Shown
use dstx.Common.{
  ℕ, ◌+◌, ◌-◌, Bool, true, false, List, [], ◌∷◌, ◌++◌, map, ltb, leb, not, ◌&&◌, get_or, truth,
  of_bool, if◌then◌else◌,
}
use dstx.Common.Int.{ℤ, pos, negsuc}
use dstx.Controller.{Controller, ControllerType, type_ds4, type_dualsense, type_nsw_pro}
use dstx.Debounce.{max_slots}
use dstx.Monitor.{pack_buttons}
use dstx.Monitor.Round.{Monitored, start_monitored}
use dstx.Monitor.Status.{Bridge}
use dstx.Bus.{BusSlot, empty_slot, open_shm_handle}

pub data Getter : Type 0 where
  get_controller_info get_telemetry get_invert_status get_sensitivity_preset : Getter
  get_keymap get_triggers_digital : Getter

number_of_type : ControllerType → ℕ
number_of_type type_ds4 = 0
number_of_type type_dualsense = 1
number_of_type type_nsw_pro = 2

abbrev flag : Bool → ℤ
flag b = pos (of_bool b)

-- Above 8 as a uint32_t, which a negative number is too.
shown_effect : ℤ → ℕ
shown_effect (pos n) = if ltb 8 n then 0 else n
shown_effect (negsuc n) = 0

-- An `int` as a uint32_t.
as_u32 : ℤ → ℤ
as_u32 (pos n) = pos n
as_u32 (negsuc n) = pos (4294967295 - n)

-- The 52 numbers of GetControllerInfo, in their order.
info_settings : Controller → List ℤ
unfolding number_of_type shown_effect as_u32
info_settings c =
    pos (number_of_type c.type)
    ∷ flag c.is_bluetooth
    ∷ pos c.feedback.led_r
    ∷ pos c.feedback.led_g
    ∷ pos c.feedback.led_b
    ∷ pos c.feedback.led_base_r
    ∷ pos c.feedback.led_base_g
    ∷ pos c.feedback.led_base_b
    ∷ as_u32 c.battery
    ∷ pos c.feedback.rumble_gain
    ∷ pos c.settings.deadzone
    ∷ pos c.feedback.global_led_brightness
    ∷ pos c.feedback.player_leds
    ∷ flag c.settings.emulate_active
    ∷ flag c.settings.is_uhid
    ∷ flag c.settings.is_trigger_digital
    ∷ flag c.settings.debounce_enabled
    ∷ flag c.settings.led_reapply
    ∷ flag c.settings.rumble_active
    ∷ flag c.settings.invert_ly
    ∷ flag c.settings.invert_ry
    ∷ pos c.settings.sensitivity_left_preset
    ∷ pos c.settings.sensitivity_right_preset
    ∷ flag c.led_request.led_static
    ∷ pos (shown_effect c.led_request.led_request_effect)
    ∷ pos (if ltb c.led_request.led_request_speed 1 then 5 else c.led_request.led_request_speed)
    ∷ []

axes_of : Controller → List ℤ → List ℤ
axes_of c more =
    c.axes.lx ∷ c.axes.ly ∷ c.axes.rx ∷ c.axes.ry ∷ c.axes.lt ∷ c.axes.rt ∷ c.hat_x ∷ c.hat_y ∷ more

info_buttons : Controller → List ℕ
info_buttons c =
    let b = c.buttons in
    b.square ∷ b.cross ∷ b.circle ∷ b.triangle ∷ b.l1 ∷ b.r1 ∷ b.l2 ∷ b.r2 ∷ b.share ∷ b.options
    ∷ b.ps ∷ b.l3 ∷ b.r3 ∷ b.touch_btn ∷ b.dpad_up ∷ b.dpad_down ∷ b.dpad_left ∷ b.dpad_right ∷ []

-- The first direction that is pressed, in the order of the tests.
dpad_of : Controller → ℕ
dpad_of c =
    if truth c.buttons.dpad_up
    then 1
    else if truth c.buttons.dpad_down
    then 2
    else if truth c.buttons.dpad_left
    then 3
    else if truth c.buttons.dpad_right
    then 4
    else 0

-- What a getter reads from a slot.
unfoldable pub read_slot : Getter → Controller → List ℤ
unfolding info_settings axes_of info_buttons dpad_of
read_slot get_controller_info c = info_settings c ++ axes_of c (map (λ n. pos n) (info_buttons c))
read_slot get_telemetry c = axes_of c (pos (pack_buttons c) ∷ pos (dpad_of c) ∷ [])
read_slot get_invert_status c = flag c.settings.invert_ly ∷ flag c.settings.invert_ry ∷ []
read_slot get_sensitivity_preset c =
    pos c.settings.sensitivity_left_preset ∷ pos c.settings.sensitivity_right_preset ∷ []
read_slot get_keymap c = map (λ n. pos n) c.keymap
read_slot get_triggers_digital c = flag c.settings.is_trigger_digital ∷ []

pub data Answer : Type 0 where
  refused failed : Answer
  values : (numbers : List ℤ) → Answer

from_copy : Bridge → ℕ → Getter → Answer
from_copy b i g =
    let c = (get_or b.slots i start_monitored).current in
    if not b.daemon_alive
    then failed
    else if not c.connected
    then failed
    else values (read_slot g c)

-- `maps` says whether the shared memory could be mapped; it is not tried with a dead daemon,
-- and the slot must be connected there.
from_memory : Bridge → Bool → List BusSlot → ℕ → Getter → Answer
from_memory b maps slots i g =
    if open_shm_handle (b.daemon_alive && maps) i slots
    then values (read_slot g (get_or slots i empty_slot).slot)
    else failed

answer : Bridge → Bool → List BusSlot → ℕ → Getter → Answer
unfolding from_copy from_memory
answer b maps slots i get_keymap = from_memory b maps slots i get_keymap
answer b maps slots i get_triggers_digital = from_memory b maps slots i get_triggers_digital
answer b maps slots i g = from_copy b i g

unfoldable pub handle_get : Bridge → (maps : Bool) → List BusSlot → ℕ → Getter → Answer
unfolding answer
handle_get b maps slots i g = if leb max_slots i then refused else answer b maps slots i g

-- GetControllers: the slots that are connected.
connected_from : ℕ → List Monitored → List ℕ
connected_from i [] = []
connected_from i (m ∷ slots) =
    let rest = connected_from (i + 1) slots in if m.current.connected then i ∷ rest else rest

unfoldable pub get_controllers : Bridge → List ℕ
unfolding connected_from
get_controllers b = if b.daemon_alive then connected_from 0 b.slots else []
