-- ===== src/Nsw/Forward.antt =====
-- How nsw_read_events forwards the slot to the virtual device: an event for each key and axis whose
-- value differs from the one that was handed to safe_write last. The source does not ask whether the
-- write succeeds, and stores the value all the same: the events here are the ones that are handed to
-- safe_write.
pub mod Replay
pub mod Mirror
use dstx.Common.{ℕ, Bool, true, false, List, [], ◌∷◌, ◌++◌, ◌==◌, if◌then◌else◌}
use dstx.Common.Int.{ℤ, eqb_ℤ}
use dstx.Controller.{Controller, get_trigger_axis_value}
use dstx.Drivers.{
  KeyCode, btn_west, btn_north, btn_south, btn_east, btn_tl, btn_tr, btn_tl2, btn_tr2, btn_select,
  btn_start, btn_thumbl, btn_thumbr, btn_mode, AbsCode, abs_x, abs_y, abs_rx, abs_ry, abs_z, abs_rz,
  abs_hat0x, abs_hat0y, InputEvent, ev_abs, ev_key, syn_report,
}
use dstx.Nsw.{Forwarded}

-- Numbers for the codes, to compare them by.
unfoldable pub key_index : KeyCode → ℕ
key_index btn_south = 0
key_index btn_east = 1
key_index btn_north = 2
key_index btn_west = 3
key_index btn_tl = 4
key_index btn_tr = 5
key_index btn_select = 6
key_index btn_start = 7
key_index btn_mode = 8
key_index btn_thumbl = 9
key_index btn_thumbr = 10
key_index btn_tl2 = 11
key_index btn_tr2 = 12

unfoldable pub abs_index : AbsCode → ℕ
abs_index abs_x = 0
abs_index abs_y = 1
abs_index abs_rx = 2
abs_index abs_ry = 3
abs_index abs_z = 4
abs_index abs_rz = 5
abs_index abs_hat0x = 6
abs_index abs_hat0y = 7

-- The value that the slot has for each code. North is the square and west the triangle.
abbrev pub key_value : Controller → KeyCode → ℕ
key_value slot btn_south = slot.buttons.cross
key_value slot btn_east = slot.buttons.circle
key_value slot btn_north = slot.buttons.square
key_value slot btn_west = slot.buttons.triangle
key_value slot btn_tl = slot.buttons.l1
key_value slot btn_tr = slot.buttons.r1
key_value slot btn_select = slot.buttons.share
key_value slot btn_start = slot.buttons.options
key_value slot btn_mode = slot.buttons.ps
key_value slot btn_thumbl = slot.buttons.l3
key_value slot btn_thumbr = slot.buttons.r3
key_value slot btn_tl2 = slot.buttons.l2
key_value slot btn_tr2 = slot.buttons.r2

abbrev pub abs_value : Controller → AbsCode → ℤ
abs_value slot abs_x = slot.axes.lx
abs_value slot abs_y = slot.axes.ly
abs_value slot abs_rx = slot.axes.rx
abs_value slot abs_ry = slot.axes.ry
abs_value slot abs_z = get_trigger_axis_value slot true
abs_value slot abs_rz = get_trigger_axis_value slot false
abs_value slot abs_hat0x = slot.hat_x
abs_value slot abs_hat0y = slot.hat_y

unfoldable pub store_key : KeyCode → ℕ → Forwarded → Forwarded
store_key k v c = record c {
  last_key = λ j. if key_index j == key_index k then v else c.last_key j;
}

unfoldable pub store_abs : AbsCode → ℤ → Forwarded → Forwarded
store_abs k v c = record c {
  last_abs = λ j. if abs_index j == abs_index k then v else c.last_abs j;
}

-- The blocks of a run of keys, in order: the event and the cache of those that changed.
unfoldable pub forward_keys : List KeyCode → Controller → Forwarded → Forwarded × List InputEvent
forward_keys [] slot c = (c, [])
forward_keys (k ∷ codes) slot c =
    let v = key_value slot k in
    let same = v == c.last_key k in
    let rest = forward_keys codes slot (if same then c else store_key k v c) in
    (rest.0, (if same then [] else ev_key k v ∷ []) ++ rest.1)

unfoldable pub forward_axes : List AbsCode → Controller → Forwarded → Forwarded × List InputEvent
forward_axes [] slot c = (c, [])
forward_axes (k ∷ codes) slot c =
    let v = abs_value slot k in
    let same = eqb_ℤ v (c.last_abs k) in
    let rest = forward_axes codes slot (if same then c else store_abs k v c) in
    (rest.0, (if same then [] else ev_abs k v ∷ []) ++ rest.1)

abbrev pub logical_keys : List KeyCode
logical_keys =
    btn_south ∷ btn_east ∷ btn_north ∷ btn_west ∷ btn_tl ∷ btn_tr ∷ btn_select ∷ btn_start
    ∷ btn_mode ∷ btn_thumbl ∷ btn_thumbr ∷ []

abbrev pub stick_axes : List AbsCode
stick_axes = abs_x ∷ abs_y ∷ abs_rx ∷ abs_ry ∷ []

-- The trigger keys are forwarded in digital mode, the trigger axes in analog mode.
abbrev pub trigger_keys : Bool → List KeyCode
trigger_keys true = btn_tl2 ∷ btn_tr2 ∷ []
trigger_keys false = []

abbrev pub trigger_axes : Bool → List AbsCode
trigger_axes true = []
trigger_axes false = abs_z ∷ abs_rz ∷ []

abbrev pub hat_axes : List AbsCode
hat_axes = abs_hat0x ∷ abs_hat0y ∷ []

-- SYN_REPORT closes what was sent, if anything was.
abbrev pub with_syn : List InputEvent → List InputEvent
with_syn [] = []
with_syn (e ∷ events) = (e ∷ events) ++ (syn_report ∷ [])

unfoldable pub forward : Controller → Forwarded → Forwarded × List InputEvent
forward slot c =
    let digital = slot.settings.is_trigger_digital in
    let keys = forward_keys logical_keys slot c in
    let sticks = forward_axes stick_axes slot keys.0 in
    let trigger = forward_keys (trigger_keys digital) slot sticks.0 in
    let analog = forward_axes (trigger_axes digital) slot trigger.0 in
    let hats = forward_axes hat_axes slot analog.0 in
    (hats.0, with_syn (keys.1 ++ (sticks.1 ++ (trigger.1 ++ (analog.1 ++ hats.1)))))
