-- ===== src/Controller.antt =====
-- `controller_t` of dstx/src/dstx.h, its enums, and the helper on triggers beside it.
-- The one C struct is a record of records, a group for each heading of the struct; the fields
-- that only carry descriptors, paths and names of the device are left out.
pub mod Config
use dstx.Common.{ℕ, ◌*◌, ◌+◌, ◌≡◌, Bool, List, ltb, truth, ◌==◌, if◌then◌else◌, get_or, length}
use dstx.Common.Int.{ℤ, pos, ltb_ℤ, sub_ℕ}

pub data ControllerType : Type 0 where
  type_ds4 type_dualsense type_nsw_pro : ControllerType

-- `struct timeval`: seconds and microseconds.
pub record Timeval : Type 0 where
  pub sec : ℕ
  pub usec : ℕ

abbrev pub in_us : Timeval → ℕ
in_us t = t.sec * 1000000 + t.usec

-- The `elapsed` that the pipelines compute, a signed `long`.
abbrev pub elapsed_us : Timeval → Timeval → ℤ
elapsed_us now last = sub_ℕ (in_us now) (in_us last)

-- Sticks are `int16_t`, the triggers hold 0 to 255 in an `int16_t`.
pub record Axes : Type 0 where
  pub lx : ℤ
  pub ly : ℤ
  pub rx : ℤ
  pub ry : ℤ
  pub lt : ℤ
  pub rt : ℤ

-- The digital buttons, the stable directions of the D-pad among them, each 0 or 1 in a `uint8_t`.
pub record Buttons : Type 0 where
  pub cross : ℕ
  pub circle : ℕ
  pub square : ℕ
  pub triangle : ℕ
  pub l1 : ℕ
  pub r1 : ℕ
  pub l2 : ℕ
  pub r2 : ℕ
  pub share : ℕ
  pub options : ℕ
  pub l3 : ℕ
  pub r3 : ℕ
  pub ps : ℕ
  pub touch_btn : ℕ
  pub dpad_up : ℕ
  pub dpad_down : ℕ
  pub dpad_left : ℕ
  pub dpad_right : ℕ

-- LED colour and rumble, all `uint8_t`, and the flags that ask for a report.
pub record Feedback : Type 0 where
  pub led_r : ℕ
  pub led_g : ℕ
  pub led_b : ℕ
  pub led_base_r : ℕ
  pub led_base_g : ℕ
  pub led_base_b : ℕ
  pub rumble_weak : ℕ
  pub rumble_strong : ℕ
  pub rumble_gain : ℕ
  pub global_led_brightness : ℕ
  pub player_leds : ℕ
  pub led_dirty : Bool
  pub rumble_dirty : Bool
  pub external_retry_count : ℕ
  pub last_external_retry : Timeval

-- The request for an LED effect; `led_request_effect` is an `int`.
pub record LedRequest : Type 0 where
  pub led_static : Bool
  pub led_request_effect : ℤ
  pub led_request_speed : ℕ
  pub led_request_brightness : ℕ
  pub led_request_pending : Bool

-- What the user sets for a slot.
pub record Settings : Type 0 where
  pub deadzone : ℕ
  pub debounce_enabled : Bool
  pub sensitivity_left_preset : ℕ
  pub sensitivity_right_preset : ℕ
  pub emulate_active : Bool
  pub is_uhid : Bool
  pub led_reapply : Bool
  pub rumble_active : Bool
  pub invert_ly : Bool
  pub invert_ry : Bool
  pub is_trigger_digital : Bool

-- `periodic_effect_t`; the three `int16_t` and `uint16_t` settings come from the kernel.
pub record PeriodicEffect : Type 0 where
  pub active : Bool
  pub waveform : ℕ
  pub period : ℕ
  pub magnitude : ℤ
  pub offset : ℤ
  pub phase : ℕ
  pub start_time : Timeval
  pub last_value : ℕ
  pub left_freq : ℕ
  pub right_freq : ℕ

pub record FfEffect : Type 0 where
  pub strong : ℕ
  pub weak : ℕ

-- The force-feedback effects: three arrays of 16 entries and the effect that runs.
-- An `effect_type` is 0 for none, 1 for rumble, 2 for periodic.
pub record Effects : Type 0 where
  pub ff_effects : List FfEffect
  pub periodic_effects : List PeriodicEffect
  pub effect_type : List ℕ
  pub active_effect_id : ℤ
  pub active_effect_type : ℕ

pub record Controller : Type 0 where
  pub axes : Axes
  pub buttons : Buttons
  pub hat_x : ℤ
  pub hat_y : ℤ
  pub battery : ℤ
  pub connected : Bool
  pub is_bluetooth : Bool
  pub type : ControllerType
  pub feedback : Feedback
  pub led_request : LedRequest
  pub settings : Settings
  pub keymap : List ℕ
  pub effects : Effects

-- Entries of `physical_button_t` and `logical_button_t` that the code names on its own.
abbrev pub phy_btn_l2 : ℕ
phy_btn_l2 = 6

abbrev pub phy_btn_r2 : ℕ
phy_btn_r2 = 7

abbrev pub phy_btn_count : ℕ
phy_btn_count = 18

abbrev pub logical_btn_l2 : ℕ
logical_btn_l2 = 7

abbrev pub logical_btn_r2 : ℕ
logical_btn_r2 = 8

abbrev pub logical_btn_count : ℕ
logical_btn_count = 19

-- The axis of one trigger: its analog value, suppressed if the trigger is remapped, and the
-- maximum if another button is mapped to it. `int16_t` holds all three.
abbrev trigger_axis : ℤ → Bool → Bool → ℤ
trigger_axis value mapped pressed =
    if ltb_ℤ (pos 0) value
    then if mapped then value else pos 0
    else if pressed
    then pos 255
    else pos 0

unfoldable pub get_trigger_axis_value : Controller → Bool → ℤ
get_trigger_axis_value slot is_left =
    if is_left
    then trigger_axis slot.axes.lt (get_or slot.keymap phy_btn_l2 0 == logical_btn_l2)
        (truth slot.buttons.l2)
    else trigger_axis slot.axes.rt (get_or slot.keymap phy_btn_r2 0 == logical_btn_r2)
        (truth slot.buttons.r2)
