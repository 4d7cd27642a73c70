-- ===== src/Console.antt =====
-- The commands of the terminal interface for a slot, in run_ui_loop of dstx/src/ui.c: the chain of
-- tests on the line that was entered, as a list of rules of which the first that fits is applied.
-- Notifications are left out.
pub mod Agrees
pub mod Kept
pub mod Keys
pub mod Lines
pub mod Select
use dstx.Common.{
  ℕ, zero, suc, ◌-◌, Bool, true, false, Option, none, some, List, [], ◌∷◌, ◌++◌, ◌==◌, not, ◌&&◌,
  ◌||◌, drop, length, if◌then◌else◌,
}
use dstx.Common.Int.{ℤ, pos, pos_part, u8_of_ℤ}
use dstx.Controller.{Controller, phy_btn_count, logical_btn_count}
use dstx.AxisSystem.{sens_preset_count}
use dstx.Ledfx.{ledfx_count}
use dstx.Bus.{BusSlot, request_switch, request_xbox}
use dstx.Text.{Word, Libc, codes, same_text, starts_with, is_xdigit, atoi, scan_int, scan_color}
use dstx.Commands.{
  write, within, write_emulation, force_uhid, write_keybind, write_invert_ly, write_invert_ry,
  apply_sensitivity_preset_left, apply_sensitivity_preset_right, write_triggers, write_ledfx,
  write_brightness, write_deadzone, write_gain, write_rumble, write_debounce, write_reapply,
  write_pled,
}
use dstx.Commands.Slot.{is_dualsense, is_nsw}

-- A test on the line, and what is done with the line.
pub record Rule : Type 0 where
  pub fits : Word → Bool
  pub apply : Word → BusSlot → BusSlot

abbrev exact : Word → (Controller → Controller) → Rule
exact text f = record { fits = λ line. same_text line text; apply = λ line s. write f s }

-- A command that only shows the state.
abbrev shows : Word → Rule
shows text = record { fits = λ line. same_text line text; apply = λ line s. s }

abbrev asks : Word → (BusSlot → BusSlot) → Rule
asks text f = record { fits = λ line. same_text line text; apply = λ line s. f s }

-- A command with an argument, which is the rest of the line.
abbrev prefixed : Word → (Word → BusSlot → BusSlot) → Rule
prefixed text f = record {
  fits = λ line. starts_with text line;
  apply = λ line s. f (drop (length text) line) s;
}

-- A colour also ends the effect that was asked for.
unfoldable pub write_color : ℕ → ℕ → ℕ → Controller → Controller
write_color r g b c = record c {
  led_request = record (c.led_request) {
    led_static = true;
    led_request_pending = false;
    led_request_effect = pos 0;
  };
  feedback = record (c.feedback) {
    led_base_r = r;
    led_base_g = g;
    led_base_b = b;
    led_r = r;
    led_g = g;
    led_b = b;
    led_dirty = true;
  };
}

unfoldable pub color_of : Option (ℕ × ℕ × ℕ) → BusSlot → BusSlot
color_of none s = s
color_of (some (r, g, b)) s = write (write_color r g b) s

-- The player LEDs switch the static mode on.
unfoldable pub static_pled : ℤ → Controller → Controller
static_pled mode c =
    let lit = write_pled mode c in
    record lit { led_request = record (lit.led_request) { led_static = true } }

unfoldable pub switch_only : (BusSlot → BusSlot) → BusSlot → BusSlot
switch_only f s = if is_nsw s.slot.type then f s else s

abbrev request_reset : BusSlot → BusSlot
request_reset s = record s { requests = record (s.requests) { request_reset_all_keybinds = true } }

-- strlen and strspn of six hexadecimal digits.
all_xdigits : Word → Bool
all_xdigits [] = true
all_xdigits (c ∷ s) = is_xdigit c && all_xdigits s

unfoldable pub is_bare_color : Word → Bool
unfolding all_xdigits
is_bare_color line = length line == 6 && all_xdigits line

after_int : Option (ℤ × Word) → (Word → List ℤ) → List ℤ
after_int none more = []
after_int (some (v, rest)) more = v ∷ more rest

module _ (libc : Libc) where
  -- The numbers that sscanf assigns for a number of `%d`.
  unfoldable pub scan_ints : ℕ → Word → List ℤ
  unfolding after_int
  scan_ints zero s = []
  scan_ints (suc n) s = after_int (scan_int libc s) (scan_ints n)

  percent : (ℤ → Controller → Controller) → Word → BusSlot → BusSlot
  percent f arg s = let v = atoi libc arg in if within 100 v then write (f v) s else s

  sensitivity : (ℤ → Controller → Controller) → Word → BusSlot → BusSlot
  sensitivity f arg s =
      let preset = atoi libc arg in
      if within (sens_preset_count - 1) preset then write (f preset) s else s

  keybind_of : List ℤ → BusSlot → BusSlot
  keybind_of (physical ∷ logical ∷ []) s =
      if within (phy_btn_count - 1) physical && within (logical_btn_count - 1) logical
      then write (write_keybind (pos_part physical) (pos_part logical)) s
      else s
  keybind_of values s = s

  pled : Word → BusSlot → BusSlot
  pled arg s =
      let mode = atoi libc arg in
      if not (is_dualsense s.slot.type)
      then s
      else if within 5 mode
      then write (static_pled mode) s
      else s

  -- The speed and the brightness are not checked.
  effect_of : ℤ → ℤ → ℤ → BusSlot → BusSlot
  effect_of effect speed brightness s =
      if within (ledfx_count - 1) effect
      then write (write_ledfx effect (u8_of_ℤ speed) (u8_of_ℤ brightness)) s
      else s

  unfoldable pub ledfx_of : List ℤ → BusSlot → BusSlot
  unfolding effect_of
  ledfx_of (effect ∷ []) s = effect_of effect (pos 5) (pos 80) s
  ledfx_of (effect ∷ speed ∷ []) s = effect_of effect speed (pos 80) s
  ledfx_of (effect ∷ speed ∷ brightness ∷ more) s = effect_of effect speed brightness s
  ledfx_of [] s = s

  -- The chain, in its order.
  unfoldable pub mode_rules : List Rule
  mode_rules =
      exact (codes "uhid on") (force_uhid true)
      ∷ exact (codes "uhid off") (force_uhid false)
      ∷ exact (codes "invert ly on") (write_invert_ly true)
      ∷ exact (codes "invert ly off") (write_invert_ly false)
      ∷ exact (codes "invert ry on") (write_invert_ry true)
      ∷ exact (codes "invert ry off") (write_invert_ry false)
      ∷ shows (codes "invert status")
      ∷ exact (codes "triggers-digital on") (write_triggers true)
      ∷ exact (codes "triggers-digital off") (write_triggers false)
      ∷ shows (codes "triggers-digital status")
      ∷ []

  unfoldable pub button_rules : List Rule
  unfolding sensitivity keybind_of
  button_rules =
      prefixed (codes "sensitivity left ") (sensitivity apply_sensitivity_preset_left)
      ∷ prefixed (codes "sensitivity right ") (sensitivity apply_sensitivity_preset_right)
      ∷ shows (codes "sensitivity status")
      ∷ shows (codes "sensitivity")
      ∷ asks (codes "layout switch") (switch_only request_switch)
      ∷ asks (codes "layout xbox") (switch_only request_xbox)
      ∷ asks (codes "reset-keybinds") request_reset
      ∷ shows (codes "keymap")
      ∷ prefixed (codes "keybind ") (λ arg. keybind_of (scan_ints 2 arg))
      ∷ []

  unfoldable pub switch_rules : List Rule
  unfolding percent
  switch_rules =
      exact (codes "emulation on") (write_emulation true)
      ∷ exact (codes "emulation off") (write_emulation false)
      ∷ exact (codes "debounce on") (write_debounce true)
      ∷ exact (codes "debounce off") (write_debounce false)
      ∷ exact (codes "rumble on") (write_rumble true)
      ∷ exact (codes "rumble off") (write_rumble false)
      ∷ shows (codes "rumble status")
      ∷ prefixed (codes "gain ") (percent write_gain)
      ∷ prefixed (codes "deadzone ") (percent write_deadzone)
      ∷ exact (codes "reapply on") (write_reapply true)
      ∷ exact (codes "reapply off") (write_reapply false)
      ∷ shows (codes "reapply status")
      ∷ []

  unfoldable pub led_rules : List Rule
  unfolding percent pled
  led_rules =
      prefixed (codes "pled ") pled
      ∷ prefixed (codes "color ") (λ arg. color_of (scan_color libc arg))
      ∷ record { fits = is_bare_color; apply = λ line. color_of (scan_color libc line) }
      ∷ prefixed (codes "ledfx") (λ arg. ledfx_of (scan_ints 3 arg))
      ∷ prefixed (codes "brightness ") (percent write_brightness)
      ∷ []

  unfoldable pub slot_rules : List Rule
  slot_rules = mode_rules ++ (button_rules ++ (switch_rules ++ led_rules))

-- The first rule that fits; without one the line is ignored.
unfoldable pub apply_rules : List Rule → Word → BusSlot → BusSlot
apply_rules [] line s = s
apply_rules (r ∷ rules) line s = if r.fits line then r.apply line s else apply_rules rules line s

unfoldable pub slot_line : Libc → Word → BusSlot → BusSlot
slot_line libc line s = apply_rules (slot_rules libc) line s
