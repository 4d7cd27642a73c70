-- ===== src/Commands/Ranges.antt =====
-- What the slot commands of dstx/src/commands.c leave of the ranges of a slot.
use dstx.Common.{ℕ, ◌-◌, ◌≤◌, ◌<◌, ◌≡◌, ◌∙◌, Bool, true, false, set, length-set, All-set, arith}
use dstx.Common.Int.{ℤ, pos, negsuc, u8_of_ℤ, pos_part}
use dstx.Controller.{Controller, logical_btn_count}
use dstx.Controller.Config.{controller_to_slot_config}
use dstx.AxisSystem.{sens_preset_count}
use dstx.Profiles.Json.Ranges.{IsButton}
use dstx.Bus.{write_led}
use dstx.Bus.Written.{IsSavable, with_keymap-IsSavable}
use dstx.Commands.{
  within, write_emulation, force_uhid, write_keybind, write_invert_ly, write_invert_ry,
  apply_sensitivity_preset_left, apply_sensitivity_preset_right, write_triggers, write_static,
  write_ledfx, write_brightness, write_deadzone, write_gain, write_rumble, write_debounce,
  write_reapply, write_pled,
}

-- A number within a bound is the byte that is stored.
pub within-le : (high : ℕ) (v : ℤ) → within high v ≡ true → pos_part v ≤ high
unfolding within
within-le high (pos n) h = ground arith
within-le high (negsuc n) h = ground arith

pub within-u8 : (high : ℕ) (v : ℤ) → high < 256 → within high v ≡ true → u8_of_ℤ v ≤ high
unfolding within u8_of_ℤ
within-u8 high (pos n) lt h = ground arith
within-u8 high (negsuc n) lt h = ground arith

module _ (c : Controller) (h : IsSavable c) where
  pub write_emulation-IsSavable : (val : Bool) → IsSavable (write_emulation val c)
  unfolding IsSavable write_emulation controller_to_slot_config
  write_emulation-IsSavable val = ground arith

  pub force_uhid-IsSavable : (val : Bool) → IsSavable (force_uhid val c)
  unfolding IsSavable force_uhid controller_to_slot_config
  force_uhid-IsSavable val = ground arith

  pub write_keybind-IsSavable :
      (phy log : ℕ) → log < logical_btn_count → IsSavable (write_keybind phy log c)
  unfolding IsSavable write_keybind controller_to_slot_config
  write_keybind-IsSavable phy log lt = with_keymap-IsSavable c (set c.keymap phy log) h (record {
    has_entries = length-set c.keymap phy log ∙ h.keymap.has_entries;
    buttons = All-set IsButton c.keymap phy log h.keymap.buttons lt;
  })

  pub write_invert_ly-IsSavable : (val : Bool) → IsSavable (write_invert_ly val c)
  unfolding IsSavable write_invert_ly controller_to_slot_config
  write_invert_ly-IsSavable val = ground arith

  pub write_invert_ry-IsSavable : (val : Bool) → IsSavable (write_invert_ry val c)
  unfolding IsSavable write_invert_ry controller_to_slot_config
  write_invert_ry-IsSavable val = ground arith

  pub preset_left-IsSavable : (preset : ℤ) → IsSavable (apply_sensitivity_preset_left preset c)
  unfolding IsSavable apply_sensitivity_preset_left controller_to_slot_config
  preset_left-IsSavable preset = ground (arith, within-le (sens_preset_count - 1) preset)

  pub preset_right-IsSavable : (preset : ℤ) → IsSavable (apply_sensitivity_preset_right preset c)
  unfolding IsSavable apply_sensitivity_preset_right controller_to_slot_config
  preset_right-IsSavable preset = ground (arith, within-le (sens_preset_count - 1) preset)

  pub write_triggers-IsSavable : (val : Bool) → IsSavable (write_triggers val c)
  unfolding IsSavable write_triggers controller_to_slot_config
  write_triggers-IsSavable val = ground arith

  pub write_led-IsSavable :
      (r g b : ℕ) → r < 256 → g < 256 → b < 256 → IsSavable (write_led r g b c)
  unfolding IsSavable write_led controller_to_slot_config
  write_led-IsSavable r g b hr hg hb = ground arith

  pub write_static-IsSavable : IsSavable (write_static c)
  unfolding IsSavable write_static controller_to_slot_config
  write_static-IsSavable = ground arith

  pub write_ledfx-IsSavable :
      (effect : ℤ) (speed brightness : ℕ)
      → within 8 effect ≡ true
      → 1 ≤ speed
      → speed ≤ 10
      → brightness ≤ 100
      → IsSavable (write_ledfx effect speed brightness c)
  unfolding IsSavable write_ledfx controller_to_slot_config
  write_ledfx-IsSavable effect speed brightness e low high top =
      ground (arith, within-u8 8 effect (omega arith) e, write_static-IsSavable)

  pub write_brightness-IsSavable : (b : ℤ) → within 100 b ≡ true → IsSavable (write_brightness b c)
  unfolding IsSavable write_brightness controller_to_slot_config
  write_brightness-IsSavable b e = ground (arith, within-u8 100 b (omega arith) e)

  pub write_deadzone-IsSavable : (dz : ℤ) → within 100 dz ≡ true → IsSavable (write_deadzone dz c)
  unfolding IsSavable write_deadzone controller_to_slot_config
  write_deadzone-IsSavable dz e = ground (arith, within-u8 100 dz (omega arith) e)

  pub write_gain-IsSavable : (g : ℤ) → within 100 g ≡ true → IsSavable (write_gain g c)
  unfolding IsSavable write_gain controller_to_slot_config
  write_gain-IsSavable g e = ground (arith, within-u8 100 g (omega arith) e)

  pub write_rumble-IsSavable : (val : Bool) → IsSavable (write_rumble val c)
  unfolding IsSavable write_rumble controller_to_slot_config
  write_rumble-IsSavable true = ground arith
  write_rumble-IsSavable false = ground arith

  pub write_debounce-IsSavable : (val : Bool) → IsSavable (write_debounce val c)
  unfolding IsSavable write_debounce controller_to_slot_config
  write_debounce-IsSavable val = ground arith

  pub write_reapply-IsSavable : (val : Bool) → IsSavable (write_reapply val c)
  unfolding IsSavable write_reapply controller_to_slot_config
  write_reapply-IsSavable val = ground arith

  pub write_pled-IsSavable : (p : ℤ) → within 5 p ≡ true → IsSavable (write_pled p c)
  unfolding IsSavable write_pled controller_to_slot_config
  write_pled-IsSavable p e = ground (arith, within-u8 5 p (omega arith) e)
