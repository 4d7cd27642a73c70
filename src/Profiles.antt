-- ===== src/Profiles.antt =====
-- dstx/src/settings.c: how the settings thread follows the slots with the active profile and saves
-- it. A round of the thread takes the time that it reads; the file is written by code that is not
-- modelled here, so its success is an argument.
pub mod AutoSave
pub mod Json
pub mod Requests
use dstx.Common.{ℕ, Bool, true, false, List, [], ◌∷◌, ◌&&◌, ◌||◌, not, ◌==◌, of_bool, if◌then◌else◌}
use dstx.Common.Int.{ℤ, pos, sub_ℕ, quot_ℤ, ltb_ℤ, ◌+ℤ◌, ◌*ℤ◌}
use dstx.Controller.{Controller, Timeval}
use dstx.Controller.Config.{SlotConfig, controller_to_slot_config}

-- The fields of profile_manager_t that following and saving use; the time stamp of the file is left out.
pub record ProfileManager : Type 0 where
  pub slots : List SlotConfig
  pub profile_dirty : Bool
  pub last_change : Timeval
  pub auto_save_enabled : Bool
  pub auto_save_delay_ms : ℕ

unfoldable pub same_bool : Bool → Bool → Bool
same_bool a b = of_bool a == of_bool b

-- memcmp of two keymaps.
abbrev pub same_keymap : List ℕ → List ℕ → Bool
same_keymap [] [] = true
same_keymap [] (y ∷ ys) = false
same_keymap (x ∷ xs) [] = false
same_keymap (x ∷ xs) (y ∷ ys) = x == y && same_keymap xs ys

-- The comparison field by field, as equality, in four groups.
unfoldable pub same_colours : SlotConfig → SlotConfig → Bool
same_colours a b =
    a.led_r == b.led_r
    && a.led_g == b.led_g
    && a.led_b == b.led_b
    && a.led_base_r == b.led_base_r
    && a.led_base_g == b.led_base_g
    && a.led_base_b == b.led_base_b

unfoldable pub same_levels : SlotConfig → SlotConfig → Bool
same_levels a b =
    a.rumble_gain == b.rumble_gain
    && a.deadzone == b.deadzone
    && a.global_led_brightness == b.global_led_brightness
    && a.player_leds == b.player_leds
    && a.sensitivity_left_preset == b.sensitivity_left_preset
    && a.sensitivity_right_preset == b.sensitivity_right_preset

unfoldable pub same_flags : SlotConfig → SlotConfig → Bool
same_flags a b =
    same_bool a.debounce_enabled b.debounce_enabled
    && same_bool a.emulate_active b.emulate_active
    && same_bool a.is_uhid b.is_uhid
    && same_bool a.led_reapply b.led_reapply
    && same_bool a.rumble_active b.rumble_active
    && same_bool a.invert_ly b.invert_ly
    && same_bool a.invert_ry b.invert_ry
    && same_bool a.treat_triggers_as_digital b.treat_triggers_as_digital

unfoldable pub same_effect : SlotConfig → SlotConfig → Bool
same_effect a b =
    a.led_effect == b.led_effect
    && a.led_effect_speed == b.led_effect_speed
    && a.led_effect_brightness == b.led_effect_brightness
    && same_keymap a.keymap b.keymap

unfoldable pub same_config : SlotConfig → SlotConfig → Bool
same_config a b = same_colours a b && same_levels a b && same_flags a b && same_effect a b

-- The loop over the slots, with `changed`.
unfoldable pub sync_slots : List SlotConfig → List Controller → List SlotConfig × Bool
sync_slots [] ctrls = ([], false)
sync_slots (cfg ∷ cfgs) [] = (cfg ∷ cfgs, false)
sync_slots (cfg ∷ cfgs) (ctrl ∷ ctrls) =
    let rest = sync_slots cfgs ctrls in
    let new_cfg = controller_to_slot_config ctrl in
    if same_config cfg new_cfg then (cfg ∷ rest.0, rest.1) else (new_cfg ∷ rest.0, true)

unfoldable pub profile_sync_shm_to_active :
    Timeval → List Controller → ProfileManager → ProfileManager
profile_sync_shm_to_active now ctrls pm =
    let synced = sync_slots pm.slots ctrls in
    if synced.1
    then record pm { slots = synced.0; profile_dirty = true; last_change = now }
    else record pm { slots = synced.0 }

unfoldable pub elapsed_ms : Timeval → Timeval → ℤ
elapsed_ms now last = sub_ℕ now.sec last.sec *ℤ pos 1000 +ℤ quot_ℤ (sub_ℕ now.usec last.usec) 1000

-- The manager after an attempt to save, and whether there was one. `saves` is its success.
unfoldable pub profile_handle_auto_save : Timeval → Bool → ProfileManager → ProfileManager × Bool
profile_handle_auto_save now saves pm =
    let saved = record pm { profile_dirty = if saves then false else pm.profile_dirty } in
    if not pm.auto_save_enabled || not pm.profile_dirty
    then (pm, false)
    else if ltb_ℤ (elapsed_ms now pm.last_change) (pos pm.auto_save_delay_ms)
    then (pm, false)
    else (saved, true)

-- A round of settings_worker in which there is no request and no change of the file: it reads the
-- clock once for the change and once for the saving.
unfoldable pub settings_round :
    Timeval → Timeval → Bool → List Controller → ProfileManager → ProfileManager × Bool
settings_round now later saves ctrls pm =
    profile_handle_auto_save later saves (profile_sync_shm_to_active now ctrls pm)

-- What the thread reads in such a round.
pub record Round : Type 0 where
  pub now : Timeval
  pub later : Timeval
  pub saves : Bool
  pub ctrls : List Controller

-- Whether each of a sequence of rounds tried to save.
unfoldable pub settings_rounds : List Round → ProfileManager → List Bool
settings_rounds [] pm = []
settings_rounds (r ∷ rounds) pm =
    let result = settings_round r.now r.later r.saves r.ctrls pm in
    result.1 ∷ settings_rounds rounds result.0
