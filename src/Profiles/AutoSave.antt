-- ===== src/Profiles/AutoSave.antt =====
-- When the active profile is saved.
use dstx.Common.{
  ℕ, ◌≡◌, refl, Bool, true, false, ◌&&◌, ◌==◌, ap, ◌≢◌, ◌∙◌, inl, inr, Bool-cases, sym, not, ◌||◌,
  map, length, All, List, [], ◌∷◌, arith,
}
use dstx.Common.Int.{pos, ltb_ℤ}
use dstx.Controller.{Controller, Timeval}
use dstx.Controller.Config.{SlotConfig, controller_to_slot_config}
use dstx.Profiles.{
  Round, settings_rounds, same_bool, same_keymap, same_colours, same_levels, same_flags,
  same_effect, same_config, ProfileManager, sync_slots, profile_sync_shm_to_active,
  profile_handle_auto_save, elapsed_ms, settings_round,
}

same_keymap-eq : (xs ys : List ℕ) → same_keymap xs ys ≡ true → xs ≡ ys
same_keymap-eq [] [] h = refl
same_keymap-eq [] (y ∷ ys) h = cc
same_keymap-eq (x ∷ xs) [] h = cc
same_keymap-eq (x ∷ xs) (y ∷ ys) h = ground (arith, same_keymap-eq xs ys)

colours_eq :
    (a b : SlotConfig)
    → same_colours a b ≡ true
    → (a.led_r ≡ b.led_r)
      × (a.led_g ≡ b.led_g)
      × (a.led_b ≡ b.led_b)
      × (a.led_base_r ≡ b.led_base_r)
      × (a.led_base_g ≡ b.led_base_g)
      × (a.led_base_b ≡ b.led_base_b)
unfolding same_colours
colours_eq a b h = ground arith

levels_eq :
    (a b : SlotConfig)
    → same_levels a b ≡ true
    → (a.rumble_gain ≡ b.rumble_gain)
      × (a.deadzone ≡ b.deadzone)
      × (a.global_led_brightness ≡ b.global_led_brightness)
      × (a.player_leds ≡ b.player_leds)
      × (a.sensitivity_left_preset ≡ b.sensitivity_left_preset)
      × (a.sensitivity_right_preset ≡ b.sensitivity_right_preset)
unfolding same_levels
levels_eq a b h = ground arith

same_bool-eq : (a b : Bool) → same_bool a b ≡ true → a ≡ b
unfolding same_bool
same_bool-eq a b h = ground arith

flags_eq :
    (a b : SlotConfig)
    → same_flags a b ≡ true
    → (a.debounce_enabled ≡ b.debounce_enabled)
      × (a.emulate_active ≡ b.emulate_active)
      × (a.is_uhid ≡ b.is_uhid)
      × (a.led_reapply ≡ b.led_reapply)
      × (a.rumble_active ≡ b.rumble_active)
      × (a.invert_ly ≡ b.invert_ly)
      × (a.invert_ry ≡ b.invert_ry)
      × (a.treat_triggers_as_digital ≡ b.treat_triggers_as_digital)
unfolding same_flags
flags_eq a b h = ground (
  arith,
  same_bool-eq a.debounce_enabled b.debounce_enabled,
  same_bool-eq a.emulate_active b.emulate_active,
  same_bool-eq a.is_uhid b.is_uhid,
  same_bool-eq a.led_reapply b.led_reapply,
  same_bool-eq a.rumble_active b.rumble_active,
  same_bool-eq a.invert_ly b.invert_ly,
  same_bool-eq a.invert_ry b.invert_ry,
  same_bool-eq a.treat_triggers_as_digital b.treat_triggers_as_digital,
)

effect_eq :
    (a b : SlotConfig)
    → same_effect a b ≡ true
    → (a.led_effect ≡ b.led_effect)
      × (a.led_effect_speed ≡ b.led_effect_speed)
      × (a.led_effect_brightness ≡ b.led_effect_brightness)
      × (a.keymap ≡ b.keymap)
unfolding same_effect
effect_eq a b h = ground (arith, same_keymap-eq a.keymap b.keymap)

four_true :
    (a b c d : Bool) → a && b && c && d ≡ true → (a ≡ true) × (b ≡ true) × (c ≡ true) × (d ≡ true)
four_true a b c d h = ground arith

same_config-eq : (a b : SlotConfig) → same_config a b ≡ true → a ≡ b
unfolding same_config
same_config-eq a b h =
    let groups =
      four_true (same_colours a b) (same_levels a b) (same_flags a b) (same_effect a b) h in
    let colours = colours_eq a b groups.0 in
    let levels = levels_eq a b groups.1 in
    let flags = flags_eq a b groups.2 in let effect = effect_eq a b groups.3 in cc

-- After a round of following, the profile holds the configuration of every slot.
sync_slots-eq :
    (cfgs : List SlotConfig) (ctrls : List Controller)
    → length cfgs ≡ length ctrls
    → (sync_slots cfgs ctrls).0 ≡ map controller_to_slot_config ctrls
unfolding sync_slots
sync_slots-eq [] [] h = refl
sync_slots-eq [] (c ∷ cs) h = absurd (omega (arith, h))
sync_slots-eq (c ∷ cs) [] h = absurd (omega (arith, h))
sync_slots-eq (cfg ∷ cfgs) (ctrl ∷ ctrls) h =
    let ih = sync_slots-eq cfgs ctrls (omega (arith, h)) in
    let new_cfg = controller_to_slot_config ctrl in
    elim (Bool-cases (same_config cfg new_cfg)) [
      | inl e ↦
          rw (e, ih)
            (ap (λ c. c ∷ map controller_to_slot_config ctrls) (same_config-eq cfg new_cfg e))
      | inr e ↦ rw (e, ih) refl
    ]

same_bool_refl : (a : Bool) → same_bool a a ≡ true
unfolding same_bool
same_bool_refl a = ground arith

same_keymap_refl : (xs : List ℕ) → same_keymap xs xs ≡ true
same_keymap_refl [] = refl
same_keymap_refl (x ∷ xs) = ground (arith, same_keymap_refl xs)

eq_refl : (n : ℕ) → (n == n) ≡ true
eq_refl n = ground arith

pub same_config_refl : (a : SlotConfig) → same_config a a ≡ true
unfolding same_config same_colours same_levels same_flags same_effect
same_config_refl a = simp (eq_refl, same_bool_refl, same_keymap_refl)

pub sync_slots_self :
    (ctrls : List Controller)
    → sync_slots (map controller_to_slot_config ctrls) ctrls
      ≡ (map controller_to_slot_config ctrls, false)
unfolding sync_slots
sync_slots_self [] = refl
sync_slots_self (ctrl ∷ ctrls) =
    rw (same_config_refl (controller_to_slot_config ctrl), sync_slots_self ctrls) refl

sync_slots_kept :
    (cfgs : List SlotConfig) (ctrls : List Controller)
    → (sync_slots cfgs ctrls).1 ≡ false
    → (sync_slots cfgs ctrls).0 ≡ cfgs
unfolding sync_slots
sync_slots_kept [] ctrls h = refl
sync_slots_kept (cfg ∷ cfgs) [] h = refl
sync_slots_kept (cfg ∷ cfgs) (ctrl ∷ ctrls) h = ground (arith, sync_slots_kept cfgs ctrls)

-- A round in which nothing changed since the last one saves the profile if it is dirty, saving is
-- on, and the delay has passed since the last change. What is saved is the configuration of
-- the slots, and after a success the profile is clean.
pub settings_round_saves :
    (now later : Timeval) (ctrls : List Controller) (pm : ProfileManager)
    → pm.slots ≡ map controller_to_slot_config ctrls
    → pm.auto_save_enabled ≡ true
    → pm.profile_dirty ≡ true
    → ltb_ℤ (elapsed_ms later pm.last_change) (pos pm.auto_save_delay_ms) ≡ false
    → let result = settings_round now later true ctrls pm in
      (result.1 ≡ true)
      × (result.0.profile_dirty ≡ false)
      × (result.0.slots ≡ map controller_to_slot_config ctrls)
unfolding settings_round profile_sync_shm_to_active profile_handle_auto_save
settings_round_saves now later ctrls pm same on dirty late =
    let quiet = ap (λ cfgs. sync_slots cfgs ctrls) same ∙ sync_slots_self ctrls in
    rw (quiet, on, dirty, late) (refl, refl, refl)

too_early :
    (later : Timeval) (saves : Bool) (pm : ProfileManager)
    → ltb_ℤ (elapsed_ms later pm.last_change) (pos pm.auto_save_delay_ms) ≡ true
    → (profile_handle_auto_save later saves pm).1 ≡ false
unfolding profile_handle_auto_save
too_early later saves pm short =
    elim (Bool-cases (not pm.auto_save_enabled || not pm.profile_dirty)) [
      | inl off ↦ rw off refl
      | inr on ↦ rw (on, short) refl
    ]

-- A round in which the configuration of a slot changed never saves, if the delay is longer than the
-- round takes: the change restarts the delay.
settings_round_starves :
    (now later : Timeval) (saves : Bool) (ctrls : List Controller) (pm : ProfileManager)
    → length pm.slots ≡ length ctrls
    → pm.slots ≢ map controller_to_slot_config ctrls
    → ltb_ℤ (elapsed_ms later now) (pos pm.auto_save_delay_ms) ≡ true
    → (settings_round now later saves ctrls pm).1 ≡ false
unfolding settings_round profile_sync_shm_to_active
settings_round_starves now later saves ctrls pm same changed short =
    elim (Bool-cases (sync_slots pm.slots ctrls).1) [
      | inl e ↦ rw e (
          too_early later saves
            (record pm {
              slots = (sync_slots pm.slots ctrls).0;
              profile_dirty = true;
              last_change = now;
            })
            short)
      | inr e ↦
          absurd
            (changed (sym (sync_slots_kept pm.slots ctrls e) ∙ sync_slots-eq pm.slots ctrls same))
    ]

-- In every round, the configuration of a slot differs from what the round before has left in the
-- profile, and the delay is longer than the round takes.
unfoldable pub IsRestless : List Round → ProfileManager → Type 0
IsRestless [] pm = Unit
IsRestless (r ∷ rounds) pm =
    (length pm.slots ≡ length r.ctrls)
    × (pm.slots ≢ map controller_to_slot_config r.ctrls)
    × (ltb_ℤ (elapsed_ms r.later r.now) (pos pm.auto_save_delay_ms) ≡ true)
    × IsRestless rounds (settings_round r.now r.later r.saves r.ctrls pm).0

-- As long as every round finds that the configuration of a slot has changed, the profile is never
-- saved, however many rounds there are and however long they last in all, if the delay is longer than
-- a single round takes.
pub settings_rounds_starve :
    (rounds : List Round) (pm : ProfileManager)
    → IsRestless rounds pm
    → All (λ tried. tried ≡ false) (settings_rounds rounds pm)
unfolding IsRestless settings_rounds
settings_rounds_starve [] pm h = tt
settings_rounds_starve (r ∷ rounds) pm h = (
  settings_round_starves r.now r.later r.saves r.ctrls pm h.0 h.1 h.2,
  settings_rounds_starve rounds _ h.3,
)
