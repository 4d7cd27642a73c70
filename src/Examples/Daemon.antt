-- ===== src/Examples/Daemon.antt =====
-- Slots that are handed out, and profiles that are saved.
use dstx.Common.{ℕ, ◌≡◌, ◌≢◌, refl, true, some, List, [], ◌∷◌, map, arith, ap}
use dstx.Common.Int.{negsuc, quot_ℤ, ◌+ℤ◌, ◌*ℤ◌}
use dstx.Controller.{Controller, Timeval, type_dualsense}
use dstx.Controller.Config.{SlotConfig, controller_to_slot_config}
use dstx.Effects.Invariant.{IsPlayable}
use dstx.Profiles.{
  profile_sync_shm_to_active, profile_handle_auto_save, sync_slots, same_config, same_colours,
  same_levels, same_flags, same_effect, same_bool, ProfileManager, settings_round, Round,
  elapsed_ms,
}
use dstx.Profiles.AutoSave.{IsRestless}
use dstx.Registry.{find_from, find_free_slot, register_slot}
use dstx.Registry.Persistence.{register_slot-persists}
use dstx.Examples.Data.{fresh}

-- Slots 0 and 1 are busy.
second_free : find_free_slot 0xFC ≡ some 2
unfolding find_free_slot find_from
second_free = refl

register_slot-persists_example :
    (controller_to_slot_config (register_slot type_dualsense true fresh)
      ≡ controller_to_slot_config fresh)
    × ((register_slot type_dualsense true fresh).connected ≡ true)
    × ((register_slot type_dualsense true fresh).feedback.external_retry_count ≡ 0)
    × ((register_slot type_dualsense true fresh).feedback.rumble_strong ≡ 0)
    × ((register_slot type_dualsense true fresh).feedback.rumble_weak ≡ 0)
    × ((register_slot type_dualsense true fresh).effects.active_effect_id ≡ negsuc 0)
    × IsPlayable (register_slot type_dualsense true fresh)
register_slot-persists_example = register_slot-persists type_dualsense true fresh

abbrev at_second : ℕ → Timeval
at_second n = record { sec = n; usec = 0 }

abbrev dirty : ProfileManager
dirty = record {
  slots = controller_to_slot_config fresh ∷ [];
  profile_dirty = true;
  last_change = at_second 10;
  auto_save_enabled = true;
  auto_save_delay_ms = 2000;
}

-- The colour of the slot changed.
abbrev recoloured : Controller
recoloured = record fresh { feedback = record (fresh.feedback) { led_r = 9 } }

abbrev red_of : List SlotConfig → ℕ
red_of [] = 0
red_of (c ∷ cs) = c.led_r

recoloured_config : dirty.slots ≢ map controller_to_slot_config (recoloured ∷ [])
unfolding controller_to_slot_config
recoloured_config e = let red : 0 ≡ 9 = ap red_of e in absurd (omega (arith, red))

abbrev busy_rounds : List Round
busy_rounds =
    record { now = at_second 15; later = at_second 15; saves = true; ctrls = recoloured ∷ [] }
    ∷ record { now = at_second 99; later = at_second 99; saves = true; ctrls = fresh ∷ [] }
    ∷ []

recoloured_profile :
    (settings_round (at_second 15) (at_second 15) true (recoloured ∷ []) dirty).0.slots
    ≢ map controller_to_slot_config (fresh ∷ [])
unfolding settings_round profile_sync_shm_to_active profile_handle_auto_save sync_slots same_config
    same_colours same_levels same_flags same_effect same_bool controller_to_slot_config elapsed_ms
    quot_ℤ ◌+ℤ◌ ◌*ℤ◌
recoloured_profile e = let red : 9 ≡ 0 = ap red_of e in absurd (omega (arith, red))

busy-IsRestless : IsRestless busy_rounds dirty
unfolding IsRestless settings_round profile_sync_shm_to_active profile_handle_auto_save sync_slots
    same_config same_colours same_levels same_flags same_effect same_bool controller_to_slot_config
    elapsed_ms quot_ℤ ◌+ℤ◌ ◌*ℤ◌
busy-IsRestless = (refl, recoloured_config, refl, (refl, recoloured_profile, refl, tt))
