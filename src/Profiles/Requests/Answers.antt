-- ===== src/Profiles/Requests/Answers.antt =====
-- The answers to requests, and what each leaves of the profile.
use dstx.Common.{
  ℕ, ◌<◌, ◌≡◌, ◌⊎◌, inl, inr, refl, Bool, true, false, if_cases, Option, none, some, List, [], ◌∷◌,
  ◌==◌, All,
}
use dstx.Common.Int.{ℤ, pos, negsuc, eqb_ℤ}
use dstx.Controller.{Controller, Timeval}
use dstx.Controller.Config.{
  SlotConfig, slot_config_to_controller, controller_to_slot_config, config_roundtrip,
}
use dstx.Profiles.{sync_slots, profile_sync_shm_to_active}
use dstx.Profiles.AutoSave.{same_config_refl}
use dstx.Profiles.Requests.{
  Manager, Shared, Disk, Served, apply_slots, activate, serve_load, serve_save, serve_delete,
  serve_auto_save, serve, profile_apply_to_shm, profile_sync_auto_save_to_shm,
  profile_process_requests,
}

-- A result is 1, or it is -1 and the profile and the slots are as they were.
pub IsAnswer : Manager → Shared → Served → Type 0
IsAnswer m shm r = (r.result ≡ pos 1) ⊎ ((r.result ≡ negsuc 0) × (r.manager ≡ m) × (r.shm ≡ shm))

serve_load-IsAnswer :
    (loaded : Option (List SlotConfig)) (name : ℕ) (m : Manager) (shm : Shared)
    → IsAnswer m shm (serve_load loaded name m shm)
unfolding serve_load IsAnswer
serve_load-IsAnswer none name m shm = inr (refl, refl, refl)
serve_load-IsAnswer (some cfgs) name m shm = inl refl

serve_save-IsAnswer :
    (saved : Bool) (name : ℕ) (m : Manager) (shm : Shared)
    → IsAnswer m shm (serve_save saved name m shm)
unfolding serve_save IsAnswer
serve_save-IsAnswer true name m shm = inl refl
serve_save-IsAnswer false name m shm = inr (refl, refl, refl)

serve_delete-IsAnswer :
    (disk : Disk) (name : ℕ) (m : Manager) (shm : Shared)
    → IsAnswer m shm (serve_delete disk name m shm)
unfolding serve_delete IsAnswer
serve_delete-IsAnswer disk name m shm =
    if_cases (IsAnswer m shm) (disk.delete name)
      (λ e. if_cases (IsAnswer m shm) (name == m.active_name) (λ e. inl refl) (λ e. inl refl))
      (λ e. inr (refl, refl, refl))

serve-IsAnswer :
    (disk : Disk) (req : ℤ) (name : ℕ) (m : Manager) (shm : Shared)
    → IsAnswer m shm (serve disk req name m shm)
unfolding serve serve_auto_save IsAnswer
serve-IsAnswer disk req name m shm =
    if_cases (IsAnswer m shm) (eqb_ℤ req (pos 1))
      (λ e. serve_load-IsAnswer (disk.load name m.pm.slots) name m shm)
      (λ e.
        if_cases (IsAnswer m shm) (eqb_ℤ req (pos 2))
          (λ e. serve_save-IsAnswer (disk.save name) name m shm)
          (λ e.
            if_cases (IsAnswer m shm) (eqb_ℤ req (pos 3))
              (λ e. serve_delete-IsAnswer disk name m shm)
              (λ e.
                if_cases (IsAnswer m shm) (eqb_ℤ req (pos 4)) (λ e. inl refl)
                  (λ e.
                    if_cases (IsAnswer m shm) (eqb_ℤ req (pos 5)) (λ e. inl refl)
                      (λ e. inr (refl, refl, refl))))))

-- Every request is answered: a call that finds a request leaves none, and the response is 1, or it is
-- -1 and nothing else has changed, neither in the profile nor in the shared memory.
pub profile_process_requests-answers :
    (disk : Disk) (m : Manager) (shm : Shared)
    → eqb_ℤ shm.profile_request (pos 0) ≡ false
    → ((profile_process_requests disk m shm).1.profile_request ≡ pos 0)
      × (((profile_process_requests disk m shm).1.profile_response ≡ pos 1)
          ⊎ ((profile_process_requests disk m shm)
              ≡ (m, record shm { profile_response = negsuc 0; profile_request = pos 0 })))
unfolding profile_process_requests IsAnswer
profile_process_requests-answers disk m shm h =
    let r = serve disk shm.profile_request shm.profile_name m shm in
    rw h (
      refl,
      elim (serve-IsAnswer disk shm.profile_request shm.profile_name m shm) [
        | inl done ↦ inl done
        | inr (failed, same, kept) ↦ inr (rw failed (rw same (rw kept refl)))
      ],
    )

-- The effect of every slot of a profile fits the `uint8_t` in which it is kept.
abbrev pub IsSmall : SlotConfig → Type 0
IsSmall cfg = cfg.led_effect < 256

same_as_applied :
    (cfg : SlotConfig) (ctrl : Controller)
    → IsSmall cfg
    → controller_to_slot_config (
        let set_up = slot_config_to_controller cfg ctrl in
        record set_up { feedback = record (set_up.feedback) { led_dirty = true } })
      ≡ cfg
unfolding controller_to_slot_config
same_as_applied cfg ctrl h = config_roundtrip cfg ctrl h

sync-apply_slots :
    (cfgs : List SlotConfig) (ctrls : List Controller)
    → All IsSmall cfgs
    → sync_slots cfgs (apply_slots cfgs ctrls) ≡ (cfgs, false)
unfolding sync_slots apply_slots
sync-apply_slots [] ctrls h = refl
sync-apply_slots (cfg ∷ cfgs) [] h = refl
sync-apply_slots (cfg ∷ cfgs) (ctrl ∷ ctrls) h =
    rw (sync-apply_slots cfgs ctrls h.1)
      (rw (same_as_applied cfg ctrl h.0) (rw (same_config_refl cfg) refl))

-- A load marks nothing for saving: after a request that reads a profile, the manager holds its
-- slots under its name, which the shared memory shows as the current one; the mark that the profile
-- is to be saved is as it was, clear if it was clear and still set if it was set; and the next
-- comparison with the slots of the controllers changes nothing in the manager, the mark included.
pub load_request-clean :
    (disk : Disk) (m : Manager) (shm : Shared) (cfgs : List SlotConfig) (now : Timeval)
    → shm.profile_request ≡ pos 1
    → disk.load shm.profile_name m.pm.slots ≡ some cfgs
    → All IsSmall cfgs
    → let after = profile_process_requests disk m shm in
      (after.0.pm.slots ≡ cfgs)
      × (after.0.active_name ≡ shm.profile_name)
      × (after.1.current_profile_name ≡ shm.profile_name)
      × (after.1.profile_response ≡ pos 1)
      × (after.0.pm.profile_dirty ≡ m.pm.profile_dirty)
      × (profile_sync_shm_to_active now after.1.slots after.0.pm ≡ after.0.pm)
unfolding profile_process_requests serve serve_load activate profile_apply_to_shm
    profile_sync_auto_save_to_shm profile_sync_shm_to_active
load_request-clean disk m shm cfgs now req loaded small =
    rw req
      (rw loaded (refl, refl, refl, refl, refl, rw (sync-apply_slots cfgs shm.slots small) refl))
