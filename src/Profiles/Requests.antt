-- ===== src/Profiles/Requests.antt =====
-- The requests that the settings thread of dstx/src/settings.c serves (profile_process_requests), and
-- the client's side of them, profile_request_sync of dstx/src/utils.c. A name is a number; the
-- messages beside the answers are left out. What the files answer is the argument `Disk`.
pub mod Answers
pub mod Race
use dstx.Common.{
  ℕ, zero, suc, ◌+◌, Bool, true, false, Option, none, some, List, [], ◌∷◌, not, ◌==◌, of_bool,
  if◌then◌else◌,
}
use dstx.Common.Int.{ℤ, pos, negsuc, eqb_ℤ, ltb_ℤ, pos_part}
use dstx.Controller.{Controller}
use dstx.Controller.Config.{SlotConfig, slot_config_to_controller}
use dstx.Profiles.{ProfileManager}

-- The manager, with the name of its profile.
pub record Manager : Type 0 where
  pub pm : ProfileManager
  pub active_name : ℕ

-- The part of shared_data_t that requests use.
pub record Shared : Type 0 where
  pub profile_request : ℤ
  pub profile_name : ℕ
  pub profile_response : ℤ
  pub current_profile_name : ℕ
  pub auto_save_enabled : ℤ
  pub auto_save_delay_ms : ℤ
  pub slots : List Controller

-- The files: what a load of a name leaves in the slots of the profile, or none if it fails; whether
-- a save and a deletion succeed; and the name "Default".
pub record Disk : Type 0 where
  pub load : ℕ → List SlotConfig → Option (List SlotConfig)
  pub save : ℕ → Bool
  pub delete : ℕ → Bool
  pub default_name : ℕ

abbrev apply_one : SlotConfig → Controller → Controller
apply_one cfg ctrl =
    let set_up = slot_config_to_controller cfg ctrl in
    record set_up { feedback = record (set_up.feedback) { led_dirty = true } }

unfoldable pub apply_slots : List SlotConfig → List Controller → List Controller
apply_slots [] ctrls = ctrls
apply_slots (cfg ∷ cfgs) [] = []
apply_slots (cfg ∷ cfgs) (ctrl ∷ ctrls) = apply_one cfg ctrl ∷ apply_slots cfgs ctrls

unfoldable pub profile_apply_to_shm : Manager → Shared → Shared
profile_apply_to_shm m shm = record shm { slots = apply_slots m.pm.slots shm.slots }

unfoldable pub profile_sync_auto_save_to_shm : Manager → Shared → Shared
profile_sync_auto_save_to_shm m shm = record shm {
  auto_save_enabled = pos (of_bool m.pm.auto_save_enabled);
  auto_save_delay_ms = pos m.pm.auto_save_delay_ms;
}

-- What follows a change of the active profile, the new watch of its file left out.
unfoldable pub activate : ℕ → Manager → Shared → Manager × Shared
unfolding profile_apply_to_shm profile_sync_auto_save_to_shm
activate name m shm =
    let named = record m { active_name = name } in
    (
      named,
      record (profile_sync_auto_save_to_shm named (profile_apply_to_shm named shm)) {
        current_profile_name = name;
      },
    )

-- The manager and the shared memory after a request, and the result.
pub record Served : Type 0 where
  pub manager : Manager
  pub shm : Shared
  pub result : ℤ

abbrev with_slots : List SlotConfig → Manager → Manager
with_slots cfgs m = record m { pm = record (m.pm) { slots = cfgs } }

-- A profile that was read, or was not.
unfoldable pub serve_load : Option (List SlotConfig) → ℕ → Manager → Shared → Served
unfolding activate
serve_load none name m shm = record { manager = m; shm = shm; result = negsuc 0 }
serve_load (some cfgs) name m shm =
    let done = activate name (with_slots cfgs m) shm in
    record { manager = done.0; shm = done.1; result = pos 1 }

unfoldable pub serve_save : Bool → ℕ → Manager → Shared → Served
serve_save saved name m shm =
    if saved
    then record {
      manager =
          if name == m.active_name
          then record m { pm = record (m.pm) { profile_dirty = false } }
          else m;
      shm = shm;
      result = pos 1;
    }
    else record { manager = m; shm = shm; result = negsuc 0 }

-- The profile that takes the place of one that was deleted; a failure to read it is ignored.
abbrev or_slots : Option (List SlotConfig) → Manager → Manager
or_slots none m = m
or_slots (some cfgs) m = with_slots cfgs m

unfoldable pub serve_delete : Disk → ℕ → Manager → Shared → Served
unfolding activate
serve_delete disk name m shm =
    let instead =
      activate disk.default_name (or_slots (disk.load disk.default_name m.pm.slots) m) shm in
    if disk.delete name
    then if name == m.active_name
      then record { manager = instead.0; shm = instead.1; result = pos 1 }
      else record { manager = m; shm = shm; result = pos 1 }
    else record { manager = m; shm = shm; result = negsuc 0 }

-- -1 leaves the switch as it is, a delay that is not positive leaves the delay.
unfoldable pub serve_auto_save : Manager → Shared → Served
unfolding profile_sync_auto_save_to_shm
serve_auto_save m shm =
    let set_to = record (m.pm) {
      auto_save_enabled =
          if eqb_ℤ shm.auto_save_enabled (negsuc 0)
          then m.pm.auto_save_enabled
          else not (eqb_ℤ shm.auto_save_enabled (pos 0));
      auto_save_delay_ms =
          if ltb_ℤ (pos 0) shm.auto_save_delay_ms
          then pos_part shm.auto_save_delay_ms
          else m.pm.auto_save_delay_ms;
    } in
    let changed = record m { pm = set_to } in
    record { manager = changed; shm = profile_sync_auto_save_to_shm changed shm; result = pos 1 }

abbrev answer_only : ℤ → Manager → Shared → Served
answer_only result m shm = record { manager = m; shm = shm; result = result }

-- The switch over the request: load, save, delete, list, auto-save, anything else.
unfoldable pub serve : Disk → ℤ → ℕ → Manager → Shared → Served
unfolding serve_load serve_save serve_delete serve_auto_save
serve disk req name m shm =
    if eqb_ℤ req (pos 1)
    then serve_load (disk.load name m.pm.slots) name m shm
    else if eqb_ℤ req (pos 2)
    then serve_save (disk.save name) name m shm
    else if eqb_ℤ req (pos 3)
    then serve_delete disk name m shm
    else if eqb_ℤ req (pos 4)
    then answer_only (pos 1) m shm
    else if eqb_ℤ req (pos 5)
    then serve_auto_save m shm
    else answer_only (negsuc 0) m shm

-- The last lock of profile_process_requests.
abbrev pub finish : Served → Shared
finish r = record (r.shm) { profile_response = r.result; profile_request = pos 0 }

unfoldable pub profile_process_requests : Disk → Manager → Shared → Manager × Shared
unfolding serve
profile_process_requests disk m shm =
    let r = serve disk shm.profile_request shm.profile_name m shm in
    if eqb_ℤ shm.profile_request (pos 0) then (m, shm) else (r.manager, finish r)

-- What profile_request_sync writes; an argument below 0 leaves a field of the saving as it is. The
-- name 0 is the empty one.
unfoldable pub post_request : ℤ → Option ℕ → ℤ → ℤ → Shared → Shared
post_request request name auto_enable auto_delay shm = record shm {
  profile_request = request;
  profile_name = elim name [ none ↦ 0 | some n ↦ n ];
  auto_save_enabled = if ltb_ℤ auto_enable (pos 0) then shm.auto_save_enabled else auto_enable;
  auto_save_delay_ms = if ltb_ℤ auto_delay (pos 0) then shm.auto_save_delay_ms else auto_delay;
  profile_response = pos 0;
}

-- The wait for the answer, in steps of 20 ms up to 1000 ms: `seen i` is the response at step i. The
-- result is whether it is 1; none is the timeout.
unfoldable pub await : (left i : ℕ) → (ℕ → ℤ) → Option Bool
await zero i seen = none
await (suc left) i seen =
    let later = await left (i + 1) seen in
    if eqb_ℤ (seen i) (pos 0) then later else some (eqb_ℤ (seen i) (pos 1))

abbrev pub wait_steps : ℕ
wait_steps = 50
