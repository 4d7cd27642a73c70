-- ===== src/Bus/ProfileCalls.antt =====
-- The methods of the D-Bus bridge for profiles and the automatic saving, in dstx/src/dbus-handlers.c,
-- up to the request that each makes of the daemon through shm_request_sync.
use dstx.Common.{Bool, false, none, some, List, [], ◌∷◌, if◌then◌else◌}
use dstx.Common.Int.{ℤ, pos, negsuc, ltb_ℤ}
use dstx.Text.{Word}
use dstx.Commands.Cli.{Posted}

pub data ProfileMethod : Type 0 where
  list_profiles : ProfileMethod
  load_profile save_profile delete_profile : (name : Word) → ProfileMethod
  set_auto_save : (enable : Bool) (delay_ms : ℤ) → ProfileMethod

unfoldable pub clamp_delay : ℤ → ℤ
clamp_delay delay_ms =
    let low = if ltb_ℤ delay_ms (pos 100) then pos 100 else delay_ms in
    if ltb_ℤ (pos 10000) low then pos 10000 else low

-- The arguments of shm_request_sync.
unfoldable pub request_of : ProfileMethod → Posted
unfolding clamp_delay
request_of list_profiles = record {
  request = pos 4;
  name = none;
  auto_enable = negsuc 0;
  auto_delay = negsuc 0;
}
request_of (load_profile name) = record {
  request = pos 1;
  name = some name;
  auto_enable = negsuc 0;
  auto_delay = negsuc 0;
}
request_of (save_profile name) = record {
  request = pos 2;
  name = some name;
  auto_enable = negsuc 0;
  auto_delay = negsuc 0;
}
request_of (delete_profile name) = record {
  request = pos 3;
  name = some name;
  auto_enable = negsuc 0;
  auto_delay = negsuc 0;
}
request_of (set_auto_save enable delay_ms) = record {
  request = pos 5;
  name = none;
  auto_enable = if enable then pos 1 else pos 0;
  auto_delay = clamp_delay delay_ms;
}

-- `opens` says whether the shared memory could be mapped, `ok` how the request was answered; the call
-- ends with an error unless both are true.
unfoldable pub handle_profile : (opens ok : Bool) → ProfileMethod → List Posted × Bool
handle_profile opens ok m = if opens then (request_of m ∷ [], ok) else ([], false)
