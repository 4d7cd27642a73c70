-- ===== src/Nsw.antt =====
-- dstx/src/nsw.c: the Switch Pro controller, which is read through evdev. Its context stands beside
-- the slot. Log counters are left out, and so are descriptors but for whether they are open.
pub mod Forward
pub mod Read
pub mod Rumble
use dstx.Common.{
  ℕ, ◌+◌, ◌%◌, ◌-◌, Bool, true, false, Option, none, some, List, ltb, not, ◌||◌, replicate,
  if◌then◌else◌,
}
use dstx.Common.Int.{ℤ, pos, negsuc}
use dstx.Controller.{Timeval, phy_btn_count}
use dstx.Drivers.{KeyCode, AbsCode, abs_z, abs_rz}

-- The `last_*` fields of the keys and axes: what the virtual device was sent last, a value for each
-- code.
pub record Forwarded : Type 0 where
  pub last_key : KeyCode → ℕ
  pub last_abs : AbsCode → ℤ

-- nsw_context_t. An `effect_id` of -1 is none; `event_open` and `uhid_open` say whether the two
-- descriptors are valid.
pub record NswContext : Type 0 where
  pub event_open : Bool
  pub effect_id : Option ℕ
  pub connected : Bool
  pub initialized : Bool
  pub last_strong : ℕ
  pub last_weak : ℕ
  pub last_rumble_time : Timeval
  pub cache : Forwarded
  pub last_uinput_time : Timeval
  pub is_active : Bool
  pub uhid_open : Bool
  pub lx : ℤ
  pub ly : ℤ
  pub rx : ℤ
  pub ry : ℤ
  pub phy_raw : List ℕ

-- `last_lt` and `last_rt` start at -1, all others at 0.
abbrev pub initial_abs : AbsCode → ℤ
initial_abs abs_z = negsuc 0
initial_abs abs_rz = negsuc 0
initial_abs code = pos 0

-- What nsw_init sets before it looks for the device. The event descriptor is zeroed, and 0 counts as
-- valid.
unfoldable pub starting_context : Timeval → NswContext
starting_context now = record {
  event_open = true;
  effect_id = none;
  connected = false;
  initialized = false;
  last_strong = 0;
  last_weak = 0;
  last_rumble_time = now;
  cache = record { last_key = λ k. 0; last_abs = initial_abs };
  last_uinput_time = now;
  is_active = true;
  uhid_open = false;
  lx = pos 0;
  ly = pos 0;
  rx = pos 0;
  ry = pos 0;
  phy_raw = replicate phy_btn_count 0;
}

-- The second argument is whether the event device was found. The time is read once here, three times
-- there.
unfoldable pub nsw_init : Timeval → Bool → NswContext → NswContext × Bool
nsw_init now found ctx =
    let start = starting_context now in
    if ctx.initialized
    then (ctx, true)
    else if found
    then (record start { connected = true; initialized = true }, true)
    else (record start { is_active = false }, false)

unfoldable pub nsw_set_uhid_fd : Bool → NswContext → NswContext
nsw_set_uhid_fd is_open ctx =
    if not ctx.initialized then ctx else record ctx { uhid_open = is_open }

-- `removed` is what nsw_check_inotify found.
unfoldable pub nsw_monitor : Bool → NswContext → NswContext × Bool
nsw_monitor removed ctx =
    if not ctx.initialized || not ctx.is_active
    then (ctx, true)
    else if removed
    then (record ctx { connected = false }, false)
    else (ctx, ctx.connected)
