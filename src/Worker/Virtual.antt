-- ===== src/Worker/Virtual.antt =====
-- The virtual device of a worker in dstx/src/daemon.c: uinput or UHID, as the slot asks for. A
-- descriptor is a number, `none` is -1; setup_uinput_indexed and uhid_create give one or fail.
pub mod Open
pub mod Polled
use dstx.Common.{ℕ, Bool, true, false, Option, none, some, List, [], ◌∷◌, ◌++◌, if◌then◌else◌}

-- The variables `ufd` and `uhid_fd`, `fds[1].fd`, the copies in the slot, and the descriptor that
-- nsw_set_uhid_fd stores.
pub record Virtual : Type 0 where
  pub ufd : Option ℕ
  pub uhid_fd : Option ℕ
  pub poll_fd : Option ℕ
  pub slot_uinput_fd : Option ℕ
  pub slot_uhid_fd : Option ℕ
  pub nsw_uhid_fd : Option ℕ

-- At the start of the worker.
abbrev pub no_device : Virtual
no_device = record {
  ufd = none;
  uhid_fd = none;
  poll_fd = none;
  slot_uinput_fd = none;
  slot_uhid_fd = none;
  nsw_uhid_fd = none;
}

-- Devices that the kernel creates and destroys.
pub data DeviceOp : Type 0 where
  uinput_created : (fd : ℕ) → DeviceOp
  uhid_created : (fd : ℕ) → DeviceOp
  uinput_destroyed : (fd : ℕ) → DeviceOp
  uhid_destroyed : (fd : ℕ) → DeviceOp

abbrev pub set_nsw : Bool → Option ℕ → Virtual → Virtual
set_nsw is_nsw fd v = if is_nsw then record v { nsw_uhid_fd = fd } else v

-- The uinput device gives way to UHID; `fds[1]` keeps its descriptor. The first argument of this
-- and of the next three is the descriptor that the test of the source looks at.
uinput_to_uhid : Option ℕ → Virtual → Virtual × List DeviceOp
uinput_to_uhid none v = (v, [])
uinput_to_uhid (some fd) v =
    (record v { ufd = none; slot_uinput_fd = none }, uinput_destroyed fd ∷ [])

uhid_to_uinput : Option ℕ → Bool → Virtual → Virtual × List DeviceOp
uhid_to_uinput none is_nsw v = (v, [])
uhid_to_uinput (some fd) is_nsw v =
    (record (set_nsw is_nsw none v) { uhid_fd = none; slot_uhid_fd = none }, uhid_destroyed fd ∷ [])

-- The second argument is what uhid_create returns.
open_uhid : Option ℕ → Option ℕ → Bool → Virtual → Virtual × List DeviceOp
open_uhid (some fd) created is_nsw v = (v, [])
open_uhid none none is_nsw v = (v, [])
open_uhid none (some fd) is_nsw v = (
  set_nsw is_nsw (some fd)
      (record v { uhid_fd = some fd; poll_fd = some fd; slot_uhid_fd = some fd }),
  uhid_created fd ∷ [],
)

-- The second argument is what setup_uinput_indexed returns.
open_uinput : Option ℕ → Option ℕ → Virtual → Virtual × List DeviceOp
open_uinput (some fd) created v = (v, [])
open_uinput none none v = (v, [])
open_uinput none (some fd) v = (
  record v { ufd = some fd; poll_fd = some fd; slot_uinput_fd = some fd },
  uinput_created fd ∷ [],
)

-- Emulation is off.
close_uinput : Option ℕ → Virtual → Virtual × List DeviceOp
close_uinput none v = (v, [])
close_uinput (some fd) v =
    (record v { ufd = none; poll_fd = none; slot_uinput_fd = none }, uinput_destroyed fd ∷ [])

close_uhid : Option ℕ → Bool → Virtual → Virtual × List DeviceOp
close_uhid none is_nsw v = (v, [])
close_uhid (some fd) is_nsw v = (
  record (set_nsw is_nsw none v) { uhid_fd = none; poll_fd = none; slot_uhid_fd = none },
  uhid_destroyed fd ∷ [],
)

-- One step after another.
infixl 5 ◌|>◌
abbrev pub ◌|>◌ :
    Virtual × List DeviceOp → (Virtual → Virtual × List DeviceOp) → Virtual × List DeviceOp
r |> step = ((step r.0).0, r.1 ++ (step r.0).1)

-- `emulate_active`, `is_uhid`, and what the attempts of a round to create a device give.
pub record Request : Type 0 where
  pub emu_req : Bool
  pub use_uhid : Bool
  pub uinput_answer : Option ℕ
  pub uhid_answer : Option ℕ

unfoldable pub manage_device : Bool → Request → Virtual → Virtual × List DeviceOp
unfolding uinput_to_uhid uhid_to_uinput open_uhid open_uinput close_uinput close_uhid
manage_device is_nsw q v =
    if q.emu_req
    then if q.use_uhid
      then (uinput_to_uhid v.ufd v |> (λ w. open_uhid w.uhid_fd q.uhid_answer is_nsw w))
      else (uhid_to_uinput v.uhid_fd is_nsw v |> (λ w. open_uinput w.ufd q.uinput_answer w))
    else (close_uinput v.ufd v |> (λ w. close_uhid w.uhid_fd is_nsw w))

-- A sequence of rounds.
unfoldable pub manage_all : Bool → List Request → Virtual → Virtual × List DeviceOp
manage_all is_nsw [] v = (v, [])
manage_all is_nsw (q ∷ requests) v =
    let r = manage_device is_nsw q v in
    let rest = manage_all is_nsw requests r.0 in (rest.0, r.1 ++ rest.1)

-- The end of the worker, which clears the copies in the slot.
unfoldable pub destroy_devices : Virtual → List DeviceOp
unfolding close_uinput close_uhid
destroy_devices v = (close_uinput v.ufd v |> (λ w. close_uhid w.uhid_fd false w)).1
