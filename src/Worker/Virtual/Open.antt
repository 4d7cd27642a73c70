-- ===== src/Worker/Virtual/Open.antt =====
-- The virtual device of a worker as a machine of three states, and its correspondence to the
-- descriptors of the worker.
use dstx.Common.{
  ℕ, ◌≡◌, refl, Bool, true, false, Option, none, some, List, [], ◌∷◌, ◌++◌, if◌then◌else◌,
}
use dstx.Worker.Virtual.{
  Virtual, DeviceOp, uinput_created, uhid_created, uinput_destroyed, uhid_destroyed, uinput_to_uhid,
  uhid_to_uinput, open_uhid, open_uinput, close_uinput, close_uhid, Request, manage_device,
  manage_all,
}

-- No device, or one of either kind with its descriptor.
pub data Mode : Type 0 where
  off : Mode
  uinput : (fd : ℕ) → Mode
  uhid : (fd : ℕ) → Mode

-- The state, and `fds[1].fd`.
pub record Machine : Type 0 where
  pub mode : Mode
  pub poll : Option ℕ

abbrev pub destroyed : Mode → List DeviceOp
destroyed off = []
destroyed (uinput fd) = uinput_destroyed fd ∷ []
destroyed (uhid fd) = uhid_destroyed fd ∷ []

abbrev pub open_mode : (ℕ → Mode) → (ℕ → DeviceOp) → Option ℕ → Option ℕ → Machine × List DeviceOp
open_mode kind created none poll = (record { mode = off; poll = poll }, [])
open_mode kind created (some fd) poll = (record { mode = kind fd; poll = some fd }, created fd ∷ [])

-- A round: a device of the kind that is asked for stays; any other is destroyed, and the kernel's
-- answer says what takes its place. A device that is destroyed for another kind stays polled until
-- the other is there.
unfoldable pub step_machine : Request → Machine → Machine × List DeviceOp
step_machine q m = elim q.emu_req [
  | false ↦ elim m.mode [
    | off ↦ (m, [])
    | old ↦ (record { mode = off; poll = none }, destroyed old)
  ]
  | true ↦ elim q.use_uhid [
    | true ↦ elim m.mode [
      | uhid fd ↦ (m, [])
      | old ↦
          let next = open_mode uhid uhid_created q.uhid_answer m.poll in
          (next.0, destroyed old ++ next.1)
    ]
    | false ↦ elim m.mode [
      | uinput fd ↦ (m, [])
      | old ↦
          let next = open_mode uinput uinput_created q.uinput_answer m.poll in
          (next.0, destroyed old ++ next.1)
    ]
  ]
]

unfoldable pub run_machine : List Request → Machine → Machine × List DeviceOp
run_machine [] m = (m, [])
run_machine (q ∷ requests) m =
    let r = step_machine q m in let rest = run_machine requests r.0 in (rest.0, r.1 ++ rest.1)

abbrev pub uinput_of : Mode → Option ℕ
uinput_of (uinput fd) = some fd
uinput_of m = none

abbrev pub uhid_of : Mode → Option ℕ
uhid_of (uhid fd) = some fd
uhid_of m = none

-- The descriptors of the worker in a state of the machine.
unfoldable pub encode : Bool → Machine → Virtual
encode is_nsw m = record {
  ufd = uinput_of m.mode;
  uhid_fd = uhid_of m.mode;
  poll_fd = m.poll;
  slot_uinput_fd = uinput_of m.mode;
  slot_uhid_fd = uhid_of m.mode;
  nsw_uhid_fd = if is_nsw then uhid_of m.mode else none;
}

abbrev pub encode_result : Bool → Machine × List DeviceOp → Virtual × List DeviceOp
encode_result is_nsw r = (encode is_nsw r.0, r.1)

manage_device_parts :
    (is_nsw emu use_uhid : Bool) (ua ha : Option ℕ) (mode : Mode) (poll : Option ℕ)
    → manage_device is_nsw
        (record { emu_req = emu; use_uhid = use_uhid; uinput_answer = ua; uhid_answer = ha })
        (encode is_nsw (record { mode = mode; poll = poll }))
      ≡ encode_result is_nsw (
          step_machine
            (record { emu_req = emu; use_uhid = use_uhid; uinput_answer = ua; uhid_answer = ha })
            (record { mode = mode; poll = poll }))
unfolding manage_device step_machine encode uinput_to_uhid uhid_to_uinput open_uhid open_uinput
    close_uinput close_uhid
manage_device_parts true false use_uhid ua ha off poll = refl
manage_device_parts true false use_uhid ua ha (uinput fd) poll = refl
manage_device_parts true false use_uhid ua ha (uhid fd) poll = refl
manage_device_parts true true true ua none off poll = refl
manage_device_parts true true true ua (some new) off poll = refl
manage_device_parts true true true ua none (uinput fd) poll = refl
manage_device_parts true true true ua (some new) (uinput fd) poll = refl
manage_device_parts true true true ua ha (uhid fd) poll = refl
manage_device_parts true true false none ha off poll = refl
manage_device_parts true true false (some new) ha off poll = refl
manage_device_parts true true false ua ha (uinput fd) poll = refl
manage_device_parts true true false none ha (uhid fd) poll = refl
manage_device_parts true true false (some new) ha (uhid fd) poll = refl
manage_device_parts false false use_uhid ua ha off poll = refl
manage_device_parts false false use_uhid ua ha (uinput fd) poll = refl
manage_device_parts false false use_uhid ua ha (uhid fd) poll = refl
manage_device_parts false true true ua none off poll = refl
manage_device_parts false true true ua (some new) off poll = refl
manage_device_parts false true true ua none (uinput fd) poll = refl
manage_device_parts false true true ua (some new) (uinput fd) poll = refl
manage_device_parts false true true ua ha (uhid fd) poll = refl
manage_device_parts false true false none ha off poll = refl
manage_device_parts false true false (some new) ha off poll = refl
manage_device_parts false true false ua ha (uinput fd) poll = refl
manage_device_parts false true false none ha (uhid fd) poll = refl
manage_device_parts false true false (some new) ha (uhid fd) poll = refl

manage_device-encode :
    (is_nsw : Bool) (q : Request) (m : Machine)
    → manage_device is_nsw q (encode is_nsw m) ≡ encode_result is_nsw (step_machine q m)
manage_device-encode is_nsw q m =
    manage_device_parts is_nsw q.emu_req q.use_uhid q.uinput_answer q.uhid_answer m.mode m.poll

-- The worker's descriptors implement the machine: over any sequence of rounds, with any answers of
-- the kernel, the variables of the worker, their copies in the slot and, for a Switch Pro
-- controller, the descriptor in its context are those of one state of the machine, in which at most
-- one of the two virtual devices is open; and the devices that are created and destroyed are the
-- machine's, in its order.
pub manage_all-refines :
    (is_nsw : Bool) (requests : List Request) (m : Machine)
    → manage_all is_nsw requests (encode is_nsw m) ≡ encode_result is_nsw (run_machine requests m)
unfolding manage_all run_machine
manage_all-refines is_nsw [] m = refl
manage_all-refines is_nsw (q ∷ requests) m =
    rw (manage_device-encode is_nsw q m)
      (rw (manage_all-refines is_nsw requests (step_machine q m).0) refl)
