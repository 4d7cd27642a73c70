-- ===== src/Worker/Virtual/Polled.antt =====
-- The virtual devices that the kernel holds for a worker, and the descriptor that it polls.
use dstx.Common.{
  ℕ, ◌≡◌, ◌⊎◌, inl, inr, refl, sym, ap, subst, ◌∙◌, Bool, true, false, Bool-cases, Option, none,
  some, List, [], ◌∷◌, ◌++◌, ◌==◌, All, ◌&&◌, if◌then◌else◌, arith,
}
use dstx.Worker.Virtual.{
  Virtual, no_device, DeviceOp, uinput_created, uhid_created, uinput_destroyed, uhid_destroyed,
  close_uinput, close_uhid, Request, manage_all, destroy_devices,
}
use dstx.Worker.Virtual.Open.{
  Mode, off, uinput, uhid, Machine, destroyed, step_machine, run_machine, encode, encode_result,
  manage_all-refines,
}

-- A device of the kernel: whether it is UHID, and its descriptor.
pub record Device : Type 0 where
  pub is_uhid : Bool
  pub fd : ℕ

abbrev same_kind : Bool → Bool → Bool
same_kind true b = b
same_kind false b = if b then false else true

abbrev remove_device : Bool → ℕ → List Device → List Device
remove_device kind fd [] = []
remove_device kind fd (d ∷ ds) =
    if same_kind kind d.is_uhid && fd == d.fd
    then remove_device kind fd ds
    else d ∷ remove_device kind fd ds

abbrev pub execute_op : DeviceOp → List Device → List Device
execute_op (uinput_created fd) ds = record { is_uhid = false; fd = fd } ∷ ds
execute_op (uhid_created fd) ds = record { is_uhid = true; fd = fd } ∷ ds
execute_op (uinput_destroyed fd) ds = remove_device false fd ds
execute_op (uhid_destroyed fd) ds = remove_device true fd ds

unfoldable pub execute_ops : List DeviceOp → List Device → List Device
execute_ops [] ds = ds
execute_ops (op ∷ ops) ds = execute_ops ops (execute_op op ds)

abbrev pub devices_of : Mode → List Device
devices_of off = []
devices_of (uinput fd) = record { is_uhid = false; fd = fd } ∷ []
devices_of (uhid fd) = record { is_uhid = true; fd = fd } ∷ []

execute_ops-append :
    (xs ys : List DeviceOp) (ds : List Device)
    → execute_ops (xs ++ ys) ds ≡ execute_ops ys (execute_ops xs ds)
unfolding execute_ops
execute_ops-append [] ys ds = refl
execute_ops-append (x ∷ xs) ys ds = execute_ops-append xs ys (execute_op x ds)

==_self : (n : ℕ) → (n == n) ≡ true
==_self n = ground arith

execute_ops-destroyed : (m : Mode) → execute_ops (destroyed m) (devices_of m) ≡ []
unfolding execute_ops
execute_ops-destroyed off = refl
execute_ops-destroyed (uinput fd) = rw (==_self fd) refl
execute_ops-destroyed (uhid fd) = rw (==_self fd) refl

-- The device that is polled is the one that is open.
abbrev pub IsPolled : Machine → Type 0
IsPolled m = elim m.mode [ off ↦ Unit | uinput fd ↦ m.poll ≡ some fd | uhid fd ↦ m.poll ≡ some fd ]

-- A step leaves the kernel with the device of its state, and polls it.
IsSound : Mode → Machine × List DeviceOp → Type 0
IsSound old r = (execute_ops r.1 (devices_of old) ≡ devices_of r.0.mode) × IsPolled r.0

replaced :
    (m next : Mode) (ops : List DeviceOp)
    → execute_ops ops [] ≡ devices_of next
    → execute_ops (destroyed m ++ ops) (devices_of m) ≡ devices_of next
replaced m next ops h =
    execute_ops-append (destroyed m) ops (devices_of m)
    ∙ (ap (execute_ops ops) (execute_ops-destroyed m) ∙ h)

step_parts :
    (emu use_uhid : Bool) (ua ha : Option ℕ) (mode : Mode) (poll : Option ℕ)
    → IsPolled (record { mode = mode; poll = poll })
    → IsSound mode (
        step_machine
          (record { emu_req = emu; use_uhid = use_uhid; uinput_answer = ua; uhid_answer = ha })
          (record { mode = mode; poll = poll }))
unfolding step_machine IsSound execute_ops
step_parts false use_uhid ua ha off poll h = (refl, tt)
step_parts false use_uhid ua ha (uinput fd) poll h = (execute_ops-destroyed (uinput fd), tt)
step_parts false use_uhid ua ha (uhid fd) poll h = (execute_ops-destroyed (uhid fd), tt)
step_parts true true ua none off poll h = (replaced off off [] refl, tt)
step_parts true true ua (some new) off poll h =
    (replaced off (uhid new) (uhid_created new ∷ []) refl, refl)
step_parts true true ua none (uinput fd) poll h = (replaced (uinput fd) off [] refl, tt)
step_parts true true ua (some new) (uinput fd) poll h =
    (replaced (uinput fd) (uhid new) (uhid_created new ∷ []) refl, refl)
step_parts true true ua ha (uhid fd) poll h = (refl, h)
step_parts true false none ha off poll h = (replaced off off [] refl, tt)
step_parts true false (some new) ha off poll h =
    (replaced off (uinput new) (uinput_created new ∷ []) refl, refl)
step_parts true false ua ha (uinput fd) poll h = (refl, h)
step_parts true false none ha (uhid fd) poll h = (replaced (uhid fd) off [] refl, tt)
step_parts true false (some new) ha (uhid fd) poll h =
    (replaced (uhid fd) (uinput new) (uinput_created new ∷ []) refl, refl)

run_IsSound :
    (requests : List Request) (m : Machine)
    → IsPolled m
    → (execute_ops (run_machine requests m).1 (devices_of m.mode)
        ≡ devices_of (run_machine requests m).0.mode)
      × IsPolled (run_machine requests m).0
unfolding run_machine IsSound execute_ops
run_IsSound [] m h = (refl, h)
run_IsSound (q ∷ requests) m h =
    let r = step_machine q m in
    let step = step_parts q.emu_req q.use_uhid q.uinput_answer q.uhid_answer m.mode m.poll h in
    let rest = run_IsSound requests r.0 step.1 in
    (
      execute_ops-append r.1 (run_machine requests r.0).1 (devices_of m.mode)
          ∙ (ap (execute_ops (run_machine requests r.0).1) step.0 ∙ rest.0),
      rest.1,
    )

-- The descriptors that a worker holds, as devices.
abbrev pub devices_at : Option ℕ → Bool → List Device
devices_at none kind = []
devices_at (some fd) kind = record { is_uhid = kind; fd = fd } ∷ []

abbrev pub held : Virtual → List Device
held v = devices_at v.ufd false ++ devices_at v.uhid_fd true

-- `fds[1].fd` is the descriptor that is open, if any.
abbrev pub PollsOpen : Option ℕ → Option ℕ → Option ℕ → Type 0
PollsOpen (some fd) uhid_fd poll = poll ≡ some fd
PollsOpen none (some fd) poll = poll ≡ some fd
PollsOpen none none poll = Unit

-- After the operations, the kernel has the devices that the worker holds; the open one is polled;
-- and the end of the worker leaves none.
unfoldable pub IsLeakFree : Virtual × List DeviceOp → Type 0
IsLeakFree r =
    (execute_ops r.1 [] ≡ held r.0)
    × PollsOpen r.0.ufd r.0.uhid_fd r.0.poll_fd
    × (execute_ops (destroy_devices r.0) (held r.0) ≡ [])

encode_parts :
    (is_nsw : Bool) (mode : Mode) (poll : Option ℕ) (ops : List DeviceOp)
    → execute_ops ops [] ≡ devices_of mode
    → IsPolled (record { mode = mode; poll = poll })
    → IsLeakFree (encode_result is_nsw (record { mode = mode; poll = poll }, ops))
unfolding IsLeakFree encode destroy_devices close_uinput close_uhid execute_ops
encode_parts is_nsw off poll ops h k = (h, tt, refl)
encode_parts is_nsw (uinput fd) poll ops h k = (h, k, rw (==_self fd) refl)
encode_parts is_nsw (uhid fd) poll ops h k = (h, k, rw (==_self fd) refl)

abbrev start : Machine
start = record { mode = off; poll = none }

encode-start : (is_nsw : Bool) → encode is_nsw start ≡ no_device
unfolding encode
encode-start true = refl
encode-start false = refl

-- No virtual device is leaked: after any sequence of rounds from the start of a worker, the kernel
-- holds the devices whose descriptors the worker holds, and no others; one that is open is the one
-- that is polled; and the end of the worker destroys what is left.
pub manage_all-IsLeakFree :
    (is_nsw : Bool) (requests : List Request) → IsLeakFree (manage_all is_nsw requests no_device)
unfolding execute_ops
manage_all-IsLeakFree is_nsw requests =
    let r = run_machine requests start in
    let sound = run_IsSound requests start tt in
    subst IsLeakFree
      (sym (manage_all-refines is_nsw requests start)
        ∙ ap (manage_all is_nsw requests) (encode-start is_nsw))
      (encode_parts is_nsw r.0.mode r.0.poll r.1 sound.0 sound.1)

-- A round that creates nothing: emulation is off, or both answers are failures.
abbrev pub IsFruitless : Request → Type 0
IsFruitless q = (q.emu_req ≡ false) ⊎ ((q.uinput_answer ≡ none) × (q.uhid_answer ≡ none))

fruitless_step :
    (q : Request) (poll : Option ℕ)
    → IsFruitless q
    → step_machine q (record { mode = off; poll = poll }) ≡ (record { mode = off; poll = poll }, [])
unfolding step_machine
fruitless_step q poll (inl e) = rw e refl
fruitless_step q poll (inr (no_uinput, no_uhid)) = elim (Bool-cases q.emu_req) [
  | inl on ↦ elim (Bool-cases q.use_uhid) [
    | inl u ↦ rw on (rw u (rw no_uhid refl))
    | inr u ↦ rw on (rw u (rw no_uinput refl))
  ]
  | inr e ↦ rw e refl
]

fruitless_run :
    (requests : List Request) (poll : Option ℕ)
    → All IsFruitless requests
    → run_machine requests (record { mode = off; poll = poll })
      ≡ (record { mode = off; poll = poll }, [])
unfolding run_machine
fruitless_run [] poll h = refl
fruitless_run (q ∷ requests) poll h =
    rw (fruitless_step q poll h.0) (rw (fruitless_run requests poll h.1) refl)

-- A descriptor that was closed can stay polled: if the slot asks for UHID while uinput is open and
-- uhid_create fails, `fds[1].fd` keeps the descriptor of the uinput device, which is destroyed, and
-- it still does so after any sequence of rounds each of which finds emulation off or fails to
-- create a device, while the worker holds no device.
pub manage_all-stale :
    (is_nsw : Bool) (fd : ℕ) (q : Request) (requests : List Request)
    → q.emu_req ≡ true
    → q.use_uhid ≡ true
    → q.uhid_answer ≡ none
    → All IsFruitless requests
    → manage_all is_nsw (q ∷ requests) (encode is_nsw (record { mode = uinput fd; poll = some fd }))
      ≡ encode_result is_nsw (record { mode = off; poll = some fd }, uinput_destroyed fd ∷ [])
unfolding run_machine step_machine
manage_all-stale is_nsw fd q requests on u none_made h =
    manage_all-refines is_nsw (q ∷ requests) (record { mode = uinput fd; poll = some fd })
    ∙ rw on (rw u (rw none_made (rw (fruitless_run requests (some fd) h) refl)))
