-- ===== src/Watchdog.antt =====
-- run_daemon_loop of dstx/src/daemon.c: the watchdog over the workers' heartbeats, the loop that
-- collects the workers that ended, and the end of a worker. Times are those of
-- get_monotonic_time_us, in `uint64_t`. A path is a number.
pub mod Expiry
pub mod Restart
use dstx.Common.{
  ℕ, zero, suc, ◌+◌, ◌-◌, Bool, true, false, Option, none, some, List, [], ◌∷◌, ◌==◌, ltb, not,
  ◌&&◌, u64, get_or, set, map, ◌>>=◌, if◌then◌else◌,
}
use dstx.Common.Int.{pos}
use dstx.Debounce.{max_slots}
use dstx.Registry.{mark_slot_free}

-- What the watchdog knows of a slot: whether `threads[i]` is set, and four fields of the slot; an
-- empty path is `none`.
pub record WorkerSlot : Type 0 where
  pub thread : Bool
  pub heartbeat : ℕ
  pub worker_stop : Bool
  pub connected : Bool
  pub dev_path : Option ℕ

pub record Workers : Type 0 where
  pub slots : List WorkerSlot
  pub free_slots_bitmap : ℕ

abbrev pub no_worker : WorkerSlot
no_worker = record {
  thread = false;
  heartbeat = 0;
  worker_stop = false;
  connected = false;
  dev_path = none;
}

-- WORKER_HEARTBEAT_TIMEOUT_US
abbrev pub heartbeat_timeout_us : ℕ
heartbeat_timeout_us = 5000000

-- The test on a heartbeat; the difference is one of `uint64_t`.
unfoldable pub is_expired : ℕ → ℕ → Bool
is_expired now hb =
    not (hb == 0) && ltb heartbeat_timeout_us (u64 (now + 18446744073709551616 - hb))

-- The end of controller_worker: the slot is given back.
unfoldable pub worker_cleanup : ℕ → Workers → Workers
worker_cleanup i w =
    let slot = get_or w.slots i no_worker in
    record {
      slots = set w.slots i (record slot { connected = false; dev_path = none });
      free_slots_bitmap = mark_slot_free w.free_slots_bitmap (pos i);
    }

-- What the watchdog does with a slot: the workers, and the path that it hands to
-- try_register_control.
pub record Watched : Type 0 where
  pub workers : Workers
  pub registered : Option ℕ

-- `exists` is the answer of access(2) for a path.
abbrev pub still_there : (ℕ → Bool) → Option ℕ → Option ℕ
still_there exists none = none
still_there exists (some path) = if exists path then some path else none

abbrev pub put : ℕ → WorkerSlot → Workers → Workers
put i slot w = record w { slots = set w.slots i slot }

abbrev pub slot_at : ℕ → Workers → WorkerSlot
slot_at i w = get_or w.slots i no_worker

-- The restart of a worker: the stop flag, the join, the fields, the device that still exists. A
-- worker with a heartbeat has reached its loop, which ends in worker_cleanup; `ends` says whether it
-- does, and `none` is a join that waits for ever.
unfoldable pub restart : (ℕ → Bool) → Bool → ℕ → Workers → Option Watched
restart exists ends i w =
    let stopping = put i (record (slot_at i w) { worker_stop = true }) w in
    let joined = worker_cleanup i stopping in
    let left = record (slot_at i joined) {
      thread = false;
      worker_stop = false;
      connected = false;
    } in
    if ends
    then some (record {
      workers = record {
        slots = set joined.slots i left;
        free_slots_bitmap = mark_slot_free joined.free_slots_bitmap (pos i);
      };
      registered = still_there exists left.dev_path;
    })
    else none

-- The first argument is try_register_control, on what is modelled here.
abbrev pub register_again : (ℕ → Workers → Workers) → Watched → Workers
register_again try_register r = elim r.registered [
  | none ↦ r.workers
  | some path ↦ try_register path r.workers
]

-- One round for one slot. The heartbeat `hb` is what the worker, which runs on, has stored by then.
unfoldable pub watch_slot : (ℕ → Bool) → ℕ → ℕ → Bool → ℕ → Workers → Option Watched
watch_slot exists now hb ends i w =
    if (slot_at i w).thread
    then if is_expired now hb
      then restart exists ends i (put i (record (slot_at i w) { heartbeat = hb }) w)
      else some (record {
        workers = put i (record (slot_at i w) { heartbeat = hb }) w;
        registered = none;
      })
    else some (record { workers = w; registered = none })

-- The slots from `i` on, `left` of them, with the one time that is read before the loop; `hb i` is
-- the heartbeat of slot i when the loop gets there.
module _ (try_register : ℕ → Workers → Workers) (exists : ℕ → Bool) where
  unfoldable pub watch_from : ℕ → (ℕ → ℕ) → (ℕ → Bool) → (left i : ℕ) → Workers → Option Workers
  watch_from now hb ends zero i w = some w
  watch_from now hb ends (suc left) i w =
      watch_slot exists now (hb i) (ends i) i w
      >>= (λ r. watch_from now hb ends left (i + 1) (register_again try_register r))

  unfoldable pub watchdog : ℕ → (ℕ → ℕ) → (ℕ → Bool) → Workers → Option Workers
  watchdog now hb ends w = watch_from now hb ends max_slots 0 w

-- The loop that joins the workers of slots that lost their connection. Such a worker has ended or
-- is about to, so that the join returns.
abbrev collect_slot : WorkerSlot → WorkerSlot
collect_slot slot =
    if slot.thread && not slot.connected then record slot { thread = false } else slot

unfoldable pub collect : Workers → Workers
collect w = record w { slots = map collect_slot w.slots }
