-- ===== src/Examples/Worker.antt =====
-- A worker's virtual device and requests, the watchdog, and requests to the settings thread.
use dstx.Common.{
  ℕ, ◌*◌, ◌≡◌, ◌⊎◌, refl, true, false, Option, none, some, List, [], ◌∷◌, not, ◌&&◌, arith, get_or,
  leb, if◌then◌else◌,
}
use dstx.Common.Int.{pos, negsuc}
use dstx.Controller.{Controller, Timeval}
use dstx.Controller.Config.{SlotConfig}
use dstx.Pipeline.{output_report, led_process_pipeline}
use dstx.Pipeline.Led.{led_calls}
use dstx.Output.{send_output_report}
use dstx.Worker.Virtual.{Request, manage_all, no_device}
use dstx.Worker.Virtual.Open.{Machine, off, encode, encode_result, run_machine, manage_all-refines}
use dstx.Worker.Virtual.Polled.{IsLeakFree, manage_all-IsLeakFree}
use dstx.Worker.Requests.{LayoutRequests, FileEvent, is_external, handle_file_event}
use dstx.Worker.Requests.Served.{counts, handle_file_event-settles}
use dstx.Watchdog.{
  WorkerSlot, Workers, is_expired, watchdog, watch_from, watch_slot, restart, worker_cleanup,
  slot_at, no_worker,
}
use dstx.Watchdog.Restart.{watchdog-thread, watchdog-unregistered}
use dstx.Profiles.{profile_sync_shm_to_active}
use dstx.Profiles.Requests.{Manager, Shared, Disk, Served, serve, profile_process_requests}
use dstx.Profiles.Requests.Answers.{profile_process_requests-answers, load_request-clean}
use dstx.Profiles.Requests.Race.{
  Post, posted, World, idle, client_posts, thread_takes, thread_stores, run_steps, run_steps-lost,
}
use dstx.Examples.Data.{fresh, time_zero, checksum}

-- uinput is created, then UHID takes its place.
abbrev switching : List Request
switching =
    record { emu_req = true; use_uhid = false; uinput_answer = some 5; uhid_answer = none }
    ∷ record { emu_req = true; use_uhid = true; uinput_answer = none; uhid_answer = some 6 }
    ∷ []

abbrev machine_start : Machine
machine_start = record { mode = off; poll = none }

manage_all-refines_example :
    manage_all true switching (encode true machine_start)
    ≡ encode_result true (run_machine switching machine_start)
manage_all-refines_example = manage_all-refines true switching machine_start

manage_all-IsLeakFree_example : IsLeakFree (manage_all true switching no_device)
manage_all-IsLeakFree_example = manage_all-IsLeakFree true switching

abbrev xbox_and_reset : LayoutRequests
xbox_and_reset = record {
  request_switch_layout = false;
  request_xbox_layout = true;
  request_reset_all_keybinds = true;
}

abbrev at_ms : ℕ → Timeval
at_ms n = record { sec = 0; usec = n * 1000 }

abbrev written_by_other : FileEvent
written_by_other = record { is_modify = true; seen = at_ms 100; slept = at_ms 105 }

abbrev retry_times : List Timeval
retry_times =
    at_ms 300
    ∷ at_ms 400
    ∷ at_ms 500
    ∷ at_ms 600
    ∷ at_ms 700
    ∷ at_ms 800
    ∷ at_ms 900
    ∷ at_ms 1000
    ∷ at_ms 1100
    ∷ at_ms 1200
    ∷ []

it_counts : counts false time_zero fresh written_by_other ≡ true
unfolding is_external
it_counts = refl

abbrev drained : Controller × Timeval
drained =
    led_calls checksum retry_times (handle_file_event false time_zero written_by_other fresh)
      time_zero

handle_file_event-settles_example :
    ((led_process_pipeline checksum
        (at_ms 1300)
        drained.0
        drained.1).slot.feedback.external_retry_count
      ≡ 0)
    × ((led_process_pipeline checksum (at_ms 1300) drained.0 drained.1).sent
        ≡ some (output_report (send_output_report checksum drained.0)))
    × ((led_process_pipeline checksum (at_ms 1300) drained.0 drained.1).slot.feedback.led_dirty
        ≡ false)
handle_file_event-settles_example =
    handle_file_event-settles checksum false time_zero written_by_other fresh retry_times time_zero
      (at_ms 1300) it_counts refl (omega arith) (omega arith)

-- The worker stored its heartbeat 1 us after the watchdog read the clock.
abbrev newer : ℕ
newer = 8000001

abbrev running : WorkerSlot
running = record {
  thread = true;
  heartbeat = 1;
  worker_stop = false;
  connected = true;
  dev_path = some 1;
}

abbrev two_running : Workers
two_running = record {
  slots = running ∷ running ∷ no_worker ∷ no_worker ∷ [];
  free_slots_bitmap = 0xFC;
}

-- Slot 0 is stuck, slot 1 runs.
abbrev heartbeats : ℕ → ℕ
heartbeats i = get_or (1000000 ∷ 7999000 ∷ []) i 0

abbrev pass_of : Option Workers → Workers
pass_of (some w) = w
pass_of none = two_running

abbrev after_pass : Workers
after_pass =
    pass_of (watchdog (λ path u. u) (λ path. true) 8000000 heartbeats (λ i. true) two_running)

pass_ends :
    watchdog (λ path u. u) (λ path. true) 8000000 heartbeats (λ i. true) two_running
    ≡ some after_pass
unfolding watchdog watch_from watch_slot restart worker_cleanup is_expired
pass_ends = refl

watchdog-thread_example : (slot_at 1 after_pass).thread ≡ (true && not (is_expired 8000000 7999000))
watchdog-thread_example =
    watchdog-thread (λ path u. u) (λ path. true) 8000000 heartbeats (λ i. true) two_running
      after_pass 1 refl pass_ends (omega arith)

watchdog-unregistered_example :
    watchdog (λ path u. two_running) (λ path. true) 8000000 heartbeats (λ i. true) two_running
    ≡ watchdog (λ path u. u) (λ path. true) 8000000 heartbeats (λ i. true) two_running
watchdog-unregistered_example =
    watchdog-unregistered (λ path u. two_running) (λ path. true) 8000000 heartbeats (λ i. true)
      two_running refl

abbrev manager : Manager
manager = record {
  pm = record {
    slots = [];
    profile_dirty = false;
    last_change = time_zero;
    auto_save_enabled = true;
    auto_save_delay_ms = 2000;
  };
  active_name = 1;
}

-- Profiles 1 and 2 are there; each has one slot.
abbrev stored : SlotConfig
stored = record {
  led_r = 1;
  led_g = 2;
  led_b = 3;
  led_base_r = 1;
  led_base_g = 2;
  led_base_b = 3;
  rumble_gain = 50;
  deadzone = 10;
  global_led_brightness = 80;
  player_leds = 1;
  debounce_enabled = true;
  emulate_active = true;
  is_uhid = false;
  led_reapply = true;
  rumble_active = true;
  invert_ly = false;
  invert_ry = false;
  sensitivity_left_preset = 0;
  sensitivity_right_preset = 0;
  led_effect = 0;
  led_effect_speed = 5;
  led_effect_brightness = 80;
  keymap = 1 ∷ 2 ∷ 3 ∷ 4 ∷ 5 ∷ 6 ∷ 7 ∷ 8 ∷ 9 ∷ 10 ∷ 11 ∷ 12 ∷ 13 ∷ 14 ∷ 15 ∷ 16 ∷ 17 ∷ 18 ∷ [];
  treat_triggers_as_digital = false;
}

abbrev disk : Disk
disk = record {
  load = λ name old. if leb name 2 then some (stored ∷ []) else none;
  save = λ name. true;
  delete = λ name. leb name 2;
  default_name = 1;
}

abbrev wants_second : Shared
wants_second = record {
  profile_request = pos 1;
  profile_name = 2;
  profile_response = pos 0;
  current_profile_name = 1;
  auto_save_enabled = pos 1;
  auto_save_delay_ms = pos 2000;
  slots = fresh ∷ [];
}

profile_process_requests-answers_example :
    ((profile_process_requests disk manager wants_second).1.profile_request ≡ pos 0)
    × (((profile_process_requests disk manager wants_second).1.profile_response ≡ pos 1)
        ⊎ (profile_process_requests disk manager wants_second ≡ (
          manager,
          record wants_second { profile_response = negsuc 0; profile_request = pos 0 },
        )))
profile_process_requests-answers_example =
    profile_process_requests-answers disk manager wants_second refl

abbrev loaded : Manager × Shared
loaded = profile_process_requests disk manager wants_second

load_request-clean_example :
    (loaded.0.pm.slots ≡ stored ∷ [])
    × (loaded.0.active_name ≡ 2)
    × (loaded.1.current_profile_name ≡ 2)
    × (loaded.1.profile_response ≡ pos 1)
    × (loaded.0.pm.profile_dirty ≡ manager.pm.profile_dirty)
    × (profile_sync_shm_to_active (at_ms 7) loaded.1.slots loaded.0.pm ≡ loaded.0.pm)
load_request-clean_example =
    load_request-clean disk manager wants_second (stored ∷ []) (at_ms 7) refl refl (omega arith, tt)

-- A client asks for a profile that is not there, another for a list.
abbrev load_third : Post
load_third = record {
  request = pos 1;
  name = some 3;
  auto_enable = negsuc 0;
  auto_delay = negsuc 0;
}

abbrev list_all : Post
list_all = record { request = pos 4; name = none; auto_enable = negsuc 0; auto_delay = negsuc 0 }

abbrev raced : World
raced =
    run_steps disk
      (client_posts load_third ∷ thread_takes ∷ client_posts list_all ∷ thread_stores ∷ [])
      (record { manager = manager; shm = wants_second; thread = idle })

abbrev third_served : Served
third_served =
    serve disk (pos 1) (posted load_third wants_second).profile_name manager
      (posted load_third wants_second)

run_steps-lost_example :
    (raced.shm.profile_response ≡ third_served.result)
    × (raced.manager ≡ third_served.manager)
    × (run_steps disk (thread_takes ∷ thread_stores ∷ []) raced ≡ raced)
run_steps-lost_example = run_steps-lost disk manager wants_second load_third list_all refl
