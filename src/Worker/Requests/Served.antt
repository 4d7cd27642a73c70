-- ===== src/Worker/Requests/Served.antt =====
-- The outcome of the requests and interventions that a worker serves.
use dstx.Common.{
  ℕ, ◌+◌, ◌≤◌, ◌≡◌, refl, sym, ◌∙◌, Bool, true, false, some, List, ◌&&◌, ◌||◌, length,
  if◌then◌else◌, arith,
}
use dstx.Controller.{Controller, Timeval, in_us}
use dstx.Keys.{keys_set_switch_layout, keys_set_xbox_layout, keys_reset_all_keybinds}
use dstx.Keys.Layout.{xbox_after_switch, reset_after_switch, reset_after_xbox}
use dstx.Output.{send_output_report}
use dstx.Pipeline.{output_report, led_process_pipeline}
use dstx.Pipeline.Led.{led_calls, IsPaced, led_settles}
use dstx.Worker.Requests.{
  LayoutRequests, serve_layouts, FileEvent, shows_led, is_external, handle_file_event,
}

-- The one request that decides: a reset before the Xbox layout, that before the Switch layout.
abbrev pub decided_keymap : LayoutRequests → Controller → List ℕ
decided_keymap q slot =
    if q.request_reset_all_keybinds
    then (keys_reset_all_keybinds slot).keymap
    else if q.request_xbox_layout
    then (keys_set_xbox_layout slot).keymap
    else if q.request_switch_layout
    then (keys_set_switch_layout slot).keymap
    else slot.keymap

serve_parts :
    (sw xb rs : Bool) (slot : Controller)
    → (let q : LayoutRequests = record {
      request_switch_layout = sw;
      request_xbox_layout = xb;
      request_reset_all_keybinds = rs;
    } in
        ((serve_layouts q slot).0.keymap ≡ decided_keymap q slot)
        × ((serve_layouts q slot).0.feedback.led_dirty
            ≡ (sw || xb || rs || slot.feedback.led_dirty)))
unfolding serve_layouts keys_set_switch_layout keys_set_xbox_layout keys_reset_all_keybinds
serve_parts false false false slot = (refl, refl)
serve_parts true false false slot = (refl, refl)
serve_parts false true false slot = (refl, refl)
serve_parts true true false slot = (xbox_after_switch slot, refl)
serve_parts false false true slot = (refl, refl)
serve_parts true false true slot = (reset_after_switch slot, refl)
serve_parts false true true slot = (reset_after_xbox slot, refl)
serve_parts true true true slot =
    (reset_after_xbox (keys_set_switch_layout slot) ∙ reset_after_switch slot, refl)

-- A round serves every pending request for a layout, and the last one in the order of the code
-- decides: a reset of all keybinds gives the default map whatever else is pending, without it the
-- Xbox layout gives its four buttons, then the Switch layout, and without a request the map stays.
-- The LED is marked for an update if anything was pending, and the flags are cleared.
pub serve_layouts-decided :
    (q : LayoutRequests) (slot : Controller)
    → ((serve_layouts q slot).0.keymap ≡ decided_keymap q slot)
      × ((serve_layouts q slot).0.feedback.led_dirty ≡ (
          q.request_switch_layout || q.request_xbox_layout || q.request_reset_all_keybinds
          || slot.feedback.led_dirty))
      × ((serve_layouts q slot).1 ≡ record {
        request_switch_layout = false;
        request_xbox_layout = false;
        request_reset_all_keybinds = false;
      })
unfolding serve_layouts keys_set_switch_layout keys_set_xbox_layout keys_reset_all_keybinds
serve_layouts-decided q slot =
    let parts =
      serve_parts q.request_switch_layout q.request_xbox_layout q.request_reset_all_keybinds slot in
    (parts.0, parts.1, refl)

-- An intervention that counts: another program wrote, and the slot is to be restored.
abbrev pub counts : Bool → Timeval → Controller → FileEvent → Bool
counts writing last_write slot ev =
    is_external writing last_write ev
    && (slot.settings.led_reapply && (shows_led slot.type && slot.led_request.led_static))

three_tests : (a b c : Bool) → a && (b && c) ≡ true → (a ≡ true) × (b ≡ true) × (c ≡ true)
three_tests a b c h = ground arith

handle_file_event_lem :
    (writing : Bool) (last_write : Timeval) (ev : FileEvent) (slot : Controller)
    → counts writing last_write slot ev ≡ true
    → handle_file_event writing last_write ev slot ≡ record slot {
      feedback = record (slot.feedback) {
        external_retry_count = 10;
        last_external_retry = ev.slept;
        led_dirty = true;
      };
    }
unfolding handle_file_event
handle_file_event_lem writing last_write ev slot h =
    let (external, reapply, static) =
      three_tests (is_external writing last_write ev) slot.settings.led_reapply
        (shows_led slot.type && slot.led_request.led_static) h in
    rw external (rw reapply (rw static refl))

module _ (crc32 : ℕ → List ℕ → ℕ) where
  -- An intervention of another program is answered: after an event of inotify that counts (the slot
  -- has an LED in static mode and is to be restored, the worker does not write and has not written
  -- for more than 50 ms), ten calls of the LED pipeline 100 ms apart use up the retries, and the
  -- next call, if it comes 20 ms after the last report of the colour, sends a report with the
  -- slot's state, after which the flag and the count are clear.
  pub handle_file_event-settles :
      (writing : Bool) (last_write : Timeval) (ev : FileEvent) (slot : Controller)
      (times : List Timeval) (last at : Timeval)
      → counts writing last_write slot ev ≡ true
      → length times ≡ 10
      → IsPaced crc32 ev.slept times
      → in_us last + 20000 ≤ in_us at
      → (let drained = led_calls crc32 times (handle_file_event writing last_write ev slot) last in
          let settled = led_process_pipeline crc32 at drained.0 drained.1 in
          (settled.slot.feedback.external_retry_count ≡ 0)
          × (settled.sent ≡ some (output_report (send_output_report crc32 drained.0)))
          × (settled.slot.feedback.led_dirty ≡ false))
  handle_file_event-settles writing last_write ev slot times last at h ten paced late =
      rw (handle_file_event_lem writing last_write ev slot h) (
        let settled =
          led_settles crc32 times
            (record slot {
              feedback = record (slot.feedback) {
                external_retry_count = 10;
                last_external_retry = ev.slept;
                led_dirty = true;
              };
            })
            last at at (sym ten) paced refl late in
        (settled.0, settled.1, settled.2))
