-- ===== src/Worker/Requests.antt =====
-- What a round of controller_worker in dstx/src/daemon.c serves besides the virtual device: the
-- one-shot requests for a layout, and the events of inotify on the hidraw node, which show that
-- another program wrote to the controller.
pub mod Served
use dstx.Common.{ℕ, Bool, true, false, List, [], ◌∷◌, not, ◌&&◌, if◌then◌else◌}
use dstx.Common.Int.{pos, ltb_ℤ}
use dstx.Controller.{
  Controller, ControllerType, type_ds4, type_dualsense, type_nsw_pro, Timeval, elapsed_us,
}
use dstx.Keys.{keys_set_switch_layout, keys_set_xbox_layout, keys_reset_all_keybinds}

-- The three flags of the slot; atomic_exchange clears them.
pub record LayoutRequests : Type 0 where
  pub request_switch_layout : Bool
  pub request_xbox_layout : Bool
  pub request_reset_all_keybinds : Bool

abbrev pub mark_dirty : Controller → Controller
mark_dirty slot = record slot { feedback = record (slot.feedback) { led_dirty = true } }

abbrev serve_one : Bool → (Controller → Controller) → Controller → Controller
serve_one pending apply slot = if pending then mark_dirty (apply slot) else slot

unfoldable pub serve_layouts : LayoutRequests → Controller → Controller × LayoutRequests
serve_layouts q slot =
    let slot = serve_one q.request_switch_layout keys_set_switch_layout slot in
    let slot = serve_one q.request_xbox_layout keys_set_xbox_layout slot in
    let slot = serve_one q.request_reset_all_keybinds keys_reset_all_keybinds slot in
    (
      slot,
      record {
        request_switch_layout = false;
        request_xbox_layout = false;
        request_reset_all_keybinds = false;
      },
    )

-- An event of inotify: whether it is IN_MODIFY, the time when it is looked at, and the time after
-- the sleep of 5 ms.
pub record FileEvent : Type 0 where
  pub is_modify : Bool
  pub seen : Timeval
  pub slept : Timeval

abbrev shows_led : ControllerType → Bool
shows_led type_nsw_pro = false
shows_led type_ds4 = true
shows_led type_dualsense = true

-- Whether an event is an intervention of another program: the worker does not write just now, and
-- did not in the last 50 ms.
unfoldable pub is_external : Bool → Timeval → FileEvent → Bool
is_external writing last_write ev =
    ev.is_modify && not writing && ltb_ℤ (pos 50000) (elapsed_us ev.seen last_write)

unfoldable pub handle_file_event : Bool → Timeval → FileEvent → Controller → Controller
unfolding is_external
handle_file_event writing last_write ev slot =
    if is_external writing last_write ev
    then if not slot.settings.led_reapply
      then slot
      else if shows_led slot.type && slot.led_request.led_static
      then record slot {
        feedback = record (slot.feedback) {
          external_retry_count = 10;
          last_external_retry = ev.slept;
          led_dirty = true;
        };
      }
      else slot
    else slot

unfoldable pub handle_file_events : Bool → Timeval → List FileEvent → Controller → Controller
handle_file_events writing last_write [] slot = slot
handle_file_events writing last_write (ev ∷ events) slot =
    handle_file_events writing last_write events (handle_file_event writing last_write ev slot)
