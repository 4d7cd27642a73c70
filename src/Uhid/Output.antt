-- ===== src/Uhid/Output.antt =====
-- What the events of the virtual HID device do to a slot, and what they are answered with.
use dstx.Common.{
  ℕ, ◌*◌, ◌/◌, ◌≤◌, ◌<◌, ◌≡◌, ◌≢◌, ap, ◌∙◌, refl, true, some, List, [], ◌∷◌, leb, get_or, arith,
}
use dstx.Controller.{Controller, type_nsw_pro}
use dstx.Output.{send_output_report}
use dstx.Output.Reports.{IsFeedback, layout_of, percent_u8, gain_of, send_output_report-Shows}
use dstx.Uhid.{
  UhidEvent, UhidReply, output, get_report, set_report, other, get_report_reply, set_report_reply,
  set_rumble, uhid_handle_output, uhid_handle_event, uhid_handle_events,
}

-- The answers to the requests among some events, in order.
abbrev pub answers : List UhidEvent → List UhidReply
answers [] = []
answers (output size bytes ∷ events) = answers events
answers (get_report id ∷ events) = get_report_reply id ∷ answers events
answers (set_report id size rtype bytes ∷ events) = set_report_reply id ∷ answers events
answers (other ∷ events) = answers events

-- The kernel gets one answer to each request for or of a report, in the order of the requests and
-- with their identifiers, whatever the slot holds and whatever other events stand between them.
pub uhid_handle_events-answers :
    (events : List UhidEvent) (slot : Controller)
    → (uhid_handle_events events slot).1 ≡ answers events
unfolding uhid_handle_events uhid_handle_event
uhid_handle_events-answers [] slot = refl
uhid_handle_events-answers (output size bytes ∷ events) slot = uhid_handle_events-answers events _
uhid_handle_events-answers (get_report id ∷ events) slot =
    ap (λ r. get_report_reply id ∷ r) (uhid_handle_events-answers events slot)
uhid_handle_events-answers (set_report id size rtype bytes ∷ events) slot =
    ap (λ r. set_report_reply id ∷ r) (uhid_handle_events-answers events _)
uhid_handle_events-answers (other ∷ events) slot = uhid_handle_events-answers events slot

-- The gain of a slot is applied twice to the strong motor of a rumble that arrives over UHID, for a
-- connected DualShock 4 or DualSense and a gain of at most 100: once when the event stores the
-- magnitude and once more in the report.
pub gain_twice :
    (crc32 : ℕ → List ℕ → ℕ) (slot : Controller) (size : ℕ) (bytes : List ℕ)
    → slot.connected ≡ true
    → slot.type ≢ type_nsw_pro
    → IsFeedback slot.feedback
    → 3 ≤ size
    → get_or bytes 1 0 < 256
    → get_or bytes 2 0 < 256
    → slot.feedback.rumble_gain ≤ 100
    → let gain = slot.feedback.rumble_gain in
      (r : List ℕ) × (send_output_report crc32 (uhid_handle_output size bytes slot) ≡ some r)
      × (get_or r (layout_of slot.type slot.is_bluetooth).strong_at 0
          ≡ get_or bytes 1 0 * gain / 100 * gain / 100)
unfolding uhid_handle_output set_rumble
gain_twice crc32 slot size bytes up type fb long strong weak gain =
    let enough : leb 3 size ≡ true = ground arith in
    let stored : Controller = record slot {
      feedback = set_rumble slot.feedback (get_or bytes 1 0) (get_or bytes 2 0);
    } in
    let ok : IsFeedback stored.feedback = record {
      led_r = fb.led_r;
      led_g = fb.led_g;
      led_b = fb.led_b;
      rumble_weak = omega arith;
      rumble_strong = omega arith;
    } in
    let once = percent_u8 (get_or bytes 1 0) slot.feedback.rumble_gain gain strong in
    let whole : gain_of slot.feedback ≡ slot.feedback.rumble_gain = ground arith in
    let (r, sent, shows) = send_output_report-Shows crc32 stored up type ok in
    let stored_gain = ap (λ v. v * gain_of slot.feedback / 100) once in
    let used = ap (λ g. get_or bytes 1 0 * slot.feedback.rumble_gain / 100 * g / 100) whole in
    rw enough (r, sent, shows.1 ∙ stored_gain ∙ used)
