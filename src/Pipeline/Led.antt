-- ===== src/Pipeline/Led.antt =====
-- led_process_pipeline over a sequence of calls: the retries that follow a change from outside, and
-- the report that clears a changed colour.
use dstx.Common.{
  ℕ, suc, ◌+◌, ◌-◌, ◌≤◌, ◌≡◌, refl, ◌∙◌, ap, true, false, Bool-cases, inl, inr, if_true, if_false,
  none, some, List, [], ◌∷◌, length, ltb, ◌&&◌, not, ◌==◌, if◌then◌else◌, arith,
}
use dstx.Controller.{Controller, Timeval, in_us, elapsed_us}
use dstx.Output.{send_output_report}
use dstx.Pipeline.{output_report, at_least, le-at_least, led_process_pipeline}

module _ (crc32 : ℕ → List ℕ → ℕ) where
  -- The calls of a loop at the given times, with nothing else that writes the slot.
  unfoldable pub led_calls : List Timeval → Controller → Timeval → Controller × Timeval
  led_calls [] slot last = (slot, last)
  led_calls (now ∷ times) slot last =
      let turn = led_process_pipeline crc32 now slot last in led_calls times turn.slot turn.last

  -- Every time lies at least 100 ms after the one before it.
  abbrev pub IsPaced : Timeval → List Timeval → Type 0
  IsPaced before [] = Unit
  IsPaced before (t ∷ times) = (in_us before + 100000 ≤ in_us t) × IsPaced t times

  retried : Timeval → Controller → ℕ → Controller
  retried now slot n = record slot {
    feedback = record (slot.feedback) { last_external_retry = now; external_retry_count = n };
  }

  retry :
      (now last : Timeval) (slot : Controller) (n : ℕ)
      → slot.feedback.external_retry_count ≡ suc n
      → in_us slot.feedback.last_external_retry + 100000 ≤ in_us now
      → led_process_pipeline crc32 now slot last ≡ record {
        slot = retried now slot n;
        last = last;
        sent = some (output_report (send_output_report crc32 slot));
      }
  unfolding led_process_pipeline retried
  retry now last slot n count late =
      let fb = slot.feedback in
      let busy : (not fb.led_dirty && fb.external_retry_count == 0) ≡ false = ground arith in
      let retrying : ltb 0 fb.external_retry_count ≡ true = ground arith in
      let due : at_least
            (elapsed_us now
              (if ltb 0 fb.external_retry_count then fb.last_external_retry else last))
            (if ltb 0 fb.external_retry_count
              then 100000
              else if slot.led_request.led_static
              then 20000
              else 5000)
          ≡ true =
        rw retrying (le-at_least now fb.last_external_retry 100000 late) in
      let left : fb.external_retry_count - 1 ≡ n = omega arith in
      if_false _ _ busy
      ∙ if_true _ _ due
      ∙ if_true _ _ retrying
      ∙ ap
          (λ k. record {
            slot = retried now slot k;
            last = last;
            sent = some (output_report (send_output_report crc32 slot));
          })
          left

  settle :
      (now last : Timeval) (slot : Controller)
      → slot.feedback.external_retry_count ≡ 0
      → slot.feedback.led_dirty ≡ true
      → in_us last + 20000 ≤ in_us now
      → led_process_pipeline crc32 now slot last ≡ record {
        slot = record slot { feedback = record (slot.feedback) { led_dirty = false } };
        last = now;
        sent = some (output_report (send_output_report crc32 slot));
      }
  unfolding led_process_pipeline
  settle now last slot count dirty late =
      let fb = slot.feedback in
      let busy : (not fb.led_dirty && fb.external_retry_count == 0) ≡ false = rw dirty refl in
      let settled : ltb 0 fb.external_retry_count ≡ false = ground arith in
      let due : at_least
            (elapsed_us now
              (if ltb 0 fb.external_retry_count then fb.last_external_retry else last))
            (if ltb 0 fb.external_retry_count
              then 100000
              else if slot.led_request.led_static
              then 20000
              else 5000)
          ≡ true =
        rw settled (elim (Bool-cases slot.led_request.led_static) [
          | inl e ↦ rw e (le-at_least now last 20000 late)
          | inr e ↦ rw e (le-at_least now last 5000 (omega arith))
        ]) in
      if_false _ _ busy ∙ if_true _ _ due ∙ if_false _ _ settled

  -- With nothing to do, a call sends nothing and changes nothing.
  settled_call :
      (now last : Timeval) (slot : Controller)
      → slot.feedback.external_retry_count ≡ 0
      → slot.feedback.led_dirty ≡ false
      → led_process_pipeline crc32 now slot last ≡ record { slot = slot; last = last; sent = none }
  unfolding led_process_pipeline
  settled_call now last slot count clean =
      let idle : (not slot.feedback.led_dirty && slot.feedback.external_retry_count == 0) ≡ true =
        ground arith in
      if_true _ _ idle

  -- As many calls as there are retries, 100 ms apart, use all of them up. They touch neither the
  -- colour's flag nor the time of the last report.
  drain :
      (times : List Timeval) (slot : Controller) (last : Timeval)
      → slot.feedback.external_retry_count ≡ length times
      → IsPaced slot.feedback.last_external_retry times
      → ((led_calls times slot last).0.feedback.external_retry_count ≡ 0)
        × ((led_calls times slot last).0.feedback.led_dirty ≡ slot.feedback.led_dirty)
        × ((led_calls times slot last).1 ≡ last)
  unfolding led_calls retried
  drain [] slot last count paced = (count, refl, refl)
  drain (now ∷ times) slot last count paced =
      let step : led_calls (now ∷ times) slot last
          ≡ led_calls times (retried now slot (length times)) last =
        ap (λ t. led_calls times t.slot t.last)
          (retry now last slot (length times) count paced.0) in
      rw step (drain times (retried now slot (length times)) last refl paced.1)

  -- A changed colour with retries left is settled: calls 100 ms apart, as many as there are retries,
  -- use them up, and the next call, if it comes 20 ms after the last report of the colour, sends the
  -- report of the slot, which is empty where send_output_report writes none (not connected, or a
  -- Switch Pro), and clears the flag. A call at any time after it sends nothing and changes nothing.
  pub led_settles :
      (times : List Timeval) (slot : Controller) (last at later : Timeval)
      → slot.feedback.external_retry_count ≡ length times
      → IsPaced slot.feedback.last_external_retry times
      → slot.feedback.led_dirty ≡ true
      → in_us last + 20000 ≤ in_us at
      → (let drained = led_calls times slot last in
          let settled = led_process_pipeline crc32 at drained.0 drained.1 in
          (settled.slot.feedback.external_retry_count ≡ 0)
          × (settled.sent ≡ some (output_report (send_output_report crc32 drained.0)))
          × (settled.slot.feedback.led_dirty ≡ false)
          × (led_process_pipeline crc32 later settled.slot settled.last
              ≡ record { slot = settled.slot; last = at; sent = none }))
  led_settles times slot last at later count paced dirty late =
      let drained = drain times slot last count paced in
      let end = led_calls times slot last in
      let step = settle at end.1 end.0 drained.0 (drained.1 ∙ dirty) (rw drained.2 late) in
      rw step (drained.0, refl, refl, settled_call later at _ drained.0 refl)
