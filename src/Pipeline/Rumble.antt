-- ===== src/Pipeline/Rumble.antt =====
-- How often rumble_process_pipeline sends, over any sequence of calls.
use dstx.Common.{
  ℕ, ◌+◌, ◌≤◌, ◌≡◌, ◌≢◌, ◌↔◌, ◌⊎◌, inl, inr, refl, ◌∙◌, ap, Bool, true, false, Bool-cases, if_true,
  if_false, Option, none, some, List, [], ◌∷◌, ◌&&◌, ◌||◌, arith,
}
use dstx.Common.Int.{ℤ, pos, negsuc}
use dstx.Controller.{
  Controller, ControllerType, type_ds4, type_dualsense, type_nsw_pro, Feedback, Timeval, in_us,
  elapsed_us,
}
use dstx.AxisSystem.{Float}
use dstx.Effects.{Waves}
use dstx.Pipeline.{
  Turn, Emission, at_least, at_least-le, le-at_least, refresh_periodic, should_send, motors_on,
  send_rumble, rumble_process_pipeline,
}

either_late : (a b c d : Bool) → (a && b) || (c && d) ≡ true → (b ≡ true) ⊎ (d ≡ true)
either_late true true c d h = inl refl
either_late true false true true h = inr refl
either_late true false true false h = cc
either_late true false false d h = cc
either_late false b true true h = inr refl
either_late false b true false h = cc
either_late false b false d h = cc

clean_test :
    (dirty soon on late connected : Bool)
    → dirty ≡ false
    → connected ≡ true
    → (((dirty && soon) || (on && late)) && connected ≡ true) ↔ ((on ≡ true) × (late ≡ true))
clean_test dirty soon on late connected clean up = ground arith

unfoldable pub add_time : Option Emission → Timeval → List Timeval → List Timeval
add_time none now times = times
add_time (some e) now times = now ∷ times

module _ (dbl : Float) (w : Waves dbl) (crc32 : ℕ → List ℕ → ℕ) where
  -- The times at which a sequence of calls sends, each on the slot that it finds.
  unfoldable pub send_times : List (Timeval × Controller) → Timeval → List Timeval
  send_times [] last = []
  send_times ((now, slot) ∷ calls) last =
      let turn = rumble_process_pipeline dbl w crc32 now slot last in
      let rest = send_times calls turn.last in add_time turn.sent now rest

  -- A call that sends nothing keeps the time of the last report, and one that sends comes at least
  -- 5 ms after it.
  IsQuiet : Turn → Timeval → Type 0
  IsQuiet turn last = (turn.sent ≡ none) × (turn.last ≡ last)

  IsSending : Turn → Timeval → Timeval → Type 0
  IsSending turn now last =
      (in_us last + 5000 ≤ in_us now) × (turn.last ≡ now) × (e : Emission) × (turn.sent ≡ some e)

  should_send-late :
      (fb : Feedback) (now last : Timeval)
      → should_send fb (elapsed_us now last) ≡ true
      → in_us last + 5000 ≤ in_us now
  should_send-late fb now last h = elim (either_late fb.rumble_dirty _ (motors_on fb) _ h) [
    | inl e ↦ at_least-le now last 4999 e
    | inr e ↦ omega (arith, at_least-le now last 19999 e)
  ]

  send_rumble-cases :
      (now : Timeval) (slot : Controller) (left right : ℕ) (last : Timeval)
      → IsQuiet (send_rumble dbl w crc32 now slot left right last) last
        ⊎ IsSending (send_rumble dbl w crc32 now slot left right last) now last
  unfolding send_rumble IsQuiet IsSending
  send_rumble-cases now slot left right last =
      elim (Bool-cases (should_send slot.feedback (elapsed_us now last) && slot.connected)) [
        | inl e ↦ inr (rw e (should_send-late slot.feedback now last (ground arith), refl, _, refl))
        | inr e ↦ inl (rw e (refl, refl))
      ]

  abbrev pub IsSpaced : Timeval → List Timeval → Type 0
  IsSpaced last [] = Unit
  IsSpaced last (t ∷ ts) = (in_us last + 5000 ≤ in_us t) × IsSpaced t ts

  add_time-IsSpaced :
      (turn : Turn) (now last : Timeval) (times : Timeval → List Timeval)
      → ((t : Timeval) → IsSpaced t (times t))
      → IsQuiet turn last ⊎ IsSending turn now last
      → IsSpaced last (add_time turn.sent now (times turn.last))
  unfolding add_time IsQuiet IsSending
  add_time-IsSpaced turn now last times h (inl quiet) = rw (quiet.0, quiet.1) (h last)
  add_time-IsSpaced turn now last times h (inr sending) =
      rw (sending.3, sending.1) (sending.0, h now)

  -- Over any sequence of calls, at any times and on whatever the slot holds at each, two reports
  -- are at least 5 ms apart, and the first is 5 ms after the last one before the sequence.
  pub send_times-IsSpaced :
      (calls : List (Timeval × Controller)) (last : Timeval) → IsSpaced last (send_times calls last)
  unfolding send_times rumble_process_pipeline
  send_times-IsSpaced [] last = tt
  send_times-IsSpaced ((now, slot) ∷ calls) last =
      let refreshed =
        refresh_periodic dbl w crc32 now slot.type slot.effects.active_effect_id slot in
      add_time-IsSpaced _ now last (send_times calls) (send_times-IsSpaced calls)
        (send_rumble-cases now refreshed.0 refreshed.1 refreshed.2 last)

  refresh-idle :
      (now : Timeval) (type : ControllerType) (id : ℤ) (slot : Controller)
      → id ≡ negsuc 0
      → refresh_periodic dbl w crc32 now type id slot ≡ (slot, 0, 0)
  unfolding refresh_periodic
  refresh-idle now type_nsw_pro (pos n) slot h = cc
  refresh-idle now type_nsw_pro (negsuc n) slot h = refl
  refresh-idle now type_ds4 id slot h = refl
  refresh-idle now type_dualsense id slot h = refl

  idle_call :
      (now last : Timeval) (slot : Controller)
      → slot.effects.active_effect_id ≡ negsuc 0
      → rumble_process_pipeline dbl w crc32 now slot last
        ≡ send_rumble dbl w crc32 now slot 0 0 last
  unfolding rumble_process_pipeline
  idle_call now last slot idle =
      ap (λ r. send_rumble dbl w crc32 now r.0 r.1 r.2 last)
        (refresh-idle now slot.type slot.effects.active_effect_id slot idle)

  clean_sends_iff :
      (now last : Timeval) (slot : Controller)
      → slot.effects.active_effect_id ≡ negsuc 0
      → slot.connected ≡ true
      → slot.feedback.rumble_dirty ≡ false
      → ((rumble_process_pipeline dbl w crc32 now slot last).sent ≢ none)
        ↔ ((motors_on slot.feedback ≡ true) × (in_us last + 20000 ≤ in_us now))
  unfolding send_rumble
  clean_sends_iff now last slot idle connected clean =
      let test =
        clean_test slot.feedback.rumble_dirty (at_least (elapsed_us now last) 5000)
          (motors_on slot.feedback) (at_least (elapsed_us now last) 20000) slot.connected clean
          connected in
      let same = idle_call now last slot idle in
      elim (Bool-cases (should_send slot.feedback (elapsed_us now last) && slot.connected)) [
        | inl e ↦
            let sent = ap (λ t. t.sent) (same ∙ if_true _ _ e) in
            let on = test.0 e in (λ n. (on.0, at_least-le now last 19999 on.1), λ h n. cc)
        | inr e ↦
            let quiet = ap (λ t. t.sent) (same ∙ if_false _ _ e) in
            (
              λ n. absurd (n quiet),
              λ h n. let on = test.1 (h.0, le-at_least now last 20000 h.1) in cc,
            )
      ]

  -- The keep-alive: right after a report, and with no periodic effect, the next call of a connected
  -- controller sends again exactly if a motor runs and 20 ms have passed since that report.
  pub resend_iff :
      (now later last : Timeval) (slot : Controller)
      → slot.effects.active_effect_id ≡ negsuc 0
      → slot.connected ≡ true
      → should_send slot.feedback (elapsed_us now last) ≡ true
      → (let turn = rumble_process_pipeline dbl w crc32 now slot last in
          let next = rumble_process_pipeline dbl w crc32 later turn.slot turn.last in
          (next.sent ≢ none)
          ↔ ((motors_on slot.feedback ≡ true) × (in_us now + 20000 ≤ in_us later)))
  unfolding send_rumble
  resend_iff now later last slot idle connected due =
      let sends : (should_send slot.feedback (elapsed_us now last) && slot.connected) ≡ true =
        ground arith in
      let first = idle_call now last slot idle ∙ if_true _ _ sends in
      rw first (
        clean_sends_iff later now
          (record slot { feedback = record (slot.feedback) { rumble_dirty = false } }) idle
          connected refl)
