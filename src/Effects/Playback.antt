-- ===== src/Effects/Playback.antt =====
-- What a program that plays force-feedback effects gets: uploads, starts and stops in sequence.
use dstx.Common.{
  some, ap, length, length-set, ℕ, suc, ◌+◌, ◌/◌, ◌<◌, ◌≡◌, refl, inl, inr, Bool-cases, if_true,
  if_false, ◌∙◌, true, false, ltb, leb, not, ◌&&◌, u8, get_or, get_or-set_self, arith, ◌==◌,
}
use dstx.Common.Int.{pos, negsuc, eqb_ℤ, ltb_ℤ}
use dstx.Controller.{Controller, FfEffect, Timeval}
use dstx.AxisSystem.{Float}
use dstx.Effects.{
  Waves, rumble, FfEvent, no_ff, store_effect, rumble_handle_ff_upload, start_effect, stop_effect,
  reads_outside, rumble_handle_ff_event,
}
use dstx.Effects.Invariant.{IsPlayable}

-- The event that plays the effect `i`, with a positive count, and the one that stops it.
abbrev pub start_event : ℕ → ℕ → FfEvent
start_event i n = record { is_ff = true; code = i; value = pos (suc n) }

abbrev pub stop_event : ℕ → FfEvent
stop_event i = record { is_ff = true; code = i; value = pos 0 }

module _ (dbl : Float) (w : Waves dbl) where
  event-start :
      (now : Timeval) (i n : ℕ) (slot : Controller)
      → i < 16
      → length slot.effects.effect_type ≡ 16
      → slot.settings.rumble_active ≡ true
      → rumble_handle_ff_event dbl w now (start_event i n) slot
        ≡ some (start_effect dbl w now i slot)
  unfolding rumble_handle_ff_event reads_outside
  event-start now i n slot lt len on =
      let on' : (not slot.settings.rumble_active && not (true && eqb_ℤ (pos (suc n)) (pos 0)))
          ≡ false =
        rw on refl in
      let inside : leb 16 i ≡ false = ground arith in
      let plays : ltb_ℤ (pos 0) (pos (suc n)) ≡ true = ground arith in
      let stored : leb (length slot.effects.effect_type) i ≡ false = rw len inside in
      if_false _ _ on' ∙ if_false _ _ inside ∙ rw plays (rw stored refl)

  event-stop :
      (now : Timeval) (i : ℕ) (slot : Controller)
      → i < 16
      → rumble_handle_ff_event dbl w now (stop_event i) slot ≡ some (stop_effect dbl w i slot)
  unfolding rumble_handle_ff_event reads_outside
  event-stop now i slot lt =
      let allowed : (not slot.settings.rumble_active && not (true && eqb_ℤ (pos 0) (pos 0)))
          ≡ false =
        ground arith in
      let inside : leb 16 i ≡ false = ground arith in if_false _ _ allowed ∙ if_false _ _ inside

  started_rumble :
      (now : Timeval) (i : ℕ) (slot : Controller)
      → get_or slot.effects.effect_type i 0 ≡ 1
      → (start_effect dbl w now i slot).effects.active_effect_id ≡ negsuc 0
  unfolding start_effect
  started_rumble now i slot ty = rw ty refl

  -- A stop leaves a slot alone in which no effect runs.
  stop_idle :
      (now : Timeval) (j : ℕ) (slot : Controller)
      → slot.effects.active_effect_id ≡ negsuc 0
      → rumble_handle_ff_event dbl w now (stop_event j) slot ≡ some slot
  unfolding rumble_handle_ff_event stop_effect reads_outside
  stop_idle now j slot idle =
      let allowed : (not slot.settings.rumble_active && not (true && eqb_ℤ (pos 0) (pos 0)))
          ≡ false =
        ground arith in
      let other : eqb_ℤ slot.effects.active_effect_id (pos j) ≡ false = rw idle (ground arith) in
      elim (Bool-cases (leb 16 j)) [
        | inl e ↦ if_false _ _ allowed ∙ if_true _ _ e
        | inr e ↦ if_false _ _ allowed ∙ if_false _ _ e ∙ ap some (if_false _ _ other)
      ]

  -- An uploaded rumble effect plays, once started, with the upper bytes of its two 16-bit magnitudes.
  pub start-upload_rumble :
      (now : Timeval) (i n strong weak : ℕ) (slot : Controller)
      → i < 16
      → strong < 65536
      → weak < 65536
      → IsPlayable slot
      → slot.settings.rumble_active ≡ true
      → (played : Controller) × (rumble_handle_ff_event dbl w now
            (start_event i n)
            (rumble_handle_ff_upload true (pos i) (rumble strong weak) slot).0
          ≡ some played)
        × ((played.feedback.rumble_strong ≡ strong / 256)
            × (played.feedback.rumble_weak ≡ weak / 256)
            × (played.feedback.rumble_dirty ≡ true))
  unfolding rumble_handle_ff_upload store_effect start_effect
  start-upload_rumble now i n strong weak slot lt s16 w16 h on =
      let inside : ltb i 16 ≡ true = ground arith in
      let e = slot.effects in
      let ff : FfEffect = record { strong = u8 (strong / 256); weak = u8 (weak / 256) } in
      let stored = (store_effect i (rumble strong weak) e).0 in
      let ty = get_or-set_self e.effect_type i 1 0 (omega (arith, h.type_length)) in
      let magnitudes = get_or-set_self e.ff_effects i ff no_ff (omega (arith, h.ff_length)) in
      rw inside (
        start_effect dbl w now i (record slot { effects = stored }),
        event-start now i n (record slot { effects = stored }) lt
            (length-set e.effect_type i 1 ∙ h.type_length) on,
        rw (ty, magnitudes) (omega arith, omega arith, refl),
      )

  -- A rumble effect that was started is not stopped by any stop event: the start leaves no running
  -- effect, so the stop finds none, and both motors keep their magnitudes.
  pub stop-start_rumble :
      (now later : Timeval) (i j n : ℕ) (slot : Controller)
      → i < 16
      → get_or slot.effects.effect_type i 0 ≡ 1
      → length slot.effects.effect_type ≡ 16
      → slot.settings.rumble_active ≡ true
      → (started : Controller) × (rumble_handle_ff_event dbl w now (start_event i n) slot
          ≡ some started)
        × (rumble_handle_ff_event dbl w later (stop_event j) started ≡ some started)
  stop-start_rumble now later i j n slot lt ty len on = (
    start_effect dbl w now i slot,
    event-start now i n slot lt len on,
    stop_idle later j _ (started_rumble now i slot ty),
  )

  -- A periodic effect that was started is stopped by its stop event: both motors are off, a report
  -- is asked for, and no effect runs.
  pub stop-start_periodic :
      (now later : Timeval) (i n : ℕ) (slot : Controller)
      → i < 16
      → get_or slot.effects.effect_type i 0 ≡ 2
      → length slot.effects.effect_type ≡ 16
      → slot.settings.rumble_active ≡ true
      → (started stopped : Controller) × (rumble_handle_ff_event dbl w now (start_event i n) slot
          ≡ some started)
        × (rumble_handle_ff_event dbl w later (stop_event i) started ≡ some stopped)
        × ((stopped.feedback.rumble_strong ≡ 0)
            × (stopped.feedback.rumble_weak ≡ 0)
            × (stopped.feedback.rumble_dirty ≡ true)
            × (stopped.effects.active_effect_id ≡ negsuc 0))
  unfolding start_effect stop_effect
  stop-start_periodic now later i n slot lt ty len on =
      let same : (i + 0 == i + 0) ≡ true = ground arith in
      let started = start_effect dbl w now i slot in
      (
        started,
        stop_effect dbl w i started,
        event-start now i n slot lt len on,
        event-stop later i started lt,
        rw (ty, same) (refl, refl, refl, refl),
      )
