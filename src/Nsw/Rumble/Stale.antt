-- ===== src/Nsw/Rumble/Stale.antt =====
-- Which level of rumble the Switch Pro controller ends up with.
use dstx.Common.{
  ℕ, ◌+◌, ◌*◌, ◌≤◌, ◌<◌, ◌≡◌, ◌⊎◌, inl, inr, refl, Bool, true, false, if_cases, some, List, [], ◌∷◌,
  ◌++◌, ◌==◌, not, ◌&&◌, ◌||◌, arith,
}
use dstx.Common.Int.{ltb_ℤ, pos}
use dstx.Controller.{Controller, Timeval, in_us, elapsed_us}
use dstx.Nsw.{NswContext}
use dstx.Nsw.Rumble.Loaded.{
  LoadedEffect, HoldsOnly, execute_all, execute_all-append, drop_effect_lem, ==_self,
}
use dstx.Nsw.Rumble.{
  Command, play, upload, Answers, after_upload, drop_effect, target, rumble_limit_us, load_effect,
  send_target, nsw_send_rumble,
}

-- A call: what the kernel answers and the time.
pub record RumbleCall : Type 0 where
  pub answers : Answers
  pub at : Timeval

-- The commands of a sequence of calls on one slot, each with the context that the one before left.
unfoldable pub run_rumble : List RumbleCall → Controller → NswContext → List Command
run_rumble [] slot ctx = []
run_rumble (c ∷ calls) slot ctx =
    let r = nsw_send_rumble c.answers c.at slot ctx in r.1 ++ run_rumble calls slot r.0

abbrev pub strong_target : Controller → ℕ
strong_target slot = target slot.feedback.rumble_strong slot.feedback.rumble_gain

abbrev pub weak_target : Controller → ℕ
weak_target slot = target slot.feedback.rumble_weak slot.feedback.rumble_gain

abbrev is_out : NswContext → Bool
is_out ctx = not ctx.initialized || not ctx.is_active || not ctx.event_open || not ctx.connected

or_true : (a b c : Bool) → a || b || c || true ≡ true
or_true true b c = refl
or_true false true c = refl
or_true false false true = refl
or_true false false false = refl

and_left : (a b : Bool) → a ≡ false → a && b ≡ false
and_left a b h = rw h refl

soon :
    (now last : Timeval)
    → in_us now < in_us last + 50000
    → ltb_ℤ (elapsed_us now last) (pos rumble_limit_us) ≡ true
soon now last h = ground arith

late :
    (now last : Timeval)
    → in_us last + 50000 ≤ in_us now
    → ltb_ℤ (elapsed_us now last) (pos rumble_limit_us) ≡ false
late now last h = ground arith

module _ (slot : Controller) where
  -- The context rests: it has no device, or the target of the slot counts as sent.
  Rests : NswContext → Type 0
  Rests ctx =
      (is_out ctx ≡ true)
      ⊎ ((strong_target slot ≡ ctx.last_strong) × (weak_target slot ≡ ctx.last_weak))

  IsSilentRest : NswContext × List Command → Type 0
  IsSilentRest r = Rests r.0 × (r.1 ≡ [])

  both_equal : (a b c d : ℕ) → a == c && b == d ≡ true → (a ≡ c) × (b ≡ d)
  both_equal a b c d h = ground arith

  equal_both : (a b c d : ℕ) → a ≡ c → b ≡ d → a == c && b == d ≡ true
  equal_both a b c d h k = ground arith

  module _ (active : slot.settings.rumble_active ≡ true) where
    -- Either the comparison with the last target or the rate limit ends the call.
    step_rests :
        (answers : Answers) (now : Timeval) (ctx : NswContext)
        → IsSilentRest (send_target answers now (strong_target slot) (weak_target slot) ctx)
        → IsSilentRest (nsw_send_rumble answers now slot ctx)
    unfolding nsw_send_rumble Rests IsSilentRest
    step_rests answers now ctx h =
        if_cases IsSilentRest (is_out ctx) (λ e. (inl e, refl))
          (λ e.
            if_cases IsSilentRest (not slot.settings.rumble_active) (λ e. cc)
              (λ e.
                if_cases IsSilentRest (not answers.present)
                  (λ e. (
                    inl (or_true (not ctx.initialized) (not ctx.is_active) (not ctx.event_open)),
                    refl,
                  ))
                  (λ e. h)))

    Rests-step :
        (answers : Answers) (now : Timeval) (ctx : NswContext)
        → Rests ctx
        → IsSilentRest (nsw_send_rumble answers now slot ctx)
    unfolding nsw_send_rumble send_target Rests IsSilentRest
    Rests-step answers now ctx (inl out) = rw out (inl out, refl)
    Rests-step answers now ctx (inr (s, w)) = step_rests answers now ctx (
        rw (equal_both (strong_target slot) (weak_target slot) ctx.last_strong ctx.last_weak s w)
          (inr (s, w), refl))

    early_step :
        (answers : Answers) (now : Timeval) (ctx : NswContext)
        → (strong_target slot == 0 && weak_target slot == 0) ≡ false
        → ltb_ℤ (elapsed_us now ctx.last_rumble_time) (pos rumble_limit_us) ≡ true
        → IsSilentRest (nsw_send_rumble answers now slot ctx)
    unfolding send_target Rests IsSilentRest
    early_step answers now ctx on early = step_rests answers now ctx (
        if_cases IsSilentRest
          (strong_target slot == ctx.last_strong && weak_target slot == ctx.last_weak)
          (λ e. (
            inr (
                both_equal (strong_target slot) (weak_target slot) ctx.last_strong ctx.last_weak e),
            refl,
          ))
          (λ e. rw on (rw early (inr (refl, refl), refl))))

    Rests-run :
        (calls : List RumbleCall) (ctx : NswContext) → Rests ctx → run_rumble calls slot ctx ≡ []
    unfolding run_rumble IsSilentRest
    Rests-run [] ctx h = refl
    Rests-run (c ∷ calls) ctx h =
        let step = Rests-step c.answers c.at ctx h in
        rw step.1 (Rests-run calls (nsw_send_rumble c.answers c.at slot ctx).0 step.0)

    -- A level that arrives within 50 ms of the last call that compared or sent one is never sent
    -- while it holds: if rumble is on, the target of the slot is not zero, and the first of a
    -- sequence of calls comes less than 50 ms after `last_rumble_time`, then no command reaches the
    -- device in the whole sequence, at whatever times the others come and whatever the kernel
    -- answers.
    pub run_rumble-stale :
        (c : RumbleCall) (calls : List RumbleCall) (ctx : NswContext)
        → (strong_target slot == 0 && weak_target slot == 0) ≡ false
        → in_us c.at < in_us ctx.last_rumble_time + 50000
        → run_rumble (c ∷ calls) slot ctx ≡ []
    unfolding run_rumble IsSilentRest
    run_rumble-stale c calls ctx on early =
        let step = early_step c.answers c.at ctx on (soon c.at ctx.last_rumble_time early) in
        rw step.1 (Rests-run calls (nsw_send_rumble c.answers c.at slot ctx).0 step.0)

-- The opposite case, and switching off.
module _ (answers : Answers) (now : Timeval) (slot : Controller) (ctx : NswContext) where
  -- A new level that is not zero is played at least 50 ms after the last one: if the context has a
  -- device that is present, rumble is on, the target differs from the last one, the upload succeeds
  -- and the play event is written, then the device, which held at most the effect of the context,
  -- plays one effect with 257 times the target as its magnitudes, and the target is the last one.
  pub nsw_send_rumble-plays :
      (es : List LoadedEffect) (id : ℕ)
      → HoldsOnly ctx.effect_id es
      → is_out ctx ≡ false
      → slot.settings.rumble_active ≡ true
      → answers.present ≡ true
      → (strong_target slot == ctx.last_strong && weak_target slot == ctx.last_weak) ≡ false
      → (strong_target slot == 0 && weak_target slot == 0) ≡ false
      → in_us ctx.last_rumble_time + 50000 ≤ in_us now
      → answers.uploaded ≡ some id
      → answers.play_written ≡ true
      → (execute_all true (nsw_send_rumble answers now slot ctx).1 es
          ≡ record {
            id = id;
            strong = strong_target slot * 257;
            weak = weak_target slot * 257;
            playing = true;
          }
            ∷ [])
        × ((nsw_send_rumble answers now slot ctx).0.last_strong ≡ strong_target slot)
        × ((nsw_send_rumble answers now slot ctx).0.last_weak ≡ weak_target slot)
        × ((nsw_send_rumble answers now slot ctx).0.effect_id ≡ some id)
  unfolding nsw_send_rumble send_target load_effect after_upload
  nsw_send_rumble-plays es id holds inside active present new on waited up played =
      let gone = drop_effect_lem answers.stop_written ctx.effect_id es holds in
      rw inside (
        rw active (
          rw present (
            rw new (
              rw on (
                rw (late now ctx.last_rumble_time waited) (
                  rw up (
                    rw played (
                      rw
                        (execute_all-append (drop_effect answers.stop_written ctx.effect_id)
                          (upload id (strong_target slot * 257) (weak_target slot * 257)
                            ∷ play id
                            ∷ [])
                          es)
                        (rw gone (rw (==_self id) (refl, refl, refl, refl)))))))))))
