-- ===== src/Nsw/Rumble/Loaded.antt =====
-- The force-feedback effects that the kernel holds for the event device, and what the commands of
-- nsw_send_rumble and nsw_cleanup make of them.
use dstx.Common.{
  ℕ, ◌≡◌, refl, sym, ap, subst, ◌∙◌, Bool, true, false, Bool-cases, inl, inr, if_cases, Option,
  none, some, List, [], ◌∷◌, ◌++◌, ◌==◌, length, not, ◌&&◌, ◌||◌, if◌then◌else◌, arith,
}
use dstx.Common.Int.{ltb_ℤ, pos}
use dstx.Controller.{Controller, Timeval, elapsed_us}
use dstx.Nsw.{NswContext}
use dstx.Nsw.Rumble.{
  Command, stop, play, erase, upload, Answers, drop_effect, halt_effect, after_upload,
  disable_effect, rumble_limit_us, halt, load_effect, send_target, disable, nsw_send_rumble,
  nsw_cleanup,
}

pub record LoadedEffect : Type 0 where
  pub id : ℕ
  pub strong : ℕ
  pub weak : ℕ
  pub playing : Bool

abbrev pub set_playing : ℕ → Bool → List LoadedEffect → List LoadedEffect
set_playing id on [] = []
set_playing id on (e ∷ es) =
    (if e.id == id then record e { playing = on } else e) ∷ set_playing id on es

abbrev pub remove_effect : ℕ → List LoadedEffect → List LoadedEffect
remove_effect id [] = []
remove_effect id (e ∷ es) = if e.id == id then remove_effect id es else e ∷ remove_effect id es

-- input-ff of the kernel: an upload adds an effect that does not play yet, an erasure removes it, if
-- it succeeds.
abbrev pub execute : (erased : Bool) → Command → List LoadedEffect → List LoadedEffect
execute erased (stop id) es = set_playing id false es
execute erased (play id) es = set_playing id true es
execute erased (erase id) es = if erased then remove_effect id es else es
execute erased (upload id strong weak) es =
    record { id = id; strong = strong; weak = weak; playing = false } ∷ es

abbrev pub execute_all : (erased : Bool) → List Command → List LoadedEffect → List LoadedEffect
execute_all erased [] es = es
execute_all erased (c ∷ cs) es = execute_all erased cs (execute erased c es)

-- The device holds the effect of the context and no other.
unfoldable pub HoldsOnly : Option ℕ → List LoadedEffect → Type 0
HoldsOnly none es = es ≡ []
HoldsOnly (some id) es = (e : LoadedEffect) × (es ≡ e ∷ []) × (e.id ≡ id)

pub ==_self : (n : ℕ) → (n == n) ≡ true
==_self n = ground arith

pub drop_effect_lem :
    (written : Bool) (o : Option ℕ) (es : List LoadedEffect)
    → HoldsOnly o es
    → execute_all true (drop_effect written o) es ≡ []
unfolding HoldsOnly
drop_effect_lem written none es h = h
drop_effect_lem true (some id) es (e, one, same) =
    rw one (rw same (rw (==_self id) (rw (==_self id) refl)))
drop_effect_lem false (some id) es (e, one, same) = rw one (rw same (rw (==_self id) refl))

pub execute_all-append :
    (cs ds : List Command) (es : List LoadedEffect)
    → execute_all true (cs ++ ds) es ≡ execute_all true ds (execute_all true cs es)
execute_all-append [] ds es = refl
execute_all-append (c ∷ cs) ds es = execute_all-append cs ds (execute true c es)

-- What a call leaves: the context and, after its commands, the device.
abbrev pub Tracks : List LoadedEffect → NswContext × List Command → Type 0
Tracks es r = HoldsOnly r.0.effect_id (execute_all true r.1 es)

module _ (es : List LoadedEffect) (answers : Answers) (now : Timeval) where
  halt_effect-Tracks :
      (o : Option ℕ) (ctx : NswContext)
      → ctx.effect_id ≡ o
      → HoldsOnly o es
      → Tracks es (halt_effect o answers now ctx)
  unfolding halt_effect HoldsOnly
  halt_effect-Tracks none ctx e h = subst (λ o. HoldsOnly o es) (sym e) h
  halt_effect-Tracks (some id) ctx e h =
      if_cases (Tracks es) answers.stop_written (λ w. drop_effect_lem true (some id) es h)
        (λ w. subst (λ o. HoldsOnly o es) (sym e) h)

  disable_effect-Tracks :
      (o : Option ℕ) (ctx : NswContext)
      → ctx.effect_id ≡ o
      → HoldsOnly o es
      → Tracks es (disable_effect o answers ctx)
  unfolding disable_effect HoldsOnly
  disable_effect-Tracks none ctx e h = subst (λ o. HoldsOnly o es) (sym e) h
  disable_effect-Tracks (some id) ctx e h = drop_effect_lem answers.stop_written (some id) es h

  after_upload-Tracks :
      (o : Option ℕ) (strong weak : ℕ) (ctx : NswContext)
      → Tracks [] (after_upload o answers.play_written now strong weak ctx)
  unfolding after_upload HoldsOnly
  after_upload-Tracks none strong weak ctx = refl
  after_upload-Tracks (some id) strong weak ctx =
      if_cases (Tracks []) answers.play_written (λ w. rw (==_self id) (_, refl, refl))
        (λ w. (_, refl, refl))

  load_effect-Tracks :
      (strong weak : ℕ) (ctx : NswContext)
      → HoldsOnly ctx.effect_id es
      → Tracks es (load_effect answers now strong weak ctx)
  unfolding load_effect
  load_effect-Tracks strong weak ctx h =
      let started = after_upload answers.uploaded answers.play_written now strong weak ctx in
      let gone = drop_effect_lem answers.stop_written ctx.effect_id es h in
      subst (HoldsOnly started.0.effect_id)
        (sym (
          execute_all-append (drop_effect answers.stop_written ctx.effect_id) started.1 es
          ∙ ap (execute_all true started.1) gone))
        (after_upload-Tracks answers.uploaded strong weak ctx)

  send_target-Tracks :
      (strong weak : ℕ) (ctx : NswContext)
      → HoldsOnly ctx.effect_id es
      → Tracks es (send_target answers now strong weak ctx)
  unfolding send_target halt
  send_target-Tracks strong weak ctx h =
      if_cases (Tracks es) (strong == ctx.last_strong && weak == ctx.last_weak) (λ e. h)
        (λ e.
          if_cases (Tracks es) (strong == 0 && weak == 0)
            (λ e. halt_effect-Tracks ctx.effect_id ctx refl h)
            (λ e.
              if_cases (Tracks es)
                (ltb_ℤ (elapsed_us now ctx.last_rumble_time) (pos rumble_limit_us)) (λ e. h)
                (λ e. load_effect-Tracks strong weak ctx h)))

  sent-Tracks :
      (slot : Controller) (ctx : NswContext)
      → HoldsOnly ctx.effect_id es
      → Tracks es (nsw_send_rumble answers now slot ctx)
  unfolding nsw_send_rumble disable
  sent-Tracks slot ctx h =
      if_cases (Tracks es)
        (not ctx.initialized || not ctx.is_active || not ctx.event_open || not ctx.connected)
        (λ e. h)
        (λ e.
          if_cases (Tracks es) (not slot.settings.rumble_active)
            (λ e. disable_effect-Tracks ctx.effect_id ctx refl h)
            (λ e.
              if_cases (Tracks es) (not answers.present) (λ e. h)
                (λ e. send_target-Tracks _ _ ctx h)))

  -- No effect of the kernel is leaked or lost while erasures succeed: if the device holds the effect
  -- that the context names, if any, and no other, it does so after the commands of a call of
  -- nsw_send_rumble, if the kernel erases an effect when it is asked to, whatever the other calls to
  -- it answer.
  pub nsw_send_rumble-HoldsOnly :
      (slot : Controller) (ctx : NswContext)
      → answers.erased ≡ true
      → HoldsOnly ctx.effect_id es
      → HoldsOnly
          (nsw_send_rumble answers now slot ctx).0.effect_id
          (execute_all answers.erased (nsw_send_rumble answers now slot ctx).1 es)
  nsw_send_rumble-HoldsOnly slot ctx erases h =
      let r = nsw_send_rumble answers now slot ctx in
      subst (λ erased. HoldsOnly r.0.effect_id (execute_all erased r.1 es)) (sym erases)
        (sent-Tracks slot ctx h)

  -- An erasure that fails leaks: if the device holds an effect that the context names, and a call of
  -- load_effect has its erasure refused and gets a new effect, the device holds both, and the context
  -- names the new one only.
  pub load_effect_leaks :
      (strong weak old new : ℕ) (e : LoadedEffect) (ctx : NswContext)
      → answers.erased ≡ false
      → answers.uploaded ≡ some new
      → ctx.effect_id ≡ some old
      → let r = load_effect answers now strong weak ctx in
        (r.0.effect_id ≡ some new) × (length (execute_all answers.erased r.1 (e ∷ [])) ≡ 2)
  unfolding load_effect after_upload
  load_effect_leaks strong weak old new e ctx kept up id = elim (Bool-cases answers.stop_written) [
    | inl w ↦ elim (Bool-cases answers.play_written) [
      | inl p ↦ rw kept (rw up (rw id (rw w (rw p (refl, refl)))))
      | inr p ↦ rw kept (rw up (rw id (rw w (rw p (refl, refl)))))
    ]
    | inr w ↦ elim (Bool-cases answers.play_written) [
      | inl p ↦ rw kept (rw up (rw id (rw w (rw p (refl, refl)))))
      | inr p ↦ rw kept (rw up (rw id (rw w (rw p (refl, refl)))))
    ]
  ]

  -- nsw_cleanup of an initialized context whose effect is all that the device holds erases it, if the
  -- erasure succeeds, and
  -- leaves a context without effect, descriptor or connection.
  pub nsw_cleanup-empty :
      (ctx : NswContext)
      → HoldsOnly ctx.effect_id es
      → ctx.initialized ≡ true
      → (execute_all true (nsw_cleanup answers ctx).1 es ≡ [])
        × ((nsw_cleanup answers ctx).0.effect_id ≡ none)
        × ((nsw_cleanup answers ctx).0.event_open ≡ false)
        × ((nsw_cleanup answers ctx).0.connected ≡ false)
  unfolding nsw_cleanup
  nsw_cleanup-empty ctx h up =
      rw up (drop_effect_lem answers.stop_written ctx.effect_id es h, refl, refl, refl)
