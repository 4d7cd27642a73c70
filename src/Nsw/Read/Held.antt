-- ===== src/Nsw/Read/Held.antt =====
-- When nsw_read_events forwards the slot, and what the virtual device shows afterwards.
use dstx.Common.{
  ℕ, ◌+◌, ◌≤◌, ◌<◌, ◌≡◌, ◌⊎◌, inl, inr, refl, sym, ap, subst, ◌∙◌, Bool, true, false, Bool-cases,
  if_cases, Option, none, some, >>=-eq-some, List, [], ◌∷◌, ltb, ltb→lt, not, ◌&&◌, ◌||◌,
  if◌then◌else◌, arith,
}
use dstx.Common.Int.{pos, ltb_ℤ}
use dstx.Controller.{Axes, Controller, Timeval, in_us, elapsed_us}
use dstx.AxisSystem.{Float}
use dstx.Keys.{keys_apply_map}
use dstx.Drivers.{
  btn_west, btn_north, btn_south, btn_east, btn_tl, btn_tr, btn_tl2, btn_tr2, btn_select, btn_start,
  btn_thumbl, btn_thumbr, btn_mode, abs_x, abs_y, abs_rx, abs_ry, abs_z, abs_rz, abs_hat0x,
  abs_hat0y,
}
use dstx.Nsw.{NswContext, Forwarded}
use dstx.Nsw.Forward.{forward}
use dstx.Nsw.Forward.Replay.{replay}
use dstx.Nsw.Forward.Mirror.{forward-Mirrors}
use dstx.Nsw.Read.{
  NswEvent, key, btn_z, abs, other, ReadResult, got, interrupted, failed, handle_event,
  drain_events, Pass, rate_limit_us, uhid_report, nsw_apply_transforms, forward_slot, finish_pass,
  nsw_read_events,
}

-- Neither what was forwarded last nor when has changed.
unfoldable pub IsKept : NswContext → NswContext → Type 0
IsKept after before =
    (after.cache ≡ before.cache) × (after.last_uinput_time ≡ before.last_uinput_time)

handle_event-IsKept :
    (ev : NswEvent) (a : Axes) (ctx : NswContext) → IsKept (handle_event ev a ctx).1 ctx
unfolding IsKept handle_event
handle_event-IsKept (key btn_west v) a ctx = (refl, refl)
handle_event-IsKept (key btn_north v) a ctx = (refl, refl)
handle_event-IsKept (key btn_south v) a ctx = (refl, refl)
handle_event-IsKept (key btn_east v) a ctx = (refl, refl)
handle_event-IsKept (key btn_tl v) a ctx = (refl, refl)
handle_event-IsKept (key btn_tr v) a ctx = (refl, refl)
handle_event-IsKept (key btn_tl2 v) a ctx = (refl, refl)
handle_event-IsKept (key btn_tr2 v) a ctx = (refl, refl)
handle_event-IsKept (key btn_select v) a ctx = (refl, refl)
handle_event-IsKept (key btn_start v) a ctx = (refl, refl)
handle_event-IsKept (key btn_thumbl v) a ctx = (refl, refl)
handle_event-IsKept (key btn_thumbr v) a ctx = (refl, refl)
handle_event-IsKept (key btn_mode v) a ctx = (refl, refl)
handle_event-IsKept (btn_z v) a ctx = (refl, refl)
handle_event-IsKept (abs abs_x v) a ctx = (refl, refl)
handle_event-IsKept (abs abs_y v) a ctx = (refl, refl)
handle_event-IsKept (abs abs_rx v) a ctx = (refl, refl)
handle_event-IsKept (abs abs_ry v) a ctx = (refl, refl)
handle_event-IsKept (abs abs_z v) a ctx = (refl, refl)
handle_event-IsKept (abs abs_rz v) a ctx = (refl, refl)
handle_event-IsKept (abs abs_hat0x v) a ctx = (refl, refl)
handle_event-IsKept (abs abs_hat0y v) a ctx = (refl, refl)
handle_event-IsKept other a ctx = (refl, refl)

drain_events-IsKept :
    (reads : List ReadResult) (a : Axes) (ctx : NswContext) (n : ℕ)
    → IsKept (drain_events reads a ctx n).ctx ctx
unfolding drain_events IsKept
drain_events-IsKept [] a ctx n = (refl, refl)
drain_events-IsKept (interrupted ∷ reads) a ctx n = drain_events-IsKept reads a ctx n
drain_events-IsKept (failed ∷ reads) a ctx n = (refl, refl)
drain_events-IsKept (got ev ∷ reads) a ctx n =
    let step = handle_event-IsKept ev a ctx in
    let rest =
      drain_events-IsKept reads (handle_event ev a ctx).0 (handle_event ev a ctx).1 (n + 1) in
    (rest.0 ∙ step.0, rest.1 ∙ step.1)

-- The two kinds of pass: one that holds everything back, and one that forwards; the latter has read
-- an event, comes at least 4 ms after the last, and what it hands to uinput brings a device from
-- the old cache to the new one, if every write succeeds.
unfoldable pub IsHeld : NswContext → Pass → Type 0
IsHeld before p = (p.events ≡ []) × (p.report ≡ none) × IsKept p.ctx before

unfoldable pub IsDue : Timeval → ℕ → NswContext → Pass → Type 0
IsDue now count before p =
    (0 < count)
    × (in_us before.last_uinput_time + 4000 ≤ in_us now)
    × (p.ctx.last_uinput_time ≡ now)
    × (replay p.events before.cache ≡ p.ctx.cache)

due-late :
    (now last : Timeval)
    → not (ltb_ℤ (elapsed_us now last) (pos rate_limit_us)) ≡ true
    → in_us last + 4000 ≤ in_us now
due-late now last h = ground arith

-- The events and the cache of a pass that forwards, for either kind of virtual device.
forward-replay :
    (to_uinput : Bool) (slot : Controller) (c : Forwarded)
    → replay (if to_uinput then (forward slot c).1 else []) c
      ≡ (if to_uinput then (forward slot c).0 else c)
unfolding replay
forward-replay true slot c = (forward-Mirrors slot c c refl).0
forward-replay false slot c = refl

-- A step that succeeds, seen through a property of its result.
OnSome : (Pass → Type 0) → Option Pass → Type 0
OnSome P none = Unit
OnSome P (some p) = P p

on_some : (P : Pass → Type 0) (o : Option Pass) → ((p : Pass) → o ≡ some p → P p) → OnSome P o
unfolding OnSome
on_some P none h = tt
on_some P (some p) h = h p refl

both_hold : (a b : Bool) → a && b ≡ true → (a ≡ true) × (b ≡ true)
both_hold true true h = (refl, refl)
both_hold true false h = cc
both_hold false b h = cc

forward_slot-IsDue :
    (now : Timeval) (has_ufd : Bool) (slot : Controller) (ctx : NswContext) (count : ℕ) {p : Pass}
    → forward_slot now has_ufd slot ctx count ≡ some p
    → 0 < count
    → in_us ctx.last_uinput_time + 4000 ≤ in_us now
    → IsDue now count ctx p
unfolding forward_slot IsDue OnSome
forward_slot-IsDue now has_ufd slot ctx count {p} h some_read late =
    let (bytes, built, made) =
      >>=-eq-some (if ctx.uhid_open then uhid_report slot else some none) _ h in
    subst (OnSome (IsDue now count ctx)) made
      (some_read, late, refl, forward-replay (has_ufd && not ctx.uhid_open) slot ctx.cache)

-- A pass either forwards, or holds everything back.
unfoldable pub Decided : Timeval → ℕ → NswContext → Pass → Type 0
Decided now count before p = IsHeld before p ⊎ IsDue now count before p

idle-IsHeld :
    (before after : NswContext) (p : Pass)
    → IsKept after before
    → p.ctx ≡ after
    → p.events ≡ []
    → p.report ≡ none
    → IsHeld before p
unfolding IsHeld IsKept
idle-IsHeld before after p kept e none_sent no_report =
    (none_sent, no_report, (ap (λ c. c.cache) e ∙ kept.0, ap (λ c. c.last_uinput_time) e ∙ kept.1))

Decided-before :
    (now : Timeval) (count : ℕ) (ctx before : NswContext) (p : Pass)
    → IsKept ctx before
    → Decided now count ctx p
    → Decided now count before p
unfolding Decided IsHeld IsDue IsKept
Decided-before now count ctx before p kept (inl held) =
    inl (held.0, held.1, (held.2.0 ∙ kept.0, held.2.1 ∙ kept.1))
Decided-before now count ctx before p kept (inr due) = inr (
  due.0,
  subst (λ t. in_us t + 4000 ≤ in_us now) kept.1 due.1,
  due.2,
  ap (replay p.events) (sym kept.0) ∙ due.3,
)

-- Whether the reads give no event.
abbrev pub NoEvent : List ReadResult → Type 0
NoEvent [] = Unit
NoEvent (interrupted ∷ reads) = NoEvent reads
NoEvent (failed ∷ reads) = NoEvent reads
NoEvent (got ev ∷ reads) = ⊥

drain_events-count :
    (reads : List ReadResult) (a : Axes) (ctx : NswContext) (n : ℕ)
    → NoEvent reads
    → (drain_events reads a ctx n).count ≡ n
unfolding drain_events
drain_events-count [] a ctx n h = refl
drain_events-count (interrupted ∷ reads) a ctx n h = drain_events-count reads a ctx n h
drain_events-count (failed ∷ reads) a ctx n h = refl
drain_events-count (got ev ∷ reads) a ctx n h = elim h [ ]

module _ (f : Float) where
  finish_pass-Decided :
      (now : Timeval) (has_ufd : Bool) (slot : Controller) (ctx : NswContext) (count : ℕ) (p : Pass)
      → finish_pass f now has_ufd slot ctx count ≡ some p
      → Decided now count ctx p
  unfolding finish_pass Decided OnSome IsKept
  finish_pass-Decided now has_ufd slot ctx count p h =
      let (moved, _, made) = >>=-eq-some (nsw_apply_transforms f slot ctx) _ h in
      let late = not (ltb_ℤ (elapsed_us now ctx.last_uinput_time) (pos rate_limit_us)) in
      let slot' = keys_apply_map moved moved.keymap ctx.phy_raw in
      subst (OnSome (Decided now count ctx)) made (elim (Bool-cases (ltb 0 count && late)) [
        | inl e ↦ rw e (
            on_some (Decided now count ctx) (forward_slot now has_ufd slot' ctx count) (λ q made'.
              inr (
                forward_slot-IsDue now has_ufd slot' ctx count made'
                  (ltb→lt 0 count (both_hold _ late e).0)
                  (due-late now ctx.last_uinput_time (both_hold (ltb 0 count) late e).1))))
        | inr e ↦ rw e (inl (idle-IsHeld ctx ctx _ (refl, refl) refl refl refl))
      ])

  -- A pass of nsw_read_events either sends nothing to either virtual device and keeps the cache and
  -- the time of the last forward; or it has read at least one event, comes at least 4 ms after the
  -- last forward, sets that time to its own, and the events that it hands to uinput, if every write
  -- succeeds, take a device that shows the old cache to one that shows the new.
  pub nsw_read_events-Decided :
      (reads : List ReadResult) (now : Timeval) (has_ufd : Bool) (slot : Controller)
      (ctx : NswContext) (p : Pass)
      → nsw_read_events f reads now has_ufd slot ctx ≡ some p
      → Decided now (drain_events reads slot.axes ctx 0).count ctx p
  unfolding nsw_read_events Decided OnSome IsKept
  nsw_read_events-Decided reads now has_ufd slot ctx p h =
      let d = drain_events reads slot.axes ctx 0 in
      let drained = record slot { axes = d.axes } in
      let kept = drain_events-IsKept reads slot.axes ctx 0 in
      subst (OnSome (Decided now d.count ctx)) h (
        if_cases (OnSome (Decided now d.count ctx))
          (not ctx.initialized || not ctx.is_active || not ctx.event_open)
          (λ e. inl (idle-IsHeld ctx ctx _ (refl, refl) refl refl refl))
          (λ e.
            if_cases (OnSome (Decided now d.count ctx)) d.at_end
              (λ e'.
                on_some (Decided now d.count ctx) (finish_pass f now has_ufd drained d.ctx d.count)
                  (λ q made.
                    Decided-before now d.count d.ctx ctx q kept
                      (finish_pass-Decided now has_ufd drained d.ctx d.count q made)))
              (λ e'. inl (idle-IsHeld ctx d.ctx _ kept refl refl refl))))

  pub nsw_read_events-quiet :
      (reads : List ReadResult) (now : Timeval) (has_ufd : Bool) (slot : Controller)
      (ctx : NswContext) (p : Pass)
      → nsw_read_events f reads now has_ufd slot ctx ≡ some p
      → NoEvent reads ⊎ (in_us now < in_us ctx.last_uinput_time + 4000)
      → IsHeld ctx p
  unfolding Decided IsDue
  nsw_read_events-quiet reads now has_ufd slot ctx p h early =
      elim (nsw_read_events-Decided reads now has_ufd slot ctx p h) [
        | inl held ↦ held
        | inr due ↦ elim early [
          | inl none_read ↦
              absurd (omega (arith, due.0, drain_events-count reads slot.axes ctx 0 none_read))
          | inr soon ↦ absurd (omega (arith, due.1, soon))
        ]
      ]
