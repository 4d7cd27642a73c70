-- ===== src/Nsw/Rumble.antt =====
-- Rumble of the Switch Pro controller in dstx/src/nsw.c: nsw_send_rumble and nsw_cleanup. The
-- commands are those that reach the event device; what its calls answer is an argument.
pub mod Loaded
pub mod Stale
use dstx.Common.{
  ℕ, ◌*◌, ◌/◌, Bool, true, false, Option, none, some, List, [], ◌∷◌, ◌++◌, ◌==◌, ltb, not, ◌&&◌,
  ◌||◌, u8, if◌then◌else◌,
}
use dstx.Common.Int.{ltb_ℤ, pos}
use dstx.Controller.{Controller, Timeval, elapsed_us}
use dstx.Nsw.{NswContext}

-- An EV_FF event that stops or plays an effect, and the requests EVIOCRMFF and EVIOCSFF, the latter
-- with the identifier that the kernel gives and the two magnitudes.
pub data Command : Type 0 where
  stop : (id : ℕ) → Command
  play : (id : ℕ) → Command
  erase : (id : ℕ) → Command
  upload : (id strong weak : ℕ) → Command

-- Whether poll finds the device there, the writes of the stop and the play event succeed, whether
-- EVIOCRMFF erases, which the code does not ask, and the identifier of an upload, or none if it
-- fails. A call sends at most one of each.
pub record Answers : Type 0 where
  pub present : Bool
  pub stop_written : Bool
  pub erased : Bool
  pub uploaded : Option ℕ
  pub play_written : Bool

-- NSW_RUMBLE_RATE_LIMIT_US
abbrev pub rumble_limit_us : ℕ
rumble_limit_us = 50000

abbrev pub target : ℕ → ℕ → ℕ
target level gain = u8 (level * (if ltb 100 gain then 100 else gain) / 100)

-- The stop event, if it was written, and the request to erase the effect, which is made either way
-- and whose result is ignored.
abbrev pub drop_effect : Bool → Option ℕ → List Command
drop_effect written none = []
drop_effect written (some id) = if written then stop id ∷ erase id ∷ [] else erase id ∷ []

-- The stop for a target of zero: nothing changes if the event cannot be written. The first argument
-- is the effect of the context.
halt_effect : Option ℕ → Answers → Timeval → NswContext → NswContext × List Command
halt_effect none answers now ctx =
    (record ctx { last_strong = 0; last_weak = 0; last_rumble_time = now }, [])
halt_effect (some id) answers now ctx =
    if answers.stop_written
    then (
      record ctx { effect_id = none; last_strong = 0; last_weak = 0; last_rumble_time = now },
      stop id ∷ erase id ∷ [],
    )
    else (ctx, [])

unfoldable pub halt : Answers → Timeval → NswContext → NswContext × List Command
unfolding halt_effect
halt answers now ctx = halt_effect ctx.effect_id answers now ctx

-- What follows an upload, whose outcome is the first argument, once the old effect is gone.
after_upload : Option ℕ → Bool → Timeval → ℕ → ℕ → NswContext → NswContext × List Command
after_upload none play_written now strong weak ctx = (record ctx { effect_id = none }, [])
after_upload (some id) play_written now strong weak ctx =
    let sent = upload id (strong * 257) (weak * 257) in
    if play_written
    then (
      record ctx {
        effect_id = some id;
        last_strong = strong;
        last_weak = weak;
        last_rumble_time = now;
      },
      sent ∷ play id ∷ [],
    )
    else (record ctx { effect_id = some id }, sent ∷ [])

-- The new effect, after the old one is gone.
unfoldable pub load_effect : Answers → Timeval → ℕ → ℕ → NswContext → NswContext × List Command
unfolding after_upload
load_effect answers now strong weak ctx =
    let started = after_upload answers.uploaded answers.play_written now strong weak ctx in
    (started.0, drop_effect answers.stop_written ctx.effect_id ++ started.1)

-- From the comparison with the last target on.
unfoldable pub send_target : Answers → Timeval → ℕ → ℕ → NswContext → NswContext × List Command
unfolding halt load_effect
send_target answers now strong weak ctx =
    if strong == ctx.last_strong && weak == ctx.last_weak
    then (record ctx { last_rumble_time = now }, [])
    else if strong == 0 && weak == 0
    then halt answers now ctx
    else if ltb_ℤ (elapsed_us now ctx.last_rumble_time) (pos rumble_limit_us)
    then (record ctx { last_strong = strong; last_weak = weak }, [])
    else load_effect answers now strong weak ctx

-- Rumble that was switched off; the first argument is the effect of the context.
disable_effect : Option ℕ → Answers → NswContext → NswContext × List Command
disable_effect none answers ctx = (ctx, [])
disable_effect (some id) answers ctx = (
  record ctx { effect_id = none; last_strong = 0; last_weak = 0 },
  drop_effect answers.stop_written (some id),
)

unfoldable pub disable : Answers → NswContext → NswContext × List Command
unfolding disable_effect
disable answers ctx = disable_effect ctx.effect_id answers ctx

unfoldable pub nsw_send_rumble :
    Answers → Timeval → Controller → NswContext → NswContext × List Command
unfolding send_target disable
nsw_send_rumble answers now slot ctx =
    let fb = slot.feedback in
    let strong = target fb.rumble_strong fb.rumble_gain in
    let weak = target fb.rumble_weak fb.rumble_gain in
    if not ctx.initialized || not ctx.is_active || not ctx.event_open || not ctx.connected
    then (ctx, [])
    else if not slot.settings.rumble_active
    then disable answers ctx
    else if not answers.present
    then (record ctx { connected = false }, [])
    else send_target answers now strong weak ctx

-- The inotify descriptors, which the context leaves out, are closed too.
unfoldable pub nsw_cleanup : Answers → NswContext → NswContext × List Command
nsw_cleanup answers ctx = if not ctx.initialized then (ctx, []) else (
  record ctx {
    effect_id = none;
    event_open = false;
    is_active = false;
    initialized = false;
    connected = false;
  },
  drop_effect answers.stop_written ctx.effect_id,
)
