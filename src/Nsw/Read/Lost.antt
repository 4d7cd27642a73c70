-- ===== src/Nsw/Read/Lost.antt =====
-- A sequence of calls of nsw_read_events, each on the slot and the context that the one before left.
use dstx.Common.{
  ◌+◌, ◌<◌, ◌≡◌, ◌⊎◌, subst, sym, Bool, Option, none, some, ◌>>=◌, >>=-eq-some, List, [], ◌∷◌, All,
}
use dstx.Controller.{Controller, Timeval, in_us}
use dstx.AxisSystem.{Float}
use dstx.Nsw.{NswContext}
use dstx.Nsw.Read.{ReadResult, Pass, nsw_read_events}
use dstx.Nsw.Read.Held.{IsKept, IsHeld, NoEvent, nsw_read_events-quiet}

-- What the reads of a call give, and its time.
pub record Call : Type 0 where
  pub reads : List ReadResult
  pub at : Timeval

abbrev pub IsSilent : Pass → Type 0
IsSilent p = (p.events ≡ []) × (p.report ≡ none)

-- A call without events, or within 4 ms of the last forward.
abbrev pub IsEarly : Timeval → Call → Type 0
IsEarly last c = NoEvent c.reads ⊎ (in_us c.at < in_us last + 4000)

OnList : Option (List Pass) → Type 0
OnList none = Unit
OnList (some passes) = All IsSilent passes

module _ (f : Float) (has_ufd : Bool) where
  unfoldable pub run_calls : List Call → Controller → NswContext → Option (List Pass)
  run_calls [] slot ctx = some []
  run_calls (c ∷ calls) slot ctx = do
    p ← nsw_read_events f c.reads c.at has_ufd slot ctx
    rest ← run_calls calls p.slot p.ctx
    some (p ∷ rest)

  -- What is read within 4 ms of a forward is not sent later of itself: over any sequence of calls
  -- each of which either reads no event or comes within 4 ms of the last forward before the
  -- sequence, nothing is sent to either virtual device, however late a call without events comes.
  pub run_calls-IsSilent :
      (calls : List Call) (slot : Controller) (ctx : NswContext) (passes : List Pass)
      → All (IsEarly ctx.last_uinput_time) calls
      → run_calls calls slot ctx ≡ some passes
      → All IsSilent passes
  unfolding run_calls IsHeld IsKept OnList
  run_calls-IsSilent [] slot ctx passes early h = subst OnList h tt
  run_calls-IsSilent (c ∷ calls) slot ctx passes early h =
      let (p, made, rest_made) =
        >>=-eq-some (nsw_read_events f c.reads c.at has_ufd slot ctx) _ h in
      let (rest, rest_runs, same) = >>=-eq-some (run_calls calls p.slot p.ctx) _ rest_made in
      let held = nsw_read_events-quiet f c.reads c.at has_ufd slot ctx p made early.0 in
      subst OnList same (
        (held.0, held.1),
        run_calls-IsSilent calls p.slot p.ctx rest
            (subst (λ t. All (IsEarly t) calls) (sym held.2.1) early.1) rest_runs,
      )
