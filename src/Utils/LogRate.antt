-- ===== src/Utils/LogRate.antt =====
-- The rate limits of the log, in dstx/src/utils.c: a state for each category, and whether a call
-- writes its message. The static state starts as zeros, so log_rate_init changes nothing of it.
use dstx.Common.{
  ℕ, ◌+◌, ◌-◌, ◌%◌, ◌≤◌, ◌<◌, ◌≡◌, subst, Bool, true, false, Bool-cases, inl, inr, List, [], ◌∷◌,
  ltb, leb, if◌then◌else◌, get_or, set, length, length-set, get_or-set_self, ◌==◌, u32, arith,
}

-- LOG_CAT_COUNT
abbrev pub log_cat_count : ℕ
log_cat_count = 7

-- log_rate_t: two arrays with an entry for each category.
pub record LogRate : Type 0 where
  pub last_log_us : List ℕ
  pub counter : List ℕ

-- The difference of two uint64_t.
abbrev pub since_us : ℕ → ℕ → ℕ
since_us now last = (now + 18446744073709551616 - last) % 18446744073709551616

-- The clock is read once, as `now`.
unfoldable pub log_ratelimit_time : ℕ → ℕ → ℕ → LogRate → LogRate × Bool
log_ratelimit_time now cat interval_us state =
    if leb log_cat_count cat
    then (state, true)
    else if leb interval_us (since_us now (get_or state.last_log_us cat 0))
    then (record state { last_log_us = set state.last_log_us cat now }, true)
    else (state, false)

unfoldable pub log_ratelimit_count : ℕ → ℕ → LogRate → LogRate × Bool
log_ratelimit_count cat every_n state =
    let count = u32 (get_or state.counter cat 0 + 1) in
    if leb log_cat_count cat
    then (state, true)
    else (record state { counter = set state.counter cat count }, count % every_n == 0)

unfoldable pub log_reset_category : ℕ → LogRate → LogRate
log_reset_category cat state =
    if ltb cat log_cat_count
    then record state {
      last_log_us = set state.last_log_us cat 0;
      counter = set state.counter cat 0;
    }
    else state

-- The times at which calls for one category write, with what else the state goes through between
-- them left out: `calls` holds the time of each call.
unfoldable pub logged_at : ℕ → ℕ → List ℕ → LogRate → List ℕ
logged_at cat interval_us [] state = []
logged_at cat interval_us (now ∷ calls) state =
    let result = log_ratelimit_time now cat interval_us state in
    let rest = logged_at cat interval_us calls result.0 in if result.1 then now ∷ rest else rest

-- A clock that does not go back, from a time on, within 64 bits.
abbrev pub IsMonotone : ℕ → List ℕ → Type 0
IsMonotone from [] = Unit
IsMonotone from (t ∷ times) = (from ≤ t) × (t < 18446744073709551616) × IsMonotone t times

abbrev pub IsApart : ℕ → ℕ → List ℕ → Type 0
IsApart interval_us last [] = Unit
IsApart interval_us last (t ∷ times) = (last + interval_us ≤ t) × IsApart interval_us t times

waited :
    (now last interval_us : ℕ)
    → last ≤ now
    → now < 18446744073709551616
    → leb interval_us (since_us now last) ≡ true
    → last + interval_us ≤ now
waited now last interval_us le lt h = ground arith

-- The messages of one of the seven categories are at least the interval apart, over any sequence of
-- calls on a monotone clock that is not behind the last message.
pub logged_at-IsApart :
    (cat interval_us : ℕ) (calls : List ℕ) (from : ℕ) (state : LogRate)
    → cat < length state.last_log_us
    → cat < 7
    → get_or state.last_log_us cat 0 ≤ from
    → IsMonotone from calls
    → IsApart interval_us (get_or state.last_log_us cat 0) (logged_at cat interval_us calls state)
unfolding logged_at log_ratelimit_time
logged_at-IsApart cat interval_us [] from state inside lt le mono = tt
logged_at-IsApart cat interval_us (now ∷ calls) from state inside lt le mono =
    let last = get_or state.last_log_us cat 0 in
    let known : leb 7 cat ≡ false = ground arith in
    elim (Bool-cases (leb interval_us (since_us now last))) [
      | inl e ↦
          let next : LogRate = record state { last_log_us = set state.last_log_us cat now } in
          let self = get_or-set_self state.last_log_us cat now 0 inside in
          let longer = length-set state.last_log_us cat now in
          let ih =
            logged_at-IsApart cat interval_us calls now next (omega (arith, longer)) lt
              (omega (arith, self)) mono.2 in
          let apart = waited now last interval_us (omega arith) mono.1 e in
          rw (known, e)
            (
              apart,
              subst (λ l. IsApart interval_us l (logged_at cat interval_us calls next)) self ih,
            )
      | inr e ↦
          rw (known, e)
            (logged_at-IsApart cat interval_us calls now state inside lt (omega arith) mono.2)
    ]
