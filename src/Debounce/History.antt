-- ===== src/Debounce/History.antt =====
-- The stable value of a button against the history of its raw readings.
use dstx.Common.{ℕ, ◌+◌, ◌≤◌, ◌<◌, ◌≡◌, ◌≢◌, ◌⊎◌, inl, List, [], ◌∷◌, arith, refl}
use dstx.Debounce.{PhyDebounce, zero_debounce, debounce_entry, debounce_delay_us}

pub record Sample : Type 0 where
  pub time : ℕ
  pub raw : ℕ

-- The entry after a history of samples, the newest first.
unfoldable pub debounce_run : List Sample → PhyDebounce
debounce_run [] = zero_debounce
debounce_run (s ∷ older) = debounce_entry s.time s.raw (debounce_run older)

-- Every sample back to one at time `since` reads `raw`.
abbrev pub HeldSince : ℕ → ℕ → List Sample → Type 0
HeldSince raw since [] = ⊥
HeldSince raw since (s ∷ older) = (s.raw ≡ raw) × ((s.time ≡ since) ⊎ HeldSince raw since older)

-- The clock does not run backwards, and its times fit a uint64_t.
abbrev pub TimesUpTo : ℕ → List Sample → Type 0
TimesUpTo now [] = Unit
TimesUpTo now (s ∷ older) = (s.time ≤ now) × TimesUpTo s.time older

last_change-le :
    (now : ℕ) (h : List Sample) → TimesUpTo now h → (debounce_run h).last_change_us ≤ now
unfolding debounce_run debounce_entry
last_change-le now [] m = omega arith
last_change-le now (s ∷ older) m = ground (arith, last_change-le s.time older m.1)

pending_held :
    (h : List Sample)
    → ((debounce_run h).pending ≡ (debounce_run h).stable)
      ⊎ HeldSince (debounce_run h).pending (debounce_run h).last_change_us h
unfolding debounce_run debounce_entry
pending_held [] = inl refl
pending_held (s ∷ older) = ground (arith, pending_held older)

held_state :
    (raw since now : ℕ) (h : List Sample)
    → TimesUpTo now h
    → HeldSince raw since h
    → ((debounce_run h).stable ≡ raw)
      ⊎ (((debounce_run h).pending ≡ raw) × ((debounce_run h).last_change_us ≤ since))
unfolding debounce_run debounce_entry
held_state raw since now [] m k = absurd k
held_state raw since now (s ∷ older) m k =
    ground (arith, last_change-le s.time older m.1, held_state raw since s.time older m.1)

-- A spike never gets through: when a sample changes the stable value, the new value is what this
-- sample reads, and every sample for at least 15 ms before it read the same, provided that the
-- clock did not run backwards and fits its 64 bits.
pub stable_change :
    (s : Sample) (older : List Sample)
    → TimesUpTo s.time older
    → s.time < 18446744073709551616
    → (debounce_run (s ∷ older)).stable ≢ (debounce_run older).stable
    → ((debounce_run (s ∷ older)).stable ≡ s.raw)
      × ((since : ℕ) × (since + debounce_delay_us ≤ s.time) × HeldSince s.raw since older)
unfolding debounce_run debounce_entry
stable_change s older m fits ne = (
  ground arith,
  (
    (debounce_run older).last_change_us,
    ground (arith, last_change-le s.time older m),
    ground (arith, pending_held older),
  ),
)

-- A press is not lost: when a button has read the same value at every sample for 15 ms or more,
-- the next sample that still reads it makes it the stable value.
pub held_stable :
    (s : Sample) (older : List Sample) (since : ℕ)
    → TimesUpTo s.time older
    → s.time < 18446744073709551616
    → since + debounce_delay_us ≤ s.time
    → HeldSince s.raw since older
    → (debounce_run (s ∷ older)).stable ≡ s.raw
unfolding debounce_run debounce_entry
held_stable s older since m fits long k =
    ground (arith, last_change-le s.time older m, held_state s.raw since s.time older m k)
