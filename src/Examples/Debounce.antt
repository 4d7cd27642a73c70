-- ===== src/Examples/Debounce.antt =====
-- A bouncing contact, and a button that is held.
use dstx.Common.{ℕ, ◌+◌, ◌≤◌, ◌≡◌, ◌≢◌, inl, inr, refl, List, [], ◌∷◌, arith}
use dstx.Debounce.{debounce_entry, debounce_delay_us}
use dstx.Debounce.History.{Sample, debounce_run, HeldSince, stable_change, held_stable}

abbrev at : ℕ → ℕ → Sample
at time raw = record { time = time; raw = raw }

-- The newest first: a spike at 10 ms, then the button is down from 20 ms on.
abbrev trace : List Sample
trace = at 32000 1 ∷ at 20000 1 ∷ at 12000 0 ∷ at 10000 1 ∷ []

spike_ignored : (debounce_run trace).stable ≡ 0
unfolding debounce_run debounce_entry
spike_ignored = refl

press_seen : (debounce_run (at 36000 1 ∷ trace)).stable ≡ 1
unfolding debounce_run debounce_entry
press_seen = refl

changed : (debounce_run (at 36000 1 ∷ trace)).stable ≢ (debounce_run trace).stable
unfolding debounce_run debounce_entry
changed = λ h. omega arith

stable_change_example :
    ((debounce_run (at 36000 1 ∷ trace)).stable ≡ 1)
    × ((since : ℕ) × (since + debounce_delay_us ≤ 36000) × HeldSince 1 since trace)
stable_change_example = stable_change (at 36000 1) trace (omega arith) (omega arith) changed

held_stable_example : (debounce_run (at 36000 1 ∷ trace)).stable ≡ 1
held_stable_example =
    held_stable (at 36000 1) trace 20000 (omega arith) (omega arith) (omega arith)
      (refl, inr (refl, inl refl))
