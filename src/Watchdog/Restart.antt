-- ===== src/Watchdog/Restart.antt =====
-- What the watchdog does to the workers.
use dstx.Common.{
  ℕ, zero, suc, ◌+◌, ◌≤◌, ◌<◌, ◌≡◌, ◌≢◌, inl, inr, refl, sym, ap, subst, ◌∙◌, Bool, true, false,
  if_cases, Option, none, some, Option-cases, >>=-eq-some, List, not, ◌&&◌, get_or, set, length,
  length-set, get_or-set_self, get_or-set_ne, arith,
}
use dstx.Debounce.{max_slots}
use native.Mathlib.Decide.{ℕ_discrete}
use dstx.Watchdog.{
  WorkerSlot, Workers, no_worker, is_expired, worker_cleanup, Watched, still_there, put, slot_at,
  restart, register_again, watch_slot, watch_from, watchdog,
}

-- What one round does for slot i: it registers nothing, keeps the other slots, and slot i has a
-- thread afterwards exactly if it had one that is not taken for stuck.
IsRound : ℕ → Bool → Workers → Watched → Type 0
IsRound i expired w r =
    (r.registered ≡ none)
    × (length r.workers.slots ≡ length w.slots)
    × ((slot_at i r.workers).thread ≡ ((slot_at i w).thread && not expired))
    × ((j : ℕ) → i ≢ j → slot_at j r.workers ≡ slot_at j w)

OnWatched : (Watched → Type 0) → Option Watched → Type 0
OnWatched P none = Unit
OnWatched P (some r) = P r

OnWatched-map :
    (P Q : Watched → Type 0) (o : Option Watched)
    → ((r : Watched) → P r → Q r)
    → OnWatched P o
    → OnWatched Q o
unfolding OnWatched
OnWatched-map P Q none f h = tt
OnWatched-map P Q (some r) f h = f r h

-- The slot that was written, read again.
put_self :
    (i : ℕ) (slot : WorkerSlot) (w : Workers) → i < length w.slots → slot_at i (put i slot w) ≡ slot
put_self i slot w h = get_or-set_self w.slots i slot no_worker h

put_ne :
    (i j : ℕ) (slot : WorkerSlot) (w : Workers) → i ≢ j → slot_at j (put i slot w) ≡ slot_at j w
put_ne i j slot w h = get_or-set_ne w.slots i j slot no_worker h

length-put :
    (i : ℕ) (slot : WorkerSlot) (w : Workers) → length (put i slot w).slots ≡ length w.slots
length-put i slot w = length-set w.slots i slot

-- Three writes to one entry.
module _ (xs : List WorkerSlot) (i : ℕ) (a b c : WorkerSlot) where
  length-three : length (set (set (set xs i a) i b) i c) ≡ length xs
  length-three =
      length-set (set (set xs i a) i b) i c ∙ (length-set (set xs i a) i b ∙ length-set xs i a)

  three_self : i < length xs → get_or (set (set (set xs i a) i b) i c) i no_worker ≡ c
  three_self h =
      get_or-set_self (set (set xs i a) i b) i c no_worker
        (omega (arith, h, length-set (set xs i a) i b, length-set xs i a))

  three_ne :
      (j : ℕ) → i ≢ j → get_or (set (set (set xs i a) i b) i c) j no_worker ≡ get_or xs j no_worker
  three_ne j h =
      get_or-set_ne (set (set xs i a) i b) i j c no_worker h
      ∙ (get_or-set_ne (set xs i a) i j b no_worker h ∙ get_or-set_ne xs i j a no_worker h)

module _ (exists : ℕ → Bool) (i : ℕ) where
  restart-IsRound :
      (ends : Bool) (w : Workers)
      → i < length w.slots
      → (slot_at i w).thread ≡ true
      → OnWatched (IsRound i true w) (restart exists ends i w)
  unfolding restart worker_cleanup OnWatched IsRound
  restart-IsRound false w h on = tt
  restart-IsRound true w h on =
      let stopping = put i (record (slot_at i w) { worker_stop = true }) w in
      let joined = worker_cleanup i stopping in
      let in_stopping : i < length stopping.slots =
        subst (λ n. i < n) (sym (length-put i (record (slot_at i w) { worker_stop = true }) w)) h in
      let gone =
        put_self i (record (slot_at i stopping) { connected = false; dev_path = none }) stopping
          in_stopping in
      (
        ap (λ (s : WorkerSlot). still_there exists s.dev_path) gone,
        length-three w.slots i _ _ _,
        ap (λ (s : WorkerSlot). s.thread) (three_self w.slots i _ _ _ h) ∙ rw on refl,
        three_ne w.slots i _ _ _,
      )

  -- A heartbeat that is stored first makes no difference.
  IsRound-beaten :
      (hb : ℕ) (w : Workers) (r : Watched)
      → i < length w.slots
      → IsRound i true (put i (record (slot_at i w) { heartbeat = hb }) w) r
      → IsRound i true w r
  unfolding IsRound
  IsRound-beaten hb w r h (none_again, len, thread, rest) = (
    none_again,
    len ∙ length-put i _ w,
    thread ∙ ap (λ (s : WorkerSlot). s.thread && false) (put_self i _ w h),
    λ j ne. rest j ne ∙ put_ne i j _ w ne,
  )

  watch_slot-IsRound :
      (now hb : ℕ) (ends : Bool) (w : Workers)
      → i < length w.slots
      → OnWatched (IsRound i (is_expired now hb) w) (watch_slot exists now hb ends i w)
  unfolding watch_slot OnWatched IsRound
  watch_slot-IsRound now hb ends w h =
      let beaten = put i (record (slot_at i w) { heartbeat = hb }) w in
      if_cases (OnWatched (IsRound i (is_expired now hb) w)) (slot_at i w).thread
        (λ on.
          if_cases (OnWatched (IsRound i (is_expired now hb) w)) (is_expired now hb)
            (λ e. rw e (
              OnWatched-map (IsRound i true beaten) (IsRound i true w)
                (restart exists ends i beaten) (λ r round. IsRound-beaten hb w r h round)
                (restart-IsRound ends beaten (subst (λ n. i < n) (sym (length-put i _ w)) h)
                  (ap (λ (s : WorkerSlot). s.thread) (put_self i _ w h) ∙ on))))
            (λ e. (
              refl,
              length-put i _ w,
              ap (λ (s : WorkerSlot). s.thread) (put_self i _ w h) ∙ rw on (rw e refl),
              λ j ne. put_ne i j _ w ne,
            )))
        (λ e. (refl, refl, rw e refl, λ j ne. refl))

module _ (try_register : ℕ → Workers → Workers) (exists : ℕ → Bool) (now : ℕ) (hb : ℕ → ℕ)
    (ends : ℕ → Bool) where
  -- One round of the loop, without the registration that it never makes.
  IsRound-after :
      (i : ℕ) (w : Workers) (r : Watched)
      → i < length w.slots
      → watch_slot exists now (hb i) (ends i) i w ≡ some r
      → IsRound i (is_expired now (hb i)) w r
  unfolding OnWatched
  IsRound-after i w r h e =
      subst (OnWatched (IsRound i (is_expired now (hb i)) w)) e
        (watch_slot-IsRound exists i now (hb i) (ends i) w h)

  -- The slots before `i` and after the loop stay; each of the others loses its thread exactly if it
  -- is taken for stuck.
  HasThreads : ℕ → ℕ → Workers → Workers → Type 0
  HasThreads left i w after =
      (j : ℕ)
      → i ≤ j
      → j < i + left
      → (slot_at j after).thread ≡ ((slot_at j w).thread && not (is_expired now (hb j)))

  KeepsBefore : ℕ → Workers → Workers → Type 0
  KeepsBefore i w after = (j : ℕ) → j < i → slot_at j after ≡ slot_at j w

  not_registered : (r : Watched) → r.registered ≡ none → register_again try_register r ≡ r.workers
  not_registered r e = rw e refl

  watch_from_lem :
      (left i : ℕ) (w after : Workers)
      → i + left ≤ length w.slots
      → watch_from try_register exists now hb ends left i w ≡ some after
      → KeepsBefore i w after × HasThreads left i w after
  unfolding watch_from IsRound KeepsBefore HasThreads
  watch_from_lem zero i w after fits e =
      let same : after ≡ w = cc in
      (λ j lt. ap (slot_at j) same, λ j le lt. absurd (omega (arith, le, lt)))
  watch_from_lem (suc left) i w after fits e =
      let (r, watched, continued) = >>=-eq-some (watch_slot exists now (hb i) (ends i) i w) _ e in
      let (none_again, len, thread, others) = IsRound-after i w r (omega (arith, fits)) watched in
      let rest = watch_from_lem left (i + 1) r.workers after (omega (arith, fits, len)) (
        ap (watch_from try_register exists now hb ends left (i + 1))
          (sym (not_registered r none_again))
        ∙ continued) in
      (
        λ j lt. rest.0 j (omega (arith, lt)) ∙ others j (λ e. omega (arith, lt, e)),
        λ j le lt. elim (ℕ_discrete i j) [
          | yes same ↦
              subst
                (λ k.
                  (slot_at k after).thread ≡ ((slot_at k w).thread && not (is_expired now (hb k))))
                same (ap (λ (s : WorkerSlot). s.thread) (rest.0 i (omega arith)) ∙ thread)
          | no ne ↦
              rest.1 j (omega (arith, le, ne)) (omega (arith, lt))
              ∙ ap (λ (s : WorkerSlot). s.thread && not (is_expired now (hb j))) (others j ne)
        ],
      )

  unregistered :
      (left i : ℕ) (w : Workers)
      → i + left ≤ length w.slots
      → watch_from try_register exists now hb ends left i w
        ≡ watch_from (λ path u. u) exists now hb ends left i w
  unfolding watch_from IsRound
  unregistered zero i w fits = refl
  unregistered (suc left) i w fits =
      elim (Option-cases (watch_slot exists now (hb i) (ends i) i w)) [
        | inl e ↦ rw e refl
        | inr (r, e) ↦
            let (none_again, len, _, _) = IsRound-after i w r (omega (arith, fits)) e in
            rw e (rw none_again (unregistered left (i + 1) r.workers (omega (arith, fits, len))))
      ]

  -- A pass of the watchdog that ends takes the thread of exactly those slots whose worker it takes
  -- for stuck, by the heartbeats that it reads and the one time that it read before.
  pub watchdog-thread :
      (w after : Workers) (j : ℕ)
      → length w.slots ≡ max_slots
      → watchdog try_register exists now hb ends w ≡ some after
      → j < max_slots
      → (slot_at j after).thread ≡ ((slot_at j w).thread && not (is_expired now (hb j)))
  unfolding watchdog HasThreads
  watchdog-thread w after j len e lt =
      (watch_from_lem max_slots 0 w after (omega (arith, len)) e).1 j (omega arith) lt

  -- The watchdog never registers the device of a stuck worker again, though it is still there: a
  -- pass gives what it gives if try_register_control does nothing, whatever paths exist.
  pub watchdog-unregistered :
      (w : Workers)
      → length w.slots ≡ max_slots
      → watchdog try_register exists now hb ends w ≡ watchdog (λ path u. u) exists now hb ends w
  unfolding watchdog
  watchdog-unregistered w len = unregistered max_slots 0 w (omega (arith, len))
