-- ===== src/Nsw/Forward/Mirror.antt =====
-- What the virtual device of nsw_read_events shows after the events that `forward` hands to
-- safe_write, if every write succeeds. The device is that of Replay.
use dstx.Common.{
  ℕ, ◌≡◌, refl, sym, ap, subst, ◌∙◌, Bool, true, Bool-cases, if_cases, ==_iff, List, [], ◌∷◌, ◌++◌,
  inl, inr, ◌==◌, All, All-map, All-append, if◌then◌else◌, arith,
}
use dstx.Common.Int.{eqb_ℤ, eq_of_parts}
use dstx.Controller.{Controller}
use dstx.Drivers.{KeyCode, AbsCode}
use dstx.Nsw.{Forwarded}
use dstx.Nsw.Forward.Replay.{replay, replay_both, replay-with_syn, same_key, same_abs}
use dstx.Nsw.Forward.{
  key_index, abs_index, key_value, abs_value, store_key, store_abs, forward_keys, forward_axes,
  logical_keys, stick_axes, trigger_keys, trigger_axes, hat_axes, forward,
}

==_self : (n : ℕ) → (n == n) ≡ true
==_self n = ground arith

module _ (slot : Controller) where
  abbrev ShowsKey : Forwarded → KeyCode → Type 0
  ShowsKey c k = c.last_key k ≡ key_value slot k

  abbrev ShowsAbs : Forwarded → AbsCode → Type 0
  ShowsAbs c k = c.last_abs k ≡ abs_value slot k

  store_key-ShowsKey :
      (c : Forwarded) (j k : KeyCode) → ShowsKey c j → ShowsKey (store_key k (key_value slot k) c) j
  unfolding store_key
  store_key-ShowsKey c j k h =
      if_cases (λ v. v ≡ key_value slot j) (key_index j == key_index k)
        (λ e. ap (key_value slot) (sym (same_key j k e))) (λ e. h)

  store_key_self : (c : Forwarded) (k : KeyCode) → ShowsKey (store_key k (key_value slot k) c) k
  unfolding store_key
  store_key_self c k = rw (==_self (key_index k)) refl

  store_abs-ShowsAbs :
      (c : Forwarded) (j k : AbsCode) → ShowsAbs c j → ShowsAbs (store_abs k (abs_value slot k) c) j
  unfolding store_abs
  store_abs-ShowsAbs c j k h =
      if_cases (λ v. v ≡ abs_value slot j) (abs_index j == abs_index k)
        (λ e. ap (abs_value slot) (sym (same_abs j k e))) (λ e. h)

  store_abs_self : (c : Forwarded) (k : AbsCode) → ShowsAbs (store_abs k (abs_value slot k) c) k
  unfolding store_abs
  store_abs_self c k = rw (==_self (abs_index k)) refl

  -- One block: what it sends brings the device to the cache, whether or not the value changed.
  forward_keys-replay :
      (codes : List KeyCode) (c : Forwarded)
      → replay (forward_keys codes slot c).1 c ≡ (forward_keys codes slot c).0
  unfolding forward_keys replay
  forward_keys-replay [] c = refl
  forward_keys-replay (k ∷ codes) c = elim (Bool-cases (key_value slot k == c.last_key k)) [
    | inl e ↦ rw e (forward_keys-replay codes c)
    | inr e ↦ rw e (forward_keys-replay codes (store_key k (key_value slot k) c))
  ]

  forward_axes-replay :
      (codes : List AbsCode) (c : Forwarded)
      → replay (forward_axes codes slot c).1 c ≡ (forward_axes codes slot c).0
  unfolding forward_axes replay
  forward_axes-replay [] c = refl
  forward_axes-replay (k ∷ codes) c = elim (Bool-cases (eqb_ℤ (abs_value slot k) (c.last_abs k))) [
    | inl e ↦ rw e (forward_axes-replay codes c)
    | inr e ↦ rw e (forward_axes-replay codes (store_abs k (abs_value slot k) c))
  ]

  -- What a block shows stays, and it shows all its codes in the end.
  key_step : KeyCode → Forwarded → Forwarded
  key_step k c = if key_value slot k == c.last_key k then c else store_key k (key_value slot k) c

  abs_step : AbsCode → Forwarded → Forwarded
  abs_step k c =
      if eqb_ℤ (abs_value slot k) (c.last_abs k) then c else store_abs k (abs_value slot k) c

  key_step-keeps : (c : Forwarded) (j k : KeyCode) → ShowsKey c j → ShowsKey (key_step k c) j
  unfolding key_step
  key_step-keeps c j k h =
      if_cases (λ d. ShowsKey d j) (key_value slot k == c.last_key k) (λ e. h)
        (λ e. store_key-ShowsKey c j k h)

  key_step-shows : (c : Forwarded) (k : KeyCode) → ShowsKey (key_step k c) k
  unfolding key_step
  key_step-shows c k =
      if_cases (λ d. ShowsKey d k) (key_value slot k == c.last_key k)
        (λ e. sym ((==_iff (key_value slot k) (c.last_key k)).0 e)) (λ e. store_key_self c k)

  abs_step-keeps : (c : Forwarded) (j k : AbsCode) → ShowsAbs c j → ShowsAbs (abs_step k c) j
  unfolding abs_step
  abs_step-keeps c j k h =
      if_cases (λ d. ShowsAbs d j) (eqb_ℤ (abs_value slot k) (c.last_abs k)) (λ e. h)
        (λ e. store_abs-ShowsAbs c j k h)

  abs_step-shows : (c : Forwarded) (k : AbsCode) → ShowsAbs (abs_step k c) k
  unfolding abs_step
  abs_step-shows c k =
      if_cases (λ d. ShowsAbs d k) (eqb_ℤ (abs_value slot k) (c.last_abs k))
        (λ e. sym (eq_of_parts (abs_value slot k) (c.last_abs k) ((==_iff _ _).0 e)))
        (λ e. store_abs_self c k)

  forward_keys-keeps :
      (codes : List KeyCode) (c : Forwarded) (j : KeyCode)
      → ShowsKey c j
      → ShowsKey (forward_keys codes slot c).0 j
  unfolding forward_keys key_step
  forward_keys-keeps [] c j h = h
  forward_keys-keeps (k ∷ codes) c j h =
      forward_keys-keeps codes (key_step k c) j (key_step-keeps c j k h)

  forward_axes-keeps :
      (codes : List AbsCode) (c : Forwarded) (j : AbsCode)
      → ShowsAbs c j
      → ShowsAbs (forward_axes codes slot c).0 j
  unfolding forward_axes abs_step
  forward_axes-keeps [] c j h = h
  forward_axes-keeps (k ∷ codes) c j h =
      forward_axes-keeps codes (abs_step k c) j (abs_step-keeps c j k h)

  forward_keys-shows :
      (codes : List KeyCode) (c : Forwarded) → All (ShowsKey (forward_keys codes slot c).0) codes
  unfolding forward_keys key_step
  forward_keys-shows [] c = tt
  forward_keys-shows (k ∷ codes) c = (
    forward_keys-keeps codes (key_step k c) k (key_step-shows c k),
    forward_keys-shows codes (key_step k c),
  )

  forward_axes-shows :
      (codes : List AbsCode) (c : Forwarded) → All (ShowsAbs (forward_axes codes slot c).0) codes
  unfolding forward_axes abs_step
  forward_axes-shows [] c = tt
  forward_axes-shows (k ∷ codes) c = (
    forward_axes-keeps codes (abs_step k c) k (abs_step-shows c k),
    forward_axes-shows codes (abs_step k c),
  )

  -- A block of keys leaves the axes, and a block of axes the keys.
  forward_keys-last_abs :
      (codes : List KeyCode) (c : Forwarded) → (forward_keys codes slot c).0.last_abs ≡ c.last_abs
  unfolding forward_keys key_step store_key
  forward_keys-last_abs [] c = refl
  forward_keys-last_abs (k ∷ codes) c =
      forward_keys-last_abs codes (key_step k c)
      ∙ if_cases (λ (d : Forwarded). d.last_abs ≡ c.last_abs) (key_value slot k == c.last_key k)
          (λ e. refl) (λ e. refl)

  forward_axes-last_key :
      (codes : List AbsCode) (c : Forwarded) → (forward_axes codes slot c).0.last_key ≡ c.last_key
  unfolding forward_axes abs_step store_abs
  forward_axes-last_key [] c = refl
  forward_axes-last_key (k ∷ codes) c =
      forward_axes-last_key codes (abs_step k c)
      ∙ if_cases (λ (d : Forwarded). d.last_key ≡ c.last_key)
          (eqb_ℤ (abs_value slot k) (c.last_abs k)) (λ e. refl) (λ e. refl)

  -- The five blocks, each on what the one before leaves.
  module _ (c : Forwarded) where
    abbrev digital : Bool
    digital = slot.settings.is_trigger_digital

    abbrev after_keys : Forwarded
    after_keys = (forward_keys logical_keys slot c).0

    abbrev after_sticks : Forwarded
    after_sticks = (forward_axes stick_axes slot after_keys).0

    abbrev after_trigger : Forwarded
    after_trigger = (forward_keys (trigger_keys digital) slot after_sticks).0

    abbrev after_analog : Forwarded
    after_analog = (forward_axes (trigger_axes digital) slot after_trigger).0

    abbrev after_hats : Forwarded
    after_hats = (forward_axes hat_axes slot after_analog).0

    last_key_at_end : after_hats.last_key ≡ after_trigger.last_key
    last_key_at_end =
        forward_axes-last_key hat_axes after_analog
        ∙ forward_axes-last_key (trigger_axes digital) after_trigger

    last_key_at_sticks : after_sticks.last_key ≡ after_keys.last_key
    last_key_at_sticks = forward_axes-last_key stick_axes after_keys

    last_abs_at_trigger : after_trigger.last_abs ≡ after_sticks.last_abs
    last_abs_at_trigger = forward_keys-last_abs (trigger_keys digital) after_sticks

    keys_shown : All (ShowsKey after_hats) (logical_keys ++ trigger_keys digital)
    keys_shown =
        subst (λ f. All (λ k. f k ≡ key_value slot k) (logical_keys ++ trigger_keys digital))
          (sym last_key_at_end)
          (All-append (ShowsKey after_trigger) logical_keys (trigger_keys digital)
            (All-map (ShowsKey after_sticks) (ShowsKey after_trigger) logical_keys
              (λ k h. forward_keys-keeps (trigger_keys digital) after_sticks k h)
              (subst (λ f. All (λ k. f k ≡ key_value slot k) logical_keys) (sym last_key_at_sticks)
                (forward_keys-shows logical_keys c)))
            (forward_keys-shows (trigger_keys digital) after_sticks))

    sticks_shown : All (ShowsAbs after_trigger) stick_axes
    sticks_shown =
        subst (λ f. All (λ k. f k ≡ abs_value slot k) stick_axes) (sym last_abs_at_trigger)
          (forward_axes-shows stick_axes after_keys)

    axes_shown : All (ShowsAbs after_hats) (stick_axes ++ (trigger_axes digital ++ hat_axes))
    axes_shown =
        All-append (ShowsAbs after_hats) stick_axes (trigger_axes digital ++ hat_axes)
          (All-map (ShowsAbs after_trigger) (ShowsAbs after_hats) stick_axes
            (λ k h.
              forward_axes-keeps hat_axes after_analog k
                (forward_axes-keeps (trigger_axes digital) after_trigger k h))
            sticks_shown)
          (All-append (ShowsAbs after_hats) (trigger_axes digital) hat_axes
            (All-map (ShowsAbs after_analog) (ShowsAbs after_hats) (trigger_axes digital)
              (λ k h. forward_axes-keeps hat_axes after_analog k h)
              (forward_axes-shows (trigger_axes digital) after_trigger))
            (forward_axes-shows hat_axes after_analog))

    blocks_replay : replay (forward slot c).1 c ≡ after_hats
    unfolding forward
    blocks_replay =
        replay-with_syn
          ((forward_keys logical_keys slot c).1
            ++ ((forward_axes stick_axes slot after_keys).1
                ++ ((forward_keys (trigger_keys digital) slot after_sticks).1
                    ++ ((forward_axes (trigger_axes digital) slot after_trigger).1
                        ++ (forward_axes hat_axes slot after_analog).1))))
          c
        ∙ replay_both (forward_keys logical_keys slot c).1 _ c (forward_keys-replay logical_keys c)
            (replay_both (forward_axes stick_axes slot after_keys).1 _ _
              (forward_axes-replay stick_axes after_keys)
              (replay_both (forward_keys (trigger_keys digital) slot after_sticks).1 _ _
                (forward_keys-replay (trigger_keys digital) after_sticks)
                (replay_both (forward_axes (trigger_axes digital) slot after_trigger).1 _ _
                  (forward_axes-replay (trigger_axes digital) after_trigger)
                  (forward_axes-replay hat_axes after_analog))))

-- The state of the slot that a device must show: the keys and the axes that the trigger mode
-- forwards.
unfoldable pub Mirrors : Controller → Forwarded → Type 0
Mirrors slot pad =
    let digital = slot.settings.is_trigger_digital in
    All (λ k. pad.last_key k ≡ key_value slot k) (logical_keys ++ trigger_keys digital)
    × All (λ k. pad.last_abs k ≡ abs_value slot k)
        (stick_axes ++ (trigger_axes digital ++ hat_axes))

-- While every write succeeds, the `last_*` fields stay what the device shows: if the device has the value of the field for
-- every code before the events of one pass, it has the value of the new field after them, and then
-- every key and axis that is forwarded in the slot's trigger mode has the slot's value there.
pub forward-Mirrors :
    (slot : Controller) (c pad : Forwarded)
    → pad ≡ c
    → (replay (forward slot c).1 pad ≡ (forward slot c).0)
      × Mirrors slot (replay (forward slot c).1 pad)
unfolding Mirrors forward
forward-Mirrors slot c pad same =
    let shown = ap (replay (forward slot c).1) same ∙ blocks_replay slot c in
    (shown, subst (Mirrors slot) (sym shown) (keys_shown slot c, axes_shown slot c))
