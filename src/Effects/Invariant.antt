-- ===== src/Effects/Invariant.antt =====
-- What holds of the effects of a slot between two events of the virtual device.
use dstx.Common.{
  some, ℕ, ◌*◌, ◌≤◌, ◌<◌, ◌≡◌, refl, inl, inr, Bool-cases, Bool, true, false, ltb, leb, not, ◌&&◌,
  ◌||◌, get_or, length, length-set, All, All-set, All-get_or, arith, ◌==◌,
}
use dstx.Common.Int.{ℤ, pos, negsuc, u8_of_ℤ-lt, eqb_ℤ, ltb_ℤ}
use dstx.Controller.{Controller, Effects, Feedback, FfEffect, PeriodicEffect, Timeval}
use dstx.AxisSystem.{Float}
use dstx.Effects.{
  Waves, Upload, rumble, periodic, other_effect, FfEvent, no_ff, no_periodic, store_effect,
  rumble_handle_ff_upload, apply_wave_to_rumble, compute_periodic_wave, start_effect, stop_effect,
  reads_outside, rumble_handle_ff_event,
}

-- Either no periodic effect runs, with the index -1, or one of the 16 does.
abbrev pub IsRunning : ℤ → ℕ → Type 0
IsRunning (negsuc n) active_type = (n ≡ 0) × (active_type ≡ 0)
IsRunning (pos i) active_type = (i < 16) × (active_type ≡ 2)

abbrev pub IsMotors : FfEffect → Type 0
IsMotors f = (f.strong < 256) × (f.weak < 256)

pub record IsPlayable (slot : Controller) : Type 0 where
  pub ff_length : length slot.effects.ff_effects ≡ 16
  pub periodic_length : length slot.effects.periodic_effects ≡ 16
  pub type_length : length slot.effects.effect_type ≡ 16
  pub motors : All IsMotors slot.effects.ff_effects
  pub types : All (λ t. t ≤ 2) slot.effects.effect_type
  pub running : IsRunning slot.effects.active_effect_id slot.effects.active_effect_type
  pub strong : slot.feedback.rumble_strong < 256
  pub weak : slot.feedback.rumble_weak < 256

abbrev IsStored : Effects → Effects → Type 0
IsStored e e' =
    (length e'.ff_effects ≡ length e.ff_effects)
    × (length e'.periodic_effects ≡ length e.periodic_effects)
    × (length e'.effect_type ≡ length e.effect_type)
    × (e'.active_effect_id ≡ e.active_effect_id)
    × (e'.active_effect_type ≡ e.active_effect_type)
    × All IsMotors e'.ff_effects
    × All (λ t. t ≤ 2) e'.effect_type

store_effect-IsStored :
    (i : ℕ) (u : Upload) (e : Effects)
    → All IsMotors e.ff_effects
    → All (λ t. t ≤ 2) e.effect_type
    → IsStored e (store_effect i u e).0
unfolding store_effect
store_effect-IsStored i (rumble strong weak) e m t = (
  length-set e.ff_effects i _,
  refl,
  length-set e.effect_type i 1,
  refl,
  refl,
  All-set IsMotors e.ff_effects i _ m (omega arith),
  All-set (λ t. t ≤ 2) e.effect_type i 1 t (omega arith),
)
store_effect-IsStored i (periodic waveform period magnitude offset phase) e m t = (
  refl,
  length-set e.periodic_effects i _,
  length-set e.effect_type i 2,
  refl,
  refl,
  m,
  All-set (λ t. t ≤ 2) e.effect_type i 2 t (omega arith),
)
store_effect-IsStored i other_effect e m t = (refl, refl, refl, refl, refl, m, t)

stored-IsPlayable :
    (slot : Controller) (e : Effects)
    → IsStored slot.effects e
    → IsPlayable slot
    → IsPlayable (record slot { effects = e })
stored-IsPlayable slot e s h = record {
  ff_length = omega (arith, s.0, h.ff_length);
  periodic_length = omega (arith, s.1, h.periodic_length);
  type_length = omega (arith, s.2, h.type_length);
  motors = s.5;
  types = s.6;
  running = rw (s.3, s.4) h.running;
  strong = h.strong;
  weak = h.weak;
}

-- Every upload, accepted or refused, keeps the effects of a slot playable.
pub rumble_handle_ff_upload-IsPlayable :
    (begun : Bool) (id : ℤ) (u : Upload) (slot : Controller)
    → IsPlayable slot
    → IsPlayable (rumble_handle_ff_upload begun id u slot).0
unfolding rumble_handle_ff_upload
rumble_handle_ff_upload-IsPlayable false id u slot h = h
rumble_handle_ff_upload-IsPlayable true (negsuc n) u slot h = h
rumble_handle_ff_upload-IsPlayable true (pos i) u slot h = elim (Bool-cases (ltb i 16)) [
  | inl e ↦ rw e (
      stored-IsPlayable slot (store_effect i u slot.effects).0
        (store_effect-IsStored i u slot.effects h.motors h.types) h)
  | inr e ↦ rw e h
]

apply_wave_to_rumble-bytes :
    (v : ℕ) (fb : Feedback)
    → v < 256
    → ((apply_wave_to_rumble v fb).rumble_strong < 256)
      × ((apply_wave_to_rumble v fb).rumble_weak < 256)
unfolding apply_wave_to_rumble
apply_wave_to_rumble-bytes v fb h = elim (Bool-cases (ltb 127 v)) [
  | inl e ↦ rw e (h, omega arith)
  | inr e ↦ rw e (omega arith, h)
]

module _ (dbl : Float) (w : Waves dbl) where
  compute_periodic_wave-lt :
      (p : PeriodicEffect) (now : Timeval) → compute_periodic_wave dbl w p now < 256
  unfolding compute_periodic_wave
  compute_periodic_wave-lt p now = elim (Bool-cases (p.period * 1000 == 0)) [
    | inl e ↦ rw e (omega arith)
    | inr e ↦ rw e (u8_of_ℤ-lt _)
  ]

  start_effect-IsPlayable :
      (now : Timeval) (i : ℕ) (slot : Controller)
      → i < 16
      → IsPlayable slot
      → IsPlayable (start_effect dbl w now i slot)
  unfolding start_effect
  start_effect-IsPlayable now i slot lt h =
      let motors =
        All-get_or IsMotors slot.effects.ff_effects i no_ff h.motors (omega arith, omega arith) in
      let p = record (get_or slot.effects.periodic_effects i no_periodic) {
        start_time = now;
        active = true;
      } in
      let wave =
        apply_wave_to_rumble-bytes (compute_periodic_wave dbl w p now) slot.feedback
          (compute_periodic_wave-lt p now) in
      elim (Bool-cases (get_or slot.effects.effect_type i 0 == 1)) [
        | inl rumbles ↦ rw rumbles (record {
          ff_length = h.ff_length;
          periodic_length = h.periodic_length;
          type_length = h.type_length;
          motors = h.motors;
          types = h.types;
          running = (refl, refl);
          strong = motors.0;
          weak = motors.1;
        })
        | inr other ↦ rw other (elim (Bool-cases (get_or slot.effects.effect_type i 0 == 2)) [
          | inl waves ↦ rw waves (record {
            ff_length = h.ff_length;
            periodic_length = omega (
              arith,
              length-set slot.effects.periodic_effects i
                  (record p { last_value = compute_periodic_wave dbl w p now }),
              h.periodic_length,
            );
            type_length = h.type_length;
            motors = h.motors;
            types = h.types;
            running = (lt, refl);
            strong = wave.0;
            weak = wave.1;
          })
          | inr none ↦ rw none h
        ])
      ]

  stop_effect-IsPlayable :
      (i : ℕ) (slot : Controller) → IsPlayable slot → IsPlayable (stop_effect dbl w i slot)
  unfolding stop_effect
  stop_effect-IsPlayable i slot h =
      elim (Bool-cases (eqb_ℤ slot.effects.active_effect_id (pos i))) [
        | inl same ↦ rw same (record {
          ff_length = h.ff_length;
          periodic_length = h.periodic_length;
          type_length = h.type_length;
          motors = h.motors;
          types = h.types;
          running = (refl, refl);
          strong = omega arith;
          weak = omega arith;
        })
        | inr other ↦ rw other h
      ]

  -- Every event of the virtual device is handled inside of the three arrays of 16 effects, and keeps
  -- the effects of a slot playable: whatever a program starts and stops, under any number, the running
  -- effect is one of the 16 and both motors hold bytes.
  pub rumble_handle_ff_event-IsPlayable :
      (now : Timeval) (ev : FfEvent) (slot : Controller)
      → IsPlayable slot
      → (after : Controller) × (rumble_handle_ff_event dbl w now ev slot ≡ some after)
        × IsPlayable after
  unfolding rumble_handle_ff_event reads_outside
  rumble_handle_ff_event-IsPlayable now ev slot h =
      elim (Bool-cases
        (not slot.settings.rumble_active && not (ev.is_ff && eqb_ℤ ev.value (pos 0)))) [
          | inl e ↦ rw e (slot, refl, h)
          | inr e ↦ rw e (elim (Bool-cases (not ev.is_ff || leb 16 ev.code)) [
            | inl f ↦ rw f (slot, refl, h)
            | inr f ↦
                let inside : leb (length slot.effects.effect_type) ev.code ≡ false =
                  rw (h.type_length) (ground arith) in
                rw f (
                  rw inside (elim (Bool-cases (ltb_ℤ (pos 0) ev.value)) [
                    | inl g ↦
                        rw g (_, refl, start_effect-IsPlayable now ev.code slot (ground arith) h)
                    | inr g ↦ rw g (_, refl, stop_effect-IsPlayable ev.code slot h)
                  ]))
          ])
        ]
