-- ===== src/AxisSystem/Bounds.antt =====
-- The sticks stay int16_t through both functions, and where the integer arithmetic overflows.
use dstx.Common.{
  ℕ, ◌+◌, ◌*◌, ◌≤◌, ◌<◌, ◌≡◌, ◌≢◌, ◌↔◌, ◌⊎◌, inl, inr, refl, Option, none, some, arith,
  Option-cases, leb, ltb, if◌then◌else◌,
}
use native.Mathlib.Decide.{ℕ_discrete}
use dstx.Common.Int.{ℤ, pos, negsuc, pos_part, neg_part, IsInt16, int16_min, square}
use dstx.AxisSystem.{
  Float, FloatLaws, clamp, magnitude_squared, curve_at, preset_lut, interpolate, scaled,
  apply_curve, apply_sensitivity_core, apply_radial, apply_deadzone, bend, deadzone_scale,
  sens_preset_count,
}

clamp-IsInt16 : (v : ℤ) → IsInt16 (clamp v)
unfolding clamp
clamp-IsInt16 v = ground arith

abbrev pub IsCorner : ℤ → ℤ → Type 0
IsCorner x y = (x ≡ int16_min) × (y ≡ int16_min)

mul_self_le : (a k : ℕ) → a ≤ k → a * a ≤ k * k
mul_self_le a k h = grind arith

square-le : (x : ℤ) → IsInt16 x → square x ≤ 1073741824
square-le x h = mul_self_le (pos_part x + neg_part x) 32768 (ground arith)

square-le_of_ne : (x : ℤ) → IsInt16 x → x ≢ int16_min → square x ≤ 1073676289
square-le_of_ne x h n = mul_self_le (pos_part x + neg_part x) 32767 (ground arith)

ℤ-discrete : Discrete ℤ
ℤ-discrete = hlevel ℕ_discrete

dec_corner : (x y : ℤ) → Dec (IsCorner x y)
dec_corner x y = elim (ℤ-discrete x int16_min) [
  | yes e ↦ elim (ℤ-discrete y int16_min) [ yes e' ↦ yes (e, e') | no n ↦ no (λ c. n c.1) ]
  | no n ↦ no (λ c. n c.0)
]

not_corner : (x y : ℤ) → ¬ IsCorner x y → (x ≢ int16_min) ⊎ (y ≢ int16_min)
not_corner x y n = elim (ℤ-discrete x int16_min) [ yes e ↦ inr (λ e'. n (e, e')) | no ne ↦ inl ne ]

sum-lt : (x y : ℤ) → IsInt16 x → IsInt16 y → ¬ IsCorner x y → square x + square y < 2147483648
sum-lt x y hx hy n = elim (not_corner x y n) [
  | inl e ↦ omega (arith, square-le_of_ne x hx e, square-le y hy)
  | inr e ↦ omega (arith, square-le x hx, square-le_of_ne y hy e)
]

magnitude_ok :
    (x y : ℤ)
    → IsInt16 x
    → IsInt16 y
    → ¬ IsCorner x y
    → magnitude_squared x y ≡ some (square x + square y)
unfolding magnitude_squared
magnitude_ok x y hx hy n = ground (arith, sum-lt x y hx hy n)

magnitude_corner : {x y : ℤ} → IsCorner x y → magnitude_squared x y ≡ none
unfolding magnitude_squared
magnitude_corner c = rw (c.0, c.1)

module _ (f : Float) where
  open f use {F, lit, of_int, to_int, mul, div, sqrt}

  scaled-IsInt16 : (scale : F) (v : ℤ) → IsInt16 (scaled f scale v)
  unfolding scaled
  scaled-IsInt16 scale v = clamp-IsInt16 (to_int (mul (of_int v) scale))

  bend-IsInt16 :
      (mag : F) (curved : Option F) (x y : ℤ) {x' y' : ℤ}
      → bend f mag curved x y ≡ some (x', y')
      → IsInt16 x' × IsInt16 y'
  unfolding bend
  bend-IsInt16 mag none x y h = cc
  bend-IsInt16 mag (some c) x y h =
      let scale = div (mul c (lit 32768 1)) mag in
      ground (arith, scaled-IsInt16 scale x, scaled-IsInt16 scale y)

  apply_curve-IsInt16 :
      (preset mag_sq : ℕ) (x y : ℤ) {x' y' : ℤ}
      → IsInt16 x
      → IsInt16 y
      → apply_curve f preset mag_sq x y ≡ some (x', y')
      → IsInt16 x' × IsInt16 y'
  unfolding apply_curve
  apply_curve-IsInt16 preset mag_sq x y {x'} {y'} hx hy h =
      let mag = sqrt (of_int (pos mag_sq)) in
      let t = mul (div mag (lit 32768 1)) (of_int (pos 256)) in
      ground (arith, bend-IsInt16 mag (curve_at f preset t (to_int t)) x y {x' = x'} {y' = y'})

  -- Whatever the floating point does, apply_sensitivity_core leaves a stick in the range of
  -- int16_t.
  pub apply_sensitivity_core-IsInt16 :
      (preset : ℕ) (x y : ℤ) {x' y' : ℤ}
      → IsInt16 x
      → IsInt16 y
      → apply_sensitivity_core f preset x y ≡ some (x', y')
      → IsInt16 x' × IsInt16 y'
  unfolding apply_sensitivity_core
  apply_sensitivity_core-IsInt16 preset x y hx hy h = elim (Option-cases (magnitude_squared x y)) [
    | inl e ↦ cc e
    | inr (m, e) ↦
        apply_curve-IsInt16 (if leb sens_preset_count preset then 0 else preset) m x y hx hy
          (rw e at h)
  ]

  apply_radial-IsInt16 :
      (dz mag_sq : ℕ) (x y : ℤ) → let r = apply_radial f dz mag_sq x y in IsInt16 r.0 × IsInt16 r.1
  unfolding apply_radial
  apply_radial-IsInt16 dz mag_sq x y =
      let scale = deadzone_scale f dz (sqrt (of_int (pos mag_sq))) in
      ground (arith, scaled-IsInt16 scale x, scaled-IsInt16 scale y)

  -- Whatever the floating point does, apply_deadzone leaves a stick in the range of int16_t.
  pub apply_deadzone-IsInt16 :
      (x y : ℤ) (pct : ℕ) {x' y' : ℤ}
      → IsInt16 x
      → IsInt16 y
      → apply_deadzone f x y pct ≡ some (x', y')
      → IsInt16 x' × IsInt16 y'
  unfolding apply_deadzone magnitude_squared
  apply_deadzone-IsInt16 x y pct hx hy h =
      ground
        (arith, apply_radial-IsInt16 (if ltb 100 pct then 100 else pct) (square x + square y) x y)

  -- apply_deadzone overflows exactly when the stick stands in the corner where both coordinates
  -- are -32768 and the deadzone is neither off nor total.
  pub apply_deadzone-none_iff :
      (x y : ℤ) (pct : ℕ)
      → IsInt16 x
      → IsInt16 y
      → (apply_deadzone f x y pct ≡ none) ↔ (IsCorner x y × (0 < pct) × (pct < 100))
  unfolding apply_deadzone
  apply_deadzone-none_iff x y pct hx hy = elim (dec_corner x y) [
    | yes c ↦ (λ h. ground (arith, magnitude_corner c), λ h. ground (arith, magnitude_corner c))
    | no n ↦ (λ h. ground (arith, magnitude_ok x y hx hy n), λ h. absurd (n h.0))
  ]

  module _ (laws : FloatLaws f) where
    interpolate-ne-none :
        (preset : ℕ) (t : F) (idx : ℕ)
        → preset < sens_preset_count
        → idx < 256
        → interpolate f preset t idx ≢ none
    unfolding interpolate preset_lut
    interpolate-ne-none preset t idx row lt = ground arith

    curve_at-ne-none :
        (preset : ℕ) (t : F) (e : ℕ)
        → preset < sens_preset_count
        → laws.IsBelow t e
        → e < 31
        → curve_at f preset t (to_int t) ≢ none
    unfolding curve_at
    curve_at-ne-none preset t e row h lt = go (to_int t) (laws.to_int_below t e h lt)
      where
        go : (idx : ℤ) → neg_part idx ≡ 0 → curve_at f preset t idx ≢ none
        go (pos idx) z = ground (arith, interpolate-ne-none preset t idx row)
        go (negsuc idx) z = absurd (omega arith)

    bend-ne-none :
        (mag : F) (curved : Option F) (x y : ℤ) → curved ≢ none → bend f mag curved x y ≢ none
    unfolding bend
    bend-ne-none mag none x y h = absurd (h refl)
    bend-ne-none mag (some c) x y h = λ e. cc

    apply_curve-ne-none :
        (preset mag_sq : ℕ) (x y : ℤ)
        → preset < sens_preset_count
        → mag_sq < 4294967296
        → apply_curve f preset mag_sq x y ≢ none
    unfolding apply_curve
    apply_curve-ne-none preset mag_sq x y row small =
        let mag = sqrt (of_int (pos mag_sq)) in
        let t = mul (div mag (lit 32768 1)) (of_int (pos 256)) in
        let t_below : laws.IsBelow t 9 =
          laws.mul_below _ 1
            (laws.div_below _ 1 (laws.sqrt_below _ 16 (laws.of_int_below mag_sq small)))
            (omega arith) in
        ground (
          arith,
          bend-ne-none mag (curve_at f preset t (to_int t)) x y
              (curve_at-ne-none preset t 9 row t_below (omega arith)),
        )

    -- apply_sensitivity_core overflows exactly on one stick, the corner where both coordinates are
    -- -32768, and for no preset and no stick does it read the table of the curves out of its 8 rows
    -- of 257 entries.
    pub apply_sensitivity_core-none_iff :
        (preset : ℕ) (x y : ℤ)
        → IsInt16 x
        → IsInt16 y
        → (apply_sensitivity_core f preset x y ≡ none) ↔ IsCorner x y
    unfolding apply_sensitivity_core
    apply_sensitivity_core-none_iff preset x y hx hy = elim (dec_corner x y) [
      | yes c ↦ (λ h. c, λ h. rw (magnitude_corner c))
      | no n ↦ (
        λ h. absurd (
            apply_curve-ne-none (if leb sens_preset_count preset then 0 else preset)
              (square x + square y) x y (ground arith) (omega (arith, sum-lt x y hx hy n))
              (rw (magnitude_ok x y hx hy n) at h)),
        λ c. absurd (n c),
      )
    ]
