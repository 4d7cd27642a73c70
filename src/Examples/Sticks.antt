-- ===== src/Examples/Sticks.antt =====
-- Sticks at rest, deflected and in the corner, over fixed-point numbers in place of floats.
use dstx.Common.{ℕ, ◌≡◌, ◌↔◌, refl, none, some, List, [], ◌∷◌, arith}
use dstx.Common.Int.{pos, negsuc, int16_min, ◌+ℤ◌, ◌-ℤ◌, ◌*ℤ◌}
use dstx.AxisSystem.{
  clamp, magnitude_squared, curve_at, scaled, apply_curve, apply_sensitivity_core, apply_radial,
  apply_deadzone, preset_lut, lut_entry, interpolate, exponent, bend, deadzone_scale,
  deadzone_threshold,
}
use dstx.AxisSystem.Bounds.{IsCorner, apply_sensitivity_core-none_iff}
use dstx.Debounce.{zero_table}
use dstx.Drivers.{Driver, safe_normalize, invert_axis, read_axes}
use dstx.Examples.Data.{fresh, fixed_float, fixed_laws, isqrt}

-- A deflection far out is bent by the curve.
deflected :
    apply_sensitivity_core fixed_float 0 (pos 20000) (negsuc 9999) ≡ some (pos 19940, negsuc 9969)
unfolding apply_sensitivity_core magnitude_squared apply_curve bend curve_at preset_lut lut_entry
    interpolate exponent scaled clamp isqrt ◌+ℤ◌ ◌-ℤ◌ ◌*ℤ◌
deflected = refl

apply_sensitivity_core-none_iff_example :
    (apply_sensitivity_core fixed_float 3 int16_min int16_min ≡ none) ↔ IsCorner int16_min int16_min
apply_sensitivity_core-none_iff_example =
    apply_sensitivity_core-none_iff fixed_float fixed_laws 3 int16_min int16_min (omega arith)
      (omega arith)

rested : apply_deadzone fixed_float (pos 900) (negsuc 99) 10 ≡ some (pos 0, pos 0)
unfolding apply_deadzone magnitude_squared apply_radial deadzone_threshold deadzone_scale scaled
    clamp isqrt ◌+ℤ◌ ◌-ℤ◌ ◌*ℤ◌
rested = refl

centred :
    read_axes fixed_float fresh 128 128 128 128 7 9
    ≡ some (record { lx = pos 0; ly = pos 0; rx = pos 0; ry = pos 0; lt = pos 7; rt = pos 9 })
unfolding read_axes safe_normalize invert_axis apply_deadzone apply_sensitivity_core
    magnitude_squared apply_curve
centred = refl

-- A USB report with the left stick in the corner.
abbrev corner_report : List ℕ
corner_report = 1 ∷ 0 ∷ 0 ∷ 128 ∷ 128 ∷ 8 ∷ 0 ∷ 0 ∷ 0 ∷ 0 ∷ []

abbrev driver : Driver
driver = record { slot = fresh; table = zero_table }
