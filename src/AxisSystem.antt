-- ===== src/AxisSystem.antt =====
-- dstx/src/axes.c: the sensitivity curves and the radial deadzone of the sticks.
-- `float` and the functions of the C library on it are a parameter, `Float`; the conversions, the
-- tests and the integer arithmetic around them are the code's. `none` is undefined behaviour:
-- a signed overflow of the squared magnitude, or a read of the table of the curves out of its range.
pub mod Bounds
use dstx.Common.{
  ℕ, ◌+◌, ◌≤◌, ◌<◌, ◌≡◌, Bool, Option, none, some, ◌==◌, leb, ltb, if◌then◌else◌, ◌>>=◌, ◌&&◌,
}
use dstx.Common.Int.{ℤ, pos, negsuc, neg_part, ltb_ℤ, int16_min, int16_max, square}

-- Binary floating point as the code uses it. `lit n d` is the constant nearest to n / d.
pub record Float : Type 1 where
  pub F : Type 0
  pub lit : ℕ → ℕ → F
  pub of_int : ℤ → F
  pub to_int : F → ℤ
  pub add : F → F → F
  pub sub : F → F → F
  pub mul : F → F → F
  pub div : F → F → F
  pub sqrt : F → F
  pub pow : F → F → F
  pub lt : F → F → Bool
  pub le : F → F → Bool

-- Documented behaviour of IEEE arithmetic on finite values that are not negative, with powers of two
-- for bounds, which are exact and which rounding does not pass: a square root halves the exponent, and
-- the product and the quotient with a power of two add and subtract its exponent. Truncation to an
-- `int` is defined below 2 ^ 31 and keeps the sign.
pub record FloatLaws (f : Float) : Type 1 where
  -- Finite, and from 0 to 2 ^ e.
  pub IsBelow : f.F → ℕ → Type 0
  pub of_int_below : (n : ℕ) → n < 4294967296 → IsBelow (f.of_int (pos n)) 32
  pub sqrt_below : (a : f.F) (e : ℕ) → IsBelow a (e + e) → IsBelow (f.sqrt a) e
  pub div_below : (a : f.F) (e : ℕ) → IsBelow a (e + 15) → IsBelow (f.div a (f.lit 32768 1)) e
  pub mul_below :
      (a : f.F) (e : ℕ) → IsBelow a e → e < 100 → IsBelow (f.mul a (f.of_int (pos 256))) (e + 8)
  pub to_int_below : (a : f.F) (e : ℕ) → IsBelow a e → e < 31 → neg_part (f.to_int a) ≡ 0

unfoldable pub clamp : ℤ → ℤ
clamp value =
    if ltb_ℤ int16_max value then int16_max else if ltb_ℤ value int16_min then int16_min else value

abbrev pub sens_preset_count : ℕ
sens_preset_count = 8

-- x * x + y * y in `int32_t`.
unfoldable pub magnitude_squared : ℤ → ℤ → Option ℕ
magnitude_squared x y =
    let mag_sq = square x + square y in if leb 2147483648 mag_sq then none else some mag_sq

module _ (f : Float) where
  open f use {F, lit, of_int, to_int, add, sub, mul, div, sqrt, pow, lt, le}

  -- The exponents of g_presets.
  unfoldable pub exponent : ℕ → F
  exponent preset =
      if preset == 1
      then lit 65 100
      else if preset == 2
      then lit 180 100
      else if preset == 3
      then lit 75 100
      else if preset == 4
      then lit 250 100
      else if preset == 5
      then lit 50 100
      else if preset == 7
      then lit 150 100
      else lit 100 100

  -- The entry that init_axis_system computes for each preset and each index of the curve. Both
  -- callers of the curve run that function first.
  unfoldable pub lut_entry : ℕ → ℕ → F
  lut_entry preset i =
      let input_mag = div (of_int (pos i)) (of_int (pos 256)) in
      let output = pow input_mag (exponent preset) in
      let output_mag = if lt (lit 1 1) output then lit 1 1 else output in
      let raised = mul output_mag (lit 65535 1) in
      let normalized = if lt raised (lit 0 1) then lit 0 1 else raised in
      if lt (lit 65535 1) normalized then lit 65535 1 else normalized

  -- A read of g_preset_luts, which has 8 rows of 257 entries.
  unfoldable pub preset_lut : ℕ → ℕ → Option F
  unfolding lut_entry
  preset_lut preset i =
      if ltb preset sens_preset_count && ltb i 257 then some (lut_entry preset i) else none

  -- The interpolation between two entries.
  unfoldable pub interpolate : ℕ → F → ℕ → Option F
  interpolate preset t idx = do
    low ← preset_lut preset idx
    high ← preset_lut preset (idx + 1)
    some (div (add low (mul (sub t (of_int (pos idx))) (sub high low))) (lit 65535 1))

  -- The value of the curve at position `t`, whose whole part is `idx`.
  unfoldable pub curve_at : ℕ → F → ℤ → Option F
  curve_at preset t (negsuc idx) = none
  curve_at preset t (pos idx) = if leb 256 idx then some (lit 1 1) else interpolate preset t idx

  -- One coordinate after scaling.
  unfoldable pub scaled : F → ℤ → ℤ
  scaled scale v = clamp (to_int (mul (of_int v) scale))

  -- Both coordinates, scaled so that the magnitude becomes the one that the curve gave.
  unfoldable pub bend : F → Option F → ℤ → ℤ → Option (ℤ × ℤ)
  bend mag curved x y = do
    curved_norm_mag ← curved
    let scale = div (mul curved_norm_mag (lit 32768 1)) mag
    some (scaled scale x, scaled scale y)

  unfoldable pub apply_curve : ℕ → ℕ → ℤ → ℤ → Option (ℤ × ℤ)
  apply_curve preset mag_sq x y =
      let mag = sqrt (of_int (pos mag_sq)) in
      let t = mul (div mag (lit 32768 1)) (of_int (pos 256)) in
      if mag_sq == 0
      then some (x, y)
      else if le (lit 32768 1) mag
      then some (x, y)
      else bend mag (curve_at preset t (to_int t)) x y

  unfoldable pub apply_sensitivity_core : ℕ → ℤ → ℤ → Option (ℤ × ℤ)
  apply_sensitivity_core preset x y = do
    mag_sq ← magnitude_squared x y
    apply_curve (if leb sens_preset_count preset then 0 else preset) mag_sq x y

  -- The radius below which apply_deadzone rests the stick.
  unfoldable pub deadzone_threshold : ℕ → F
  deadzone_threshold dz = mul (div (of_int (pos dz)) (lit 100 1)) (lit 32768 1)

  -- The factor for a stick outside of it.
  unfoldable pub deadzone_scale : ℕ → F → F
  deadzone_scale dz raw_mag =
      let max_mag = lit 32768 1 in
      let threshold = deadzone_threshold dz in
      let mag = if lt max_mag raw_mag then max_mag else raw_mag in
      let room = sub max_mag threshold in
      let new_mag = add threshold (div (mul (sub mag threshold) room) room) in div new_mag mag

  -- The part of apply_deadzone for a percentage from 1 to 99.
  unfoldable pub apply_radial : ℕ → ℕ → ℤ → ℤ → ℤ × ℤ
  apply_radial dz mag_sq x y =
      let mag = sqrt (of_int (pos mag_sq)) in
      let scale = deadzone_scale dz mag in
      if le mag (deadzone_threshold dz) then (pos 0, pos 0) else (scaled scale x, scaled scale y)

  unfoldable pub apply_deadzone : ℤ → ℤ → ℕ → Option (ℤ × ℤ)
  apply_deadzone x y deadzone_pct =
      let dz = if ltb 100 deadzone_pct then 100 else deadzone_pct in
      let radial = do mag_sq ← magnitude_squared x y; some (apply_radial dz mag_sq x y)
      in if dz == 0 then some (x, y) else if leb 100 dz then some (pos 0, pos 0) else radial
