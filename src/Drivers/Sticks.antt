-- ===== src/Drivers/Sticks.antt =====
-- What translation makes of the sticks of a report.
use dstx.Common.{
  ℕ, ◌+◌, ◌≤◌, ◌<◌, ◌≡◌, ◌↔◌, ◌⊎◌, none, some, arith, if◌then◌else◌, ltb, List, get_or, Bool,
  >>=-eq-some, All, All-get_or, IsByte,
}
use dstx.Common.Int.{ℤ, pos_part, neg_part, IsInt16, int16_min}
use dstx.Controller.{Controller, Axes}
use dstx.AxisSystem.{Float, FloatLaws, apply_sensitivity_core, apply_deadzone}
use dstx.AxisSystem.Bounds.{
  apply_sensitivity_core-none_iff, apply_sensitivity_core-IsInt16, apply_deadzone-IsInt16,
}
use dstx.Drivers.{
  safe_normalize, invert_axis, read_axes, Driver, translate_ds4, translate_dualsense,
}
use dstx.Uhid.{stick_byte}

safe_normalize-IsInt16 : (v : ℕ) → v < 256 → IsInt16 (safe_normalize v)
unfolding safe_normalize
safe_normalize-IsInt16 v h = ground arith

invert_axis-IsInt16 : (b : Bool) (y : ℤ) → IsInt16 y → IsInt16 (invert_axis b y)
unfolding invert_axis
invert_axis-IsInt16 b y h = ground arith

safe_normalize-eq-min : (v : ℕ) → v < 256 → (safe_normalize v ≡ int16_min) ↔ (v ≡ 0)
unfolding safe_normalize
safe_normalize-eq-min v h = ground arith

-- The widening of a stick byte is exact and increasing: it fits int16_t, a larger byte gives a
-- larger value, and the high byte that the virtual HID device sends back is the byte itself.
pub safe_normalize-stick_byte :
    (v w : ℕ)
    → v < w
    → w < 256
    → (pos_part (safe_normalize v) + neg_part (safe_normalize w)
        < pos_part (safe_normalize w) + neg_part (safe_normalize v))
      × IsInt16 (safe_normalize w)
      × (stick_byte (safe_normalize v) ≡ v)
      × (stick_byte (safe_normalize w) ≡ w)
unfolding safe_normalize stick_byte
safe_normalize-stick_byte v w h k = (ground arith, ground arith, ground arith, ground arith)

-- Bytes with both coordinates of the left stick, or both of the right stick, at 0.
abbrev pub HasCorner : ℕ → ℕ → ℕ → ℕ → Type 0
HasCorner lx ly rx ry = ((lx ≡ 0) × (ly ≡ 0)) ⊎ ((rx ≡ 0) × (ry ≡ 0))

module _ (f : Float) (laws : FloatLaws f) where
  sensitivity_bytes :
      (preset x y : ℕ)
      → x < 256
      → y < 256
      → (apply_sensitivity_core f preset (safe_normalize x) (safe_normalize y) ≡ none)
        ↔ ((x ≡ 0) × (y ≡ 0))
  sensitivity_bytes preset x y hx hy =
      let iff =
        apply_sensitivity_core-none_iff f laws preset (safe_normalize x) (safe_normalize y)
          (safe_normalize-IsInt16 x hx) (safe_normalize-IsInt16 y hy) in
      (
        λ e. (
          (safe_normalize-eq-min x hx).0 (iff.0 e).0,
          (safe_normalize-eq-min y hy).0 (iff.0 e).1,
        ),
        λ c. iff.1 ((safe_normalize-eq-min x hx).1 c.0, (safe_normalize-eq-min y hy).1 c.1),
      )

  module _ (slot : Controller) (lx ly rx ry lt rt : ℕ) (hlx : lx < 256) (hly : ly < 256)
      (hrx : rx < 256) (hry : ry < 256) where
    read_axes_corner : HasCorner lx ly rx ry → read_axes f slot lx ly rx ry lt rt ≡ none
    unfolding read_axes
    read_axes_corner c = ground (
      arith,
      sensitivity_bytes slot.settings.sensitivity_left_preset lx ly hlx hly,
      sensitivity_bytes slot.settings.sensitivity_right_preset rx ry hrx hry,
    )

    -- With the deadzone off or total, reading the sticks is defined on every report except those
    -- with a stick in the corner where both its bytes are 0.
    pub read_axes-none_iff :
        (slot.settings.deadzone ≡ 0) ⊎ (100 ≤ slot.settings.deadzone)
        → (read_axes f slot lx ly rx ry lt rt ≡ none) ↔ HasCorner lx ly rx ry
    unfolding read_axes apply_deadzone
    read_axes-none_iff dz = (
      λ e. ground (
        arith,
        sensitivity_bytes slot.settings.sensitivity_left_preset lx ly hlx hly,
        sensitivity_bytes slot.settings.sensitivity_right_preset rx ry hrx hry,
      ),
      read_axes_corner,
    )

module _ (f : Float) where
  stage :
      (preset x y dz : ℕ) (inverted : Bool) (s : ℤ × ℤ) (r : ℤ × ℤ)
      → x < 256
      → y < 256
      → apply_sensitivity_core f preset (safe_normalize x) (safe_normalize y) ≡ some s
      → apply_deadzone f s.0 (invert_axis inverted s.1) dz ≡ some r
      → IsInt16 r.0 × IsInt16 r.1
  stage preset x y dz inverted s r hx hy e e' =
      let range =
        apply_sensitivity_core-IsInt16 f preset (safe_normalize x) (safe_normalize y)
          (safe_normalize-IsInt16 x hx) (safe_normalize-IsInt16 y hy) e in
      apply_deadzone-IsInt16 f s.0 (invert_axis inverted s.1) dz range.0
        (invert_axis-IsInt16 inverted s.1 range.1) e'

  -- Whatever the settings and the floating point, sticks that are read from bytes are in the
  -- range of int16_t.
  pub read_axes-IsInt16 :
      (slot : Controller) (lx ly rx ry lt rt : ℕ) {a : Axes}
      → lx < 256
      → ly < 256
      → rx < 256
      → ry < 256
      → read_axes f slot lx ly rx ry lt rt ≡ some a
      → IsInt16 a.lx × IsInt16 a.ly × IsInt16 a.rx × IsInt16 a.ry
  unfolding read_axes
  read_axes-IsInt16 slot lx ly rx ry lt rt {a} hlx hly hrx hry h =
      let s = slot.settings in
      let dz : ℕ = if ltb 100 s.deadzone then 0 else s.deadzone in
      let (l, el, h1) =
        >>=-eq-some
          (apply_sensitivity_core f s.sensitivity_left_preset (safe_normalize lx)
            (safe_normalize ly))
          _ h in
      let (r, er, h2) =
        >>=-eq-some
          (apply_sensitivity_core f s.sensitivity_right_preset (safe_normalize rx)
            (safe_normalize ry))
          _ h1 in
      let (l', el', h3) =
        >>=-eq-some (apply_deadzone f l.0 (invert_axis s.invert_ly l.1) dz) _ h2 in
      let (r', er', h4) =
        >>=-eq-some (apply_deadzone f r.0 (invert_axis s.invert_ry r.1) dz) _ h3 in
      ground (
        arith,
        stage s.sensitivity_left_preset lx ly dz s.invert_ly l l' hlx hly el el',
        stage s.sensitivity_right_preset rx ry dz s.invert_ry r r' hrx hry er er',
        h4,
      )

byte_at : (buf : List ℕ) (i : ℕ) → All IsByte buf → get_or buf i 0 < 256
byte_at buf i h = All-get_or IsByte buf i 0 h (omega arith)

module _ (f : Float) (laws : FloatLaws f) where
  -- A USB report of either controller that shows both bytes of one stick at 0 makes translation
  -- undefined, whatever the settings and the history: the squared magnitude overflows.
  pub translate_corner :
      (now : ℕ → ℕ) (slot_idx : ℕ) (has_ufd : Bool) (buf : List ℕ) (d : Driver)
      → All IsByte buf
      → get_or buf 0 0 ≡ 1
      → HasCorner (get_or buf 1 0) (get_or buf 2 0) (get_or buf 3 0) (get_or buf 4 0)
      → (translate_ds4 f now slot_idx has_ufd buf d ≡ none)
        × (translate_dualsense f now slot_idx has_ufd buf d ≡ none)
  unfolding translate_ds4 translate_dualsense
  translate_corner now slot_idx has_ufd buf d bytes usb corner =
      let undefined = λ (lt rt : ℕ).
        read_axes_corner f laws d.slot (get_or buf 1 0) (get_or buf 2 0) (get_or buf 3 0)
          (get_or buf 4 0) lt rt (byte_at buf 1 bytes) (byte_at buf 2 bytes) (byte_at buf 3 bytes)
          (byte_at buf 4 bytes) corner in
      (rw (usb, undefined _ _), rw (usb, undefined _ _))
