-- ===== src/Uhid/InputReport.antt =====
-- The bytes of the input report.
use dstx.Common.{
  ℕ, zero, suc, ◌/◌, ◌≤◌, ◌<◌, ◌≡◌, ◌⊎◌, inl, inr, refl, true, false, none, some, List, [], ◌∷◌,
  ◌++◌, if◌then◌else◌, get_or, take, drop, length, arith, Bool-cases, bit_and,
}
use dstx.Common.Int.{u8_of_ℤ}
use dstx.Controller.{Controller, get_trigger_axis_value}
use dstx.Uhid.{store, clear, button_bits, dpad_value, stick_byte, uhid_build_input_report}

drop_cons : (i : ℕ) (buf : List ℕ) → i < length buf → drop i buf ≡ get_or buf i 0 ∷ drop (suc i) buf
drop_cons i [] h = absurd (omega arith)
drop_cons zero (x ∷ xs) h = refl
drop_cons (suc i) (x ∷ xs) h = drop_cons i xs (omega arith)

-- The 13 bytes, the last of which holds `stale` if it is not written.
abbrev pub report_bytes : Controller → ℕ → List ℕ
report_bytes slot stale =
    let digital = slot.settings.is_trigger_digital in
    let buttons = button_bits slot.buttons digital in
    let left = u8_of_ℤ (get_trigger_axis_value slot true) in
    let right = u8_of_ℤ (get_trigger_axis_value slot false) in
    1
    ∷ bit_and buttons 0xFF
    ∷ bit_and (buttons / 256) 0xFF
    ∷ dpad_value slot.hat_x slot.hat_y
    ∷ stick_byte slot.axes.lx
    ∷ stick_byte slot.axes.ly
    ∷ 0
    ∷ 0
    ∷ stick_byte slot.axes.rx
    ∷ stick_byte slot.axes.ry
    ∷ 0
    ∷ (if digital then 0 else left)
    ∷ (if digital then stale else right)
    ∷ []

report_form :
    (slot : Controller) (buf : List ℕ) (buf_size : ℕ)
    → 12 ≤ buf_size
    → 13 ≤ length buf
    → uhid_build_input_report slot buf buf_size
      ≡ some (13, report_bytes slot (get_or buf 12 0) ++ drop 13 buf)
unfolding uhid_build_input_report store clear
report_form slot buf buf_size h k = rw (drop_cons 12 buf (omega arith)) (ground arith)

drop_all : (i : ℕ) (buf : List ℕ) → length buf ≡ i → drop i buf ≡ []
drop_all zero [] h = refl
drop_all (suc i) [] h = refl
drop_all zero (x ∷ xs) h = absurd (omega arith)
drop_all (suc i) (x ∷ xs) h = drop_all i xs (omega arith)

-- A buffer of 12 bytes passes the size check and is too small for every slot: either a byte is
-- written behind its end, or the size that is returned is 13.
pub report_overrun :
    (slot : Controller) (buf : List ℕ)
    → length buf ≡ 12
    → (uhid_build_input_report slot buf 12 ≡ none)
      ⊎ ((r : List ℕ) × (uhid_build_input_report slot buf 12 ≡ some (13, r)) × (length r ≡ 12))
unfolding uhid_build_input_report store clear
report_overrun slot buf h = elim (Bool-cases slot.settings.is_trigger_digital) [
  | inl d ↦ inr (take 12 (report_bytes slot 0), rw (drop_all 12 buf h) (ground arith), refl)
  | inr a ↦ inl (rw (drop_all 12 buf h) (ground arith))
]

-- In digital mode the thirteenth byte of the report is what the buffer held before the call.
pub digital_stale :
    (slot : Controller) (buf : List ℕ) (buf_size : ℕ)
    → 12 ≤ buf_size
    → 13 ≤ length buf
    → slot.settings.is_trigger_digital ≡ true
    → (r : List ℕ) × (uhid_build_input_report slot buf buf_size ≡ some (13, r))
      × (get_or r 12 0 ≡ get_or buf 12 0)
digital_stale slot buf buf_size h k d = (_, report_form slot buf buf_size h k, rw d)

-- In analog mode the 13 bytes of the report do not depend on what the buffer held, for every
-- buffer of at least 13 bytes, and nothing behind them changes.
pub analog_determined :
    (slot : Controller) (buf : List ℕ) (buf_size : ℕ)
    → 12 ≤ buf_size
    → 13 ≤ length buf
    → slot.settings.is_trigger_digital ≡ false
    → (r : List ℕ) × (uhid_build_input_report slot buf buf_size ≡ some (13, r))
      × (take 13 r ≡ report_bytes slot 0)
      × (drop 13 r ≡ drop 13 buf)
analog_determined slot buf buf_size h k a = (_, report_form slot buf buf_size h k, rw a, refl)
