-- ===== src/Output/Reports.antt =====
-- The reports against the layouts that the controllers expect.
use dstx.Common.{
  ℕ, ◌+◌, ◌*◌, ◌/◌, ◌≤◌, ◌<◌, ◌≡◌, ◌≢◌, refl, Bool, true, false, some, List, [], ◌∷◌, ltb, u8,
  length, take, get_or, if◌then◌else◌, arith, ◌∙◌,
}
use dstx.Controller.{Controller, ControllerType, Feedback, type_ds4, type_dualsense, type_nsw_pro}
use dstx.Output.{
  scale_led, clamp_u8, build_ds4_usb_report, build_dualsense_usb_report, ds4_bt_body,
  dualsense_bt_body, seal, build_ds4_bt_report, build_dualsense_bt_report, sanitized, build_report,
  send_output_report,
}

-- The fields of a slot that a report shows are bytes.
pub record IsFeedback (fb : Feedback) : Type 0 where
  pub led_r : fb.led_r < 256
  pub led_g : fb.led_g < 256
  pub led_b : fb.led_b < 256
  pub rumble_weak : fb.rumble_weak < 256
  pub rumble_strong : fb.rumble_strong < 256

percent-le : (v p : ℕ) → p ≤ 100 → v * p / 100 ≤ v
percent-le v p h = let bound : v * p ≤ v * 100 = grind arith in omega arith

pub percent_u8 : (v p : ℕ) → p ≤ 100 → v < 256 → u8 (v * p / 100) ≡ v * p / 100
percent_u8 v p h k = omega (arith, percent-le v p h)

clamp_u8_lem : (v hi d : ℕ) → clamp_u8 v 0 hi d ≡ (if ltb hi v then d else v)
unfolding clamp_u8
clamp_u8_lem v hi d = ground arith

-- A byte scaled by a percentage out of shared memory.
scaled_byte :
    (v raw d : ℕ)
    → v < 256
    → d ≤ 100
    → u8 (v * clamp_u8 raw 0 100 d / 100) ≡ v * (if ltb 100 raw then d else raw) / 100
scaled_byte v raw d h k =
    rw (clamp_u8_lem raw 100 d) (percent_u8 v (if ltb 100 raw then d else raw) (ground arith) h)

-- The size of a report in bytes, and where it holds the strong and weak motor and the colour.
pub record Layout : Type 0 where
  pub size : ℕ
  pub strong_at : ℕ
  pub weak_at : ℕ
  pub led_at : ℕ

abbrev pub layout_of : ControllerType → Bool → Layout
layout_of type_ds4 true = record { size = 78; strong_at = 7; weak_at = 6; led_at = 8 }
layout_of type_ds4 false = record { size = 32; strong_at = 4; weak_at = 5; led_at = 6 }
layout_of type_dualsense true = record { size = 78; strong_at = 5; weak_at = 4; led_at = 46 }
layout_of type_dualsense false = record { size = 48; strong_at = 4; weak_at = 3; led_at = 45 }
layout_of type_nsw_pro bt = record { size = 0; strong_at = 0; weak_at = 0; led_at = 0 }

-- A report of the given layout that shows the two motors and the colour.
abbrev pub Shows : Layout → List ℕ → ℕ → ℕ → ℕ → ℕ → ℕ → Type 0
Shows l r strong weak red green blue =
    (length r ≡ l.size)
    × (get_or r l.strong_at 0 ≡ strong)
    × (get_or r l.weak_at 0 ≡ weak)
    × (get_or r l.led_at 0 ≡ red)
    × (get_or r (l.led_at + 1) 0 ≡ green)
    × (get_or r (l.led_at + 2) 0 ≡ blue)

-- The gain and the brightness that a report uses: a value above 100 is replaced, by 100 and 80.
abbrev pub gain_of : Feedback → ℕ
gain_of fb = if ltb 100 fb.rumble_gain then 100 else fb.rumble_gain

abbrev pub brightness_of : Feedback → ℕ
brightness_of fb = if ltb 100 fb.global_led_brightness then 80 else fb.global_led_brightness

word_of_bytes :
    (w : ℕ)
    → w < 4294967296
    → u8 w + u8 (w / 256) * 256 + u8 (w / 65536) * 65536 + u8 (w / 16777216) * 16777216 ≡ w
word_of_bytes w h = omega arith

module _ (crc32 : ℕ → List ℕ → ℕ) where
  build_report-Shows :
      (t : ControllerType) (bt : Bool) (fb : Feedback)
      → t ≢ type_nsw_pro
      → (r : List ℕ) × (build_report crc32 t bt fb ≡ some r)
        × Shows
            (layout_of t bt)
            r
            fb.rumble_strong
            fb.rumble_weak
            (scale_led fb.led_r fb.global_led_brightness)
            (scale_led fb.led_g fb.global_led_brightness)
            (scale_led fb.led_b fb.global_led_brightness)
  unfolding build_report build_ds4_bt_report build_dualsense_bt_report build_ds4_usb_report
      build_dualsense_usb_report ds4_bt_body dualsense_bt_body seal
  build_report-Shows type_ds4 true fb h = (_, refl, (refl, refl, refl, refl, refl, refl))
  build_report-Shows type_ds4 false fb h = (_, refl, (refl, refl, refl, refl, refl, refl))
  build_report-Shows type_dualsense true fb h = (_, refl, (refl, refl, refl, refl, refl, refl))
  build_report-Shows type_dualsense false fb h = (_, refl, (refl, refl, refl, refl, refl, refl))
  build_report-Shows type_nsw_pro bt fb h = absurd (h refl)

  -- A connected DualShock 4 or DualSense gets one report of its size, for every content of the
  -- slot: the motors at their places, scaled by the gain, and the colour, scaled by the
  -- brightness, where a gain or brightness above 100 is replaced by its default. No scaled value
  -- is cut to eight bits.
  pub send_output_report-Shows :
      (slot : Controller)
      → slot.connected ≡ true
      → slot.type ≢ type_nsw_pro
      → IsFeedback slot.feedback
      → let fb = slot.feedback in
        (r : List ℕ) × (send_output_report crc32 slot ≡ some r)
        × Shows
            (layout_of slot.type slot.is_bluetooth)
            r
            (fb.rumble_strong * gain_of fb / 100)
            (fb.rumble_weak * gain_of fb / 100)
            (fb.led_r * brightness_of fb / 100)
            (fb.led_g * brightness_of fb / 100)
            (fb.led_b * brightness_of fb / 100)
  unfolding send_output_report sanitized scale_led
  send_output_report-Shows slot c t ok =
      let fb = slot.feedback in
      let (r, e, s) = build_report-Shows slot.type slot.is_bluetooth (sanitized fb) t in
      let motor = λ (v : ℕ) (h : v < 256). scaled_byte v fb.rumble_gain 100 h (omega arith) in
      let colour =
        λ (v : ℕ) (h : v < 256). scaled_byte v fb.global_led_brightness 80 h (omega arith) in
      (
        r,
        rw c e,
        (
          s.0,
          s.1 ∙ motor fb.rumble_strong ok.rumble_strong,
          s.2 ∙ motor fb.rumble_weak ok.rumble_weak,
          s.3 ∙ colour fb.led_r ok.led_r,
          s.4 ∙ colour fb.led_g ok.led_g,
          s.5 ∙ colour fb.led_b ok.led_b,
        ),
      )

  -- The checksum in the last four bytes of a Bluetooth report, as a number.
  abbrev pub checksum_of : List ℕ → ℕ
  checksum_of r =
      get_or r 74 0 + get_or r 75 0 * 256 + get_or r 76 0 * 65536 + get_or r 77 0 * 16777216

  module _ (small : (crc : ℕ) (bytes : List ℕ) → crc32 crc bytes < 4294967296) where
    build_report_checksum :
        (t : ControllerType) (fb : Feedback)
        → t ≢ type_nsw_pro
        → (r : List ℕ) × (build_report crc32 t true fb ≡ some r)
          × (checksum_of r ≡ crc32 (crc32 (crc32 0 []) (0xA2 ∷ [])) (take 74 r))
    unfolding build_report build_ds4_bt_report build_dualsense_bt_report ds4_bt_body
        dualsense_bt_body seal
    build_report_checksum type_ds4 fb h = (_, refl, word_of_bytes _ (small _ _))
    build_report_checksum type_dualsense fb h = (_, refl, word_of_bytes _ (small _ _))
    build_report_checksum type_nsw_pro fb h = absurd (h refl)

    -- A report over Bluetooth ends in the checksum of what stands before it: the controller, which
    -- computes the checksum over the header byte 0xA2 and the first 74 bytes that it receives,
    -- finds it in the last four, provided that crc32 returns 32 bits.
    pub send_output_report_checksum :
        (slot : Controller)
        → slot.connected ≡ true
        → slot.is_bluetooth ≡ true
        → slot.type ≢ type_nsw_pro
        → (r : List ℕ) × (send_output_report crc32 slot ≡ some r)
          × (checksum_of r ≡ crc32 (crc32 (crc32 0 []) (0xA2 ∷ [])) (take 74 r))
    unfolding send_output_report
    send_output_report_checksum slot c bt t =
        let (r, e, s) = build_report_checksum slot.type (sanitized slot.feedback) t in
        (r, rw (c, bt) e, s)
