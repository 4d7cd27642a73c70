-- ===== src/Output.antt =====
-- dstx/src/output.c: the output reports of DualShock 4 and DualSense. A report is the list of
-- its bytes; crc32 of zlib is a parameter, which takes the running value and the bytes.
pub mod Reports
use dstx.Common.{
  ℕ, ◌+◌, ◌*◌, ◌/◌, ◌%◌, Bool, true, false, Option, none, some, List, [], ◌∷◌, ◌++◌, ltb, ◌||◌, u8,
  ◌==◌, if◌then◌else◌, get_or, set, take, replicate,
}
use dstx.Controller.{Controller, ControllerType, Feedback, type_ds4, type_dualsense, type_nsw_pro}

-- The table of player_leds_to_byte, with its guard.
unfoldable pub player_leds_to_byte : ℕ → ℕ
player_leds_to_byte mode =
    if ltb 5 mode then 0x00 else get_or (0x00 ∷ 0x04 ∷ 0x06 ∷ 0x15 ∷ 0x1B ∷ 0x1F ∷ []) mode 0

-- (uint16_t)value * brightness / 100, returned as a uint8_t. The product is below 2 ^ 16.
unfoldable pub scale_led : ℕ → ℕ → ℕ
scale_led value brightness = u8 (value * brightness / 100)

-- The value of a uint8_t if it lies in the range, and the default if not.
unfoldable pub clamp_u8 : ℕ → ℕ → ℕ → ℕ → ℕ
clamp_u8 val lo hi def = if ltb val lo || ltb hi val then def else val

-- A byte stored at each of a list of positions, in order.
abbrev pub write_all : List ℕ → List (ℕ × ℕ) → List ℕ
write_all report [] = report
write_all report ((i, v) ∷ rest) = write_all (set report i v) rest

-- The four bytes of a uint32_t as memcpy stores them, the lowest first.
abbrev pub le_bytes : ℕ → List ℕ
le_bytes w = u8 w ∷ u8 (w / 256) ∷ u8 (w / 65536) ∷ u8 (w / 16777216) ∷ []

abbrev led_bytes : ℕ → Feedback → List (ℕ × ℕ)
led_bytes at fb =
    (at, scale_led fb.led_r fb.global_led_brightness)
    ∷ (at + 1, scale_led fb.led_g fb.global_led_brightness)
    ∷ (at + 2, scale_led fb.led_b fb.global_led_brightness)
    ∷ []

unfoldable pub build_ds4_usb_report : Feedback → List ℕ
build_ds4_usb_report fb = write_all (replicate 32 0) (
    (0, 0x05) ∷ (1, 0x07) ∷ (2, 0x00) ∷ (4, fb.rumble_strong) ∷ (5, fb.rumble_weak) ∷ led_bytes 6 fb
    ++ (9, 0x00) ∷ (10, 0x00) ∷ [])

unfoldable pub build_dualsense_usb_report : Feedback → List ℕ
build_dualsense_usb_report fb = write_all (replicate 48 0) (
    (0, 0x02)
    ∷ (1, 0x13)
    ∷ (2, 0x17)
    ∷ (3, fb.rumble_weak)
    ∷ (4, fb.rumble_strong)
    ∷ (40, 0x02)
    ∷ (42, 0x00)
    ∷ (44, player_leds_to_byte fb.player_leds)
    ∷ led_bytes 45 fb)

-- What the Bluetooth reports hold before the checksum.
unfoldable pub ds4_bt_body : Feedback → List ℕ
ds4_bt_body fb = write_all (replicate 78 0) (
    (0, 0x11)
    ∷ (1, 0x80)
    ∷ (3, 0x03)
    ∷ (6, fb.rumble_weak)
    ∷ (7, fb.rumble_strong)
    ∷ led_bytes 8 fb)

unfoldable pub dualsense_bt_body : Feedback → List ℕ
dualsense_bt_body fb = write_all (replicate 78 0) (
    (0, 0x31)
    ∷ (1, 0x02)
    ∷ (2, 0x13)
    ∷ (3, 0x17)
    ∷ (4, fb.rumble_weak)
    ∷ (5, fb.rumble_strong)
    ∷ (41, 0x02)
    ∷ (44, 0x00)
    ∷ (45, player_leds_to_byte fb.player_leds)
    ∷ led_bytes 46 fb)

-- The copy of the slot from which send_output_report builds, its values brought into range.
unfoldable pub sanitized : Feedback → Feedback
sanitized fb =
    let gain = clamp_u8 fb.rumble_gain 0 100 100 in
    record fb {
      rumble_strong = u8 (fb.rumble_strong * gain / 100);
      rumble_weak = u8 (fb.rumble_weak * gain / 100);
      global_led_brightness = clamp_u8 fb.global_led_brightness 0 100 80;
      player_leds = clamp_u8 fb.player_leds 0 5 0;
    }

module _ (crc32 : ℕ → List ℕ → ℕ) where
  -- The checksum of the Bluetooth header byte and the first 74 bytes, stored behind them.
  unfoldable pub seal : List ℕ → List ℕ
  seal report =
      let crc = crc32 0 [] in
      let crc = crc32 crc (0xA2 ∷ []) in
      let crc = crc32 crc (take 74 report) in take 74 report ++ le_bytes crc

  unfoldable pub build_ds4_bt_report : Feedback → List ℕ
  build_ds4_bt_report fb = seal (ds4_bt_body fb)

  unfoldable pub build_dualsense_bt_report : Feedback → List ℕ
  build_dualsense_bt_report fb = seal (dualsense_bt_body fb)

  unfoldable pub build_report : ControllerType → Bool → Feedback → Option (List ℕ)
  build_report type_ds4 true fb = some (build_ds4_bt_report fb)
  build_report type_ds4 false fb = some (build_ds4_usb_report fb)
  build_report type_dualsense true fb = some (build_dualsense_bt_report fb)
  build_report type_dualsense false fb = some (build_dualsense_usb_report fb)
  build_report type_nsw_pro bt fb = none

  -- The report that is written to the device, if one is; the descriptor is valid.
  unfoldable pub send_output_report : Controller → Option (List ℕ)
  send_output_report slot =
      if slot.connected
      then build_report slot.type slot.is_bluetooth (sanitized slot.feedback)
      else none
