-- ===== src/Ledfx.antt =====
-- dstx/src/led.c: the LED effects of the slots, their requests and their frames. Times in seconds
-- are a `double`, which is a parameter; a frame's colour comes from the effect's function.
pub mod Requests
use dstx.Common.{
  ℕ, Bool, true, false, ltb, leb, ◌&&◌, ◌||◌, not, ◌==◌, if◌then◌else◌, List, map, truth,
}
use dstx.Common.Int.{ℤ, pos, negsuc, ltb_ℤ, pos_part, u8_of_ℤ}
use dstx.Controller.{Controller, Feedback, LedRequest, Buttons, Timeval, elapsed_us}
use dstx.AxisSystem.{Float}

-- Entries of `led_effect_t` that the code names on its own.
abbrev pub ledfx_static : ℕ
ledfx_static = 0

abbrev pub ledfx_trigger : ℕ
ledfx_trigger = 7

abbrev pub ledfx_button_press : ℕ
ledfx_button_press = 8

abbrev pub ledfx_count : ℕ
ledfx_count = 9

-- The three bytes of a colour.
pub record Colour : Type 0 where
  pub r : ℕ
  pub g : ℕ
  pub b : ℕ

abbrev pub black : Colour
black = record { r = 0; g = 0; b = 0 }

-- led_slot_state_t, with `last_r`, `last_g` and `last_b` as one colour.
pub record LedSlotState (dbl : Float) : Type 0 where
  pub current_effect : ℕ
  pub start_time : dbl.F
  pub speed : ℕ
  pub brightness : ℕ
  pub active : Bool
  pub last_write : Timeval
  pub last_colour : Colour

abbrev pub show : Colour → Controller → Controller
show c slot = record slot {
  feedback = record (slot.feedback) { led_r = c.r; led_g = c.g; led_b = c.b; led_dirty = true };
}

-- What the requests of speed and brightness are brought to.
unfoldable pub valid_speed : ℕ → ℕ
valid_speed speed = if ltb speed 1 || ltb 10 speed then 5 else speed

unfoldable pub valid_brightness : ℕ → ℕ
valid_brightness brightness = if ltb brightness 1 || ltb 100 brightness then 80 else brightness

-- Whether effect_button shows its colour; the D-pad is not among the buttons that it reads.
unfoldable pub any_button_pressed : Buttons → Bool
any_button_pressed b =
    truth b.cross
    || truth b.circle
    || truth b.square
    || truth b.triangle
    || truth b.l1
    || truth b.r1
    || truth b.l2
    || truth b.r2
    || truth b.share
    || truth b.options
    || truth b.ps
    || truth b.l3
    || truth b.r3
    || truth b.touch_btn

-- The larger of the two triggers, as effect_trigger reads them.
unfoldable pub max_trigger : ℤ → ℤ → ℕ
max_trigger lt rt =
    let l = if ltb_ℤ (pos 0) lt then pos_part lt else 0 in
    let r = if ltb_ℤ (pos 0) rt then pos_part rt else 0 in if ltb r l then l else r

-- The effects that do not depend on the phase, over `float`.
module _ (flt : Float) where
  open flt use {F, lit, of_int, to_int, mul, div}

  abbrev pub scaled : Feedback → F → Colour
  scaled fb factor = record {
    r = u8_of_ℤ (to_int (mul (of_int (pos fb.led_base_r)) factor));
    g = u8_of_ℤ (to_int (mul (of_int (pos fb.led_base_g)) factor));
    b = u8_of_ℤ (to_int (mul (of_int (pos fb.led_base_b)) factor));
  }

  unfoldable pub effect_static : ℕ → Controller → Colour
  effect_static brightness slot = scaled slot.feedback (div (of_int (pos brightness)) (lit 100 1))

  unfoldable pub effect_trigger : ℕ → Controller → Colour
  effect_trigger brightness slot =
      let pressed = max_trigger slot.axes.lt slot.axes.rt in
      let factor = div (of_int (pos brightness)) (lit 100 1) in
      let intensity = mul (div (of_int (pos pressed)) (lit 255 1)) factor in
      if ltb 0 pressed then scaled slot.feedback intensity else black

  unfoldable pub effect_button : ℕ → Controller → Colour
  effect_button brightness slot =
      if any_button_pressed slot.buttons
      then scaled slot.feedback (div (of_int (pos brightness)) (lit 100 1))
      else black

module _ (dbl : Float) where
  -- An entry as ledfx_init sets it.
  unfoldable pub initial_state : LedSlotState dbl
  initial_state = record {
    current_effect = ledfx_static;
    start_time = dbl.lit 0 1;
    speed = 5;
    brightness = 80;
    active = false;
    last_write = record { sec = 0; usec = 0 };
    last_colour = black;
  }

  -- Static mode: the base colour.
  unfoldable pub request_static : Controller → LedSlotState dbl → Controller × LedSlotState dbl
  request_static slot state =
      let fb = slot.feedback in
      let base : Colour = record { r = fb.led_base_r; g = fb.led_base_g; b = fb.led_base_b } in
      let shown = show base slot in
      (
        record shown { led_request = record (slot.led_request) { led_static = true } },
        record state { active = false },
      )

  -- The start of an effect. The two that answer to the player start black.
  unfoldable pub request_effect :
      dbl.F → Timeval → ℕ → ℕ → ℕ → Controller → LedSlotState dbl → Controller × LedSlotState dbl
  request_effect now_sec now effect speed brightness slot state =
      let fb = slot.feedback in
      let kept : Colour = record { r = fb.led_r; g = fb.led_g; b = fb.led_b } in
      let starts_black = effect == ledfx_trigger || effect == ledfx_button_press in
      let shown = show (if starts_black then black else kept) slot in
      (
        record shown { led_request = record (slot.led_request) { led_static = false } },
        record {
          current_effect = effect;
          start_time = now_sec;
          speed = speed;
          brightness = brightness;
          active = true;
          last_write = now;
          last_colour = black;
        },
      )

  -- A request for effect 0, for one of the other effects, or for none that exists.
  unfoldable pub serve_request :
      dbl.F → Timeval → ℤ → ℕ → ℕ → Controller → LedSlotState dbl → Controller × LedSlotState dbl
  serve_request now_sec now (negsuc n) speed brightness slot state = (slot, state)
  serve_request now_sec now (pos effect) speed brightness slot state =
      if effect == 0
      then request_static slot state
      else if ltb effect ledfx_count
      then request_effect now_sec now effect (valid_speed speed) (valid_brightness brightness) slot
          state
      else (slot, state)

  -- The body of ledfx_process_requests, for one slot.
  unfoldable pub process_request :
      dbl.F → Timeval → Controller × LedSlotState dbl → Controller × LedSlotState dbl
  process_request now_sec now (slot, state) =
      let request = slot.led_request in
      let taken = record slot { led_request = record request { led_request_pending = false } } in
      if not slot.connected
      then (slot, state)
      else if request.led_request_pending
      then serve_request now_sec now request.led_request_effect request.led_request_speed
          request.led_request_brightness taken state
      else (slot, state)

  unfoldable pub ledfx_process_requests :
      dbl.F → Timeval → List (Controller × LedSlotState dbl) → List (Controller × LedSlotState dbl)
  ledfx_process_requests now_sec now slots = map (process_request now_sec now) slots

  -- A frame within 8 ms of the last write, unless that is the first one or the last colour is black.
  abbrev pub rate_limited : Timeval → LedSlotState dbl → Bool
  rate_limited now state =
      let last = state.last_colour in
      let is_first_frame = state.last_write.sec == 0 && state.last_write.usec == 0 in
      let cache_reset = last.r == 0 && last.g == 0 && last.b == 0 in
      not is_first_frame && not cache_reset && ltb_ℤ (elapsed_us now state.last_write) (pos 8000)

  -- ledfx_update_slot, for a slot of the table: `frame` is the colour that the function of the
  -- current effect computes.
  unfoldable pub ledfx_update_slot :
      Timeval → Colour → Controller → LedSlotState dbl → (Controller × LedSlotState dbl) × Bool
  ledfx_update_slot now frame slot state =
      let last = state.last_colour in
      let same = frame.r == last.r && frame.g == last.g && frame.b == last.b in
      if not slot.connected
        || slot.led_request.led_static
        || not state.active
        || rate_limited now state
        || same
      then ((slot, state), false)
      else ((show frame slot, record state { last_colour = frame; last_write = now }), true)
