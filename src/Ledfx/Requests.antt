-- ===== src/Ledfx/Requests.antt =====
-- What the requests for LED effects leave in the table of the slots.
use dstx.Common.{
  ℕ, ◌≤◌, ◌<◌, ◌≡◌, refl, Bool, true, false, Bool-cases, inl, inr, if_cases, ◌≢◌, ltb, ◌&&◌, ◌||◌,
  not, ◌==◌, List, [], ◌∷◌, All, arith,
}
use dstx.Common.Int.{ℤ, pos, negsuc}
use dstx.Controller.{Controller, Timeval}
use dstx.AxisSystem.{Float}
use dstx.Ledfx.{
  Colour, LedSlotState, valid_speed, valid_brightness, request_static, request_effect,
  serve_request, process_request, ledfx_process_requests, rate_limited, ledfx_update_slot,
  effect_button, any_button_pressed,
}

valid_speed-range : (n : ℕ) → (1 ≤ valid_speed n) × (valid_speed n ≤ 10)
unfolding valid_speed
valid_speed-range n = ground arith

valid_brightness-range : (n : ℕ) → (1 ≤ valid_brightness n) × (valid_brightness n ≤ 100)
unfolding valid_brightness
valid_brightness-range n = ground arith

unheld :
    (down static active limited same : Bool)
    → (not down || static || not active || limited || same) ≡ false
    → (active ≡ true) × (same ≡ false)
unheld down static active limited same h = ground arith

clash : (b : Bool) → b ≡ true → b ≡ false → ⊥
clash b h k = cc

module _ (dbl : Float) where
  -- The mode is static exactly while no effect runs, the effect is an index into the table of
  -- effects, and speed and brightness lie in their ranges.
  pub record IsAnimated (entry : Controller × LedSlotState dbl) : Type 0 where
    pub mode : entry.0.led_request.led_static ≡ not entry.1.active
    pub effect : entry.1.current_effect < 9
    pub speed : (1 ≤ entry.1.speed) × (entry.1.speed ≤ 10)
    pub brightness : (1 ≤ entry.1.brightness) × (entry.1.brightness ≤ 100)

  serve_request-IsAnimated :
      (now_sec : dbl.F) (now : Timeval) (effect : ℤ) (speed brightness : ℕ) (slot : Controller)
      (state : LedSlotState dbl)
      → IsAnimated (slot, state)
      → IsAnimated (serve_request dbl now_sec now effect speed brightness slot state)
  unfolding serve_request request_static request_effect
  serve_request-IsAnimated now_sec now (negsuc n) speed brightness slot state h = h
  serve_request-IsAnimated now_sec now (pos effect) speed brightness slot state h =
      elim (Bool-cases (effect == 0)) [
        | inl e ↦
            rw e (record {
              mode = refl;
              effect = h.effect;
              speed = h.speed;
              brightness = h.brightness;
            })
        | inr e ↦ rw e (elim (Bool-cases (ltb effect 9)) [
          | inl f ↦ rw f (record {
            mode = refl;
            effect = ground arith;
            speed = valid_speed-range speed;
            brightness = valid_brightness-range brightness;
          })
          | inr f ↦ rw f h
        ])
      ]

  process_request-IsAnimated :
      (now_sec : dbl.F) (now : Timeval) (entry : Controller × LedSlotState dbl)
      → IsAnimated entry
      → IsAnimated (process_request dbl now_sec now entry)
  unfolding process_request
  process_request-IsAnimated now_sec now (slot, state) h =
      if_cases IsAnimated (not slot.connected) (λ down. h)
        (λ up.
          if_cases IsAnimated slot.led_request.led_request_pending
            (λ pending.
              serve_request-IsAnimated now_sec now slot.led_request.led_request_effect
                slot.led_request.led_request_speed slot.led_request.led_request_brightness _ state
                (record {
                  mode = h.mode;
                  effect = h.effect;
                  speed = h.speed;
                  brightness = h.brightness;
                }))
            (λ none. h))

  -- The table of the slots stays animated over a round of requests, whatever was asked for.
  pub ledfx_process_requests-All-IsAnimated :
      (now_sec : dbl.F) (now : Timeval) (slots : List (Controller × LedSlotState dbl))
      → All IsAnimated slots
      → All IsAnimated (ledfx_process_requests dbl now_sec now slots)
  unfolding ledfx_process_requests
  ledfx_process_requests-All-IsAnimated now_sec now [] h = tt
  ledfx_process_requests-All-IsAnimated now_sec now (entry ∷ slots) h = (
    process_request-IsAnimated now_sec now entry h.0,
    ledfx_process_requests-All-IsAnimated now_sec now slots h.1,
  )

  same_colour : (c d : Colour) → c ≡ d → (c.r == d.r && c.g == d.g && c.b == d.b) ≡ true
  same_colour c d e = ground arith

  -- The result of a frame: an animated slot, and if a frame is shown, an effect runs, the frame
  -- differs from the last one, and a report of it is asked for.
  abbrev pub IsFrame : Colour → LedSlotState dbl → (Controller × LedSlotState dbl) × Bool → Type 0
  IsFrame frame state updated =
      IsAnimated updated.0
      × (updated.1 ≡ true
          → (state.active ≡ true)
            × (frame ≢ state.last_colour)
            × (updated.0.1.last_colour ≡ frame)
            × (updated.0.0.feedback.led_r ≡ frame.r)
            × (updated.0.0.feedback.led_g ≡ frame.g)
            × (updated.0.0.feedback.led_b ≡ frame.b)
            × (updated.0.0.feedback.led_dirty ≡ true))

  -- Every frame, of any colour and at any time, keeps the slot animated. If it is shown, an effect
  -- runs, the frame differs from the last one and is kept as the last one, the slot holds its colour,
  -- and a report is asked for.
  pub ledfx_update_slot-IsFrame :
      (now : Timeval) (frame : Colour) (slot : Controller) (state : LedSlotState dbl)
      → IsAnimated (slot, state)
      → IsFrame frame state (ledfx_update_slot dbl now frame slot state)
  unfolding ledfx_update_slot
  ledfx_update_slot-IsFrame now frame slot state h =
      if_cases (IsFrame frame state) _ (λ held. (h, λ e. absurd (clash false e refl)))
        (λ shown.
          let last = state.last_colour in
          let same = frame.r == last.r && frame.g == last.g && frame.b == last.b in
          let test =
            unheld slot.connected slot.led_request.led_static state.active
              (rate_limited dbl now state) same shown in
          (
            record { mode = h.mode; effect = h.effect; speed = h.speed; brightness = h.brightness },
            λ e. (
              test.0,
              λ equal. absurd (clash same (same_colour frame last equal) test.1),
              refl,
              refl,
              refl,
              refl,
              refl,
            ),
          ))

-- The D-pad does not light effect_button: the colour is the same whatever its four directions are.
pub effect_button-dpad :
    (flt : Float) (brightness up down left right : ℕ) (slot : Controller)
    → effect_button flt brightness (record slot {
      buttons = record (slot.buttons) {
        dpad_up = up;
        dpad_down = down;
        dpad_left = left;
        dpad_right = right;
      };
    })
      ≡ effect_button flt brightness slot
unfolding effect_button any_button_pressed
effect_button-dpad flt brightness up down left right slot = refl
