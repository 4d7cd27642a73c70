-- ===== src/Console/Kept.antt =====
-- What the lines of dstx/src/ui.c leave of the ranges of a slot.
use dstx.Common.{
  ℕ, ◌-◌, ◌≤◌, ◌≡◌, refl, true, false, Option, none, some, List, [], ◌∷◌, All, All-append, arith,
  drop, if_cases,
}
use dstx.Common.Int.{ℤ, pos, u8_of_ℤ, pos_part}
use dstx.Controller.{Controller, logical_btn_count}
use dstx.Controller.Config.{controller_to_slot_config}
use dstx.Bus.{BusSlot, request_switch, request_xbox}
use dstx.Bus.Written.{IsSavable}
use dstx.Text.{Word, Libc, codes, starts_with, atoi, scan_color}
use dstx.Text.Bytes.{scan_color-lt}
use dstx.Commands.{
  within, apply_sensitivity_preset_left, apply_sensitivity_preset_right, write_brightness,
  write_deadzone, write_gain,
}
use dstx.Commands.Ranges.{
  within-le, write_emulation-IsSavable, force_uhid-IsSavable, write_keybind-IsSavable,
  write_invert_ly-IsSavable, write_invert_ry-IsSavable, preset_left-IsSavable,
  preset_right-IsSavable, write_triggers-IsSavable, write_ledfx-IsSavable,
  write_brightness-IsSavable, write_deadzone-IsSavable, write_gain-IsSavable,
  write_rumble-IsSavable, write_debounce-IsSavable, write_reapply-IsSavable, write_pled-IsSavable,
}
use dstx.Console.{
  Rule, write_color, color_of, static_pled, switch_only, scan_ints, percent, sensitivity,
  keybind_of, pled, effect_of, ledfx_of, mode_rules, button_rules, switch_rules, led_rules,
  slot_rules, apply_rules, slot_line,
}

-- The numbers of an effect that a profile can hold.
unfoldable pub IsEffect : List ℤ → Type 0
IsEffect [] = Unit
IsEffect (effect ∷ []) = Unit
IsEffect (effect ∷ speed ∷ []) = (1 ≤ u8_of_ℤ speed) × (u8_of_ℤ speed ≤ 10)
IsEffect (effect ∷ speed ∷ brightness ∷ more) =
    (1 ≤ u8_of_ℤ speed) × (u8_of_ℤ speed ≤ 10) × (u8_of_ℤ brightness ≤ 100)

-- The arguments of `ledfx`, if the line is one.
abbrev pub IsTame : Libc → Word → Type 0
IsTame libc line =
    starts_with (codes "ledfx") line ≡ true → IsEffect (scan_ints libc 3 (drop 5 line))

-- A rule keeps the ranges on the lines that it fits.
IsKeeping : Libc → Rule → Type 0
IsKeeping libc r =
    (line : Word) (s : BusSlot)
    → r.fits line ≡ true
    → IsTame libc line
    → IsSavable s.slot
    → IsSavable (r.apply line s).slot

color_of-IsSavable :
    (libc : Libc) (a : Word) (o : Option (ℕ × ℕ × ℕ))
    → scan_color libc a ≡ o
    → (s : BusSlot) → IsSavable s.slot
    → IsSavable (color_of o s).slot
unfolding color_of write_color IsSavable controller_to_slot_config u8_of_ℤ
color_of-IsSavable libc a none e s h = h
color_of-IsSavable libc a (some (r, g, b)) e s h =
    let lt = scan_color-lt libc a r g b e in ground (arith, lt)

static_pled-IsSavable :
    (mode : ℤ) (c : Controller)
    → within 5 mode ≡ true
    → IsSavable c
    → IsSavable (static_pled mode c)
unfolding static_pled IsSavable controller_to_slot_config
static_pled-IsSavable mode c e h = write_pled-IsSavable c h mode e

switch_only-IsSavable :
    (f : BusSlot → BusSlot) (s : BusSlot)
    → IsSavable s.slot
    → IsSavable (f s).slot
    → IsSavable (switch_only f s).slot
unfolding switch_only
switch_only-IsSavable f s h k = ground arith

module _ (libc : Libc) (s : BusSlot) (h : IsSavable s.slot) where
  percent-IsSavable :
      (f : ℤ → Controller → Controller) (arg : Word)
      → ((v : ℤ) → within 100 v ≡ true → IsSavable (f v s.slot))
      → IsSavable (percent libc f arg s).slot
  unfolding percent
  percent-IsSavable f arg kept = ground (arith, kept (atoi libc arg))

  sensitivity-IsSavable :
      (f : ℤ → Controller → Controller) (arg : Word)
      → ((v : ℤ) → IsSavable (f v s.slot))
      → IsSavable (sensitivity libc f arg s).slot
  unfolding sensitivity
  sensitivity-IsSavable f arg kept = ground (arith, kept (atoi libc arg))

  keybind_of-IsSavable : (values : List ℤ) → IsSavable (keybind_of libc values s).slot
  unfolding keybind_of
  keybind_of-IsSavable [] = h
  keybind_of-IsSavable (p ∷ []) = h
  keybind_of-IsSavable (p ∷ l ∷ []) = ground (
    arith,
    within-le (logical_btn_count - 1) l,
    write_keybind-IsSavable s.slot h (pos_part p) (pos_part l),
  )
  keybind_of-IsSavable (p ∷ l ∷ v ∷ values) = h

  pled-IsSavable : (arg : Word) → IsSavable (pled libc arg s).slot
  unfolding pled
  pled-IsSavable arg = ground (arith, static_pled-IsSavable (atoi libc arg) s.slot)

  effect_of-IsSavable :
      (effect speed brightness : ℤ)
      → 1 ≤ u8_of_ℤ speed
      → u8_of_ℤ speed ≤ 10
      → u8_of_ℤ brightness ≤ 100
      → IsSavable (effect_of libc effect speed brightness s).slot
  unfolding effect_of
  effect_of-IsSavable effect speed brightness low high top =
      ground (arith, write_ledfx-IsSavable s.slot h effect (u8_of_ℤ speed) (u8_of_ℤ brightness))

  ledfx_of-IsSavable : (values : List ℤ) → IsEffect values → IsSavable (ledfx_of libc values s).slot
  unfolding ledfx_of IsEffect u8_of_ℤ
  ledfx_of-IsSavable [] e = h
  ledfx_of-IsSavable (effect ∷ []) e =
      effect_of-IsSavable effect (pos 5) (pos 80) (omega arith) (omega arith) (omega arith)
  ledfx_of-IsSavable (effect ∷ speed ∷ []) e =
      effect_of-IsSavable effect speed (pos 80) e.0 e.1 (omega arith)
  ledfx_of-IsSavable (effect ∷ speed ∷ brightness ∷ more) e =
      effect_of-IsSavable effect speed brightness e.0 e.1 e.2

module _ (libc : Libc) where
  mode_rules-IsKeeping : All (IsKeeping libc) (mode_rules libc)
  unfolding mode_rules IsKeeping
  mode_rules-IsKeeping = (
    (λ line s e tame h. force_uhid-IsSavable s.slot h true),
    (
      (λ line s e tame h. force_uhid-IsSavable s.slot h false),
      (
        (λ line s e tame h. write_invert_ly-IsSavable s.slot h true),
        (
          (λ line s e tame h. write_invert_ly-IsSavable s.slot h false),
          (
            (λ line s e tame h. write_invert_ry-IsSavable s.slot h true),
            (
              (λ line s e tame h. write_invert_ry-IsSavable s.slot h false),
              (
                (λ line s e tame h. h),
                (
                  (λ line s e tame h. write_triggers-IsSavable s.slot h true),
                  (
                    (λ line s e tame h. write_triggers-IsSavable s.slot h false),
                    ((λ line s e tame h. h), tt),
                  ),
                ),
              ),
            ),
          ),
        ),
      ),
    ),
  )

  button_rules-IsKeeping : All (IsKeeping libc) (button_rules libc)
  unfolding button_rules IsKeeping
  button_rules-IsKeeping = (
    (λ line s e tame h.
        sensitivity-IsSavable libc s h apply_sensitivity_preset_left (drop 17 line)
          (preset_left-IsSavable s.slot h)),
    (
      (λ line s e tame h.
          sensitivity-IsSavable libc s h apply_sensitivity_preset_right (drop 18 line)
            (preset_right-IsSavable s.slot h)),
      (
        (λ line s e tame h. h),
        (
          (λ line s e tame h. h),
          (
            (λ line s e tame h. switch_only-IsSavable request_switch s h h),
            (
              (λ line s e tame h. switch_only-IsSavable request_xbox s h h),
              (
                (λ line s e tame h. h),
                (
                  (λ line s e tame h. h),
                  (
                    (λ line s e tame h.
                        keybind_of-IsSavable libc s h (scan_ints libc 2 (drop 8 line))),
                    tt,
                  ),
                ),
              ),
            ),
          ),
        ),
      ),
    ),
  )

  switch_rules-IsKeeping : All (IsKeeping libc) (switch_rules libc)
  unfolding switch_rules IsKeeping
  switch_rules-IsKeeping = (
    (λ line s e tame h. write_emulation-IsSavable s.slot h true),
    (
      (λ line s e tame h. write_emulation-IsSavable s.slot h false),
      (
        (λ line s e tame h. write_debounce-IsSavable s.slot h true),
        (
          (λ line s e tame h. write_debounce-IsSavable s.slot h false),
          (
            (λ line s e tame h. write_rumble-IsSavable s.slot h true),
            (
              (λ line s e tame h. write_rumble-IsSavable s.slot h false),
              (
                (λ line s e tame h. h),
                (
                  (λ line s e tame h.
                      percent-IsSavable libc s h write_gain (drop 5 line)
                        (write_gain-IsSavable s.slot h)),
                  (
                    (λ line s e tame h.
                        percent-IsSavable libc s h write_deadzone (drop 9 line)
                          (write_deadzone-IsSavable s.slot h)),
                    (
                      (λ line s e tame h. write_reapply-IsSavable s.slot h true),
                      (
                        (λ line s e tame h. write_reapply-IsSavable s.slot h false),
                        ((λ line s e tame h. h), tt),
                      ),
                    ),
                  ),
                ),
              ),
            ),
          ),
        ),
      ),
    ),
  )

  led_rules-IsKeeping : All (IsKeeping libc) (led_rules libc)
  unfolding led_rules IsKeeping
  led_rules-IsKeeping = (
    (λ line s e tame h. pled-IsSavable libc s h (drop 5 line)),
    (
      (λ line s e tame h.
          color_of-IsSavable libc (drop 6 line) (scan_color libc (drop 6 line)) refl s h),
      (
        (λ line s e tame h. color_of-IsSavable libc line (scan_color libc line) refl s h),
        (
          (λ line s e tame h.
              ledfx_of-IsSavable libc s h (scan_ints libc 3 (drop 5 line)) (tame e)),
          (
            (λ line s e tame h.
                percent-IsSavable libc s h write_brightness (drop 11 line)
                  (write_brightness-IsSavable s.slot h)),
            tt,
          ),
        ),
      ),
    ),
  )

  slot_rules-IsKeeping : All (IsKeeping libc) (slot_rules libc)
  unfolding slot_rules
  slot_rules-IsKeeping = All-append (IsKeeping libc) (mode_rules libc) _ mode_rules-IsKeeping (
      All-append (IsKeeping libc) (button_rules libc) _ button_rules-IsKeeping (
        All-append (IsKeeping libc) (switch_rules libc) _ switch_rules-IsKeeping
          led_rules-IsKeeping))

apply_rules-IsSavable :
    (libc : Libc) (rules : List Rule) (line : Word) (s : BusSlot)
    → All (IsKeeping libc) rules
    → IsTame libc line
    → IsSavable s.slot
    → IsSavable (apply_rules rules line s).slot
unfolding apply_rules IsKeeping
apply_rules-IsSavable libc [] line s all tame h = h
apply_rules-IsSavable libc (r ∷ rules) line s all tame h =
    if_cases (λ (x : BusSlot). IsSavable x.slot) (r.fits line) (λ e. all.0 line s e tame h)
      (λ e. apply_rules-IsSavable libc rules line s all.1 tame h)

-- A line of the terminal interface keeps the configuration of the slot in range, if it is not
-- `ledfx` with a speed or a brightness that is out of range as a byte.
pub slot_line-IsSavable :
    (libc : Libc) (line : Word) (s : BusSlot)
    → IsTame libc line
    → IsSavable s.slot
    → IsSavable (slot_line libc line s).slot
unfolding slot_line
slot_line-IsSavable libc line s tame h =
    apply_rules-IsSavable libc (slot_rules libc) line s (slot_rules-IsKeeping libc) tame h
