-- ===== src/Keys/Apply.antt =====
-- What keys_apply_map makes of a keymap and the state of the physical buttons.
use dstx.Common.{
  ℕ, zero, suc, ◌+◌, ◌≤◌, ◌<◌, ◌≡◌, ◌↔◌, ◌⊎◌, inl, inr, refl, true, List, ◌==◌, if◌then◌else◌,
  get_or, arith, truth,
}
use native.Mathlib.Decide.{ℕ_discrete}
use dstx.Controller.{Buttons, Controller, phy_btn_count}
use dstx.Keys.{press, apply_button, apply_loop, keys_apply_map, no_buttons}

-- `logical_button_t` without NONE: its number, and its field of the struct.
pub data LogicalButton : Type 0 where
  cross circle square triangle l1 r1 l2 r2 share options l3 r3 ps touch : LogicalButton
  dpad_up dpad_down dpad_left dpad_right : LogicalButton

abbrev pub code : LogicalButton → ℕ
code cross = 1
code circle = 2
code square = 3
code triangle = 4
code l1 = 5
code r1 = 6
code l2 = 7
code r2 = 8
code share = 9
code options = 10
code l3 = 11
code r3 = 12
code ps = 13
code touch = 14
code dpad_up = 15
code dpad_down = 16
code dpad_left = 17
code dpad_right = 18

abbrev pub button : LogicalButton → Buttons → ℕ
button cross b = b.cross
button circle b = b.circle
button square b = b.square
button triangle b = b.triangle
button l1 b = b.l1
button r1 b = b.r1
button l2 b = b.l2
button r2 b = b.r2
button share b = b.share
button options b = b.options
button l3 b = b.l3
button r3 b = b.r3
button ps b = b.ps
button touch b = b.touch_btn
button dpad_up b = b.dpad_up
button dpad_down b = b.dpad_down
button dpad_left b = b.dpad_left
button dpad_right b = b.dpad_right

button-press :
    (l : LogicalButton) (n : ℕ) (b : Buttons)
    → button l (press n b) ≡ (if n == code l then 1 else button l b)
unfolding press
button-press cross n b = refl
button-press _ n b = refl

pub code_bounds : (l : LogicalButton) → (1 ≤ code l) × (code l ≤ 18)
code_bounds cross = omega arith
code_bounds _ = omega arith

-- The physical button `phy` is down and mapped to `l`.
pub record Presses (keymap raw : List ℕ) (l : LogicalButton) (phy : ℕ) : Type 0 where
  pub down : truth (get_or raw phy 0) ≡ true
  pub mapped : get_or keymap phy 0 ≡ code l

module _ (keymap raw : List ℕ) (l : LogicalButton) where
  hit :
      (phy : ℕ) (b : Buttons)
      → Presses keymap raw l phy
      → button l (apply_button keymap raw phy b) ≡ 1
  unfolding apply_button
  hit phy b p = ground (arith, code_bounds l, button-press l (get_or keymap phy 0) b)

  keep : (phy : ℕ) (b : Buttons) → button l b ≡ 1 → button l (apply_button keymap raw phy b) ≡ 1
  unfolding apply_button
  keep phy b h = ground (arith, button-press l (get_or keymap phy 0) b)

  bounded : (phy : ℕ) (b : Buttons) → button l b ≤ 1 → button l (apply_button keymap raw phy b) ≤ 1
  unfolding apply_button
  bounded phy b h = ground (arith, button-press l (get_or keymap phy 0) b)

  reason :
      (phy : ℕ) (b : Buttons)
      → button l (apply_button keymap raw phy b) ≡ 1
      → Presses keymap raw l phy ⊎ (button l b ≡ 1)
  unfolding apply_button
  reason phy b h = ground (arith, button-press l (get_or keymap phy 0) b)

  loop_keep :
      (left phy : ℕ) (b : Buttons)
      → button l b ≡ 1
      → button l (apply_loop keymap raw left phy b) ≡ 1
  unfolding apply_loop
  loop_keep zero phy b h = h
  loop_keep (suc left) phy b h =
      loop_keep left (phy + 1) (apply_button keymap raw phy b) (keep phy b h)

  loop_bounded :
      (left phy : ℕ) (b : Buttons)
      → button l b ≤ 1
      → button l (apply_loop keymap raw left phy b) ≤ 1
  unfolding apply_loop
  loop_bounded zero phy b h = h
  loop_bounded (suc left) phy b h =
      loop_bounded left (phy + 1) (apply_button keymap raw phy b) (bounded phy b h)

  loop_hit :
      (left phy p : ℕ) (b : Buttons)
      → phy ≤ p
      → p < phy + left
      → Presses keymap raw l p
      → button l (apply_loop keymap raw left phy b) ≡ 1
  unfolding apply_loop
  loop_hit zero phy p b h k e = absurd (omega arith)
  loop_hit (suc left) phy p b h k e = elim (ℕ_discrete phy p) [
    | yes q ↦ loop_keep left (phy + 1) (apply_button keymap raw phy b) (hit phy b (rw q e))
    | no q ↦ loop_hit left (phy + 1) p (apply_button keymap raw phy b) (omega arith) (omega arith) e
  ]

  abbrev Pressed : ℕ → ℕ → Type 0
  Pressed from to = (p : ℕ) × (from ≤ p) × (p < to) × Presses keymap raw l p

  loop_reason :
      (left phy : ℕ) (b : Buttons)
      → button l (apply_loop keymap raw left phy b) ≡ 1
      → Pressed phy (phy + left) ⊎ (button l b ≡ 1)
  unfolding apply_loop
  loop_reason zero phy b h = inr h
  loop_reason (suc left) phy b h =
      elim (loop_reason left (phy + 1) (apply_button keymap raw phy b) h) [
        | inl (p, lo, hi, e) ↦ inl (p, omega arith, omega arith, e)
        | inr q ↦ elim (reason phy b q) [
          | inl e ↦ inl (phy, omega arith, omega arith, e)
          | inr s ↦ inr s
        ]
      ]

no_button : (l : LogicalButton) → button l no_buttons ≡ 0
no_button cross = refl
no_button _ = refl

-- After keys_apply_map, and whatever the keymap and the raw states hold, each logical button is
-- 0 or 1, and it is 1 exactly when some physical button is down and mapped to it.
pub keys_apply_map-button :
    (slot : Controller) (keymap raw : List ℕ) (l : LogicalButton)
    → (button l (keys_apply_map slot keymap raw).buttons ≤ 1)
      × ((button l (keys_apply_map slot keymap raw).buttons ≡ 1)
          ↔ ((phy : ℕ) × (phy < phy_btn_count) × Presses keymap raw l phy))
unfolding keys_apply_map
keys_apply_map-button slot keymap raw l = (
  loop_bounded keymap raw l 18 0 no_buttons (omega (arith, no_button l)),
  (
    λ h. elim (loop_reason keymap raw l 18 0 no_buttons h) [
      | inl (p, lo, hi, e) ↦ (p, omega arith, e)
      | inr z ↦ absurd (omega (arith, no_button l))
    ],
    λ (p, hi, e). loop_hit keymap raw l 18 0 p no_buttons (omega arith) (omega arith) e,
  ),
)
