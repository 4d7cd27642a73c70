-- ===== src/Monitor/Buttons.antt =====
-- The word of buttons of dstx/src/dbus-utils.c, read bit by bit.
use dstx.Common.{
  ℕ, zero, suc, ◌+◌, ◌*◌, ◌/◌, ◌%◌, ◌^◌, ◌≡◌, ◌∙◌, refl, ap, Bool, List, [], ◌∷◌, ◌==◌, truth,
  get_or, arith,
}
use native.Mathlib.Omega.{pow_step}
use dstx.Controller.{Controller}
use dstx.Monitor.{pack_from, pack_buttons, button_list}

-- A bit of a number.
unfoldable pub bit_set : (bit n : ℕ) → Bool
bit_set zero n = n % 2 == 1
bit_set (suc bit) n = bit_set bit (n / 2)

-- One bit further is twice the number.
double_pow : (bit : ℕ) → 2 ^ (bit + 1) ≡ 2 * 2 ^ bit
double_pow bit = ap (λ n. 2 ^ n) (omega arith) ∙ pow_step 2 bit

pack_from_shift :
    (buttons : List ℕ) (bit : ℕ) → pack_from buttons (bit + 1) ≡ 2 * pack_from buttons bit
unfolding pack_from
pack_from_shift [] bit = refl
pack_from_shift (zero ∷ buttons) bit = pack_from_shift buttons (bit + 1)
pack_from_shift (suc b ∷ buttons) bit =
    omega (arith, pack_from_shift buttons (bit + 1), double_pow bit)

-- Bits read from a list.
bit_set-pack_from :
    (buttons : List ℕ) (bit : ℕ) → bit_set bit (pack_from buttons 0) ≡ truth (get_or buttons bit 0)
unfolding bit_set pack_from
bit_set-pack_from [] zero = refl
bit_set-pack_from [] (suc bit) = bit_set-pack_from [] bit
bit_set-pack_from (zero ∷ buttons) zero = ground (arith, pack_from_shift buttons 0)
bit_set-pack_from (zero ∷ buttons) (suc bit) =
    ap (bit_set bit) (omega (arith, pack_from_shift buttons 0)) ∙ bit_set-pack_from buttons bit
bit_set-pack_from (suc b ∷ buttons) zero = ground (arith, pack_from_shift buttons 0)
bit_set-pack_from (suc b ∷ buttons) (suc bit) =
    ap (bit_set bit) (omega (arith, pack_from_shift buttons 0)) ∙ bit_set-pack_from buttons bit

-- The word of the buttons says of every button whether it is pressed, by its bit; all bits behind
-- those of the 14 buttons are clear.
pub bit_set-pack_buttons :
    (c : Controller) (bit : ℕ) → bit_set bit (pack_buttons c) ≡ truth (get_or (button_list c) bit 0)
unfolding pack_buttons
bit_set-pack_buttons c bit = bit_set-pack_from (button_list c) bit
