-- ===== src/Text/Numerals.antt =====
-- Numerals: what atoi gives for a text of digits.
use dstx.Common.{
  ℕ, ◌+◌, ◌-◌, ◌*◌, ◌<◌, ◌≡◌, ◌∙◌, refl, ap, true, false, some, [], ◌∷◌, All, arith, if_true,
}
use dstx.Common.Int.{pos}
use dstx.Text.{
  Word, Libc, is_space, is_digit, skip_spaces, scan_digits, split_sign, unsigned_decimal, signed,
  decimal, is_int, as_int, int_or_zero, atoi,
}

abbrev pub IsDigit : ℕ → Type 0
IsDigit c = is_digit c ≡ true

-- The number that digits spell behind another.
abbrev pub spelled : ℕ → Word → ℕ
spelled n [] = n
spelled n (c ∷ s) = spelled (n * 10 + (c - b'0')) s

scan_digits-All : (n : ℕ) (s : Word) → All IsDigit s → scan_digits n s ≡ (spelled n s, [])
unfolding scan_digits
scan_digits-All n [] h = refl
scan_digits-All n (c ∷ s) h = if_true _ (n, c ∷ s) h.0 ∙ scan_digits-All (n * 10 + (c - b'0')) s h.1

no_space : (c : ℕ) → is_digit c ≡ true → is_space c ≡ false
unfolding is_digit is_space
no_space c h = ground arith

no_sign : (c : ℕ) (s : Word) → is_digit c ≡ true → split_sign (c ∷ s) ≡ (false, c ∷ s)
unfolding is_digit split_sign
no_sign c s h = ground arith

pub decimal_digits :
    (c : ℕ) (s : Word) → All IsDigit (c ∷ s) → decimal (c ∷ s) ≡ some (pos (spelled 0 (c ∷ s)), [])
unfolding decimal skip_spaces unsigned_decimal signed
decimal_digits c s h =
    rw (no_space c h.0) (rw (no_sign c s h.0) (rw (h.0) (rw (scan_digits-All 0 (c ∷ s) h) refl)))

pub atoi_digits :
    (libc : Libc) (c : ℕ) (s : Word)
    → All IsDigit (c ∷ s)
    → spelled 0 (c ∷ s) < 2147483648
    → atoi libc (c ∷ s) ≡ pos (spelled 0 (c ∷ s))
unfolding atoi int_or_zero as_int is_int
atoi_digits libc c s h lt = ap (int_or_zero libc (c ∷ s)) (decimal_digits c s h) ∙ ground arith
