-- ===== src/Text/Bytes.antt =====
-- The bytes that a colour is read into.
use dstx.Common.{ℕ, ◌<◌, ◌≡◌, true, some, [], ◌∷◌, ◌==◌, arith, >>=-eq-some}
use dstx.Common.Int.{u8_of_ℤ-lt}
use dstx.Text.{
  Word, Libc, is_digit, is_xdigit, hex_value, signed, skip_spaces, hex_pair, scan_hex, scan_color,
}

hex_value-lt : (c : ℕ) → is_xdigit c ≡ true → hex_value c < 16
unfolding is_xdigit is_digit hex_value
hex_value-lt c h = ground arith

module _ (libc : Libc) where
  hex_pair-lt : (s rest : Word) (v : ℕ) → hex_pair libc s ≡ some (v, rest) → v < 256
  unfolding hex_pair
  hex_pair-lt [] rest v h = cc
  hex_pair-lt (a ∷ []) rest v h = ground (arith, hex_value-lt a)
  hex_pair-lt (a ∷ b ∷ s) rest v h =
      ground (arith, hex_value-lt a, hex_value-lt b, u8_of_ℤ-lt (signed (a == b'-') (hex_value b)))

  pub scan_color-lt :
      (s : Word) (r g b : ℕ)
      → scan_color libc s ≡ some (r, g, b)
      → (r < 256) × (g < 256) × (b < 256)
  unfolding scan_color scan_hex
  scan_color-lt s r g b h =
      let (x, ex, h1) = >>=-eq-some (scan_hex libc s) _ h in
      let (y, ey, h2) = >>=-eq-some (scan_hex libc x.1) _ h1 in
      let (z, ez, h3) = >>=-eq-some (scan_hex libc y.1) _ h2 in
      let hx = hex_pair-lt (skip_spaces s) x.1 x.0 ex in
      let hy = hex_pair-lt (skip_spaces x.1) y.1 y.0 ey in
      let hz = hex_pair-lt (skip_spaces y.1) z.1 z.0 ez in
      (ground (arith, hx, h3), ground (arith, hy, h3), ground (arith, hz, h3))
