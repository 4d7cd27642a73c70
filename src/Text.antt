-- ===== src/Text.antt =====
-- What dstx/src/commands.c and dstx/src/ui.c use of the C library on text: comparison, atoi, strtol
-- and the conversions of sscanf. A text is the list of its bytes, without the zero that ends it.
pub mod Bytes
pub mod Numerals
use Prim.Native.Char.{code}
use Prim.Native.String.{String}
use dstx.Common.{
  ℕ, ◌+◌, ◌-◌, ◌*◌, Bool, true, false, Option, none, some, List, [], ◌∷◌, ◌==◌, ltb, leb, not, ◌&&◌,
  ◌||◌, min, if◌then◌else◌, ◌>>=◌,
}
use dstx.Common.Int.{ℤ, pos, negsuc, sub_ℕ, ltb_ℤ, u8_of_ℤ}

abbrev pub Word : Type 0
Word = List ℕ

abbrev pub codes : String → Word
codes String.[] = []
codes (String.◌∷◌ c s) = code c ∷ codes s

-- What C leaves open: what atoi and `%d` give for a number that no `int` holds, and whether `%2x`
-- reads "0x", which its width cuts off, as 0 or not at all.
pub record Libc : Type 0 where
  pub out_of_int : Word → ℤ
  pub reads_cut_prefix : Bool

-- strcmp(a, b) == 0
unfoldable pub same_text : Word → Word → Bool
same_text [] [] = true
same_text [] (b ∷ t) = false
same_text (a ∷ s) [] = false
same_text (a ∷ s) (b ∷ t) = a == b && same_text s t

-- strncmp(s, prefix, strlen(prefix)) == 0
unfoldable pub starts_with : (prefix s : Word) → Bool
starts_with [] s = true
starts_with (p ∷ prefix) [] = false
starts_with (p ∷ prefix) (c ∷ s) = p == c && starts_with prefix s

-- isspace, isdigit and isxdigit on bytes, in the locale "C".
unfoldable pub is_space : ℕ → Bool
is_space c = c == b' ' || (leb 9 c && leb c 13)

unfoldable pub is_digit : ℕ → Bool
is_digit c = leb b'0' c && leb c b'9'

unfoldable pub is_xdigit : ℕ → Bool
unfolding is_digit
is_xdigit c = is_digit c || (leb b'a' c && leb c b'f') || (leb b'A' c && leb c b'F')

unfoldable pub skip_spaces : Word → Word
skip_spaces [] = []
skip_spaces (c ∷ s) = let rest = skip_spaces s in if is_space c then rest else c ∷ s

-- Digits behind a number, and what follows them.
unfoldable pub scan_digits : ℕ → Word → ℕ × Word
scan_digits n [] = (n, [])
scan_digits n (c ∷ s) =
    let rest = scan_digits (n * 10 + (c - b'0')) s in if is_digit c then rest else (n, c ∷ s)

-- Whether there is a minus, and what follows the sign, if any.
unfoldable pub split_sign : Word → Bool × Word
split_sign [] = (false, [])
split_sign (c ∷ s) =
    if c == b'-' then (true, s) else if c == b'+' then (false, s) else (false, c ∷ s)

-- At least one digit.
unfoldable pub unsigned_decimal : Word → Option (ℕ × Word)
unsigned_decimal [] = none
unsigned_decimal (c ∷ s) = if is_digit c then some (scan_digits 0 (c ∷ s)) else none

unfoldable pub signed : Bool → ℕ → ℤ
signed minus n = if minus then sub_ℕ 0 n else pos n

-- A decimal number with spaces and a sign before it, of any size, and what follows it.
unfoldable pub decimal : Word → Option (ℤ × Word)
decimal s =
    let sign = split_sign (skip_spaces s) in
    unsigned_decimal sign.1 >>= (λ n. some (signed sign.0 n.0, n.1))

-- The range of `int`.
unfoldable pub is_int : ℤ → Bool
is_int (pos n) = ltb n 2147483648
is_int (negsuc n) = ltb n 2147483648

-- The range of `long`, which strtol saturates to.
unfoldable pub clamp_long : ℤ → ℤ
clamp_long (pos n) = pos (min n 9223372036854775807)
clamp_long (negsuc n) = negsuc (min n 9223372036854775807)

-- strtol(s, &endptr, 10): the number and the text at `endptr`.
unfoldable pub strtol : Word → ℤ × Word
strtol s = elim (decimal s) [ none ↦ (pos 0, s) | some r ↦ (clamp_long r.0, r.1) ]

-- The value of a hexadecimal digit.
unfoldable pub hex_value : ℕ → ℕ
hex_value c = if leb b'a' c then c - 87 else if leb b'A' c then c - 55 else c - b'0'

module _ (libc : Libc) where
  unfoldable pub as_int : Word → ℤ → ℤ
  as_int s v = if is_int v then v else libc.out_of_int s

  unfoldable pub int_or_zero : Word → Option (ℤ × Word) → ℤ
  int_or_zero s none = pos 0
  int_or_zero s (some r) = as_int s r.0

  unfoldable pub atoi : Word → ℤ
  atoi s = int_or_zero s (decimal s)

  -- `%d`
  unfoldable pub scan_int : Word → Option (ℤ × Word)
  scan_int s = decimal s >>= (λ r. some (as_int s r.0, r.1))

  -- `%2x` behind the spaces; of the `unsigned int` only the lowest byte is kept.
  unfoldable pub hex_pair : Word → Option (ℕ × Word)
  hex_pair [] = none
  hex_pair (a ∷ []) = if is_xdigit a then some (hex_value a, []) else none
  hex_pair (a ∷ b ∷ s) =
      if a == b'-' || a == b'+'
      then if is_xdigit b then some (u8_of_ℤ (signed (a == b'-') (hex_value b)), s) else none
      else if a == b'0' && (b == b'x' || b == b'X')
      then if libc.reads_cut_prefix then some (0, s) else none
      else if is_xdigit a
      then if is_xdigit b
        then some (hex_value a * 16 + hex_value b, s)
        else some (hex_value a, b ∷ s)
      else none

  unfoldable pub scan_hex : Word → Option (ℕ × Word)
  scan_hex s = hex_pair (skip_spaces s)

  -- sscanf(s, "%02x%02x%02x", ...) == 3
  unfoldable pub scan_color : Word → Option (ℕ × ℕ × ℕ)
  scan_color s =
      scan_hex s >>= (λ r. scan_hex r.1 >>= (λ g. scan_hex g.1 >>= (λ b. some (r.0, g.0, b.0))))
