-- ===== src/Common/Words.antt =====
-- Casts to the unsigned widths of C, and the ranges of the values that a field can hold.
use Prim.Native.Nat.{ℕ, zero, ◌%◌, ◌<◌}
use mathlib.Core.Bool.{Bool, true, false}

-- uint64_t
abbrev pub u64 : ℕ → ℕ
u64 value = value % 18446744073709551616

-- uint8_t
abbrev pub u8 : ℕ → ℕ
u8 value = value % 256

-- uint32_t
abbrev pub u32 : ℕ → ℕ
u32 value = value % 4294967296

-- `!!x` and the truth of a number in a condition.
abbrev pub truth : ℕ → Bool
truth zero = false
truth _ = true

-- A Boolean stored into an integer.
abbrev pub of_bool : Bool → ℕ
of_bool true = 1
of_bool false = 0

abbrev pub IsByte : ℕ → Type 0
IsByte n = n < 256
