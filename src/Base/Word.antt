-- ===== src/Base/Word.antt =====
-- The fixed-width integers of C as natural numbers: the casts, the shifts and the arithmetic
-- that wraps. A signed value is its bit pattern, so that -1 of an `int` is 2 ^ 32 - 1.
use Prim.Native.Nat.{ℕ, ◌+◌, ◌-◌, ◌*◌, ◌/◌, ◌%◌, ◌^◌}

abbrev pub u8 : ℕ → ℕ
u8 n = n % 2 ^ 8

abbrev pub u16 : ℕ → ℕ
u16 n = n % 2 ^ 16

abbrev pub u32 : ℕ → ℕ
u32 n = n % 2 ^ 32

infixl 75 ◌<<<◌ ◌>>>◌
abbrev pub ◌<<<◌ : ℕ → ℕ → ℕ
x <<< k = x * 2 ^ k

abbrev pub ◌>>>◌ : ℕ → ℕ → ℕ
x >>> k = x / 2 ^ k

-- `a - b` in `uint32_t`, for b below 2 ^ 32.
abbrev pub sub32 : ℕ → ℕ → ℕ
sub32 a b = u32 (a + 2 ^ 32 - b)

-- `a - b` in `uint8_t`, for b at most 256.
abbrev pub sub8 : ℕ → ℕ → ℕ
sub8 a b = u8 (a + 2 ^ 8 - b)

-- The `int` result -1.
abbrev pub minus_one : ℕ
minus_one = 2 ^ 32 - 1
