-- ===== src/Base/Bits.antt =====
-- `&` with a mask of low ones and `|` of fields that do not meet, as arithmetic at every width.
use Prim.Native.Nat.{ℕ, zero, suc, ◌+◌, ◌-◌, ◌*◌, ◌/◌, ◌%◌, ◌^◌, ◌≤◌, ◌<◌, min, max}
use Prim.Native.Nat.{bit_and, bit_or, digits, bitwise, bit_and-bitwise, bit_or-bitwise}
use mathlib.Core.Path.{◌≡◌, refl, ap, ◌∙◌}
use native.Mathlib.Omega.{arith}
use native.Mathlib.Nat.{le_refl, div-add-mod}
use linux_char_driver_frame.Base.Pow.{two-pow-suc, two-pow-pos}

-- The native operations stand for a recursion on binary digits, on fuel. Any two amounts of fuel
-- that cover the first number give one result, so a number takes one step for its lowest digit.
module _ (rest : ℕ → ℕ) (digit : ℕ → ℕ → ℕ) where
  enough : (n m a b : ℕ) → (a ≤ n) × (a ≤ m) → digits rest digit n a b ≡ digits rest digit m a b
  enough zero zero a b p = refl
  enough zero (suc m) zero b p = refl
  enough zero (suc m) (suc a) b p = absurd (omega arith)
  enough (suc n) zero zero b p = refl
  enough (suc n) zero (suc a) b p = absurd (omega arith)
  enough (suc n) (suc m) zero b p = refl
  enough (suc n) (suc m) (suc a) b p =
      rw (enough n m (suc a / 2) (b / 2) (omega arith, omega arith))

  one_digit :
      (a b : ℕ)
      → bitwise rest digit (suc a) b
        ≡ bitwise rest digit (suc a / 2) (b / 2) * 2 + digit (suc a % 2) (b % 2)
  one_digit a b = omega (arith, enough a (suc a / 2) (suc a / 2) (b / 2) (omega arith, le_refl _))

or_digit : (a b : ℕ) → bit_or a b ≡ bit_or (a / 2) (b / 2) * 2 + max (a % 2) (b % 2)
or_digit zero b = simp bit_or-bitwise (omega arith)
or_digit (suc a) b = simp bit_or-bitwise (one_digit (λ y. y) max a b)

and_digit : (x y : ℕ) → bit_and x y ≡ min (x % 2) (y % 2) + 2 * bit_and (x / 2) (y / 2)
and_digit zero b = simp bit_and-bitwise (omega arith)
and_digit (suc a) b = simp bit_and-bitwise (omega (arith, one_digit (λ y. 0) min a b))

-- Both recur on a bound for the number, since a step halves it.
or_zero : (n a : ℕ) → a ≤ n → bit_or a 0 ≡ a
or_zero n zero h = refl
or_zero zero (suc a) h = absurd (omega arith)
or_zero (suc n) (suc a) h = omega (arith, or_digit (suc a) 0, or_zero n (suc a / 2) (omega arith))

and_zero : (n a : ℕ) → a ≤ n → bit_and a 0 ≡ 0
and_zero n zero h = refl
and_zero zero (suc a) h = absurd (omega arith)
and_zero (suc n) (suc a) h =
    omega (arith, and_digit (suc a) 0, and_zero n (suc a / 2) (omega arith))

pub bit_or-zero : (a : ℕ) → bit_or a 0 ≡ a
bit_or-zero a = or_zero a a (le_refl a)

pub zero-bit_or : (b : ℕ) → bit_or 0 b ≡ b
zero-bit_or b = simp bit_or-bitwise (omega arith)

-- `a | b` is a sum where `a` is a multiple of 2 ^ k and `b` lies below it.
pub bit_or_disjoint : (k a b : ℕ) → b < 2 ^ k → bit_or (a * 2 ^ k) b ≡ a * 2 ^ k + b
bit_or_disjoint zero a b h =
    let e : b ≡ 0 = omega arith in rw e (omega (arith, bit_or-zero (a * 2 ^ 0)))
bit_or_disjoint (suc k) a b h =
    let twice : a * 2 ^ suc k ≡ 2 * (a * 2 ^ k) =
      ap (λ (t : ℕ). a * t) (two-pow-suc k) ∙ (omega arith) in
    rw twice (
      ground (
        arith,
        or_digit (2 * (a * 2 ^ k)) b,
        bit_or_disjoint k a (b / 2) (omega (arith, two-pow-suc k)),
      ))

-- `a & (2 ^ k - 1)` is the remainder by 2 ^ k.
mask_sum : (k q r : ℕ) → r < 2 ^ k → bit_and (q * 2 ^ k + r) (2 ^ k - 1) ≡ r
mask_sum zero q r h = rw (and_zero _ (q * 1 + r) (le_refl _)) (omega arith)
mask_sum (suc k) q r h =
    let twice : q * 2 ^ suc k ≡ 2 * (q * 2 ^ k) =
      ap (λ (t : ℕ). q * t) (two-pow-suc k) ∙ (omega arith) in
    ground (
      arith,
      twice,
      two-pow-suc k,
      two-pow-pos k,
      and_digit (q * 2 ^ suc k + r) (2 ^ suc k - 1),
      mask_sum k q (r / 2),
    )

pub bit_and_mask : (k a : ℕ) → bit_and a (2 ^ k - 1) ≡ a % 2 ^ k
bit_and_mask k a =
    ground (arith, two-pow-pos k, div-add-mod a (2 ^ k), mask_sum k (a / 2 ^ k) (a % 2 ^ k))
