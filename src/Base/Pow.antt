-- ===== src/Base/Pow.antt =====
-- Powers of two, and division by a product of two of them.
use Prim.Native.Nat.{ℕ, zero, suc, ◌+◌, ◌*◌, ◌/◌, ◌%◌, ◌^◌, ◌≤◌, ◌<◌}
use mathlib.Core.Path.{◌≡◌, ap, sym, ◌∙◌}
use native.Mathlib.Omega.{arith}
use native.Mathlib.Nat.{
  pow-suc, one-le-pow, pow-le-pow_right, zero-add, suc-add, div-add-mod, add-mul-mod_self_left,
  mod-eq_of_lt,
}

pub two-pow-suc : (k : ℕ) → 2 ^ suc k ≡ 2 * 2 ^ k
two-pow-suc k = omega (arith, pow-suc 2 k)

pub two-pow-pos : (k : ℕ) → 0 < 2 ^ k
two-pow-pos k = omega (arith, one-le-pow k 2)

pub two-pow-add : (a b : ℕ) → 2 ^ (a + b) ≡ 2 ^ a * 2 ^ b
two-pow-add zero b = simp zero-add (omega arith)
two-pow-add (suc a) b =
    rw (suc-add a b, two-pow-suc (a + b), two-pow-add a b, two-pow-suc a) (omega arith)

-- A quotient and a remainder that fit are the ones of the division.
pub mod_unique : (d m q r : ℕ) → r < m → d ≡ r + m * q → d % m ≡ r
mod_unique d m q r h e = rw e (add-mul-mod_self_left r m q ∙ mod-eq_of_lt h)

-- The digits of `d` in base `x * y` are those in base `x` above those in base `y`.
pub mod-mul : (d x y : ℕ) → 0 < x → 0 < y → d % (x * y) ≡ d / y % x * y + d % y
mod-mul d x y hx hy =
    mod_unique d (x * y) (d / y / x) (d / y % x * y + d % y) bound
      (omega (arith, div-add-mod d y, ap (λ (t : ℕ). t * y) (div-add-mod (d / y) x)))
  where
    bound : d / y % x * y + d % y < x * y
    bound = grind arith

pub two-pow-le : (a b : ℕ) → a ≤ b → 2 ^ a ≤ 2 ^ b
two-pow-le a b h = pow-le-pow_right (omega arith) h

-- A factor may be cut to the modulus first.
pub mod-mul-mod : (a b m : ℕ) → a % m * b % m ≡ a * b % m
mod-mul-mod a b m =
    sym (add-mul-mod_self_left (a % m * b) m (a / m * b))
    ∙ ap (λ (t : ℕ). t % m) (omega (arith, ap (λ (t : ℕ). t * b) (div-add-mod a m)))
