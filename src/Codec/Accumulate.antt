-- ===== src/Codec/Accumulate.antt =====
-- Both readers gather a value from its high end: each round puts `n` more bits `v` above the `m`
-- bits that are still to come.
use linux_char_driver_frame.Base.{
  ℕ, ◌+◌, ◌*◌, ◌/◌, ◌%◌, ◌^◌, ◌≤◌, ◌<◌, bit_or, ◌≡◌, ap, ◌∙◌, arith, u32, ◌<<<◌, length, get_elem?,
  ◌⊎◌, List,
}
use linux_char_driver_frame.Base.Bits.{bit_or_disjoint}
use linux_char_driver_frame.Base.Pow.{two-pow-add, two-pow-pos, mod-mul}
use native.Mathlib.Nat.{mod-eq_of_lt}

-- What a loop that writes `dp[at .. at + n)` leaves as it was.
pub record SameOutside (at n : ℕ) (dp out : List ℕ) : Type 0 where
  pub same_length : length out ≡ length dp
  pub same : (j : ℕ) → (j < at) ⊎ (at + n ≤ j) → get_elem? out j ≡ get_elem? dp j

room : (x y hi v limit : ℕ) → v < x → (hi + 1) * (x * y) ≤ limit → (hi * x + v + 1) * y ≤ limit
room x y hi v limit h fits = grind arith

below : (x y v : ℕ) → v < x → 0 < y → v * y < x * y
below x y v h pos = grind arith

module _ (n m hi v : ℕ) (small : v < 2 ^ n) (fits : (hi + 1) * 2 ^ (n + m) ≤ 2 ^ 32) where
  split : hi * 2 ^ (n + m) ≡ hi * 2 ^ n * 2 ^ m
  split = ap (λ (t : ℕ). hi * t) (two-pow-add n m) ∙ (omega arith)

  -- The room that is left for the bits to come.
  pub gather_fits : (hi * 2 ^ n + v + 1) * 2 ^ m ≤ 2 ^ 32
  gather_fits = room (2 ^ n) (2 ^ m) hi v (2 ^ 32) small (rw two-pow-add at fits)

  pub gather : u32 (bit_or (hi * 2 ^ (n + m)) (v <<< m)) ≡ (hi * 2 ^ n + v) * 2 ^ m
  gather =
      rw (bit_or_disjoint (n + m) hi (v * 2 ^ m) low, split)
        (mod-eq_of_lt (omega (arith, gather_fits, two-pow-pos m)) ∙ (omega arith))
    where
      low : v * 2 ^ m < 2 ^ (n + m)
      low = rw (two-pow-add n m) (below (2 ^ n) (2 ^ m) v small (two-pow-pos m))

-- The last round leaves the value.
pub gather_done :
    (n m hi d : ℕ)
    → (hi * 2 ^ n + d / 2 ^ m % 2 ^ n) * 2 ^ m + d % 2 ^ m ≡ hi * 2 ^ (n + m) + d % 2 ^ (n + m)
gather_done n m hi d =
    rw (two-pow-add n m, mod-mul d (2 ^ n) (2 ^ m) (two-pow-pos n) (two-pow-pos m)) (omega arith)
