-- ===== src/Format/Number/Decimal.antt =====
-- What `atoi` makes of the decimal digits of a number, with and without a sign.
use linux_char_driver_frame.Base.{
  ℕ, ◌+◌, ◌*◌, ◌^◌, ◌≤◌, ◌<◌, ◌≡◌, refl, arith, some, List, [], ◌∷◌, ◌++◌, map, ok, u32, sub32,
}
use linux_char_driver_frame.Format.Number.{atoi_loop, atoi_end, atoi}

-- The number of a list of digits behind the number `acc`.
abbrev pub value_of : ℕ → ℕ → List ℕ → ℕ
value_of base acc [] = acc
value_of base acc (d ∷ ds) = value_of base (acc * base + d) ds

abbrev pub Digits : ℕ → List ℕ → Type 0
Digits base [] = Unit {0}
Digits base (d ∷ ds) = (d < base) × Digits base ds

abbrev pub decimal_str : List ℕ → List ℕ
decimal_str ds = map (λ d. 48 + d) ds ++ 0 ∷ []

acc_le : (acc : ℕ) (ds : List ℕ) → acc ≤ value_of 10 acc ds
acc_le acc [] = omega arith
acc_le acc (d ∷ ds) = omega (arith, acc_le (acc * 10 + d) ds)

atoi_loop-decimal_str :
    (ds : List ℕ) (acc : ℕ)
    → Digits 10 ds
    → value_of 10 acc ds < 2 ^ 32
    → atoi_loop acc (decimal_str ds) ≡ ok (some (value_of 10 acc ds))
unfolding atoi_loop
atoi_loop-decimal_str [] acc digits small = refl
atoi_loop-decimal_str (d ∷ ds) acc digits small =
    let e : u32 (acc * 10 + sub32 (48 + d) 48) ≡ acc * 10 + d =
      omega (arith, digits.0, acc_le (acc * 10 + d) ds) in
    rw (e, atoi_loop-decimal_str ds (acc * 10 + d) digits.1 small) (ground (arith, digits.0))

-- `atoi` of the decimal digits of a number below 2 ^ 32 is the number, and behind a minus sign it
-- is the number's negative in 32 bits.
pub atoi-decimal_str :
    (ds : List ℕ)
    → Digits 10 ds
    → value_of 10 0 ds < 2 ^ 32
    → (atoi (some (decimal_str ds)) ≡ ok (value_of 10 0 ds))
      × (atoi (some (45 ∷ decimal_str ds)) ≡ ok (sub32 0 (value_of 10 0 ds)))
unfolding atoi atoi_end atoi_loop
atoi-decimal_str [] digits small = (refl, refl)
atoi-decimal_str (d ∷ ds) digits small =
    let run = atoi_loop-decimal_str (d ∷ ds) 0 digits small in
    (ground (arith, run, digits.0), rw run refl)
