-- ===== src/Format/Number/Hex.antt =====
-- What `hexstr2num` makes of hexadecimal digits.
use linux_char_driver_frame.Base.{
  ℕ, zero, suc, ◌+◌, ◌*◌, ◌^◌, ◌≤◌, ◌<◌, ◌≡◌, refl, arith, List, [], ◌∷◌, ◌++◌, map, length, ok,
  u32, ◌<<<◌, ltb, if◌then◌else◌,
}
use linux_char_driver_frame.Base.Bits.{bit_or_disjoint}
use linux_char_driver_frame.Format.Number.{strlen, is_hex, hex_digit, hex_loop, hexstr2num, str2num}
use linux_char_driver_frame.Format.Number.Decimal.{value_of, Digits}
use native.Mathlib.Nat.{pow-suc}

-- The character of a digit, with upper-case letters.
abbrev pub hex_char : ℕ → ℕ
hex_char d = if ltb d 10 then 48 + d else 55 + d

abbrev pub hex_str : List ℕ → List ℕ
hex_str ds = map hex_char ds ++ 0 ∷ []

hex_digit-hex_char : (d : ℕ) → d < 16 → hex_digit (hex_char d) ≡ d
unfolding hex_digit
hex_digit-hex_char d h = ground arith

strlen-hex_str : (ds : List ℕ) → strlen (hex_str ds) ≡ ok (length ds)
unfolding strlen
strlen-hex_str [] = refl
strlen-hex_str (d ∷ ds) = rw (strlen-hex_str ds) (ground arith)

room : (acc d w : ℕ) → d < 16 → (acc + 1) * (w * 16) ≤ 2 ^ 32 → (acc * 16 + d + 1) * w ≤ 2 ^ 32
room acc d w h fits = grind arith

low : (acc w : ℕ) → 0 < w → (acc + 1) * (w * 16) ≤ 2 ^ 32 → acc * 16 + 16 ≤ 2 ^ 32
low acc w pos fits = grind arith

pos : (n : ℕ) → 0 < 16 ^ n
pos zero = omega arith
pos (suc n) = omega (arith, pow-suc 16 n, pos n)

hex_loop-hex_str :
    (ds : List ℕ) (acc : ℕ)
    → Digits 16 ds
    → (acc + 1) * 16 ^ length ds ≤ 2 ^ 32
    → hex_loop acc (hex_str ds) ≡ ok (value_of 16 acc ds)
unfolding hex_loop
hex_loop-hex_str [] acc digits fits = refl
hex_loop-hex_str (d ∷ ds) acc digits fits =
    let fits' : (acc + 1) * (16 ^ length ds * 16) ≤ 2 ^ 32 = rw pow-suc at fits in
    let small : u32 (acc <<< 4) ≡ acc * 2 ^ 4 =
      omega (arith, low acc (16 ^ length ds) (pos (length ds)) fits') in
    rw (hex_digit-hex_char d digits.0, small, bit_or_disjoint 4 acc d digits.0)
      (rw (hex_loop-hex_str ds (acc * 16 + d) digits.1 (room acc d (16 ^ length ds) digits.0 fits'))
        (ground (arith, digits.0)))

sixteen_pow_le : (n m : ℕ) → n ≤ m → 16 ^ n ≤ 16 ^ m
sixteen_pow_le zero m h = omega (arith, pos m)
sixteen_pow_le (suc n) zero h = absurd (omega arith)
sixteen_pow_le (suc n) (suc m) h =
    omega (arith, pow-suc 16 n, pow-suc 16 m, sixteen_pow_le n m (omega arith))

fits_word : (n : ℕ) → n ≤ 8 → 16 ^ n ≤ 2 ^ 32
fits_word n h = omega (arith, sixteen_pow_le n 8 h)

-- `str2num` reads "0x" or "0X" and up to eight hexadecimal digits with upper-case letters as their
-- number.
pub str2num-hex_str :
    (ds : List ℕ)
    → Digits 16 ds
    → length ds ≤ 8
    → (str2num (48 ∷ 120 ∷ hex_str ds) ≡ ok (value_of 16 0 ds))
      × (str2num (48 ∷ 88 ∷ hex_str ds) ≡ ok (value_of 16 0 ds))
unfolding str2num hexstr2num is_hex strlen
str2num-hex_str ds digits short =
    let run = hex_loop-hex_str ds 0 digits (omega (arith, fits_word (length ds) short)) in
    (rw (strlen-hex_str ds) (ground (arith, run)), rw (strlen-hex_str ds) (ground (arith, run)))
