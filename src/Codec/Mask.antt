-- ===== src/Codec/Mask.antt =====
-- `pow` multiplies once more than its exponent says, and what that does to the masks of
-- `get_bit_data` and `set_bit_data`.
use linux_char_driver_frame.Base.{
  ℕ, zero, suc, ◌+◌, ◌-◌, ◌*◌, ◌/◌, ◌%◌, ◌^◌, ◌<◌, ◌≡◌, sym, ap, ◌∙◌, arith, u8, u32, bit_or,
}
use linux_char_driver_frame.Base.Bits.{bit_and_mask}
use linux_char_driver_frame.Base.Pow.{two-pow-le, two-pow-pos, mod-mul-mod}
use linux_char_driver_frame.Codec.{pow_loop, pow, low_mask, get_bit_data, set_bit_data}
use native.Mathlib.Nat.{mod-eq_of_lt, pow-suc, pow-zero, one-mul, mul-one}
use native.Mathlib.Numerals.{add-one}

pow_loop-eq : (rounds x acc : ℕ) → acc < 2 ^ 32 → pow_loop rounds x acc ≡ u32 (acc * x ^ rounds)
unfolding pow_loop
pow_loop-eq zero x acc h =
    sym (mod-eq_of_lt (omega arith)) ∙ ap u32 (sym (simp (pow-zero, mul-one)))
pow_loop-eq (suc rounds) x acc h = rw (pow_loop-eq rounds x (u32 (acc * x)) (omega arith)) (
    mod-mul-mod (acc * x) (x ^ rounds) (2 ^ 32)
    ∙ ap u32 (omega (arith, ap (λ (t : ℕ). acc * t) (pow-suc x rounds))))

-- `pow(x, y)` is x to the power y + 1, in 32 bits: the loop includes i = y.
pow-eq : (x y : ℕ) → pow x y ≡ u32 (x ^ (y + 1))
unfolding pow
pow-eq x y = pow_loop-eq (suc y) x 1 (omega arith) ∙ ap u32 (simp (one-mul, add-one))

-- So the mask that is made for `len` bits has len + 1.
pub low_mask-eq : (len : ℕ) → len < 31 → low_mask len ≡ 2 ^ (len + 1) - 1
low_mask-eq len h =
    rw (pow-eq 2 len) (omega (arith, two-pow-le (len + 1) 31 (omega arith), two-pow-pos (len + 1)))

-- `get_bit_data` reads len + 1 bits, cut to a byte.
pub get_bit_data-eq :
    (data' bit_pos len : ℕ)
    → len < 31
    → get_bit_data data' bit_pos len ≡ u8 (data' / 2 ^ bit_pos % 2 ^ (len + 1))
unfolding get_bit_data
get_bit_data-eq data' bit_pos len h =
    rw (low_mask-eq len h, bit_and_mask (len + 1) (data' / 2 ^ bit_pos))

pub set_bit_data-eq :
    (buf data' bit_pos len : ℕ)
    → len < 31
    → set_bit_data buf data' bit_pos len ≡ u8 (bit_or buf (data' % 2 ^ (len + 1) * 2 ^ bit_pos))
unfolding set_bit_data
set_bit_data-eq buf data' bit_pos len h = rw (low_mask-eq len h, bit_and_mask (len + 1) data')
