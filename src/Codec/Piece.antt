-- ===== src/Codec/Piece.antt =====
-- One piece of a bit field, which `set_bit_data` puts into an empty byte and `get_bit_data` takes
-- out of it.
use linux_char_driver_frame.Base.{
  ℕ, ◌+◌, ◌*◌, ◌/◌, ◌%◌, ◌^◌, ◌≤◌, ◌<◌, ◌≡◌, sym, ap, ◌∙◌, arith, u8, ◌⊎◌, inl, inr,
}
use linux_char_driver_frame.Base.Bits.{zero-bit_or}
use linux_char_driver_frame.Base.Pow.{two-pow-le, two-pow-pos, two-pow-suc, two-pow-add, mod-mul}
use linux_char_driver_frame.Codec.{get_bit_data, set_bit_data}
use linux_char_driver_frame.Codec.Mask.{get_bit_data-eq, set_bit_data-eq}
use native.Mathlib.Nat.{
  mod-eq_of_lt, mod-mod, mul-add-mod_self_right, mul-div_cancel, mul-mod_left, mod-lt, mul_comm,
}
use native.Mathlib.Numerals.{add-one}

mod-mul-mod_right : (d x y : ℕ) → 0 < x → 0 < y → d % (x * y) % y ≡ d % y
mod-mul-mod_right d x y hx hy = rw (mod-mul d x y hx hy, mul-add-mod_self_right, mod-mod)

mul-mod_top : (p x s : ℕ) → 0 < x → 0 < s → p * s % (x * s) ≡ p % x * s
mul-mod_top p x s hx hs =
    rw (mod-mul (p * s) x s hx hs) (rw (mul-div_cancel p hs, mul-mod_left) (omega arith))

below : (x y v : ℕ) → v < x → 0 < y → {limit : ℕ} → x * y ≤ limit → v * y < limit
below x y v h pos fits = grind arith

-- One piece of a value in an empty byte, for x and s powers of two: `q` is the value from the
-- piece's lowest bit up, the piece has the digits below `x` of it, and it is put at the place `s`.
-- The masks take the digits below 2 * x. The extra one falls outside the byte if the piece ends
-- the byte, and is zero if nothing is left above the piece.
module _ (x s q : ℕ) (x_pos : 0 < x) (s_pos : 0 < s) (in_byte : x * s ≤ 256) where
  abbrev piece : ℕ
  piece = q % (2 * x) % 256

  abbrev stored : ℕ
  stored = piece % (2 * x) * s % 256

  narrow : x ≤ 256
  narrow = grind arith

  stored_small : q < x → stored ≡ q % x * s
  stored_small h =
      let e₁ : q % (2 * x) ≡ q = mod-eq_of_lt (omega arith) in
      let e₂ : q % 256 ≡ q = mod-eq_of_lt (omega (arith, narrow)) in
      let e₃ : q % x ≡ q = mod-eq_of_lt h in
      let e₄ : q * s % 256 ≡ q * s = mod-eq_of_lt (below x s q h s_pos in_byte) in
      rw (e₁, e₂, e₃) (rw e₁ e₄)

  stored_top : x * s ≡ 256 → stored ≡ q % x * s
  stored_top h =
      ap (λ (t : ℕ). piece % (2 * x) * s % t) (sym h)
      ∙ mul-mod_top (piece % (2 * x)) x s x_pos s_pos
      ∙ ap (λ (t : ℕ). t * s) (dropped ∙ cut ∙ mod-mul-mod_right q 2 x (omega arith) x_pos)
    where
      dropped : piece % (2 * x) % x ≡ piece % x
      dropped = mod-mul-mod_right piece 2 x (omega arith) x_pos

      cut : piece % x ≡ q % (2 * x) % x
      cut =
          ap (λ (t : ℕ). q % (2 * x) % t % x) (sym h ∙ mul_comm x s)
          ∙ mod-mul-mod_right (q % (2 * x)) s x s_pos x_pos

  read_back : stored ≡ q % x * s → stored / s % (2 * x) % 256 ≡ q % x
  read_back e =
      let e₁ : q % x % (2 * x) ≡ q % x = mod-eq_of_lt (omega (arith, mod-lt q x_pos)) in
      let e₂ : q % x % 256 ≡ q % x = mod-eq_of_lt (omega (arith, narrow, mod-lt q x_pos)) in
      rw (e, mul-div_cancel (q % x) s_pos) (rw (e₁, e₂))

-- The same over the functions, for a piece of `n` bits that ends at the bit `s`.
pub piece_round_trip :
    (data' k n s : ℕ)
    → n + s ≤ 8
    → (data' / 2 ^ k < 2 ^ n) ⊎ (n + s ≡ 8)
    → get_bit_data (set_bit_data 0 (get_bit_data data' k n) s n) s n ≡ data' / 2 ^ k % 2 ^ n
piece_round_trip data' k n s in_byte fits =
    rw
      (
        get_bit_data-eq data' k n (omega arith),
        set_bit_data-eq 0 (u8 (data' / 2 ^ k % 2 ^ (n + 1))) s n (omega arith),
        zero-bit_or,
        get_bit_data-eq _ s n (omega arith),
      )
      (rw double (elim fits [
        | inl small ↦ back (stored_small _ _ _ x s_pos width small)
        | inr top ↦
            back
              (stored_top _ _ _ x s_pos width (sym (two-pow-add n s) ∙ ap (λ (t : ℕ). 2 ^ t) top))
      ]))
  where
    x : 0 < 2 ^ n
    x = two-pow-pos n

    s_pos : 0 < 2 ^ s
    s_pos = two-pow-pos s

    width : 2 ^ n * 2 ^ s ≤ 256
    width = rw two-pow-add at (two-pow-le (n + s) 8 in_byte)

    back :
        stored (2 ^ n) (2 ^ s) (data' / 2 ^ k) x s_pos width ≡ data' / 2 ^ k % 2 ^ n * 2 ^ s
        → stored (2 ^ n) (2 ^ s) (data' / 2 ^ k) x s_pos width / 2 ^ s % (2 * 2 ^ n) % 256
          ≡ data' / 2 ^ k % 2 ^ n
    back = read_back (2 ^ n) (2 ^ s) (data' / 2 ^ k) x s_pos width

    double : 2 ^ (n + 1) ≡ 2 * 2 ^ n
    double = simp add-one (two-pow-suc n)
