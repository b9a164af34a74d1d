-- ===== src/Codec/Neighbour.antt =====
-- What the extra bit of the masks does to `pa_get_protocol_bit_data`.
use linux_char_driver_frame.Base.{
  ℕ, zero, suc, ◌+◌, ◌-◌, ◌/◌, ◌%◌, ◌^◌, ◌≤◌, ◌<◌, ◌≡◌, ap, arith, List, some, get_elem?, ok, ◌>>=◌,
}
use linux_char_driver_frame.Base.Bits.{zero-bit_or}
use linux_char_driver_frame.Codec.{t_len_get, get_bit_loop}
use linux_char_driver_frame.Codec.Mask.{get_bit_data-eq}

-- Reading a bit field that lies in one byte gives len + 1 bits from its lowest one up: the field,
-- and above it the bit of the byte that stands left of the field, which belongs to its neighbour.
pub get_bit_loop_neighbour :
    (at bit_pos len b : ℕ) (dp : List ℕ)
    → 0 < len
    → len ≤ bit_pos % 8 + 1
    → b < 256
    → get_elem? dp at ≡ some b
    → get_bit_loop len 0 at bit_pos len dp ≡ ok (b / 2 ^ (bit_pos % 8 + 1 - len) % 2 ^ (len + 1))
unfolding get_bit_loop
get_bit_loop_neighbour at bit_pos zero b dp pos inside byte there = absurd (omega arith)
get_bit_loop_neighbour at bit_pos (suc l) b dp pos inside byte there =
    let n : t_len_get (suc l) bit_pos ≡ suc l = omega arith in
    let none_left : suc l - suc l ≡ 0 = omega arith in
    let q = b / 2 ^ (bit_pos % 8 + 1 - suc l) % 2 ^ (suc l + 1) in
    let cut : q < 256 = omega arith in
    rw
      (
        there,
        ◌>>=◌,
        n,
        none_left,
        zero-bit_or,
        get_bit_data-eq b (bit_pos % 8 + 1 - suc l) (suc l) (omega arith),
      )
      (ap ok (omega arith))
