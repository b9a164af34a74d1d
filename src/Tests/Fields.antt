-- ===== src/Tests/Fields.antt =====
-- The field codecs at concrete messages.
use linux_char_driver_frame.Base.{
  ℕ, zero, suc, ◌*◌, ◌/◌, ◌%◌, ◌^◌, ◌+◌, ◌-◌, ◌≡◌, refl, arith, List, [], ◌∷◌, Returns, ok,
}
use linux_char_driver_frame.Codec.{
  set_bit_loop, set_bit_data, get_bit_data, pa_set_protocol_bit_data, pa_set_protocol_byte_data,
  get_bit_loop, get_byte_loop, pow,
}
use linux_char_driver_frame.Codec.Accumulate.{SameOutside}
use linux_char_driver_frame.Codec.Bit.{span, IsClear, get_bit_loop-pa_set_protocol_bit_data}
use linux_char_driver_frame.Codec.Byte.{get_byte_loop-pa_set_protocol_byte_data}
use linux_char_driver_frame.Codec.Neighbour.{get_bit_loop_neighbour}

abbrev message : List ℕ
message = 0x7f ∷ 0 ∷ 0 ∷ 0x55 ∷ []

message-IsClear : IsClear 1 (span 10 3) message
unfolding span
message-IsClear zero p q = absurd (omega arith)
message-IsClear (suc zero) p q = refl
message-IsClear (suc (suc zero)) p q = refl
message-IsClear (suc (suc (suc j))) p q = absurd (omega arith)

-- The ten bits of 0x2d5 from bit 3 of the byte 1 down, which end in bit 2 of the byte 2.
get_bit_loop-pa_set_protocol_bit_data_example :
    Returns
      (pa_set_protocol_bit_data 0x2d5 1 3 10 message)
      λ out. SameOutside 1 (span 10 3) message out × (get_bit_loop 10 0 1 3 10 out ≡ ok 0x2d5)
get_bit_loop-pa_set_protocol_bit_data_example =
    get_bit_loop-pa_set_protocol_bit_data 0x2d5 1 3 10 message (omega arith) (omega arith)
      (omega arith) message-IsClear

get_byte_loop-pa_set_protocol_byte_data_example :
    Returns
      (pa_set_protocol_byte_data 0x123456 1 7 2 message)
      λ out. SameOutside 1 2 message out × (get_byte_loop 2 0 1 out ≡ ok (0x123456 % 2 ^ (8 * 2)))
get_byte_loop-pa_set_protocol_byte_data_example =
    get_byte_loop-pa_set_protocol_byte_data 0x123456 1 7 2 message (omega arith) (omega arith)

-- The bit 6 alone of the byte 0x7f is read as 1 with the bit 7, and of 0xff as 3.
get_bit_loop_neighbour_example :
    get_bit_loop 1 0 0 6 1 (0xff ∷ []) ≡ ok (0xff / 2 ^ (6 % 8 + 1 - 1) % 2 ^ (1 + 1))
get_bit_loop_neighbour_example =
    get_bit_loop_neighbour 0 6 1 0xff (0xff ∷ []) (omega arith) (omega arith) (omega arith) refl

run_set : pa_set_protocol_bit_data 0x2d5 1 3 10 message ≡ ok (0x7f ∷ 0x0b ∷ 0x54 ∷ 0x55 ∷ [])
unfolding pa_set_protocol_bit_data set_bit_loop set_bit_data get_bit_data pow
run_set = refl

run_pow : pow 2 3 ≡ 16
unfolding pow
run_pow = refl
