-- ===== src/Codec.antt =====
-- The field codecs of driver/libproto_analyzer/protocol_analyzer.c: how one field of a message is
-- written into the bytes of the message and read out of them again.
--
-- `char` is unsigned, as it is on the ARM target of the build files (armv5l-linux-gcc). The bit
-- loops use their `char` position only modulo 8, so that from a start below 128 a signed `char`,
-- which is set to 7 where it falls below 0, takes the same steps as the unsigned one, which wraps.
pub mod Accumulate
pub mod Mask
pub mod Byte
mod Piece
pub mod Bit
pub mod Neighbour
use linux_char_driver_frame.Base.{
  ℕ, zero, suc, ◌+◌, ◌-◌, ◌*◌, ◌/◌, ◌%◌, ◌^◌, min, bit_and, bit_or, Option, none, some, List, set,
  Run, ok, fault, out_of_fuel, null_pointer, load, store, memcpy, ◌>>=◌, u8, u16, u32, ◌<<<◌, ◌>>>◌,
  sub8, sub32, ◌==◌, if◌then◌else◌,
}

-- The rounds of the loop of `pow` that are left, and `pow_value`.
pow_loop : ℕ → ℕ → ℕ → ℕ
pow_loop zero x pow_value = pow_value
pow_loop (suc rounds) x pow_value = pow_loop rounds x (u32 (pow_value * x))

-- The loop runs for i = 0, ..., y, which is y + 1 rounds.
unfoldable pub pow : ℕ → ℕ → ℕ
unfolding pow_loop
pow x y = pow_loop (suc y) x 1

-- The mask `(int) pow(2, len) - 1` as the bit pattern that `&` reads.
abbrev pub low_mask : ℕ → ℕ
low_mask len = sub32 (pow 2 len) 1

unfoldable pub get_bit_data : ℕ → ℕ → ℕ → ℕ
get_bit_data data' bit_pos len = u8 (bit_and (data' >>> bit_pos) (low_mask len))

-- What `*buf` holds afterwards, where it held `buf`. The result 0 is not used.
unfoldable pub set_bit_data : ℕ → ℕ → ℕ → ℕ → ℕ
set_bit_data buf data' bit_pos len = u8 (bit_or buf (bit_and data' (low_mask len) <<< bit_pos))

unfoldable pub pa_set_protocol_buf : Option (List ℕ) → ℕ → ℕ → ℕ → List ℕ → Run (List ℕ)
pa_set_protocol_buf none len byte_pos bit_pos dp =
    if bit_pos == 0 then fault null_pointer else ok dp
pa_set_protocol_buf (some data') len byte_pos bit_pos dp =
    if bit_pos == 0 then memcpy len dp byte_pos data' else ok dp

-- The loop with `left` = len - i rounds to go, at the index `at` = byte_pos + i.
unfoldable pub set_byte_loop : ℕ → ℕ → ℕ → List ℕ → Run (List ℕ)
set_byte_loop zero data' at dp = ok dp
set_byte_loop (suc left) data' at dp =
    store dp at (bit_and (data' >>> (8 * left)) 0xff) >>= set_byte_loop left data' (at + 1)

unfoldable pub pa_set_protocol_byte_data : ℕ → ℕ → ℕ → ℕ → List ℕ → Run (List ℕ)
pa_set_protocol_byte_data data' byte_pos bit_pos len dp = set_byte_loop len data' byte_pos dp

-- The loop of `pa_get_protocol_byte_data`, whose accumulator is `data`.
unfoldable pub get_byte_loop : ℕ → ℕ → ℕ → List ℕ → Run ℕ
get_byte_loop zero data' at dp = ok data'
get_byte_loop (suc left) data' at dp =
    load dp at >>= λ b. get_byte_loop left (u32 (bit_or data' (b <<< (left * 8)))) (at + 1) dp

-- `t_len_get`, the bits that one round moves: those up to the byte's end, or all that are left.
abbrev pub t_len_get : ℕ → ℕ → ℕ
t_len_get t_len t_pos = min t_len (t_pos % 8 + 1)

-- The loop of `pa_set_protocol_bit_data`, on fuel. A round moves one bit at least, so `t_len`
-- rounds are enough.
unfoldable pub set_bit_loop : ℕ → ℕ → ℕ → ℕ → ℕ → List ℕ → Run (List ℕ)
set_bit_loop fuel data' at t_pos_set zero dp = ok dp
set_bit_loop zero data' at t_pos_set (suc t) dp = fault out_of_fuel
set_bit_loop (suc fuel) data' at t_pos_set (suc t) dp =
    let n = t_len_get (suc t) t_pos_set in
    let t_data_get = get_bit_data data' (u8 (suc t - n)) n in
    load dp at >>= λ b.
    set_bit_loop fuel data' (at + 1) (sub8 t_pos_set n) (suc t - n)
      (set dp at (set_bit_data b t_data_get (t_pos_set % 8 + 1 - n) n))

-- `short t_len = len` is negative from 2 ^ 15 on, and the loop is not entered then.
abbrev pub short_len : ℕ → ℕ
short_len len = if u16 len / 2 ^ 15 == 0 then u16 len else 0

unfoldable pub pa_set_protocol_bit_data : ℕ → ℕ → ℕ → ℕ → List ℕ → Run (List ℕ)
pa_set_protocol_bit_data data' byte_pos bit_pos len dp =
    set_bit_loop (short_len len) data' byte_pos bit_pos (short_len len) dp

-- The loop of `pa_get_protocol_bit_data`, whose accumulator is `data`.
unfoldable pub get_bit_loop : ℕ → ℕ → ℕ → ℕ → ℕ → List ℕ → Run ℕ
get_bit_loop fuel data' at t_pos_get zero dp = ok data'
get_bit_loop zero data' at t_pos_get (suc t) dp = fault out_of_fuel
get_bit_loop (suc fuel) data' at t_pos_get (suc t) dp =
    let n = t_len_get (suc t) t_pos_get in
    load dp at >>= λ b.
    let t_data_get = get_bit_data b (t_pos_get % 8 + 1 - n) n in
    get_bit_loop fuel (u32 (bit_or data' (t_data_get <<< (suc t - n)))) (at + 1) (sub8 t_pos_get n)
      (suc t - n) dp
