-- ===== src/Codec/Byte.antt =====
-- Byte fields: `pa_set_protocol_byte_data` against the loop of `pa_get_protocol_byte_data`.
use linux_char_driver_frame.Base.{
  ℕ, zero, suc, ◌+◌, ◌*◌, ◌%◌, ◌^◌, ◌≤◌, ◌<◌, bit_and, ◌≡◌, refl, ap, ◌∙◌, inl, arith, List, some,
  length, length-set, get_elem?, set, get_elem?-set_self, get_elem?-set_ne, get_elem?-eq-some, ok,
  Returns, ◌>>=◌, ◌>>>◌,
}
use linux_char_driver_frame.Base.Bits.{bit_and_mask}
use linux_char_driver_frame.Base.Pow.{two-pow-le}
use linux_char_driver_frame.Codec.{set_byte_loop, get_byte_loop, pa_set_protocol_byte_data}
use linux_char_driver_frame.Codec.Accumulate.{SameOutside, gather, gather_fits, gather_done}
use native.Mathlib.Nat.{mul_comm, zero-mul, zero-add}

-- `out` is `dp` with the low `left` bytes of `data'` at `at`, as the reader sees it on top of the
-- bits `hi` that it has read so far.
abbrev pub IsWritten : ℕ → ℕ → ℕ → List ℕ → List ℕ → Type 0
IsWritten left data' at dp out =
    SameOutside at left dp out
    × ((hi : ℕ)
        → (hi + 1) * 2 ^ (8 * left) ≤ 2 ^ 32
        → get_byte_loop left (hi * 2 ^ (8 * left)) at out
          ≡ ok (hi * 2 ^ (8 * left) + data' % 2 ^ (8 * left)))

eight-mul-suc : (left : ℕ) → 8 * suc left ≡ 8 + 8 * left
eight-mul-suc left = omega arith

module _ (left data' at : ℕ) (dp : List ℕ) (inside : at + suc left ≤ length dp) where
  abbrev byte : ℕ
  byte = bit_and (data' >>> (8 * left)) 0xff

  step_outside :
      (out : List ℕ)
      → SameOutside (at + 1) left (set dp at byte) out
      → SameOutside at (suc left) dp out
  step_outside out s = record {
    same_length = s.same_length ∙ length-set dp at byte;
    same = λ j p. ground (arith, s.same j, get_elem?-set_ne dp at j byte);
  }

  step_read :
      (out : List ℕ)
      → IsWritten left data' (at + 1) (set dp at byte) out
      → (hi : ℕ) → (hi + 1) * 2 ^ (8 * suc left) ≤ 2 ^ 32
      → get_byte_loop (suc left) (hi * 2 ^ (8 * suc left)) at out
        ≡ ok (hi * 2 ^ (8 * suc left) + data' % 2 ^ (8 * suc left))
  unfolding get_byte_loop
  step_read out (s, read) hi fits =
      let here : get_elem? out at ≡ some byte =
        s.same at (inl (omega arith)) ∙ get_elem?-set_self dp at byte (omega arith) in
      let fits' : (hi + 1) * 2 ^ (8 + 8 * left) ≤ 2 ^ 32 = rw (eight-mul-suc left) at fits in
      let v = data' >>> (8 * left) % 2 ^ 8 in
      let small : v < 2 ^ 8 = omega arith in
      rw
        (
          here,
          ◌>>=◌,
          eight-mul-suc left,
          mul_comm left 8,
          bit_and_mask 8 (data' >>> (8 * left)),
          gather 8 (8 * left) hi v small fits',
        )
        (read (hi * 2 ^ 8 + v) (gather_fits 8 (8 * left) hi v small fits')
          ∙ ap ok (gather_done 8 (8 * left) hi data'))

pub set_byte_loop-IsWritten :
    (left data' at : ℕ) (dp : List ℕ)
    → at + left ≤ length dp
    → Returns (set_byte_loop left data' at dp) (IsWritten left data' at dp)
unfolding set_byte_loop get_byte_loop
set_byte_loop-IsWritten zero data' at dp h =
    (dp, refl, (record { same_length = refl; same = λ j p. refl }, λ hi fits. ap ok (omega arith)))
set_byte_loop-IsWritten (suc left) data' at dp h =
    let (b, here) = get_elem?-eq-some dp at (omega arith) in
    let (out, run, written) =
      set_byte_loop-IsWritten left data' (at + 1) (set dp at (byte left data' at dp h))
        (rw length-set (omega arith)) in
    (
      out,
      rw (here, ◌>>=◌) run,
      (step_outside left data' at dp h out written.0, step_read left data' at dp h out written),
    )

-- Writing a byte field of at most four bytes inside the buffer faults nowhere, changes no byte
-- outside the field, and the read loop then gives the low `8 * len` bits of the value back.
pub get_byte_loop-pa_set_protocol_byte_data :
    (data' byte_pos bit_pos len : ℕ) (dp : List ℕ)
    → len ≤ 4
    → byte_pos + len ≤ length dp
    → Returns (pa_set_protocol_byte_data data' byte_pos bit_pos len dp) λ out.
      SameOutside byte_pos len dp out
      × (get_byte_loop len 0 byte_pos out ≡ ok (data' % 2 ^ (8 * len)))
unfolding pa_set_protocol_byte_data
get_byte_loop-pa_set_protocol_byte_data data' byte_pos bit_pos len dp small inside =
    let (out, run, (outside, read)) = set_byte_loop-IsWritten len data' byte_pos dp inside in
    (out, run, (outside, simp (zero-mul, zero-add) at (read 0 room)))
  where
    room : (0 + 1) * 2 ^ (8 * len) ≤ 2 ^ 32
    room = omega (arith, two-pow-le (8 * len) 32 (omega arith))
