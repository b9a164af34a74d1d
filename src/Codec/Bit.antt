-- ===== src/Codec/Bit.antt =====
-- Bit fields: `pa_set_protocol_bit_data` against the loop of `pa_get_protocol_bit_data`.
use linux_char_driver_frame.Base.{
  ℕ, zero, suc, ◌+◌, ◌-◌, ◌*◌, ◌/◌, ◌%◌, ◌^◌, ◌≤◌, ◌<◌, ◌≡◌, refl, sym, ap, ◌∙◌, arith, u8, u32,
  bit_or, List, [], ◌∷◌, set, ◌⊎◌, inl, inr, get_elem?, some, Returns, ok, ◌>>=◌, sub8, length,
  get_elem?-set_self, get_elem?-set_ne, length-set,
}
use linux_char_driver_frame.Base.Pow.{two-pow-le, two-pow-pos, two-pow-add}
use linux_char_driver_frame.Codec.{
  get_bit_data, set_bit_data, t_len_get, set_bit_loop, get_bit_loop, pa_set_protocol_bit_data,
  short_len,
}
use linux_char_driver_frame.Codec.Accumulate.{SameOutside, gather, gather_fits, gather_done}
use linux_char_driver_frame.Codec.Piece.{piece_round_trip}
use mathlib.Core.Path.{subst}
use native.Mathlib.Nat.{zero-mul, zero-add, mod-lt, mod-eq_of_lt}

-- The bytes that a field of `t_len` bits covers, from the bit `t_pos` of the first one down.
unfoldable pub span : ℕ → ℕ → ℕ
span zero t_pos = 0
span (suc t) t_pos = (suc t + 14 - t_pos % 8) / 8

span_of_pos : (t t_pos : ℕ) → 0 < t → span t t_pos ≡ (t + 14 - t_pos % 8) / 8
unfolding span
span_of_pos zero t_pos h = elim h [ ]
span_of_pos (suc t) t_pos h = refl

span_of_zero : (t t_pos : ℕ) → t ≡ 0 → span t t_pos ≡ 0
unfolding span
span_of_zero zero t_pos h = refl
span_of_zero (suc t) t_pos h = absurd (omega arith)

div-lt : (d x y : ℕ) → 0 < x → 0 < y → d < x * y → d / y < x
div-lt d x y hx hy h = grind arith

in_range : (dp : List ℕ) (j : ℕ) {b : ℕ} → get_elem? dp j ≡ some b → j < length dp
in_range [] j h = cc
in_range (x ∷ xs) zero h = omega arith
in_range (x ∷ xs) (suc j) h = omega (arith, in_range xs j h)

abbrev pub IsClear : ℕ → ℕ → List ℕ → Type 0
IsClear at n dp = (j : ℕ) → at ≤ j → j < at + n → get_elem? dp j ≡ some 0

-- The bit above the piece is outside its byte, or above the value.
abbrev pub Fits : ℕ → ℕ → ℕ → Type 0
Fits data' t_pos t_len = 0 < t_len → (t_pos % 8 ≡ 7) ⊎ (data' < 2 ^ t_len)

-- `out` is `dp` with the low `t_len` bits of `data'`, as the reader sees it on top of the bits `hi`
-- that it has read so far.
abbrev pub IsWritten : ℕ → ℕ → ℕ → ℕ → List ℕ → List ℕ → Type 0
IsWritten data' at t_pos t_len dp out =
    SameOutside at (span t_len t_pos) dp out
    × ((hi fuel : ℕ)
        → (hi + 1) * 2 ^ t_len ≤ 2 ^ 32
        → t_len ≤ fuel
        → get_bit_loop fuel (hi * 2 ^ t_len) at t_pos t_len out
          ≡ ok (hi * 2 ^ t_len + data' % 2 ^ t_len))

module _ (data' at t_pos t : ℕ) (dp : List ℕ) (len : suc t ≤ 32) (pos : t_pos < 256)
    (fits : Fits data' t_pos (suc t)) (clear : IsClear at (span (suc t) t_pos) dp) where
  abbrev n : ℕ
  n = t_len_get (suc t) t_pos

  abbrev s : ℕ
  s = t_pos % 8 + 1 - n

  abbrev byte : ℕ
  byte = set_bit_data 0 (get_bit_data data' (suc t - n) n) s n

  span-suc : 1 + span (suc t - n) (sub8 t_pos n) ≡ span (suc t) t_pos
  span-suc = ground (
    arith,
    span_of_pos (suc t) t_pos,
    span_of_pos (suc t - n) (sub8 t_pos n),
    span_of_zero (suc t - n) (sub8 t_pos n),
  )

  whole : 2 ^ suc t ≡ 2 ^ n * 2 ^ (suc t - n)
  whole =
      ap (λ (k : ℕ). 2 ^ k) (let e : suc t ≡ n + (suc t - n) = omega arith in e)
      ∙ two-pow-add n (suc t - n)

  next_Fits : Fits data' (sub8 t_pos n) (suc t - n)
  next_Fits h = inl (omega arith)

  piece_fits : (data' / 2 ^ (suc t - n) < 2 ^ n) ⊎ (n + s ≡ 8)
  piece_fits = elim (fits (omega arith)) [
    | inl top ↦ inr (omega arith)
    | inr small ↦ inl (
        div-lt data' (2 ^ n) (2 ^ (suc t - n)) (two-pow-pos n) (two-pow-pos (suc t - n))
          (rw whole at small))
  ]

  next-IsClear : IsClear (at + 1) (span (suc t - n) (sub8 t_pos n)) (set dp at byte)
  next-IsClear j p q =
      get_elem?-set_ne dp at j byte (omega arith) ∙ clear j (omega arith) (omega (arith, span-suc))

  step_outside :
      (out : List ℕ)
      → SameOutside (at + 1) (span (suc t - n) (sub8 t_pos n)) (set dp at byte) out
      → SameOutside at (span (suc t) t_pos) dp out
  step_outside out r = record {
    same_length = r.same_length ∙ length-set dp at byte;
    same = λ j p. ground (arith, span-suc, r.same j, get_elem?-set_ne dp at j byte);
  }

  room_at : at < length dp
  room_at = in_range dp at (clear at (omega arith) (omega (arith, span-suc)))

  step_read :
      (out : List ℕ)
      → IsWritten data' (at + 1) (sub8 t_pos n) (suc t - n) (set dp at byte) out
      → (hi fuel : ℕ) → (hi + 1) * 2 ^ suc t ≤ 2 ^ 32
      → suc t ≤ fuel
      → get_bit_loop fuel (hi * 2 ^ suc t) at t_pos (suc t) out
        ≡ ok (hi * 2 ^ suc t + data' % 2 ^ suc t)
  unfolding get_bit_loop
  step_read out w hi zero room enough = absurd (omega arith)
  step_read out (r, read) hi (suc fuel) room enough =
      let here : get_elem? out at ≡ some byte =
        r.same at (inl (omega arith)) ∙ get_elem?-set_self dp at byte room_at in
      let k = suc t - n in
      let split : suc t ≡ n + k = omega arith in
      let room' : (hi + 1) * 2 ^ (n + k) ≤ 2 ^ 32 =
        subst (λ x. (hi + 1) * 2 ^ x ≤ 2 ^ 32) split room in
      let v = data' / 2 ^ k % 2 ^ n in
      let small : v < 2 ^ n = mod-lt (data' / 2 ^ k) (two-pow-pos n) in
      let acc : u32 (bit_or (hi * 2 ^ suc t) (v * 2 ^ k)) ≡ (hi * 2 ^ n + v) * 2 ^ k =
        ap (λ (x : ℕ). u32 (bit_or (hi * 2 ^ x) (v * 2 ^ k))) split ∙ gather n k hi v small room' in
      rw (here, ◌>>=◌, piece_round_trip data' k n s (omega arith) piece_fits, acc)
        (read (hi * 2 ^ n + v) fuel (gather_fits n k hi v small room') (omega arith)
          ∙ ap ok
              (gather_done n k hi data' ∙ ap (λ (x : ℕ). hi * 2 ^ x + data' % 2 ^ x) (sym split)))

  step_set :
      (fuel : ℕ)
      → set_bit_loop (suc fuel) data' at t_pos (suc t) dp
        ≡ set_bit_loop fuel data' (at + 1) (sub8 t_pos n) (suc t - n) (set dp at byte)
  unfolding set_bit_loop
  step_set fuel =
      let byte_size : u8 (suc t - n) ≡ suc t - n = omega arith in
      rw (clear at (omega arith) (omega (arith, span-suc)), ◌>>=◌, byte_size)

set_bit_loop-IsWritten :
    (fuel data' at t_pos t_len : ℕ) (dp : List ℕ)
    → t_len ≤ fuel
    → t_len ≤ 32
    → t_pos < 256
    → Fits data' t_pos t_len
    → IsClear at (span t_len t_pos) dp
    → Returns (set_bit_loop fuel data' at t_pos t_len dp) (IsWritten data' at t_pos t_len dp)
unfolding set_bit_loop get_bit_loop
set_bit_loop-IsWritten fuel data' at t_pos zero dp enough len pos fits clear =
    (dp, refl, (record { same_length = refl; same = λ j p. refl }, λ hi f r e. ap ok (omega arith)))
set_bit_loop-IsWritten zero data' at t_pos (suc t) dp enough len pos fits clear =
    absurd (omega arith)
set_bit_loop-IsWritten (suc fuel) data' at t_pos (suc t) dp enough len pos fits clear =
    let k = n data' at t_pos t dp len pos fits clear in
    let b = byte data' at t_pos t dp len pos fits clear in
    let (out, run, written) =
      set_bit_loop-IsWritten fuel data' (at + 1) (sub8 t_pos k) (suc t - k) (set dp at b)
        (omega arith) (omega arith) (omega arith) (next_Fits data' at t_pos t dp len pos fits clear)
        (next-IsClear data' at t_pos t dp len pos fits clear) in
    (
      out,
      step_set data' at t_pos t dp len pos fits clear fuel ∙ run,
      (
        step_outside data' at t_pos t dp len pos fits clear out written.0,
        step_read data' at t_pos t dp len pos fits clear out written,
      ),
    )

-- Writing a value of less than 2 ^ len to a bit field of len bits, at most 32, from a bit position
-- below 256 on, into bytes that are there and cleared faults nowhere, changes no byte outside the
-- field, and the read loop gives the value back.
pub get_bit_loop-pa_set_protocol_bit_data :
    (data' byte_pos bit_pos len : ℕ) (dp : List ℕ)
    → len ≤ 32
    → bit_pos < 256
    → data' < 2 ^ len
    → IsClear byte_pos (span len bit_pos) dp
    → Returns (pa_set_protocol_bit_data data' byte_pos bit_pos len dp) λ out.
      SameOutside byte_pos (span len bit_pos) dp out
      × (get_bit_loop len 0 byte_pos bit_pos len out ≡ ok data')
unfolding pa_set_protocol_bit_data
get_bit_loop-pa_set_protocol_bit_data data' byte_pos bit_pos len dp h pos small clear =
    let e : short_len len ≡ len = ground arith in
    let (out, run, (outside, read)) =
      set_bit_loop-IsWritten len data' byte_pos bit_pos len dp (omega arith) h pos (λ _. inr small)
        clear in
    (
      out,
      ap (λ (x : ℕ). set_bit_loop x data' byte_pos bit_pos x dp) e ∙ run,
      (
        outside,
        simp (zero-mul, zero-add, mod-eq_of_lt small) at
            (read 0 len (omega (arith, two-pow-le len 32 h)) (omega arith)),
      ),
    )
