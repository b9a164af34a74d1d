-- ===== src/Analyzer/Plain.antt =====
-- Formats of byte fields of fixed places, and the loops of `pa_generate_protocol_data` and
-- `pa_parse_protocol_data` on them.
use linux_char_driver_frame.Base.{
  ℕ, zero, suc, ◌+◌, ◌*◌, ◌%◌, ◌^◌, ◌≤◌, ◌<◌, ◌≡◌, refl, arith, ◌⊎◌, inl, inr, Bool, Option, some,
  none, List, [], ◌∷◌, length, get_elem?, set, ok, out_of_bounds, ◌>>=◌, or_fault, u32, bit_or,
  ◌<<<◌,
}
use linux_char_driver_frame.Codec.{pa_set_protocol_byte_data, get_byte_loop, short_len}
use linux_char_driver_frame.Codec.Accumulate.{SameOutside}
use linux_char_driver_frame.Format.{HeadList}
use linux_char_driver_frame.Format.Info.{ProtoInfo}
use linux_char_driver_frame.Analyzer.Setup.{ProtocolAnalyzer, fields, put_fields}
use linux_char_driver_frame.Analyzer.{
  resolve, write_field, generate_loop, read_field, pa_get_protocol_byte_data, parse_loop,
}

-- A byte field of at most four bytes at a fixed place among `size` bytes.
pub record IsPlain (size : ℕ) (info : ProtoInfo) : Type 0 where
  pub bytes : info.len_unit ≡ 8
  pub short : info.len ≤ 4
  pub fixed : info.vlenth_flag ≡ 0
  pub inside : info.byte_pos + info.len ≤ size

-- Two places that do not meet.
abbrev pub Apart : ℕ → ℕ → ℕ → ℕ → Type 0
Apart at n at' n' = (at + n ≤ at') ⊎ (at' + n' ≤ at)

abbrev pub ApartAll : ℕ → ℕ → List ProtoInfo → Type 0
ApartAll at n [] = Unit {0}
ApartAll at n (info ∷ infos) = Apart at n info.byte_pos info.len × ApartAll at n infos

-- A format of such fields, no two of which share a byte.
abbrev pub IsPlainFormat : ℕ → List ProtoInfo → Type 0
IsPlainFormat size [] = Unit {0}
IsPlainFormat size (info ∷ infos) =
    IsPlain size info × ApartAll info.byte_pos info.len infos × IsPlainFormat size infos

-- The message shows a field's value, cut to the field's length.
abbrev pub cut : ProtoInfo → ℕ
cut info = info.data_value % 2 ^ (8 * info.len)

abbrev pub Shows : List ℕ → List ProtoInfo → Type 0
Shows dp [] = Unit {0}
Shows dp (info ∷ infos) =
    (get_byte_loop info.len 0 info.byte_pos dp ≡ ok (cut info)) × Shows dp infos

-- What the parser makes of a field.
abbrev pub parsed : ProtoInfo → ProtoInfo
parsed info = record info { data_value = cut info }

get_byte_loop-same :
    (n acc at : ℕ) (out dp : List ℕ)
    → ((j : ℕ) → at ≤ j → j < at + n → get_elem? out j ≡ get_elem? dp j)
    → get_byte_loop n acc at out ≡ get_byte_loop n acc at dp
unfolding get_byte_loop
get_byte_loop-same zero acc at out dp same = refl
get_byte_loop-same (suc n) acc at out dp same = rw (same at (omega arith) (omega arith)) (
    step (get_elem? dp at)
      (λ x. get_byte_loop-same n x (at + 1) out dp (λ j p q. same j (omega arith) (omega arith))))
  where
    step :
        (o : Option ℕ)
        → ((x : ℕ) → get_byte_loop n x (at + 1) out ≡ get_byte_loop n x (at + 1) dp)
        → (or_fault out_of_bounds o >>= λ b.
            get_byte_loop n (u32 (bit_or acc (b <<< (n * 8)))) (at + 1) out)
          ≡ (or_fault out_of_bounds o >>= λ b.
              get_byte_loop n (u32 (bit_or acc (b <<< (n * 8)))) (at + 1) dp)
    step none rest = refl
    step (some b) rest = rest (u32 (bit_or acc (b <<< (n * 8))))

-- What one field's bytes hold is not changed by a write apart from them.
pub get_byte_loop-SameOutside :
    (n : ℕ) {at at' n' : ℕ} {dp out : List ℕ}
    → SameOutside at' n' dp out
    → Apart at n at' n'
    → get_byte_loop n 0 at out ≡ get_byte_loop n 0 at dp
get_byte_loop-SameOutside n {at} {at'} {n'} {dp} {out} s apart =
    get_byte_loop-same n 0 at out dp (λ j p q. s.same j (side j p q))
  where
    side : (j : ℕ) → at ≤ j → j < at + n → (j < at') ⊎ (at' + n' ≤ j)
    side j p q = elim apart [ inl l ↦ inl (omega arith) | inr r ↦ inr (omega arith) ]

-- One round of the generator on a plain field.
module _ (pa : ProtocolAnalyzer) (hl : HeadList) (info : ProtoInfo) (at : ℕ)
    (e : pa.pa_list_head_p ≡ some hl) (there : get_elem? hl.infos at ≡ some info)
    (plain : IsPlain (length pa.protocol_data) info) where
  resolve-fixed : resolve at info pa ≡ ok pa
  unfolding resolve
  resolve-fixed = rw plain.fixed refl

  fields-eq : fields pa ≡ ok hl.infos
  unfolding fields
  fields-eq = rw e refl

  write_field-byte :
      (dp : List ℕ)
      → write_field info info.len info.len_unit dp
        ≡ pa_set_protocol_byte_data info.data_value info.byte_pos info.bit_pos info.len dp
  unfolding write_field
  write_field-byte dp = rw plain.bytes (ground (arith, plain.short))

  pub generate_loop-step :
      (left : ℕ) (end : Option ℕ) (out : List ℕ)
      → pa_set_protocol_byte_data info.data_value info.byte_pos info.bit_pos info.len
          pa.protocol_data
        ≡ ok out
      → generate_loop (suc left) at end pa
        ≡ generate_loop left
            (at + 1)
            (some (info.byte_pos + info.len))
            (record pa { protocol_data = out })
  unfolding generate_loop
  generate_loop-step left end out run =
      rw (fields-eq, there, resolve-fixed)
        (rw (fields-eq, there) (rw (write_field-byte pa.protocol_data, run) refl))

  read_field-byte :
      (room : Bool) (dp : List ℕ)
      → get_byte_loop info.len 0 info.byte_pos dp ≡ ok (cut info)
      → read_field room dp info ≡ ok (parsed info)
  unfolding read_field pa_get_protocol_byte_data
  read_field-byte room dp shows =
      let e : short_len info.len ≡ info.len = ground (arith, plain.short) in
      rw plain.bytes (ground (arith, plain.short, e, shows))

  pub parse_loop-step :
      (room : ℕ → Bool) (left : ℕ)
      → get_byte_loop info.len 0 info.byte_pos pa.protocol_data ≡ ok (cut info)
      → parse_loop room (suc left) at pa
        ≡ parse_loop room left (at + 1) (put_fields pa (set hl.infos at (parsed info)))
  unfolding parse_loop
  parse_loop-step room left shows =
      rw (fields-eq, there, resolve-fixed)
        (rw (fields-eq, there) (rw (read_field-byte (room at) pa.protocol_data shows) refl))
