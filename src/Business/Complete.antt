-- ===== src/Business/Complete.antt =====
-- A complete message of the number 0x3008 has a decoding.
use linux_char_driver_frame.Base.{
  ℕ, zero, suc, ◌+◌, ◌*◌, ◌/◌, ◌≤◌, ◌<◌, ◌^◌, ◌≡◌, refl, ap, ap₂, ◌∙◌, arith, some, List, [], ◌∷◌,
  ◌++◌, length, get_elem?, get_elem?-eq-some, drop, ok, or_fault, out_of_bounds, ◌>>=◌, Returns, u8,
  u16, u32, leb, Bool-cases, inl, inr, ◌<<<◌, bit_or,
}
use linux_char_driver_frame.Base.Bits.{zero-bit_or, bit_or_disjoint}
use linux_char_driver_frame.Codec.{short_len, get_byte_loop}
use linux_char_driver_frame.HashMap.{read_bytes}
use linux_char_driver_frame.Format.Number.{streq}
use linux_char_driver_frame.PdtFormat.Layout.{Layout, fixed, sized, layout_3008}
use linux_char_driver_frame.PdtFormat.Names.{
  proto_num_key, lab_key, slot_info_key, sync_info_key, tact_info_key, slc_info_key, slc_data_key,
  sync_index_key, st_info_key, dc_info_key, dc_data_key,
}
use linux_char_driver_frame.Business.Decode.{index_of, read_number, decode}

get_byte_loop-Returns :
    (len acc at : ℕ) (dp : List ℕ)
    → at + len ≤ length dp
    → Returns (get_byte_loop len acc at dp) λ _. Unit {0}
unfolding get_byte_loop
get_byte_loop-Returns zero acc at dp inside = (acc, refl, tt)
get_byte_loop-Returns (suc len) acc at dp inside =
    let (b, here) = get_elem?-eq-some dp at (omega arith) in
    let (v, run, done) =
      get_byte_loop-Returns len (u32 (bit_or acc (b <<< (len * 8)))) (at + 1) dp (omega arith) in
    (
      v,
      ap
            (λ o. or_fault out_of_bounds o >>= λ b.
              get_byte_loop len (u32 (bit_or acc (b <<< (len * 8)))) (at + 1) dp)
            here
          ∙ run,
      tt,
    )

length-drop : (n : ℕ) (xs : List ℕ) → n ≤ length xs → length (drop n xs) + n ≡ length xs
length-drop zero xs h = omega arith
length-drop (suc n) [] h = absurd (omega arith)
length-drop (suc n) (x ∷ xs) h = omega (arith, length-drop n xs)

read_bytes-Returns : (n : ℕ) (p : List ℕ) → n ≤ length p → Returns (read_bytes n p) λ _. Unit {0}
unfolding read_bytes
read_bytes-Returns zero p h = ([], refl, tt)
read_bytes-Returns (suc n) [] h = absurd (omega arith)
read_bytes-Returns (suc n) (b ∷ p) h =
    let (bs, run, done) = read_bytes-Returns n p (omega arith) in
    (b ∷ bs, ap (λ r. r >>= λ bs. ok (b ∷ bs)) run, tt)

-- A field inside the buffer can be read.
read_number-Returns :
    (dp : List ℕ) (len at : ℕ)
    → len < 256
    → at + len ≤ length dp
    → Returns (read_number dp len at) λ _. Unit {0}
read_number-Returns dp len at small inside = elim (Bool-cases (leb len 4)) [
  | inl short ↦
      let same : short_len len ≡ len = ground arith in
      let (v, run, done) = get_byte_loop-Returns len 0 at dp inside in
      (v, ground (arith, short, ap (λ n. get_byte_loop n 0 at dp) same, run), tt)
  | inr long ↦
      let (bs, run, done) =
        read_bytes-Returns len (drop at dp) (omega (arith, length-drop at dp (omega arith))) in
      (0, ground (arith, long, run), tt)
]

read_number-one :
    (dp : List ℕ) (at b : ℕ) → get_elem? dp at ≡ some b → b < 256 → read_number dp 1 at ≡ ok b
unfolding get_byte_loop
read_number-one dp at b here small = rw (here, zero-bit_or) (ap ok (omega arith))

read_number-two :
    (dp : List ℕ) (at b c : ℕ)
    → get_elem? dp at ≡ some b
    → get_elem? dp (at + 1) ≡ some c
    → b < 256
    → c < 256
    → read_number dp 2 at ≡ ok (b * 256 + c)
unfolding get_byte_loop
read_number-two dp at b c here there small small' =
    let hi : u32 (b <<< 8) ≡ b * 2 ^ 8 = omega arith in
    let lo : c <<< 0 ≡ c = omega arith in
    rw (here, zero-bit_or, there)
      (ap ok
        (ap₂ (λ x y. u32 (bit_or x y)) hi lo ∙ ap u32 (bit_or_disjoint 8 b c small') ∙ omega arith))

module _ (dp : List ℕ) (all : List Layout) where
  decode_fixed :
      (name : List ℕ) (byte_pos len : ℕ) (rest : List Layout) (s : ℕ) (values : List ℕ) (v : ℕ)
      → read_number dp len (u8 (byte_pos + s)) ≡ ok v
      → decode dp all (fixed name byte_pos len ∷ rest) s values
        ≡ decode dp all rest s (values ++ v ∷ [])
  unfolding decode
  decode_fixed name byte_pos len rest s values v number =
      ap (λ r. r >>= λ v. decode dp all rest s (values ++ v ∷ [])) number

  decode_sized :
      (name : List ℕ) (byte_pos : ℕ) (index : List ℕ) (rest : List Layout) (s : ℕ) (values : List ℕ)
      (j n v : ℕ)
      → index_of index all ≡ some j
      → get_elem? values j ≡ some n
      → read_number dp (u16 n) (u8 (byte_pos + s)) ≡ ok v
      → decode dp all (sized name byte_pos index ∷ rest) s values
        ≡ decode dp all rest (s + u32 (n * 8) / 8) (values ++ v ∷ [])
  unfolding decode
  decode_sized name byte_pos index rest s values j n v at_j has_n number =
      rw (at_j, has_n, number) refl

  decode_done : (s : ℕ) (values : List ℕ) → decode dp all [] s values ≡ ok values
  unfolding decode
  decode_done s values = refl

-- The fields of a message of the number 0x3008, one behind the other.
decode_fields :
    (dp : List ℕ) (v0 v1 slot v3 tact slc v6 v7 v8 dc v10 : ℕ)
    → read_number dp 2 0 ≡ ok v0
    → read_number dp 2 2 ≡ ok v1
    → read_number dp 2 4 ≡ ok slot
    → read_number dp 2 6 ≡ ok v3
    → read_number dp 1 8 ≡ ok tact
    → read_number dp 1 9 ≡ ok slc
    → read_number dp (u16 slc) 10 ≡ ok v6
    → read_number dp 1 (u8 (10 + (0 + u32 (slc * 8) / 8))) ≡ ok v7
    → read_number dp 1 (u8 (11 + (0 + u32 (slc * 8) / 8))) ≡ ok v8
    → read_number dp 1 (u8 (12 + (0 + u32 (slc * 8) / 8))) ≡ ok dc
    → read_number dp (u16 dc) (u8 (13 + (0 + u32 (slc * 8) / 8))) ≡ ok v10
    → decode dp layout_3008 layout_3008 0 []
      ≡ ok (v0 ∷ v1 ∷ slot ∷ v3 ∷ tact ∷ slc ∷ v6 ∷ v7 ∷ v8 ∷ dc ∷ v10 ∷ [])
unfolding streq
decode_fields dp v0 v1 slot v3 tact slc v6 v7 v8 dc v10 r0 r1 r2 r3 r4 r5 r6 r7 r8 r9 r10 =
    let L = layout_3008 in
    let s : ℕ = 0 + u32 (slc * 8) / 8 in
    decode_fixed dp L proto_num_key 0 2 (drop 1 L) 0 [] v0 r0
    ∙ decode_fixed dp L lab_key 2 2 (drop 2 L) 0 (v0 ∷ []) v1 r1
    ∙ decode_fixed dp L slot_info_key 4 2 (drop 3 L) 0 (v0 ∷ v1 ∷ []) slot r2
    ∙ decode_fixed dp L sync_info_key 6 2 (drop 4 L) 0 (v0 ∷ v1 ∷ slot ∷ []) v3 r3
    ∙ decode_fixed dp L tact_info_key 8 1 (drop 5 L) 0 (v0 ∷ v1 ∷ slot ∷ v3 ∷ []) tact r4
    ∙ decode_fixed dp L slc_info_key 9 1 (drop 6 L) 0 (v0 ∷ v1 ∷ slot ∷ v3 ∷ tact ∷ []) slc r5
    ∙ decode_sized dp L slc_data_key 10 slc_info_key (drop 7 L) 0
        (v0 ∷ v1 ∷ slot ∷ v3 ∷ tact ∷ slc ∷ []) 5 slc v6 refl refl r6
    ∙ decode_fixed dp L sync_index_key 10 1 (drop 8 L) s
        (v0 ∷ v1 ∷ slot ∷ v3 ∷ tact ∷ slc ∷ v6 ∷ []) v7 r7
    ∙ decode_fixed dp L st_info_key 11 1 (drop 9 L) s
        (v0 ∷ v1 ∷ slot ∷ v3 ∷ tact ∷ slc ∷ v6 ∷ v7 ∷ []) v8 r8
    ∙ decode_fixed dp L dc_info_key 12 1 (drop 10 L) s
        (v0 ∷ v1 ∷ slot ∷ v3 ∷ tact ∷ slc ∷ v6 ∷ v7 ∷ v8 ∷ []) dc r9
    ∙ decode_sized dp L dc_data_key 13 dc_info_key [] s
        (v0 ∷ v1 ∷ slot ∷ v3 ∷ tact ∷ slc ∷ v6 ∷ v7 ∷ v8 ∷ dc ∷ []) 9 dc v10 refl refl r10
    ∙ decode_done dp L (s + u32 (dc * 8) / 8)
        (v0 ∷ v1 ∷ slot ∷ v3 ∷ tact ∷ slc ∷ v6 ∷ v7 ∷ v8 ∷ dc ∷ v10 ∷ [])

-- A message of the number 0x3008 in a buffer of 100 bytes that holds its two fields of variable
-- length has a decoding, in which the slot and the tact are the bytes at their places.
pub decode_3008 :
    (dp : List ℕ) (b c tact slc dc : ℕ)
    → length dp ≡ 100
    → get_elem? dp 4 ≡ some b
    → get_elem? dp 5 ≡ some c
    → get_elem? dp 8 ≡ some tact
    → get_elem? dp 9 ≡ some slc
    → get_elem? dp (12 + slc) ≡ some dc
    → b < 256
    → c < 256
    → tact < 256
    → slc < 256
    → dc < 256
    → 13 + slc + dc ≤ 100
    → Returns
        (decode dp layout_3008 layout_3008 0 [])
        λ out. (get_elem? out 2 ≡ some (b * 256 + c)) × (get_elem? out 4 ≡ some tact)
decode_3008 dp b c tact slc dc width at4 at5 at8 at9 at_dc b8 c8 tact8 slc8 dc8 fits =
    let read = λ (len at : ℕ) (h : len < 256) (k : at + len ≤ 100).
      read_number-Returns dp len at h (omega (arith, width)) in
    let (v0, r0, u0) = read 2 0 (omega arith) (omega arith) in
    let (v1, r1, u1) = read 2 2 (omega arith) (omega arith) in
    let r2 = read_number-two dp 4 b c at4 at5 b8 c8 in
    let (v3, r3, u3) = read 2 6 (omega arith) (omega arith) in
    let r4 = read_number-one dp 8 tact at8 tact8 in
    let r5 = read_number-one dp 9 slc at9 slc8 in
    let (v6, r6, u6) = read (u16 slc) 10 (omega arith) (omega arith) in
    let s : ℕ = 0 + u32 (slc * 8) / 8 in
    let s_is : s ≡ slc = omega arith in
    let (v7, r7, u7) = read 1 (u8 (10 + s)) (omega arith) (omega arith) in
    let (v8, r8, u8') = read 1 (u8 (11 + s)) (omega arith) (omega arith) in
    let r9 : read_number dp 1 (u8 (12 + s)) ≡ ok dc =
      ap (read_number dp 1) (omega arith) ∙ read_number-one dp (12 + slc) dc at_dc dc8 in
    let (v10, r10, u10) = read (u16 dc) (u8 (13 + s)) (omega arith) (omega arith) in
    (
      v0 ∷ v1 ∷ (b * 256 + c) ∷ v3 ∷ tact ∷ slc ∷ v6 ∷ v7 ∷ v8 ∷ dc ∷ v10 ∷ [],
      decode_fields dp v0 v1 (b * 256 + c) v3 tact slc v6 v7 v8 dc v10 r0 r1 r2 r3 r4 r5 r6 r7 r8 r9
          r10,
      (refl, refl),
    )
