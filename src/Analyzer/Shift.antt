-- ===== src/Analyzer/Shift.antt =====
-- What a field of variable length does to the places of the fields behind it.
use linux_char_driver_frame.Base.{
  ℕ, zero, suc, ◌+◌, ◌*◌, ◌/◌, ◌<◌, ◌≡◌, refl, ◌∙◌, arith, Option, some, none, List, [], ◌∷◌,
  length, get_elem?, get_elem?-set_self, get_elem?-set_ne, set, ok, Returns, u8, u16, u32, ltb,
  ◌==◌, if◌then◌else◌,
}
use linux_char_driver_frame.Format.{HeadList}
use linux_char_driver_frame.Format.Info.{ProtoInfo}
use linux_char_driver_frame.Analyzer.Setup.{
  ProtocolAnalyzer, fields, put_fields, find_info, info_of, pa_find_key,
}
use linux_char_driver_frame.Analyzer.{shift_bytes, map_from, pa_recompute_byte_pos}

-- A field `n` bytes further back.
abbrev pub moved : ℕ → Option ProtoInfo → Option ProtoInfo
moved n none = none
moved n (some i) = some (record i { byte_pos = u8 (i.byte_pos + n) })

shift_bytes-get :
    (n : ℕ) (infos : List ProtoInfo) (j : ℕ)
    → get_elem? (shift_bytes n infos) j ≡ moved n (get_elem? infos j)
unfolding shift_bytes
shift_bytes-get n [] j = refl
shift_bytes-get n (i ∷ infos) zero = refl
shift_bytes-get n (i ∷ infos) (suc j) = shift_bytes-get n infos j

pub map_from-get :
    (at n : ℕ) (infos : List ProtoInfo) (j : ℕ)
    → get_elem? (map_from at (shift_bytes n) infos) j
      ≡ (if ltb j at then get_elem? infos j else moved n (get_elem? infos j))
unfolding map_from
map_from-get zero n infos j = shift_bytes-get n infos j ∙ (ground arith)
map_from-get (suc at) n [] j = ground arith
map_from-get (suc at) n (i ∷ infos) zero = ground arith
map_from-get (suc at) n (i ∷ infos) (suc j) = map_from-get at n infos j ∙ (ground arith)

pub in_range :
    (infos : List ProtoInfo) (j : ℕ) {i : ProtoInfo} → get_elem? infos j ≡ some i → j < length infos
in_range [] j h = cc
in_range (x ∷ xs) zero h = omega arith
in_range (x ∷ xs) (suc j) h = omega (arith, in_range xs j h)

-- For a field of variable length whose length field is found, the call returns 0. The field then
-- has the value of that field for its length, every field behind it stands as many bytes further
-- back as that length has, modulo 256, and the fields before it are as they were.
pub pa_recompute_byte_pos_lem :
    (at p j : ℕ) (pa : ProtocolAnalyzer) (hl : HeadList) (info found : ProtoInfo)
    → pa.pa_list_head_p ≡ some hl
    → get_elem? hl.infos at ≡ some info
    → pa_find_key info.vlenth_index pa ≡ ok p
    → 0 < p
    → find_info p hl.infos ≡ some found
    → Returns (pa_recompute_byte_pos at pa) λ r.
      (r.1 ≡ 0)
      × ((infos : List ProtoInfo) × (fields r.0 ≡ ok infos)
          × (get_elem? infos j ≡ (
              if ltb j at
              then get_elem? hl.infos j
              else if j == at
              then some (record info { len = u16 found.data_value })
              else moved (u32 (found.data_value * info.len_unit) / 8) (get_elem? hl.infos j))))
unfolding pa_recompute_byte_pos info_of fields put_fields
pa_recompute_byte_pos_lem at p j pa hl info found e there at_p some_p lives =
    let sized = record info { len = u16 found.data_value } in
    let n = u32 (found.data_value * info.len_unit) / 8 in
    let infos = map_from (at + 1) (shift_bytes n) (set hl.infos at sized) in
    (
      (put_fields pa infos, 0),
      ground (arith, e, there, at_p, some_p, lives),
      (
        refl,
        (
          infos,
          ground (arith, e),
          ground (
            arith,
            map_from-get (at + 1) n (set hl.infos at sized) j,
            get_elem?-set_self hl.infos at sized (in_range hl.infos at there),
            get_elem?-set_ne hl.infos at j sized,
          ),
        ),
      ),
    )
