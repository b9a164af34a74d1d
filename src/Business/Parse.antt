-- ===== src/Business/Parse.antt =====
-- One round of the parser, and what the fields are between the rounds.
use linux_char_driver_frame.Base.{
  ℕ, suc, Bool-cases, Run-cases, inl, inr, ◌+◌, ◌*◌, ◌/◌, ◌<◌, ◌≡◌, refl, sym, ◌∙◌, arith, Bool,
  true, some, none, List, length, get_elem?, set, drop, ok, u16, u32, leb, get_elem?-set_self,
}
use linux_char_driver_frame.HashMap.{read_bytes}
use linux_char_driver_frame.Format.{HeadList}
use linux_char_driver_frame.Format.Info.{ProtoInfo}
use linux_char_driver_frame.Codec.{short_len, get_byte_loop}
use linux_char_driver_frame.Analyzer.Setup.{
  ProtocolAnalyzer, fields, put_fields, find_info, info_of, pa_find_key,
}
use linux_char_driver_frame.Analyzer.{
  shift_bytes, map_from, pa_recompute_byte_pos, resolve, read_field, parse_loop,
  pa_get_protocol_byte_data, pa_get_protocol_buf,
}
use linux_char_driver_frame.Business.Decode.{read_number}

-- The analyser with other fields.
abbrev pub with_infos : ProtocolAnalyzer → HeadList → List ProtoInfo → ProtocolAnalyzer
with_infos pa hl infos = record pa { pa_list_head_p = some (record hl { infos = infos }) }

-- A field of bytes is read as its number.
pub read_field-read_number :
    (dp : List ℕ) (info : ProtoInfo) (v : ℕ)
    → info.len_unit ≡ 8
    → info.data_p ≡ none
    → info.data_value ≡ 0
    → read_number dp info.len info.byte_pos ≡ ok v
    → (new : ProtoInfo) × (read_field true dp info ≡ ok new)
      × (new.data_value ≡ v)
      × (new.addr ≡ info.addr)
unfolding read_field pa_get_protocol_byte_data pa_get_protocol_buf
read_field-read_number dp info v unit no_buf blank number = elim (Bool-cases (leb info.len 4)) [
  | inl short ↦
      let got : get_byte_loop (short_len info.len) 0 info.byte_pos dp ≡ ok v =
        sym (rw short refl) ∙ number in
      (record info { data_value = v }, ground (arith, unit, short, got), refl, refl)
  | inr long ↦ elim (Run-cases (read_bytes info.len (drop info.byte_pos dp))) [
    | inr (e, failed) ↦ absurd (ground (arith, long, failed, number))
    | inl (bytes, read) ↦ (
      record info { buf_len = info.len; data_p = some bytes },
      ground (arith, unit, long, read, no_buf),
      ground (arith, long, read, number, blank),
      refl,
    )
  ]
]

-- The fields, where the one with the number `i` takes the value `n` for its length.
abbrev pub resized : ℕ → ℕ → ProtoInfo → List ProtoInfo → List ProtoInfo
resized i n info infos =
    map_from (i + 1) (shift_bytes (u32 (n * info.len_unit) / 8))
      (set infos i (record info { len = u16 n }))

module _ (room : ℕ → Bool) (pa : ProtocolAnalyzer) (hl : HeadList) where
  pub round_fixed :
      (left i : ℕ) (infos : List ProtoInfo) (info new : ProtoInfo)
      → get_elem? infos i ≡ some info
      → info.vlenth_flag ≡ 0
      → read_field (room i) pa.protocol_data info ≡ ok new
      → parse_loop room (suc left) i (with_infos pa hl infos)
        ≡ parse_loop room left (i + 1) (with_infos pa hl (set infos i new))
  unfolding parse_loop resolve fields put_fields
  round_fixed left i infos info new there plain got = ground (arith, there, plain, got)

  pub round_sized :
      (left i p n : ℕ) (infos : List ProtoInfo) (info found new : ProtoInfo)
      → get_elem? infos i ≡ some info
      → info.vlenth_flag ≡ 1
      → pa_find_key info.vlenth_index pa ≡ ok p
      → 0 < p
      → find_info p infos ≡ some found
      → found.data_value ≡ n
      → get_elem? (resized i n info infos) i ≡ some (record info { len = u16 n })
      → i < length (resized i n info infos)
      → read_field (room i) pa.protocol_data (record info { len = u16 n; vlenth_flag = 0 }) ≡ ok new
      → parse_loop room (suc left) i (with_infos pa hl infos)
        ≡ parse_loop room left (i + 1) (
            with_infos pa hl (
              set
                (set (resized i n info infos) i (record info { len = u16 n; vlenth_flag = 0 }))
                i
                new))
  unfolding parse_loop resolve fields put_fields pa_recompute_byte_pos info_of pa_find_key
  round_sized left i p n infos info found new there flagged at_p some_p lives value sized_there wide
        got =
      let now : ProtoInfo = record info { len = u16 n; vlenth_flag = 0 } in
      let before = resized i n info infos in
      let sized_up : resolve i info (with_infos pa hl infos)
          ≡ ok (with_infos pa hl (set before i now)) =
        ground (arith, there, flagged, at_p, some_p, lives, value, sized_there) in
      let now_there : get_elem? (set before i now) i ≡ some now =
        get_elem?-set_self before i now wide in
      ground (arith, there, sized_up, now_there, got)
