-- ===== src/Analyzer.antt =====
-- The protocol analyser of driver/libproto_analyzer/protocol_analyzer.c: it copies the format of a
-- message, finds the fields by name through a hash map, and generates or parses the message.
--
-- What the allocator returns is an argument, a function from the number of the call to the
-- address. A field is reached through its address. Reading `key_str` before it is set, and the
-- length of a message without fields, are the fault `uninitialised`. The tests `pa == NULL` are
-- left out, since the analyser is a value here.
pub mod Setup
pub mod Plain
pub mod Shift
pub mod Lookup
mod Table
pub mod Keys
mod Address
pub mod Find
pub mod Values
pub mod RoundTrip
use linux_char_driver_frame.Base.{
  ℕ, zero, suc, ◌+◌, ◌-◌, ◌*◌, ◌/◌, Bool, true, false, ◌||◌, Option, none, some, List, [], ◌∷◌,
  ◌++◌, map, length, replicate, set, Run, ok, fault, null_pointer, dangling, uninitialised,
  or_fault, load, memcpy, drop, ◌>>=◌, u8, u16, u32, ◌<<<◌, bit_or, minus_one, ltb, leb, ◌==◌,
  if◌then◌else◌,
}
use linux_char_driver_frame.Codec.{
  pa_set_protocol_buf, pa_set_protocol_byte_data, pa_set_protocol_bit_data, short_len,
  get_byte_loop, get_bit_loop,
}
use linux_char_driver_frame.HashMap.{read_bytes}
use linux_char_driver_frame.Format.{HeadList, FormatSet}
use linux_char_driver_frame.Format.Info.{ProtoInfo}
use linux_char_driver_frame.Analyzer.Setup.{
  ProtocolAnalyzer, info_of, pa_find_key, fields, put_fields,
}

-- The entry at an address replaced by `f` of it.
unfoldable pub update_info : ℕ → (ProtoInfo → ProtoInfo) → List ProtoInfo → List ProtoInfo
update_info p f [] = []
update_info p f (info ∷ infos) =
    if info.addr == p then f info ∷ infos else info ∷ update_info p f infos

-- What `pa_set_buf` leaves in the entry, where the allocator has memory if `room`.
unfoldable pub set_buf_info : Bool → List ℕ → ℕ → ProtoInfo → Run ProtoInfo
set_buf_info room data' len info = do
  bytes ← read_bytes len data'
  let fresh : Run ProtoInfo =
      if room
      then ok (record info { buf_len = u16 len; data_p = some bytes })
      else fault null_pointer
  elim info.data_p [
    | none ↦ fresh
    | some buf ↦
        if leb len info.buf_len
        then (memcpy len buf 0 bytes >>= λ buf'. ok (record info { data_p = some buf' }))
        else fresh
  ]

-- The result is 0 whether the key is there or not.
unfoldable pub pa_set_buf :
    Bool → List ℕ → List ℕ → ℕ → ProtocolAnalyzer → Run (ProtocolAnalyzer × ℕ)
pa_set_buf room key data' len pa = pa_find_key key pa >>= λ p. elim (p == 0) [
  | true ↦ ok (pa, 0)
  | false ↦ do
    infos ← fields pa
    info ← info_of p infos
    new ← set_buf_info room data' len info
    ok (put_fields pa (update_info p (λ _. new) infos), 0)
]

-- A missing key is not tested for: its NULL is written through.
unfoldable pub pa_set_value : List ℕ → ℕ → ProtocolAnalyzer → Run (ProtocolAnalyzer × ℕ)
pa_set_value key value pa = do
  p ← pa_find_key key pa
  infos ← fields pa
  info ← info_of p infos
  ok (put_fields pa (update_info p (λ i. record i { data_value = value }) infos), 0)

unfoldable pub pa_get_value : List ℕ → ProtocolAnalyzer → Run ℕ
pa_get_value key pa = pa_find_key key pa >>= λ p. elim (p == 0) [
  | true ↦ ok minus_one
  | false ↦ do infos ← fields pa; info ← info_of p infos; ok info.data_value
]

unfoldable pub pa_set_variable_length_value :
    List ℕ → ℕ → ProtocolAnalyzer → Run (ProtocolAnalyzer × ℕ)
pa_set_variable_length_value key value pa = pa_find_key key pa >>= λ p. elim (p == 0) [
  | true ↦ ok (pa, minus_one)
  | false ↦ do
    infos ← fields pa
    info ← info_of p infos
    ok (
      put_fields pa (
          update_info p (λ i. record i { data_value = value; vlenth_value_assigned_flag = 1 })
            infos),
      0,
    )
]

-- The loop of `pa_recompute_byte_pos` over the entries behind the current one.
unfoldable pub shift_bytes : ℕ → List ProtoInfo → List ProtoInfo
shift_bytes n infos = map (λ (i : ProtoInfo). record i { byte_pos = u8 (i.byte_pos + n) }) infos

-- The entries from the number `at` on changed by `f`.
unfoldable pub map_from : ℕ → (List ProtoInfo → List ProtoInfo) → List ProtoInfo → List ProtoInfo
map_from zero f infos = f infos
map_from (suc at) f [] = []
map_from (suc at) f (info ∷ infos) = info ∷ map_from at f infos

-- `cur` is the entry with the number `at`.
unfoldable pub pa_recompute_byte_pos : ℕ → ProtocolAnalyzer → Run (ProtocolAnalyzer × ℕ)
pa_recompute_byte_pos at pa = elim pa.pa_list_head_p [
  | none ↦ ok (pa, minus_one)
  | some hl ↦ load hl.infos at >>= λ info. pa_find_key info.vlenth_index pa >>= λ p. elim (p == 0) [
    | true ↦ ok (pa, minus_one)
    | false ↦ do
      found ← info_of p hl.infos
      let sized = set hl.infos at (record info { len = u16 found.data_value })
      let bit_len = u32 (found.data_value * info.len_unit)
      ok (put_fields pa (map_from (at + 1) (shift_bytes (bit_len / 8)) sized), 0)
  ]
]

-- The loop of `pa_set_variable_length_flag`, whose only writes are to a flag that the loop itself
-- does not read.
unfoldable pub flag_loop : List ProtoInfo → ProtocolAnalyzer → Run ProtocolAnalyzer
flag_loop [] pa = ok pa
flag_loop (info ∷ infos) pa = elim (info.vlenth_flag == 1) [
  | true ↦ pa_find_key info.vlenth_index pa >>= λ p. elim (p == 0) [
    | true ↦ flag_loop infos pa
    | false ↦ fields pa >>= λ all. info_of p all >>= λ found.
        flag_loop infos
          (put_fields pa (update_info p (λ i. record i { vlenth_value_flag = 1 }) all))
  ]
  | false ↦ flag_loop infos pa
]

unfoldable pub pa_set_variable_length_flag : ProtocolAnalyzer → Run (ProtocolAnalyzer × ℕ)
pa_set_variable_length_flag pa = elim pa.pa_list_head_p [
  | none ↦ ok (pa, minus_one)
  | some hl ↦ flag_loop hl.infos pa >>= λ pa'. ok (pa', 0)
]

-- One field written, from what the loop has read of it.
unfoldable pub write_field : ProtoInfo → ℕ → ℕ → List ℕ → Run (List ℕ)
write_field info len len_unit dp =
    if len_unit == 8
    then if leb len 4
      then pa_set_protocol_byte_data info.data_value info.byte_pos info.bit_pos len dp
      else pa_set_protocol_buf info.data_p len info.byte_pos info.bit_pos dp
    else if len_unit == 1
    then pa_set_protocol_bit_data info.data_value info.byte_pos info.bit_pos len dp
    else ok dp

-- A field of variable length takes its length, and passes the flag.
unfoldable pub resolve : ℕ → ProtoInfo → ProtocolAnalyzer → Run ProtocolAnalyzer
resolve at info pa = elim (info.vlenth_flag == 1) [
  | true ↦ pa_recompute_byte_pos at pa >>= λ r. fields r.0 >>= λ infos.
      load infos at >>= λ now. ok (put_fields r.0 (set infos at (record now { vlenth_flag = 0 })))
  | false ↦ ok pa
]

-- The loop of `pa_generate_protocol_data` with `left` entries to go from the number `at` on, and
-- the last `byte_pos + len`. `byte_pos`, `bit_pos` and `data` are read before the length is set.
unfoldable pub generate_loop :
    ℕ → ℕ → Option ℕ → ProtocolAnalyzer → Run (ProtocolAnalyzer × Option ℕ)
generate_loop zero at end pa = ok (pa, end)
generate_loop (suc left) at end pa = do
  infos ← fields pa
  info ← load infos at
  pa' ← resolve at info pa
  infos' ← fields pa'
  now ← load infos' at
  dp ← write_field info now.len now.len_unit pa'.protocol_data
  generate_loop left (at + 1) (some (info.byte_pos + now.len)) (record pa' { protocol_data = dp })

unfoldable pub pa_generate_protocol_data : ProtocolAnalyzer → Run (ProtocolAnalyzer × ℕ)
pa_generate_protocol_data pa = elim pa.pa_list_head_p [
  | none ↦ ok (pa, minus_one)
  | some hl ↦ do
    flagged ← pa_set_variable_length_flag pa
    r ← generate_loop (length hl.infos) 0 none flagged.0
    end ← or_fault uninitialised r.1
    ok (record r.0 { protocol_data_len = u16 end }, 0)
]

unfoldable pub pa_get_protocol_byte_data : List ℕ → ProtoInfo → Run ProtoInfo
pa_get_protocol_byte_data dp info = get_byte_loop (short_len info.len) 0 info.byte_pos dp >>= λ d.
    ok (record info { data_value = d })

unfoldable pub pa_get_protocol_bit_data : List ℕ → ProtoInfo → Run ProtoInfo
pa_get_protocol_bit_data dp info =
    get_bit_loop (short_len info.len) 0 info.byte_pos info.bit_pos (short_len info.len) dp >>= λ d.
    ok (record info { data_value = d })

-- A buffer that is large enough is used again; otherwise a new one is taken, which `room` says
-- there is memory for.
unfoldable pub pa_get_protocol_buf : Bool → List ℕ → ProtoInfo → Run ProtoInfo
pa_get_protocol_buf room dp info = do
  bytes ← read_bytes info.len (drop info.byte_pos dp)
  elim info.data_p [
    | none ↦
        if room
        then ok (record info { buf_len = info.len; data_p = some bytes })
        else fault null_pointer
    | some buf ↦
        if leb info.len info.buf_len
        then (memcpy info.len buf 0 bytes >>= λ buf'.
            ok (record info { buf_len = info.len; data_p = some buf' }))
        else if room
        then ok (record info { buf_len = info.len; data_p = some bytes })
        else fault null_pointer
  ]

-- One field read.
unfoldable pub read_field : Bool → List ℕ → ProtoInfo → Run ProtoInfo
read_field room dp info =
    if info.len_unit == 8
    then if leb info.len 4
      then pa_get_protocol_byte_data dp info
      else pa_get_protocol_buf room dp info
    else if info.len_unit == 1
    then pa_get_protocol_bit_data dp info
    else ok info

-- The loop of `pa_parse_protocol_data`.
unfoldable pub parse_loop : (ℕ → Bool) → ℕ → ℕ → ProtocolAnalyzer → Run ProtocolAnalyzer
parse_loop room zero at pa = ok pa
parse_loop room (suc left) at pa = do
  infos ← fields pa
  info ← load infos at
  pa' ← resolve at info pa
  infos' ← fields pa'
  now ← load infos' at
  new ← read_field (room at) pa'.protocol_data now
  parse_loop room left (at + 1) (put_fields pa' (set infos' at new))

unfoldable pub pa_parse_protocol_data : (ℕ → Bool) → ProtocolAnalyzer → Run (ProtocolAnalyzer × ℕ)
pa_parse_protocol_data room pa = elim pa.pa_list_head_p [
  | none ↦ ok (pa, minus_one)
  | some hl ↦
      if pa.protocol_data_len == 0
      then ok (pa, minus_one)
      else (parse_loop room (length hl.infos) 0 pa >>= λ pa'. ok (pa', 0))
]

unfoldable pub pa_reset_vlen_flag : ProtocolAnalyzer → ProtocolAnalyzer × ℕ
pa_reset_vlen_flag pa = elim pa.pa_list_head_p [
  | none ↦ (pa, minus_one)
  | some hl ↦ (
    put_fields pa (
        map (λ (i : ProtoInfo). if i.vlenth_flag_bak == 1 then record i { vlenth_flag = 1 } else i)
          hl.infos),
    0,
  )
]
