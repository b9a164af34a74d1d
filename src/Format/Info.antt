-- ===== src/Format/Info.antt =====
-- One field of a format, `proto_info_list_t` of
-- driver/include/libproto_analyzer/protocol_format_set.h, and how its attributes are set from
-- strings: `set_proto_info_attribs` of driver/libproto_analyzer/protocol_format_set.c. An array
-- that `strcpy` would leave is a fault, also where the bytes behind it belong to the same
-- structure.
use linux_char_driver_frame.Base.{
  ℕ, ◌*◌, ◌/◌, Option, none, some, List, [], ◌∷◌, replicate, Run, ok, fault, null_pointer, ◌>>=◌,
  u8, u16, u32, ltb, leb, if◌then◌else◌,
}
use linux_char_driver_frame.Format.Number.{strlen, streq, strcpy, atoi}

-- `data_p` is the memory at the pointer, or none for NULL. The fields `free_mem` and `mem_used`
-- are set and never read.
pub record ProtoInfo : Type 0 where
  pub addr : ℕ
  pub name : List ℕ
  pub vlenth_index : List ℕ
  pub vlenth_flag : ℕ
  pub vlenth_flag_bak : ℕ
  pub vlenth_value_flag : ℕ
  pub vlenth_value_assigned_flag : ℕ
  pub byte_pos : ℕ
  pub bit_pos : ℕ
  pub len : ℕ
  pub len_unit : ℕ
  pub bit_len : ℕ
  pub data_value : ℕ
  pub buf_len : ℕ
  pub data_p : Option (List ℕ)

-- `memset(info_list, 0, ...)` on the memory at an address.
abbrev pub blank_info : ℕ → ProtoInfo
blank_info addr = record {
  addr = addr;
  name = replicate 20 0;
  vlenth_index = replicate 20 0;
  vlenth_flag = 0;
  vlenth_flag_bak = 0;
  vlenth_value_flag = 0;
  vlenth_value_assigned_flag = 0;
  byte_pos = 0;
  bit_pos = 0;
  len = 0;
  len_unit = 0;
  bit_len = 0;
  data_value = 0;
  buf_len = 0;
  data_p = none;
}

-- The branches of `set_proto_info_attribs`.
pub data Attrib : Type 0 where
  to_name to_byte_pos to_bit_pos to_len to_len_unit to_vlenth_index to_value to_other : Attrib

unfoldable pub set_vlenth_index : ProtoInfo → List ℕ → Run ProtoInfo
set_vlenth_index info attr_value = strcpy info.vlenth_index 0 attr_value >>= λ index.
    strlen index >>= λ n.
    if ltb 0 n
    then ok (record info { vlenth_index = index; vlenth_flag = 1; vlenth_flag_bak = 1 })
    else (strcpy index 0 (78 ∷ 47 ∷ 65 ∷ 0 ∷ []) >>= λ index'.
        ok (record info { vlenth_index = index' }))

unfoldable pub set_attrib : Attrib → Option (List ℕ) → ProtoInfo → Run ProtoInfo
set_attrib Attrib.to_name none info = fault null_pointer
set_attrib Attrib.to_name (some attr_value) info =
    strcpy info.name 0 attr_value >>= λ n. ok (record info { name = n })
set_attrib Attrib.to_byte_pos attr_value info =
    atoi attr_value >>= λ n. ok (record info { byte_pos = u8 n })
set_attrib Attrib.to_bit_pos attr_value info =
    atoi attr_value >>= λ n. ok (record info { bit_pos = u8 n })
set_attrib Attrib.to_len attr_value info = atoi attr_value >>= λ n. ok (record info { len = u16 n })
set_attrib Attrib.to_len_unit attr_value info =
    atoi attr_value >>= λ n. ok (record info { len_unit = u8 n })
set_attrib Attrib.to_vlenth_index none info = ok info
set_attrib Attrib.to_vlenth_index (some attr_value) info = set_vlenth_index info attr_value
set_attrib Attrib.to_value attr_value info =
    let bits = u32 (info.len * info.len_unit) in
    if leb (bits / 8) 4
    then (atoi attr_value >>= λ n. ok (record info { bit_len = bits; data_value = n }))
    else ok (record info { bit_len = bits; data_p = none })
set_attrib Attrib.to_other attr_value info = ok info

abbrev pub name_str : List ℕ
name_str = 110 ∷ 97 ∷ 109 ∷ 101 ∷ 0 ∷ []

abbrev pub byte_pos_str : List ℕ
byte_pos_str = 98 ∷ 121 ∷ 116 ∷ 101 ∷ 95 ∷ 112 ∷ 111 ∷ 115 ∷ 0 ∷ []

abbrev pub bit_pos_str : List ℕ
bit_pos_str = 98 ∷ 105 ∷ 116 ∷ 95 ∷ 112 ∷ 111 ∷ 115 ∷ 0 ∷ []

abbrev pub len_str : List ℕ
len_str = 108 ∷ 101 ∷ 110 ∷ 0 ∷ []

abbrev pub len_unit_str : List ℕ
len_unit_str = 108 ∷ 101 ∷ 110 ∷ 95 ∷ 117 ∷ 110 ∷ 105 ∷ 116 ∷ 0 ∷ []

abbrev pub vlenth_index_str : List ℕ
vlenth_index_str = 118 ∷ 108 ∷ 101 ∷ 110 ∷ 116 ∷ 104 ∷ 95 ∷ 105 ∷ 110 ∷ 100 ∷ 101 ∷ 120 ∷ 0 ∷ []

abbrev pub value_str : List ℕ
value_str = 118 ∷ 97 ∷ 108 ∷ 117 ∷ 101 ∷ 0 ∷ []

-- The first of the names that the argument is equal to.
unfoldable pub find_attrib : List ℕ → List (List ℕ × Attrib) → Run Attrib
find_attrib n [] = ok Attrib.to_other
find_attrib n (row ∷ rows) =
    let rest = find_attrib n rows in streq n row.0 >>= λ equal. if equal then ok row.1 else rest

abbrev pub attribs : List (List ℕ × Attrib)
attribs =
    (name_str, Attrib.to_name)
    ∷ (byte_pos_str, Attrib.to_byte_pos)
    ∷ (bit_pos_str, Attrib.to_bit_pos)
    ∷ (len_str, Attrib.to_len)
    ∷ (len_unit_str, Attrib.to_len_unit)
    ∷ (vlenth_index_str, Attrib.to_vlenth_index)
    ∷ (value_str, Attrib.to_value)
    ∷ []

unfoldable pub set_proto_info_attribs : List ℕ → Option (List ℕ) → ProtoInfo → Run ProtoInfo
set_proto_info_attribs name attr_value info =
    find_attrib name attribs >>= λ attrib. set_attrib attrib attr_value info
