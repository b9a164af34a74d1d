-- ===== src/PdtFormat/Layout.antt =====
-- What the formats of the PDT driver are to be: each field with its name, its place and its length
-- in bytes, or the name of the field that holds its length.
use linux_char_driver_frame.Base.{ℕ, ◌+◌, ◌-◌, List, [], ◌∷◌, ◌++◌, length, replicate}
use linux_char_driver_frame.Format.{HeadList}
use linux_char_driver_frame.Format.Info.{ProtoInfo, blank_info}
use linux_char_driver_frame.PdtFormat.Names.{
  dc_data_key, dc_info_key, emb_flag_key, emb_info_key, lab_key, lc_data_key, lc_info_key, len_key,
  no_name1_key, proto_num_key, slc_data_key, slc_info_key, slot_info_key, st_info_key,
  sync_index_key, sync_info_key, tact_info_key,
}

pub data Layout : Type 0 where
  fixed : (name : List ℕ) (byte_pos len : ℕ) → Layout
  sized : (name : List ℕ) (byte_pos : ℕ) (index : List ℕ) → Layout

-- A string in its array of 20 characters.
abbrev pub array : List ℕ → List ℕ
array s = s ++ replicate (20 - length s) 0

abbrev pub info_at : Layout → ℕ → ProtoInfo
info_at (fixed name byte_pos len) addr = record (blank_info addr) {
  name = array name;
  byte_pos = byte_pos;
  len = len;
  len_unit = 8;
}
info_at (sized name byte_pos index) addr = record (blank_info addr) {
  name = array name;
  byte_pos = byte_pos;
  len_unit = 8;
  vlenth_index = array index;
  vlenth_flag = 1;
  vlenth_flag_bak = 1;
}

abbrev pub infos_at : (ℕ → ℕ) → ℕ → List Layout → List ProtoInfo
infos_at alloc i [] = []
infos_at alloc i (l ∷ layouts) = info_at l (alloc i) ∷ infos_at alloc (i + 1) layouts

abbrev pub format_at : (ℕ → ℕ) → List Layout → HeadList
format_at alloc layouts = record { list_count = length layouts; infos = infos_at alloc 0 layouts }

abbrev pub layout_3008 : List Layout
layout_3008 =
    fixed proto_num_key 0 2
    ∷ fixed lab_key 2 2
    ∷ fixed slot_info_key 4 2
    ∷ fixed sync_info_key 6 2
    ∷ fixed tact_info_key 8 1
    ∷ fixed slc_info_key 9 1
    ∷ sized slc_data_key 10 slc_info_key
    ∷ fixed sync_index_key 10 1
    ∷ fixed st_info_key 11 1
    ∷ fixed dc_info_key 12 1
    ∷ sized dc_data_key 13 dc_info_key
    ∷ []

abbrev pub layout_3019 : List Layout
layout_3019 =
    fixed proto_num_key 0 2
    ∷ fixed lab_key 2 2
    ∷ fixed len_key 5 1
    ∷ fixed slot_info_key 6 2
    ∷ fixed sync_index_key 8 1
    ∷ fixed st_info_key 9 1
    ∷ fixed dc_info_key 10 1
    ∷ sized dc_data_key 11 dc_info_key
    ∷ []

abbrev pub layout_3050 : List Layout
layout_3050 =
    fixed proto_num_key 0 2
    ∷ fixed len_key 2 1
    ∷ fixed emb_flag_key 3 1
    ∷ fixed slot_info_key 4 2
    ∷ fixed sync_info_key 6 2
    ∷ fixed tact_info_key 8 1
    ∷ fixed slc_info_key 9 1
    ∷ sized slc_data_key 10 slc_info_key
    ∷ fixed sync_index_key 10 1
    ∷ fixed st_info_key 11 1
    ∷ fixed dc_info_key 12 1
    ∷ sized dc_data_key 13 dc_info_key
    ∷ []

abbrev pub layout_3052 : List Layout
layout_3052 =
    fixed proto_num_key 0 2
    ∷ fixed len_key 2 1
    ∷ fixed emb_flag_key 3 1
    ∷ fixed slot_info_key 4 2
    ∷ fixed sync_info_key 6 2
    ∷ fixed tact_info_key 8 1
    ∷ fixed slc_info_key 9 1
    ∷ sized slc_data_key 10 slc_info_key
    ∷ fixed emb_info_key 10 1
    ∷ fixed lc_info_key 11 1
    ∷ sized lc_data_key 12 lc_info_key
    ∷ fixed dc_info_key 12 1
    ∷ sized dc_data_key 13 dc_info_key
    ∷ []

abbrev pub layout_3054 : List Layout
layout_3054 =
    fixed proto_num_key 0 2
    ∷ fixed no_name1_key 2 1
    ∷ fixed st_info_key 3 1
    ∷ fixed dc_info_key 4 1
    ∷ sized dc_data_key 5 dc_info_key
    ∷ []
