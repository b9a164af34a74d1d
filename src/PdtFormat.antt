-- ===== src/PdtFormat.antt =====
-- The formats of the messages of the PDT driver:
-- driver/libproto_analyzer/test/pdt_drv_proto_format.c with the names of
-- driver/include/libproto_analyzer/pdt_drv_proto_format.h.
--
-- The macro calls of a function are its rows, in their order. Entry `i` of a format is made at the
-- address `alloc i`. What `pfs_set_proto_info` and `pfs_add_proto_link_list` return is not looked
-- at, and the functions themselves return nothing.
pub mod Names
pub mod Layout
pub mod Fill
pub mod Table
pub mod Named
use linux_char_driver_frame.Base.{
  length, ℕ, ◌+◌, Option, none, some, List, [], ◌∷◌, Run, ok, ◌>>=◌, sub32,
}
use linux_char_driver_frame.Format.{
  HeadList, FormatSet, pfs_create_head_list, pfs_init_head_list, pfs_set_proto_info,
  pfs_add_proto_link_list,
}
use linux_char_driver_frame.PdtFormat.Names.{
  dc_data_key, dc_info_key, dec_0, dec_1, dec_10, dec_11, dec_12, dec_13, dec_2, dec_3, dec_4,
  dec_5, dec_6, dec_8, dec_9, emb_flag_key, emb_info_key, lab_key, lc_data_key, lc_info_key,
  len_key, no_name1_key, proto_num_key, slc_data_key, slc_info_key, slot_info_key, st_info_key,
  sync_index_key, sync_info_key, tact_info_key,
}

-- The arguments of one call of PFS_SET_PROTO_INFO.
pub record Row : Type 0 where
  pub name : List ℕ
  pub byte_pos : List ℕ
  pub bit_pos : List ℕ
  pub len : List ℕ
  pub len_unit : List ℕ
  pub vlenth_index : Option (List ℕ)

abbrev pub row : List ℕ → List ℕ → List ℕ → List ℕ → List ℕ → Option (List ℕ) → Row
row name byte_pos bit_pos len len_unit vlenth_index = record {
  name = name;
  byte_pos = byte_pos;
  bit_pos = bit_pos;
  len = len;
  len_unit = len_unit;
  vlenth_index = vlenth_index;
}

unfoldable pub set_rows : (ℕ → ℕ) → ℕ → List Row → HeadList → Run HeadList
set_rows alloc i [] hl = ok hl
set_rows alloc i (r ∷ rows) hl =
    pfs_set_proto_info (alloc i) (some r.name) (some r.byte_pos) (some r.bit_pos) (some r.len)
      (some r.len_unit) r.vlenth_index hl
    >>= λ s. set_rows alloc (i + 1) rows s.0

-- The body that the functions share: a new list, its rows, and its place in the table. The head of
-- the list, which is allocated first, stands at `alloc n` for `n` rows.
unfoldable pub set_format : ℕ → List Row → (ℕ → ℕ) → FormatSet → Run FormatSet
set_format proto_no rows alloc pfs = do
  blank ← pfs_init_head_list (pfs_create_head_list (alloc (length rows)))
  hl ← set_rows alloc 0 rows blank
  r ← pfs_add_proto_link_list (sub32 proto_no pfs.proto_base_addr) (some hl) pfs
  ok r.0

abbrev pub rows_3008 : List Row
rows_3008 =
    row proto_num_key dec_0 dec_0 dec_2 dec_8 none
    ∷ row lab_key dec_2 dec_0 dec_2 dec_8 none
    ∷ row slot_info_key dec_4 dec_0 dec_2 dec_8 none
    ∷ row sync_info_key dec_6 dec_0 dec_2 dec_8 none
    ∷ row tact_info_key dec_8 dec_0 dec_1 dec_8 none
    ∷ row slc_info_key dec_9 dec_0 dec_1 dec_8 none
    ∷ row slc_data_key dec_10 dec_0 dec_0 dec_8 (some slc_info_key)
    ∷ row sync_index_key dec_10 dec_0 dec_1 dec_8 none
    ∷ row st_info_key dec_11 dec_0 dec_1 dec_8 none
    ∷ row dc_info_key dec_12 dec_0 dec_1 dec_8 none
    ∷ row dc_data_key dec_13 dec_0 dec_0 dec_8 (some dc_info_key)
    ∷ []

abbrev pub pfs_set_proto_format_3008 : (ℕ → ℕ) → FormatSet → Run FormatSet
pfs_set_proto_format_3008 alloc pfs = set_format 0x3008 rows_3008 alloc pfs

abbrev pub rows_3019 : List Row
rows_3019 =
    row proto_num_key dec_0 dec_0 dec_2 dec_8 none
    ∷ row lab_key dec_2 dec_0 dec_2 dec_8 none
    ∷ row len_key dec_5 dec_0 dec_1 dec_8 none
    ∷ row slot_info_key dec_6 dec_0 dec_2 dec_8 none
    ∷ row sync_index_key dec_8 dec_0 dec_1 dec_8 none
    ∷ row st_info_key dec_9 dec_0 dec_1 dec_8 none
    ∷ row dc_info_key dec_10 dec_0 dec_1 dec_8 none
    ∷ row dc_data_key dec_11 dec_0 dec_0 dec_8 (some dc_info_key)
    ∷ []

abbrev pub pfs_set_proto_format_3019 : (ℕ → ℕ) → FormatSet → Run FormatSet
pfs_set_proto_format_3019 alloc pfs = set_format 0x3019 rows_3019 alloc pfs

abbrev pub rows_3050 : List Row
rows_3050 =
    row proto_num_key dec_0 dec_0 dec_2 dec_8 none
    ∷ row len_key dec_2 dec_0 dec_1 dec_8 none
    ∷ row emb_flag_key dec_3 dec_0 dec_1 dec_8 none
    ∷ row slot_info_key dec_4 dec_0 dec_2 dec_8 none
    ∷ row sync_info_key dec_6 dec_0 dec_2 dec_8 none
    ∷ row tact_info_key dec_8 dec_0 dec_1 dec_8 none
    ∷ row slc_info_key dec_9 dec_0 dec_1 dec_8 none
    ∷ row slc_data_key dec_10 dec_0 dec_0 dec_8 (some slc_info_key)
    ∷ row sync_index_key dec_10 dec_0 dec_1 dec_8 none
    ∷ row st_info_key dec_11 dec_0 dec_1 dec_8 none
    ∷ row dc_info_key dec_12 dec_0 dec_1 dec_8 none
    ∷ row dc_data_key dec_13 dec_0 dec_0 dec_8 (some dc_info_key)
    ∷ []

abbrev pub pfs_set_proto_format_3050 : (ℕ → ℕ) → FormatSet → Run FormatSet
pfs_set_proto_format_3050 alloc pfs = set_format 0x3050 rows_3050 alloc pfs

abbrev pub rows_3052 : List Row
rows_3052 =
    row proto_num_key dec_0 dec_0 dec_2 dec_8 none
    ∷ row len_key dec_2 dec_0 dec_1 dec_8 none
    ∷ row emb_flag_key dec_3 dec_0 dec_1 dec_8 none
    ∷ row slot_info_key dec_4 dec_0 dec_2 dec_8 none
    ∷ row sync_info_key dec_6 dec_0 dec_2 dec_8 none
    ∷ row tact_info_key dec_8 dec_0 dec_1 dec_8 none
    ∷ row slc_info_key dec_9 dec_0 dec_1 dec_8 none
    ∷ row slc_data_key dec_10 dec_0 dec_0 dec_8 (some slc_info_key)
    ∷ row emb_info_key dec_10 dec_0 dec_1 dec_8 none
    ∷ row lc_info_key dec_11 dec_0 dec_1 dec_8 none
    ∷ row lc_data_key dec_12 dec_0 dec_0 dec_8 (some lc_info_key)
    ∷ row dc_info_key dec_12 dec_0 dec_1 dec_8 none
    ∷ row dc_data_key dec_13 dec_0 dec_0 dec_8 (some dc_info_key)
    ∷ []

abbrev pub pfs_set_proto_format_3052 : (ℕ → ℕ) → FormatSet → Run FormatSet
pfs_set_proto_format_3052 alloc pfs = set_format 0x3052 rows_3052 alloc pfs

abbrev pub rows_3054 : List Row
rows_3054 =
    row proto_num_key dec_0 dec_0 dec_2 dec_8 none
    ∷ row no_name1_key dec_2 dec_0 dec_1 dec_8 none
    ∷ row st_info_key dec_3 dec_0 dec_1 dec_8 none
    ∷ row dc_info_key dec_4 dec_0 dec_1 dec_8 none
    ∷ row dc_data_key dec_5 dec_0 dec_0 dec_8 (some dc_info_key)
    ∷ []

abbrev pub pfs_set_proto_format_3054 : (ℕ → ℕ) → FormatSet → Run FormatSet
pfs_set_proto_format_3054 alloc pfs = set_format 0x3054 rows_3054 alloc pfs

-- Format `n` takes its entries from `alloc n`.
abbrev pub pfs_set_pdt_drv_proto_format : (ℕ → ℕ → ℕ) → FormatSet → Run FormatSet
pfs_set_pdt_drv_proto_format alloc pfs = do
  a ← pfs_set_proto_format_3008 (alloc 0) pfs
  b ← pfs_set_proto_format_3019 (alloc 1) a
  c ← pfs_set_proto_format_3050 (alloc 2) b
  d ← pfs_set_proto_format_3052 (alloc 3) c
  pfs_set_proto_format_3054 (alloc 4) d
