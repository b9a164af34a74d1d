-- ===== src/PdtFormat/Names.antt =====
-- The strings that the formats of the PDT driver are made of: the names of
-- driver/include/libproto_analyzer/pdt_drv_proto_format.h, and the numbers in decimal digits.
use linux_char_driver_frame.Base.{ℕ, List, [], ◌∷◌}

abbrev pub proto_num_key : List ℕ
proto_num_key = 112 ∷ 114 ∷ 111 ∷ 116 ∷ 111 ∷ 95 ∷ 110 ∷ 117 ∷ 109 ∷ 0 ∷ []

abbrev pub lab_key : List ℕ
lab_key = 108 ∷ 97 ∷ 98 ∷ 0 ∷ []

abbrev pub len_key : List ℕ
len_key = 108 ∷ 101 ∷ 110 ∷ 0 ∷ []

abbrev pub count_key : List ℕ
count_key = 99 ∷ 111 ∷ 117 ∷ 110 ∷ 116 ∷ 0 ∷ []

abbrev pub slot_info_key : List ℕ
slot_info_key = 115 ∷ 108 ∷ 111 ∷ 116 ∷ 95 ∷ 105 ∷ 110 ∷ 102 ∷ 111 ∷ 0 ∷ []

abbrev pub sync_info_key : List ℕ
sync_info_key = 115 ∷ 121 ∷ 110 ∷ 99 ∷ 95 ∷ 105 ∷ 110 ∷ 102 ∷ 111 ∷ 0 ∷ []

abbrev pub tact_info_key : List ℕ
tact_info_key = 116 ∷ 97 ∷ 99 ∷ 116 ∷ 95 ∷ 105 ∷ 110 ∷ 102 ∷ 111 ∷ 0 ∷ []

abbrev pub slc_info_key : List ℕ
slc_info_key = 115 ∷ 108 ∷ 99 ∷ 95 ∷ 105 ∷ 110 ∷ 102 ∷ 111 ∷ 0 ∷ []

abbrev pub slc_data_key : List ℕ
slc_data_key = 115 ∷ 108 ∷ 99 ∷ 95 ∷ 100 ∷ 97 ∷ 116 ∷ 97 ∷ 0 ∷ []

abbrev pub sync_index_key : List ℕ
sync_index_key = 115 ∷ 121 ∷ 110 ∷ 99 ∷ 95 ∷ 105 ∷ 110 ∷ 100 ∷ 101 ∷ 120 ∷ 0 ∷ []

abbrev pub st_info_key : List ℕ
st_info_key = 115 ∷ 116 ∷ 95 ∷ 105 ∷ 110 ∷ 102 ∷ 111 ∷ 0 ∷ []

abbrev pub dc_info_key : List ℕ
dc_info_key = 100 ∷ 99 ∷ 95 ∷ 105 ∷ 110 ∷ 102 ∷ 111 ∷ 0 ∷ []

abbrev pub dc_data_key : List ℕ
dc_data_key = 100 ∷ 99 ∷ 95 ∷ 100 ∷ 97 ∷ 116 ∷ 97 ∷ 0 ∷ []

abbrev pub emb_flag_key : List ℕ
emb_flag_key = 101 ∷ 109 ∷ 98 ∷ 95 ∷ 102 ∷ 108 ∷ 97 ∷ 103 ∷ 0 ∷ []

abbrev pub emb_info_key : List ℕ
emb_info_key = 101 ∷ 109 ∷ 98 ∷ 95 ∷ 105 ∷ 110 ∷ 102 ∷ 111 ∷ 0 ∷ []

abbrev pub lc_info_key : List ℕ
lc_info_key = 108 ∷ 99 ∷ 95 ∷ 105 ∷ 110 ∷ 102 ∷ 111 ∷ 0 ∷ []

abbrev pub lc_data_key : List ℕ
lc_data_key = 108 ∷ 99 ∷ 95 ∷ 100 ∷ 97 ∷ 116 ∷ 97 ∷ 0 ∷ []

abbrev pub no_name1_key : List ℕ
no_name1_key = 110 ∷ 111 ∷ 95 ∷ 110 ∷ 97 ∷ 109 ∷ 101 ∷ 49 ∷ 0 ∷ []

abbrev pub dec_0 : List ℕ
dec_0 = 48 ∷ 0 ∷ []

abbrev pub dec_1 : List ℕ
dec_1 = 49 ∷ 0 ∷ []

abbrev pub dec_2 : List ℕ
dec_2 = 50 ∷ 0 ∷ []

abbrev pub dec_3 : List ℕ
dec_3 = 51 ∷ 0 ∷ []

abbrev pub dec_4 : List ℕ
dec_4 = 52 ∷ 0 ∷ []

abbrev pub dec_5 : List ℕ
dec_5 = 53 ∷ 0 ∷ []

abbrev pub dec_6 : List ℕ
dec_6 = 54 ∷ 0 ∷ []

abbrev pub dec_8 : List ℕ
dec_8 = 56 ∷ 0 ∷ []

abbrev pub dec_9 : List ℕ
dec_9 = 57 ∷ 0 ∷ []

abbrev pub dec_10 : List ℕ
dec_10 = 49 ∷ 48 ∷ 0 ∷ []

abbrev pub dec_11 : List ℕ
dec_11 = 49 ∷ 49 ∷ 0 ∷ []

abbrev pub dec_12 : List ℕ
dec_12 = 49 ∷ 50 ∷ 0 ∷ []

abbrev pub dec_13 : List ℕ
dec_13 = 49 ∷ 51 ∷ 0 ∷ []
