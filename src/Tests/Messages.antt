-- ===== src/Tests/Messages.antt =====
-- The analyser at a concrete message of two fields.
use linux_char_driver_frame.Base.{
  fault, uninitialised, ℕ, ◌+◌, ◌≡◌, ◌≢◌, ◌<◌, ltb, ◌==◌, if◌then◌else◌, u16, u32, ◌/◌, get_elem?,
  ◌*◌, refl, arith, some, none, List, [], ◌∷◌, ◌++◌, map, true, ok, Returns, replicate, ◌>>=◌, inl,
}
use linux_char_driver_frame.HashMap.{
  HashMap, default_hash_func, default_key_cmp_func, hash_map_search, search_chain,
}
use linux_char_driver_frame.HashMap.Walk.{hash_map_pos_get_pointer, node_of, node_in}
use linux_char_driver_frame.Format.{HeadList}
use linux_char_driver_frame.Format.Number.{strlen, streq}
use linux_char_driver_frame.Format.Info.{ProtoInfo, blank_info}
use linux_char_driver_frame.Analyzer.Setup.{
  pa_create_hash_table, ProtocolAnalyzer, blank_analyzer, find_info, info_of, fields, key_str,
  read_addr, pa_find_key,
}
use linux_char_driver_frame.Analyzer.{
  pa_recompute_byte_pos, pa_set_value, pa_get_value, pa_generate_protocol_data,
  pa_parse_protocol_data,
}
use linux_char_driver_frame.Analyzer.Values.{pa_get_value-pa_set_value}
use linux_char_driver_frame.Analyzer.Lookup.{
  search_list, HasNames, pa_find_key-search_list, pa_find_key_long,
}
use linux_char_driver_frame.Analyzer.Shift.{moved, pa_recompute_byte_pos_lem}
use linux_char_driver_frame.Analyzer.Plain.{IsPlainFormat, parsed}
use linux_char_driver_frame.Analyzer.RoundTrip.{pa_parse_protocol_data-pa_generate_protocol_data}

abbrev proto_num : ProtoInfo
proto_num = record (blank_info 1000) { len = 2; len_unit = 8; data_value = 0x3008 }

abbrev lab : ProtoInfo
lab = record (blank_info 2000) {
  name = 108 ∷ 97 ∷ 98 ∷ replicate 17 0;
  byte_pos = 2;
  len = 2;
  len_unit = 8;
  data_value = 0x12345;
}

abbrev names : HashMap
names = record {
  bucket_size = 10;
  data_size = 14;
  key_size = 10;
  hash_func = default_hash_func;
  key_cmp_func = default_key_cmp_func;
  hlist =
      replicate 3 []
      ++ ((record {
        addr = 500;
        value_pos = 10;
        data_size = 14;
        key = 108 ∷ 97 ∷ 98 ∷ replicate 7 0 ++ (0 ∷ 0 ∷ 7 ∷ 0xd0 ∷ []);
      }
            ∷ [])
          ∷ replicate 6 []);
  begin = record { hlist_node_p = 500; bucket_pos = 3 };
  end = record { hlist_node_p = 0; bucket_pos = 9 };
}

abbrev list : HeadList
list = record { list_count = 2; infos = proto_num ∷ lab ∷ [] }

abbrev analyzer : ProtocolAnalyzer
analyzer = record blank_analyzer { pa_list_head_p = some list; hmap = some names }

two_fields-IsPlainFormat : IsPlainFormat 100 list.infos
two_fields-IsPlainFormat = (
  record { bytes = refl; short = omega arith; fixed = refl; inside = omega arith },
  (inl (omega arith), tt),
  (record { bytes = refl; short = omega arith; fixed = refl; inside = omega arith }, tt, tt),
)

pa_parse_protocol_data-pa_generate_protocol_data_example :
    (out : List ℕ) × (pa_generate_protocol_data analyzer
      ≡ ok (record analyzer { protocol_data = out; protocol_data_len = 2 + 2 }, 0))
    × (pa_parse_protocol_data
          (λ _. true)
          (record analyzer { protocol_data = out; protocol_data_len = 2 + 2 })
        ≡ ok (
          record analyzer {
            protocol_data = out;
            protocol_data_len = 2 + 2;
            pa_list_head_p = some (record list { infos = map parsed list.infos });
          },
          0,
        ))
pa_parse_protocol_data-pa_generate_protocol_data_example =
    pa_parse_protocol_data-pa_generate_protocol_data analyzer list (proto_num ∷ []) lab (λ _. true)
      refl refl two_fields-IsPlainFormat (omega arith) (omega arith)

abbrev lab_key : List ℕ
lab_key = 108 ∷ 97 ∷ 98 ∷ 0 ∷ []

lab_found : pa_find_key lab_key analyzer ≡ ok 2000
unfolding pa_find_key key_str strlen hash_map_search search_chain hash_map_pos_get_pointer node_of
    node_in default_hash_func default_key_cmp_func read_addr
lab_found = refl

found_example : find_info 2000 list.infos ≡ some lab
unfolding find_info
found_example = refl

pa_get_value-pa_set_value_example : Returns (pa_set_value lab_key 5 analyzer) λ r.
    (r.1 ≡ 0)
    × (pa_get_value lab_key r.0 ≡ ok 5)
    × ((fields r.0 >>= info_of 1000) ≡ (fields analyzer >>= info_of 1000))
pa_get_value-pa_set_value_example =
    pa_get_value-pa_set_value lab_key 5 2000 1000 analyzer list lab refl lab_found (omega arith)
      found_example (omega arith)

abbrev other_key : List ℕ
other_key = 120 ∷ 121 ∷ 122 ∷ 0 ∷ []

other_missing : pa_find_key other_key analyzer ≡ ok 0
unfolding pa_find_key key_str strlen hash_map_search search_chain default_hash_func
    default_key_cmp_func
other_missing = refl

no_null_example : find_info 0 list.infos ≡ none
unfolding find_info
no_null_example = refl

nodes_at : ℕ → ℕ
nodes_at i = 5000 + 100 * i

nodes_at_pos : (i : ℕ) → 0 < nodes_at i
unfolding nodes_at
nodes_at_pos i = omega arith

nodes_at_apart : (i j : ℕ) → i < j → nodes_at i ≢ nodes_at j
unfolding nodes_at
nodes_at_apart i j h e = absurd (omega arith)

two_fields-HasNames : HasNames list.infos
unfolding search_list streq
two_fields-HasNames = (
  (
    record {
      chars = [];
      is_chars = tt;
      short = omega arith;
      array = refl;
      not_null = omega arith;
      word = omega arith;
    },
    refl,
  ),
  (
    (
      record {
        chars = 108 ∷ 97 ∷ 98 ∷ [];
        is_chars = (omega arith, (omega arith, (omega arith, tt)));
        short = omega arith;
        array = refl;
        not_null = omega arith;
        word = omega arith;
      },
      refl,
    ),
    tt,
  ),
)

pa_find_key-search_list_example : Returns (pa_create_hash_table nodes_at analyzer) λ r.
    (r.1 ≡ 0)
    × (pa_find_key ((108 ∷ 97 ∷ 98 ∷ []) ++ 0 ∷ []) r.0
        ≡ search_list ((108 ∷ 97 ∷ 98 ∷ []) ++ 0 ∷ []) list.infos)
pa_find_key-search_list_example =
    pa_find_key-search_list nodes_at (108 ∷ 97 ∷ 98 ∷ []) analyzer list nodes_at_pos nodes_at_apart
      (omega arith, (omega arith, (omega arith, tt))) (omega arith) refl two_fields-HasNames

-- "sync_index"
abbrev ten_letters : List ℕ
ten_letters = 115 ∷ 121 ∷ 110 ∷ 99 ∷ 95 ∷ 105 ∷ 110 ∷ 100 ∷ 101 ∷ 120 ∷ []

pa_find_key_long_example :
    Returns
      (pa_create_hash_table nodes_at analyzer)
      λ r. (r.1 ≡ 0) × (pa_find_key (ten_letters ++ 0 ∷ []) r.0 ≡ fault uninitialised)
pa_find_key_long_example =
    pa_find_key_long nodes_at ten_letters analyzer list nodes_at_pos nodes_at_apart
      (
        omega arith,
        (
          omega arith,
          (
            omega arith,
            (
              omega arith,
              (
                omega arith,
                (omega arith, (omega arith, (omega arith, (omega arith, (omega arith, tt))))),
              ),
            ),
          ),
        ),
      )
      (omega arith) refl two_fields-HasNames

-- A field of as many bytes as the field before it says, and one behind it.
abbrev sized_by_lab : ProtoInfo
sized_by_lab = record (blank_info 3000) {
  vlenth_index = 108 ∷ 97 ∷ 98 ∷ replicate 17 0;
  vlenth_flag = 1;
  byte_pos = 4;
  len_unit = 8;
}

abbrev behind : ProtoInfo
behind = record (blank_info 4000) { byte_pos = 4; len = 1; len_unit = 8 }

abbrev lab_five : ProtoInfo
lab_five = record lab { data_value = 5 }

abbrev long_list : HeadList
long_list = record { list_count = 3; infos = lab_five ∷ sized_by_lab ∷ behind ∷ [] }

abbrev long_analyzer : ProtocolAnalyzer
long_analyzer = record analyzer { pa_list_head_p = some long_list }

index_found : pa_find_key sized_by_lab.vlenth_index long_analyzer ≡ ok 2000
unfolding pa_find_key key_str strlen hash_map_search search_chain hash_map_pos_get_pointer node_of
    node_in default_hash_func default_key_cmp_func read_addr
index_found = refl

five_example : find_info 2000 long_list.infos ≡ some lab_five
unfolding find_info
five_example = refl

pa_recompute_byte_pos_lem_example : Returns (pa_recompute_byte_pos 1 long_analyzer) λ r.
    (r.1 ≡ 0)
    × ((infos : List ProtoInfo) × (fields r.0 ≡ ok infos)
        × (get_elem? infos 2 ≡ (
            if ltb 2 1
            then get_elem? long_list.infos 2
            else if 2 == 1
            then some (record sized_by_lab { len = u16 5 })
            else moved (u32 (5 * 8) / 8) (get_elem? long_list.infos 2))))
pa_recompute_byte_pos_lem_example =
    pa_recompute_byte_pos_lem 1 2000 2 long_analyzer long_list sized_by_lab lab_five refl refl
      index_found (omega arith) five_example
