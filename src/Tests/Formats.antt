-- ===== src/Tests/Formats.antt =====
-- The number parser and the table of formats at concrete inputs.
use linux_char_driver_frame.Base.{
  ℕ, ◌+◌, ◌*◌, ◌<◌, ◌≡◌, refl, arith, some, none, Option, List, [], ◌∷◌, ok, fault, out_of_bounds,
  out_of_fuel, get_elem?, Returns, replicate, set, sub32,
}
use linux_char_driver_frame.Format.Info.{blank_info}
use linux_char_driver_frame.Format.{pfs_del_list_for_each}
use linux_char_driver_frame.Format.Free.{
  buffer, entry, head_list, pfs_del_list_for_each_frees, pfs_del_list_for_each-all_of,
}
use linux_char_driver_frame.Format.{HeadList, FormatSet, with_table, pfs_add_proto_link_list}
use linux_char_driver_frame.Format.Destroy.{
  pfs_destroy_protocol_format_set, pfs_destroy_protocol_format_set-cleared,
  pfs_destroy_protocol_format_set-endless,
}
use linux_char_driver_frame.Format.Number.{atoi, str2num}
use linux_char_driver_frame.Format.Number.Decimal.{value_of, decimal_str, atoi-decimal_str}
use linux_char_driver_frame.Format.Number.Hex.{hex_str, str2num-hex_str}
use linux_char_driver_frame.PdtFormat.{pfs_set_pdt_drv_proto_format}
use linux_char_driver_frame.PdtFormat.Table.{
  driver_format, pa_find_protocol_format-pfs_set_pdt_drv_proto_format,
}
use linux_char_driver_frame.Analyzer.Setup.{
  ProtocolAnalyzer, blank_analyzer, pa_find_protocol_format,
}
use linux_char_driver_frame.Analyzer.Find.{
  IsTable, init-IsTable, found, pa_find_protocol_format-pfs_add_proto_link_list,
  pa_find_protocol_format_overrun,
}

-- "10" and "-10".
atoi-decimal_str_example :
    (atoi (some (decimal_str (1 ∷ 0 ∷ []))) ≡ ok (value_of 10 0 (1 ∷ 0 ∷ [])))
    × (atoi (some (45 ∷ decimal_str (1 ∷ 0 ∷ []))) ≡ ok (sub32 0 (value_of 10 0 (1 ∷ 0 ∷ []))))
atoi-decimal_str_example =
    atoi-decimal_str (1 ∷ 0 ∷ []) (omega arith, (omega arith, tt)) (omega arith)

-- "0x301B" and "0X301B".
str2num-hex_str_example :
    (str2num (48 ∷ 120 ∷ hex_str (3 ∷ 0 ∷ 1 ∷ 11 ∷ [])) ≡ ok (value_of 16 0 (3 ∷ 0 ∷ 1 ∷ 11 ∷ [])))
    × (str2num (48 ∷ 88 ∷ hex_str (3 ∷ 0 ∷ 1 ∷ 11 ∷ [])) ≡ ok (value_of 16 0 (3 ∷ 0 ∷ 1 ∷ 11 ∷ [])))
str2num-hex_str_example =
    str2num-hex_str (3 ∷ 0 ∷ 1 ∷ 11 ∷ [])
      (omega arith, (omega arith, (omega arith, (omega arith, tt)))) (omega arith)

abbrev blank_set : FormatSet
blank_set = record {
  list_head_p2 = none;
  proto_total_num = 0;
  proto_max_num = 0;
  proto_base_addr = 0;
}

-- The table of the driver: 100 formats from 0x3000 on.
abbrev driver_set : FormatSet
driver_set = with_table 0x3000 100 blank_set

abbrev driver_table : List (Option HeadList)
driver_table = replicate 100 none

driver-IsTable : IsTable driver_set driver_table
driver-IsTable = init-IsTable blank_set 0x3000 100 (omega arith)

abbrev format : HeadList
format = record { list_count = 0; infos = [] }

room_example : (8 < driver_set.proto_max_num) × (0x19 < driver_set.proto_max_num)
unfolding with_table
room_example = (omega arith, omega arith)

abbrev analyzer_at : FormatSet → ℕ → ProtocolAnalyzer
analyzer_at pfs num = record blank_analyzer { pfs_p = some pfs; protocol_num = num }

pa_find_protocol_format-pfs_add_proto_link_list_example :
    Returns (pfs_add_proto_link_list 8 (some format) driver_set) λ r.
      let at = λ (k : ℕ). record blank_analyzer {
        pfs_p = some r.0;
        protocol_num = driver_set.proto_base_addr + k;
      } in
      (r.1 ≡ 0)
      × IsTable r.0 (set driver_table 8 (some format))
      × (pa_find_protocol_format (at 8) ≡ ok (found (at 8) (some format)))
      × (pa_find_protocol_format (at 0x19) ≡ ok (found (at 0x19) none))
pa_find_protocol_format-pfs_add_proto_link_list_example =
    pa_find_protocol_format-pfs_add_proto_link_list 8 0x19 format none blank_analyzer driver-IsTable
      (omega arith) room_example.0 room_example.1 (omega arith) refl

base_example : (driver_set.proto_base_addr ≡ 0x3000) × (driver_set.proto_max_num ≡ 100)
unfolding with_table
base_example = (refl, refl)

behind_example : 0x3064 ≡ driver_set.proto_base_addr + driver_set.proto_max_num
behind_example = omega (arith, base_example.0, base_example.1)

pa_find_protocol_format_overrun_example :
    pa_find_protocol_format (analyzer_at driver_set 0x3064) ≡ fault out_of_bounds
pa_find_protocol_format_overrun_example =
    pa_find_protocol_format_overrun (analyzer_at driver_set 0x3064) driver-IsTable refl
      behind_example

abbrev entry_at : ℕ → ℕ → ℕ
entry_at n k = 1000 + 100 * n + k

entry_at_pos : (n k : ℕ) → 0 < entry_at n k
entry_at_pos n k = omega arith

pa_find_protocol_format-pfs_set_pdt_drv_proto_format_example :
    Returns (pfs_set_pdt_drv_proto_format entry_at (with_table 0x3000 100 blank_set)) λ pfs'.
      let at : ProtocolAnalyzer = record blank_analyzer {
        pfs_p = some pfs';
        protocol_num = 0x3000 + 0x52;
      } in
      pa_find_protocol_format at ≡ ok (found at (driver_format entry_at 0x52))
pa_find_protocol_format-pfs_set_pdt_drv_proto_format_example =
    pa_find_protocol_format-pfs_set_pdt_drv_proto_format entry_at blank_set blank_analyzer 0x52
      entry_at_pos (omega arith)

-- A table of three formats, and one of 300.
abbrev small_set : FormatSet
small_set = record blank_set {
  list_head_p2 = some (none ∷ some format ∷ none ∷ []);
  proto_max_num = 3;
}

pfs_destroy_protocol_format_set-cleared_example :
    Returns (pfs_destroy_protocol_format_set 4 small_set) λ left.
      (out : List (Option HeadList)) × (left ≡ some out)
      × ((m : ℕ) → m < 3 → get_elem? out m ≡ some none)
pfs_destroy_protocol_format_set-cleared_example =
    pfs_destroy_protocol_format_set-cleared small_set refl refl 4 (omega arith) (omega arith)

abbrev large_set : FormatSet
large_set = record blank_set { list_head_p2 = some (replicate 300 none); proto_max_num = 300 }

pfs_destroy_protocol_format_set-endless_example :
    pfs_destroy_protocol_format_set 1000 large_set ≡ fault out_of_fuel
pfs_destroy_protocol_format_set-endless_example =
    pfs_destroy_protocol_format_set-endless large_set refl refl 1000 (omega arith)

-- A list of two fields, the first of which has a buffer.
abbrev two_fields : HeadList
two_fields = record {
  list_count = 2;
  infos = record (blank_info 70) { buf_len = 5 } ∷ blank_info 80 ∷ [];
}

pfs_del_list_for_each-all_of_example :
    (pfs_del_list_for_each two_fields ≡ record { list_count = 0; infos = [] })
    × (pfs_del_list_for_each_frees two_fields
        ≡ ok (pfs_del_list_for_each two_fields, buffer 70 ∷ entry 70 ∷ entry 80 ∷ head_list ∷ []))
pfs_del_list_for_each-all_of_example = pfs_del_list_for_each-all_of two_fields refl (omega arith)
