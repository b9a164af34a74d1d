-- ===== src/PdtFormat/Table.antt =====
-- The table of formats that the driver sets up when it starts.
use linux_char_driver_frame.Base.{
  ℕ, Returns-bind, get_elem?-replicate, ◌+◌, ◌<◌, ◌≡◌, refl, ap, ◌∙◌, arith, Option, some, none,
  List, [], length, get_elem?, ok, Returns, if◌then◌else◌, ◌==◌, set, u32, sub32, length-set,
  get_elem?-set_self, get_elem?-set_ne, replicate,
}
use linux_char_driver_frame.Format.{
  HeadList, FormatSet, with_table, pfs_add_proto_link_list, blank_list, pfs_init_head_list,
  pfs_create_head_list,
}
use linux_char_driver_frame.Analyzer.Setup.{ProtocolAnalyzer, pa_find_protocol_format}
use linux_char_driver_frame.Analyzer.Find.{IsTable, init-IsTable, found, find-inside}
use linux_char_driver_frame.PdtFormat.{
  Row, rows_3008, rows_3019, rows_3050, rows_3052, rows_3054, set_rows, set_format,
  pfs_set_pdt_drv_proto_format,
}
use linux_char_driver_frame.PdtFormat.Layout.{
  Layout, format_at, layout_3008, layout_3019, layout_3050, layout_3052, layout_3054,
}
use linux_char_driver_frame.PdtFormat.Fill.{
  Fills, set_rows-infos_at, rows_3008-Fills, rows_3019-Fills, rows_3050-Fills, rows_3052-Fills,
  rows_3054-Fills,
}

-- A table of 100 formats from 0x3000 on, with an entry for each.
pub record IsDriverTable (entry : ℕ → Option HeadList) (pfs : FormatSet) : Type 0 where
  table : List (Option HeadList)
  is_table : IsTable pfs table
  base : pfs.proto_base_addr ≡ 0x3000
  room : pfs.proto_max_num ≡ 100
  entries : (m : ℕ) → m < 100 → get_elem? table m ≡ some (entry m)

abbrev pub with_entry : ℕ → HeadList → (ℕ → Option HeadList) → ℕ → Option HeadList
with_entry n hl entry m = if m == n then some hl else entry m

set_format-IsDriverTable :
    {pfs : FormatSet} {entry : ℕ → Option HeadList} (n : ℕ) (rows : List Row)
    (layouts : List Layout) (alloc : ℕ → ℕ)
    → IsDriverTable entry pfs
    → n < 100
    → ((k : ℕ) → 0 < alloc k)
    → Fills rows layouts
    → length layouts < 256
    → Returns
        (set_format (0x3000 + n) rows alloc pfs)
        (IsDriverTable (with_entry n (format_at alloc layouts) entry))
unfolding set_format pfs_add_proto_link_list pfs_init_head_list pfs_create_head_list
set_format-IsDriverTable {pfs} {entry} n rows layouts alloc t inside pos fills few =
    let hl = format_at alloc layouts in
    let filled : set_rows alloc 0 rows blank_list ≡ ok hl =
      set_rows-infos_at alloc 0 rows layouts 0 [] pos fills (omega arith)
      ∙ ap (λ c. ok (record hl { list_count = c })) (omega arith) in
    let index : sub32 (0x3000 + n) pfs.proto_base_addr ≡ n = omega (arith, t.base) in
    let there = t.entries n inside in
    let wide : n < length t.table = omega (arith, t.is_table.width, t.room) in
    (
      record pfs {
        list_head_p2 = some (set t.table n (some hl));
        proto_total_num = u32 (pfs.proto_total_num + 1);
      },
      ground (arith, pos (length rows), filled, index, t.is_table.has_table, there),
      record {
        table = set t.table n (some hl);
        is_table = record {
          has_table = refl;
          width = length-set t.table n (some hl) ∙ t.is_table.width;
          small = t.is_table.small;
        };
        base = t.base;
        room = t.room;
        entries = λ m h. ground (
          arith,
          get_elem?-set_self t.table n (some hl) wide,
          get_elem?-set_ne t.table n m (some hl),
          t.entries m h,
        );
      },
    )

pub find-IsDriverTable :
    {entry : ℕ → Option HeadList} {pfs : FormatSet} (pa : ProtocolAnalyzer) (m : ℕ)
    → IsDriverTable entry pfs
    → m < 100
    → let at : ProtocolAnalyzer = record pa { pfs_p = some pfs; protocol_num = 0x3000 + m } in
      pa_find_protocol_format at ≡ ok (found at (entry m))
find-IsDriverTable {entry} {pfs} pa m t inside =
    find-inside (record pa { pfs_p = some pfs; protocol_num = 0x3000 + m }) (entry m) t.is_table
      refl (omega (arith, t.base)) (omega (arith, t.base, t.room))
      (ap (get_elem? t.table) (omega (arith, t.base)) ∙ t.entries m inside)

-- The entries of the table after the five formats are set, by their index.
abbrev pub driver_format : (ℕ → ℕ → ℕ) → ℕ → Option HeadList
driver_format alloc = with_entry 0x54 (format_at (alloc 4) layout_3054) (
    with_entry 0x52 (format_at (alloc 3) layout_3052) (
      with_entry 0x50 (format_at (alloc 2) layout_3050) (
        with_entry 0x19 (format_at (alloc 1) layout_3019)
          (with_entry 8 (format_at (alloc 0) layout_3008) (λ _. none)))))

module _ (alloc : ℕ → ℕ → ℕ) (pos : (n k : ℕ) → 0 < alloc n k) where
  pub set_driver-IsDriverTable :
      (pfs : FormatSet)
      → Returns
          (pfs_set_pdt_drv_proto_format alloc (with_table 0x3000 100 pfs))
          (IsDriverTable (driver_format alloc))
  unfolding with_table
  set_driver-IsDriverTable pfs =
      let start : IsDriverTable (λ _. none) (with_table 0x3000 100 pfs) = record {
        table = replicate 100 none;
        is_table = init-IsTable pfs 0x3000 100 (omega arith);
        base = refl;
        room = refl;
        entries = λ m h. get_elem?-replicate 100 m none h;
      } in
      Returns-bind
        (set_format-IsDriverTable 8 rows_3008 layout_3008 (alloc 0) start (omega arith) (pos 0)
          rows_3008-Fills (omega arith))
        λ a t.
          Returns-bind
            (set_format-IsDriverTable 0x19 rows_3019 layout_3019 (alloc 1) t (omega arith) (pos 1)
              rows_3019-Fills (omega arith))
            λ b t.
              Returns-bind
                (set_format-IsDriverTable 0x50 rows_3050 layout_3050 (alloc 2) t (omega arith)
                  (pos 2) rows_3050-Fills (omega arith))
                λ c t.
                  Returns-bind
                    (set_format-IsDriverTable 0x52 rows_3052 layout_3052 (alloc 3) t (omega arith)
                      (pos 3) rows_3052-Fills (omega arith))
                    λ d t.
                      set_format-IsDriverTable 0x54 rows_3054 layout_3054 (alloc 4) t (omega arith)
                        (pos 4) rows_3054-Fills (omega arith)

-- Where every allocation succeeds, the calls of the driver's start make a table in which the
-- numbers 0x3008, 0x3019, 0x3050, 0x3052 and 0x3054 find a format with the fields of their layouts,
-- and the other numbers up to 0x3063 find none.
pub pa_find_protocol_format-pfs_set_pdt_drv_proto_format :
    (alloc : ℕ → ℕ → ℕ) (pfs : FormatSet) (pa : ProtocolAnalyzer) (m : ℕ)
    → ((n k : ℕ) → 0 < alloc n k)
    → m < 100
    → Returns (pfs_set_pdt_drv_proto_format alloc (with_table 0x3000 100 pfs)) λ pfs'.
      let at : ProtocolAnalyzer = record pa { pfs_p = some pfs'; protocol_num = 0x3000 + m } in
      pa_find_protocol_format at ≡ ok (found at (driver_format alloc m))
pa_find_protocol_format-pfs_set_pdt_drv_proto_format alloc pfs pa m pos inside =
    let (pfs', e, t) = set_driver-IsDriverTable alloc pos pfs in
    (pfs', e, find-IsDriverTable pa m t inside)
