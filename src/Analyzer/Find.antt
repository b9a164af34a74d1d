-- ===== src/Analyzer/Find.antt =====
-- Finding the format of a message by its number.
use linux_char_driver_frame.Base.{
  ℕ, ◌+◌, ◌-◌, ◌^◌, ◌≤◌, ◌<◌, ◌≡◌, refl, sym, ◌∙◌, arith, Option, some, none, List, length,
  get_elem?, ok, fault, out_of_bounds, u32, sub32, minus_one, get_elem?-eq-some, get_elem?-eq-none,
  ◌≢◌, ◌⊎◌, Returns, set, length-set, get_elem?-set_self, get_elem?-set_ne, replicate,
  length-replicate,
}
use linux_char_driver_frame.Format.{HeadList, FormatSet, with_table, pfs_add_proto_link_list}
use linux_char_driver_frame.Analyzer.Setup.{
  ProtocolAnalyzer, pa_check_protocol_num, pa_find_protocol_format,
}

-- What the call does with the entry that it finds.
abbrev pub found : ProtocolAnalyzer → Option HeadList → ProtocolAnalyzer × ℕ
found pa none = (record pa { pf_list_head_p = none }, minus_one)
found pa (some hl) = (record pa { pf_list_head_p = some hl }, 0)

-- The table has room for `proto_max_num` formats, and its numbers are words.
pub record IsTable (pfs : FormatSet) (table : List (Option HeadList)) : Type 0 where
  pub has_table : pfs.list_head_p2 ≡ some table
  pub width : length table ≡ pfs.proto_max_num
  pub small : pfs.proto_base_addr + pfs.proto_max_num < 2 ^ 32

pub find-inside :
    {pfs : FormatSet} {table : List (Option HeadList)} (pa : ProtocolAnalyzer)
    (hl : Option HeadList)
    → IsTable pfs table
    → pa.pfs_p ≡ some pfs
    → pfs.proto_base_addr ≤ pa.protocol_num
    → pa.protocol_num < pfs.proto_base_addr + pfs.proto_max_num
    → get_elem? table (pa.protocol_num - pfs.proto_base_addr) ≡ some hl
    → pa_find_protocol_format pa ≡ ok (found pa hl)
unfolding pa_find_protocol_format pa_check_protocol_num
find-inside {pfs} pa hl t set_p low high there =
    let index : sub32 pa.protocol_num pfs.proto_base_addr ≡ pa.protocol_num - pfs.proto_base_addr =
      omega (arith, t.small) in
    ground (arith, t.has_table, t.small, set_p, there, index)

pub init-IsTable :
    (pfs : FormatSet) (base max_num : ℕ)
    → base + max_num < 2 ^ 32
    → IsTable (with_table base max_num pfs) (replicate max_num none)
unfolding with_table
init-IsTable pfs base max_num small = record {
  has_table = refl;
  width = length-replicate max_num none;
  small = small;
}

-- Adding a format at an index of the table that is at most 200 returns 0; the message with that
-- number then finds it, and the message with another number of the table finds the entry that was
-- there before.
pub pa_find_protocol_format-pfs_add_proto_link_list :
    {pfs : FormatSet} {table : List (Option HeadList)} (n m : ℕ) (hl : HeadList)
    (old : Option HeadList) (pa : ProtocolAnalyzer)
    → IsTable pfs table
    → n ≤ 200
    → n < pfs.proto_max_num
    → m < pfs.proto_max_num
    → m ≢ n
    → get_elem? table m ≡ some old
    → Returns (pfs_add_proto_link_list n (some hl) pfs) λ r.
      let at = λ (k : ℕ). record pa { pfs_p = some r.0; protocol_num = pfs.proto_base_addr + k } in
      (r.1 ≡ 0)
      × IsTable r.0 (set table n (some hl))
      × (pa_find_protocol_format (at n) ≡ ok (found (at n) (some hl)))
      × (pa_find_protocol_format (at m) ≡ ok (found (at m) old))
unfolding pfs_add_proto_link_list
pa_find_protocol_format-pfs_add_proto_link_list {pfs} {table} n m hl old pa t low n_in m_in other
      there =
    let pfs' : FormatSet = record pfs {
      list_head_p2 = some (set table n (some hl));
      proto_total_num = u32 (pfs.proto_total_num + 1);
    } in
    let t' : IsTable pfs' (set table n (some hl)) = record {
      has_table = refl;
      width = length-set table n (some hl) ∙ t.width;
      small = t.small;
    } in
    let (was, there_n) = get_elem?-eq-some table n (omega (arith, t.width)) in
    let at = λ (k : ℕ). record pa { pfs_p = some pfs'; protocol_num = pfs.proto_base_addr + k } in
    let n_at : get_elem? (set table n (some hl)) (pfs.proto_base_addr + n - pfs.proto_base_addr)
        ≡ some (some hl) =
      ground (arith, get_elem?-set_self table n (some hl) (omega (arith, t.width))) in
    let m_at : get_elem? (set table n (some hl)) (pfs.proto_base_addr + m - pfs.proto_base_addr)
        ≡ some old =
      ground (arith, there, get_elem?-set_ne table n m (some hl) (λ e. other (sym e))) in
    (
      (pfs', 0),
      ground (arith, t.has_table, there_n),
      (
        refl,
        t',
        find-inside (at n) (some hl) t' refl (omega arith) (omega arith) n_at,
        find-inside (at m) old t' refl (omega arith) (omega arith) m_at,
      ),
    )

-- A number below the base address or above the end of the table is refused with -1.
pa_find_protocol_format_refused :
    {pfs : FormatSet} {table : List (Option HeadList)} (pa : ProtocolAnalyzer)
    → IsTable pfs table
    → pa.pfs_p ≡ some pfs
    → (pa.protocol_num < pfs.proto_base_addr)
      ⊎ (pfs.proto_base_addr + pfs.proto_max_num < pa.protocol_num)
    → pa_find_protocol_format pa ≡ ok (pa, minus_one)
unfolding pa_find_protocol_format pa_check_protocol_num
pa_find_protocol_format_refused pa t set_p outside = ground (arith, t.small, set_p, outside)

-- The number just behind the table passes the check, and the table is read out of its bounds.
pub pa_find_protocol_format_overrun :
    {pfs : FormatSet} {table : List (Option HeadList)} (pa : ProtocolAnalyzer)
    → IsTable pfs table
    → pa.pfs_p ≡ some pfs
    → pa.protocol_num ≡ pfs.proto_base_addr + pfs.proto_max_num
    → pa_find_protocol_format pa ≡ fault out_of_bounds
unfolding pa_find_protocol_format pa_check_protocol_num
pa_find_protocol_format_overrun {pfs} {table} pa t set_p end =
    let index : sub32 pa.protocol_num pfs.proto_base_addr ≡ pa.protocol_num - pfs.proto_base_addr =
      omega (arith, t.small) in
    let behind =
      get_elem?-eq-none table (pa.protocol_num - pfs.proto_base_addr) (omega (arith, t.width)) in
    ground (arith, t.has_table, t.small, set_p, behind, index)
