-- ===== src/PdtFormat/Fill.antt =====
-- The rows of the formats set up the fields of their layouts.
use linux_char_driver_frame.Base.{
  ℕ, ◌+◌, ◌<◌, ◌≡◌, refl, sym, ap, ap₂, ◌∙◌, arith, some, List, [], ◌∷◌, ◌++◌, length, Run, ok, u8,
  ◌>>=◌,
}
use mathlib.Core.List.{append-nil, append_assoc}
use linux_char_driver_frame.Format.{HeadList, pfs_set_proto_info, pfs_add_list}
use linux_char_driver_frame.Format.Number.{strlen, streq, strcpy, atoi, atoi_loop, atoi_end}
use linux_char_driver_frame.Format.Info.{
  ProtoInfo, blank_info, set_proto_info_attribs, name_str, byte_pos_str, bit_pos_str, len_str,
  len_unit_str, vlenth_index_str, find_attrib, set_attrib, set_vlenth_index,
}
use linux_char_driver_frame.PdtFormat.{
  Row, set_rows, rows_3008, rows_3019, rows_3050, rows_3052, rows_3054,
}
use linux_char_driver_frame.PdtFormat.Layout.{
  Layout, info_at, infos_at, layout_3008, layout_3019, layout_3050, layout_3052, layout_3054,
}

-- The six assignments of one call.
abbrev fill_row : Row → ℕ → Run ProtoInfo
fill_row r addr = set_proto_info_attribs name_str (some r.name) (blank_info addr) >>= λ a.
    set_proto_info_attribs byte_pos_str (some r.byte_pos) a >>= λ b.
    set_proto_info_attribs bit_pos_str (some r.bit_pos) b >>= λ c.
    set_proto_info_attribs len_str (some r.len) c >>= λ d.
    set_proto_info_attribs len_unit_str (some r.len_unit) d >>= λ e.
    set_proto_info_attribs vlenth_index_str r.vlenth_index e

abbrev pub Fills : List Row → List Layout → Type 0
Fills [] [] = Unit {0}
Fills [] (l ∷ layouts) = ⊥
Fills (r ∷ rows) [] = ⊥
Fills (r ∷ rows) (l ∷ layouts) = ((a : ℕ) → fill_row r a ≡ ok (info_at l a)) × Fills rows layouts

set_row_run :
    (addr : ℕ) (r : Row) (info : ProtoInfo) (hl : HeadList)
    → 0 < addr
    → fill_row r addr ≡ ok info
    → pfs_set_proto_info addr
        (some r.name)
        (some r.byte_pos)
        (some r.bit_pos)
        (some r.len)
        (some r.len_unit)
        r.vlenth_index
        hl
      ≡ ok (pfs_add_list info hl, addr)
unfolding pfs_set_proto_info
set_row_run addr r info hl pos filled = ground (arith, pos, filled)

pub set_rows-infos_at :
    (alloc : ℕ → ℕ) (i : ℕ) (rows : List Row) (layouts : List Layout) (count : ℕ)
    (infos : List ProtoInfo)
    → ((k : ℕ) → 0 < alloc k)
    → Fills rows layouts
    → count < 256
    → set_rows alloc i rows (record { list_count = count; infos = infos })
      ≡ ok (record {
        list_count = u8 (count + length layouts);
        infos = infos ++ infos_at alloc i layouts;
      })
unfolding set_rows pfs_add_list
set_rows-infos_at alloc i [] [] count infos pos fills small =
    ap₂ (λ c ns. ok (record { list_count = c; infos = ns })) (omega arith) (sym (append-nil infos))
set_rows-infos_at alloc i [] (l ∷ layouts) count infos pos fills small = elim fills [ ]
set_rows-infos_at alloc i (r ∷ rows) [] count infos pos fills small = elim fills [ ]
set_rows-infos_at alloc i (r ∷ rows) (l ∷ layouts) count infos pos fills small =
    let now = info_at l (alloc i) in
    let rest =
      set_rows-infos_at alloc (i + 1) rows layouts (u8 (count + 1)) (infos ++ now ∷ []) pos fills.1
        (omega arith) in
    ap (λ (run : Run (HeadList × ℕ)). run >>= λ s. set_rows alloc (i + 1) rows s.0)
      (set_row_run (alloc i) r now (record { list_count = count; infos = infos }) (pos i)
        (fills.0 (alloc i)))
    ∙ rest
    ∙ ap₂ (λ c ns. ok (record { list_count = c; infos = ns })) (omega arith)
        (append_assoc infos (now ∷ []) (infos_at alloc (i + 1) layouts))

pub rows_3008-Fills : Fills rows_3008 layout_3008
unfolding set_proto_info_attribs find_attrib streq set_attrib set_vlenth_index strcpy strlen atoi
    atoi_loop atoi_end
rows_3008-Fills = (
  λ a. refl,
  (
    λ a. refl,
    (
      λ a. refl,
      (
        λ a. refl,
        (
          λ a. refl,
          (λ a. refl, (λ a. refl, (λ a. refl, (λ a. refl, (λ a. refl, (λ a. refl, tt)))))),
        ),
      ),
    ),
  ),
)

pub rows_3019-Fills : Fills rows_3019 layout_3019
unfolding set_proto_info_attribs find_attrib streq set_attrib set_vlenth_index strcpy strlen atoi
    atoi_loop atoi_end
rows_3019-Fills = (
  λ a. refl,
  (λ a. refl, (λ a. refl, (λ a. refl, (λ a. refl, (λ a. refl, (λ a. refl, (λ a. refl, tt))))))),
)

pub rows_3050-Fills : Fills rows_3050 layout_3050
unfolding set_proto_info_attribs find_attrib streq set_attrib set_vlenth_index strcpy strlen atoi
    atoi_loop atoi_end
rows_3050-Fills = (
  λ a. refl,
  (
    λ a. refl,
    (
      λ a. refl,
      (
        λ a. refl,
        (
          λ a. refl,
          (
            λ a. refl,
            (λ a. refl, (λ a. refl, (λ a. refl, (λ a. refl, (λ a. refl, (λ a. refl, tt)))))),
          ),
        ),
      ),
    ),
  ),
)

pub rows_3052-Fills : Fills rows_3052 layout_3052
unfolding set_proto_info_attribs find_attrib streq set_attrib set_vlenth_index strcpy strlen atoi
    atoi_loop atoi_end
rows_3052-Fills = (
  λ a. refl,
  (
    λ a. refl,
    (
      λ a. refl,
      (
        λ a. refl,
        (
          λ a. refl,
          (
            λ a. refl,
            (
              λ a. refl,
              (λ a. refl, (λ a. refl, (λ a. refl, (λ a. refl, (λ a. refl, (λ a. refl, tt)))))),
            ),
          ),
        ),
      ),
    ),
  ),
)

pub rows_3054-Fills : Fills rows_3054 layout_3054
unfolding set_proto_info_attribs find_attrib streq set_attrib set_vlenth_index strcpy strlen atoi
    atoi_loop atoi_end
rows_3054-Fills = (λ a. refl, (λ a. refl, (λ a. refl, (λ a. refl, (λ a. refl, tt)))))
