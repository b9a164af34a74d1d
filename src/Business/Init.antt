-- ===== src/Business/Init.antt =====
-- Setting up an analyser for a message of the driver.
use linux_char_driver_frame.Base.{
  ℕ, ◌+◌, ◌<◌, ◌^◌, ◌≡◌, ◌≢◌, refl, sym, ap, ap₂, ◌∙◌, arith, true, Option, some, List, [], ◌∷◌,
  ◌++◌, length, ok, ok-injective, replicate, Run-cases, inl, inr, Returns, u8,
}
use mathlib.Core.Path.{subst}
use mathlib.Core.List.{append-nil, append_assoc}
use linux_char_driver_frame.HashMap.{
  create_pair, hash_map_create, hash_map_init, default_hash_func, default_key_cmp_func,
}
use linux_char_driver_frame.Format.{HeadList, FormatSet, pfs_add_list}
use linux_char_driver_frame.Format.Info.{ProtoInfo}
use linux_char_driver_frame.Analyzer.Setup.{
  ProtocolAnalyzer, pa_find_protocol_format, copy_loop, table_loop, pa_copy_protocol_format,
  pa_create_hash_table, field_count, pa_init_protocol_analyzer, blank_analyzer, pa_find_key,
}
use linux_char_driver_frame.Analyzer.Find.{found}
use linux_char_driver_frame.Analyzer.Keys.{IsChars}
use linux_char_driver_frame.Analyzer.Lookup.{search_list, pa_find_key-search_list}
use linux_char_driver_frame.PdtFormat.Layout.{Layout, fixed, sized, info_at, infos_at, format_at}
use linux_char_driver_frame.PdtFormat.Named.{well_named, well_named-HasNames}
use linux_char_driver_frame.PdtFormat.Table.{IsDriverTable, find-IsDriverTable}

copy_one :
    (l : Layout) (old new count : ℕ) (infos : List ProtoInfo)
    → pfs_add_list
        (record (info_at l old) { addr = new })
        (record { list_count = count; infos = infos })
      ≡ record { list_count = u8 (count + 1); infos = infos ++ info_at l new ∷ [] }
unfolding pfs_add_list
copy_one (fixed name byte_pos len) old new count infos = refl
copy_one (sized name byte_pos index) old new count infos = refl

-- A copy has the fields of the format, at the addresses of its own.
copy_loop-infos_at :
    (from alloc : ℕ → ℕ) (i : ℕ) (layouts : List Layout) (count : ℕ) (infos : List ProtoInfo)
    → ((k : ℕ) → 0 < alloc k)
    → count < 256
    → copy_loop alloc i (infos_at from i layouts) (record { list_count = count; infos = infos })
      ≡ ok (record {
        list_count = u8 (count + length layouts);
        infos = infos ++ infos_at alloc i layouts;
      })
unfolding copy_loop
copy_loop-infos_at from alloc i [] count infos pos small =
    ap₂ (λ c ns. ok (record { list_count = c; infos = ns })) (omega arith) (sym (append-nil infos))
copy_loop-infos_at from alloc i (l ∷ layouts) count infos pos small =
    let now = info_at l (alloc i) in
    let start : copy_loop alloc i (info_at l (from i) ∷ infos_at from (i + 1) layouts)
          (record { list_count = count; infos = infos })
        ≡ copy_loop alloc (i + 1) (infos_at from (i + 1) layouts)
            (record { list_count = u8 (count + 1); infos = infos ++ now ∷ [] }) =
      ground (arith, pos i, copy_one l (from i) (alloc i) count infos) in
    start
    ∙ copy_loop-infos_at from alloc (i + 1) layouts (u8 (count + 1)) (infos ++ now ∷ []) pos
        (omega arith)
    ∙ ap₂ (λ c ns. ok (record { list_count = c; infos = ns })) (omega arith)
        (append_assoc infos (now ∷ []) (infos_at alloc (i + 1) layouts))

-- What an analyser holds for a message: the fields of its format, which it finds by their names.
pub record IsReady (alloc : ℕ → ℕ) (layouts : List Layout) (pa : ProtocolAnalyzer) : Type 0 where
  pub has_fields : pa.pa_list_head_p ≡ some (format_at alloc layouts)
  pub finds :
      (k : List ℕ)
      → IsChars k
      → length k < 10
      → pa_find_key (k ++ 0 ∷ []) pa ≡ search_list (k ++ 0 ∷ []) (infos_at alloc 0 layouts)

-- Making the hash table sets nothing else.
create_keeps :
    (alloc : ℕ → ℕ) (pa : ProtocolAnalyzer) (hl : HeadList) (r : ProtocolAnalyzer × ℕ)
    → ((i : ℕ) → 0 < alloc i)
    → pa.pa_list_head_p ≡ some hl
    → pa_create_hash_table alloc pa ≡ ok r
    → (r.0.pa_list_head_p ≡ some hl) × (r.0.protocol_data ≡ pa.protocol_data)
unfolding pa_create_hash_table field_count create_pair hash_map_create
create_keeps alloc pa hl r pos e run =
    let n = length hl.infos in
    let empty = hash_map_init 10 14 10 default_hash_func default_key_cmp_func in
    elim (Run-cases (table_loop alloc 0 hl.infos empty)) [
      | inr (f, failed) ↦ absurd (ground (arith, e, pos n, pos (n + 1), pos (n + 2), failed, run))
      | inl (hmap, made) ↦
          let as_made : pa_create_hash_table alloc pa ≡ ok (record pa { hmap = some hmap }, 0) =
            rw e (ground (arith, pos n, pos (n + 1), pos (n + 2), made)) in
          let is : (record pa { hmap = some hmap }, 0) ≡ r = ok-injective (sym as_made ∙ run) in
          (
            sym (ap (λ (x : ProtocolAnalyzer × ℕ). x.0.pa_list_head_p) is) ∙ e,
            sym (ap (λ (x : ProtocolAnalyzer × ℕ). x.0.protocol_data) is),
          )
    ]

module _ (info_alloc node_alloc : ℕ → ℕ) (info_pos : (k : ℕ) → 0 < info_alloc k)
    (info_word : (k : ℕ) → info_alloc k < 2 ^ 32) (node_pos : (k : ℕ) → 0 < node_alloc k)
    (node_apart : (j k : ℕ) → j < k → node_alloc j ≢ node_alloc k) where
  pub init-IsReady :
      {entry : ℕ → Option HeadList} {pfs : FormatSet} (m : ℕ) (from : ℕ → ℕ) (layouts : List Layout)
      → IsDriverTable entry pfs
      → m < 100
      → entry m ≡ some (format_at from layouts)
      → length layouts < 256
      → well_named layouts ≡ true
      → Returns
          (pa_init_protocol_analyzer info_alloc node_alloc (0x3000 + m) pfs blank_analyzer)
          λ pa. IsReady info_alloc layouts pa × (pa.protocol_data ≡ replicate 100 0)
  unfolding pa_init_protocol_analyzer pa_copy_protocol_format
  init-IsReady {pfs} m from layouts t inside there few named =
      let start : ProtocolAnalyzer = record blank_analyzer {
        pfs_p = some pfs;
        protocol_num = 0x3000 + m;
      } in
      let hl = format_at from layouts in
      let found_it : pa_find_protocol_format start
          ≡ ok (record start { pf_list_head_p = some hl }, 0) =
        find-IsDriverTable blank_analyzer m t inside ∙ ap (λ x. ok (found start x)) there in
      let filled : ProtocolAnalyzer = record start {
        pf_list_head_p = some hl;
        pa_list_head_p = some (format_at info_alloc layouts);
      } in
      let copied : copy_loop info_alloc 0 hl.infos (record { list_count = 0; infos = [] })
          ≡ ok (format_at info_alloc layouts) =
        copy_loop-infos_at from info_alloc 0 layouts 0 [] info_pos (omega arith)
        ∙ ap (λ c. ok (record { list_count = c; infos = infos_at info_alloc 0 layouts }))
            (omega arith) in
      let names = well_named-HasNames info_alloc 0 layouts info_pos info_word named in
      let lookup = λ (k : List ℕ) (chars : IsChars k) (short : length k < 10).
        pa_find_key-search_list node_alloc k filled (format_at info_alloc layouts) node_pos
          node_apart chars short refl names in
      let (r, run, rest) = lookup [] tt (omega arith) in
      let kept =
        create_keeps node_alloc filled (format_at info_alloc layouts) r node_pos refl run in
      (
        r.0,
        ground (arith, found_it, info_pos (length hl.infos), copied, run),
        (
          record {
            has_fields = kept.0;
            finds = λ k chars short.
                let (r', run', (zero', finds)) = lookup k chars short in
                subst
                  (λ (x : ProtocolAnalyzer × ℕ).
                    pa_find_key (k ++ 0 ∷ []) x.0
                    ≡ search_list (k ++ 0 ∷ []) (infos_at info_alloc 0 layouts))
                  (ok-injective (sym run' ∙ run)) finds;
          },
          kept.1,
        ),
      )
