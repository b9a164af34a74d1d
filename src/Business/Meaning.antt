-- ===== src/Business/Meaning.antt =====
-- Parsing a message of the driver finds the values that its layout gives.
use linux_char_driver_frame.Base.{
  ℕ, ◌-◌, ◌<◌, ◌≡◌, ◌≢◌, refl, sym, ap, ◌∙◌, arith, true, some, List, [], ◌∷◌, ◌++◌, length,
  get_elem?, replicate, ok, Returns,
}
use mathlib.Core.Path.{subst}
use mathlib.Core.List.{append_assoc}
use linux_char_driver_frame.Format.{HeadList}
use linux_char_driver_frame.Format.Info.{ProtoInfo}
use linux_char_driver_frame.Analyzer.Setup.{
  ProtocolAnalyzer, fields, find_info, info_of, pa_find_key,
}
use linux_char_driver_frame.Analyzer.{pa_parse_protocol_data, pa_get_value, parse_loop}
use linux_char_driver_frame.Analyzer.Keys.{IsChars}
use linux_char_driver_frame.PdtFormat.Layout.{Layout, sized, info_at, infos_at, format_at, array}
use linux_char_driver_frame.PdtFormat.Named.{chars_of, chars_of-IsChars, same-eq}
use linux_char_driver_frame.Business.Init.{IsReady}
use linux_char_driver_frame.Business.Decode.{index_of, decode}
use linux_char_driver_frame.Business.Parse.{with_infos}
use linux_char_driver_frame.Business.State.{IsState, find_info-addr}
use linux_char_driver_frame.Business.Loop.{Parsed, parse_loop-decode}
use linux_char_driver_frame.Business.Fits.{
  all_fit, all_fit-get, infos_at-get, infos_at-addr, length-infos_at, search_list-index_of,
  pa_find_key-tail, placed_first,
}

-- The field with a name is found, and has a value.
pub record HasValue (key : List ℕ) (v : ℕ) (pa : ProtocolAnalyzer) : Type 0 where
  pub at : ℕ
  pub infos : List ProtoInfo
  pub info : ProtoInfo
  pub not_null : 0 < at
  pub finds : pa_find_key key pa ≡ ok at
  pub has_fields : fields pa ≡ ok infos
  pub there : find_info at infos ≡ some info
  pub holds : info.data_value ≡ v

module _ (alloc : ℕ → ℕ) (layouts : List Layout) (pa : ProtocolAnalyzer)
    (alloc_pos : (k : ℕ) → 0 < alloc k)
    (alloc_apart : (j k : ℕ) → j < k → k < length layouts → alloc j ≢ alloc k)
    (fit : all_fit layouts ≡ true) (ready : IsReady alloc layouts pa) where
  -- At the start every field stands at its place.
  start-IsState : IsState alloc layouts 0 0 [] (infos_at alloc 0 layouts)
  start-IsState = record {
    width = length-infos_at alloc 0 layouts;
    count = refl;
    addrs = λ m info there. infos_at-addr alloc 0 layouts m info there ∙ ap alloc (omega arith);
    seen = λ j v there. absurd cc;
    ahead = λ m l low there.
        infos_at-get alloc 0 layouts m l there
        ∙ ap (λ k. some (info_at l (alloc k))) (omega arith)
        ∙ ap some (placed_first l (alloc m) (all_fit-get layouts m l fit there));
  }

  finds_name :
      (k : List ℕ) (j : ℕ)
      → IsChars k
      → length k < 10
      → index_of (k ++ 0 ∷ []) layouts ≡ some j
      → pa_find_key (k ++ 0 ∷ []) pa ≡ ok (alloc j)
  finds_name k j chars short at_j =
      ready.finds k chars short
      ∙ search_list-index_of alloc 0 (k ++ 0 ∷ []) layouts j at_j
      ∙ ap (λ m. ok (alloc m)) (omega arith)

  pub finds_index :
      (i j : ℕ) (name : List ℕ) (byte_pos : ℕ) (index : List ℕ)
      → get_elem? layouts i ≡ some (sized name byte_pos index)
      → index_of index layouts ≡ some j
      → pa_find_key (array index) pa ≡ ok (alloc j)
  finds_index i j name byte_pos index there at_j =
      let k = chars_of index in
      let fit_here = all_fit-get layouts i (sized name byte_pos index) fit there in
      let is_name : index ≡ k ++ 0 ∷ [] = same-eq index (k ++ 0 ∷ []) (ground arith) in
      let short : length k < 10 = ground arith in
      let behind = replicate (20 - length index) 0 in
      let in_array : array index ≡ k ++ 0 ∷ behind =
        ap (λ x. x ++ behind) is_name ∙ append_assoc k (0 ∷ []) behind in
      ap (λ x. pa_find_key x pa) in_array
      ∙ pa_find_key-tail k behind pa (chars_of-IsChars index)
      ∙ finds_name k j (chars_of-IsChars index) short
          (subst (λ x. index_of x layouts ≡ some j) is_name at_j)

  module _ (out : List ℕ) (decoded : decode pa.protocol_data layouts layouts 0 [] ≡ ok out)
      (some_len : 0 < pa.protocol_data_len) where
    abbrev hl : HeadList
    hl = format_at alloc layouts

    pub parse_run :
        Returns
          (pa_parse_protocol_data (λ _. true) pa)
          λ r. (r.1 ≡ 0) × Parsed pa hl alloc layouts alloc_pos alloc_apart finds_index out r.0
    unfolding pa_parse_protocol_data
    parse_run =
        let (pa', run, done) =
          parse_loop-decode pa hl alloc layouts alloc_pos alloc_apart finds_index layouts 0 0 [] out
            (infos_at alloc 0 layouts) (λ m. ap (get_elem? layouts) (omega arith)) (omega arith)
            start-IsState decoded in
        let as_pa : with_infos pa hl (infos_at alloc 0 layouts) ≡ pa =
          ap (λ x. record pa { pa_list_head_p = x }) (sym ready.has_fields) in
        let run' : parse_loop (λ _. true) (length hl.infos) 0 pa ≡ ok pa' =
          ap (λ n. parse_loop (λ _. true) n 0 pa) (length-infos_at alloc 0 layouts)
          ∙ ap (parse_loop (λ _. true) (length layouts) 0) (sym as_pa)
          ∙ run in
        ((pa', 0), ground (arith, ready.has_fields, some_len, run'), (refl, done))

    pub Parsed-HasValue :
        (pa' : ProtocolAnalyzer) (k : List ℕ) (j v : ℕ)
        → Parsed pa hl alloc layouts alloc_pos alloc_apart finds_index out pa'
        → IsChars k
        → length k < 10
        → index_of (k ++ 0 ∷ []) layouts ≡ some j
        → get_elem? out j ≡ some v
        → HasValue (k ++ 0 ∷ []) v pa'
    unfolding pa_find_key fields
    Parsed-HasValue pa' k j v (infos, s, is, st) chars short at_j value =
        let (info, there, holds) = st.seen j v value in
        subst (HasValue (k ++ 0 ∷ []) v) (sym is) (record {
          at = alloc j;
          infos = infos;
          info = info;
          not_null = alloc_pos j;
          finds = finds_name k j chars short at_j;
          has_fields = refl;
          there =
              find_info-addr alloc infos j info st.addrs
                (λ m n h low. alloc_apart m n h (omega (arith, st.width))) there;
          holds = holds;
        })

-- For a message whose layout gives its values, where every field stands in the first 256 bytes and
-- there is memory for the buffers, an analyser that is ready for its fields parses it and returns
-- 0, and each field that a name of less than ten characters finds has its value.
pub pa_parse_protocol_data-decode :
    (alloc : ℕ → ℕ) (layouts : List Layout) (pa : ProtocolAnalyzer) (out k : List ℕ) (j v : ℕ)
    → ((i : ℕ) → 0 < alloc i)
    → ((i m : ℕ) → i < m → m < length layouts → alloc i ≢ alloc m)
    → all_fit layouts ≡ true
    → IsReady alloc layouts pa
    → decode pa.protocol_data layouts layouts 0 [] ≡ ok out
    → 0 < pa.protocol_data_len
    → IsChars k
    → length k < 10
    → index_of (k ++ 0 ∷ []) layouts ≡ some j
    → get_elem? out j ≡ some v
    → Returns
        (pa_parse_protocol_data (λ _. true) pa)
        λ r. (r.1 ≡ 0) × (pa_get_value (k ++ 0 ∷ []) r.0 ≡ ok v)
unfolding pa_get_value info_of
pa_parse_protocol_data-decode alloc layouts pa out k j v pos apart fit ready decoded some_len chars
      short at_j value =
    let (r, run, (good, done)) =
      parse_run alloc layouts pa pos apart fit ready out decoded some_len in
    let h =
      Parsed-HasValue alloc layouts pa pos apart fit ready out decoded some_len r.0 k j v done chars
        short at_j value in
    (r, run, (good, ground (arith, h.not_null, h.finds, h.has_fields, h.there, h.holds)))
