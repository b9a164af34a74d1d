-- ===== src/Business/Loop.antt =====
-- The parser reads the values that the layout of a message gives.
use linux_char_driver_frame.Base.{
  bind-ok, or_fault-ok, ℕ, suc, ◌+◌, ◌*◌, ◌/◌, ◌<◌, ◌≡◌, ◌≢◌, refl, sym, ap, ◌∙◌, arith, true, some,
  List, [], ◌∷◌, ◌++◌, length, get_elem?, set, ok, dangling, or_fault, Returns, u8, u16, u32,
  get_elem?-set_self, get_elem?-set_ne, length-set, ok-injective,
}
use mathlib.Core.Path.{subst}
use linux_char_driver_frame.Format.{HeadList}
use linux_char_driver_frame.Format.Info.{ProtoInfo}
use linux_char_driver_frame.Analyzer.Setup.{ProtocolAnalyzer, pa_find_key}
use linux_char_driver_frame.Analyzer.{parse_loop}
use linux_char_driver_frame.Analyzer.Shift.{moved, in_range}
use linux_char_driver_frame.PdtFormat.Layout.{Layout, fixed, sized, array}
use linux_char_driver_frame.Business.Decode.{index_of, read_number, decode}
use linux_char_driver_frame.Business.Parse.{
  with_infos, read_field-read_number, resized, round_fixed, round_sized,
}
use linux_char_driver_frame.Business.State.{
  IsState, place, moved-place, next-IsState, length-resized, resized_self, resized_get,
  find_info-addr,
}

module _ (pa : ProtocolAnalyzer) (hl : HeadList) (alloc : ℕ → ℕ) (all : List Layout)
    (alloc_pos : (k : ℕ) → 0 < alloc k)
    (alloc_apart : (j k : ℕ) → j < k → k < length all → alloc j ≢ alloc k)
    (finds : (i j : ℕ) (name : List ℕ) (byte_pos : ℕ) (index : List ℕ)
      → get_elem? all i ≡ some (sized name byte_pos index)
      → index_of index all ≡ some j
      → pa_find_key (array index) pa ≡ ok (alloc j)) where
  abbrev pub Parsed : List ℕ → ProtocolAnalyzer → Type 0
  Parsed out pa' =
      (infos : List ProtoInfo) × (s : ℕ) × (pa' ≡ with_infos pa hl infos)
      × IsState alloc all (length all) s out infos

  fixed_round :
      (left i s : ℕ) (values : List ℕ) (infos : List ProtoInfo) (name : List ℕ) (byte_pos len v : ℕ)
      → IsState alloc all i s values infos
      → get_elem? all i ≡ some (fixed name byte_pos len)
      → read_number pa.protocol_data len (u8 (byte_pos + s)) ≡ ok v
      → (infos' : List ProtoInfo) × IsState alloc all (i + 1) s (values ++ v ∷ []) infos'
        × (parse_loop (λ _. true) (suc left) i (with_infos pa hl infos)
            ≡ parse_loop (λ _. true) left (i + 1) (with_infos pa hl infos'))
  fixed_round left i s values infos name byte_pos len v st there number =
      let l = fixed name byte_pos len in
      let here = st.ahead i l (omega arith) there in
      let inside = in_range infos i here in
      let (new, got, value, addr) =
        read_field-read_number pa.protocol_data (place s l (alloc i)) v refl refl refl number in
      (
        set infos i new,
        next-IsState (set infos i new) new v s st (length-set infos i new)
            (get_elem?-set_self infos i new inside) addr value
            (λ m low. get_elem?-set_ne infos i m new (λ e. absurd (omega arith)))
            (λ m l' high there'.
              get_elem?-set_ne infos i m new (λ e. absurd (omega arith))
              ∙ st.ahead m l' (omega arith) there'),
        round_fixed (λ _. true) pa hl left i infos (place s l (alloc i)) new here refl got,
      )

  sized_round :
      (left i s : ℕ) (values : List ℕ) (infos : List ProtoInfo) (name : List ℕ) (byte_pos : ℕ)
      (index : List ℕ) (j n v : ℕ)
      → IsState alloc all i s values infos
      → get_elem? all i ≡ some (sized name byte_pos index)
      → index_of index all ≡ some j
      → get_elem? values j ≡ some n
      → read_number pa.protocol_data (u16 n) (u8 (byte_pos + s)) ≡ ok v
      → (infos' : List ProtoInfo) × IsState alloc all
          (i + 1)
          (s + u32 (n * 8) / 8)
          (values ++ v ∷ [])
          infos'
        × (parse_loop (λ _. true) (suc left) i (with_infos pa hl infos)
            ≡ parse_loop (λ _. true) left (i + 1) (with_infos pa hl infos'))
  sized_round left i s values infos name byte_pos index j n v st there at_j has_n number =
      let l = sized name byte_pos index in
      let info = place s l (alloc i) in
      let k = u32 (n * 8) / 8 in
      let now : ProtoInfo = record info { len = u16 n; vlenth_flag = 0 } in
      let here = st.ahead i l (omega arith) there in
      let inside = in_range infos i here in
      let (found, found_at, holds) = st.seen j n has_n in
      let lives =
        find_info-addr alloc infos j found st.addrs
          (λ m k h low. alloc_apart m k h (omega (arith, st.width))) found_at in
      let (new, got, value, addr) =
        read_field-read_number pa.protocol_data now v refl refl refl number in
      let before = resized i n info infos in
      let wide : i < length before = omega (arith, length-resized i n info infos) in
      let after = λ (m : ℕ). resized_get i n m info now new infos inside in
      (
        set (set before i now) i new,
        next-IsState (set (set before i now) i new) new v (s + k) st
            (length-set (set before i now) i new
              ∙ length-set before i now
              ∙ length-resized i n info infos)
            (ground (arith, after i)) addr value (λ m low. ground (arith, after m))
            (λ m l' high there'.
              ground (arith, after m)
              ∙ ap (moved k) (st.ahead m l' (omega arith) there')
              ∙ moved-place k s l' (alloc m)),
        round_sized (λ _. true) pa hl left i (alloc j) n infos info found new here refl
            (finds i j name byte_pos index there at_j) (alloc_pos j) lives holds
            (resized_self i n info infos inside) wide got,
      )

  pub parse_loop-decode :
      (rest : List Layout) (i s : ℕ) (values out : List ℕ) (infos : List ProtoInfo)
      → ((m : ℕ) → get_elem? rest m ≡ get_elem? all (i + m))
      → length all ≡ i + length rest
      → IsState alloc all i s values infos
      → decode pa.protocol_data all rest s values ≡ ok out
      → Returns (parse_loop (λ _. true) (length rest) i (with_infos pa hl infos)) (Parsed out)
  unfolding decode parse_loop
  parse_loop-decode [] i s values out infos tail size st decoded = (
    with_infos pa hl infos,
    refl,
    (
      infos,
      s,
      refl,
      subst (λ o. IsState alloc all (length all) s o infos) (ok-injective decoded)
          (subst (λ k. IsState alloc all k s values infos) (omega (arith, size)) st),
    ),
  )
  parse_loop-decode (fixed name byte_pos len ∷ rest) i s values out infos tail size st decoded =
      let (v, number, later) =
        bind-ok (read_number pa.protocol_data len (u8 (byte_pos + s))) _ decoded in
      let (infos', st', run) =
        fixed_round (length rest) i s values infos name byte_pos len v st
          (ap (get_elem? all) (omega arith) ∙ sym (tail 0)) number in
      let (pa', run', done) =
        parse_loop-decode rest (i + 1) s (values ++ v ∷ []) out infos'
          (λ m. tail (suc m) ∙ ap (get_elem? all) (omega arith)) (omega (arith, size)) st' later in
      (pa', run ∙ run', done)
  parse_loop-decode (sized name byte_pos index ∷ rest) i s values out infos tail size st decoded =
      let (j, at_j, more) = bind-ok (or_fault dangling (index_of index all)) _ decoded in
      let (n, has_n, more') = bind-ok (or_fault dangling (get_elem? values j)) _ more in
      let (v, number, later) =
        bind-ok (read_number pa.protocol_data (u16 n) (u8 (byte_pos + s))) _ more' in
      let (infos', st', run) =
        sized_round (length rest) i s values infos name byte_pos index j n v st
          (ap (get_elem? all) (omega arith) ∙ sym (tail 0))
          (or_fault-ok dangling (index_of index all) at_j)
          (or_fault-ok dangling (get_elem? values j) has_n) number in
      let (pa', run', done) =
        parse_loop-decode rest (i + 1) (s + u32 (n * 8) / 8) (values ++ v ∷ []) out infos'
          (λ m. tail (suc m) ∙ ap (get_elem? all) (omega arith)) (omega (arith, size)) st' later in
      (pa', run ∙ run', done)
