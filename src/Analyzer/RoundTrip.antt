-- ===== src/Analyzer/RoundTrip.antt =====
-- `pa_generate_protocol_data` against `pa_parse_protocol_data` on formats of plain fields.
use linux_char_driver_frame.Base.{
  ℕ, ◌+◌, ◌^◌, ◌<◌, ◌≡◌, refl, sym, ap, ◌∙◌, arith, Bool, Option, some, none, List, [], ◌∷◌, ◌++◌,
  map, length, length-append, set, ok, u16,
}
use mathlib.Core.List.{append_assoc}
use mathlib.Core.Path.{subst}
use linux_char_driver_frame.Codec.{get_byte_loop}
use linux_char_driver_frame.Codec.Byte.{get_byte_loop-pa_set_protocol_byte_data}
use linux_char_driver_frame.HashMap.Next.{get_elem?-behind}
use linux_char_driver_frame.HashMap.Insert.{set-append}
use linux_char_driver_frame.Format.{HeadList}
use linux_char_driver_frame.Format.Info.{ProtoInfo}
use linux_char_driver_frame.Analyzer.Setup.{ProtocolAnalyzer, put_fields}
use linux_char_driver_frame.Analyzer.{
  flag_loop, pa_set_variable_length_flag, generate_loop, parse_loop, pa_generate_protocol_data,
  pa_parse_protocol_data,
}
use linux_char_driver_frame.Analyzer.Plain.{
  ApartAll, IsPlainFormat, Shows, parsed, get_byte_loop-SameOutside, generate_loop-step,
  parse_loop-step,
}

-- The end of the last field.
abbrev pub end_of : Option ℕ → List ProtoInfo → Option ℕ
end_of end [] = end
end_of end (info ∷ infos) = end_of (some (info.byte_pos + info.len)) infos

end_of-last :
    (end : Option ℕ) (front : List ProtoInfo) (info : ProtoInfo)
    → end_of end (front ++ info ∷ []) ≡ some (info.byte_pos + info.len)
end_of-last end [] info = refl
end_of-last end (i ∷ front) info = end_of-last (some (i.byte_pos + i.len)) front info

-- What the fields `post` leave of a message: they show their values, and what is apart from them
-- reads as before.
record IsGenerated (dp out : List ℕ) (post : List ProtoInfo) : Type 0 where
  same_length : length out ≡ length dp
  shows : Shows out post
  same : (at n : ℕ) → ApartAll at n post → get_byte_loop n 0 at out ≡ get_byte_loop n 0 at dp

generate_loop-IsGenerated :
    (post pre : List ProtoInfo) (pa : ProtocolAnalyzer) (hl : HeadList) (at : ℕ) (end : Option ℕ)
    → pa.pa_list_head_p ≡ some hl
    → hl.infos ≡ pre ++ post
    → length pre ≡ at
    → IsPlainFormat (length pa.protocol_data) post
    → (out : List ℕ) × (generate_loop (length post) at end pa
        ≡ ok (record pa { protocol_data = out }, end_of end post))
      × IsGenerated pa.protocol_data out post
unfolding generate_loop
generate_loop-IsGenerated [] pre pa hl at end e split k plain =
    (pa.protocol_data, refl, record { same_length = refl; shows = tt; same = λ at n a. refl })
generate_loop-IsGenerated (info ∷ post) pre pa hl at end e split k (p, apart, plain) =
    let (mid, wrote, (outside, read)) =
      get_byte_loop-pa_set_protocol_byte_data info.data_value info.byte_pos info.bit_pos info.len
        pa.protocol_data p.short p.inside in
    let (out, run, g) =
      generate_loop-IsGenerated post (pre ++ info ∷ []) (record pa { protocol_data = mid }) hl
        (at + 1) (some (info.byte_pos + info.len)) e (split ∙ rw append_assoc refl)
        (omega (arith, length-append pre (info ∷ [])))
        (subst (λ n. IsPlainFormat n post) (sym outside.same_length) plain) in
    let there = get_elem?-behind pre info post hl.infos at split k in
    (
      out,
      generate_loop-step pa hl info at e there p (length post) end mid wrote ∙ run,
      record {
        same_length = g.same_length ∙ outside.same_length;
        shows = (g.same info.byte_pos info.len apart ∙ read, g.shows);
        same = λ at n (a, far). g.same at n far ∙ get_byte_loop-SameOutside n outside a;
      },
    )

-- The analyser with other entries in its list.
abbrev with_infos : ProtocolAnalyzer → HeadList → List ProtoInfo → ProtocolAnalyzer
with_infos pa hl infos = record pa { pa_list_head_p = some (record hl { infos = infos }) }

put_fields-eq :
    (pa : ProtocolAnalyzer) (hl : HeadList) (infos : List ProtoInfo)
    → pa.pa_list_head_p ≡ some hl
    → put_fields pa infos ≡ with_infos pa hl infos
unfolding put_fields
put_fields-eq pa hl infos e = rw e refl

parse_loop-parsed :
    (post pre : List ProtoInfo) (pa : ProtocolAnalyzer) (hl : HeadList) (at : ℕ) (room : ℕ → Bool)
    → pa.pa_list_head_p ≡ some hl
    → hl.infos ≡ pre ++ post
    → length pre ≡ at
    → IsPlainFormat (length pa.protocol_data) post
    → Shows pa.protocol_data post
    → parse_loop room (length post) at pa ≡ ok (with_infos pa hl (pre ++ map parsed post))
unfolding parse_loop
parse_loop-parsed [] pre pa hl at room e split k plain shows =
    ap (λ (x : Option HeadList). ok (record pa { pa_list_head_p = x }))
      (e ∙ ap (λ (l : List ProtoInfo). some (record hl { infos = l })) split)
parse_loop-parsed (info ∷ post) pre pa hl at room e split k (p, apart, plain) (shown, shows) =
    let there = get_elem?-behind pre info post hl.infos at split k in
    let new = set hl.infos at (parsed info) in
    let written : new ≡ pre ++ parsed info ∷ post =
      ap (λ (t : List ProtoInfo). set t at (parsed info)) split
      ∙ ap (λ (t : ℕ). set (pre ++ info ∷ post) t (parsed info)) (sym k)
      ∙ set-append pre info post (parsed info) in
    parse_loop-step pa hl info at e there p room (length post) shown
    ∙ ap (parse_loop room (length post) (at + 1)) (put_fields-eq pa hl new e)
    ∙ parse_loop-parsed post (pre ++ parsed info ∷ []) (with_infos pa hl new)
        (record hl { infos = new }) (at + 1) room refl (written ∙ rw append_assoc refl)
        (omega (arith, length-append pre (parsed info ∷ []))) plain shows
    ∙ ap (λ (t : List ProtoInfo). ok (with_infos pa hl t)) (rw append_assoc refl)

flag_loop-fixed :
    (size : ℕ) (infos : List ProtoInfo) (pa : ProtocolAnalyzer)
    → IsPlainFormat size infos
    → flag_loop infos pa ≡ ok pa
unfolding flag_loop
flag_loop-fixed size [] pa plain = refl
flag_loop-fixed size (info ∷ infos) pa (p, apart, plain) =
    rw p.fixed (flag_loop-fixed size infos pa plain)

generate-eq :
    (pa pa' : ProtocolAnalyzer) (hl : HeadList) (end : ℕ)
    → pa.pa_list_head_p ≡ some hl
    → flag_loop hl.infos pa ≡ ok pa
    → generate_loop (length hl.infos) 0 none pa ≡ ok (pa', some end)
    → pa_generate_protocol_data pa ≡ ok (record pa' { protocol_data_len = u16 end }, 0)
unfolding pa_generate_protocol_data pa_set_variable_length_flag
generate-eq pa pa' hl end e flagged run = ground (arith, e, flagged, run)

parse-eq :
    (pa pa' : ProtocolAnalyzer) (hl : HeadList) (room : ℕ → Bool)
    → pa.pa_list_head_p ≡ some hl
    → 0 < pa.protocol_data_len
    → parse_loop room (length hl.infos) 0 pa ≡ ok pa'
    → pa_parse_protocol_data room pa ≡ ok (pa', 0)
unfolding pa_parse_protocol_data
parse-eq pa pa' hl room e long run = ground (arith, e, long, run)

-- Generating a message from byte fields at fixed places that do not meet returns 0, with the end of
-- the last field for the message's length; parsing that message returns 0 and leaves every field
-- with its own value, cut to the field's length. Nothing else of the analyser changes, but for the
-- message.
pub pa_parse_protocol_data-pa_generate_protocol_data :
    (pa : ProtocolAnalyzer) (hl : HeadList) (front : List ProtoInfo) (last : ProtoInfo)
    (room : ℕ → Bool)
    → pa.pa_list_head_p ≡ some hl
    → hl.infos ≡ front ++ last ∷ []
    → IsPlainFormat (length pa.protocol_data) hl.infos
    → 0 < last.len
    → last.byte_pos + last.len < 2 ^ 16
    → (out : List ℕ) × (pa_generate_protocol_data pa
        ≡ ok (record pa { protocol_data = out; protocol_data_len = last.byte_pos + last.len }, 0))
      × (pa_parse_protocol_data room
            (record pa { protocol_data = out; protocol_data_len = last.byte_pos + last.len })
          ≡ ok (
            record pa {
              protocol_data = out;
              protocol_data_len = last.byte_pos + last.len;
              pa_list_head_p = some (record hl { infos = map parsed hl.infos });
            },
            0,
          ))
pa_parse_protocol_data-pa_generate_protocol_data pa hl front last room e split plain some_bytes
      small =
    let (out, run, g) = generate_loop-IsGenerated hl.infos [] pa hl 0 none e refl refl plain in
    let ends : end_of none hl.infos ≡ some (last.byte_pos + last.len) =
      ap (end_of none) split ∙ end_of-last none front last in
    let width : u16 (last.byte_pos + last.len) ≡ last.byte_pos + last.len = omega arith in
    let pa' = record pa { protocol_data = out; protocol_data_len = last.byte_pos + last.len } in
    (
      out,
      generate-eq pa (record pa { protocol_data = out }) hl (last.byte_pos + last.len) e
            (flag_loop-fixed (length pa.protocol_data) hl.infos pa plain)
            (run ∙ ap (λ (x : Option ℕ). ok (record pa { protocol_data = out }, x)) ends)
          ∙ ap (λ (x : ℕ). ok (record pa { protocol_data = out; protocol_data_len = x }, 0)) width,
      parse-eq pa' (with_infos pa' hl (map parsed hl.infos)) hl room e (omega arith) (
          parse_loop-parsed hl.infos [] pa' hl 0 room e refl refl
            (subst (λ n. IsPlainFormat n hl.infos) (sym g.same_length) plain) g.shows),
    )
