-- ===== src/Business/MakeTask.antt =====
-- The task that a message of the number 0x3008 makes.
use linux_char_driver_frame.Base.{
  bind-ok, ℕ, suc, ◌+◌, ◌*◌, ◌/◌, ◌<◌, ◌≡◌, ◌≢◌, refl, sym, ap, ◌∙◌, ok-injective, arith, true,
  some, List, [], ◌∷◌, ◌++◌, length, get_elem?, get_elem?-eq-some, length-append, dangling, ok,
  or_fault, Returns, u8, u16, u32, bit_and, ◌==◌, if◌then◌else◌,
}
use linux_char_driver_frame.Format.Number.{streq}
use linux_char_driver_frame.Analyzer.Setup.{ProtocolAnalyzer, pa_find_key, info_of}
use linux_char_driver_frame.Analyzer.{pa_parse_protocol_data}
use linux_char_driver_frame.PdtFormat.Layout.{Layout, fixed, sized, layout_3008}
use linux_char_driver_frame.PdtFormat.Named.{chars_of, chars_of-IsChars}
use linux_char_driver_frame.PdtFormat.Names.{
  tact_info_key, slot_info_key, slc_data_key, dc_data_key,
}
use linux_char_driver_frame.TaskAdmin.{Task}
use linux_char_driver_frame.Business.{
  value_of_key, process_slot_info, process_tact_info, process_slc_data, process_dc_data, make_task,
}
use linux_char_driver_frame.Business.Init.{IsReady}
use linux_char_driver_frame.Business.Decode.{index_of, read_number, decode}
use linux_char_driver_frame.Business.Meaning.{HasValue, parse_run, Parsed-HasValue}

one_more :
    (n k : ℕ) (values : List ℕ) (v : ℕ)
    → n ≡ length (values ++ v ∷ []) + k
    → n ≡ length values + suc k
one_more n k values v h = omega (arith, h, length-append values (v ∷ []))

-- A decoded message has a value for each field.
length-decode :
    (dp : List ℕ) (all layouts : List Layout) (s : ℕ) (values out : List ℕ)
    → decode dp all layouts s values ≡ ok out
    → length out ≡ length values + length layouts
unfolding decode
length-decode dp all [] s values out run = ap length (sym (ok-injective run)) ∙ omega arith
length-decode dp all (fixed name byte_pos len ∷ layouts) s values out run =
    let (v, number, later) = bind-ok (read_number dp len (u8 (byte_pos + s))) _ run in
    one_more _ _ values v (length-decode dp all layouts s (values ++ v ∷ []) out later)
length-decode dp all (sized name byte_pos index ∷ layouts) s values out run =
    let (j, at_j, more) = bind-ok (or_fault dangling (index_of index all)) _ run in
    let (n, has_n, more') = bind-ok (or_fault dangling (get_elem? values j)) _ more in
    let (v, number, later) = bind-ok (read_number dp (u16 n) (u8 (byte_pos + s))) _ more' in
    one_more _ _ values v
      (length-decode dp all layouts (s + u32 (n * 8) / 8) (values ++ v ∷ []) out later)

-- The task of a message with these values.
abbrev pub task_of : ℕ → ℕ → Task → Task
task_of slot tact local_task = record local_task {
  slot_num = u16 slot;
  tact_info = u16 tact;
  slot_type = if bit_and (u16 slot) 0x1000 == 0 then 1 else 0;
  type = 0;
}

value_of_key-HasValue :
    (key : List ℕ) (v : ℕ) (pa : ProtocolAnalyzer) → HasValue key v pa → value_of_key key pa ≡ ok v
unfolding value_of_key info_of
value_of_key-HasValue key v pa h =
    ground (arith, h.not_null, h.finds, h.has_fields, h.there, h.holds)

make_task-task_of :
    (slot tact slc dc : ℕ) (pa : ProtocolAnalyzer) (local_task : Task)
    → HasValue slot_info_key slot pa
    → HasValue tact_info_key tact pa
    → HasValue slc_data_key slc pa
    → HasValue dc_data_key dc pa
    → make_task pa local_task ≡ ok (task_of slot tact local_task)
unfolding make_task process_slot_info process_tact_info process_slc_data process_dc_data
make_task-task_of slot tact slc dc pa local_task a b c d =
    rw
      (
        value_of_key-HasValue slot_info_key slot pa a,
        value_of_key-HasValue tact_info_key tact pa b,
        value_of_key-HasValue slc_data_key slc pa c,
        value_of_key-HasValue dc_data_key dc pa d,
      )
      refl

-- The parts of an analyser that finding a field uses are not its message.
pub with_message :
    {alloc : ℕ → ℕ} {layouts : List Layout} {pa : ProtocolAnalyzer} (dp : List ℕ) (len : ℕ)
    → IsReady alloc layouts pa
    → IsReady alloc layouts (record pa { protocol_data = dp; protocol_data_len = len })
unfolding pa_find_key
with_message dp len ready = record { has_fields = ready.has_fields; finds = ready.finds }

-- A message of the number 0x3008 that has a decoding makes its task.
pub parse_task :
    {alloc : ℕ → ℕ} {pa : ProtocolAnalyzer} (local_task : Task) (out : List ℕ) (slot tact : ℕ)
    → ((i : ℕ) → 0 < alloc i)
    → ((i m : ℕ) → i < m → m < 11 → alloc i ≢ alloc m)
    → IsReady alloc layout_3008 pa
    → decode pa.protocol_data layout_3008 layout_3008 0 [] ≡ ok out
    → 0 < pa.protocol_data_len
    → get_elem? out 2 ≡ some slot
    → get_elem? out 4 ≡ some tact
    → Returns
        (pa_parse_protocol_data (λ _. true) pa)
        λ r. make_task r.0 local_task ≡ ok (task_of slot tact local_task)
unfolding streq
parse_task {alloc} {pa} local_task out slot tact pos apart ready decoded some_len has_slot
      has_tact =
    let (r, run, (good, done)) =
      parse_run alloc layout_3008 pa pos apart refl ready out decoded some_len in
    let value =
      Parsed-HasValue alloc layout_3008 pa pos apart refl ready out decoded some_len r.0 in
    let width = length-decode pa.protocol_data layout_3008 layout_3008 0 [] out decoded in
    let (slc, has_slc) = get_elem?-eq-some out 6 (omega (arith, width)) in
    let (dc, has_dc) = get_elem?-eq-some out 10 (omega (arith, width)) in
    (
      r,
      run,
      make_task-task_of slot tact slc dc r.0 local_task
          (value (chars_of slot_info_key) 2 slot done (chars_of-IsChars slot_info_key) (omega arith)
            refl has_slot)
          (value (chars_of tact_info_key) 4 tact done (chars_of-IsChars tact_info_key) (omega arith)
            refl has_tact)
          (value (chars_of slc_data_key) 6 slc done (chars_of-IsChars slc_data_key) (omega arith)
            refl has_slc)
          (value (chars_of dc_data_key) 10 dc done (chars_of-IsChars dc_data_key) (omega arith) refl
            has_dc),
    )
