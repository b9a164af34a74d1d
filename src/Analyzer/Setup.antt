-- ===== src/Analyzer/Setup.antt =====
-- The analyser's state, and how it is set up and taken down: finding the format of a message,
-- copying it, and the hash map from the names of the fields to their addresses.
use linux_char_driver_frame.Base.{
  ℕ, ◌+◌, ◌-◌, ◌^◌, true, false, ◌||◌, Option, none, some, List, [], ◌∷◌, ◌++◌, replicate, Run, ok,
  fault, null_pointer, uninitialised, or_fault, load, length, ◌>>=◌, u32, sub32, ◌<<<◌, ◌>>>◌,
  bit_or, bit_and, minus_one, ltb, leb, ◌==◌, if◌then◌else◌,
}
use linux_char_driver_frame.HashMap.{
  HashMap, create_pair, hash_map_create, read_bytes, make_pair, hash_map_init, hash_map_insert,
  hash_map_search, default_hash_func, default_key_cmp_func, bad_pointer,
}
use linux_char_driver_frame.HashMap.Walk.{hash_map_pos_get_pointer, hash_map_destroy}
use linux_char_driver_frame.Format.{HeadList, FormatSet, pfs_add_list, pfs_del_list_for_each}
use linux_char_driver_frame.Format.Info.{ProtoInfo}
use linux_char_driver_frame.Format.Number.{strlen}

pub record ProtocolAnalyzer : Type 0 where
  pub pfs_p : Option FormatSet
  pub protocol_data : List ℕ
  pub protocol_data_len : ℕ
  pub protocol_num : ℕ
  pub pf_list_head_p : Option HeadList
  pub pa_list_head_p : Option HeadList
  pub hmap : Option HashMap

-- The entry at an address, and the entries of the analyser's list.
unfoldable pub find_info : ℕ → List ProtoInfo → Option ProtoInfo
find_info p [] = none
find_info p (info ∷ infos) = if info.addr == p then some info else find_info p infos

unfoldable pub info_of : ℕ → List ProtoInfo → Run ProtoInfo
info_of p infos = or_fault (bad_pointer p) (find_info p infos)

unfoldable pub fields : ProtocolAnalyzer → Run (List ProtoInfo)
fields pa = or_fault null_pointer pa.pa_list_head_p >>= λ hl. ok hl.infos

unfoldable pub put_fields : ProtocolAnalyzer → List ProtoInfo → ProtocolAnalyzer
put_fields pa infos = elim pa.pa_list_head_p [
  | none ↦ pa
  | some hl ↦ record pa { pa_list_head_p = some (record hl { infos = infos }) }
]

unfoldable pub pa_check_protocol_num : ℕ → FormatSet → ℕ
pa_check_protocol_num protocol_num pfs =
    if ltb (u32 (pfs.proto_base_addr + pfs.proto_max_num)) protocol_num
      || ltb protocol_num pfs.proto_base_addr
    then minus_one
    else 0

unfoldable pub pa_find_protocol_format : ProtocolAnalyzer → Run (ProtocolAnalyzer × ℕ)
pa_find_protocol_format pa = do
  pfs ← or_fault null_pointer pa.pfs_p
  elim (leb (2 ^ 31) (pa_check_protocol_num pa.protocol_num pfs)) [
    | true ↦ ok (pa, pa_check_protocol_num pa.protocol_num pfs)
    | false ↦ do
      list_head ← or_fault null_pointer pfs.list_head_p2
      hl ← load list_head (sub32 pa.protocol_num pfs.proto_base_addr)
      ok (record pa { pf_list_head_p = hl }, elim hl [ none ↦ minus_one | some _ ↦ 0 ])
  ]

-- The loop of `pa_copy_protocol_format`, whose round `i` is given the address `alloc i`, NULL
-- included.
unfoldable pub copy_loop : (ℕ → ℕ) → ℕ → List ProtoInfo → HeadList → Run HeadList
copy_loop alloc i [] copy = ok copy
copy_loop alloc i (info ∷ infos) copy = elim (alloc i == 0) [
  | true ↦ fault null_pointer
  | false ↦ copy_loop alloc (i + 1) infos (pfs_add_list (record info { addr = alloc i }) copy)
]

-- The head of the copy, which is allocated first, stands at `alloc n` for `n` fields. What the
-- allocator returned is written through without a test.
unfoldable pub pa_copy_protocol_format : (ℕ → ℕ) → ProtocolAnalyzer → Run (ProtocolAnalyzer × ℕ)
pa_copy_protocol_format alloc pa = elim pa.pf_list_head_p [
  | none ↦ ok (pa, minus_one)
  | some hl ↦
      if alloc (length hl.infos) == 0
      then fault null_pointer
      else (copy_loop alloc 0 hl.infos (record { list_count = 0; infos = [] }) >>= λ copy.
          ok (record pa { pa_list_head_p = some copy }, 0))
]

-- The bytes of an address, the highest first, and the address of four bytes.
unfoldable pub addr_buffer : ℕ → List ℕ
addr_buffer addr =
    bit_and (addr >>> 24) 0xff
    ∷ bit_and (addr >>> 16) 0xff
    ∷ bit_and (addr >>> 8) 0xff
    ∷ bit_and (addr >>> 0) 0xff
    ∷ []

unfoldable pub read_addr : List ℕ → Run ℕ
read_addr addr_p = do
  a ← load addr_p 0
  b ← load addr_p 1
  c ← load addr_p 2
  d ← load addr_p 3
  ok (bit_or (bit_or (bit_or (u32 (a <<< 24)) (b <<< 16)) (c <<< 8)) d)

-- The loop of `pa_create_hash_table`, whose round `i` makes its node at `alloc i`. What
-- `hash_map_insert` returns is not looked at.
unfoldable pub table_loop : (ℕ → ℕ) → ℕ → List ProtoInfo → HashMap → Run HashMap
table_loop alloc i [] hmap = ok hmap
table_loop alloc i (info ∷ infos) hmap =
    make_pair 10 4 info.name (addr_buffer info.addr) >>= λ pair.
    hash_map_insert hmap pair (alloc i) >>= λ r. table_loop alloc (i + 1) infos r.0

-- How many fields there are for the loop.
unfoldable pub field_count : ProtocolAnalyzer → ℕ
field_count pa = elim pa.pa_list_head_p [ none ↦ 0 | some hl ↦ length hl.infos ]

-- The pair, the map and its table, which are allocated before the list is looked at, stand at
-- `alloc n` and behind for `n` fields. Each is written through without a test.
unfoldable pub pa_create_hash_table : (ℕ → ℕ) → ProtocolAnalyzer → Run (ProtocolAnalyzer × ℕ)
pa_create_hash_table alloc pa =
    let n = field_count pa in
    create_pair 10 4 (alloc n) >>= λ pair. hash_map_create (alloc (n + 1)) >>= λ made.
    if alloc (n + 2) == 0 then fault null_pointer else (elim pa.pa_list_head_p [
      | none ↦ ok (pa, minus_one)
      | some hl ↦
          table_loop alloc 0 hl.infos
            (hash_map_init 10 14 10 default_hash_func default_key_cmp_func)
          >>= λ hmap. ok (record pa { hmap = some hmap }, 0)
    ])

-- `key_str`, which a key of `key_size` characters or more leaves unset.
unfoldable pub key_str : ℕ → List ℕ → Run (List ℕ)
key_str key_size key = do
  n ← strlen key
  if ltb n key_size
      then (read_bytes n key >>= λ k. ok (k ++ replicate (key_size - n) 0))
      else fault uninitialised

-- The address of the field with a name, or 0.
unfoldable pub pa_find_key : List ℕ → ProtocolAnalyzer → Run ℕ
pa_find_key key pa = do
  hmap ← or_fault null_pointer pa.hmap
  k ← key_str hmap.key_size key
  map_pos ← hash_map_search hmap k
  elim (map_pos.hlist_node_p == 0) [
    | true ↦ ok 0
    | false ↦ hash_map_pos_get_pointer hmap map_pos >>= λ addr_p. read_addr addr_p
  ]

-- After `memset`.
abbrev pub blank_analyzer : ProtocolAnalyzer
blank_analyzer = record {
  pfs_p = none;
  protocol_data = replicate 100 0;
  protocol_data_len = 0;
  protocol_num = 0;
  pf_list_head_p = none;
  pa_list_head_p = none;
  hmap = none;
}

-- What the allocator returned is written through without a test.
unfoldable pub pa_create_protocol_analyzer : ℕ → Run ProtocolAnalyzer
pa_create_protocol_analyzer addr = if addr == 0 then fault null_pointer else ok blank_analyzer

-- The entries are made at `info_alloc` and the nodes of the hash map at `node_alloc`. The results
-- of the three calls are not looked at.
unfoldable pub pa_init_protocol_analyzer :
    (ℕ → ℕ) → (ℕ → ℕ) → ℕ → FormatSet → ProtocolAnalyzer → Run ProtocolAnalyzer
pa_init_protocol_analyzer info_alloc node_alloc proto_no pfp pa = do
  r ← pa_find_protocol_format (record pa { protocol_num = proto_no; pfs_p = some pfp })
  s ← pa_copy_protocol_format info_alloc r.0
  t ← pa_create_hash_table node_alloc s.0
  ok t.0

-- The loop over the hash map runs on fuel. The analyser is freed behind the call; this is what it
-- holds before.
unfoldable pub pa_destroy_protocol_analyzer : ℕ → ProtocolAnalyzer → Run ProtocolAnalyzer
pa_destroy_protocol_analyzer fuel pa = do
  hl ← or_fault null_pointer pa.pa_list_head_p
  let rest = pfs_del_list_for_each hl
  hmap ← or_fault null_pointer pa.hmap
  hmap' ← hash_map_destroy fuel hmap
  ok (record pa { pfs_p = none; pf_list_head_p = none; pa_list_head_p = none; hmap = some hmap' })
