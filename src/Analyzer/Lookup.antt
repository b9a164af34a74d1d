-- ===== src/Analyzer/Lookup.antt =====
-- Finding a field by its name: the hash map against the search through the list of fields that
-- protocol_analyzer.c keeps under `#if 0`.
use linux_char_driver_frame.Base.{
  ℕ, get_elem?-replicate, ◌+◌, ◌≤◌, ◌<◌, ◌^◌, ◌≡◌, ◌≢◌, refl, sym, ap, ap₂, ◌∙◌, arith, false, List,
  [], ◌∷◌, ◌++◌, length, replicate, some, ok, fault, uninitialised, Run, ◌>>=◌, ◌==◌, if◌then◌else◌,
  inl, inr, Returns, leb,
}
use mathlib.Core.Path.{subst}
use linux_char_driver_frame.HashMap.{
  create_pair, hash_map_create, hash_map_search, search_chain, HashMapPos, Chain, HashMap,
  default_hash_func, default_key_cmp_func, hash_map_init, memcmp,
}
use linux_char_driver_frame.HashMap.Zipper.{nodes, has}
use linux_char_driver_frame.HashMap.Next.{IsValid}
use linux_char_driver_frame.HashMap.Default.{hash_map_init-IsValid, default_hash_func-bucket}
use linux_char_driver_frame.Format.{HeadList}
use linux_char_driver_frame.Format.Info.{ProtoInfo}
use linux_char_driver_frame.Format.Number.{streq}
use linux_char_driver_frame.Analyzer.Setup.{
  ProtocolAnalyzer, addr_buffer, table_loop, pa_create_hash_table, field_count, pa_find_key,
}
use linux_char_driver_frame.Analyzer.Keys.{
  key_str-long, read_bytes-all, length-pad, IsChars, pad, make_pair-pad, key_str-chars, Same,
  Different, compare_names, pad-split,
}
use linux_char_driver_frame.Analyzer.Table.{
  length-addr_buffer, named, lookup, next_table, next_begin, insert_named, next-IsValid, next_fresh,
  lookup_same, lookup_other,
}

-- The search through the list: the first field with the name, or 0.
unfoldable pub search_list : List ℕ → List ProtoInfo → Run ℕ
search_list key [] = ok 0
search_list key (info ∷ infos) =
    let rest = search_list key infos in
    streq info.name key >>= λ same. if same then ok info.addr else rest

-- A field whose name is a string of at most ten characters, at an address of 32 bits.
pub record HasName (info : ProtoInfo) : Type 0 where
  pub chars : List ℕ
  pub is_chars : IsChars chars
  pub short : length chars ≤ 10
  pub array : info.name ≡ pad 20 chars
  pub not_null : 0 < info.addr
  pub word : info.addr < 2 ^ 32

-- Every field has a name, which no field behind it has.
abbrev pub HasNames : List ProtoInfo → Type 0
HasNames [] = Unit {0}
HasNames (info ∷ infos) =
    ((h : HasName info) × (search_list (h.chars ++ 0 ∷ []) infos ≡ ok 0)) × HasNames infos

-- What is found among the fields, or else in the table.
abbrev over : Run ℕ → Run ℕ → Run ℕ
over found old = found >>= λ p. if p == 0 then old else ok p

over-ok : (p : ℕ) (old : Run ℕ) → 0 < p → over (ok p) old ≡ ok p
over-ok p old pos = ground arith

module _ (alloc : ℕ → ℕ) (alloc_pos : (i : ℕ) → 0 < alloc i)
    (alloc_apart : (i j : ℕ) → i < j → alloc i ≢ alloc j) (k : List ℕ) (is_chars : IsChars k)
    (short : length k < 10) where
  abbrev key : List ℕ
  key = k ++ 0 ∷ []

  -- The fields' names on top of those that the table has.
  abbrev above : HashMap → List ProtoInfo → Run ℕ
  above hmap infos = over (search_list key infos) (lookup hmap (pad 10 k))

  module _ (info : ProtoInfo) (infos : List ProtoInfo) (h : HasName info)
      (unique : search_list (h.chars ++ 0 ∷ []) infos ≡ ok 0) (i : ℕ) (hlist : List Chain)
      (begin : HashMapPos) (valid : IsValid (named hlist begin))
      (fresh : has (alloc i) (nodes hlist) ≡ false) where
    abbrev next : HashMap
    next =
        named (next_table hlist begin valid h.chars info.addr (alloc i) (alloc_pos i) fresh)
          (next_begin hlist begin valid h.chars info.addr (alloc i) (alloc_pos i) fresh)

    name_is : (y : List ℕ) × (info.name ≡ h.chars ++ 0 ∷ y)
    name_is = let (y, e) = pad-split 20 h.chars (omega (arith, h.short)) in (y, h.array ∙ e)

    step-Same :
        (y : List ℕ)
        → info.name ≡ h.chars ++ 0 ∷ y
        → Same 10 h.chars k (addr_buffer info.addr) y
        → above next infos ≡ above (named hlist begin) (info ∷ infos)
    unfolding search_list
    step-Same y name_y r =
        let none_behind : search_list key infos ≡ ok 0 =
          subst (λ c. search_list (c ++ 0 ∷ []) infos ≡ ok 0) r.equal unique in
        let own_key =
          subst (λ c. memcmp (pad 10 h.chars ++ addr_buffer info.addr) (pad 10 c) 10 ≡ ok 0)
            (sym r.equal) r.keys in
        let found : lookup next (pad 10 k) ≡ ok info.addr =
          subst (λ c. lookup next (pad 10 c) ≡ ok info.addr) r.equal
            (lookup_same hlist begin valid h.chars info.addr (alloc i) (alloc_pos i) fresh h.word
              own_key) in
        let here : search_list key (info ∷ infos) ≡ ok info.addr = rw (name_y, r.strings) refl in
        ap₂ over none_behind found
        ∙ sym (
            ap (λ x. over x (lookup (named hlist begin) (pad 10 k))) here
            ∙ over-ok info.addr (lookup (named hlist begin) (pad 10 k)) h.not_null)

    step-Different :
        (y : List ℕ)
        → info.name ≡ h.chars ++ 0 ∷ y
        → Different 10 h.chars k (addr_buffer info.addr) y
        → above next infos ≡ above (named hlist begin) (info ∷ infos)
    unfolding search_list
    step-Different y name_y r =
        let here : search_list key (info ∷ infos) ≡ search_list key infos =
          rw (name_y, r.strings) refl in
        ap₂ over (sym here) (
          lookup_other hlist begin valid h.chars info.addr (alloc i) (alloc_pos i) fresh k r.result
            r.keys r.unequal)

    pub step : above next infos ≡ above (named hlist begin) (info ∷ infos)
    step =
        let (y, name_y) = name_is in
        elim (compare_names 10 h.chars k (addr_buffer info.addr) y h.is_chars is_chars h.short
          short) [ inl r ↦ step-Same y name_y r | inr r ↦ step-Different y name_y r ]

  -- The loop of `pa_create_hash_table` puts the fields on top of the table that it is given.
  table_loop-above :
      (infos : List ProtoInfo) (i : ℕ) (hlist : List Chain) (begin : HashMapPos)
      → HasNames infos
      → IsValid (named hlist begin)
      → ((j : ℕ) → i ≤ j → has (alloc j) (nodes hlist) ≡ false)
      → (out : List Chain) × (first : HashMapPos) × (table_loop alloc i infos (named hlist begin)
          ≡ ok (named out first))
        × (lookup (named out first) (pad 10 k) ≡ above (named hlist begin) infos)
  unfolding table_loop search_list
  table_loop-above [] i hlist begin has_names valid fresh = (hlist, begin, refl, refl)
  table_loop-above (info ∷ infos) i hlist begin ((h, unique), has_names) valid fresh =
      let fresh_i = fresh i (omega arith) in
      let table = next_table hlist begin valid h.chars info.addr (alloc i) (alloc_pos i) fresh_i in
      let begin' = next_begin hlist begin valid h.chars info.addr (alloc i) (alloc_pos i) fresh_i in
      let (out, first, run, found) =
        table_loop-above infos (i + 1) table begin' has_names
          (next-IsValid hlist begin valid h.chars info.addr (alloc i) (alloc_pos i) fresh_i)
          (λ j after.
            next_fresh hlist begin valid h.chars info.addr (alloc i) (alloc_pos i) fresh_i (alloc j)
              (alloc_apart i j (omega arith)) (fresh j (omega arith))) in
      (
        out,
        first,
        rw
            (
              h.array,
              make_pair-pad h.chars (addr_buffer info.addr) h.short (length-addr_buffer info.addr),
            )
            (rw (insert_named hlist begin valid h.chars info.addr (alloc i) (alloc_pos i) fresh_i)
              run),
        found ∙ step info infos h unique i hlist begin valid fresh_i,
      )

abbrev no_pos : HashMapPos
no_pos = record { hlist_node_p = 0; bucket_pos = 0 }

lookup-empty : (k : List ℕ) → lookup (named (replicate 10 []) no_pos) (pad 10 k) ≡ ok 0
unfolding hash_map_search search_chain
lookup-empty k =
    let (b, in_range, hash) = default_hash_func-bucket (pad 10 k) 10 10 (omega arith) in
    let hashed = hash (pad 10 k) (read_bytes-all (pad 10 k) 10 (length-pad 10 k)) in
    let inside : leb 10 b ≡ false = ground arith in
    rw (hashed, ◌>>=◌, inside) (rw (get_elem?-replicate {A = Chain} 10 b [] in_range) refl)

over-zero : (found : Run ℕ) → over found (ok 0) ≡ found
over-zero (ok p) = ground arith
over-zero (fault e) = refl

create-eq :
    (alloc : ℕ → ℕ) (pa : ProtocolAnalyzer) (hl : HeadList) (out : List Chain) (first : HashMapPos)
    → ((i : ℕ) → 0 < alloc i)
    → pa.pa_list_head_p ≡ some hl
    → table_loop alloc 0 hl.infos (named (replicate 10 []) no_pos) ≡ ok (named out first)
    → pa_create_hash_table alloc pa ≡ ok (record pa { hmap = some (named out first) }, 0)
unfolding pa_create_hash_table field_count hash_map_init create_pair hash_map_create
create-eq alloc pa hl out first pos e run =
    let n = length hl.infos in rw e (ground (arith, pos n, pos (n + 1), pos (n + 2), run))

find-eq :
    (k : List ℕ) (pa : ProtocolAnalyzer) (out : List Chain) (first : HashMapPos)
    → IsChars k
    → length k < 10
    → pa_find_key (k ++ 0 ∷ []) (record pa { hmap = some (named out first) })
      ≡ lookup (named out first) (pad 10 k)
unfolding pa_find_key
find-eq k pa out first is_chars short = rw (key_str-chars k is_chars short) refl

-- For a list of fields with different names of at most ten characters, at addresses below 2 ^ 32
-- that are not NULL, making the hash table succeeds, and finding a name of less than ten characters
-- through it gives what the search through the list gives, which the source keeps beside it. Every
-- allocation for the table succeeds, that is the pair, the map, its table of chains and its nodes,
-- and all are at different addresses.
pub pa_find_key-search_list :
    (alloc : ℕ → ℕ) (k : List ℕ) (pa : ProtocolAnalyzer) (hl : HeadList)
    → ((i : ℕ) → 0 < alloc i)
    → ((i j : ℕ) → i < j → alloc i ≢ alloc j)
    → IsChars k
    → length k < 10
    → pa.pa_list_head_p ≡ some hl
    → HasNames hl.infos
    → Returns
        (pa_create_hash_table alloc pa)
        λ r. (r.1 ≡ 0) × (pa_find_key (k ++ 0 ∷ []) r.0 ≡ search_list (k ++ 0 ∷ []) hl.infos)
unfolding hash_map_init
pa_find_key-search_list alloc k pa hl alloc_pos alloc_apart is_chars short e has_names =
    let (out, first, run, found) =
      table_loop-above alloc alloc_pos alloc_apart k is_chars short hl.infos 0 (replicate 10 [])
        no_pos has_names
        (hash_map_init-IsValid 10 14 10 default_hash_func default_key_cmp_func (omega arith))
        (λ j after. refl) in
    (
      (record pa { hmap = some (named out first) }, 0),
      create-eq alloc pa hl out first alloc_pos e run,
      (
        refl,
        find-eq k pa out first is_chars short
            ∙ found
            ∙ ap (over (search_list (k ++ 0 ∷ []) hl.infos)) (lookup-empty k)
            ∙ over-zero (search_list (k ++ 0 ∷ []) hl.infos),
      ),
    )

-- For a list of fields with different names of at most ten characters, at addresses below 2 ^ 32
-- that are not NULL, making the hash table succeeds, and looking a name of ten characters or more
-- up in it reads the key, which is unset. Every allocation for the table succeeds, that is the
-- pair, the map, its table of chains and its nodes, and all are at different addresses.
pub pa_find_key_long :
    (alloc : ℕ → ℕ) (k : List ℕ) (pa : ProtocolAnalyzer) (hl : HeadList)
    → ((i : ℕ) → 0 < alloc i)
    → ((i j : ℕ) → i < j → alloc i ≢ alloc j)
    → IsChars k
    → 10 ≤ length k
    → pa.pa_list_head_p ≡ some hl
    → HasNames hl.infos
    → Returns
        (pa_create_hash_table alloc pa)
        λ r. (r.1 ≡ 0) × (pa_find_key (k ++ 0 ∷ []) r.0 ≡ fault uninitialised)
unfolding hash_map_init pa_find_key
pa_find_key_long alloc k pa hl alloc_pos alloc_apart is_chars long e has_names =
    let (out, first, run, found) =
      table_loop-above alloc alloc_pos alloc_apart [] tt (omega arith) hl.infos 0 (replicate 10 [])
        no_pos has_names
        (hash_map_init-IsValid 10 14 10 default_hash_func default_key_cmp_func (omega arith))
        (λ j after. refl) in
    (
      (record pa { hmap = some (named out first) }, 0),
      create-eq alloc pa hl out first alloc_pos e run,
      (refl, rw (key_str-long 10 k is_chars long) refl),
    )
