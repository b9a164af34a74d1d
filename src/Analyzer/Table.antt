-- ===== src/Analyzer/Table.antt =====
-- The hash map of names with one field more.
use linux_char_driver_frame.Base.{
  ℕ, zero, suc, ◌<◌, ◌^◌, ◌≡◌, ◌≢◌, refl, sym, ◌∙◌, arith, true, false, List, [], ◌∷◌, ◌++◌, length,
  length-append, set, get_elem?, get_elem?-eq-some, some, ok, Run, Run-cases, ok-injective, ◌>>=◌,
  ◌==◌, leb, ◌||◌, if◌then◌else◌, Bool-cases, inl, inr, drop,
}
use mathlib.Core.Path.{subst}
use linux_char_driver_frame.HashMap.{
  HashMapNode, HashMapPos, Chain, HashMap, read_bytes, memcmp, default_hash_func,
  default_key_cmp_func, hash_map_insert, hash_map_search,
}
use linux_char_driver_frame.HashMap.Walk.{hash_map_pos_get_pointer}
use linux_char_driver_frame.HashMap.Zipper.{nodes, has}
use linux_char_driver_frame.HashMap.Next.{IsValid}
use linux_char_driver_frame.HashMap.Insert.{hash_map_insert-IsValid, insert_run, new_node}
use linux_char_driver_frame.HashMap.Search.{hash_map_search-hash_map_insert}
use linux_char_driver_frame.HashMap.Default.{default_hash_func-bucket}
use linux_char_driver_frame.HashMap.Node.{node_of-set, node_of-set_ne, has-set, hash_map_search-has}
use linux_char_driver_frame.Analyzer.Setup.{addr_buffer, read_addr}
use linux_char_driver_frame.Analyzer.Address.{read_addr-addr_buffer}
use linux_char_driver_frame.Analyzer.Keys.{pad, length-pad, read_bytes-pad, read_bytes-all}

-- A map of names with its table and its first position.
abbrev pub named : List Chain → HashMapPos → HashMap
named hlist begin = record {
  bucket_size = 10;
  data_size = 14;
  key_size = 10;
  hash_func = default_hash_func;
  key_cmp_func = default_key_cmp_func;
  hlist = hlist;
  begin = begin;
  end = record { hlist_node_p = 0; bucket_pos = 9 };
}

-- What `pa_find_key` does with the key that it has made.
abbrev pub lookup : HashMap → List ℕ → Run ℕ
lookup hmap k = hash_map_search hmap k >>= λ map_pos. elim (map_pos.hlist_node_p == 0) [
  | true ↦ ok 0
  | false ↦ hash_map_pos_get_pointer hmap map_pos >>= λ addr_p. read_addr addr_p
]

drop-pad : (n : ℕ) (s ys : List ℕ) → drop n (pad n s ++ ys) ≡ ys
drop-pad zero s ys = refl
drop-pad (suc n) [] ys = drop-pad n [] ys
drop-pad (suc n) (c ∷ s) ys = drop-pad n s ys

pub length-addr_buffer : (addr : ℕ) → length (addr_buffer addr) ≡ 4
unfolding addr_buffer
length-addr_buffer addr = refl

module _ (hlist : List Chain) (begin : HashMapPos) (valid : IsValid (named hlist begin))
    (s : List ℕ) (addr p : ℕ) (pos : 0 < p) (fresh : has p (nodes hlist) ≡ false) where
  abbrev pair : List ℕ
  pair = pad 10 s ++ addr_buffer addr

  abbrev bucket :
      (b : ℕ) × (b < 10)
      × ((q : List ℕ) → read_bytes 10 q ≡ ok (pad 10 s) → default_hash_func q 10 10 ≡ ok b)
  bucket = default_hash_func-bucket (pad 10 s) 10 10 (omega arith)

  abbrev b : ℕ
  b = bucket.0

  bytes : read_bytes 14 pair ≡ ok pair
  unfolding addr_buffer
  bytes =
      read_bytes-all pair 14
        (omega (arith, length-append (pad 10 s) (addr_buffer addr), length-pad 10 s))

  hashed : default_hash_func pair 10 10 ≡ ok b
  hashed = bucket.2 pair (read_bytes-pad 10 s (addr_buffer addr))

  abbrev chain_there : (chain : Chain) × (get_elem? hlist b ≡ some chain)
  chain_there = get_elem?-eq-some hlist b (omega (arith, valid.width, bucket.1))

  abbrev node : HashMapNode
  node = new_node (named hlist begin) pair p

  abbrev pub next_table : List Chain
  next_table = set hlist b (node ∷ chain_there.0)

  abbrev pub next_begin : HashMapPos
  next_begin =
      if begin.hlist_node_p == 0 || leb b begin.bucket_pos
      then record { hlist_node_p = p; bucket_pos = b }
      else begin

  pub insert_named :
      hash_map_insert (named hlist begin) pair p ≡ ok (named next_table next_begin, 0)
  insert_named =
      insert_run (named hlist begin) pair pair p b chain_there.0 pos bytes hashed bucket.1
        chain_there.1

  pub next-IsValid : IsValid (named next_table next_begin)
  next-IsValid =
      let (r, run, (done, good, table, rest)) =
        hash_map_insert-IsValid pair pair p b valid pos fresh bytes hashed bucket.1 in
      subst (λ (x : HashMap × ℕ). IsValid x.0) (ok-injective (sym run ∙ insert_named)) good

  pub next_fresh : (q : ℕ) → p ≢ q → has q (nodes hlist) ≡ false → has q (nodes next_table) ≡ false
  next_fresh q other clear = has-set hlist b chain_there.0 node q chain_there.1 other clear

  search_named :
      (t : List ℕ) (bq r : ℕ)
      → default_hash_func (pad 10 t) 10 10 ≡ ok bq
      → memcmp pair (pad 10 t) 10 ≡ ok r
      → (r ≡ 0 → bq ≡ b)
      → hash_map_search (named next_table next_begin) (pad 10 t) ≡ (
          if r == 0
          then ok (record { hlist_node_p = p; bucket_pos = b })
          else hash_map_search (named hlist begin) (pad 10 t))
  unfolding default_key_cmp_func
  search_named t bq r hashed_t compared same =
      let (after, run, found) =
        hash_map_search-hash_map_insert pair pair p b (pad 10 t) bq r valid pos bytes hashed
          bucket.1 hashed_t compared same in
      subst
        (λ (x : HashMap × ℕ). hash_map_search x.0 (pad 10 t) ≡ (
          if r == 0
          then ok (record { hlist_node_p = p; bucket_pos = b })
          else hash_map_search (named hlist begin) (pad 10 t)))
        (ok-injective (sym run ∙ insert_named)) found

  key_of_node : drop 10 pair ≡ addr_buffer addr
  key_of_node = drop-pad 10 s (addr_buffer addr)

  -- The new name leads to its field.
  pub lookup_same :
      addr < 2 ^ 32
      → memcmp pair (pad 10 s) 10 ≡ ok 0
      → lookup (named next_table next_begin) (pad 10 s) ≡ ok addr
  unfolding hash_map_pos_get_pointer
  lookup_same small compared =
      let found =
        search_named s b 0 (bucket.2 (pad 10 s) (read_bytes-all (pad 10 s) 10 (length-pad 10 s)))
          compared (λ _. refl) in
      let not_null : (p == 0) ≡ false = ground arith in
      rw (found, ◌>>=◌, not_null, node_of-set hlist b chain_there.0 node chain_there.1 fresh)
        (rw key_of_node (read_addr-addr_buffer addr small))

  -- Every other name leads where it led.
  pub lookup_other :
      (t : List ℕ) (r : ℕ)
      → memcmp pair (pad 10 t) 10 ≡ ok r
      → 0 < r
      → lookup (named next_table next_begin) (pad 10 t) ≡ lookup (named hlist begin) (pad 10 t)
  unfolding hash_map_pos_get_pointer
  lookup_other t r compared other =
      let (bq, in_range, hash) = default_hash_func-bucket (pad 10 t) 10 10 (omega arith) in
      let found =
        search_named t bq r (hash (pad 10 t) (read_bytes-all (pad 10 t) 10 (length-pad 10 t)))
          compared (λ e. absurd (omega arith)) in
      let not_same : (r == 0) ≡ false = ground arith in
      let found' : hash_map_search (named next_table next_begin) (pad 10 t)
          ≡ hash_map_search (named hlist begin) (pad 10 t) =
        found ∙ rw not_same refl in
      elim (Run-cases (hash_map_search (named hlist begin) (pad 10 t))) [
        | inr (e, failed) ↦ rw (found', failed) refl
        | inl (map_pos, old) ↦ elim (Bool-cases (map_pos.hlist_node_p == 0)) [
          | inl null ↦ rw (found', old, ◌>>=◌, null) refl
          | inr live ↦
              let lives =
                hash_map_search-has (named hlist begin) (pad 10 t) map_pos old (ground arith) in
              let apart : map_pos.hlist_node_p ≢ p = λ x. cc in
              rw
                (
                  found',
                  old,
                  ◌>>=◌,
                  live,
                  node_of-set_ne hlist b chain_there.0 node map_pos.hlist_node_p chain_there.1
                      apart,
                )
                refl
        ]
      ]
