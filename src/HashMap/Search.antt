-- ===== src/HashMap/Search.antt =====
-- What `hash_map_search` finds after an insertion.
use linux_char_driver_frame.Base.{
  ℕ, ◌≡◌, arith, List, ◌∷◌, ok, ◌==◌, some, ◌<◌, Returns, if◌then◌else◌, set, get_elem?, length,
  get_elem?-set_self, get_elem?-set_ne, get_elem?-eq-some,
}
use linux_char_driver_frame.HashMap.{
  HashMapNode, HashMapPos, Chain, HashMap, read_bytes, search_chain, hash_map_search,
  hash_map_insert,
}
use linux_char_driver_frame.HashMap.Next.{IsValid}
use linux_char_driver_frame.HashMap.Insert.{insert_run, new_node}

module _ (hmap : HashMap) (n : HashMapNode) (q : List ℕ) (b bq r : ℕ) (chain : Chain)
    (room : b < hmap.bucket_size) (wide : length hmap.hlist ≡ hmap.bucket_size)
    (there : get_elem? hmap.hlist b ≡ some chain)
    (hashed : hmap.hash_func q hmap.key_size hmap.bucket_size ≡ ok bq)
    (compared : hmap.key_cmp_func n.key q hmap.key_size ≡ ok r) (same_bucket : r ≡ 0 → bq ≡ b) where
  abbrev after : HashMapPos → HashMap
  after begin = record hmap { hlist = set hmap.hlist b (n ∷ chain); begin = begin }

  search_after :
      (begin : HashMapPos)
      → hash_map_search (after begin) q ≡ (
          if r == 0
          then ok (record { hlist_node_p = n.addr; bucket_pos = b })
          else hash_map_search hmap q)
  unfolding hash_map_search search_chain
  search_after begin = ground (
    arith,
    get_elem?-set_self hmap.hlist b (n ∷ chain),
    get_elem?-set_ne hmap.hlist b bq (n ∷ chain),
  )

-- A search after an insertion finds the new node if the comparison of the two keys gives 0, and
-- what it found before otherwise. Keys that compare equal are taken to hash alike.
pub hash_map_search-hash_map_insert :
    {hmap : HashMap} (data' key : List ℕ) (addr b : ℕ) (q : List ℕ) (bq r : ℕ)
    → IsValid hmap
    → 0 < addr
    → read_bytes hmap.data_size data' ≡ ok key
    → hmap.hash_func key hmap.key_size hmap.bucket_size ≡ ok b
    → b < hmap.bucket_size
    → hmap.hash_func q hmap.key_size hmap.bucket_size ≡ ok bq
    → hmap.key_cmp_func key q hmap.key_size ≡ ok r
    → (r ≡ 0 → bq ≡ b)
    → Returns (hash_map_insert hmap data' addr) λ s. hash_map_search s.0 q ≡ (
        if r == 0
        then ok (record { hlist_node_p = addr; bucket_pos = b })
        else hash_map_search hmap q)
hash_map_search-hash_map_insert {hmap} data' key addr b q bq r valid pos bytes hashed room hashed_q
      compared same =
    let (chain, there) = get_elem?-eq-some hmap.hlist b (omega (arith, valid.width)) in
    (
      _,
      insert_run hmap data' key addr b chain pos bytes hashed room there,
      search_after hmap (new_node hmap key addr) q b bq r chain room valid.width there hashed_q
          compared same _,
    )
