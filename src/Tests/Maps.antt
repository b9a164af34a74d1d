-- ===== src/Tests/Maps.antt =====
-- The hash map at concrete tables of four buckets, with keys of two bytes and values of one.
use linux_char_driver_frame.Base.{
  ℕ, ◌≡◌, refl, arith, List, [], ◌∷◌, set, get_elem?, some, Returns, ok, ◌==◌, if◌then◌else◌,
}
use linux_char_driver_frame.HashMap.{
  HashMapNode, Chain, HashMap, default_hash_func, read_bytes, default_key_cmp_func, hash_map_insert,
  hash_map_search,
}
use linux_char_driver_frame.HashMap.Walk.{
  hash_map_delete, destroy_loop, hash_map_destroy, hash_map_for_each,
}
use linux_char_driver_frame.HashMap.Zipper.{nodes}
use linux_char_driver_frame.HashMap.Next.{IsValid}
use linux_char_driver_frame.HashMap.ForEach.{hash_map_for_each-nodes}
use linux_char_driver_frame.HashMap.Delete.{without, hash_map_delete-IsValid}
use linux_char_driver_frame.HashMap.Destroy.{hash_map_destroy-nodes}
use linux_char_driver_frame.HashMap.Insert.{new_node, hash_map_insert-IsValid}
use linux_char_driver_frame.HashMap.Search.{hash_map_search-hash_map_insert}

abbrev node : ℕ → List ℕ → HashMapNode
node addr key = record { addr = addr; value_pos = 2; data_size = 3; key = key }

abbrev two : HashMap
two = record {
  bucket_size = 4;
  data_size = 3;
  key_size = 2;
  hash_func = default_hash_func;
  key_cmp_func = default_key_cmp_func;
  hlist = [] ∷ (node 200 (4 ∷ 1 ∷ 7 ∷ []) ∷ []) ∷ [] ∷ (node 100 (1 ∷ 2 ∷ 9 ∷ []) ∷ []) ∷ [];
  begin = record { hlist_node_p = 200; bucket_pos = 1 };
  end = record { hlist_node_p = 0; bucket_pos = 3 };
}

two-IsValid : IsValid two
two-IsValid = record {
  width = refl;
  small = omega arith;
  distinct = (omega arith, refl, (omega arith, refl, tt));
  at_begin = refl;
  begin_bucket = λ _. refl;
  at_end = refl;
}

hash_map_for_each-nodes_example : hash_map_for_each 3 two ≡ ok (nodes two.hlist)
hash_map_for_each-nodes_example = hash_map_for_each-nodes two 3 two-IsValid (omega arith)

hash_map_destroy-nodes_example :
    (Returns (destroy_loop 3 two) λ hmap'. IsValid hmap' × (nodes hmap'.hlist ≡ []))
    × (Returns (hash_map_destroy 3 two) λ hmap'. hmap'.hlist ≡ [])
hash_map_destroy-nodes_example = hash_map_destroy-nodes two 3 two-IsValid (omega arith)

abbrev front : List Chain
front = [] ∷ []

abbrev post : List Chain
post = [] ∷ (node 100 (1 ∷ 2 ∷ 9 ∷ []) ∷ []) ∷ []

hash_map_delete-IsValid_example :
    Returns
      (hash_map_delete two (record { hlist_node_p = 200; bucket_pos = 1 }))
      λ hmap'. IsValid hmap' × (hmap'.hlist ≡ without front [] [] post) × (hmap'.end ≡ two.end)
hash_map_delete-IsValid_example =
    hash_map_delete-IsValid two-IsValid front [] (node 200 (4 ∷ 1 ∷ 7 ∷ [])) [] post refl

bytes_example : read_bytes 3 (0 ∷ 5 ∷ 8 ∷ []) ≡ ok (0 ∷ 5 ∷ 8 ∷ [])
unfolding read_bytes
bytes_example = refl

hash_example : default_hash_func (0 ∷ 5 ∷ 8 ∷ []) 2 4 ≡ ok 1
unfolding default_hash_func
hash_example = refl

hash_map_insert-IsValid_example : Returns (hash_map_insert two (0 ∷ 5 ∷ 8 ∷ []) 300) λ r.
    (r.1 ≡ 0)
    × IsValid r.0
    × ((chain : Chain) × (get_elem? two.hlist 1 ≡ some chain)
        × (r.0.hlist ≡ set two.hlist 1 (new_node two (0 ∷ 5 ∷ 8 ∷ []) 300 ∷ chain)))
    × (r.0 ≡ record two { hlist = r.0.hlist; begin = r.0.begin })
hash_map_insert-IsValid_example =
    hash_map_insert-IsValid (0 ∷ 5 ∷ 8 ∷ []) (0 ∷ 5 ∷ 8 ∷ []) 300 1 two-IsValid (omega arith) refl
      bytes_example hash_example (omega arith)

query_hash : default_hash_func (0 ∷ 5 ∷ []) 2 4 ≡ ok 1
unfolding default_hash_func
query_hash = refl

query_equal : default_key_cmp_func (0 ∷ 5 ∷ 8 ∷ []) (0 ∷ 5 ∷ []) 2 ≡ ok 0
unfolding default_key_cmp_func
query_equal = refl

hash_map_search-hash_map_insert_example : Returns (hash_map_insert two (0 ∷ 5 ∷ 8 ∷ []) 300) λ s.
    hash_map_search s.0 (0 ∷ 5 ∷ []) ≡ (
      if 0 == 0
      then ok (record { hlist_node_p = 300; bucket_pos = 1 })
      else hash_map_search two (0 ∷ 5 ∷ []))
hash_map_search-hash_map_insert_example =
    hash_map_search-hash_map_insert (0 ∷ 5 ∷ 8 ∷ []) (0 ∷ 5 ∷ 8 ∷ []) 300 1 (0 ∷ 5 ∷ []) 1 0
      two-IsValid (omega arith) bytes_example hash_example (omega arith) query_hash query_equal
      (λ _. refl)
