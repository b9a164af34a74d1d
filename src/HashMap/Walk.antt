-- ===== src/HashMap/Walk.antt =====
-- Positions of a hash map, and what walks over them: `hash_map_pos_next`, `hash_map_delete`,
-- `hash_map_destroy` and `hash_map_for_each` of hash_list.c.
use linux_char_driver_frame.Base.{
  ℕ, zero, suc, ◌+◌, ◌-◌, Bool, true, false, List, [], ◌∷◌, map, Run, ok, fault, Option, none, some,
  out_of_fuel, or_fault, drop, load, ◌>>=◌, sub32, ltb, ◌==◌, if◌then◌else◌,
}
use linux_char_driver_frame.HashMap.{
  HashMapNode, HashMapPos, Chain, HashMap, first, next_of, bad_pointer,
}

-- Positions are compared by their nodes alone.
abbrev pub hash_map_pos_equal : HashMapPos → HashMapPos → Bool
hash_map_pos_equal pos1 pos2 = pos1.hlist_node_p == pos2.hlist_node_p

-- The loop over the buckets from `bucket_pos` on, with the number of them that are left.
unfoldable pub next_bucket : HashMap → ℕ → ℕ → Run HashMapPos
next_bucket hmap zero bucket_pos =
    ok (record { hlist_node_p = 0; bucket_pos = sub32 hmap.bucket_size 1 })
next_bucket hmap (suc left) bucket_pos =
    let rest = next_bucket hmap left (bucket_pos + 1) in
    load hmap.hlist bucket_pos >>= λ chain.
    if first chain == 0
    then rest
    else ok (record { hlist_node_p = first chain; bucket_pos = bucket_pos })

-- The last branch logs an error and returns the position that it was given.
unfoldable pub hash_map_pos_next : HashMap → HashMapPos → Run HashMapPos
hash_map_pos_next hmap pos =
    or_fault (bad_pointer pos.hlist_node_p) (next_of pos.hlist_node_p hmap.hlist) >>= λ next.
    if next == 0
    then if ltb pos.bucket_pos (sub32 hmap.bucket_size 1)
      then next_bucket hmap (hmap.bucket_size - (pos.bucket_pos + 1)) (pos.bucket_pos + 1)
      else if pos.bucket_pos == sub32 hmap.bucket_size 1
      then ok (record { hlist_node_p = 0; bucket_pos = pos.bucket_pos })
      else ok pos
    else ok (record { hlist_node_p = next; bucket_pos = pos.bucket_pos })

-- `hlist_del` of the node at the address p: its chain without it.
unfoldable pub unlink : ℕ → Chain → Chain
unlink p [] = []
unlink p (n ∷ c) = if n.addr == p then c else n ∷ unlink p c

-- The node is unlinked and then freed. Its address is not used afterwards.
unfoldable pub hash_map_delete : HashMap → HashMapPos → Run HashMap
hash_map_delete hmap pos =
    (if hash_map_pos_equal pos hmap.begin then hash_map_pos_next hmap pos else ok hmap.begin)
    >>= λ begin.
        or_fault (bad_pointer pos.hlist_node_p) (next_of pos.hlist_node_p hmap.hlist) >>= λ _.
        ok (record hmap { hlist = map (unlink pos.hlist_node_p) hmap.hlist; begin = begin })

-- The loop of `hash_map_destroy`, on fuel.
unfoldable pub destroy_loop : ℕ → HashMap → Run HashMap
destroy_loop zero hmap = fault out_of_fuel
destroy_loop (suc fuel) hmap = elim (hash_map_pos_equal hmap.begin hmap.end) [
  | true ↦ ok hmap
  | false ↦ hash_map_delete hmap hmap.begin >>= λ hmap'. destroy_loop fuel hmap'
]

-- The loop ends at the end, so the test behind it holds and the table is freed: it is left with no
-- buckets.
unfoldable pub hash_map_destroy : ℕ → HashMap → Run HashMap
hash_map_destroy fuel hmap = destroy_loop fuel hmap >>= λ hmap'. ok (record hmap' { hlist = [] })

-- The node at an address.
unfoldable pub node_in : ℕ → Chain → Option HashMapNode
node_in p [] = none
node_in p (n ∷ c) = if n.addr == p then some n else node_in p c

unfoldable pub node_of : ℕ → List Chain → Option HashMapNode
node_of p [] = none
node_of p (c ∷ cs) = elim (node_in p c) [ some n ↦ some n | none ↦ node_of p cs ]

-- The loop of `hash_map_for_each`, on fuel: the nodes that `func` is called with, in order.
unfoldable pub for_each_loop : ℕ → HashMap → HashMapPos → Run (List HashMapNode)
for_each_loop zero hmap pos = fault out_of_fuel
for_each_loop (suc fuel) hmap pos = elim (hash_map_pos_equal pos hmap.end) [
  | true ↦ ok []
  | false ↦
      or_fault (bad_pointer pos.hlist_node_p) (node_of pos.hlist_node_p hmap.hlist) >>= λ mnode.
      hash_map_pos_next hmap pos >>= λ next.
      for_each_loop fuel hmap next >>= λ rest. ok (mnode ∷ rest)
]

unfoldable pub hash_map_for_each : ℕ → HashMap → Run (List HashMapNode)
hash_map_for_each fuel hmap = for_each_loop fuel hmap hmap.begin

-- What the result points at: the bytes of the value, as far as the node's data go.
unfoldable pub hash_map_pos_get_pointer : HashMap → HashMapPos → Run (List ℕ)
hash_map_pos_get_pointer hmap pos =
    or_fault (bad_pointer pos.hlist_node_p) (node_of pos.hlist_node_p hmap.hlist) >>= λ mnode.
    ok (drop mnode.value_pos mnode.key)
