-- ===== src/HashMap/ForEach.antt =====
-- `hash_map_for_each` calls its function with every node of a valid map, once and in order.
use linux_char_driver_frame.Base.{
  ℕ, zero, suc, ◌+◌, ◌<◌, ◌≡◌, refl, sym, ap, ◌∙◌, arith, List, [], ◌∷◌, ◌++◌, ok, length,
  length-append, ◌==◌, Bool-cases, inl, inr, false, some,
}
use mathlib.Core.List.{append_assoc}
use linux_char_driver_frame.HashMap.{HashMapPos, Chain, HashMap}
use linux_char_driver_frame.HashMap.Walk.{
  for_each_loop, hash_map_for_each, hash_map_pos_next, node_of,
}
use linux_char_driver_frame.HashMap.Zipper.{nodes, Distinct, node_of-split}
use linux_char_driver_frame.HashMap.Next.{
  IsValid, first_pos, last_bucket, apart, apart_front, hash_map_pos_next-first_pos,
}

-- From the bucket with `front` before it, with the nodes `c₁` of it done.
for_each_loop-nodes :
    {hmap : HashMap} (valid : IsValid hmap) (post front : List Chain) (c₂ c₁ : Chain) (i fuel : ℕ)
    → hmap.hlist ≡ front ++ (c₁ ++ c₂) ∷ post
    → length front ≡ i
    → length (c₂ ++ nodes post) < fuel
    → for_each_loop fuel hmap (first_pos (last_bucket hmap) i (c₂ ∷ post)) ≡ ok (c₂ ++ nodes post)
unfolding for_each_loop
for_each_loop-nodes valid post front c₂ c₁ i zero e k enough = absurd (omega arith)
for_each_loop-nodes valid [] front [] c₁ i (suc fuel) e k enough = ground (arith, valid.at_end)
for_each_loop-nodes valid (c ∷ post) front [] c₁ i (suc fuel) e k enough =
    for_each_loop-nodes valid post (front ++ (c₁ ++ []) ∷ []) c [] (i + 1) (suc fuel)
      (rw append_assoc e) (omega (arith, length-append front ((c₁ ++ []) ∷ []))) enough
for_each_loop-nodes {hmap} valid post front (n ∷ c₂) c₁ i (suc fuel) e k enough =
    let rest =
      for_each_loop-nodes valid post front c₂ (c₁ ++ n ∷ []) i fuel (rw append_assoc e) k
        (omega arith) in
    let (pos, _, _, _) = apart valid front c₁ n c₂ post e in
    let (before, here) = apart_front valid front c₁ n c₂ post e in
    let found : node_of n.addr hmap.hlist ≡ some n =
      rw e (node_of-split front c₁ n c₂ post before here) in
    let next : hash_map_pos_next hmap (record { hlist_node_p = n.addr; bucket_pos = i })
        ≡ ok (first_pos (last_bucket hmap) i (c₂ ∷ post)) =
      rw (← k) (hash_map_pos_next-first_pos valid front c₁ n c₂ post e) in
    let inside : (n.addr == hmap.end.hlist_node_p) ≡ false = ground (arith, valid.at_end) in
    rw (inside, for_each_loop) (rw (found, next, rest))

for_each_loop-end :
    (hmap : HashMap) (pos : HashMapPos) (fuel : ℕ)
    → pos.hlist_node_p ≡ hmap.end.hlist_node_p
    → for_each_loop (suc fuel) hmap pos ≡ ok []
unfolding for_each_loop
for_each_loop-end hmap pos fuel e = ground arith

pub nodes-none :
    (last i : ℕ) (cs : List Chain)
    → Distinct (nodes cs)
    → (first_pos last i cs).hlist_node_p ≡ 0
    → nodes cs ≡ []
nodes-none last i [] d h = refl
nodes-none last i ([] ∷ cs) d h = nodes-none last (i + 1) cs d h
nodes-none last i ((n ∷ c) ∷ cs) d h = absurd (omega arith)

from_start :
    {hmap : HashMap} (valid : IsValid hmap) (cs : List Chain) (fuel : ℕ)
    → hmap.hlist ≡ cs
    → length (nodes cs) < suc fuel
    → for_each_loop (suc fuel) hmap (first_pos (last_bucket hmap) 0 cs) ≡ ok (nodes cs)
from_start {hmap} valid [] fuel e enough = for_each_loop-end hmap _ fuel (sym valid.at_end)
from_start valid (c ∷ cs) fuel e enough =
    for_each_loop-nodes valid cs [] c [] 0 (suc fuel) e refl enough

-- With fuel for one round more than there are nodes, the call returns, and the function has been
-- called with all nodes of the table, bucket by bucket and each chain in its order.
pub hash_map_for_each-nodes :
    (hmap : HashMap) (fuel : ℕ)
    → IsValid hmap
    → length (nodes hmap.hlist) < fuel
    → hash_map_for_each fuel hmap ≡ ok (nodes hmap.hlist)
unfolding hash_map_for_each
hash_map_for_each-nodes hmap zero valid enough = absurd (omega arith)
hash_map_for_each-nodes hmap (suc fuel) valid enough =
    elim (Bool-cases (hmap.begin.hlist_node_p == 0)) [
      | inl empty ↦
          for_each_loop-end hmap hmap.begin fuel (ground (arith, valid.at_end))
          ∙ ap ok (
              sym (
                nodes-none (last_bucket hmap) 0 hmap.hlist valid.distinct
                  (ground (arith, valid.at_begin))))
      | inr more ↦
          let start : hmap.begin ≡ first_pos (last_bucket hmap) 0 hmap.hlist =
            ground (arith, valid.at_begin, valid.begin_bucket) in
          ap (for_each_loop (suc fuel) hmap) start ∙ from_start valid hmap.hlist fuel refl enough
    ]
