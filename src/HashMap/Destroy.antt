-- ===== src/HashMap/Destroy.antt =====
-- `hash_map_destroy` deletes every node of a valid map and then frees the table.
use linux_char_driver_frame.Base.{
  ℕ, zero, suc, ◌+◌, ◌<◌, ◌≡◌, refl, sym, ap, ◌∙◌, arith, List, [], ◌∷◌, length, length-append,
  ◌>>=◌, ◌==◌, Bool-cases, inl, inr, Returns,
}
use linux_char_driver_frame.HashMap.{HashMapNode, Chain, HashMap}
use linux_char_driver_frame.HashMap.Walk.{hash_map_delete, destroy_loop, hash_map_destroy}
use linux_char_driver_frame.HashMap.Zipper.{nodes, around}
use linux_char_driver_frame.HashMap.Next.{IsValid, first_pos, last_bucket}
use linux_char_driver_frame.HashMap.ForEach.{nodes-none}
use linux_char_driver_frame.HashMap.Delete.{without, hash_map_delete-IsValid}

-- The node that a first position other than the end stands at.
record FirstNode (last i : ℕ) (cs : List Chain) : Type 0 where
  front : List Chain
  node : HashMapNode
  chain : Chain
  post : List Chain
  is_table : cs ≡ around front [] node chain post
  is_pos : first_pos last i cs ≡ record { hlist_node_p = node.addr; bucket_pos = i + length front }

first_node :
    (last i : ℕ) (cs : List Chain) → 0 < (first_pos last i cs).hlist_node_p → FirstNode last i cs
first_node last i [] h = absurd (omega arith)
first_node last i ([] ∷ cs) h =
    let f = first_node last (i + 1) cs h in
    record {
      front = [] ∷ f.front;
      node = f.node;
      chain = f.chain;
      post = f.post;
      is_table = ap (λ (t : List Chain). [] ∷ t) f.is_table;
      is_pos =
          f.is_pos
          ∙ ap (λ (k : ℕ). record { hlist_node_p = f.node.addr; bucket_pos = k }) (omega arith);
    }
first_node last i ((n ∷ c) ∷ cs) h = record {
  front = [];
  node = n;
  chain = c;
  post = cs;
  is_table = refl;
  is_pos = ap (λ (k : ℕ). record { hlist_node_p = n.addr; bucket_pos = k }) (omega arith);
}

length-nodes-without :
    (front : List Chain) (n : HashMapNode) (c : Chain) (post : List Chain)
    → length (nodes (around front [] n c post)) ≡ suc (length (nodes (without front [] c post)))
length-nodes-without [] n c post = refl
length-nodes-without (d ∷ front) n c post = omega (
  arith,
  length-append d (nodes (around front [] n c post)),
  length-append d (nodes (without front [] c post)),
  length-nodes-without front n c post,
)

-- Deleting at `begin` makes progress.
destroy_step :
    {hmap : HashMap}
    → IsValid hmap
    → 0 < hmap.begin.hlist_node_p
    → Returns
        (hash_map_delete hmap hmap.begin)
        λ hmap'. IsValid hmap' × (length (nodes hmap.hlist) ≡ suc (length (nodes hmap'.hlist)))
destroy_step {hmap} valid h =
    let f = first_node (last_bucket hmap) 0 hmap.hlist (omega (arith, valid.at_begin)) in
    let here : record { hlist_node_p = f.node.addr; bucket_pos = length f.front } ≡ hmap.begin =
      ground (arith, valid.at_begin, valid.begin_bucket, f.is_pos) in
    let (out, run, (valid', table, _)) =
      hash_map_delete-IsValid valid f.front [] f.node f.chain f.post f.is_table in
    (
      out,
      ap (hash_map_delete hmap) (sym here) ∙ run,
      (
        valid',
        ap (λ (t : List Chain). length (nodes t)) f.is_table
            ∙ length-nodes-without f.front f.node f.chain f.post
            ∙ ap (λ (t : List Chain). suc (length (nodes t))) (sym table),
      ),
    )

destroy_loop-nodes :
    (fuel : ℕ) {hmap : HashMap}
    → IsValid hmap
    → length (nodes hmap.hlist) < fuel
    → Returns (destroy_loop fuel hmap) λ hmap'. IsValid hmap' × (nodes hmap'.hlist ≡ [])
unfolding destroy_loop
destroy_loop-nodes zero valid enough = absurd (omega arith)
destroy_loop-nodes (suc fuel) {hmap} valid enough =
    elim (Bool-cases (hmap.begin.hlist_node_p == hmap.end.hlist_node_p)) [
      | inl done ↦ (
        hmap,
        rw (done, destroy_loop),
        (
          valid,
          nodes-none (last_bucket hmap) 0 hmap.hlist valid.distinct
              (ground (arith, valid.at_begin, valid.at_end)),
        ),
      )
      | inr more ↦
          let (hmap', run, (valid', shorter)) = destroy_step valid (ground (arith, valid.at_end)) in
          let (out, loop, rest) = destroy_loop-nodes fuel valid' (omega arith) in
          (out, rw (more, destroy_loop) (rw (run, ◌>>=◌) loop), rest)
    ]

-- With fuel for one round more than there are nodes, the call deletes every node: it reaches the
-- state with an empty table in which the loop ends, and returns.
pub hash_map_destroy-nodes :
    (hmap : HashMap) (fuel : ℕ)
    → IsValid hmap
    → length (nodes hmap.hlist) < fuel
    → (Returns (destroy_loop fuel hmap) λ hmap'. IsValid hmap' × (nodes hmap'.hlist ≡ []))
      × (Returns (hash_map_destroy fuel hmap) λ hmap'. hmap'.hlist ≡ [])
unfolding hash_map_destroy
hash_map_destroy-nodes hmap fuel valid enough =
    let (out, run, rest) = destroy_loop-nodes fuel valid enough in
    ((out, run, rest), (record out { hlist = [] }, rw run, refl))
