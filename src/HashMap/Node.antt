-- ===== src/HashMap/Node.antt =====
-- The nodes that an insertion and a search lead to.
use linux_char_driver_frame.Base.{
  ℕ, zero, suc, ◌<◌, ◌≡◌, ◌≢◌, refl, arith, true, false, some, List, [], ◌∷◌, set, get_elem?, ok,
  Run, load, Run-cases, inl, inr,
}
use linux_char_driver_frame.HashMap.{
  HashMapNode, HashMapPos, Chain, HashMap, search_chain, hash_map_search,
}
use linux_char_driver_frame.HashMap.Walk.{node_in, node_of}
use linux_char_driver_frame.HashMap.Zipper.{nodes, has, has-append, node_in-has}

-- In a table with a node more, the node is found at its address, if that is fresh.
pub node_of-set :
    (cs : List Chain) (b : ℕ) (chain : Chain) (n : HashMapNode)
    → get_elem? cs b ≡ some chain
    → has n.addr (nodes cs) ≡ false
    → node_of n.addr (set cs b (n ∷ chain)) ≡ some n
unfolding node_of node_in
node_of-set [] b chain n there fresh = cc
node_of-set (c ∷ cs) zero chain n there fresh = ground arith
node_of-set (c ∷ cs) (suc b) chain n there fresh =
    rw (node_in-has n.addr c (ground (arith, has-append n.addr c (nodes cs))), node_of)
      (node_of-set cs b chain n there (ground (arith, has-append n.addr c (nodes cs))))

-- And every other address leads where it led.
pub node_of-set_ne :
    (cs : List Chain) (b : ℕ) (chain : Chain) (n : HashMapNode) (p : ℕ)
    → get_elem? cs b ≡ some chain
    → p ≢ n.addr
    → node_of p (set cs b (n ∷ chain)) ≡ node_of p cs
unfolding node_of node_in
node_of-set_ne [] b chain n p there other = refl
node_of-set_ne (c ∷ cs) zero chain n p there other = ground arith
node_of-set_ne (c ∷ cs) (suc b) chain n p there other =
    ground (arith, node_of-set_ne cs b chain n p there other)

search_chain-has :
    (cmp : List ℕ → List ℕ → ℕ → Run ℕ) (q : List ℕ) (size : ℕ) (c : Chain) (p : ℕ)
    → search_chain cmp q size c ≡ ok p
    → 0 < p
    → has p c ≡ true
unfolding search_chain
search_chain-has cmp q size [] p h pos = ground arith
search_chain-has cmp q size (n ∷ c) p h pos = ground (arith, search_chain-has cmp q size c p)

has-get_elem? :
    (cs : List Chain) (b p : ℕ) (c : Chain)
    → get_elem? cs b ≡ some c
    → has p c ≡ true
    → has p (nodes cs) ≡ true
has-get_elem? [] b p c h there = cc
has-get_elem? (d ∷ cs) zero p c h there = ground (arith, has-append p d (nodes cs))
has-get_elem? (d ∷ cs) (suc b) p c h there =
    ground (arith, has-append p d (nodes cs), has-get_elem? cs b p c)

-- What a search finds is a node of the table.
pub hash_map_search-has :
    (hmap : HashMap) (q : List ℕ) (pos : HashMapPos)
    → hash_map_search hmap q ≡ ok pos
    → 0 < pos.hlist_node_p
    → has pos.hlist_node_p (nodes hmap.hlist) ≡ true
unfolding hash_map_search
hash_map_search-has hmap q pos h found =
    elim (Run-cases (hmap.hash_func q hmap.key_size hmap.bucket_size)) [
      | inr (e, failed) ↦ cc
      | inl (b, hashed) ↦ elim (Run-cases (load hmap.hlist b)) [
        | inr (e, failed) ↦ ground arith
        | inl (chain, loaded) ↦
            elim (Run-cases (search_chain hmap.key_cmp_func q hmap.key_size chain)) [
              | inr (e, failed) ↦ ground arith
              | inl (p, searched) ↦ ground (
                arith,
                search_chain-has hmap.key_cmp_func q hmap.key_size chain p searched,
                has-get_elem? hmap.hlist b p chain,
              )
            ]
      ]
    ]

pub has-set :
    (cs : List Chain) (b : ℕ) (chain : Chain) (n : HashMapNode) (p : ℕ)
    → get_elem? cs b ≡ some chain
    → n.addr ≢ p
    → has p (nodes cs) ≡ false
    → has p (nodes (set cs b (n ∷ chain))) ≡ false
has-set [] b chain n p there other fresh = refl
has-set (c ∷ cs) zero chain n p there other fresh = ground (
  arith,
  has-append p c (nodes cs),
  has-append p (n ∷ chain) (nodes cs),
  has-append p (n ∷ c) (nodes cs),
)
has-set (c ∷ cs) (suc b) chain n p there other fresh = ground (
  arith,
  has-append p c (nodes cs),
  has-append p c (nodes (set cs b (n ∷ chain))),
  has-set cs b chain n p there other,
)
