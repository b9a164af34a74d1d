-- ===== src/HashMap/Zipper.antt =====
-- A table of chains around one of its nodes, and what the links of that node lead to.
use linux_char_driver_frame.Base.{
  ℕ, ◌<◌, ◌≡◌, refl, arith, Bool, false, ◌||◌, List, [], ◌∷◌, ◌++◌, map, none, some, ◌==◌,
}
use mathlib.Core.Path.{ap₂}
use mathlib.Core.List.{append_assoc}
use linux_char_driver_frame.HashMap.{HashMapNode, Chain, first, next_in, next_of}
use linux_char_driver_frame.HashMap.Walk.{unlink, node_in, node_of}

-- All nodes, in the order of the buckets and of the links.
abbrev pub nodes : List Chain → Chain
nodes [] = []
nodes (c ∷ cs) = c ++ nodes cs

-- Whether a node lives at an address.
abbrev pub has : ℕ → Chain → Bool
has p [] = false
has p (n ∷ c) = (n.addr == p) || has p c

-- Every node has an address of its own, which is not NULL.
abbrev pub Distinct : Chain → Type 0
Distinct [] = Unit {0}
Distinct (n ∷ c) = (0 < n.addr) × (has n.addr c ≡ false) × Distinct c

pub has-append : (p : ℕ) (c d : Chain) → has p (c ++ d) ≡ (has p c || has p d)
has-append p [] d = refl
has-append p (n ∷ c) d = ground (arith, has-append p c d)

-- The links of the node `n` between the nodes `c₁` and `c₂` of one chain.
next_in-has : (p : ℕ) (c : Chain) → has p c ≡ false → next_in p c ≡ none
unfolding next_in
next_in-has p [] h = refl
next_in-has p (n ∷ c) h = ground (arith, next_in-has p c)

pub next_in-split :
    (c₁ : Chain) (n : HashMapNode) (c₂ : Chain)
    → has n.addr c₁ ≡ false
    → next_in n.addr (c₁ ++ n ∷ c₂) ≡ some (first c₂)
unfolding next_in
next_in-split [] n c₂ h = ground arith
next_in-split (m ∷ c₁) n c₂ h = ground (arith, next_in-split c₁ n c₂)

pub next_of-split :
    (pre : List Chain) (c₁ : Chain) (n : HashMapNode) (c₂ : Chain) (post : List Chain)
    → has n.addr (nodes pre) ≡ false
    → has n.addr c₁ ≡ false
    → next_of n.addr (pre ++ (c₁ ++ n ∷ c₂) ∷ post) ≡ some (first c₂)
unfolding next_of
next_of-split [] c₁ n c₂ post h k = rw (next_in-split c₁ n c₂ k, next_of)
next_of-split (c ∷ pre) c₁ n c₂ post h k =
    rw (next_in-has n.addr c (ground (arith, has-append n.addr c (nodes pre))), next_of)
      (next_of-split pre c₁ n c₂ post (ground (arith, has-append n.addr c (nodes pre))) k)

pub node_in-has : (p : ℕ) (c : Chain) → has p c ≡ false → node_in p c ≡ none
unfolding node_in
node_in-has p [] h = refl
node_in-has p (n ∷ c) h = ground (arith, node_in-has p c)

node_in-split :
    (c₁ : Chain) (n : HashMapNode) (c₂ : Chain)
    → has n.addr c₁ ≡ false
    → node_in n.addr (c₁ ++ n ∷ c₂) ≡ some n
unfolding node_in
node_in-split [] n c₂ h = ground arith
node_in-split (m ∷ c₁) n c₂ h = ground (arith, node_in-split c₁ n c₂)

pub node_of-split :
    (pre : List Chain) (c₁ : Chain) (n : HashMapNode) (c₂ : Chain) (post : List Chain)
    → has n.addr (nodes pre) ≡ false
    → has n.addr c₁ ≡ false
    → node_of n.addr (pre ++ (c₁ ++ n ∷ c₂) ∷ post) ≡ some n
unfolding node_of
node_of-split [] c₁ n c₂ post h k = rw (node_in-split c₁ n c₂ k, node_of)
node_of-split (c ∷ pre) c₁ n c₂ post h k =
    rw (node_in-has n.addr c (ground (arith, has-append n.addr c (nodes pre))), node_of)
      (node_of-split pre c₁ n c₂ post (ground (arith, has-append n.addr c (nodes pre))) k)

unlink-has : (p : ℕ) (c : Chain) → has p c ≡ false → unlink p c ≡ c
unfolding unlink
unlink-has p [] h = refl
unlink-has p (n ∷ c) h = ground (arith, unlink-has p c)

pub unlink-split :
    (c₁ : Chain) (n : HashMapNode) (c₂ : Chain)
    → has n.addr c₁ ≡ false
    → unlink n.addr (c₁ ++ n ∷ c₂) ≡ c₁ ++ c₂
unfolding unlink
unlink-split [] n c₂ h = ground arith
unlink-split (m ∷ c₁) n c₂ h = ground (arith, unlink-split c₁ n c₂)

pub map-unlink-has : (p : ℕ) (cs : List Chain) → has p (nodes cs) ≡ false → map (unlink p) cs ≡ cs
map-unlink-has p [] h = refl
map-unlink-has p (c ∷ cs) h =
    ap₂ ◌∷◌ (unlink-has p c (ground (arith, has-append p c (nodes cs))))
      (map-unlink-has p cs (ground (arith, has-append p c (nodes cs))))

pub nodes-append : (cs ds : List Chain) → nodes (cs ++ ds) ≡ nodes cs ++ nodes ds
nodes-append [] ds = refl
nodes-append (c ∷ cs) ds = rw (nodes-append cs ds, append_assoc)

-- A node apart from those before it and behind it.
pub Distinct-split :
    (xs : Chain) (n : HashMapNode) (ys : Chain)
    → Distinct (xs ++ n ∷ ys)
    → (0 < n.addr) × (has n.addr xs ≡ false) × (has n.addr ys ≡ false) × Distinct (xs ++ ys)
Distinct-split [] n ys d = (d.0, refl, d.1, d.2)
Distinct-split (x ∷ xs) n ys d =
    let (pos, before, behind, rest) = Distinct-split xs n ys d.2 in
    (
      pos,
      ground (arith, has-append x.addr xs (n ∷ ys)),
      behind,
      (d.0, ground (arith, has-append x.addr xs (n ∷ ys), has-append x.addr xs ys), rest),
    )

-- A table around the node `n` of the bucket with `front` before it.
abbrev pub around : List Chain → Chain → HashMapNode → Chain → List Chain → List Chain
around front c₁ n c₂ post = front ++ (c₁ ++ n ∷ c₂) ∷ post

pub nodes-around :
    (front : List Chain) (c₁ : Chain) (n : HashMapNode) (c₂ : Chain) (post : List Chain)
    → nodes (around front c₁ n c₂ post) ≡ (nodes front ++ c₁) ++ n ∷ (c₂ ++ nodes post)
nodes-around front c₁ n c₂ post = simp (nodes-append, append_assoc)
