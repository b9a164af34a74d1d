-- ===== src/HashMap/Next.antt =====
-- The invariant of a hash map, and `hash_map_pos_next` on a valid map.
use linux_char_driver_frame.Base.{
  ℕ, suc, ◌+◌, ◌-◌, ◌<◌, ◌^◌, ◌≡◌, refl, sym, ap, ◌∙◌, arith, false, List, [], ◌∷◌, ◌++◌, ok, some,
  length, length-append, get_elem?, ◌>>=◌, sub32,
}
use mathlib.Core.Path.{subst}
use mathlib.Core.List.{append_assoc}
use linux_char_driver_frame.HashMap.{HashMapNode, HashMapPos, Chain, HashMap, first, next_of}
use linux_char_driver_frame.HashMap.Walk.{next_bucket, hash_map_pos_next}
use linux_char_driver_frame.HashMap.Zipper.{
  nodes, has, Distinct, Distinct-split, has-append, next_of-split, around, nodes-around,
}

-- The position of the first node of the buckets from `i` on, or the end.
abbrev pub first_pos : ℕ → ℕ → List Chain → HashMapPos
first_pos last i [] = record { hlist_node_p = 0; bucket_pos = last }
first_pos last i ([] ∷ cs) = first_pos last (i + 1) cs
first_pos last i ((n ∷ c) ∷ cs) = record { hlist_node_p = n.addr; bucket_pos = i }

abbrev pub last_bucket : HashMap → ℕ
last_bucket hmap = sub32 hmap.bucket_size 1

-- `begin` is at the first node in the order of the buckets, or at NULL if there is none. Its
-- bucket means nothing then.
pub record IsValid (hmap : HashMap) : Type 0 where
  pub width : length hmap.hlist ≡ hmap.bucket_size
  pub small : hmap.bucket_size < 2 ^ 32
  pub distinct : Distinct (nodes hmap.hlist)
  pub at_begin : hmap.begin.hlist_node_p ≡ (first_pos (last_bucket hmap) 0 hmap.hlist).hlist_node_p
  pub begin_bucket :
      0 < hmap.begin.hlist_node_p
      → hmap.begin.bucket_pos ≡ (first_pos (last_bucket hmap) 0 hmap.hlist).bucket_pos
  pub at_end : hmap.end.hlist_node_p ≡ 0

pub get_elem?-append_length {ℓ} :
    {A : Type ℓ} (xs : List A) (a : A) (ys : List A) → get_elem? (xs ++ a ∷ ys) (length xs) ≡ some a
get_elem?-append_length [] a ys = refl
get_elem?-append_length (x ∷ xs) a ys = get_elem?-append_length xs a ys

Distinct-append : (xs ys : Chain) → Distinct (xs ++ ys) → Distinct ys
Distinct-append [] ys d = d
Distinct-append (x ∷ xs) ys d = Distinct-append xs ys d.2

-- The element behind a prefix of known length.
pub get_elem?-behind {ℓ} :
    {A : Type ℓ} (xs : List A) (a : A) (ys l : List A) (i : ℕ)
    → l ≡ xs ++ a ∷ ys
    → length xs ≡ i
    → get_elem? l i ≡ some a
get_elem?-behind xs a ys l i e k = rw (e, ← k) (get_elem?-append_length xs a ys)

-- The scan over the buckets behind a node's own.
next_bucket-first_pos :
    (hmap : HashMap) (front post : List Chain) (i : ℕ)
    → hmap.hlist ≡ front ++ post
    → length front ≡ i
    → Distinct (nodes post)
    → next_bucket hmap (length post) i ≡ ok (first_pos (last_bucket hmap) i post)
unfolding next_bucket
next_bucket-first_pos hmap front [] i e k d = refl
next_bucket-first_pos hmap front ([] ∷ post) i e k d =
    rw (get_elem?-behind front [] post hmap.hlist i e k, ◌>>=◌)
      (next_bucket-first_pos hmap (front ++ [] ∷ []) post (i + 1) (rw append_assoc e)
        (omega (arith, length-append front ([] ∷ []))) d)
next_bucket-first_pos hmap front ((n ∷ c) ∷ post) i e k d =
    rw (get_elem?-behind front (n ∷ c) post hmap.hlist i e k, ◌>>=◌) (ground arith)

module _ {hmap : HashMap} (valid : IsValid hmap) (front : List Chain) (c₁ : Chain) (n : HashMapNode)
    (c₂ : Chain) (post : List Chain) (e : hmap.hlist ≡ around front c₁ n c₂ post) where
  pub apart :
      (0 < n.addr)
      × (has n.addr (nodes front ++ c₁) ≡ false)
      × (has n.addr (c₂ ++ nodes post) ≡ false)
      × Distinct (nodes front ++ c₁ ++ (c₂ ++ nodes post))
  apart =
      Distinct-split (nodes front ++ c₁) n (c₂ ++ nodes post)
        (subst Distinct (ap nodes e ∙ nodes-around front c₁ n c₂ post) valid.distinct)

  pub apart_front : (has n.addr (nodes front) ≡ false) × (has n.addr c₁ ≡ false)
  apart_front = ground (arith, apart, has-append n.addr (nodes front) c₁)

  pub buckets : length front + suc (length post) ≡ hmap.bucket_size
  buckets = sym (length-append front ((c₁ ++ n ∷ c₂) ∷ post)) ∙ ap length (sym e) ∙ valid.width

  pub next_of-node : next_of n.addr hmap.hlist ≡ some (first c₂)
  next_of-node = rw e (next_of-split front c₁ n c₂ post apart_front.0 apart_front.1)

  last_is : last_bucket hmap ≡ length front + length post
  last_is = omega (arith, buckets, valid.small)

  rest-Distinct : Distinct (c₂ ++ nodes post)
  rest-Distinct = Distinct-append (nodes front ++ c₁) (c₂ ++ nodes post) apart.3

-- The position behind a node is that of the next node in the order of the buckets.
pub hash_map_pos_next-first_pos :
    {hmap : HashMap} (valid : IsValid hmap) (front : List Chain) (c₁ : Chain) (n : HashMapNode)
    (c₂ : Chain) (post : List Chain)
    → hmap.hlist ≡ around front c₁ n c₂ post
    → hash_map_pos_next hmap (record { hlist_node_p = n.addr; bucket_pos = length front })
      ≡ ok (first_pos (last_bucket hmap) (length front) (c₂ ∷ post))
unfolding hash_map_pos_next
hash_map_pos_next-first_pos valid front c₁ n (m ∷ c₂) post e =
    rw (next_of-node valid front c₁ n (m ∷ c₂) post e)
      (ground (arith, rest-Distinct valid front c₁ n (m ∷ c₂) post e))
hash_map_pos_next-first_pos {hmap} valid front c₁ n [] [] e =
    rw (next_of-node valid front c₁ n [] [] e) (ground (arith, last_is valid front c₁ n [] [] e))
hash_map_pos_next-first_pos {hmap} valid front c₁ n [] (c ∷ post) e =
    rw (next_of-node valid front c₁ n [] (c ∷ post) e) (
      ground (
        arith,
        last_is valid front c₁ n [] (c ∷ post) e,
        buckets valid front c₁ n [] (c ∷ post) e,
        scan,
      ))
  where
    scan :
        next_bucket hmap (hmap.bucket_size - (length front + 1)) (length front + 1)
        ≡ ok (first_pos (last_bucket hmap) (length front + 1) (c ∷ post))
    scan =
        let left : hmap.bucket_size - (length front + 1) ≡ length (c ∷ post) =
          omega (arith, buckets valid front c₁ n [] (c ∷ post) e) in
        rw left (
          next_bucket-first_pos hmap (front ++ (c₁ ++ n ∷ []) ∷ []) (c ∷ post) (length front + 1)
            (rw append_assoc e) (omega (arith, length-append front ((c₁ ++ n ∷ []) ∷ [])))
            (rest-Distinct valid front c₁ n [] (c ∷ post) e))
