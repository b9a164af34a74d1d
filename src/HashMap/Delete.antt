-- ===== src/HashMap/Delete.antt =====
-- `hash_map_delete` and `hash_map_destroy` on a valid map.
use native.Mathlib.Nat.{zero-add}
use linux_char_driver_frame.Base.{
  ℕ, ◌+◌, ◌<◌, ◌≡◌, ◌≢◌, refl, sym, ap, ◌∙◌, arith, List, [], ◌∷◌, ◌++◌, ok, length, length-append,
  ◌>>=◌, ◌==◌, inl, inr, true, false, ◌⊎◌, map, Returns, if◌then◌else◌,
}
use mathlib.Core.Path.{subst, ap₂}
use mathlib.Core.List.{append_assoc, map-append}
use linux_char_driver_frame.HashMap.{HashMapNode, HashMapPos, Chain, HashMap}
use linux_char_driver_frame.HashMap.Walk.{hash_map_pos_next, hash_map_delete, unlink}
use linux_char_driver_frame.HashMap.Zipper.{
  nodes, nodes-append, has, has-append, Distinct, around, unlink-split, map-unlink-has,
}
use linux_char_driver_frame.HashMap.Next.{
  IsValid, first_pos, last_bucket, apart, apart_front, next_of-node, hash_map_pos_next-first_pos,
}

-- The table without the node.
abbrev pub without : List Chain → Chain → Chain → List Chain → List Chain
without front c₁ c₂ post = front ++ (c₁ ++ c₂) ∷ post

-- The first position, where what stands before a node holds no node, and where it does.
pub first_pos-skip :
    (last i : ℕ) (front : List Chain) (cs : List Chain)
    → nodes front ≡ []
    → first_pos last i (front ++ cs) ≡ first_pos last (i + length front) cs
first_pos-skip last i [] cs h = ap (λ k. first_pos last k cs) (omega arith)
first_pos-skip last i ([] ∷ front) cs h =
    first_pos-skip last (i + 1) front cs h ∙ ap (λ k. first_pos last k cs) (omega arith)
first_pos-skip last i ((n ∷ c) ∷ front) cs h = cc

-- The nodes before one: none, or the first position is at one of them whatever follows.
before :
    (last i : ℕ) (front : List Chain) (c₁ : Chain)
    → (nodes front ++ c₁ ≡ [])
      ⊎ ((m : HashMapNode) × (has m.addr (nodes front ++ c₁) ≡ true)
          × ((d : Chain) (post : List Chain)
              → (first_pos last i (front ++ (c₁ ++ d) ∷ post)).hlist_node_p ≡ m.addr)
          × ((d d' : Chain) (post post' : List Chain)
              → first_pos last i (front ++ (c₁ ++ d) ∷ post)
                ≡ first_pos last i (front ++ (c₁ ++ d') ∷ post')))
before last i [] [] = inl refl
before last i [] (m ∷ c₁) = inr (m, ground arith, λ d post. refl, λ d d' post post'. refl)
before last i ([] ∷ front) c₁ = before last (i + 1) front c₁
before last i ((m ∷ c) ∷ front) c₁ = inr (m, ground arith, λ d post. refl, λ d d' post post'. refl)

has_apart : (p q : ℕ) (c : Chain) → has p c ≡ true → has q c ≡ false → q ≢ p
has_apart p q c h k e = cc (ap (λ (a : ℕ). has a c) e)

append-nil_left : (xs ys : Chain) → xs ++ ys ≡ [] → xs ≡ []
append-nil_left [] ys h = refl
append-nil_left (x ∷ xs) ys h = cc

append-nil_right : (xs ys : Chain) → xs ++ ys ≡ [] → ys ≡ []
append-nil_right [] ys h = h
append-nil_right (x ∷ xs) ys h = cc

module _ {hmap : HashMap} (valid : IsValid hmap) (front : List Chain) (c₁ : Chain) (n : HashMapNode)
    (c₂ : Chain) (post : List Chain) (e : hmap.hlist ≡ around front c₁ n c₂ post) where
  abbrev last : ℕ
  last = last_bucket hmap

  unlinked : map (unlink n.addr) hmap.hlist ≡ without front c₁ c₂ post
  unlinked =
      let (_, _, behind, _) = apart valid front c₁ n c₂ post e in
      let (in_front, in_chain) = apart_front valid front c₁ n c₂ post e in
      rw (e, map-append)
        (ap₂ ◌++◌ (map-unlink-has n.addr front in_front) (
          ap₂ ◌∷◌ (unlink-split c₁ n c₂ in_chain)
            (map-unlink-has n.addr post (ground (arith, has-append n.addr c₂ (nodes post))))))

  without-IsValid :
      (b : HashMapPos)
      → b.hlist_node_p ≡ (first_pos last 0 (without front c₁ c₂ post)).hlist_node_p
      → (0 < b.hlist_node_p
          → b.bucket_pos ≡ (first_pos last 0 (without front c₁ c₂ post)).bucket_pos)
      → IsValid (record hmap { hlist = without front c₁ c₂ post; begin = b })
  without-IsValid b h k = record {
    width =
        length-append front ((c₁ ++ c₂) ∷ post)
        ∙ sym (length-append front ((c₁ ++ n ∷ c₂) ∷ post))
        ∙ ap length (sym e)
        ∙ valid.width;
    small = valid.small;
    distinct = subst Distinct kept (apart valid front c₁ n c₂ post e).3;
    at_begin = h;
    begin_bucket = k;
    at_end = valid.at_end;
  }
    where
      kept : nodes front ++ c₁ ++ (c₂ ++ nodes post) ≡ nodes (without front c₁ c₂ post)
      kept = simp (nodes-append, append_assoc)

  -- What the first part of `hash_map_delete` makes of `begin`.
  record NewBegin : Type 0 where
    moved : HashMapPos
    run :
        (if n.addr == hmap.begin.hlist_node_p
          then hash_map_pos_next hmap (record { hlist_node_p = n.addr; bucket_pos = length front })
          else ok hmap.begin)
        ≡ ok moved
    is_first : moved.hlist_node_p ≡ (first_pos last 0 (without front c₁ c₂ post)).hlist_node_p
    is_bucket :
        0 < moved.hlist_node_p
        → moved.bucket_pos ≡ (first_pos last 0 (without front c₁ c₂ post)).bucket_pos

  begin_at_node : nodes front ≡ [] → c₁ ≡ [] → NewBegin
  begin_at_node no_front no_chain =
      let start : (first_pos last 0 hmap.hlist).hlist_node_p ≡ n.addr =
        rw (e, no_chain, first_pos-skip last 0 front ((n ∷ c₂) ∷ post) no_front) in
      let rest : first_pos last 0 (without front c₁ c₂ post)
          ≡ first_pos last (length front) (c₂ ∷ post) =
        rw (no_chain, first_pos-skip last 0 front (c₂ ∷ post) no_front, zero-add) in
      let same : (n.addr == hmap.begin.hlist_node_p) ≡ true =
        ground (arith, valid.at_begin, start) in
      record {
        moved = first_pos last (length front) (c₂ ∷ post);
        run = rw (same, hash_map_pos_next-first_pos valid front c₁ n c₂ post e);
        is_first = rw rest;
        is_bucket = λ _. rw rest;
      }

  begin_before :
      (m : HashMapNode)
      → has m.addr (nodes front ++ c₁) ≡ true
      → (first_pos last 0 hmap.hlist).hlist_node_p ≡ m.addr
      → first_pos last 0 hmap.hlist ≡ first_pos last 0 (without front c₁ c₂ post)
      → NewBegin
  begin_before m there start same =
      let apart' = (apart valid front c₁ n c₂ post e).1 in
      let other : (n.addr == hmap.begin.hlist_node_p) ≡ false =
        ground (
          arith,
          valid.at_begin,
          start,
          has_apart m.addr n.addr (nodes front ++ c₁) there apart',
        ) in
      record {
        moved = hmap.begin;
        run = rw other;
        is_first = valid.at_begin ∙ ap (λ (p : HashMapPos). p.hlist_node_p) same;
        is_bucket = λ h. valid.begin_bucket h ∙ ap (λ (p : HashMapPos). p.bucket_pos) same;
      }

  new_begin : NewBegin
  new_begin = elim (before last 0 front c₁) [
    | inl none ↦
        begin_at_node (append-nil_left (nodes front) c₁ none)
          (append-nil_right (nodes front) c₁ none)
    | inr (m, there, start, same) ↦
        begin_before m there (rw e (start (n ∷ c₂) post)) (rw e (same (n ∷ c₂) c₂ post post))
  ]

-- Deleting a node of a valid map returns, removes that node from its chain and nothing else, and
-- leaves a valid map.
pub hash_map_delete-IsValid :
    {hmap : HashMap} (valid : IsValid hmap) (front : List Chain) (c₁ : Chain) (n : HashMapNode)
    (c₂ : Chain) (post : List Chain)
    → hmap.hlist ≡ around front c₁ n c₂ post
    → Returns
        (hash_map_delete hmap (record { hlist_node_p = n.addr; bucket_pos = length front }))
        λ hmap'. IsValid hmap' × (hmap'.hlist ≡ without front c₁ c₂ post) × (hmap'.end ≡ hmap.end)
unfolding hash_map_delete
hash_map_delete-IsValid {hmap} valid front c₁ n c₂ post e =
    let b = new_begin valid front c₁ n c₂ post e in
    (
      record hmap { hlist = without front c₁ c₂ post; begin = b.moved },
      rw (
        b.run,
        next_of-node valid front c₁ n c₂ post e,
        ◌>>=◌,
        unlinked valid front c₁ n c₂ post e,
      ),
      (without-IsValid valid front c₁ n c₂ post e b.moved b.is_first b.is_bucket, refl, refl),
    )
