-- ===== src/HashMap/Insert.antt =====
-- `hash_map_insert` on a valid map.
use linux_char_driver_frame.Base.{
  Bool-cases, bind-ok, ok-injective, ℕ, zero, suc, ◌+◌, ◌≤◌, ◌<◌, ◌≡◌, refl, sym, ap, ◌∙◌, arith,
  List, [], ◌∷◌, ◌++◌, ok, length, length-append, ◌==◌, inl, inr, false, some, ◌⊎◌, Returns,
  if◌then◌else◌, ◌||◌, set, get_elem?, u8, leb, minus_one,
}
use mathlib.Core.Path.{subst}
use native.Mathlib.Nat.{zero-add}
use linux_char_driver_frame.HashMap.{
  HashMapNode, HashMapPos, Chain, HashMap, hash_map_insert, read_bytes,
}
use linux_char_driver_frame.HashMap.Zipper.{nodes, nodes-append, has, has-append, Distinct}
use linux_char_driver_frame.HashMap.Next.{IsValid, first_pos, last_bucket, get_elem?-behind}
use linux_char_driver_frame.HashMap.Delete.{first_pos-skip}

-- The table around one bucket.
pub split_at {ℓ} :
    {A : Type ℓ} (xs : List A) (i : ℕ)
    → i < length xs
    → (front : List A) × (a : A) × (post : List A) × (xs ≡ front ++ a ∷ post) × (length front ≡ i)
split_at [] i h = elim h [ ]
split_at (x ∷ xs) zero h = ([], x, xs, refl, refl)
split_at (x ∷ xs) (suc i) h =
    let (front, a, post, e, k) = split_at xs i (omega arith) in
    (x ∷ front, a, post, ap (λ t. x ∷ t) e, ap suc k)

pub set-append {ℓ} :
    {A : Type ℓ} (front : List A) (a : A) (post : List A) (v : A)
    → set (front ++ a ∷ post) (length front) v ≡ front ++ v ∷ post
set-append [] a post v = refl
set-append (x ∷ front) a post v = ap (λ t. x ∷ t) (set-append front a post v)

Distinct-insert :
    (xs ys : Chain) (n : HashMapNode)
    → 0 < n.addr
    → has n.addr (xs ++ ys) ≡ false
    → Distinct (xs ++ ys)
    → Distinct (xs ++ n ∷ ys)
Distinct-insert [] ys n pos out d = (pos, out, d)
Distinct-insert (x ∷ xs) ys n pos out d = (
  d.0,
  ground (arith, has-append x.addr xs (n ∷ ys), has-append x.addr xs ys),
  Distinct-insert xs ys n pos (ground arith) d.2,
)

-- What stands before a bucket holds no node, or the first position is there whatever follows.
front_cases :
    (last i : ℕ) (front : List Chain)
    → Distinct (nodes front)
    → (nodes front ≡ [])
      ⊎ ((p : HashMapPos) × ((cs : List Chain) → first_pos last i (front ++ cs) ≡ p)
          × (p.bucket_pos < i + length front)
          × (0 < p.hlist_node_p))
front_cases last i [] d = inl refl
front_cases last i ([] ∷ front) d = elim (front_cases last (i + 1) front d) [
  | inl none ↦ inl none
  | inr (p, is_first, low, pos) ↦ inr (p, is_first, omega arith, pos)
]
front_cases last i ((m ∷ c) ∷ front) d =
    inr (record { hlist_node_p = m.addr; bucket_pos = i }, λ cs. refl, omega arith, d.0)

Distinct-left : (xs ys : Chain) → Distinct (xs ++ ys) → Distinct xs
Distinct-left [] ys d = tt
Distinct-left (x ∷ xs) ys d =
    (d.0, ground (arith, has-append x.addr xs ys), Distinct-left xs ys d.2)

first_pos-low :
    (last i : ℕ) (cs : List Chain)
    → 0 < (first_pos last i cs).hlist_node_p
    → i ≤ (first_pos last i cs).bucket_pos
first_pos-low last i [] h = absurd (omega arith)
first_pos-low last i ([] ∷ cs) h = omega (arith, first_pos-low last (i + 1) cs h)
first_pos-low last i ((m ∷ c) ∷ cs) h = omega arith

module _ {hmap : HashMap} (valid : IsValid hmap) (n : HashMapNode) (pos : 0 < n.addr)
    (fresh : has n.addr (nodes hmap.hlist) ≡ false) (front : List Chain) (c : Chain)
    (post : List Chain) (e : hmap.hlist ≡ front ++ c ∷ post) where
  abbrev new_begin : HashMapPos
  new_begin =
      if hmap.begin.hlist_node_p == 0 || leb (length front) hmap.begin.bucket_pos
      then record { hlist_node_p = n.addr; bucket_pos = length front }
      else hmap.begin

  nodes-table : nodes hmap.hlist ≡ nodes front ++ (c ++ nodes post)
  nodes-table = ap nodes e ∙ nodes-append front (c ∷ post)

  new-Distinct : Distinct (nodes (front ++ (n ∷ c) ∷ post))
  new-Distinct = subst Distinct (sym (nodes-append front ((n ∷ c) ∷ post))) (
      Distinct-insert (nodes front) (c ++ nodes post) n pos
        (ap (has n.addr) (sym nodes-table) ∙ fresh) (subst Distinct nodes-table valid.distinct))

  new_first : new_begin ≡ first_pos (last_bucket hmap) 0 (front ++ (n ∷ c) ∷ post)
  new_first =
      elim (front_cases (last_bucket hmap) 0 front (
        Distinct-left (nodes front) (c ++ nodes post)
          (subst Distinct nodes-table valid.distinct))) [
            | inl none ↦
                let old : first_pos (last_bucket hmap) 0 hmap.hlist
                    ≡ first_pos (last_bucket hmap) (length front) (c ∷ post) =
                  rw (e, first_pos-skip (last_bucket hmap) 0 front (c ∷ post) none, zero-add) in
                let new : first_pos (last_bucket hmap) 0 (front ++ (n ∷ c) ∷ post)
                    ≡ record { hlist_node_p = n.addr; bucket_pos = length front } =
                  rw (first_pos-skip (last_bucket hmap) 0 front ((n ∷ c) ∷ post) none, zero-add) in
                ground (
                  arith,
                  new,
                  old,
                  valid.at_begin,
                  valid.begin_bucket,
                  first_pos-low (last_bucket hmap) (length front) (c ∷ post),
                )
            | inr (p, is_first, low, there) ↦
                let old : first_pos (last_bucket hmap) 0 hmap.hlist ≡ p =
                  rw (e, is_first (c ∷ post)) in
                ground (arith, is_first ((n ∷ c) ∷ post), old, valid.at_begin, valid.begin_bucket)
          ]

  pub new-IsValid : IsValid (record hmap { hlist = front ++ (n ∷ c) ∷ post; begin = new_begin })
  new-IsValid = record {
    width =
        length-append front ((n ∷ c) ∷ post)
        ∙ sym (length-append front (c ∷ post))
        ∙ ap length (sym e)
        ∙ valid.width;
    small = valid.small;
    distinct = new-Distinct;
    at_begin = ap (λ (p : HashMapPos). p.hlist_node_p) new_first;
    begin_bucket = λ _. ap (λ (p : HashMapPos). p.bucket_pos) new_first;
    at_end = valid.at_end;
  }

-- The node that an insertion makes.
abbrev pub new_node : HashMap → List ℕ → ℕ → HashMapNode
new_node hmap key addr = record {
  addr = addr;
  value_pos = u8 hmap.key_size;
  data_size = hmap.data_size;
  key = key;
}

pub insert_run :
    (hmap : HashMap) (data' key : List ℕ) (addr b : ℕ) (chain : Chain)
    → 0 < addr
    → read_bytes hmap.data_size data' ≡ ok key
    → hmap.hash_func key hmap.key_size hmap.bucket_size ≡ ok b
    → b < hmap.bucket_size
    → get_elem? hmap.hlist b ≡ some chain
    → hash_map_insert hmap data' addr
      ≡ ok (
        record hmap {
          hlist = set hmap.hlist b (new_node hmap key addr ∷ chain);
          begin =
              if hmap.begin.hlist_node_p == 0 || leb b hmap.begin.bucket_pos
              then record { hlist_node_p = addr; bucket_pos = b }
              else hmap.begin;
        },
        0,
      )
unfolding hash_map_insert
insert_run hmap data' key addr b chain pos bytes hashed inside there = ground arith

-- Inserting at a fresh address into a valid map returns 0 with a valid map, in which the new node
-- is the first of the bucket that its key hashes to; nothing else has changed in the table, and of
-- the map only the table and begin. The data has all its bytes, and the key hashes to a bucket of
-- the map.
pub hash_map_insert-IsValid :
    {hmap : HashMap} (data' key : List ℕ) (addr b : ℕ)
    → IsValid hmap
    → 0 < addr
    → has addr (nodes hmap.hlist) ≡ false
    → read_bytes hmap.data_size data' ≡ ok key
    → hmap.hash_func key hmap.key_size hmap.bucket_size ≡ ok b
    → b < hmap.bucket_size
    → Returns (hash_map_insert hmap data' addr) λ r.
      (r.1 ≡ 0)
      × IsValid r.0
      × ((chain : Chain) × (get_elem? hmap.hlist b ≡ some chain)
          × (r.0.hlist ≡ set hmap.hlist b (new_node hmap key addr ∷ chain)))
      × (r.0 ≡ record hmap { hlist = r.0.hlist; begin = r.0.begin })
hash_map_insert-IsValid {hmap} data' key addr b valid pos fresh bytes hashed inside =
    let (front, c, post, e, k) = split_at hmap.hlist b (omega (arith, valid.width)) in
    let n = new_node hmap key addr in
    let there : get_elem? hmap.hlist b ≡ some c = get_elem?-behind front c post hmap.hlist b e k in
    let written : set hmap.hlist (length front) (n ∷ c) ≡ front ++ (n ∷ c) ∷ post =
      ap (λ (t : List Chain). set t (length front) (n ∷ c)) e ∙ set-append front c post (n ∷ c) in
    let begin = new_begin valid n pos fresh front c post e in
    (
      (record hmap { hlist = front ++ (n ∷ c) ∷ post; begin = begin }, 0),
      insert_run hmap data' key addr (length front) c pos bytes (hashed ∙ ap ok (sym k))
            (rw k inside) (rw k there)
          ∙ ap (λ t. ok (record hmap { hlist = t; begin = begin }, 0)) written,
      (
        refl,
        new-IsValid valid n pos fresh front c post e,
        (c, there, sym written ∙ ap (λ (t : ℕ). set hmap.hlist t (n ∷ c)) k),
        refl,
      ),
    )

-- Without memory, or with a hash beyond the table, the insertion returns -1 and changes nothing.
hash_map_insert_refused :
    (hmap : HashMap) (data' key : List ℕ) (addr b : ℕ)
    → read_bytes hmap.data_size data' ≡ ok key
    → hmap.hash_func key hmap.key_size hmap.bucket_size ≡ ok b
    → (addr ≡ 0) ⊎ (hmap.bucket_size ≤ b)
    → hash_map_insert hmap data' addr ≡ ok (hmap, minus_one)
unfolding hash_map_insert
hash_map_insert_refused hmap data' key addr b bytes hashed bad = ground arith

-- Any insertion that returns keeps the map valid.
pub hash_map_insert-ok :
    {hmap : HashMap} {r : HashMap × ℕ} (data' : List ℕ) (addr : ℕ)
    → IsValid hmap
    → has addr (nodes hmap.hlist) ≡ false
    → hash_map_insert hmap data' addr ≡ ok r
    → IsValid r.0
unfolding hash_map_insert
hash_map_insert-ok {hmap} {r} data' addr valid fresh run = elim (Bool-cases (addr == 0)) [
  | inl null ↦
      let is : (hmap, minus_one) ≡ r = ok-injective (ground (arith, null, run)) in
      subst (λ (x : HashMap × ℕ). IsValid x.0) is valid
  | inr some_addr ↦
      let (key, bytes, run₁) =
        bind-ok (read_bytes hmap.data_size data') _ (rw (some_addr, hash_map_insert) at run) in
      let (b, hashed, run₂) = bind-ok (hmap.hash_func key hmap.key_size hmap.bucket_size) _ run₁ in
      elim (Bool-cases (leb hmap.bucket_size b)) [
        | inl out ↦
            let is : (hmap, minus_one) ≡ r = ok-injective (
              sym (hash_map_insert_refused hmap data' key addr b bytes hashed (inr (ground arith)))
              ∙ run) in
            subst (λ (x : HashMap × ℕ). IsValid x.0) is valid
        | inr inside ↦
            let (r', run', (good, valid', table, rest)) =
              hash_map_insert-IsValid data' key addr b valid (ground arith) fresh bytes hashed
                (ground arith) in
            subst (λ (x : HashMap × ℕ). IsValid x.0) (ok-injective (sym run' ∙ run)) valid'
      ]
]
