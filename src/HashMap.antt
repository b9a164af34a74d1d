-- ===== src/HashMap.antt =====
-- The chained hash map of driver/libdata_structure/hash_map/hash_list.c with the structures of
-- driver/include/libdata_structure/hash_list_struct.h and the inline functions of hash_list.h.
--
-- A chain of `hlist_node`s is the list of its nodes in the order of the links, and a pointer to a
-- node is the node's address, 0 for NULL. The fields `hlist` and `hmap` of a position point back
-- to the map that it belongs to and are left out. The locks are the empty functions of
-- driver/libcre/sync_lock/sync_lock.c. Allocation is outside the map: `hash_map_insert` is given
-- the address that the allocator returned.
pub mod Walk
pub mod Zipper
pub mod Next
pub mod ForEach
pub mod Delete
pub mod Destroy
pub mod Insert
pub mod Search
pub mod Node
pub mod Default
use linux_char_driver_frame.Base.{
  ℕ, zero, suc, ◌+◌, ◌-◌, ◌%◌, ◌^◌, Bool, true, false, ◌||◌, Option, none, some, List, [], ◌∷◌,
  ◌++◌, length, take, replicate, set, Run, ok, fault, out_of_bounds, out_of_fuel, null_pointer,
  dangling, division_by_zero, Fault, or_fault, load, ◌>>=◌, u8, u32, sub32, minus_one, ltb, leb,
  ◌==◌, if◌then◌else◌,
}

-- `key` holds the `data_size` bytes that were inserted, the key first and the value behind it.
pub record HashMapNode : Type 0 where
  pub addr : ℕ
  pub value_pos : ℕ
  pub data_size : ℕ
  pub key : List ℕ

pub record HashMapPos : Type 0 where
  pub hlist_node_p : ℕ
  pub bucket_pos : ℕ

abbrev pub Chain : Type 0
Chain = List HashMapNode

pub record HashMap : Type 0 where
  pub bucket_size : ℕ
  pub data_size : ℕ
  pub key_size : ℕ
  pub hash_func : List ℕ → ℕ → ℕ → Run ℕ
  pub key_cmp_func : List ℕ → List ℕ → ℕ → Run ℕ
  pub hlist : List Chain
  pub begin : HashMapPos
  pub end : HashMapPos

-- The first `n` bytes at a pointer.
unfoldable pub read_bytes : ℕ → List ℕ → Run (List ℕ)
read_bytes zero p = ok []
read_bytes (suc n) [] = fault out_of_bounds
read_bytes (suc n) (b ∷ p) = read_bytes n p >>= λ bs. ok (b ∷ bs)

pub record Pair : Type 0 where
  pub addr : ℕ
  pub key_len : ℕ
  pub value_len : ℕ

-- The pair at the address that the allocator returned, which is written through without a test.
unfoldable pub create_pair : ℕ → ℕ → ℕ → Run Pair
create_pair key_len value_len p =
    if p == 0
    then fault null_pointer
    else ok (record { addr = p; key_len = key_len; value_len = value_len })

-- `make_pair` into the data of a pair: the key's bytes and then the value's.
unfoldable pub make_pair : ℕ → ℕ → List ℕ → List ℕ → Run (List ℕ)
make_pair key_len value_len key value =
    read_bytes key_len key >>= λ k. read_bytes value_len value >>= λ v. ok (k ++ v)

-- `memcmp`: 0 exactly if the first `n` bytes agree.
unfoldable pub memcmp : List ℕ → List ℕ → ℕ → Run ℕ
memcmp p q zero = ok 0
memcmp [] q (suc n) = fault out_of_bounds
memcmp (a ∷ p) [] (suc n) = fault out_of_bounds
memcmp (a ∷ p) (b ∷ q) (suc n) =
    let rest = memcmp p q n in if a == b then rest else if ltb a b then ok minus_one else ok 1

unfoldable pub default_key_cmp_func : List ℕ → List ℕ → ℕ → Run ℕ
unfolding memcmp
default_key_cmp_func key1 key2 size = memcmp key1 key2 size

-- `sum += *(uint8_t *)(key + i)`, over the bytes that are left.
sum_loop : ℕ → List ℕ → Run ℕ
sum_loop sum [] = ok sum
sum_loop sum (b ∷ key) = sum_loop (u32 (sum + b)) key

unfoldable pub default_hash_func : List ℕ → ℕ → ℕ → Run ℕ
unfolding sum_loop read_bytes
default_hash_func key key_size bucket_size = read_bytes key_size key >>= λ k.
    sum_loop 0 k >>= λ sum.
    if bucket_size == 0 then fault division_by_zero else ok (sum % bucket_size)

-- What the allocator returned is written through without a test, also the table of `hash_map_init`.
unfoldable pub hash_map_create : ℕ → Run ℕ
hash_map_create p = if p == 0 then fault null_pointer else ok p

-- The map that `hash_map_init` leaves: every bucket empty and both ends at NULL.
unfoldable pub hash_map_init :
    ℕ → ℕ → ℕ → (List ℕ → ℕ → ℕ → Run ℕ) → (List ℕ → List ℕ → ℕ → Run ℕ) → HashMap
hash_map_init key_size data_size bucket_size hash_func key_cmp_func = record {
  bucket_size = bucket_size;
  data_size = data_size;
  key_size = key_size;
  hash_func = hash_func;
  key_cmp_func = key_cmp_func;
  hlist = replicate bucket_size [];
  begin = record { hlist_node_p = 0; bucket_pos = 0 };
  end = record { hlist_node_p = 0; bucket_pos = sub32 bucket_size 1 };
}

-- `hlist_head.first`, and `next` of the node in front of a chain.
abbrev pub first : Chain → ℕ
first [] = 0
first (n ∷ c) = n.addr

unfoldable pub hash_map_insert : HashMap → List ℕ → ℕ → Run (HashMap × ℕ)
hash_map_insert hmap data' addr = elim (addr == 0) [
  | true ↦ ok (hmap, minus_one)
  | false ↦ do
    key ← read_bytes hmap.data_size data'
    bucket_pos ← hmap.hash_func key hmap.key_size hmap.bucket_size
    let mnode : HashMapNode = record {
      addr = addr;
      value_pos = u8 hmap.key_size;
      data_size = hmap.data_size;
      key = key;
    }
    elim (leb hmap.bucket_size bucket_pos) [
      | true ↦ ok (hmap, minus_one)
      | false ↦ do
        chain ← load hmap.hlist bucket_pos
        let begin : HashMapPos =
            if hmap.begin.hlist_node_p == 0 || leb bucket_pos hmap.begin.bucket_pos
            then record { hlist_node_p = addr; bucket_pos = bucket_pos }
            else hmap.begin
        ok (record hmap { hlist = set hmap.hlist bucket_pos (mnode ∷ chain); begin = begin }, 0)
    ]
]

-- The loop of `hash_map_search` over one chain: the node's address, or 0.
unfoldable pub search_chain : (List ℕ → List ℕ → ℕ → Run ℕ) → List ℕ → ℕ → Chain → Run ℕ
search_chain cmp key key_size [] = ok 0
search_chain cmp key key_size (mnode ∷ chain) =
    let rest = search_chain cmp key key_size chain in
    cmp mnode.key key key_size >>= λ r. if r == 0 then ok mnode.addr else rest

unfoldable pub hash_map_search : HashMap → List ℕ → Run HashMapPos
hash_map_search hmap key = do
  bucket_pos ← hmap.hash_func key hmap.key_size hmap.bucket_size
  elim (leb hmap.bucket_size bucket_pos) [
    | true ↦ ok (record { hlist_node_p = 0; bucket_pos = bucket_pos })
    | false ↦ do
      chain ← load hmap.hlist bucket_pos
      p ← search_chain hmap.key_cmp_func key hmap.key_size chain
      ok (record { hlist_node_p = p; bucket_pos = bucket_pos })
  ]

-- `p->next`, for the node at the address p in one chain, and in the table.
unfoldable pub next_in : ℕ → Chain → Option ℕ
next_in p [] = none
next_in p (n ∷ c) = if n.addr == p then some (first c) else next_in p c

unfoldable pub next_of : ℕ → List Chain → Option ℕ
next_of p [] = none
next_of p (c ∷ cs) = elim (next_in p c) [ some q ↦ some q | none ↦ next_of p cs ]

-- The fault of reading through an address at which no node lives.
abbrev pub bad_pointer : ℕ → Fault
bad_pointer p = if p == 0 then null_pointer else dangling
