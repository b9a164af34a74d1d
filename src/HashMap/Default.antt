-- ===== src/HashMap/Default.antt =====
-- The default hash and comparison of hash_list.h agree, and the map that `hash_map_init` leaves is
-- valid.
use linux_char_driver_frame.Base.{
  ℕ, zero, suc, ◌%◌, u32, ◌+◌, ◌<◌, ◌^◌, ◌≡◌, refl, arith, List, [], ◌∷◌, ok, Run, replicate,
  length-replicate,
}
use native.Mathlib.Nat.{mod-lt}
use linux_char_driver_frame.HashMap.{
  sum_loop, read_bytes, memcmp, default_key_cmp_func, default_hash_func, hash_map_init,
}
use linux_char_driver_frame.HashMap.Zipper.{nodes}
use linux_char_driver_frame.HashMap.Next.{IsValid, first_pos, last_bucket}

memcmp-read_bytes : (p q : List ℕ) (n : ℕ) → memcmp p q n ≡ ok 0 → read_bytes n p ≡ read_bytes n q
unfolding memcmp read_bytes
memcmp-read_bytes p q zero h = refl
memcmp-read_bytes [] q (suc n) h = cc
memcmp-read_bytes (a ∷ p) [] (suc n) h = cc
memcmp-read_bytes (a ∷ p) (b ∷ q) (suc n) h = ground (arith, memcmp-read_bytes p q n)

-- Keys that the default comparison finds equal have the same default hash, for every table size.
default_hash_func-default_key_cmp_func :
    (p q : List ℕ) (key_size bucket_size : ℕ)
    → default_key_cmp_func p q key_size ≡ ok 0
    → default_hash_func p key_size bucket_size ≡ default_hash_func q key_size bucket_size
unfolding default_key_cmp_func default_hash_func
default_hash_func-default_key_cmp_func p q key_size bucket_size h =
    rw (memcmp-read_bytes p q key_size h)

nodes-replicate : (n : ℕ) → nodes (replicate n []) ≡ []
nodes-replicate zero = refl
nodes-replicate (suc n) = nodes-replicate n

first_pos-replicate :
    (last i n : ℕ)
    → first_pos last i (replicate n []) ≡ record { hlist_node_p = 0; bucket_pos = last }
first_pos-replicate last i zero = refl
first_pos-replicate last i (suc n) = first_pos-replicate last (i + 1) n

pub hash_map_init-IsValid :
    (key_size data_size bucket_size : ℕ) (hash : List ℕ → ℕ → ℕ → Run ℕ)
    (cmp : List ℕ → List ℕ → ℕ → Run ℕ)
    → bucket_size < 2 ^ 32
    → IsValid (hash_map_init key_size data_size bucket_size hash cmp)
unfolding hash_map_init
hash_map_init-IsValid key_size data_size bucket_size hash cmp small = record {
  width = length-replicate bucket_size [];
  small = small;
  distinct = rw (nodes-replicate bucket_size) tt;
  at_begin = rw (
      first_pos-replicate (last_bucket (hash_map_init key_size data_size bucket_size hash cmp)) 0
        bucket_size);
  begin_bucket = λ h. absurd (omega arith);
  at_end = refl;
}

sum_loop-ok : (sum : ℕ) (key : List ℕ) → (n : ℕ) × (sum_loop sum key ≡ ok n)
unfolding sum_loop
sum_loop-ok sum [] = (sum, refl)
sum_loop-ok sum (b ∷ key) = sum_loop-ok (u32 (sum + b)) key

-- The default hash of a key is a bucket, the same for every pointer to its bytes.
pub default_hash_func-bucket :
    (k : List ℕ) (key_size bucket_size : ℕ)
    → 0 < bucket_size
    → (b : ℕ) × (b < bucket_size)
      × ((p : List ℕ)
          → read_bytes key_size p ≡ ok k
          → default_hash_func p key_size bucket_size ≡ ok b)
unfolding default_hash_func
default_hash_func-bucket k key_size bucket_size pos =
    let (n, total) = sum_loop-ok 0 k in
    (n % bucket_size, mod-lt n pos, λ p bytes. ground (arith, bytes, total))
