-- ===== src/Analyzer/Keys.antt =====
-- Names as C strings, as arrays of twenty bytes and as keys of ten: comparing keys is comparing
-- names.
use linux_char_driver_frame.Base.{
  ℕ, zero, suc, ◌+◌, ◌-◌, ◌≤◌, ◌<◌, ◌≡◌, refl, ap, ap₂, ◌∙◌, arith, true, false, List, [], ◌∷◌,
  ◌++◌, length, replicate, ok, fault, uninitialised, ◌>>=◌, ◌==◌, ltb, if◌then◌else◌, minus_one,
  Bool-cases, ◌⊎◌, inl, inr,
}
use linux_char_driver_frame.HashMap.{read_bytes, make_pair, memcmp}
use linux_char_driver_frame.Format.Number.{strlen, streq}
use linux_char_driver_frame.Analyzer.Setup.{key_str}

-- The characters of a string, none of them the 0 that ends it.
abbrev pub IsChars : List ℕ → Type 0
IsChars [] = Unit {0}
IsChars (c ∷ s) = (0 < c) × IsChars s

-- A string in an array of `n` bytes that held zeros, as far as it fits.
abbrev pub pad : ℕ → List ℕ → List ℕ
pad zero s = []
pad (suc n) [] = 0 ∷ pad n []
pad (suc n) (c ∷ s) = c ∷ pad n s

pub length-pad : (n : ℕ) (s : List ℕ) → length (pad n s) ≡ n
length-pad zero s = refl
length-pad (suc n) [] = ap suc (length-pad n [])
length-pad (suc n) (c ∷ s) = ap suc (length-pad n s)

pad-nil : (n : ℕ) → replicate n 0 ≡ pad n []
pad-nil zero = refl
pad-nil (suc n) = ap (λ t. 0 ∷ t) (pad-nil n)

pad-replicate : (n : ℕ) (s : List ℕ) → length s ≤ n → s ++ replicate (n - length s) 0 ≡ pad n s
pad-replicate n [] h = ap (λ (k : ℕ). replicate k 0) (omega arith) ∙ pad-nil n
pad-replicate zero (c ∷ s) h = absurd (omega arith)
pad-replicate (suc n) (c ∷ s) h =
    let e : suc n - suc (length s) ≡ n - length s = omega arith in
    ap (λ (k : ℕ). c ∷ s ++ replicate k 0) e ∙ ap (λ t. c ∷ t) (pad-replicate n s (omega arith))

read_bytes-append : (xs ys : List ℕ) → read_bytes (length xs) (xs ++ ys) ≡ ok xs
unfolding read_bytes
read_bytes-append [] ys = refl
read_bytes-append (x ∷ xs) ys = rw (read_bytes-append xs ys) refl

pub read_bytes-all : (xs : List ℕ) (n : ℕ) → length xs ≡ n → read_bytes n xs ≡ ok xs
unfolding read_bytes
read_bytes-all [] zero e = refl
read_bytes-all [] (suc n) e = absurd (omega arith)
read_bytes-all (x ∷ xs) zero e = absurd (omega arith)
read_bytes-all (x ∷ xs) (suc n) e = rw (read_bytes-all xs n (omega arith)) refl

-- The first bytes of a padded string, whatever is behind them.
pub read_bytes-pad : (n : ℕ) (s ys : List ℕ) → read_bytes n (pad n s ++ ys) ≡ ok (pad n s)
unfolding read_bytes
read_bytes-pad zero s ys = refl
read_bytes-pad (suc n) [] ys = rw (read_bytes-pad n [] ys) refl
read_bytes-pad (suc n) (c ∷ s) ys = rw (read_bytes-pad n s ys) refl

pub read_bytes-longer :
    (n m : ℕ) (s : List ℕ) → length s ≤ n → read_bytes n (pad (n + m) s) ≡ ok (pad n s)
unfolding read_bytes
read_bytes-longer zero m s h = refl
read_bytes-longer (suc n) m [] h =
    let e : suc n + m ≡ suc (n + m) = omega arith in
    rw (e, read_bytes-longer n m [] (omega arith)) refl
read_bytes-longer (suc n) m (c ∷ s) h =
    let e : suc n + m ≡ suc (n + m) = omega arith in
    rw (e, read_bytes-longer n m s (omega arith)) refl

pub make_pair-pad :
    (s addr_p : List ℕ)
    → length s ≤ 10
    → length addr_p ≡ 4
    → make_pair 10 4 (pad 20 s) addr_p ≡ ok (pad 10 s ++ addr_p)
unfolding make_pair
make_pair-pad s addr_p h four =
    rw (read_bytes-longer 10 10 s (omega arith), read_bytes-all addr_p 4 four) refl

strlen-chars : (k y : List ℕ) → IsChars k → strlen (k ++ 0 ∷ y) ≡ ok (length k)
unfolding strlen
strlen-chars [] y chars = refl
strlen-chars (c ∷ k) y chars = rw (strlen-chars k y chars.1) (ground (arith, chars.0))

pub key_str-chars :
    (k : List ℕ) → IsChars k → length k < 10 → key_str 10 (k ++ 0 ∷ []) ≡ ok (pad 10 k)
unfolding key_str
key_str-chars k chars short =
    rw (strlen-chars k [] chars)
      (ground (arith, read_bytes-append k (0 ∷ []), pad-replicate 10 k (omega arith)))

-- What stands behind the end of a name makes no difference.
pub key_str-tail :
    (n : ℕ) (k y : List ℕ) → IsChars k → key_str n (k ++ 0 ∷ y) ≡ key_str n (k ++ 0 ∷ [])
unfolding key_str
key_str-tail n k y chars =
    rw
      (
        strlen-chars k y chars,
        strlen-chars k [] chars,
        ◌>>=◌,
        read_bytes-append k (0 ∷ y),
        read_bytes-append k (0 ∷ []),
      )
      refl

memcmp_refl : (n : ℕ) (x : List ℕ) → memcmp (pad n [] ++ x) (pad n []) n ≡ ok 0
unfolding memcmp
memcmp_refl zero x = refl
memcmp_refl (suc n) x = memcmp_refl n x

-- Either the names are the same, and both comparisons say so, or both tell them apart.
pub record Same (n : ℕ) (s k x y : List ℕ) : Type 0 where
  pub equal : s ≡ k
  pub keys : memcmp (pad n s ++ x) (pad n k) n ≡ ok 0
  pub strings : streq (s ++ 0 ∷ y) (k ++ 0 ∷ []) ≡ ok true

pub record Different (n : ℕ) (s k x y : List ℕ) : Type 0 where
  pub result : ℕ
  pub unequal : 0 < result
  pub keys : memcmp (pad n s ++ x) (pad n k) n ≡ ok result
  pub strings : streq (s ++ 0 ∷ y) (k ++ 0 ∷ []) ≡ ok false

pub compare_names :
    (n : ℕ) (s k x y : List ℕ)
    → IsChars s
    → IsChars k
    → length s ≤ n
    → length k < n
    → Same n s k x y ⊎ Different n s k x y
unfolding memcmp streq
compare_names zero s k x y cs ck hs hk = absurd (omega arith)
compare_names (suc n) [] [] x y cs ck hs hk =
    inl (record { equal = refl; keys = memcmp_refl (suc n) x; strings = refl })
compare_names (suc n) [] (b ∷ k) x y cs ck hs hk = inr (record {
  result = minus_one;
  unequal = omega arith;
  keys = ground (arith, ck.0);
  strings = ground (arith, ck.0);
})
compare_names (suc n) (a ∷ s) [] x y cs ck hs hk = inr (record {
  result = 1;
  unequal = omega arith;
  keys = ground (arith, cs.0);
  strings = ground (arith, cs.0);
})
compare_names (suc n) (a ∷ s) (b ∷ k) x y cs ck hs hk = elim (Bool-cases (a == b)) [
  | inr other ↦ inr (record {
    result = if ltb a b then minus_one else 1;
    unequal = ground arith;
    keys = ground arith;
    strings = ground arith;
  })
  | inl same ↦
      let both : a ≡ b = ground arith in
      elim (compare_names n s k x y cs.1 ck.1 (omega arith) (omega arith)) [
        | inl r ↦ inl (record {
          equal = ap₂ ◌∷◌ both r.equal;
          keys = ground (arith, r.keys);
          strings = ground (arith, cs.0, r.strings);
        })
        | inr r ↦ inr (record {
          result = r.result;
          unequal = r.unequal;
          keys = ground (arith, r.keys);
          strings = ground (arith, cs.0, r.strings);
        })
      ]
]

pub pad-split : (n : ℕ) (s : List ℕ) → length s < n → (y : List ℕ) × (pad n s ≡ s ++ 0 ∷ y)
pad-split zero s h = absurd (omega arith)
pad-split (suc n) [] h = (pad n [], refl)
pad-split (suc n) (c ∷ s) h = let (y, e) = pad-split n s (omega arith) in (y, ap (λ t. c ∷ t) e)

-- A name that is too long for the key leaves it unset.
pub key_str-long :
    (key_size : ℕ) (k : List ℕ)
    → IsChars k
    → key_size ≤ length k
    → key_str key_size (k ++ 0 ∷ []) ≡ fault uninitialised
unfolding key_str
key_str-long key_size k chars long = rw (strlen-chars k [] chars) (ground arith)
