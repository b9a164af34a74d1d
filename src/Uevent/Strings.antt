-- ===== src/Uevent/Strings.antt =====
-- What the messages of the kernel mean, and the steps of the parser on their strings.
use linux_char_driver_frame.Base.{
  some-injective, ℕ, zero, suc, ◌≡◌, ◌≢◌, refl, ap, ap₂, ◌∙◌, arith, Bool, true, false, Option,
  none, some, List, [], ◌∷◌, ◌++◌, Run, ok, length, drop, ◌==◌, ==_iff, ==_ne, Bool-cases, inl, inr,
  if◌then◌else◌,
}
use mathlib.Core.Path.{subst}
use mathlib.Core.List.{append_assoc}
use linux_char_driver_frame.Uevent.{
  Uevent, strncmp_is_0, c_string, next_string, on_key, action_key, path_key, subsystem_key,
  firmware_key, major_key, minor_key,
}

-- What a string has behind the key, if it begins with it.
abbrev pub value_of : List ℕ → List ℕ → Option (List ℕ)
value_of [] s = some s
value_of (c ∷ key) [] = none
value_of (c ∷ key) (b ∷ s) = let rest = value_of key s in if b == c then rest else none

-- What the last string with the key gives, or what is there without one.
abbrev pub last_of {ℓ} : {A : Type ℓ} → List ℕ → (List ℕ → A) → List (List ℕ) → A → A
last_of key read [] a = a
last_of key read (s ∷ ss) a =
    last_of key read ss (elim (value_of key s) [ none ↦ a | some v ↦ read v ])

-- The event of some strings.
abbrev pub described : (List ℕ → ℕ) → List (List ℕ) → Uevent → Uevent
described atoi ss e = record {
  action = last_of action_key (λ v. v) ss e.action;
  path = last_of path_key (λ v. v) ss e.path;
  subsystem = last_of subsystem_key (λ v. v) ss e.subsystem;
  firmware = last_of firmware_key (λ v. v) ss e.firmware;
  major = last_of major_key atoi ss e.major;
  minor = last_of minor_key atoi ss e.minor;
}

-- A byte more at the start of the first string.
abbrev prepend : ℕ → List (List ℕ) → List (List ℕ)
prepend b [] = []
prepend b (s ∷ ss) = (b ∷ s) ∷ ss

-- The strings that the bytes are cut into by their zeros.
abbrev pub strings : List ℕ → List (List ℕ)
strings [] = [] ∷ []
strings (zero ∷ bs) = [] ∷ strings bs
strings (suc b ∷ bs) = prepend (suc b) (strings bs)

-- The strings before the first empty one.
abbrev pub before_empty : List (List ℕ) → List (List ℕ)
before_empty [] = []
before_empty ([] ∷ ss) = []
before_empty ((b ∷ s) ∷ ss) = (b ∷ s) ∷ before_empty ss

-- The bytes of some strings, with a zero behind each.
abbrev pub joined : List (List ℕ) → List ℕ → List ℕ
joined [] tail = tail
joined (s ∷ ss) tail = s ++ 0 ∷ joined ss tail

-- No byte is a zero.
abbrev pub IsString : List ℕ → Type 0
IsString [] = Unit
IsString (zero ∷ s) = ⊥
IsString (suc b ∷ s) = IsString s

abbrev pub IsStrings : List (List ℕ) → Type 0
IsStrings [] = Unit
IsStrings (s ∷ ss) = IsString s × IsStrings ss

prepend-IsStrings : (b : ℕ) (ss : List (List ℕ)) → IsStrings ss → IsStrings (prepend (suc b) ss)
prepend-IsStrings b [] h = tt
prepend-IsStrings b (s ∷ ss) h = h

pub strings-IsStrings : (bs : List ℕ) → IsStrings (strings bs)
strings-IsStrings [] = (tt, tt)
strings-IsStrings (zero ∷ bs) = (tt, strings-IsStrings bs)
strings-IsStrings (suc b ∷ bs) = prepend-IsStrings b (strings bs) (strings-IsStrings bs)

prepend_ne : (b : ℕ) (ss : List (List ℕ)) → ss ≢ [] → prepend b ss ≢ []
prepend_ne b [] n h = n refl
prepend_ne b (s ∷ ss) n h = absurd cc

strings_ne : (bs : List ℕ) → strings bs ≢ []
strings_ne [] h = absurd cc
strings_ne (zero ∷ bs) h = absurd cc
strings_ne (suc b ∷ bs) h = prepend_ne (suc b) (strings bs) (strings_ne bs) h

joined-prepend :
    (b : ℕ) (ss : List (List ℕ)) (tail : List ℕ)
    → ss ≢ []
    → joined (prepend b ss) tail ≡ b ∷ joined ss tail
joined-prepend b [] tail n = absurd (n refl)
joined-prepend b (s ∷ ss) tail n = refl

pub joined-strings : (bs tail : List ℕ) → joined (strings bs) tail ≡ bs ++ 0 ∷ tail
joined-strings [] tail = refl
joined-strings (zero ∷ bs) tail = ap (λ l. 0 ∷ l) (joined-strings bs tail)
joined-strings (suc b ∷ bs) tail =
    joined-prepend (suc b) (strings bs) tail (strings_ne bs)
    ∙ ap (λ l. suc b ∷ l) (joined-strings bs tail)

pub c_string-append : (s tail : List ℕ) → IsString s → c_string (s ++ 0 ∷ tail) ≡ s
unfolding c_string
c_string-append [] tail h = refl
c_string-append (zero ∷ s) tail h = elim h [ ]
c_string-append (suc b ∷ s) tail h = ap (λ l. suc b ∷ l) (c_string-append s tail h)

pub next_string-append : (s tail : List ℕ) → IsString s → next_string (s ++ 0 ∷ tail) ≡ ok tail
unfolding next_string
next_string-append [] tail h = refl
next_string-append (zero ∷ s) tail h = elim h [ ]
next_string-append (suc b ∷ s) tail h = next_string-append s tail h

-- Whether there is something.
abbrev pub is_some {ℓ} : {A : Type ℓ} → Option A → Bool
is_some none = false
is_some (some a) = true

pub strncmp_is_0-value_of :
    (key s tail : List ℕ)
    → IsString key
    → strncmp_is_0 (s ++ 0 ∷ tail) key ≡ ok (is_some (value_of key s))
unfolding strncmp_is_0
strncmp_is_0-value_of [] s tail h = refl
strncmp_is_0-value_of (zero ∷ key) s tail h = elim h [ ]
strncmp_is_0-value_of (suc c ∷ key) [] tail h = rw (==_ne 0 (suc c) (λ e. omega arith)) refl
strncmp_is_0-value_of (suc c ∷ key) (b ∷ s) tail h = elim (Bool-cases (b == suc c)) [
  | inl e ↦ rw (e, strncmp_is_0-value_of key s tail h) refl
  | inr e ↦ rw (e) refl
]

if-some :
    (b : Bool) {o : Option (List ℕ)} {v : List ℕ}
    → (if b then o else none) ≡ some v
    → (b ≡ true) × (o ≡ some v)
if-some true h = (refl, h)
if-some false h = absurd cc

pub value_of-some : (key s : List ℕ) {v : List ℕ} → value_of key s ≡ some v → s ≡ key ++ v
value_of-some [] s h = some-injective h
value_of-some (c ∷ key) [] h = absurd cc
value_of-some (c ∷ key) (b ∷ s) h =
    let (e, h') = if-some (b == c) h in
    ap₂ (λ x l. x ∷ l) ((==_iff b c).0 e) (value_of-some key s h')

pub value_of-IsString :
    (key s : List ℕ) {v : List ℕ} → value_of key s ≡ some v → IsString s → IsString v
value_of-IsString [] s h p = subst IsString (some-injective h) p
value_of-IsString (c ∷ key) [] h p = absurd cc
value_of-IsString (c ∷ key) (zero ∷ s) h p = elim p [ ]
value_of-IsString (c ∷ key) (suc b ∷ s) h p = value_of-IsString key s (if-some (suc b == c) h).1 p

pub drop-append : (key v : List ℕ) → drop (length key) (key ++ v) ≡ v
drop-append [] v = refl
drop-append (c ∷ key) v = drop-append key v

-- A branch whose key the string has, and one whose key it has not.
pub on_key-some :
    (key : List ℕ) (set_field : List ℕ → Uevent) (s tail : List ℕ)
    (otherwise : Run (Uevent × List ℕ)) {v : List ℕ}
    → IsString key
    → IsString s
    → value_of key s ≡ some v
    → on_key key set_field (s ++ 0 ∷ tail) otherwise ≡ ok (set_field v, v ++ 0 ∷ tail)
unfolding on_key
on_key-some key set_field s tail otherwise {v} k p h =
    let gone : drop (length key) (s ++ 0 ∷ tail) ≡ v ++ 0 ∷ tail =
      rw (value_of-some key s h, append_assoc key v (0 ∷ tail)) (drop-append key (v ++ 0 ∷ tail)) in
    let p' = value_of-IsString key s h p in
    rw (strncmp_is_0-value_of key s tail k, h, gone, c_string-append v tail p') refl

pub on_key-none :
    (key : List ℕ) (set_field : List ℕ → Uevent) (s tail : List ℕ)
    (otherwise : Run (Uevent × List ℕ))
    → IsString key
    → value_of key s ≡ none
    → on_key key set_field (s ++ 0 ∷ tail) otherwise ≡ otherwise
unfolding on_key
on_key-none key set_field s tail otherwise k h = rw (strncmp_is_0-value_of key s tail k, h) refl
