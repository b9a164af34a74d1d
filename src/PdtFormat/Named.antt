-- ===== src/PdtFormat/Named.antt =====
-- The names of the formats' fields tell them apart, in at most ten characters.
use linux_char_driver_frame.Base.{
  ℕ, ◌+◌, ◌<◌, ◌^◌, ◌≡◌, refl, ap₂, ◌∙◌, arith, Bool, true, false, not, ◌&&◌, List, [], ◌∷◌, ◌++◌,
  length, ok, fault, ◌==◌, leb, if◌then◌else◌,
}
use linux_char_driver_frame.Format.Number.{streq}
use linux_char_driver_frame.Analyzer.Keys.{IsChars, pad}
use linux_char_driver_frame.Analyzer.Lookup.{search_list, HasNames}
use linux_char_driver_frame.PdtFormat.Layout.{Layout, fixed, sized, array, info_at, infos_at}

abbrev pub name_of : Layout → List ℕ
name_of (fixed name byte_pos len) = name
name_of (sized name byte_pos index) = name

pub info_at-name : (l : Layout) (a : ℕ) → (info_at l a).name ≡ array (name_of l)
info_at-name (fixed name byte_pos len) a = refl
info_at-name (sized name byte_pos index) a = refl

pub info_at-addr : (l : Layout) (a : ℕ) → (info_at l a).addr ≡ a
info_at-addr (fixed name byte_pos len) a = refl
info_at-addr (sized name byte_pos index) a = refl

-- The characters before the 0 that ends a string.
abbrev pub chars_of : List ℕ → List ℕ
chars_of [] = []
chars_of (c ∷ s) = if c == 0 then [] else c ∷ chars_of s

pub chars_of-IsChars : (s : List ℕ) → IsChars (chars_of s)
chars_of-IsChars [] = tt
chars_of-IsChars (c ∷ s) = ground (arith, chars_of-IsChars s)

abbrev pub same : List ℕ → List ℕ → Bool
same [] [] = true
same [] (y ∷ ys) = false
same (x ∷ xs) [] = false
same (x ∷ xs) (y ∷ ys) = (x == y) && same xs ys

pub same-eq : (xs ys : List ℕ) → same xs ys ≡ true → xs ≡ ys
same-eq [] [] h = refl
same-eq [] (y ∷ ys) h = absurd (cc)
same-eq (x ∷ xs) [] h = absurd (cc)
same-eq (x ∷ xs) (y ∷ ys) h = ap₂ ◌∷◌ (ground arith) (same-eq xs ys (ground arith))

abbrev differs : List ℕ → List ℕ → Bool
differs s key = elim (streq s key) [ fault e ↦ false | ok b ↦ not b ]

-- No field has the name.
abbrev none_named : List ℕ → List Layout → Bool
none_named key [] = true
none_named key (l ∷ layouts) = differs (array (name_of l)) key && none_named key layouts

none_named-search_list :
    (alloc : ℕ → ℕ) (i : ℕ) (key : List ℕ) (layouts : List Layout)
    → none_named key layouts ≡ true
    → search_list key (infos_at alloc i layouts) ≡ ok 0
unfolding search_list
none_named-search_list alloc i key [] h = refl
none_named-search_list alloc i key (l ∷ layouts) h =
    ground (arith, info_at-name l (alloc i), none_named-search_list alloc (i + 1) key layouts)

abbrev pub well_named : List Layout → Bool
well_named [] = true
well_named (l ∷ layouts) =
    leb (length (chars_of (name_of l))) 10
    && same (array (name_of l)) (pad 20 (chars_of (name_of l)))
    && none_named (chars_of (name_of l) ++ 0 ∷ []) layouts
    && well_named layouts

pub well_named-HasNames :
    (alloc : ℕ → ℕ) (i : ℕ) (layouts : List Layout)
    → ((k : ℕ) → 0 < alloc k)
    → ((k : ℕ) → alloc k < 2 ^ 32)
    → well_named layouts ≡ true
    → HasNames (infos_at alloc i layouts)
well_named-HasNames alloc i [] pos word h = tt
well_named-HasNames alloc i (l ∷ layouts) pos word h =
    let at = info_at-addr l (alloc i) in
    let chars = chars_of (name_of l) in
    (
      (
        record {
          chars = chars;
          is_chars = chars_of-IsChars (name_of l);
          short = ground (arith);
          array =
              info_at-name l (alloc i) ∙ same-eq (array (name_of l)) (pad 20 chars) (ground arith);
          not_null = omega (arith, at, pos i);
          word = omega (arith, at, word i);
        },
        none_named-search_list alloc (i + 1) (chars ++ 0 ∷ []) layouts (ground arith),
      ),
      well_named-HasNames alloc (i + 1) layouts pos word (ground arith),
    )
