-- ===== src/Business/Fits.antt =====
-- What the layout of a message fixes of its fields: their addresses, where a search finds them, and
-- that their positions fit their byte.
use linux_char_driver_frame.Base.{
  some-injective, ℕ, zero, suc, ◌+◌, ◌<◌, ◌≡◌, refl, sym, ap, ap₂, Run-cases, Bool-cases, inl, inr,
  ◌∙◌, arith, Bool, true, ◌&&◌, Option, some, none, List, [], ◌∷◌, ◌++◌, length, get_elem?, Run, ok,
  fault, or_fault, null_pointer, ◌>>=◌, ltb,
}
use mathlib.Core.Path.{subst}
use linux_char_driver_frame.Format.Info.{ProtoInfo}
use linux_char_driver_frame.Format.Number.{streq}
use linux_char_driver_frame.Analyzer.Setup.{ProtocolAnalyzer, pa_find_key}
use linux_char_driver_frame.Analyzer.Keys.{IsChars, key_str-tail}
use linux_char_driver_frame.Analyzer.Lookup.{search_list}
use linux_char_driver_frame.PdtFormat.Layout.{Layout, fixed, sized, info_at, infos_at, array}
use linux_char_driver_frame.PdtFormat.Named.{name_of, info_at-name, info_at-addr, chars_of, same}
use linux_char_driver_frame.Business.Decode.{index_of}
use linux_char_driver_frame.Business.State.{place}

-- The field stands in the first 256 bytes, and the name of its length field is a string of less than
-- ten characters.
abbrev pub fits : Layout → Bool
fits (fixed name byte_pos len) = ltb byte_pos 256
fits (sized name byte_pos index) =
    ltb byte_pos 256 && same index (chars_of index ++ 0 ∷ []) && ltb (length (chars_of index)) 10

abbrev pub all_fit : List Layout → Bool
all_fit [] = true
all_fit (l ∷ layouts) = fits l && all_fit layouts

pub all_fit-get :
    (layouts : List Layout) (m : ℕ) (l : Layout)
    → all_fit layouts ≡ true
    → get_elem? layouts m ≡ some l
    → fits l ≡ true
all_fit-get [] m l fit there = absurd cc
all_fit-get (x ∷ layouts) zero l fit there =
    subst (λ y. fits y ≡ true) (some-injective there) (ground arith)
all_fit-get (x ∷ layouts) (suc m) l fit there = all_fit-get layouts m l (ground arith) there

pub infos_at-get :
    (alloc : ℕ → ℕ) (i : ℕ) (layouts : List Layout) (m : ℕ) (l : Layout)
    → get_elem? layouts m ≡ some l
    → get_elem? (infos_at alloc i layouts) m ≡ some (info_at l (alloc (i + m)))
infos_at-get alloc i [] m l there = absurd cc
infos_at-get alloc i (x ∷ layouts) zero l there =
    ap₂ (λ y k. some (info_at y (alloc k))) (some-injective there) (omega arith)
infos_at-get alloc i (x ∷ layouts) (suc m) l there =
    infos_at-get alloc (i + 1) layouts m l there
    ∙ ap (λ k. some (info_at l (alloc k))) (omega arith)

pub infos_at-addr :
    (alloc : ℕ → ℕ) (i : ℕ) (layouts : List Layout) (m : ℕ) (info : ProtoInfo)
    → get_elem? (infos_at alloc i layouts) m ≡ some info
    → info.addr ≡ alloc (i + m)
infos_at-addr alloc i [] m info there = absurd cc
infos_at-addr alloc i (x ∷ layouts) zero info there =
    sym (ap (λ (y : ProtoInfo). y.addr) (some-injective there))
    ∙ info_at-addr x (alloc i)
    ∙ ap alloc (omega arith)
infos_at-addr alloc i (x ∷ layouts) (suc m) info there =
    infos_at-addr alloc (i + 1) layouts m info there ∙ ap alloc (omega arith)

pub length-infos_at :
    (alloc : ℕ → ℕ) (i : ℕ) (layouts : List Layout)
    → length (infos_at alloc i layouts) ≡ length layouts
length-infos_at alloc i [] = refl
length-infos_at alloc i (l ∷ layouts) = ap suc (length-infos_at alloc (i + 1) layouts)

behind_first :
    (o : Option ℕ) (j : ℕ)
    → elim o [ none ↦ none | some k ↦ some (suc k) ] ≡ some j
    → (k : ℕ) × (o ≡ some k) × (j ≡ suc k)
behind_first none j h = absurd cc
behind_first (some k) j h = (k, refl, sym (some-injective h))

pub search_list-index_of :
    (alloc : ℕ → ℕ) (i : ℕ) (key : List ℕ) (layouts : List Layout) (j : ℕ)
    → index_of key layouts ≡ some j
    → search_list key (infos_at alloc i layouts) ≡ ok (alloc (i + j))
unfolding search_list
search_list-index_of alloc i key [] j h = absurd cc
search_list-index_of alloc i key (l ∷ layouts) j h =
    elim (Run-cases (streq (array (name_of l)) key)) [
      | inr (e, failed) ↦ absurd (ground (arith, failed, h))
      | inl (here, compared) ↦ elim (Bool-cases here) [
        | inl yes_here ↦
            let first : j ≡ 0 = omega (arith, some-injective (the_first compared yes_here)) in
            ground (
              arith,
              info_at-name l (alloc i),
              compared,
              yes_here,
              info_at-addr l (alloc i),
              ap (λ k. alloc (i + k)) first,
            )
        | inr not_here ↦
            let (k, found, next) =
              behind_first (index_of key layouts) j (ground (arith, compared, not_here, h)) in
            ground (
              arith,
              info_at-name l (alloc i),
              compared,
              not_here,
              search_list-index_of alloc (i + 1) key layouts k found,
              ap alloc (same_number k next),
            )
      ]
    ]
  where
    the_first :
        {here : Bool} → streq (array (name_of l)) key ≡ ok here → here ≡ true → some 0 ≡ some j
    the_first compared yes_here = ground (arith, compared, yes_here, h)

    same_number : (k : ℕ) → j ≡ suc k → i + 1 + k ≡ i + j
    same_number k next = omega arith

bind-ext {ℓ κ} :
    {A : Type ℓ} {B : Type κ} (r : Run A) (f g : A → Run B)
    → ((a : A) → f a ≡ g a)
    → (r >>= f) ≡ (r >>= g)
bind-ext (fault e) f g h = refl
bind-ext (ok a) f g h = h a

pub pa_find_key-tail :
    (k y : List ℕ) (pa : ProtocolAnalyzer)
    → IsChars k
    → pa_find_key (k ++ 0 ∷ y) pa ≡ pa_find_key (k ++ 0 ∷ []) pa
unfolding pa_find_key
pa_find_key-tail k y pa chars =
    bind-ext (or_fault null_pointer pa.hmap) _ _
      λ hmap. rw (key_str-tail hmap.key_size k y chars) refl

pub placed_first : (l : Layout) (addr : ℕ) → fits l ≡ true → info_at l addr ≡ place 0 l addr
placed_first (fixed name byte_pos len) addr fit =
    let low : byte_pos < 256 = ground arith in
    ap (λ p. record (info_at (fixed name byte_pos len) addr) { byte_pos = p }) (omega arith)
placed_first (sized name byte_pos index) addr fit =
    let low : byte_pos < 256 = ground arith in
    ap (λ p. record (info_at (sized name byte_pos index) addr) { byte_pos = p }) (omega arith)
