-- ===== src/Business/State.antt =====
-- The fields between two rounds of the parser: those read hold their values, and the others stand as
-- many bytes further back as the fields of variable length before them have.
use linux_char_driver_frame.Base.{
  ℕ, zero, suc, ◌+◌, ◌*◌, ◌/◌, ◌≤◌, ◌<◌, ◌≡◌, ◌≢◌, refl, sym, ap, ◌∙◌, arith, some, List, [], ◌∷◌,
  ◌++◌, length, get_elem?, set, u8, u16, u32, ltb, ◌==◌, if◌then◌else◌, ◌⊎◌, inl, inr,
  get_elem?-set_self, get_elem?-set_ne, length-set, length-append, get_elem?-eq-some,
}
use native.Mathlib.Decide.{dec_lt, ℕ_discrete}
use linux_char_driver_frame.Format.Info.{ProtoInfo}
use linux_char_driver_frame.Analyzer.Setup.{find_info}
use linux_char_driver_frame.Analyzer.{shift_bytes, map_from}
use linux_char_driver_frame.Analyzer.Shift.{moved, map_from-get, in_range}
use linux_char_driver_frame.PdtFormat.Layout.{Layout, fixed, sized, info_at}
use linux_char_driver_frame.Business.Parse.{resized}

abbrev pub pos_of : Layout → ℕ
pos_of (fixed name byte_pos len) = byte_pos
pos_of (sized name byte_pos index) = byte_pos

-- A field `s` bytes further back.
abbrev pub place : ℕ → Layout → ℕ → ProtoInfo
place s l addr = record (info_at l addr) { byte_pos = u8 (pos_of l + s) }

pub moved-place :
    (k s : ℕ) (l : Layout) (addr : ℕ)
    → moved k (some (place s l addr)) ≡ some (place (s + k) l addr)
moved-place k s l addr = ap (λ p. some (record (info_at l addr) { byte_pos = p })) (omega arith)

place-addr : (s : ℕ) (l : Layout) (addr : ℕ) → (place s l addr).addr ≡ addr
place-addr s (fixed name byte_pos len) addr = refl
place-addr s (sized name byte_pos index) addr = refl

pub record IsState (alloc : ℕ → ℕ) (all : List Layout) (i s : ℕ) (values : List ℕ)
    (infos : List ProtoInfo) : Type 0 where
  pub width : length infos ≡ length all
  pub count : length values ≡ i
  pub addrs : (m : ℕ) (info : ProtoInfo) → get_elem? infos m ≡ some info → info.addr ≡ alloc m
  pub seen :
      (j v : ℕ)
      → get_elem? values j ≡ some v
      → (info : ProtoInfo) × (get_elem? infos j ≡ some info) × (info.data_value ≡ v)
  pub ahead :
      (m : ℕ) (l : Layout)
      → i ≤ m
      → get_elem? all m ≡ some l
      → get_elem? infos m ≡ some (place s l (alloc m))

get_elem?-append_one :
    (xs : List ℕ) (v j w : ℕ)
    → get_elem? (xs ++ v ∷ []) j ≡ some w
    → ((j < length xs) × (get_elem? xs j ≡ some w)) ⊎ ((j ≡ length xs) × (v ≡ w))
get_elem?-append_one [] v zero w h = inr (refl, ground arith)
get_elem?-append_one [] v (suc j) w h = absurd (ground arith)
get_elem?-append_one (x ∷ xs) v zero w h = inl (omega arith, h)
get_elem?-append_one (x ∷ xs) v (suc j) w h = elim (get_elem?-append_one xs v j w h) [
  | inl (low, there) ↦ inl (omega arith, there)
  | inr (end, same) ↦ inr (omega arith, same)
]

module _ {alloc : ℕ → ℕ} {all : List Layout} {i s : ℕ} {values : List ℕ}
    {infos : List ProtoInfo} where
  -- One field more is read.
  pub next-IsState :
      (infos' : List ProtoInfo) (new : ProtoInfo) (v s' : ℕ)
      → IsState alloc all i s values infos
      → length infos' ≡ length infos
      → get_elem? infos' i ≡ some new
      → new.addr ≡ alloc i
      → new.data_value ≡ v
      → ((m : ℕ) → m < i → get_elem? infos' m ≡ get_elem? infos m)
      → ((m : ℕ) (l : Layout)
          → i < m
          → get_elem? all m ≡ some l
          → get_elem? infos' m ≡ some (place s' l (alloc m)))
      → IsState alloc all (i + 1) s' (values ++ v ∷ []) infos'
  next-IsState infos' new v s' st width here addr value before behind = record {
    width = width ∙ st.width;
    count = omega (arith, length-append values (v ∷ []), st.count);
    addrs = λ m info h. elim (ℕ_discrete m i) [
      | yes e ↦ ground (arith, h, here, e, addr)
      | no other ↦ elim (dec_lt m i) [
        | yes low ↦ st.addrs m info (sym (before m low) ∙ h)
        | no high ↦
            let (l, there) =
              get_elem?-eq-some all m (omega (arith, in_range infos' m h, width, st.width)) in
            ground (arith, h, behind m l (omega arith) there, place-addr s' l (alloc m))
      ]
    ];
    seen = λ j w h. elim (get_elem?-append_one values v j w h) [
      | inl (low, there) ↦
          let (info, at, holds) = st.seen j w there in
          (info, before j (omega (arith, st.count)) ∙ at, holds)
      | inr (end, same) ↦
          (new, ap (get_elem? infos') (omega (arith, st.count)) ∙ here, value ∙ same)
    ];
    ahead = λ m l h there. behind m l (omega arith) there;
  }

length-shift_bytes : (n : ℕ) (infos : List ProtoInfo) → length (shift_bytes n infos) ≡ length infos
unfolding shift_bytes
length-shift_bytes n [] = refl
length-shift_bytes n (x ∷ infos) = ap suc (length-shift_bytes n infos)

length-map_from :
    (at n : ℕ) (infos : List ProtoInfo) → length (map_from at (shift_bytes n) infos) ≡ length infos
unfolding map_from
length-map_from zero n infos = length-shift_bytes n infos
length-map_from (suc at) n [] = refl
length-map_from (suc at) n (x ∷ infos) = ap suc (length-map_from at n infos)

pub length-resized :
    (i n : ℕ) (info : ProtoInfo) (infos : List ProtoInfo)
    → length (resized i n info infos) ≡ length infos
length-resized i n info infos =
    length-map_from (i + 1) (u32 (n * info.len_unit) / 8)
      (set infos i (record info { len = u16 n }))
    ∙ length-set infos i (record info { len = u16 n })

pub resized_self :
    (i n : ℕ) (info : ProtoInfo) (infos : List ProtoInfo)
    → i < length infos
    → get_elem? (resized i n info infos) i ≡ some (record info { len = u16 n })
resized_self i n info infos inside =
    let now : ProtoInfo = record info { len = u16 n } in
    ground (
      arith,
      map_from-get (i + 1) (u32 (n * info.len_unit) / 8) (set infos i now) i,
      get_elem?-set_self infos i now inside,
    )

-- What the two writes of a round to a resized list leave.
pub resized_get :
    (i n m : ℕ) (info now new : ProtoInfo) (infos : List ProtoInfo)
    → i < length infos
    → get_elem? (set (set (resized i n info infos) i now) i new) m ≡ (
        if m == i
        then some new
        else if ltb m i
        then get_elem? infos m
        else moved (u32 (n * info.len_unit) / 8) (get_elem? infos m))
resized_get i n m info now new infos inside =
    let sized : ProtoInfo = record info { len = u16 n } in
    let k = u32 (n * info.len_unit) / 8 in
    let before = resized i n info infos in
    let wide : i < length before = omega (arith, length-resized i n info infos) in
    ground (
      arith,
      get_elem?-set_self (set before i now) i new (omega (arith, wide, length-set before i now)),
      get_elem?-set_ne (set before i now) i m new,
      get_elem?-set_ne before i m now,
      map_from-get (i + 1) k (set infos i sized) m,
      get_elem?-set_ne infos i m sized,
    )

pub find_info-addr :
    (alloc : ℕ → ℕ) (infos : List ProtoInfo) (j : ℕ) (info : ProtoInfo)
    → ((m : ℕ) (x : ProtoInfo) → get_elem? infos m ≡ some x → x.addr ≡ alloc m)
    → ((m k : ℕ) → m < k → k < length infos → alloc m ≢ alloc k)
    → get_elem? infos j ≡ some info
    → find_info (alloc j) infos ≡ some info
unfolding find_info
find_info-addr alloc [] j info addrs apart there = absurd (ground arith)
find_info-addr alloc (x ∷ infos) zero info addrs apart there = ground (arith, addrs 0 x refl, there)
find_info-addr alloc (x ∷ infos) (suc j) info addrs apart there =
    let other : x.addr ≢ alloc (suc j) = λ e.
      apart 0 (suc j) (omega arith) (omega (arith, in_range infos j there))
        (sym (addrs 0 x refl) ∙ e) in
    ground (
      arith,
      other,
      find_info-addr (λ m. alloc (suc m)) infos j info (λ m y h. addrs (suc m) y h)
          (λ m k h low. apart (suc m) (suc k) (omega arith) (omega arith)) there,
    )
