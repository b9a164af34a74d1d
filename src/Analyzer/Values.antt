-- ===== src/Analyzer/Values.antt =====
-- Setting and getting the value of a field by its name.
use linux_char_driver_frame.Base.{
  ℕ, ◌<◌, ◌≡◌, ◌≢◌, refl, arith, some, none, List, [], ◌∷◌, ok, fault, null_pointer, ◌>>=◌,
  minus_one, Returns, Option-cases, inl, inr,
}
use linux_char_driver_frame.Format.{HeadList}
use linux_char_driver_frame.Format.Info.{ProtoInfo}
use linux_char_driver_frame.Analyzer.Setup.{
  ProtocolAnalyzer, find_info, info_of, fields, put_fields, pa_find_key,
}
use linux_char_driver_frame.Analyzer.{update_info, pa_set_value, pa_get_value}

module _ (p : ℕ) (f : ProtoInfo → ProtoInfo) (keeps : (i : ProtoInfo) → (f i).addr ≡ i.addr) where
  -- An update changes the entry at its address and no other.
  pub find_info-update_info :
      (infos : List ProtoInfo) (i : ProtoInfo)
      → find_info p infos ≡ some i
      → find_info p (update_info p f infos) ≡ some (f i)
  unfolding find_info update_info
  find_info-update_info [] i h = cc
  find_info-update_info (info ∷ infos) i h =
      ground (arith, keeps info, find_info-update_info infos i)

  pub find_info-update_info_ne :
      (infos : List ProtoInfo) (q : ℕ)
      → q ≢ p
      → find_info q (update_info p f infos) ≡ find_info q infos
  unfolding find_info update_info
  find_info-update_info_ne [] q other = refl
  find_info-update_info_ne (info ∷ infos) q other =
      ground (arith, keeps info, find_info-update_info_ne infos q other)

-- The lookup of a name does not look at the list.
pa_find_key-put_fields :
    (key : List ℕ) (pa : ProtocolAnalyzer) (infos : List ProtoInfo)
    → pa_find_key key (put_fields pa infos) ≡ pa_find_key key pa
unfolding pa_find_key put_fields
pa_find_key-put_fields key pa infos = elim (Option-cases pa.pa_list_head_p) [
  | inl e ↦ rw e refl
  | inr (hl, e) ↦ rw e refl
]

-- Where a name is found, its value is set and then read again, and every other field is as it was.
pub pa_get_value-pa_set_value :
    (key : List ℕ) (v p q : ℕ) (pa : ProtocolAnalyzer) (hl : HeadList) (info : ProtoInfo)
    → pa.pa_list_head_p ≡ some hl
    → pa_find_key key pa ≡ ok p
    → 0 < p
    → find_info p hl.infos ≡ some info
    → q ≢ p
    → Returns (pa_set_value key v pa) λ r.
      (r.1 ≡ 0)
      × (pa_get_value key r.0 ≡ ok v)
      × ((fields r.0 >>= info_of q) ≡ (fields pa >>= info_of q))
unfolding pa_set_value pa_get_value fields info_of put_fields
pa_get_value-pa_set_value key v p q pa hl info e at_p pos there other =
    let f = λ (i : ProtoInfo). record i { data_value = v } in
    let infos' = update_info p f hl.infos in
    (
      (put_fields pa infos', 0),
      ground (arith, e, at_p, there),
      (
        refl,
        ground (
          arith,
          e,
          at_p,
          there,
          pa_find_key-put_fields key pa infos',
          find_info-update_info p f (λ i. refl) hl.infos info there,
        ),
        ground (arith, e, find_info-update_info_ne p f (λ i. refl) hl.infos q other),
      ),
    )

-- For a name that is not found, `pa_get_value` returns -1, and `pa_set_value` writes through NULL.
pa_set_value_missing :
    (key : List ℕ) (v : ℕ) (pa : ProtocolAnalyzer) (hl : HeadList)
    → pa.pa_list_head_p ≡ some hl
    → pa_find_key key pa ≡ ok 0
    → find_info 0 hl.infos ≡ none
    → (pa_get_value key pa ≡ ok minus_one) × (pa_set_value key v pa ≡ fault null_pointer)
unfolding pa_set_value pa_get_value fields info_of
pa_set_value_missing key v pa hl e missing no_null =
    (ground (arith, missing), ground (arith, e, missing, no_null))
