-- ===== src/Format/Destroy.antt =====
-- Taking down the table of formats: `pfs_del_proto_link_list` and
-- `pfs_destroy_protocol_format_set` of driver/libproto_analyzer/protocol_format_set.c.
use linux_char_driver_frame.Base.{
  ℕ, zero, suc, ◌+◌, ◌≤◌, ◌<◌, ◌≡◌, ◌≢◌, refl, sym, ap, ◌∙◌, arith, Option, some, none, List,
  length, get_elem?, set, Run, ok, fault, null_pointer, out_of_fuel, or_fault, load, ◌>>=◌, u8, ltb,
  length-set, get_elem?-set_self, get_elem?-set_ne, get_elem?-eq-some, Returns, if◌then◌else◌,
}
use native.Mathlib.Decide.{ℕ_discrete}
use linux_char_driver_frame.Format.{HeadList, FormatSet, pfs_del_list_for_each}

-- The head of the list is freed as well: the entry of the table still points to it.
unfoldable pub pfs_del_proto_link_list : ℕ → List (Option HeadList) → Run (List (Option HeadList))
pfs_del_proto_link_list llist_num list_head = do
  entry ← load list_head llist_num
  hl ← or_fault null_pointer entry
  ok (set list_head llist_num (some (pfs_del_list_for_each hl)))

-- The loop over the table, on fuel. `i` is a `uint8_t`.
unfoldable pub destroy_formats_loop :
    ℕ → ℕ → ℕ → List (Option HeadList) → Run (List (Option HeadList))
destroy_formats_loop zero protocol_num i list_head = fault out_of_fuel
destroy_formats_loop (suc fuel) protocol_num i list_head =
    if ltb i protocol_num
    then (load list_head i >>= λ entry.
        (elim entry [
          | none ↦ ok list_head
          | some hl ↦ pfs_del_proto_link_list i list_head >>= λ emptied. ok (set emptied i none)
        ])
        >>= λ list_head'. destroy_formats_loop fuel protocol_num (u8 (i + 1)) list_head')
    else ok list_head

-- The table when it is to be freed, or none where there is no table. More than 100 formats are
-- logged only.
unfoldable pub pfs_destroy_protocol_format_set :
    ℕ → FormatSet → Run (Option (List (Option HeadList)))
pfs_destroy_protocol_format_set fuel pfp = elim pfp.list_head_p2 [
  | none ↦ ok none
  | some list_head ↦
      destroy_formats_loop fuel pfp.proto_max_num 0 list_head >>= λ left. ok (some left)
]

-- One round clears the entry, and goes on.
record IsRound (i n fuel : ℕ) (list_head next : List (Option HeadList)) : Type 0 where
  width : length next ≡ n
  goes_on :
      destroy_formats_loop (suc fuel) n i list_head ≡ destroy_formats_loop fuel n (u8 (i + 1)) next
  cleared : get_elem? next i ≡ some none
  others : (m : ℕ) → m ≢ i → get_elem? next m ≡ get_elem? list_head m

clear-IsRound :
    (i n fuel : ℕ) (list_head : List (Option HeadList)) (entry : Option HeadList)
    → i < n
    → length list_head ≡ n
    → get_elem? list_head i ≡ some entry
    → (next : List (Option HeadList)) × IsRound i n fuel list_head next
unfolding destroy_formats_loop pfs_del_proto_link_list
clear-IsRound i n fuel list_head none low width there = (
  list_head,
  record {
    width = width;
    goes_on = ground (arith, low, there);
    cleared = there;
    others = λ m h. refl;
  },
)
clear-IsRound i n fuel list_head (some hl) low width there =
    let emptied = set list_head i (some (pfs_del_list_for_each hl)) in
    (
      set emptied i none,
      record {
        width =
            length-set emptied i none
            ∙ length-set list_head i (some (pfs_del_list_for_each hl))
            ∙ width;
        goes_on = ground (arith, low, there);
        cleared =
            get_elem?-set_self emptied i none
              (omega (arith, low, width, length-set list_head i (some (pfs_del_list_for_each hl))));
        others = λ m h.
            get_elem?-set_ne emptied i m none (λ e. h (sym e))
            ∙ get_elem?-set_ne list_head i m (some (pfs_del_list_for_each hl)) (λ e. h (sym e));
      },
    )

-- Up to 255 formats the loop clears the entries from `i` on, and ends.
loop-cleared :
    (left i n fuel : ℕ) (list_head : List (Option HeadList))
    → i + left ≡ n
    → n ≤ 255
    → left < fuel
    → length list_head ≡ n
    → ((m : ℕ) → m < i → get_elem? list_head m ≡ some none)
    → Returns
        (destroy_formats_loop fuel n i list_head)
        λ out. (m : ℕ) → m < n → get_elem? out m ≡ some none
unfolding destroy_formats_loop
loop-cleared left i n zero list_head sum few enough width clear = absurd (omega arith)
loop-cleared zero i n (suc fuel) list_head sum few enough width clear =
    (list_head, ground (arith, sum), λ m h. clear m (omega arith))
loop-cleared (suc left) i n (suc fuel) list_head sum few enough width clear =
    let (entry, there) = get_elem?-eq-some list_head i (omega arith) in
    let (next, r) = clear-IsRound i n fuel list_head entry (omega arith) width there in
    let (out, run, all) =
      loop-cleared left (i + 1) n fuel next (omega arith) few (omega arith) r.width (λ m h.
        elim (ℕ_discrete m i) [
          | yes e ↦ ap (get_elem? next) e ∙ r.cleared
          | no other ↦ r.others m other ∙ clear m (ground arith)
        ]) in
    let same : u8 (i + 1) ≡ i + 1 = omega arith in
    (out, r.goes_on ∙ ap (λ k. destroy_formats_loop fuel n k next) same ∙ run, all)

-- From 256 formats on it never ends.
loop-endless :
    (fuel i n : ℕ) (list_head : List (Option HeadList))
    → i < 256
    → 255 < n
    → length list_head ≡ n
    → destroy_formats_loop fuel n i list_head ≡ fault out_of_fuel
unfolding destroy_formats_loop
loop-endless zero i n list_head low many width = refl
loop-endless (suc fuel) i n list_head low many width =
    let (entry, there) = get_elem?-eq-some list_head i (omega arith) in
    let (next, r) = clear-IsRound i n fuel list_head entry (omega arith) width there in
    r.goes_on ∙ loop-endless fuel (u8 (i + 1)) n next (omega arith) many r.width

module _ (pfp : FormatSet) {list_head : List (Option HeadList)}
    (has_table : pfp.list_head_p2 ≡ some list_head)
    (width : length list_head ≡ pfp.proto_max_num) where
  -- A table of at most 255 formats is cleared within one round more than it has entries.
  pub pfs_destroy_protocol_format_set-cleared :
      (fuel : ℕ)
      → pfp.proto_max_num ≤ 255
      → pfp.proto_max_num < fuel
      → Returns (pfs_destroy_protocol_format_set fuel pfp) λ left.
        (out : List (Option HeadList)) × (left ≡ some out)
        × ((m : ℕ) → m < pfp.proto_max_num → get_elem? out m ≡ some none)
  unfolding pfs_destroy_protocol_format_set
  pfs_destroy_protocol_format_set-cleared fuel few enough =
      let (out, run, all) =
        loop-cleared pfp.proto_max_num 0 pfp.proto_max_num fuel list_head (omega arith) few enough
          width (λ m h. absurd (omega arith)) in
      (some out, ground (arith, has_table, run), (out, refl, all))

  -- For a table of 256 formats or more the call never ends, since its index wraps around.
  pub pfs_destroy_protocol_format_set-endless :
      (fuel : ℕ)
      → 255 < pfp.proto_max_num
      → pfs_destroy_protocol_format_set fuel pfp ≡ fault out_of_fuel
  unfolding pfs_destroy_protocol_format_set
  pfs_destroy_protocol_format_set-endless fuel many =
      let run = loop-endless fuel 0 pfp.proto_max_num list_head (omega arith) many width in
      ground (arith, has_table, run)
