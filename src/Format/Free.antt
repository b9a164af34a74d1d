-- ===== src/Format/Free.antt =====
-- What the deletion of a list of fields gives back to the allocator: `pfs_del_list`,
-- `pfs_release_head_list` and `pfs_del_list_for_each` of
-- driver/libproto_analyzer/protocol_format_set.c.
use linux_char_driver_frame.Base.{
  ℕ, ◌<◌, ◌≡◌, refl, arith, true, Option, some, none, List, [], ◌∷◌, ◌++◌, length, Run, ok,
  dangling, or_fault, ◌>>=◌, sub8, ltb, ◌==◌, ==_iff, if◌then◌else◌,
}
use linux_char_driver_frame.Format.Info.{ProtoInfo}
use linux_char_driver_frame.Format.{
  HeadList, list_del, pfs_del_list, del_loop, pfs_del_list_for_each,
}

-- What is given back: the buffer of the entry at an address, the entry, or the head of the list.
pub data Freed : Type 0 where
  buffer entry : (addr : ℕ) → Freed
  head_list : Freed

-- The entry around the links at an address.
unfoldable pub entry_at : ℕ → List ProtoInfo → Option ProtoInfo
entry_at p [] = none
entry_at p (info ∷ infos) =
    let rest = entry_at p infos in if info.addr == p then some info else rest

unfoldable pub pfs_del_list_frees : ℕ → HeadList → Run (List Freed)
pfs_del_list_frees p hl = do
  info ← or_fault dangling (entry_at p hl.infos)
  ok (if ltb 0 info.buf_len then buffer p ∷ entry p ∷ [] else entry p ∷ [])

-- The rounds of `pfs_del_list_for_each`, each of which deletes an entry that the list had.
unfoldable pub del_loop_frees : List ProtoInfo → HeadList → Run (HeadList × List Freed)
del_loop_frees [] hl = ok (hl, [])
del_loop_frees (info ∷ infos) hl = pfs_del_list_frees info.addr hl >>= λ frees.
    del_loop_frees infos (pfs_del_list info.addr hl) >>= λ r. ok (r.0, frees ++ r.1)

unfoldable pub pfs_release_head_list : List Freed
pfs_release_head_list = head_list ∷ []

unfoldable pub pfs_del_list_for_each_frees : HeadList → Run (HeadList × List Freed)
pfs_del_list_for_each_frees hl =
    del_loop_frees hl.infos hl >>= λ r. ok (r.0, r.1 ++ pfs_release_head_list)

-- What is to be freed of the entries: the buffer of each that has one, and the entry.
abbrev pub all_of : List ProtoInfo → List Freed
all_of [] = []
all_of (info ∷ infos) =
    (if ltb 0 info.buf_len then buffer info.addr ∷ entry info.addr ∷ [] else entry info.addr ∷ [])
    ++ all_of infos

here_lem : (n : ℕ) → (n == n) ≡ true
here_lem n = (==_iff n n).1 refl

del_loop_frees-all_of :
    (infos : List ProtoInfo) (hl : HeadList)
    → hl.infos ≡ infos
    → hl.list_count ≡ length infos
    → length infos < 256
    → del_loop_frees infos hl ≡ ok (record { list_count = 0; infos = [] }, all_of infos)
unfolding del_loop_frees pfs_del_list_frees pfs_del_list entry_at list_del
del_loop_frees-all_of [] hl e c small = rw (← e, ← c) refl
del_loop_frees-all_of (info ∷ infos) hl e c small =
    rw
      (
        e,
        here_lem info.addr,
        del_loop_frees-all_of infos (record { list_count = sub8 hl.list_count 1; infos = infos })
            refl (omega (arith, c)) (omega arith),
      )
      refl

del_loop-empty :
    (infos : List ProtoInfo) (hl : HeadList)
    → hl.infos ≡ infos
    → hl.list_count ≡ length infos
    → length infos < 256
    → del_loop infos hl ≡ record { list_count = 0; infos = [] }
unfolding del_loop pfs_del_list list_del
del_loop-empty [] hl e c small = rw (← e, ← c) refl
del_loop-empty (info ∷ infos) hl e c small =
    rw (e, here_lem info.addr)
      (del_loop-empty infos (record { list_count = sub8 hl.list_count 1; infos = infos }) refl
        (omega (arith, c)) (omega arith))

-- Deleting a list of less than 256 fields, whose count is their number, empties it, and gives back
-- each buffer and each entry once, in the order of the list, and then the head of the list, from
-- which the deletion read until then.
pub pfs_del_list_for_each-all_of :
    (hl : HeadList)
    → hl.list_count ≡ length hl.infos
    → length hl.infos < 256
    → (pfs_del_list_for_each hl ≡ record { list_count = 0; infos = [] })
      × (pfs_del_list_for_each_frees hl
          ≡ ok (pfs_del_list_for_each hl, all_of hl.infos ++ head_list ∷ []))
unfolding pfs_del_list_for_each pfs_del_list_for_each_frees pfs_release_head_list
pfs_del_list_for_each-all_of hl c small =
    let empty = del_loop-empty hl.infos hl refl c small in
    (empty, rw (empty, del_loop_frees-all_of hl.infos hl refl c small) refl)
