-- ===== src/Format.antt =====
-- The formats of the messages: driver/libproto_analyzer/protocol_format_set.c with the structures
-- of driver/include/libproto_analyzer/protocol_format_set.h.
--
-- A list of fields is the list of its entries in the order of the links, each with its address.
-- What the allocator returns is an argument.
pub mod Number
pub mod Info
pub mod Destroy
pub mod Free
use linux_char_driver_frame.Base.{
  ℕ, zero, suc, ◌+◌, ◌-◌, ◌*◌, ◌/◌, Bool, true, false, Option, none, some, List, [], ◌∷◌, ◌++◌,
  replicate, set, Run, ok, fault, null_pointer, or_fault, load, store, ◌>>=◌, u8, u16, u32, sub8,
  minus_one, ltb, leb, ◌==◌, if◌then◌else◌,
}
use linux_char_driver_frame.Format.Info.{
  ProtoInfo, blank_info, set_proto_info_attribs, name_str, byte_pos_str, bit_pos_str, len_str,
  len_unit_str, vlenth_index_str, value_str,
}

pub record HeadList : Type 0 where
  pub list_count : ℕ
  pub infos : List ProtoInfo

pub record FormatSet : Type 0 where
  pub list_head_p2 : Option (List (Option HeadList))
  pub proto_total_num : ℕ
  pub proto_max_num : ℕ
  pub proto_base_addr : ℕ

-- A list after `pfs_init_head_list`.
abbrev pub blank_list : HeadList
blank_list = record { list_count = 0; infos = [] }

-- The address of the head, or 0 where the allocator has none.
unfoldable pub pfs_create_head_list : ℕ → ℕ
pfs_create_head_list addr = if addr == 0 then 0 else addr

-- The address around the links is written through without a test.
unfoldable pub pfs_init_head_list : ℕ → Run HeadList
pfs_init_head_list addr = if addr == 0 then fault null_pointer else ok blank_list

unfoldable pub pfs_add_list : ProtoInfo → HeadList → HeadList
pfs_add_list info hl = record { list_count = u8 (hl.list_count + 1); infos = hl.infos ++ info ∷ [] }

-- `list_del` of the entry at an address.
unfoldable pub list_del : ℕ → List ProtoInfo → List ProtoInfo
list_del p [] = []
list_del p (info ∷ infos) = if info.addr == p then infos else info ∷ list_del p infos

unfoldable pub pfs_del_list : ℕ → HeadList → HeadList
pfs_del_list p hl = record { list_count = sub8 hl.list_count 1; infos = list_del p hl.infos }

-- The loop of `pfs_del_list_for_each` over the entries that the list had.
unfoldable pub del_loop : List ProtoInfo → HeadList → HeadList
del_loop [] hl = hl
del_loop (info ∷ infos) hl = del_loop infos (pfs_del_list info.addr hl)

unfoldable pub pfs_del_list_for_each : HeadList → HeadList
pfs_del_list_for_each hl = del_loop hl.infos hl

-- The macro PFS_SET_PROTO_INFO at the address that the allocator returned: the entry and the list.
unfoldable pub pfs_set_proto_info :
    ℕ
    → Option (List ℕ)
    → Option (List ℕ)
    → Option (List ℕ)
    → Option (List ℕ)
    → Option (List ℕ)
    → Option (List ℕ)
    → HeadList
    → Run (HeadList × ℕ)
pfs_set_proto_info addr name_value byte_pos_value bit_pos_value len_value len_unit_value
      vlenth_index_value hl =
    elim (addr == 0) [
      | true ↦ ok (hl, 0)
      | false ↦ do
        a ← set_proto_info_attribs name_str name_value (blank_info addr)
        b ← set_proto_info_attribs byte_pos_str byte_pos_value a
        c ← set_proto_info_attribs bit_pos_str bit_pos_value b
        d ← set_proto_info_attribs len_str len_value c
        e ← set_proto_info_attribs len_unit_str len_unit_value d
        f ← set_proto_info_attribs vlenth_index_str vlenth_index_value e
        ok (pfs_add_list f hl, addr)
    ]

-- What the allocator returned is written through without a test that ends the call.
unfoldable pub pfs_create_proto_format_set : ℕ → Run FormatSet
pfs_create_proto_format_set p =
    if p == 0
    then fault null_pointer
    else ok (record {
      list_head_p2 = none;
      proto_total_num = 0;
      proto_max_num = 0;
      proto_base_addr = 0;
    })

-- The table of `max_proto_num` entries, all NULL.
unfoldable pub with_table : ℕ → ℕ → FormatSet → FormatSet
with_table proto_base_addr max_proto_num pfs = record pfs {
  list_head_p2 = some (replicate max_proto_num none);
  proto_total_num = 0;
  proto_max_num = max_proto_num;
  proto_base_addr = proto_base_addr;
}

-- The table at the address that the allocator returned, which is written through without a test.
unfoldable pub init_proto_format_set : ℕ → ℕ → ℕ → FormatSet → Run FormatSet
init_proto_format_set addr proto_base_addr max_proto_num pfs =
    if addr == 0 then fault null_pointer else ok (with_table proto_base_addr max_proto_num pfs)

-- The limit is 200, whatever the size of the table.
unfoldable pub pfs_add_proto_link_list : ℕ → Option HeadList → FormatSet → Run (FormatSet × ℕ)
pfs_add_proto_link_list llist_num none pfs = ok (pfs, minus_one)
pfs_add_proto_link_list llist_num (some new_proto_llist) pfs =
    if ltb 200 llist_num
    then ok (pfs, minus_one)
    else (or_fault null_pointer pfs.list_head_p2 >>= λ list_head.
        store list_head llist_num (some new_proto_llist) >>= λ list_head'. ok (
          record pfs {
            list_head_p2 = some list_head';
            proto_total_num = u32 (pfs.proto_total_num + 1);
          },
          0,
        ))
