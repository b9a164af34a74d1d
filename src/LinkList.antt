-- ===== src/LinkList.antt =====
-- The linked list of driver/libdata_structure/link_list/link_list.c with the structures of
-- driver/include/libdata_structure/link_list_struct.h.
--
-- The links are those of the kernel's circular list, with one node, `head`, that holds no data: the
-- other nodes are kept as the list of them in the order of the links behind it. A position is the
-- address of a node. The node of an insertion stands at the address that the allocator returned.
-- Unlinking `head` itself, which detaching from an empty list does, leaves poison in its two links:
-- `unlinked` says that this has happened.
pub mod Shape
pub mod Push
pub mod Pop
pub mod Insert
pub mod Walk
use linux_char_driver_frame.Base.{
  ℕ, zero, suc, ◌+◌, Bool, true, false, Option, none, some, List, [], ◌∷◌, Run, ok, fault, dangling,
  null_pointer, out_of_fuel, or_fault, ◌>>=◌, ◌&&◌, u32, sub32, ◌==◌, if◌then◌else◌,
}
use linux_char_driver_frame.HashMap.{read_bytes}

pub record LlistNode : Type 0 where
  pub addr : ℕ
  pub bytes : List ℕ

pub record Llist : Type 0 where
  pub head : ℕ
  pub nodes : List LlistNode
  pub list_count : ℕ
  pub data_size : ℕ
  pub begin : ℕ
  pub end : ℕ
  pub unlinked : Bool

-- What `list_del` leaves in the links of what it takes out: LIST_POISON1 and LIST_POISON2.
abbrev pub list_poison1 : ℕ
list_poison1 = 0x00100100

abbrev pub list_poison2 : ℕ
list_poison2 = 0x00200200

-- The first and the last node of a list, or the address that is given where there is none.
abbrev pub first_addr : ℕ → List LlistNode → ℕ
first_addr head [] = head
first_addr head (n ∷ ns) = n.addr

abbrev pub last_addr : ℕ → List LlistNode → ℕ
last_addr before [] = before
last_addr before (n ∷ ns) = last_addr n.addr ns

-- The node behind and the node before the one at an address.
unfoldable pub follow : ℕ → ℕ → List LlistNode → Option ℕ
follow head p [] = none
follow head p (n ∷ ns) = if n.addr == p then some (first_addr head ns) else follow head p ns

unfoldable pub precede : ℕ → ℕ → List LlistNode → Option ℕ
precede before p [] = none
precede before p (n ∷ ns) = if n.addr == p then some before else precede n.addr p ns

unfoldable pub llist_pos_next : Llist → ℕ → Run ℕ
llist_pos_next llist p =
    if p == llist.head
    then ok (if llist.unlinked then list_poison1 else first_addr llist.head llist.nodes)
    else or_fault dangling (follow llist.head p llist.nodes)

unfoldable pub llist_pos_prev : Llist → ℕ → Run ℕ
llist_pos_prev llist p =
    if p == llist.head
    then ok (if llist.unlinked then list_poison2 else last_addr llist.head llist.nodes)
    else or_fault dangling (precede llist.head p llist.nodes)

-- What the allocator returned is written through without a test.
unfoldable pub llist_create : ℕ → Run ℕ
llist_create p = if p == 0 then fault null_pointer else ok p

-- The list at a head that the allocator returned.
unfoldable pub llist_init : ℕ → ℕ → Run Llist
llist_init data_size p =
    if p == 0
    then fault null_pointer
    else ok (record {
      head = p;
      nodes = [];
      list_count = 0;
      data_size = data_size;
      begin = p;
      end = p;
      unlinked = false;
    })

-- `list_add` of a node behind the one at an address.
unfoldable pub insert_after : ℕ → LlistNode → List LlistNode → Option (List LlistNode)
insert_after p node [] = none
insert_after p node (n ∷ ns) =
    if n.addr == p
    then some (n ∷ node ∷ ns)
    else elim (insert_after p node ns) [ none ↦ none | some ms ↦ some (n ∷ ms) ]

unfoldable pub list_add : ℕ → ℕ → LlistNode → List LlistNode → Option (List LlistNode)
list_add head p node ns = if p == head then some (node ∷ ns) else insert_after p node ns

unfoldable pub llist_insert : Llist → ℕ → List ℕ → ℕ → Run Llist
llist_insert llist pos data' addr = elim (addr == 0) [
  | true ↦ fault null_pointer
  | false ↦ do
    bytes ← read_bytes llist.data_size data'
    ns ← or_fault dangling (
        if llist.unlinked && pos == llist.head
        then none
        else list_add llist.head pos (record { addr = addr; bytes = bytes }) llist.nodes)
    ok (record llist {
      nodes = ns;
      begin = if pos == llist.head then addr else llist.begin;
      end = if pos == llist.end then addr else llist.end;
      list_count = u32 (llist.list_count + 1);
    })
]

-- The node at an address, and the list without it.
unfoldable pub find_node : ℕ → List LlistNode → Option LlistNode
find_node p [] = none
find_node p (n ∷ ns) = if n.addr == p then some n else find_node p ns

unfoldable pub llist_unlink : ℕ → List LlistNode → List LlistNode
llist_unlink p [] = []
llist_unlink p (n ∷ ns) = if n.addr == p then ns else n ∷ llist_unlink p ns

-- Taking the head out of an empty list: the result is what surrounds the head, which has no data.
-- Its links are read for this, so that it cannot be done twice. The program never takes the head out
-- of a list that has nodes, which would stay in a ring without it: that is left as a fault here.
unfoldable pub llist_detach_head : Llist → Run (Llist × LlistNode)
llist_detach_head llist = elim llist.nodes [
  | n ∷ ns ↦ fault dangling
  | [] ↦
      if llist.unlinked
      then fault dangling
      else ok (
        record llist {
          begin = if llist.head == llist.begin then llist.head else llist.begin;
          list_count = sub32 llist.list_count 1;
          unlinked = true;
        },
        record { addr = llist.head; bytes = [] },
      )
]

-- `end` is looked at only where the node is not `begin`.
unfoldable pub llist_detach : Llist → ℕ → Run (Llist × LlistNode)
llist_detach llist pos = elim (pos == llist.head) [
  | true ↦ llist_detach_head llist
  | false ↦ do
    node ← or_fault dangling (find_node pos llist.nodes)
    next ← llist_pos_next llist pos
    prev ← llist_pos_prev llist pos
    ok (
      record llist {
        nodes = llist_unlink pos llist.nodes;
        begin = if pos == llist.begin then next else llist.begin;
        end =
            if pos == llist.begin then llist.end else if pos == llist.end then prev else llist.end;
        list_count = sub32 llist.list_count 1;
      },
      node,
    )
]

-- The same, and the node is freed. Deleting the head would free it, too, which no caller does.
unfoldable pub llist_delete : Llist → ℕ → Run Llist
llist_delete llist pos = llist_detach llist pos >>= λ r. ok r.0

abbrev pub llist_push_front : Llist → List ℕ → ℕ → Run Llist
llist_push_front llist data' addr = llist_insert llist llist.head data' addr

abbrev pub llist_push_back : Llist → List ℕ → ℕ → Run Llist
llist_push_back llist data' addr = llist_insert llist llist.end data' addr

abbrev pub llist_pop_back : Llist → Run Llist
llist_pop_back llist = llist_delete llist llist.end

abbrev pub llist_pop_front : Llist → Run Llist
llist_pop_front llist = llist_delete llist llist.begin

abbrev pub llist_detach_back : Llist → Run (Llist × LlistNode)
llist_detach_back llist = llist_detach llist llist.end

abbrev pub llist_detach_front : Llist → Run (Llist × LlistNode)
llist_detach_front llist = llist_detach llist llist.begin

-- The loop of `llist_for_each`, on fuel: the nodes that `func` is called with. `next` is read
-- before the call.
unfoldable pub llist_for_each_loop : ℕ → Llist → ℕ → ℕ → Run (List LlistNode)
llist_for_each_loop zero llist pos next = fault out_of_fuel
llist_for_each_loop (suc fuel) llist pos next = elim (pos == llist.head) [
  | true ↦ ok []
  | false ↦ do
    node ← or_fault dangling (find_node pos llist.nodes)
    next' ← llist_pos_next llist next
    rest ← llist_for_each_loop fuel llist next next'
    ok (node ∷ rest)
]

unfoldable pub llist_for_each : ℕ → Llist → Run (List LlistNode)
llist_for_each fuel llist =
    llist_pos_next llist llist.begin >>= λ next. llist_for_each_loop fuel llist llist.begin next

-- The loop of `llist_destroy`, on fuel.
unfoldable pub llist_destroy_loop : ℕ → Llist → ℕ → ℕ → Run Llist
llist_destroy_loop zero llist pos next = fault out_of_fuel
llist_destroy_loop (suc fuel) llist pos next = elim (pos == llist.head) [
  | true ↦ ok llist
  | false ↦ do
    llist' ← llist_delete llist pos
    next' ← llist_pos_next llist' next
    llist_destroy_loop fuel llist' next next'
]

-- What is left when the head is to be freed.
unfoldable pub llist_destroy : ℕ → Llist → Run Llist
llist_destroy fuel llist =
    llist_pos_next llist llist.begin >>= λ next. llist_destroy_loop fuel llist llist.begin next
