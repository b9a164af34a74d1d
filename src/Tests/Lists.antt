-- ===== src/Tests/Lists.antt =====
-- The linked list at concrete lists of data of two bytes.
use linux_char_driver_frame.Base.{false, ◌≡◌, refl, arith, [], ◌∷◌, ok, fault, dangling, Returns}
use linux_char_driver_frame.HashMap.{read_bytes}
use linux_char_driver_frame.LinkList.{
  LlistNode, Llist, llist_push_back, llist_detach_front, llist_for_each,
}
use linux_char_driver_frame.LinkList.Shape.{IsValid, IsValid-IsChain}
use linux_char_driver_frame.LinkList.Walk.{llist_for_each-nodes}
use linux_char_driver_frame.LinkList.Push.{new_node}
use linux_char_driver_frame.LinkList.Pop.{llist_detach_front_only}

abbrev first_node : LlistNode
first_node = new_node 200 (1 ∷ 2 ∷ [])

abbrev second_node : LlistNode
second_node = new_node 300 (3 ∷ 4 ∷ [])

abbrev one : Llist
one = record {
  head = 100;
  nodes = first_node ∷ [];
  list_count = 1;
  data_size = 2;
  begin = 200;
  end = 200;
  unlinked = false;
}

one-IsValid : IsValid one
one-IsValid = record {
  apart = refl;
  distinct = (refl, tt);
  at_begin = refl;
  at_end = refl;
  linked = refl;
  count = refl;
}

abbrev two : Llist
two = record one { nodes = first_node ∷ second_node ∷ []; list_count = 2; end = 300 }

two-IsValid : IsValid two
two-IsValid = record {
  apart = refl;
  distinct = (refl, (refl, tt));
  at_begin = refl;
  at_end = refl;
  linked = refl;
  count = refl;
}

bytes_example : read_bytes 2 (7 ∷ 8 ∷ []) ≡ ok (7 ∷ 8 ∷ [])
unfolding read_bytes
bytes_example = refl

llist_detach_front_only_example : Returns (llist_detach_front one) λ r.
    (r.1 ≡ first_node)
    × (r.0.nodes ≡ [])
    × (r.0.begin ≡ one.head)
    × (r.0.end ≡ first_node.addr)
    × (llist_push_back r.0 (7 ∷ 8 ∷ []) 400 ≡ fault dangling)
llist_detach_front_only_example =
    llist_detach_front_only first_node (7 ∷ 8 ∷ []) (7 ∷ 8 ∷ []) 400 one-IsValid refl (omega arith)
      bytes_example

llist_for_each-nodes_example : llist_for_each 3 two ≡ ok two.nodes
llist_for_each-nodes_example = llist_for_each-nodes 3 (IsValid-IsChain two-IsValid) (omega arith)
