-- ===== src/LinkList/Pop.antt =====
-- Taking the first node off a valid linked list.
use linux_char_driver_frame.Base.{
  ℕ, suc, ◌^◌, ◌<◌, ◌≡◌, refl, sym, ap, ◌∙◌, arith, false, List, [], ◌∷◌, length, ok, fault,
  dangling, sub32, Returns,
}
use mathlib.Core.Path.{subst}
use linux_char_driver_frame.HashMap.{read_bytes}
use linux_char_driver_frame.LinkList.{
  LlistNode, Llist, first_addr, last_addr, follow, precede, find_node, llist_unlink, llist_pos_next,
  llist_pos_prev, insert_after, list_add, llist_insert, llist_detach, llist_detach_head,
  llist_detach_front, llist_push_back,
}
use linux_char_driver_frame.LinkList.Shape.{has, Distinct, IsValid, IsChain, IsValid-IsChain}

-- What a detachment of the first node does to a list whose begin is right.
pub detach_run :
    (llist : Llist) (n : LlistNode) (ns : List LlistNode)
    → llist.nodes ≡ n ∷ ns
    → IsChain llist
    → llist_detach_front llist
      ≡ ok (
        record llist {
          nodes = ns;
          begin = first_addr llist.head ns;
          list_count = sub32 llist.list_count 1;
        },
        n,
      )
unfolding llist_detach llist_pos_next llist_pos_prev find_node follow precede llist_unlink
detach_run llist n ns e valid =
    let at_begin : llist.begin ≡ n.addr = valid.at_begin ∙ ap (first_addr llist.head) e in
    let off_head : has llist.head (n ∷ ns) ≡ false = sym (ap (has llist.head) e) ∙ valid.apart in
    ground (arith, e, at_begin, off_head)

-- Where `begin` is at the head, the head is taken out.
pub detach_front-empty :
    (llist : Llist) → llist.begin ≡ llist.head → llist_detach_front llist ≡ llist_detach_head llist
unfolding llist_detach
detach_front-empty llist at_head = ground (arith, at_head)

-- Detaching the first of two nodes or more gives it, and leaves a valid list of the others.
pub llist_detach_front-IsValid :
    {llist : Llist} (n m : LlistNode) (ns : List LlistNode)
    → IsValid llist
    → llist.nodes ≡ n ∷ m ∷ ns
    → length llist.nodes < 2 ^ 32
    → Returns (llist_detach_front llist) λ r.
      (r.1 ≡ n)
      × IsValid r.0
      × (r.0.nodes ≡ m ∷ ns)
      × (r.0.head ≡ llist.head)
      × (r.0.data_size ≡ llist.data_size)
llist_detach_front-IsValid {llist} n m ns valid e small =
    let off_head : has llist.head (n ∷ m ∷ ns) ≡ false =
      sym (ap (has llist.head) e) ∙ valid.apart in
    let distinct : Distinct (n ∷ m ∷ ns) = subst Distinct e valid.distinct in
    let size : length llist.nodes ≡ suc (suc (length ns)) = ap length e in
    (
      _,
      detach_run llist n (m ∷ ns) e (IsValid-IsChain valid),
      (
        refl,
        record {
          apart = ground (arith, off_head);
          distinct = distinct.1;
          at_begin = refl;
          at_end = valid.at_end ∙ ap (last_addr llist.head) e;
          linked = valid.linked;
          count = omega (arith, valid.count, size, small);
        },
        refl,
        refl,
        refl,
      ),
    )

-- Detaching the only node leaves `end` at the node that is gone, so that pushing to the back then
-- reaches a node that is not in the list.
pub llist_detach_front_only :
    {llist : Llist} (n : LlistNode) (data' bytes : List ℕ) (addr : ℕ)
    → IsValid llist
    → llist.nodes ≡ n ∷ []
    → 0 < addr
    → read_bytes llist.data_size data' ≡ ok bytes
    → Returns (llist_detach_front llist) λ r.
      (r.1 ≡ n)
      × (r.0.nodes ≡ [])
      × (r.0.begin ≡ llist.head)
      × (r.0.end ≡ n.addr)
      × (llist_push_back r.0 data' addr ≡ fault dangling)
unfolding llist_insert list_add insert_after
llist_detach_front_only {llist} n data' bytes addr valid e some_addr read =
    let at_end : llist.end ≡ n.addr = valid.at_end ∙ ap (last_addr llist.head) e in
    let off_head : has llist.head (n ∷ []) ≡ false = sym (ap (has llist.head) e) ∙ valid.apart in
    (
      _,
      detach_run llist n [] e (IsValid-IsChain valid),
      (refl, refl, refl, at_end, ground (arith, at_end, off_head, some_addr, read)),
    )
