-- ===== src/LinkList/Push.antt =====
-- Pushing to the two ends of a valid linked list.
use linux_char_driver_frame.Base.{
  ℕ, ◌+◌, ◌<◌, ◌≡◌, ◌≢◌, refl, ap, ◌∙◌, arith, false, List, [], ◌∷◌, ◌++◌, length-append, some, ok,
  u32, ◌==◌, if◌then◌else◌, Returns,
}
use linux_char_driver_frame.HashMap.{read_bytes}
use linux_char_driver_frame.LinkList.{
  LlistNode, Llist, first_addr, last_addr, list_add, llist_insert, llist_push_back,
  llist_push_front,
}
use linux_char_driver_frame.LinkList.Shape.{
  has, Distinct, IsValid, has-last_addr, last_addr-append, has-append_one, Distinct-append_one,
  insert_after-last_addr,
}

abbrev pub new_node : ℕ → List ℕ → LlistNode
new_node addr bytes = record { addr = addr; bytes = bytes }

insert_run :
    (llist : Llist) (pos addr : ℕ) (data' bytes : List ℕ) (ns : List LlistNode)
    → llist.unlinked ≡ false
    → 0 < addr
    → read_bytes llist.data_size data' ≡ ok bytes
    → list_add llist.head pos (new_node addr bytes) llist.nodes ≡ some ns
    → llist_insert llist pos data' addr
      ≡ ok (record llist {
        nodes = ns;
        begin = if pos == llist.head then addr else llist.begin;
        end = if pos == llist.end then addr else llist.end;
        list_count = u32 (llist.list_count + 1);
      })
unfolding llist_insert
insert_run llist pos addr data' bytes ns linked some_addr read added =
    ground (arith, linked, some_addr, read, added)

list_add-last_addr :
    (head : ℕ) (ns : List LlistNode) (node : LlistNode)
    → has head ns ≡ false
    → Distinct ns
    → list_add head (last_addr head ns) node ns ≡ some (ns ++ node ∷ [])
unfolding list_add
list_add-last_addr head [] node out d = ground arith
list_add-last_addr head (n ∷ ns) node out d =
    ground (arith, insert_after-last_addr n ns node d, has-last_addr n ns, out)

begin_behind :
    (head : ℕ) (ns : List LlistNode) (node : LlistNode)
    → has head ns ≡ false
    → (if last_addr head ns == head then node.addr else first_addr head ns)
      ≡ first_addr head (ns ++ node ∷ [])
begin_behind head [] node out = ground arith
begin_behind head (n ∷ ns) node out = ground (arith, has-last_addr n ns, out)

-- Pushing to the back of a valid list at a fresh address leaves a valid list with the data behind
-- all others.
pub llist_push_back-IsValid :
    {llist : Llist} (data' bytes : List ℕ) (addr : ℕ)
    → IsValid llist
    → 0 < addr
    → addr ≢ llist.head
    → has addr llist.nodes ≡ false
    → read_bytes llist.data_size data' ≡ ok bytes
    → Returns (llist_push_back llist data' addr) λ r.
      IsValid r
      × (r.nodes ≡ llist.nodes ++ new_node addr bytes ∷ [])
      × (r.head ≡ llist.head)
      × (r.data_size ≡ llist.data_size)
llist_push_back-IsValid {llist} data' bytes addr valid some_addr off_head fresh read =
    let node = new_node addr bytes in
    let ns = llist.nodes ++ node ∷ [] in
    let added : list_add llist.head llist.end node llist.nodes ≡ some ns =
      ap (λ p. list_add llist.head p node llist.nodes) valid.at_end
      ∙ list_add-last_addr llist.head llist.nodes node valid.apart valid.distinct in
    (
      _,
      insert_run llist llist.end addr data' bytes ns valid.linked some_addr read added,
      (
        record {
          apart = ground (arith, has-append_one llist.head llist.nodes node, valid.apart);
          distinct = Distinct-append_one llist.nodes node valid.distinct fresh;
          at_begin = ground (
            arith,
            begin_behind llist.head llist.nodes node valid.apart,
            valid.at_begin,
            valid.at_end,
          );
          at_end = ground (arith, last_addr-append llist.head llist.nodes node);
          linked = valid.linked;
          count = omega (arith, valid.count, length-append llist.nodes (node ∷ []));
        },
        refl,
        refl,
        refl,
      ),
    )

end_before :
    (head addr : ℕ) (ns : List LlistNode)
    → has head ns ≡ false
    → (if head == last_addr head ns then addr else last_addr head ns) ≡ last_addr addr ns
end_before head addr [] out = ground arith
end_before head addr (n ∷ ns) out = ground (arith, has-last_addr n ns, out)

-- Pushing to the front of a valid list at a fresh address leaves a valid list with the data before
-- all others.
llist_push_front-IsValid :
    {llist : Llist} (data' bytes : List ℕ) (addr : ℕ)
    → IsValid llist
    → 0 < addr
    → addr ≢ llist.head
    → has addr llist.nodes ≡ false
    → read_bytes llist.data_size data' ≡ ok bytes
    → Returns
        (llist_push_front llist data' addr)
        λ r. IsValid r × (r.nodes ≡ new_node addr bytes ∷ llist.nodes)
unfolding list_add
llist_push_front-IsValid {llist} data' bytes addr valid some_addr off_head fresh read =
    let node = new_node addr bytes in
    (
      _,
      insert_run llist llist.head addr data' bytes (node ∷ llist.nodes) valid.linked some_addr read
          (ground arith),
      (
        record {
          apart = ground (arith, valid.apart);
          distinct = (fresh, valid.distinct);
          at_begin = ground arith;
          at_end = ground (arith, end_before llist.head addr llist.nodes valid.apart, valid.at_end);
          linked = valid.linked;
          count = omega (arith, valid.count);
        },
        refl,
      ),
    )
