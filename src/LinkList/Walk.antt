-- ===== src/LinkList/Walk.antt =====
-- Walking over a linked list, and destroying it.
use linux_char_driver_frame.Base.{
  ℕ, zero, suc, ◌<◌, ◌≡◌, refl, sym, ap, ◌∙◌, arith, false, ◌||◌, some, List, [], ◌∷◌, ◌++◌, length,
  ok, if◌then◌else◌, sub32, Returns, ◌>>=◌,
}
use mathlib.Core.Path.{subst}
use mathlib.Core.List.{append_assoc}
use linux_char_driver_frame.LinkList.{
  LlistNode, Llist, list_poison1, first_addr, follow, find_node, llist_pos_next, llist_delete,
  llist_for_each_loop, llist_for_each, llist_destroy_loop, llist_destroy,
}
use linux_char_driver_frame.LinkList.Shape.{has, Distinct, IsChain}
use linux_char_driver_frame.LinkList.Pop.{detach_run}

has-append :
    (p : ℕ) (before ns : List LlistNode) → has p (before ++ ns) ≡ (has p before || has p ns)
has-append p [] ns = refl
has-append p (m ∷ before) ns = ground (arith, has-append p before ns)

-- The nodes before a node stand at other addresses.
Distinct-before :
    (before : List LlistNode) (n : LlistNode) (ns : List LlistNode)
    → Distinct (before ++ n ∷ ns)
    → has n.addr before ≡ false
Distinct-before [] n ns d = refl
Distinct-before (m ∷ before) n ns d =
    ground (arith, Distinct-before before n ns d.1, has-append m.addr before (n ∷ ns), d.0)

find_node-append :
    (before : List LlistNode) (n : LlistNode) (ns : List LlistNode)
    → has n.addr before ≡ false
    → find_node n.addr (before ++ n ∷ ns) ≡ some n
unfolding find_node
find_node-append [] n ns clear = ground arith
find_node-append (m ∷ before) n ns clear = ground (arith, find_node-append before n ns)

follow-append :
    (head : ℕ) (before : List LlistNode) (n : LlistNode) (ns : List LlistNode)
    → has n.addr before ≡ false
    → follow head n.addr (before ++ n ∷ ns) ≡ some (first_addr head ns)
unfolding follow
follow-append head [] n ns clear = ground arith
follow-append head (m ∷ before) n ns clear = ground (arith, follow-append head before n ns)

-- What a loop has read as the position behind that of the first of these nodes.
abbrev IsNext : ℕ → List LlistNode → ℕ → Type 0
IsNext head [] next = Unit {0}
IsNext head (n ∷ ns) next = next ≡ first_addr head ns

llist_pos_next-IsNext :
    (llist : Llist) (before ns : List LlistNode)
    → llist.nodes ≡ before ++ ns
    → has llist.head llist.nodes ≡ false
    → Distinct llist.nodes
    → Returns (llist_pos_next llist (first_addr llist.head ns)) (IsNext llist.head ns)
unfolding llist_pos_next
llist_pos_next-IsNext llist before [] e apart d =
    (if llist.unlinked then list_poison1 else first_addr llist.head llist.nodes, ground arith, tt)
llist_pos_next-IsNext llist before (n ∷ ns) e apart d =
    let clear = Distinct-before before n ns (subst Distinct e d) in
    let off : has llist.head (before ++ n ∷ ns) ≡ false = sym (ap (has llist.head) e) ∙ apart in
    let follows : follow llist.head n.addr llist.nodes ≡ some (first_addr llist.head ns) =
      ap (follow llist.head n.addr) e ∙ follow-append llist.head before n ns clear in
    (_, ground (arith, follows, off, has-append llist.head before (n ∷ ns)), refl)

for_each_loop-nodes :
    (fuel : ℕ) (llist : Llist) (before ns : List LlistNode) (next : ℕ)
    → llist.nodes ≡ before ++ ns
    → has llist.head llist.nodes ≡ false
    → Distinct llist.nodes
    → IsNext llist.head ns next
    → length ns < fuel
    → llist_for_each_loop fuel llist (first_addr llist.head ns) next ≡ ok ns
unfolding llist_for_each_loop
for_each_loop-nodes zero llist before ns next e apart d is enough = absurd (omega arith)
for_each_loop-nodes (suc fuel) llist before [] next e apart d is enough = ground arith
for_each_loop-nodes (suc fuel) llist before (n ∷ ns) next e apart d is enough =
    let clear = Distinct-before before n ns (subst Distinct e d) in
    let off : has llist.head (before ++ n ∷ ns) ≡ false = sym (ap (has llist.head) e) ∙ apart in
    let found : find_node n.addr llist.nodes ≡ some n =
      ap (find_node n.addr) e ∙ find_node-append before n ns clear in
    let e' : llist.nodes ≡ (before ++ n ∷ []) ++ ns = e ∙ sym (append_assoc before (n ∷ []) ns) in
    let (next', run, is') = llist_pos_next-IsNext llist (before ++ n ∷ []) ns e' apart d in
    let step : llist_pos_next llist next ≡ ok next' = ap (llist_pos_next llist) is ∙ run in
    let rest : llist_for_each_loop fuel llist next next' ≡ ok ns =
      ap (λ p. llist_for_each_loop fuel llist p next') is
      ∙ for_each_loop-nodes fuel llist (before ++ n ∷ []) ns next' e' apart d is' (omega arith) in
    ground (arith, found, step, rest, off, has-append llist.head before (n ∷ ns))

-- On a list whose nodes stand at addresses of their own and which begins at the first of them, with
-- fuel for one round more than there are nodes, `llist_for_each` returns, and calls the function with
-- all nodes in their order.
pub llist_for_each-nodes :
    {llist : Llist} (fuel : ℕ)
    → IsChain llist
    → length llist.nodes < fuel
    → llist_for_each fuel llist ≡ ok llist.nodes
unfolding llist_for_each
llist_for_each-nodes {llist} fuel chain enough =
    let (next, run, is) =
      llist_pos_next-IsNext llist [] llist.nodes refl chain.apart chain.distinct in
    ap (λ p. llist_pos_next llist p >>= λ q. llist_for_each_loop fuel llist p q) chain.at_begin
    ∙ ap (λ r. r >>= λ q. llist_for_each_loop fuel llist (first_addr llist.head llist.nodes) q) run
    ∙ for_each_loop-nodes fuel llist [] llist.nodes next refl chain.apart chain.distinct is enough

destroy_loop-nodes :
    (fuel : ℕ) (llist : Llist) (ns : List LlistNode) (next : ℕ)
    → llist.nodes ≡ ns
    → IsChain llist
    → IsNext llist.head ns next
    → length ns < fuel
    → Returns
        (llist_destroy_loop fuel llist llist.begin next)
        λ r. (r.nodes ≡ []) × (r.head ≡ llist.head)
unfolding llist_destroy_loop llist_delete
destroy_loop-nodes zero llist ns next e chain is enough = absurd (omega arith)
destroy_loop-nodes (suc fuel) llist [] next e chain is enough =
    let at : llist.begin ≡ llist.head = chain.at_begin ∙ ap (first_addr llist.head) e in
    (llist, ground (arith, at), (e, refl))
destroy_loop-nodes (suc fuel) llist (n ∷ ns) next e chain is enough =
    let off : has llist.head (n ∷ ns) ≡ false = sym (ap (has llist.head) e) ∙ chain.apart in
    let d : Distinct (n ∷ ns) = subst Distinct e chain.distinct in
    let at : llist.begin ≡ n.addr = chain.at_begin ∙ ap (first_addr llist.head) e in
    let left : Llist = record llist {
      nodes = ns;
      begin = first_addr llist.head ns;
      list_count = sub32 llist.list_count 1;
    } in
    let deleted : llist_delete llist llist.begin ≡ ok left =
      ap (λ r. r >>= λ x. ok x.0) (detach_run llist n ns e chain) in
    let chain' : IsChain left = record {
      apart = ground (arith, off);
      distinct = d.1;
      at_begin = refl;
    } in
    let (next', run, is') = llist_pos_next-IsNext left [] ns refl chain'.apart chain'.distinct in
    let (out, loop, rest) = destroy_loop-nodes fuel left ns next' refl chain' is' (omega arith) in
    let step : llist_pos_next left next ≡ ok next' = ap (llist_pos_next left) is ∙ run in
    let loop' : llist_destroy_loop fuel left next next' ≡ ok out =
      ap (λ p. llist_destroy_loop fuel left p next') is ∙ loop in
    (out, ground (arith, at, off, deleted, step, loop'), rest)

-- With fuel for one round more than there are nodes, `llist_destroy` returns, and no node is left.
pub llist_destroy-nodes :
    {llist : Llist} (fuel : ℕ)
    → IsChain llist
    → length llist.nodes < fuel
    → Returns (llist_destroy fuel llist) λ r. (r.nodes ≡ []) × (r.head ≡ llist.head)
unfolding llist_destroy
llist_destroy-nodes {llist} fuel chain enough =
    let (next, run, is) =
      llist_pos_next-IsNext llist [] llist.nodes refl chain.apart chain.distinct in
    let step : llist_pos_next llist llist.begin ≡ ok next =
      ap (llist_pos_next llist) chain.at_begin ∙ run in
    let (out, loop, rest) = destroy_loop-nodes fuel llist llist.nodes next refl chain is enough in
    (out, ap (λ r. r >>= λ q. llist_destroy_loop fuel llist llist.begin q) step ∙ loop, rest)
