-- ===== src/LinkList/Shape.antt =====
-- The invariant of a linked list.
use linux_char_driver_frame.Base.{
  ℕ, ◌≡◌, refl, arith, Bool, true, false, ◌||◌, List, [], ◌∷◌, ◌++◌, length, some, u32, ◌==◌,
}
use linux_char_driver_frame.LinkList.{LlistNode, Llist, first_addr, last_addr, insert_after}

-- Whether a node stands at an address.
abbrev pub has : ℕ → List LlistNode → Bool
has p [] = false
has p (n ∷ ns) = (n.addr == p) || has p ns

abbrev pub Distinct : List LlistNode → Type 0
Distinct [] = Unit {0}
Distinct (n ∷ ns) = (has n.addr ns ≡ false) × Distinct ns

-- The nodes stand at addresses of their own, which are not the head's, `begin` and `end` are at the
-- first and the last of them, or at the head, which is linked,
-- and the count is their number.
pub record IsValid (llist : Llist) : Type 0 where
  pub apart : has llist.head llist.nodes ≡ false
  pub distinct : Distinct llist.nodes
  pub at_begin : llist.begin ≡ first_addr llist.head llist.nodes
  pub at_end : llist.end ≡ last_addr llist.head llist.nodes
  pub linked : llist.unlinked ≡ false
  pub count : llist.list_count ≡ u32 (length llist.nodes)

pub has-last_addr :
    (n : LlistNode) (ns : List LlistNode) → has (last_addr n.addr ns) (n ∷ ns) ≡ true
has-last_addr n [] = ground arith
has-last_addr n (m ∷ ns) = ground (arith, has-last_addr m ns)

pub last_addr-append :
    (before : ℕ) (ns : List LlistNode) (n : LlistNode) → last_addr before (ns ++ n ∷ []) ≡ n.addr
last_addr-append before [] n = refl
last_addr-append before (m ∷ ns) n = last_addr-append m.addr ns n

pub has-append_one :
    (p : ℕ) (ns : List LlistNode) (n : LlistNode)
    → has p (ns ++ n ∷ []) ≡ (has p ns || (n.addr == p))
has-append_one p [] n = ground arith
has-append_one p (m ∷ ns) n = ground (arith, has-append_one p ns n)

pub Distinct-append_one :
    (ns : List LlistNode) (n : LlistNode)
    → Distinct ns
    → has n.addr ns ≡ false
    → Distinct (ns ++ n ∷ [])
Distinct-append_one [] n d fresh = (refl, tt)
Distinct-append_one (m ∷ ns) n d fresh =
    (ground (arith, has-append_one m.addr ns n, d.0), Distinct-append_one ns n d.1 (ground arith))

-- A node behind the last one.
pub insert_after-last_addr :
    (n : LlistNode) (ns : List LlistNode) (node : LlistNode)
    → Distinct (n ∷ ns)
    → insert_after (last_addr n.addr ns) node (n ∷ ns) ≡ some (n ∷ ns ++ node ∷ [])
unfolding insert_after
insert_after-last_addr n [] node d = ground arith
insert_after-last_addr n (m ∷ ns) node d =
    ground (arith, insert_after-last_addr m ns node d.1, has-last_addr m ns, d.0)

-- A valid list, but for `end` and the count.
pub record IsChain (llist : Llist) : Type 0 where
  pub apart : has llist.head llist.nodes ≡ false
  pub distinct : Distinct llist.nodes
  pub at_begin : llist.begin ≡ first_addr llist.head llist.nodes

pub IsValid-IsChain : {llist : Llist} → IsValid llist → IsChain llist
IsValid-IsChain v = record { apart = v.apart; distinct = v.distinct; at_begin = v.at_begin }
