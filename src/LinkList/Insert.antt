-- ===== src/LinkList/Insert.antt =====
-- What an insertion that returns does to a linked list, wherever it inserts.
use linux_char_driver_frame.Base.{
  ℕ, ◌+◌, ◌≡◌, ◌≢◌, refl, sym, ap, ap₂, ◌∙◌, arith, false, ◌||◌, ◌&&◌, Bool, true, Option, none,
  some, List, [], ◌∷◌, u32, ok, dangling, or_fault, ok-injective, inl, inr, bind-ok, or_fault-ok,
  ◌==◌, if◌then◌else◌, Bool-cases, Option-cases, some-injective,
}
use mathlib.Core.Path.{subst}
use linux_char_driver_frame.HashMap.{read_bytes}
use linux_char_driver_frame.LinkList.{
  LlistNode, Llist, first_addr, insert_after, list_add, llist_insert,
}
use linux_char_driver_frame.LinkList.Shape.{has, Distinct, IsChain}

-- A list with a node more.
data Inserted (node : LlistNode) : List LlistNode → List LlistNode → Type 0 where
  here : (ns : List LlistNode) → Inserted node ns (node ∷ ns)
  there :
      {ns ms : List LlistNode} (n : LlistNode)
      → Inserted node ns ms
      → Inserted node (n ∷ ns) (n ∷ ms)

Inserted-has :
    {node : LlistNode} {ns ms : List LlistNode} (p : ℕ)
    → Inserted node ns ms
    → has p ms ≡ ((node.addr == p) || has p ns)
Inserted-has p (here ns) = refl
Inserted-has p (there n i) = ground (arith, Inserted-has p i)

Inserted-Distinct :
    {node : LlistNode} {ns ms : List LlistNode}
    → Inserted node ns ms
    → has node.addr ns ≡ false
    → Distinct ns
    → Distinct ms
Inserted-Distinct (here ns) fresh d = (fresh, d)
Inserted-Distinct {node} (there n i) fresh d = (
  ground (arith, Inserted-has n.addr i, d.0, fresh),
  Inserted-Distinct i (ground (arith, fresh)) d.1,
)

-- `insert_after` puts the node behind the one at an address, so that the first one stays.
insert_after-Inserted :
    (p : ℕ) (node : LlistNode) (ns ms : List LlistNode)
    → insert_after p node ns ≡ some ms
    → Inserted node ns ms × ((head : ℕ) → first_addr head ms ≡ first_addr head ns)
unfolding insert_after
insert_after-Inserted p node [] ms e = absurd cc
insert_after-Inserted p node (n ∷ ns) ms e = elim (Bool-cases (n.addr == p)) [
  | inl at ↦
      let is : n ∷ node ∷ ns ≡ ms = some-injective (ground (arith, at, e)) in
      subst
        (λ xs.
          Inserted node (n ∷ ns) xs × ((head : ℕ) → first_addr head xs ≡ first_addr head (n ∷ ns)))
        is (there n (here ns), λ head. refl)
  | inr past ↦ elim (Option-cases (insert_after p node ns)) [
    | inl missing ↦ absurd (ground (arith, past, missing, e))
    | inr (rest, found) ↦
        let is : n ∷ rest ≡ ms = some-injective (ground (arith, past, found, e)) in
        subst
          (λ xs.
            Inserted node (n ∷ ns) xs
            × ((head : ℕ) → first_addr head xs ≡ first_addr head (n ∷ ns)))
          is (there n (insert_after-Inserted p node ns rest found).0, λ head. refl)
  ]
]

list_add-Inserted :
    (head p : ℕ) (node : LlistNode) (ns ms : List LlistNode)
    → list_add head p node ns ≡ some ms
    → Inserted node ns ms
      × ((if p == head then node.addr else first_addr head ns) ≡ first_addr head ms)
unfolding list_add
list_add-Inserted head p node ns ms e = elim (Bool-cases (p == head)) [
  | inl front ↦
      let is : node ∷ ns ≡ ms = some-injective (ground (arith, front, e)) in
      (subst (Inserted node ns) is (here ns), ground (arith, front, ap (first_addr head) is))
  | inr behind ↦
      let (i, first) = insert_after-Inserted p node ns ms (ground (arith, behind, e)) in
      (i, ground (arith, behind, first head))
]

unless-some :
    (b : Bool) {o : Option (List LlistNode)} {ns : List LlistNode}
    → (if b then none else o) ≡ some ns
    → o ≡ some ns
unless-some true h = absurd cc
unless-some false h = h

-- What an insertion that returns has done.
llist_insert-ok :
    (llist llist' : Llist) (pos addr : ℕ) (data' : List ℕ)
    → llist_insert llist pos data' addr ≡ ok llist'
    → (bytes : List ℕ) × (ns : List LlistNode) × (list_add llist.head pos
          (record { addr = addr; bytes = bytes })
          llist.nodes
        ≡ some ns)
      × (llist' ≡ record llist {
        nodes = ns;
        begin = if pos == llist.head then addr else llist.begin;
        end = if pos == llist.end then addr else llist.end;
        list_count = u32 (llist.list_count + 1);
      })
unfolding llist_insert
llist_insert-ok llist llist' pos addr data' run = elim (Bool-cases (addr == 0)) [
  | inl null ↦ absurd (ground (arith, null, run))
  | inr some_addr ↦
      let run' = rw (some_addr, llist_insert) at run in
      let (bytes, read, run₂) = bind-ok (read_bytes llist.data_size data') _ run' in
      let (ns, added, run₃) =
        bind-ok
          (or_fault dangling (
            if llist.unlinked && pos == llist.head
            then none
            else list_add llist.head pos (record { addr = addr; bytes = bytes }) llist.nodes))
          _ run₂ in
      (
        bytes,
        ns,
        unless-some (llist.unlinked && pos == llist.head) (or_fault-ok dangling _ added),
        sym (ok-injective run₃),
      )
]

-- An insertion that returns at a fresh address leaves a chain.
pub llist_insert-IsChain :
    {llist llist' : Llist} (pos addr : ℕ) (data' : List ℕ)
    → IsChain llist
    → addr ≢ llist.head
    → has addr llist.nodes ≡ false
    → llist_insert llist pos data' addr ≡ ok llist'
    → IsChain llist'
llist_insert-IsChain {llist} {llist'} pos addr data' chain off fresh run =
    let (bytes, ns, added, is) = llist_insert-ok llist llist' pos addr data' run in
    let (i, first) =
      list_add-Inserted llist.head pos (record { addr = addr; bytes = bytes }) llist.nodes ns
        added in
    let head : llist'.head ≡ llist.head = ap (λ (l : Llist). l.head) is in
    let nodes : llist'.nodes ≡ ns = ap (λ (l : Llist). l.nodes) is in
    let begin : llist'.begin ≡ (if pos == llist.head then addr else llist.begin) =
      ap (λ (l : Llist). l.begin) is in
    record {
      apart =
          ap (λ h. has h llist'.nodes) head
          ∙ ap (has llist.head) nodes
          ∙ Inserted-has llist.head i
          ∙ ground (arith, off, chain.apart);
      distinct = subst Distinct (sym nodes) (Inserted-Distinct i fresh chain.distinct);
      at_begin =
          begin
          ∙ ap (λ b. if pos == llist.head then addr else b) chain.at_begin
          ∙ first
          ∙ ap₂ first_addr (sym head) (sym nodes);
    }
