-- ===== src/TaskAdmin/Keeps.antt =====
-- A linked list that keeps a queue of tasks.
use linux_char_driver_frame.Base.{
  ℕ, ◌+◌, ◌^◌, ◌≤◌, ◌<◌, ◌≡◌, ◌≢◌, refl, sym, ap, ◌∙◌, arith, false, List, [], ◌∷◌, ◌++◌, map,
  length, length-append, Returns,
}
use mathlib.Core.List.{tail, map-append}
use linux_char_driver_frame.HashMap.{read_bytes}
use linux_char_driver_frame.LinkList.{LlistNode, Llist, llist_push_back, llist_detach_front}
use linux_char_driver_frame.LinkList.Shape.{IsValid, has, has-append_one}
use linux_char_driver_frame.LinkList.Push.{new_node, llist_push_back-IsValid}
use linux_char_driver_frame.LinkList.Pop.{llist_detach_front-IsValid}
use linux_char_driver_frame.TaskAdmin.{Task, task_bytes, task_size}

-- The bytes of the nodes are those of the tasks, in their order. The addresses that the allocator
-- returns from its call `i` on are new.
pub record Keeps (alloc : ℕ → ℕ) (i : ℕ) (tasks : List Task) (llist : Llist) : Type 0 where
  pub valid : IsValid llist
  pub size : llist.data_size ≡ task_size
  pub contents : map (λ (n : LlistNode). n.bytes) llist.nodes ≡ map task_bytes tasks
  pub fresh : (j : ℕ) → i ≤ j → (alloc j ≢ llist.head) × (has (alloc j) llist.nodes ≡ false)
  pub alive : has 0 llist.nodes ≡ false
  pub few : length llist.nodes ≤ i

-- What a list of two contents or more looks like.
two_nodes :
    (ns : List LlistNode) (a b : List ℕ) (rest : List (List ℕ))
    → map (λ (n : LlistNode). n.bytes) ns ≡ a ∷ b ∷ rest
    → (n : LlistNode) × (m : LlistNode) × (ms : List LlistNode) × (ns ≡ n ∷ m ∷ ms)
      × (map (λ (n : LlistNode). n.bytes) (m ∷ ms) ≡ b ∷ rest)
two_nodes [] a b rest e = absurd (omega (arith, ap length e))
two_nodes (n ∷ []) a b rest e = absurd (omega (arith, ap length e))
two_nodes (n ∷ m ∷ ms) a b rest e = (n, m, ms, refl, ap tail e)

module _ {alloc : ℕ → ℕ} {i : ℕ} {tasks : List Task} {llist : Llist} where
  pub later : Keeps alloc i tasks llist → Keeps alloc (i + 1) tasks llist
  later k = record {
    valid = k.valid;
    size = k.size;
    contents = k.contents;
    fresh = λ j h. k.fresh j (omega arith);
    alive = k.alive;
    few = omega (arith, k.few);
  }

  pub push-Keeps :
      (task : Task)
      → ((j : ℕ) → 0 < alloc j)
      → ((j k : ℕ) → j < k → alloc j ≢ alloc k)
      → Keeps alloc i tasks llist
      → Returns
          (llist_push_back llist (task_bytes task) (alloc i))
          (Keeps alloc (i + 1) (tasks ++ task ∷ []))
  unfolding task_bytes read_bytes
  push-Keeps task pos apart k =
      let bytes = task_bytes task in
      let (llist', e, (valid, nodes, head, size)) =
        llist_push_back-IsValid bytes bytes (alloc i) k.valid (pos i) (k.fresh i (omega arith)).0
          (k.fresh i (omega arith)).1 (ap (λ n. read_bytes n bytes) k.size) in
      (
        llist',
        e,
        record {
          valid = valid;
          size = size ∙ k.size;
          contents =
              ap (map (λ (n : LlistNode). n.bytes)) nodes
              ∙ map-append (λ (n : LlistNode). n.bytes) llist.nodes (new_node (alloc i) bytes ∷ [])
              ∙ ap (λ bs. bs ++ bytes ∷ []) k.contents
              ∙ sym (map-append task_bytes tasks (task ∷ []));
          fresh = λ j h. (
            (λ e'. (k.fresh j (omega arith)).0 (e' ∙ head)),
            ap (has (alloc j)) nodes
                ∙ has-append_one (alloc j) llist.nodes (new_node (alloc i) bytes)
                ∙ ground (arith, (k.fresh j (omega arith)).1, apart i j (omega arith)),
          );
          alive =
              ap (has 0) nodes
              ∙ has-append_one 0 llist.nodes (new_node (alloc i) bytes)
              ∙ ground (arith, k.alive, pos i);
          few = omega (
            arith,
            ap length nodes,
            length-append llist.nodes (new_node (alloc i) bytes ∷ []),
            k.few,
          );
        },
      )

module _ {alloc : ℕ → ℕ} {i : ℕ} {llist : Llist} where
  pub pop-Keeps :
      (t u : Task) (us : List Task)
      → i < 2 ^ 32
      → Keeps alloc i (t ∷ u ∷ us) llist
      → Returns (llist_detach_front llist) λ r. (0 < r.1.addr) × Keeps alloc i (u ∷ us) r.0
  pop-Keeps t u us small k =
      let (n, m, ms, nodes, rest) =
        two_nodes llist.nodes (task_bytes t) (task_bytes u) (map task_bytes us) k.contents in
      let (r, e, (node, valid, left, head, size)) =
        llist_detach_front-IsValid n m ms k.valid nodes (omega (arith, k.few)) in
      let alive : has 0 (n ∷ m ∷ ms) ≡ false = sym (ap (has 0) nodes) ∙ k.alive in
      let addr : r.1.addr ≡ n.addr = ap (λ (x : LlistNode). x.addr) node in
      (
        r,
        e,
        (
          ground (arith, alive, addr),
          record {
            valid = valid;
            size = size ∙ k.size;
            contents = ap (map (λ (n : LlistNode). n.bytes)) left ∙ rest;
            fresh = λ j h.
                let clear : has (alloc j) (n ∷ m ∷ ms) ≡ false =
                  sym (ap (has (alloc j)) nodes) ∙ (k.fresh j h).1 in
                (
                  (λ e'. (k.fresh j h).0 (e' ∙ head)),
                  ap (has (alloc j)) left ∙ ground (arith, clear),
                );
            alive = ap (has 0) left ∙ ground (arith, alive);
            few = omega (arith, ap length left, ap length nodes, k.few);
          },
        ),
      )
