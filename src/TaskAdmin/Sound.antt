-- ===== src/TaskAdmin/Sound.antt =====
-- What every call on an administration that returns keeps, so that it can be destroyed.
use linux_char_driver_frame.Base.{
  ℕ, ◌+◌, ◌<◌, ◌≡◌, ◌≢◌, refl, sym, ap, ◌∙◌, arith, false, ◌&&◌, Option, List, [], ◌∷◌, length, ok,
  ok-injective, Returns, Ensures, Ensures-if, Ensures-bind, Ensures-elim, Ensures-any, ◌==◌,
  minus_one, Bool-cases, inl, inr, sub32, if◌then◌else◌, true,
}
use mathlib.Core.Path.{subst}
use linux_char_driver_frame.HashMap.{hash_map_insert, hash_map_search}
use linux_char_driver_frame.HashMap.Zipper
use linux_char_driver_frame.HashMap.Next
use linux_char_driver_frame.HashMap.Insert.{hash_map_insert-ok}
use linux_char_driver_frame.HashMap.Destroy.{hash_map_destroy-nodes}
use linux_char_driver_frame.LinkList.{
  LlistNode, Llist, first_addr, llist_detach_head, llist_detach_front,
}
use linux_char_driver_frame.LinkList.Shape.{has, Distinct, IsChain}
use linux_char_driver_frame.LinkList.Insert.{llist_insert-IsChain}
use linux_char_driver_frame.LinkList.Pop.{detach_run, detach_front-empty}
use linux_char_driver_frame.LinkList.Walk.{llist_destroy-nodes}
use linux_char_driver_frame.TaskAdmin.{
  Task, TaskAdmin, task_bytes, user_pair, add_task, get_task, slot_key, destroy_task_admin,
}

-- The lists are chains, and the maps are valid.
pub record IsSound (admin : TaskAdmin) : Type 0 where
  pub data_sys : IsChain admin.data_sys_designate_slot
  pub voice_sys : IsChain admin.voice_sys_designate_slot
  pub data_user : Next.IsValid admin.data_user_designate_slot
  pub voice_user : Next.IsValid admin.voice_user_designate_slot

-- Nothing of the administration stands at an address.
pub record IsFree (addr : ℕ) (admin : TaskAdmin) : Type 0 where
  pub data_head : addr ≢ admin.data_sys_designate_slot.head
  pub data_nodes : has addr admin.data_sys_designate_slot.nodes ≡ false
  pub voice_head : addr ≢ admin.voice_sys_designate_slot.head
  pub voice_nodes : has addr admin.voice_sys_designate_slot.nodes ≡ false
  pub data_map : Zipper.has addr (Zipper.nodes admin.data_user_designate_slot.hlist) ≡ false
  pub voice_map : Zipper.has addr (Zipper.nodes admin.voice_user_designate_slot.hlist) ≡ false

-- Whatever the task, adding it keeps an administration sound, if the node's address is free.
pub add_task-IsSound :
    {admin : TaskAdmin} (memory : ℕ → Option (List ℕ)) (addr : ℕ) (task : Task) (flag : ℕ)
    → IsSound admin
    → IsFree addr admin
    → Ensures IsSound (add_task memory addr admin task flag)
unfolding add_task
add_task-IsSound {admin} memory addr task flag sound free =
    let same : Ensures IsSound (ok admin) = λ a e. subst IsSound (ok-injective e) sound in
    Ensures-if (flag == 1)
      (Ensures-if (task.slot_type == 0 && task.type == 0)
        (Ensures-bind _
          (λ l run.
            llist_insert-IsChain admin.data_sys_designate_slot.end addr (task_bytes task)
              sound.data_sys free.data_head free.data_nodes run)
          λ l chain a e. subst IsSound (ok-injective e) (record {
            data_sys = chain;
            voice_sys = sound.voice_sys;
            data_user = sound.data_user;
            voice_user = sound.voice_user;
          }))
        (Ensures-if (task.slot_type == 0 && task.type == 1)
          (Ensures-bind _
            (λ l run.
              llist_insert-IsChain admin.voice_sys_designate_slot.end addr (task_bytes task)
                sound.voice_sys free.voice_head free.voice_nodes run)
            λ l chain a e. subst IsSound (ok-injective e) (record {
              data_sys = sound.data_sys;
              voice_sys = chain;
              data_user = sound.data_user;
              voice_user = sound.voice_user;
            }))
          (Ensures-if (task.slot_type == 1 && task.type == 0)
            (Ensures-bind _ (Ensures-any (user_pair memory admin task)) λ pair u.
              Ensures-bind (hash_map_insert admin.data_user_designate_slot pair addr)
                (λ r run. hash_map_insert-ok pair addr sound.data_user free.data_map run)
                λ r valid a e. subst IsSound (ok-injective e) (record {
                  data_sys = sound.data_sys;
                  voice_sys = sound.voice_sys;
                  data_user = valid;
                  voice_user = sound.voice_user;
                }))
            (Ensures-if (task.slot_type == 1 && task.type == 1)
              (Ensures-bind _ (Ensures-any (user_pair memory admin task)) λ pair u.
                Ensures-bind (hash_map_insert admin.voice_user_designate_slot pair addr)
                  (λ r run. hash_map_insert-ok pair addr sound.voice_user free.voice_map run)
                  λ r valid a e. subst IsSound (ok-injective e) (record {
                    data_sys = sound.data_sys;
                    voice_sys = sound.voice_sys;
                    data_user = sound.data_user;
                    voice_user = valid;
                  }))
              same))))
      same

-- Taking the head out of the empty list leaves an empty list.
detach_head-IsChain :
    (llist : Llist)
    → llist.nodes ≡ []
    → llist.begin ≡ llist.head
    → Ensures (λ r. IsChain r.0) (llist_detach_head llist)
unfolding llist_detach_head
detach_head-IsChain llist e at_head r run = elim (Bool-cases llist.unlinked) [
  | inl gone ↦ absurd (ground (arith, e, gone, run))
  | inr linked ↦
      let out : Llist = record llist {
        begin = if llist.head == llist.begin then llist.head else llist.begin;
        list_count = sub32 llist.list_count 1;
        unlinked = true;
      } in
      let is : (out, record { addr = llist.head; bytes = [] }) ≡ r =
        ok-injective (sym (rw (e, linked) refl) ∙ run) in
      subst (λ (x : Llist × LlistNode). IsChain x.0) is
        (record {
          apart = ap (has llist.head) e;
          distinct = subst Distinct (sym e) tt;
          at_begin = ground (arith, at_head, ap (first_addr llist.head) e);
        })
]

detach_front-IsChain :
    (llist : Llist) (ns : List LlistNode)
    → llist.nodes ≡ ns
    → IsChain llist
    → Ensures (λ r. IsChain r.0) (llist_detach_front llist)
detach_front-IsChain llist [] e chain r run =
    let at_head : llist.begin ≡ llist.head = chain.at_begin ∙ ap (first_addr llist.head) e in
    detach_head-IsChain llist e at_head r (sym (detach_front-empty llist at_head) ∙ run)
detach_front-IsChain llist (n ∷ ns) e chain r run =
    let off : has llist.head (n ∷ ns) ≡ false = sym (ap (has llist.head) e) ∙ chain.apart in
    let d : Distinct (n ∷ ns) = subst Distinct e chain.distinct in
    subst (λ (x : Llist × LlistNode). IsChain x.0)
      (ok-injective (sym (detach_run llist n ns e chain) ∙ run))
      (record { apart = ground (arith, off); distinct = d.1; at_begin = refl })

-- Fetching keeps it sound.
pub get_task-IsSound :
    {admin : TaskAdmin} (flag slot_num : ℕ)
    → IsSound admin
    → Ensures (λ r. IsSound r.0) (get_task admin flag slot_num)
unfolding get_task
get_task-IsSound {admin} flag slot_num sound =
    let same : (v : ℕ) → Ensures (λ (r : TaskAdmin × ℕ). IsSound r.0) (ok (admin, v)) =
      λ v a e. subst (λ (r : TaskAdmin × ℕ). IsSound r.0) (ok-injective e) sound in
    Ensures-if (flag == 1)
      (Ensures-bind _
        (Ensures-any (hash_map_search admin.data_user_designate_slot (slot_key slot_num)))
        λ pos u.
          Ensures-elim (pos.hlist_node_p == 0)
            (Ensures-bind _
              (detach_front-IsChain admin.data_sys_designate_slot _ refl sound.data_sys)
              λ r chain a e.
                subst (λ (r : TaskAdmin × ℕ). IsSound r.0) (ok-injective e)
                  (record {
                    data_sys = chain;
                    voice_sys = sound.voice_sys;
                    data_user = sound.data_user;
                    voice_user = sound.voice_user;
                  }))
            (same 1))
      (same minus_one)

-- How many tasks wait.
abbrev pub waiting : TaskAdmin → ℕ
waiting admin =
    length admin.data_sys_designate_slot.nodes
    + length admin.voice_sys_designate_slot.nodes
    + length (Zipper.nodes admin.data_user_designate_slot.hlist)
    + length (Zipper.nodes admin.voice_user_designate_slot.hlist)

-- A sound administration is destroyed with fuel for one round more than there are tasks, and none
-- is left.
pub destroy_task_admin-IsSound :
    {admin : TaskAdmin} (fuel : ℕ)
    → IsSound admin
    → waiting admin < fuel
    → Returns (destroy_task_admin fuel admin) λ gone. waiting gone ≡ 0
unfolding destroy_task_admin
destroy_task_admin-IsSound {admin} fuel sound enough =
    let (vu, run₁, none₁) =
      (hash_map_destroy-nodes admin.voice_user_designate_slot fuel sound.voice_user
        (omega arith)).1 in
    let (du, run₂, none₂) =
      (hash_map_destroy-nodes admin.data_user_designate_slot fuel sound.data_user
        (omega arith)).1 in
    let (vs, run₃, (none₃, h₃)) = llist_destroy-nodes fuel sound.voice_sys (omega arith) in
    let (ds, run₄, (none₄, h₄)) = llist_destroy-nodes fuel sound.data_sys (omega arith) in
    (
      record admin {
        voice_user_designate_slot = vu;
        data_user_designate_slot = du;
        voice_sys_designate_slot = vs;
        data_sys_designate_slot = ds;
      },
      rw (run₁, run₂, run₃, run₄) refl,
      omega (
        arith,
        ap length none₃,
        ap length none₄,
        ap (λ cs. length (Zipper.nodes cs)) none₁,
        ap (λ cs. length (Zipper.nodes cs)) none₂,
      ),
    )
