-- ===== src/TaskAdmin/Errors.antt =====
-- Calls on tasks that leave defined behaviour.
use linux_char_driver_frame.Base.{
  sub32, ap₂, ◌==◌, ◌>>=◌, if◌then◌else◌, false, true, minus_one, ok, u32, ◌∙◌, ◌<◌, ℕ, ◌≤◌, ◌≡◌,
  refl, ap, ◌∷◌, map, arith, Option, none, List, [], fault, dangling, length,
}
use linux_char_driver_frame.HashMap.{bad_pointer, read_bytes}
use linux_char_driver_frame.LinkList.{
  llist_push_back, llist_detach_front, LlistNode, Llist, first_addr, last_addr, llist_insert,
  llist_detach_head, llist_detach,
}
use linux_char_driver_frame.LinkList.Pop.{detach_front-empty}
use linux_char_driver_frame.TaskAdmin.{
  Task, TaskAdmin, task_size, task_bytes, user_pair, add_task, get_task,
}
use linux_char_driver_frame.TaskAdmin.Refine.{Holds}

no_contents : (ns : List LlistNode) → map (λ (n : LlistNode). n.bytes) ns ≡ [] → ns ≡ []
no_contents [] e = refl
no_contents (n ∷ ns) e = absurd (omega (arith, ap length e))

-- Taking the first node off a list without nodes takes the head out.
detach_empty :
    (llist : Llist)
    → llist.nodes ≡ []
    → llist.begin ≡ llist.head
    → llist.list_count ≡ 0
    → llist.unlinked ≡ false
    → llist_detach_front llist
      ≡ ok (
        record llist { list_count = minus_one; unlinked = true },
        record { addr = llist.head; bytes = [] },
      )
unfolding llist_detach_head
detach_empty llist none_there at_begin count linked =
    let begin : (if llist.head == llist.begin then llist.head else llist.begin) ≡ llist.begin =
      ground (arith, at_begin) in
    detach_front-empty llist at_begin
    ∙ rw (none_there, linked)
        (ap₂
          (λ b c. ok (
            record llist { nodes = []; begin = b; list_count = c; unlinked = true },
            record { addr = llist.head; bytes = [] },
          ))
          begin (ap (λ c. sub32 c 1) count))

detach_unlinked :
    (llist : Llist)
    → llist.nodes ≡ []
    → llist.begin ≡ llist.head
    → llist.unlinked ≡ true
    → llist_detach_front llist ≡ fault dangling
unfolding llist_detach llist_detach_head
detach_unlinked llist none_there at_begin gone = ground (arith, none_there, at_begin, gone)

push_unlinked :
    (llist : Llist) (data' bytes : List ℕ) (addr : ℕ)
    → llist.end ≡ llist.head
    → llist.unlinked ≡ true
    → 0 < addr
    → read_bytes llist.data_size data' ≡ ok bytes
    → llist_push_back llist data' addr ≡ fault dangling
unfolding llist_insert
push_unlinked llist data' bytes addr at_end gone room read =
    ground (arith, at_end, gone, room, read)

read_task :
    (size : ℕ) (task : Task)
    → size ≡ task_size
    → read_bytes size (task_bytes task) ≡ ok (task_bytes task)
unfolding read_bytes task_bytes
read_task size task e = rw e refl

-- What fetching from an empty list of data tasks leaves: the head of the list is out of it.
abbrev pub unlinked_from : TaskAdmin → TaskAdmin
unlinked_from admin = record admin {
  data_sys_designate_slot = record admin.data_sys_designate_slot {
    list_count = minus_one;
    unlinked = true;
  };
}

-- Where no data task waits in an administration that holds its queues, and the head of their list
-- is not at NULL, fetching a task to send unlinks that head and returns 1; fetching again, or
-- adding a data task for a slot that the system designates, with memory for its node, then follows
-- the poison in the head's links.
pub get_task_empty :
    {alloc : ℕ → ℕ} {i : ℕ} {waiting : List Task} {admin : TaskAdmin} (slot_num : ℕ)
    (memory : ℕ → Option (List ℕ)) (addr : ℕ) (task : Task)
    → Holds alloc i (record { for_data = []; for_voice = waiting }) admin
    → 0 < admin.data_sys_designate_slot.head
    → task.slot_type ≡ 0
    → task.type ≡ 0
    → 0 < addr
    → (get_task admin 1 slot_num ≡ ok (unlinked_from admin, 1))
      × (get_task (unlinked_from admin) 1 slot_num ≡ fault dangling)
      × (add_task memory addr (unlinked_from admin) task 1 ≡ fault dangling)
unfolding get_task add_task
get_task_empty {admin} slot_num memory addr task h some_head designated kind room =
    let (p, searched, null) = h.no_user slot_num in
    let llist = admin.data_sys_designate_slot in
    let none_there : llist.nodes ≡ [] = no_contents llist.nodes h.for_data.contents in
    let valid = h.for_data.valid in
    let at_begin : llist.begin ≡ llist.head =
      valid.at_begin ∙ ap (first_addr llist.head) none_there in
    let at_end : llist.end ≡ llist.head = valid.at_end ∙ ap (last_addr llist.head) none_there in
    let count : llist.list_count ≡ 0 = valid.count ∙ ap (λ ns. u32 (length ns)) none_there in
    let out = (unlinked_from admin).data_sys_designate_slot in
    let first = detach_empty llist none_there at_begin count valid.linked in
    let second = detach_unlinked out none_there at_begin refl in
    let third =
      push_unlinked out (task_bytes task) (task_bytes task) addr at_end refl room
        (read_task out.data_size task h.for_data.size) in
    let some_node : (llist.head == 0) ≡ false = ground (arith, some_head) in
    (
      rw (searched, ◌>>=◌, null, first, ◌>>=◌, some_node) refl,
      rw (searched, ◌>>=◌, null, second) refl,
      ground (arith, designated, kind, third),
    )

-- Adding a task for data or voice to send, whose slot the user designates, reads through the number
-- of the slot, and faults where nothing stands at that address.
pub add_task_user :
    (memory : ℕ → Option (List ℕ)) (addr : ℕ) (admin : TaskAdmin) (task : Task)
    → task.slot_type ≡ 1
    → task.type ≤ 1
    → memory task.slot_num ≡ none
    → add_task memory addr admin task 1 ≡ fault (bad_pointer task.slot_num)
unfolding add_task user_pair
add_task_user memory addr admin task user kind unmapped = ground (arith, user, kind, unmapped)
