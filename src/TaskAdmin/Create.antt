-- ===== src/TaskAdmin/Create.antt =====
-- Making an administration of tasks, and taking it down.
use linux_char_driver_frame.Base.{
  false, ℕ, ◌+◌, ◌<◌, ◌≤◌, ◌≡◌, ◌≢◌, refl, sym, ap, ◌∙◌, arith, some, none, [], ◌∷◌, ok, fault,
  null_pointer, Returns, ◌==◌, if◌then◌else◌, get_elem?-replicate,
}
use linux_char_driver_frame.HashMap.{
  Chain, hash_map_create, hash_map_init, create_pair, hash_map_search, search_chain,
  default_hash_func, default_key_cmp_func, read_bytes,
}
use linux_char_driver_frame.HashMap.Default.{default_hash_func-bucket}
use linux_char_driver_frame.LinkList.{Llist, llist_create, llist_init}
use linux_char_driver_frame.TaskAdmin.{
  TaskAdmin, task_size, create_user_map, create_task_admin, slot_key,
}
use linux_char_driver_frame.TaskAdmin.Keeps.{Keeps}
use linux_char_driver_frame.TaskAdmin.Refine.{Holds, IsEmpty}

init-IsEmpty : IsEmpty (hash_map_init 2 (task_size + 2) 10 default_hash_func default_key_cmp_func)
unfolding hash_map_init hash_map_search search_chain slot_key read_bytes
init-IsEmpty slot_num =
    let (b, in_range, hash) = default_hash_func-bucket (slot_key slot_num) 2 10 (omega arith) in
    (
      record { hlist_node_p = 0; bucket_pos = b },
      ground (
        arith,
        hash (slot_key slot_num) refl,
        in_range,
        get_elem?-replicate {A = Chain} 10 b [] in_range,
      ),
      refl,
    )

abbrev pub new_list : ℕ → Llist
new_list p = record {
  head = p;
  nodes = [];
  list_count = 0;
  data_size = task_size;
  begin = p;
  end = p;
  unlinked = false;
}

-- The new list keeps no tasks.
new_list-Keeps : (alloc : ℕ → ℕ) (p : ℕ) → ((j : ℕ) → alloc j ≢ p) → Keeps alloc 0 [] (new_list p)
new_list-Keeps alloc p apart = record {
  valid = record {
    apart = refl;
    distinct = tt;
    at_begin = refl;
    at_end = refl;
    linked = refl;
    count = refl;
  };
  size = refl;
  contents = refl;
  fresh = λ j h. (apart j, refl);
  alive = refl;
  few = omega arith;
}

-- The administration at the addresses of an allocator.
abbrev pub new_admin : (ℕ → ℕ) → TaskAdmin
new_admin alloc = record {
  addr = alloc 1;
  pair = record { addr = alloc 10; key_len = 2; value_len = task_size };
  data_sys_designate_slot = new_list (alloc 3);
  voice_sys_designate_slot = new_list (alloc 5);
  data_user_designate_slot =
      hash_map_init 2 (task_size + 2) 10 default_hash_func default_key_cmp_func;
  voice_user_designate_slot =
      hash_map_init 2 (task_size + 2) 10 default_hash_func default_key_cmp_func;
}

pub new_admin-Holds :
    (alloc task_alloc : ℕ → ℕ)
    → ((j : ℕ) → task_alloc j ≢ alloc 3)
    → ((j : ℕ) → task_alloc j ≢ alloc 5)
    → Holds task_alloc 0 (record { for_data = []; for_voice = [] }) (new_admin alloc)
new_admin-Holds alloc task_alloc data_apart voice_apart = record {
  for_data = new_list-Keeps task_alloc (alloc 3) data_apart;
  for_voice = new_list-Keeps task_alloc (alloc 5) voice_apart;
  no_user = init-IsEmpty;
}

-- Where all eleven allocations succeed, the administration is made, with empty queues. The nodes of
-- its lists are to stand at addresses that are not those of the lists' heads.
pub create_task_admin-Holds :
    (alloc task_alloc : ℕ → ℕ)
    → ((k : ℕ) → k ≤ 10 → 0 < alloc k)
    → ((j : ℕ) → task_alloc j ≢ alloc 3)
    → ((j : ℕ) → task_alloc j ≢ alloc 5)
    → Returns (create_task_admin alloc) λ r.
      (r ≡ (some (new_admin alloc), []))
      × Holds task_alloc 0 (record { for_data = []; for_voice = [] }) (new_admin alloc)
unfolding create_task_admin create_user_map llist_create llist_init hash_map_create create_pair
create_task_admin-Holds alloc task_alloc pos data_apart voice_apart = (
  (some (new_admin alloc), []),
  ground (
    arith,
    pos 0 (omega arith),
    pos 1 (omega arith),
    pos 2 (omega arith),
    pos 3 (omega arith),
    pos 4 (omega arith),
    pos 5 (omega arith),
    pos 6 (omega arith),
    pos 7 (omega arith),
    pos 8 (omega arith),
    pos 9 (omega arith),
    pos 10 (omega arith),
  ),
  (refl, new_admin-Holds alloc task_alloc data_apart voice_apart),
)

-- Without the first allocation the result is NULL; without the second one it is NULL and the first
-- one is freed; and without one of the nine others NULL is written through.
pub create_task_admin_failed :
    (alloc : ℕ → ℕ) (k : ℕ)
    → k ≤ 10
    → alloc k ≡ 0
    → ((j : ℕ) → j < k → 0 < alloc j)
    → create_task_admin alloc ≡ (
        if k == 0
        then ok (none, [])
        else if k == 1
        then ok (none, alloc 0 ∷ [])
        else fault null_pointer)
unfolding create_task_admin create_user_map llist_create llist_init hash_map_create create_pair
create_task_admin_failed alloc k few failed before =
    let at : (j : ℕ) → k ≡ j → alloc j ≡ 0 = λ j e. ap alloc (sym e) ∙ failed in
    ground (
      arith,
      few,
      at 0,
      at 1,
      at 2,
      at 3,
      at 4,
      at 5,
      at 6,
      at 7,
      at 8,
      at 9,
      at 10,
      before 0,
      before 1,
      before 2,
      before 3,
      before 4,
      before 5,
      before 6,
      before 7,
      before 8,
      before 9,
    )
