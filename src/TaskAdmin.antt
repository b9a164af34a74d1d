-- ===== src/TaskAdmin.antt =====
-- The administration of tasks: driver/task_admin/task_admin.c with the structures of
-- driver/include/task_admin/task_admin.h.
--
-- What the allocator returns is an argument. `memory` is what stands at an address that is no
-- object of the driver. The logging is left out.
pub mod Queue
pub mod Keeps
pub mod Refine
pub mod Create
pub mod Errors
pub mod Sound
use linux_char_driver_frame.Base.{
  ℕ, ◌+◌, ◌/◌, ◌%◌, ◌^◌, Bool, true, false, ◌&&◌, Option, none, some, List, [], ◌∷◌, Run, ok, fault,
  null_pointer, or_fault, ◌>>=◌, leb, ltb, minus_one, ◌==◌, if◌then◌else◌, ◌>>>◌,
}
use linux_char_driver_frame.HashMap.{
  HashMap, Pair, create_pair, make_pair, hash_map_create, hash_map_init, hash_map_insert,
  hash_map_search, default_hash_func, default_key_cmp_func, bad_pointer,
}
use linux_char_driver_frame.HashMap.Walk.{hash_map_destroy}
use linux_char_driver_frame.LinkList.{
  Llist, llist_create, llist_init, llist_push_back, llist_detach_front, llist_destroy,
}

abbrev pub task_flag_rcv : ℕ
task_flag_rcv = 0

abbrev pub task_flag_snd : ℕ
task_flag_snd = 1

abbrev pub task_type_data : ℕ
task_type_data = 0

abbrev pub task_type_voice : ℕ
task_type_voice = 1

abbrev pub slot_type_sys_designate : ℕ
slot_type_sys_designate = 0

abbrev pub slot_type_user_designate : ℕ
slot_type_user_designate = 1

abbrev pub chc_state_mainc_channel : ℕ
chc_state_mainc_channel = 3

-- `padding` is the byte that aligns `slot_num`.
pub record Task : Type 0 where
  pub data_byte : ℕ
  pub type : ℕ
  pub slot_type : ℕ
  pub padding : ℕ
  pub slot_num : ℕ
  pub tact_info : ℕ

-- `sizeof(task_t)`, and the task in memory, the low bytes first.
abbrev pub task_size : ℕ
task_size = 8

unfoldable pub task_bytes : Task → List ℕ
task_bytes task =
    task.data_byte
    ∷ task.type
    ∷ task.slot_type
    ∷ task.padding
    ∷ task.slot_num % 2 ^ 8
    ∷ task.slot_num >>> 8
    ∷ task.tact_info % 2 ^ 8
    ∷ task.tact_info >>> 8
    ∷ []

-- The bytes of the pair are overwritten by each use and never read again. The fields `slot` and
-- `task_state` are never used.
pub record TaskAdmin : Type 0 where
  pub addr : ℕ
  pub pair : Pair
  pub data_sys_designate_slot : Llist
  pub voice_sys_designate_slot : Llist
  pub data_user_designate_slot : HashMap
  pub voice_user_designate_slot : HashMap

-- The map of user-designated tasks: `hash_map_create` and `hash_map_init`, at the addresses of the
-- map and of its table.
unfoldable pub create_user_map : ℕ → ℕ → Run HashMap
create_user_map map_addr table_addr = hash_map_create map_addr >>= λ _.
    if table_addr == 0
    then fault null_pointer
    else ok (hash_map_init 2 (task_size + 2) 10 default_hash_func default_key_cmp_func)

-- The calls of the allocator have the numbers 0, 1, ... in their order. The result is NULL, or the
-- administration, with the addresses that were freed. The callees from `llist_create` on write
-- through the NULL of a failed allocation, so that the branches behind them are not reached.
unfoldable pub create_task_admin : (ℕ → ℕ) → Run (Option TaskAdmin × List ℕ)
create_task_admin alloc = elim (alloc 0 == 0) [
  | true ↦ ok (none, [])
  | false ↦ elim (alloc 1 == 0) [
    | true ↦ ok (none, alloc 0 ∷ [])
    | false ↦ do
      a ← llist_create (alloc 2)
      data_sys ← llist_init task_size (alloc 3)
      b ← llist_create (alloc 4)
      voice_sys ← llist_init task_size (alloc 5)
      data_user ← create_user_map (alloc 6) (alloc 7)
      voice_user ← create_user_map (alloc 8) (alloc 9)
      pair ← create_pair 2 task_size (alloc 10)
      ok (
        some (record {
          addr = alloc 1;
          pair = pair;
          data_sys_designate_slot = data_sys;
          voice_sys_designate_slot = voice_sys;
          data_user_designate_slot = data_user;
          voice_user_designate_slot = voice_user;
        }),
        [],
      )
  ]
]

-- What the administration holds when it is to be freed. The loops run on fuel.
unfoldable pub destroy_task_admin : ℕ → TaskAdmin → Run TaskAdmin
destroy_task_admin fuel admin = do
  voice_user ← hash_map_destroy fuel admin.voice_user_designate_slot
  data_user ← hash_map_destroy fuel admin.data_user_designate_slot
  voice_sys ← llist_destroy fuel admin.voice_sys_designate_slot
  data_sys ← llist_destroy fuel admin.data_sys_designate_slot
  ok (record admin {
    voice_user_designate_slot = voice_user;
    data_user_designate_slot = data_user;
    voice_sys_designate_slot = voice_sys;
    data_sys_designate_slot = data_sys;
  })

-- `make_pair(admin->pair, task->slot_num, task)`: the number is taken for the address of the key.
unfoldable pub user_pair : (ℕ → Option (List ℕ)) → TaskAdmin → Task → Run (List ℕ)
user_pair memory admin task = or_fault (bad_pointer task.slot_num) (memory task.slot_num) >>= λ key.
    make_pair admin.pair.key_len admin.pair.value_len key (task_bytes task)

-- A node that is added stands at `addr`.
unfoldable pub add_task : (ℕ → Option (List ℕ)) → ℕ → TaskAdmin → Task → ℕ → Run TaskAdmin
add_task memory addr admin task flag =
    if flag == task_flag_snd
    then if task.slot_type == slot_type_sys_designate && task.type == task_type_data
      then (llist_push_back admin.data_sys_designate_slot (task_bytes task) addr >>= λ llist.
          ok (record admin { data_sys_designate_slot = llist }))
      else if task.slot_type == slot_type_sys_designate && task.type == task_type_voice
      then (llist_push_back admin.voice_sys_designate_slot (task_bytes task) addr >>= λ llist.
          ok (record admin { voice_sys_designate_slot = llist }))
      else if task.slot_type == slot_type_user_designate && task.type == task_type_data
      then (user_pair memory admin task >>= λ pair.
          hash_map_insert admin.data_user_designate_slot pair addr >>= λ r.
          ok (record admin { data_user_designate_slot = r.0 }))
      else if task.slot_type == slot_type_user_designate && task.type == task_type_voice
      then (user_pair memory admin task >>= λ pair.
          hash_map_insert admin.voice_user_designate_slot pair addr >>= λ r.
          ok (record admin { voice_user_designate_slot = r.0 }))
      else ok admin
    else ok admin

abbrev pub get_task_state : TaskAdmin → ℕ → ℕ
get_task_state admin type = 1

-- `(slot_num >> 8) && 0xff` and `slot_num && 0xff`.
unfoldable pub slot_key : ℕ → List ℕ
slot_key slot_num = (if slot_num >>> 8 == 0 then 0 else 1) ∷ (if slot_num == 0 then 0 else 1) ∷ []

-- `task` is not written to. The state is always 1, so that the other branches are not reached.
unfoldable pub get_task : TaskAdmin → ℕ → ℕ → Run (TaskAdmin × ℕ)
get_task admin flag slot_num =
    if flag == task_flag_snd
    then elim (get_task_state admin chc_state_mainc_channel == 0) [
      | true ↦ ok (admin, minus_one)
      | false ↦ do
        pos ← hash_map_search admin.data_user_designate_slot (slot_key slot_num)
        elim (pos.hlist_node_p == 0) [
          | false ↦ ok (admin, 1)
          | true ↦ do
            r ← llist_detach_front admin.data_sys_designate_slot
            let admin' : TaskAdmin = record admin { data_sys_designate_slot = r.0 }
            ok (admin', if r.1.addr == 0 then minus_one else 1)
        ]
    ]
    else ok (admin, minus_one)
