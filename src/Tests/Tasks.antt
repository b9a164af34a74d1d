-- ===== src/Tests/Tasks.antt =====
-- The administration of tasks and the table of formats at concrete allocators.
use linux_char_driver_frame.Base.{
  ℕ, ◌+◌, ◌≤◌, ◌<◌, ◌≡◌, ◌≢◌, refl, arith, Option, some, none, List, [], ◌∷◌, ok, fault, dangling,
  Returns, ◌==◌, if◌then◌else◌,
}
use linux_char_driver_frame.TaskAdmin.{Task, add_task, create_task_admin, get_task}
use linux_char_driver_frame.TaskAdmin.Queue
use linux_char_driver_frame.TaskAdmin.Queue.{Op, add, get, Queues}
use linux_char_driver_frame.TaskAdmin.Refine.{Holds}
use linux_char_driver_frame.TaskAdmin.Create.{
  create_task_admin-Holds, create_task_admin_failed, new_admin, new_admin-Holds,
}
use linux_char_driver_frame.TaskAdmin.Errors.{unlinked_from, get_task_empty}

-- The allocations of the administration, and those of the nodes behind them.
admin_at : ℕ → ℕ
admin_at k = 100 + k

node_at : ℕ → ℕ
node_at j = 200 + j

admin_at_pos : (k : ℕ) → k ≤ 10 → 0 < admin_at k
unfolding admin_at
admin_at_pos k few = omega arith

off_data : (j : ℕ) → node_at j ≢ admin_at 3
unfolding node_at admin_at
off_data j e = absurd (omega arith)

off_voice : (j : ℕ) → node_at j ≢ admin_at 5
unfolding node_at admin_at
off_voice j e = absurd (omega arith)

create_task_admin-Holds_example : Returns (create_task_admin admin_at) λ r.
    (r ≡ (some (new_admin admin_at), []))
    × Holds node_at 0 (record { for_data = []; for_voice = [] }) (new_admin admin_at)
create_task_admin-Holds_example =
    create_task_admin-Holds admin_at node_at admin_at_pos off_data off_voice

-- The second allocation fails.
one_left : ℕ → ℕ
one_left k = if k == 0 then 100 else 0

one_left-fails : (1 ≤ 10) × (one_left 1 ≡ 0) × ((j : ℕ) → j < 1 → 0 < one_left j)
unfolding one_left
one_left-fails = (omega arith, refl, λ j h. ground arith)

create_task_admin_failed_example : create_task_admin one_left ≡ ok (none, one_left 0 ∷ [])
create_task_admin_failed_example =
    create_task_admin_failed one_left 1 one_left-fails.0 one_left-fails.1 one_left-fails.2

abbrev data_task : ℕ → Task
data_task slot_num = record {
  data_byte = 7;
  type = 0;
  slot_type = 0;
  padding = 0;
  slot_num = slot_num;
  tact_info = 1;
}

-- Two data tasks come, and one of them is fetched.
abbrev calls : List Op
calls = add (data_task 0x1002) 1 ∷ add (data_task 0x1004) 1 ∷ get 1 0x1002 ∷ get 0 0x1002 ∷ []

abbrev nothing_mapped : ℕ → Option (List ℕ)
nothing_mapped p = none

start-Holds : Holds node_at 0 (record { for_data = []; for_voice = [] }) (new_admin admin_at)
start-Holds = new_admin-Holds admin_at node_at off_data off_voice

get_task_empty_example :
    (get_task (new_admin admin_at) 1 0x1002 ≡ ok (unlinked_from (new_admin admin_at), 1))
    × (get_task (unlinked_from (new_admin admin_at)) 1 0x1002 ≡ fault dangling)
    × (add_task nothing_mapped 900 (unlinked_from (new_admin admin_at)) (data_task 0x1004) 1
        ≡ fault dangling)
unfolding admin_at
get_task_empty_example =
    get_task_empty 0x1002 nothing_mapped 900 (data_task 0x1004) start-Holds (omega arith) refl refl
      (omega arith)
