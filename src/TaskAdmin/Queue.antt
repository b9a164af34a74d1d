-- ===== src/TaskAdmin/Queue.antt =====
-- What the administration promises of the tasks whose slot the system designates: two queues, the
-- oldest task first.
use linux_char_driver_frame.Base.{
  ℕ, ◌&&◌, Option, none, some, List, [], ◌∷◌, ◌++◌, minus_one, ◌==◌, if◌then◌else◌,
}
use linux_char_driver_frame.TaskAdmin.{Task}

pub data Op : Type 0 where
  add : (task : Task) (flag : ℕ) → Op
  get : (flag slot_num : ℕ) → Op

-- The tasks for data and for voice.
pub record Queues : Type 0 where
  pub for_data : List Task
  pub for_voice : List Task

-- A task that is sent waits behind the others of its type; anything else changes nothing. Tasks for
-- data or voice whose slot the user designates are outside.
abbrev pub add_step : Task → ℕ → Queues → Option Queues
add_step task flag q =
    if flag == 1
    then if task.slot_type == 0 && task.type == 0
      then some (record q { for_data = q.for_data ++ task ∷ [] })
      else if task.slot_type == 0 && task.type == 1
      then some (record q { for_voice = q.for_voice ++ task ∷ [] })
      else if task.slot_type == 1 && task.type == 0
      then none
      else if task.slot_type == 1 && task.type == 1
      then none
      else some q
    else some q

-- The oldest data task leaves, and the answer is 1, as long as another task stays behind.
abbrev pub get_step : ℕ → Queues → Option (Queues × ℕ)
get_step flag q =
    if flag == 1
    then elim q.for_data [
      | [] ↦ none
      | t ∷ ts ↦ elim ts [ [] ↦ none | u ∷ us ↦ some (record q { for_data = u ∷ us }, 1) ]
    ]
    else some (q, minus_one)

-- What a sequence of calls leaves, with the answers to `get`.
unfoldable pub run : List Op → Queues → Option (Queues × List ℕ)
run [] q = some (q, [])
run (add task flag ∷ ops) q = elim (add_step task flag q) [ none ↦ none | some q' ↦ run ops q' ]
run (get flag slot_num ∷ ops) q = elim (get_step flag q) [
  | none ↦ none
  | some r ↦ elim (run ops r.0) [ none ↦ none | some s ↦ some (s.0, r.1 ∷ s.1) ]
]
