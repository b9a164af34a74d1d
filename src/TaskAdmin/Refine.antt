-- ===== src/TaskAdmin/Refine.antt =====
-- The administration implements the queues of the tasks that the system designates.
use linux_char_driver_frame.Base.{
  ℕ, ◌+◌, ◌<◌, ◌≡◌, ◌≢◌, refl, Bool, true, false, ◌&&◌, Option, some, none, List, [], ◌∷◌, Run, ok,
  ◌>>=◌, Returns, Returns-bind, ◌==◌, if◌then◌else◌,
}
use linux_char_driver_frame.HashMap.{HashMap, hash_map_search}
use linux_char_driver_frame.TaskAdmin.{Task, TaskAdmin, add_task, get_task, slot_key}
use linux_char_driver_frame.TaskAdmin.Queue
use linux_char_driver_frame.TaskAdmin.Queue.{Op, add, get, Queues, add_step}
use linux_char_driver_frame.TaskAdmin.Keeps.{Keeps, later, push-Keeps}

-- No task waits for a slot, whichever it is.
abbrev pub IsEmpty : HashMap → Type 0
IsEmpty hmap =
    (slot_num : ℕ) → Returns (hash_map_search hmap (slot_key slot_num)) λ pos. pos.hlist_node_p ≡ 0

-- The two lists keep the two queues, and the map of user-designated tasks for data is empty.
pub record Holds (alloc : ℕ → ℕ) (i : ℕ) (q : Queues) (admin : TaskAdmin) : Type 0 where
  pub for_data : Keeps alloc i q.for_data admin.data_sys_designate_slot
  pub for_voice : Keeps alloc i q.for_voice admin.voice_sys_designate_slot
  pub no_user : IsEmpty admin.data_user_designate_slot

-- A sequence of calls, of which the one with the number `i` adds its task at `alloc i`, with the
-- answers to `get`.
unfoldable pub run :
    (ℕ → Option (List ℕ)) → (ℕ → ℕ) → ℕ → List Op → TaskAdmin → Run (TaskAdmin × List ℕ)
run memory alloc i [] admin = ok (admin, [])
run memory alloc i (add task flag ∷ ops) admin =
    add_task memory (alloc i) admin task flag >>= λ admin'. run memory alloc (i + 1) ops admin'
run memory alloc i (get flag slot_num ∷ ops) admin = get_task admin flag slot_num >>= λ r.
    run memory alloc (i + 1) ops r.0 >>= λ s. ok (s.0, r.1 ∷ s.1)

-- Where the specification allows the call, it returns, with what the specification says.
abbrev pub Meets {ℓ κ} :
    {A : Type ℓ} {S : Type ℓ} (P : S → A → Type κ) → Option S → Run A → Type (ℓ ⊔ κ)
Meets P none r = Unit
Meets P (some s) r = Returns r (P s)

Meets-if {ℓ κ} :
    {A : Type ℓ} {S : Type ℓ} (P : S → A → Type κ) (b : Bool) (s t : Option S) (x y : Run A)
    → Meets P s x
    → Meets P t y
    → Meets P (if b then s else t) (if b then x else y)
Meets-if P true s t x y p q = p
Meets-if P false s t x y p q = q

module _ (memory : ℕ → Option (List ℕ)) (alloc : ℕ → ℕ) (pos : (j : ℕ) → 0 < alloc j)
    (apart : (j k : ℕ) → j < k → alloc j ≢ alloc k) where
  Holds-later :
      {i : ℕ} {q : Queues} {admin : TaskAdmin} → Holds alloc i q admin → Holds alloc (i + 1) q admin
  Holds-later h = record {
    for_data = later h.for_data;
    for_voice = later h.for_voice;
    no_user = h.no_user;
  }

  pub add_task-Meets :
      {i : ℕ} {q : Queues} {admin : TaskAdmin} (task : Task) (flag : ℕ)
      → Holds alloc i q admin
      → Meets
          (Holds alloc (i + 1))
          (add_step task flag q)
          (add_task memory (alloc i) admin task flag)
  unfolding add_task
  add_task-Meets {i} {q} {admin} task flag h =
      let P = Holds alloc (i + 1) in
      let same : Returns (ok admin) (P q) = (admin, refl, Holds-later h) in
      Meets-if P (flag == 1) _ _ _ _
        (Meets-if P (task.slot_type == 0 && task.type == 0) _ _ _ _
          (Returns-bind (push-Keeps task pos apart h.for_data) λ llist k.
            (_, refl, record { for_data = k; for_voice = later h.for_voice; no_user = h.no_user }))
          (Meets-if P (task.slot_type == 0 && task.type == 1) _ _ _ _
            (Returns-bind (push-Keeps task pos apart h.for_voice) λ llist k.
              (_, refl, record { for_data = later h.for_data; for_voice = k; no_user = h.no_user }))
            (Meets-if P (task.slot_type == 1 && task.type == 0) _ _ _ _ tt
              (Meets-if P (task.slot_type == 1 && task.type == 1) _ _ _ _ tt same))))
        same
