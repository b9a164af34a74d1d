-- ===== src/Business/Send.antt =====
-- From the bytes of a message with the number 0x3008 to the queue of the task that it makes.
use linux_char_driver_frame.Base.{
  ℕ, ◌+◌, ◌≤◌, ◌<◌, ◌≡◌, ◌≢◌, refl, ap, ◌∙◌, arith, Bool, true, false, Option, some, none, fault,
  List, [], ◌∷◌, ◌++◌, get_elem?, replicate, ok, or_fault, null_pointer, ◌>>=◌, Returns,
  memcpy-append, length, take, drop, u16, bit_and, ◌==◌, if◌then◌else◌,
}
use mathlib.Core.Path.{subst}
use linux_char_driver_frame.PdtFormat.Layout.{layout_3008}
use linux_char_driver_frame.TaskAdmin.{Task, TaskAdmin, add_task}
use linux_char_driver_frame.TaskAdmin.Queue.{Queues, add_step}
use linux_char_driver_frame.TaskAdmin.Refine.{Holds, Meets, add_task-Meets}
use linux_char_driver_frame.TaskAdmin.Errors.{add_task_user}
use linux_char_driver_frame.HashMap.{bad_pointer}
use linux_char_driver_frame.Business.{
  Driver, Supply, send_task, do_command_0x3008, process_protocol,
}
use linux_char_driver_frame.Business.Start.{Message, IsSupply, HasStarted, new_analyzer-IsReady}
use linux_char_driver_frame.Business.Decode.{decode}
use linux_char_driver_frame.Business.MakeTask.{task_of, with_message, parse_task}

-- The buffer of the analyser with the first `len` bytes of a message.
abbrev pub buffer_of : ℕ → List ℕ → List ℕ
buffer_of len data' = take len data' ++ drop len (replicate 100 0)

do_command_0x3008-decode :
    {alloc : ℕ → ℕ → ℕ} {driver : Driver} {s : Supply} (data' : List ℕ) (len : ℕ) (out : List ℕ)
    (slot tact : ℕ)
    → IsSupply s
    → HasStarted alloc driver
    → s.room 0 ≡ (λ _. true)
    → 0 < len
    → len ≤ 100
    → len ≤ length data'
    → decode (buffer_of len data') layout_3008 layout_3008 0 [] ≡ ok out
    → get_elem? out 2 ≡ some slot
    → get_elem? out 4 ≡ some tact
    → do_command_0x3008 s data' len driver ≡ send_task s (task_of slot tact s.local_task) driver
unfolding do_command_0x3008
do_command_0x3008-decode {driver} {s} data' len out slot tact supply started room some_len fits long
      decoded has_slot has_tact =
    let (pa, run, (ready, blank)) = new_analyzer-IsReady 0 Message.m3008 supply started in
    let (r, parsed, made) =
      parse_task s.local_task out slot tact (supply.info_pos 0)
        (λ i m h low. supply.info_apart 0 i m h (omega arith))
        (with_message (buffer_of len data') (u16 len) ready) decoded (omega arith) has_slot
        has_tact in
    let copied = memcpy-append len [] (replicate 100 0) data' fits long in
    rw (run, blank, copied, room, parsed, made) refl

-- The administration that a number of a slot goes to.
abbrev pub admin_of : ℕ → Driver → Option TaskAdmin
admin_of slot_num driver =
    if bit_and slot_num 1 == 0 then driver.task_admin_slot1_gp else driver.task_admin_slot2_gp

abbrev pub with_admin : ℕ → TaskAdmin → Driver → Driver
with_admin slot_num admin driver =
    if bit_and slot_num 1 == 0
    then record driver { task_admin_slot1_gp = some admin }
    else record driver { task_admin_slot2_gp = some admin }

-- The task waits behind the other data tasks of the administration of its slot, and nothing else of
-- the driver has changed.
abbrev pub Waits : (ℕ → ℕ) → ℕ → Queues → Task → Driver → Driver → Type 0
Waits nodes i q task driver driver' =
    (admin : TaskAdmin) × (driver' ≡ with_admin task.slot_num admin driver)
    × Holds nodes (i + 1) (record q { for_data = q.for_data ++ task ∷ [] }) admin

send_task-add_task :
    (s : Supply) (task : Task) (driver : Driver) (admin : TaskAdmin)
    → admin_of task.slot_num driver ≡ some admin
    → send_task s task driver ≡ (
        add_task s.memory s.task_addr admin task 1 >>= λ admin'.
        ok (with_admin task.slot_num admin' driver))
unfolding send_task
send_task-add_task s task driver admin has = by_parity (bit_and task.slot_num 1 == 0) has
  where
    by_parity :
        (even : Bool)
        → (if even then driver.task_admin_slot1_gp else driver.task_admin_slot2_gp) ≡ some admin
        → (if even
            then (or_fault null_pointer driver.task_admin_slot1_gp >>= λ admin₁.
                add_task s.memory s.task_addr admin₁ task 1 >>= λ admin'.
                ok (record driver { task_admin_slot1_gp = some admin' }))
            else (or_fault null_pointer driver.task_admin_slot2_gp >>= λ admin₂.
                add_task s.memory s.task_addr admin₂ task 1 >>= λ admin'.
                ok (record driver { task_admin_slot2_gp = some admin' })))
          ≡ (add_task s.memory s.task_addr admin task 1 >>= λ admin'. ok (
              if even
              then record driver { task_admin_slot1_gp = some admin' }
              else record driver { task_admin_slot2_gp = some admin' }))
    by_parity true has' = rw has' refl
    by_parity false has' = rw has' refl

send_task-Waits :
    {q : Queues} {admin : TaskAdmin} {i : ℕ} (s : Supply) (nodes : ℕ → ℕ) (task : Task)
    (driver : Driver)
    → ((j : ℕ) → 0 < nodes j)
    → ((j k : ℕ) → j < k → nodes j ≢ nodes k)
    → s.task_addr ≡ nodes i
    → task.slot_type ≡ 0
    → task.type ≡ 0
    → admin_of task.slot_num driver ≡ some admin
    → Holds nodes i q admin
    → Returns (send_task s task driver) (Waits nodes i q task driver)
send_task-Waits {q} {admin} {i} s nodes task driver pos apart here sys data' has h =
    let q' : Queues = record q { for_data = q.for_data ++ task ∷ [] } in
    let allowed : add_step task 1 q ≡ some q' = ground (arith, sys, data') in
    let (admin', added, h') : Returns (add_task s.memory (nodes i) admin task 1)
        (Holds nodes (i + 1) q') =
      subst (λ o. Meets (Holds nodes (i + 1)) o (add_task s.memory (nodes i) admin task 1)) allowed
        (add_task-Meets s.memory nodes pos apart task 1 h) in
    (
      with_admin task.slot_num admin' driver,
      send_task-add_task s task driver admin has
          ∙ ap
              (λ a.
                add_task s.memory a admin task 1 >>= λ x. ok (with_admin task.slot_num x driver))
              here
          ∙ ap (λ r. r >>= λ x. ok (with_admin task.slot_num x driver)) added,
      (admin', refl, h'),
    )

-- For a started driver, a message of at most 100 bytes with the number 0x3008 that has a decoding,
-- and whose slot is one that the system designates, is parsed, and the task of its slot and its
-- tact waits behind the other data tasks of the administration that the slot goes to; nothing else
-- of the driver changes. There is memory for the buffers and for the node of the queue.
pub process_protocol-Waits :
    {alloc : ℕ → ℕ → ℕ} {driver : Driver} {s : Supply} {q : Queues} {admin : TaskAdmin} {i : ℕ}
    (data' : List ℕ) (len : ℕ) (out : List ℕ) (slot tact : ℕ) (nodes : ℕ → ℕ)
    → IsSupply s
    → HasStarted alloc driver
    → s.room 0 ≡ (λ _. true)
    → ((j : ℕ) → 0 < nodes j)
    → ((j k : ℕ) → j < k → nodes j ≢ nodes k)
    → s.task_addr ≡ nodes i
    → 0 < len
    → len ≤ 100
    → len ≤ length data'
    → decode (buffer_of len data') layout_3008 layout_3008 0 [] ≡ ok out
    → get_elem? out 2 ≡ some slot
    → get_elem? out 4 ≡ some tact
    → bit_and (u16 slot) 0x1000 ≢ 0
    → admin_of (u16 slot) driver ≡ some admin
    → Holds nodes i q admin
    → Returns
        (process_protocol s 0x3008 data' len driver)
        (Waits nodes i q (task_of slot tact s.local_task) driver)
unfolding process_protocol
process_protocol-Waits {driver} {s} {admin} data' len out slot tact nodes supply started room pos
      apart here some_len fits long decoded has_slot has_tact sys has h =
    let (r, sent, waits) =
      send_task-Waits s nodes (task_of slot tact s.local_task) driver pos apart here
        (ground (arith, sys)) refl has h in
    (
      r,
      do_command_0x3008-decode data' len out slot tact supply started room some_len fits long
            decoded has_slot has_tact
          ∙ sent,
      waits,
    )

-- For a started driver, a message of at least one and at most 100 bytes with the number 0x3008 that
-- has a decoding, and whose slot is one that the user designates, ends with a read through the
-- number of the slot, which faults where nothing stands at that address. The administration that
-- the slot goes to is there, and so is memory for the buffers. Every allocation for the analyser
-- succeeds, that is its record, the head of its list, its fields, the pair, the map, the table and
-- the nodes of the map: the fields at different addresses below 2 ^ 32, and those for the map at
-- different ones.
pub process_protocol_user :
    {alloc : ℕ → ℕ → ℕ} {driver : Driver} {s : Supply} {admin : TaskAdmin} (data' : List ℕ)
    (len : ℕ) (out : List ℕ) (slot tact : ℕ)
    → IsSupply s
    → HasStarted alloc driver
    → s.room 0 ≡ (λ _. true)
    → 0 < len
    → len ≤ 100
    → len ≤ length data'
    → decode (buffer_of len data') layout_3008 layout_3008 0 [] ≡ ok out
    → get_elem? out 2 ≡ some slot
    → get_elem? out 4 ≡ some tact
    → bit_and (u16 slot) 0x1000 ≡ 0
    → admin_of (u16 slot) driver ≡ some admin
    → s.memory (u16 slot) ≡ none
    → process_protocol s 0x3008 data' len driver ≡ fault (bad_pointer (u16 slot))
unfolding process_protocol
process_protocol_user {driver} {s} {admin} data' len out slot tact supply started room some_len fits
      long decoded has_slot has_tact user has unmapped =
    let task = task_of slot tact s.local_task in
    let refused : add_task s.memory s.task_addr admin task 1 ≡ fault (bad_pointer (u16 slot)) =
      add_task_user s.memory s.task_addr admin task (ground (arith, user)) (omega arith) unmapped in
    do_command_0x3008-decode data' len out slot tact supply started room some_len fits long decoded
      has_slot has_tact
    ∙ send_task-add_task s task driver admin has
    ∙ ap (λ r. r >>= λ x. ok (with_admin task.slot_num x driver)) refused
