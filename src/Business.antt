-- ===== src/Business.antt =====
-- What the driver does with a message that a user writes: driver/business/business.c.
--
-- The two administrations, the table of formats and the messages meet here. The analyser with the
-- number `k` of a call stands at `analyzer_alloc k`; the addresses of its list's head and fields are
-- `info_alloc k`, and those of its pair, map, table and nodes `node_alloc k`. `room` says whether
-- there is memory for a buffer. `data` is the memory at the pointer to the message. The
-- buffers `proto_buffer` are never used, and the logging is left out but for the fields that it
-- reads.
pub mod Init
pub mod Start
pub mod Decode
pub mod Parse
pub mod State
pub mod Loop
pub mod Fits
pub mod Meaning
pub mod MakeTask
pub mod Send
pub mod Complete
pub mod Bytes
use linux_char_driver_frame.Base.{
  ℕ, zero, suc, ◌+◌, Bool, true, false, Option, none, some, List, [], ◌∷◌, Run, ok, fault,
  null_pointer, or_fault, load, store, memcpy, drop, ◌>>=◌, u8, u16, bit_and, ◌==◌, if◌then◌else◌,
}
use linux_char_driver_frame.Format.{FormatSet}
use linux_char_driver_frame.Analyzer.Setup.{
  ProtocolAnalyzer, pa_create_protocol_analyzer, pa_init_protocol_analyzer, pa_find_key, info_of,
  fields,
}
use linux_char_driver_frame.Analyzer.{pa_parse_protocol_data, pa_reset_vlen_flag}
use linux_char_driver_frame.PdtFormat.Names.{
  tact_info_key, slot_info_key, slc_data_key, dc_data_key,
}
use linux_char_driver_frame.TaskAdmin.{
  Task, TaskAdmin, add_task, task_flag_snd, task_type_data, slot_type_sys_designate,
  slot_type_user_designate,
}

-- The driver's global variables.
pub record Driver : Type 0 where
  pub pfs_p : Option FormatSet
  pub task_admin_slot1_gp : Option TaskAdmin
  pub task_admin_slot2_gp : Option TaskAdmin

-- What a call is given by its surroundings: the allocator's answers, the memory at other addresses,
-- and what the local `task` held.
pub record Supply : Type 0 where
  pub analyzer_alloc : ℕ → ℕ
  pub info_alloc : ℕ → ℕ → ℕ
  pub node_alloc : ℕ → ℕ → ℕ
  pub room : ℕ → ℕ → Bool
  pub task_addr : ℕ
  pub memory : ℕ → Option (List ℕ)
  pub local_task : Task

-- The value of the field with a name. A field that is not found is logged, and then read.
unfoldable pub value_of_key : List ℕ → ProtocolAnalyzer → Run ℕ
value_of_key key pa = do
  p ← pa_find_key key pa
  infos ← fields pa
  info ← info_of p infos
  ok info.data_value

unfoldable pub process_tact_info : ProtocolAnalyzer → Task → Run Task
process_tact_info pa task =
    value_of_key tact_info_key pa >>= λ v. ok (record task { tact_info = u16 v })

unfoldable pub process_slot_info : ProtocolAnalyzer → Task → Run Task
process_slot_info pa task =
    value_of_key slot_info_key pa >>= λ v. ok (record task { slot_num = u16 v })

-- These two read the field only to log it.
unfoldable pub process_slc_data : ProtocolAnalyzer → Task → Run Task
process_slc_data pa task = value_of_key slc_data_key pa >>= λ _. ok task

unfoldable pub process_dc_data : ProtocolAnalyzer → Task → Run Task
process_dc_data pa task = value_of_key dc_data_key pa >>= λ _. ok task

-- An analyser of its own for the message with a number, which is never destroyed.
unfoldable pub new_analyzer : Supply → ℕ → ℕ → Driver → Run ProtocolAnalyzer
new_analyzer s k proto_no driver = or_fault null_pointer driver.pfs_p >>= λ pfs.
    pa_create_protocol_analyzer (s.analyzer_alloc k) >>= λ pa.
    pa_init_protocol_analyzer (s.info_alloc k) (s.node_alloc k) proto_no pfs pa

-- The task that a parsed message makes.
unfoldable pub make_task : ProtocolAnalyzer → Task → Run Task
make_task pa local_task = do
  a ← process_slot_info pa local_task
  b ← process_tact_info pa a
  c ← process_slc_data pa b
  d ← process_dc_data pa c
  ok (record d {
    slot_type =
        if bit_and d.slot_num 0x1000 == 0
        then slot_type_user_designate
        else slot_type_sys_designate;
    type = task_type_data;
  })

-- The task is sent in the slot that the lowest bit of its number says.
unfoldable pub send_task : Supply → Task → Driver → Run Driver
send_task s task driver =
    if bit_and task.slot_num 1 == 0
    then (or_fault null_pointer driver.task_admin_slot1_gp >>= λ admin.
        add_task s.memory s.task_addr admin task task_flag_snd >>= λ admin'.
        ok (record driver { task_admin_slot1_gp = some admin' }))
    else (or_fault null_pointer driver.task_admin_slot2_gp >>= λ admin.
        add_task s.memory s.task_addr admin task task_flag_snd >>= λ admin'.
        ok (record driver { task_admin_slot2_gp = some admin' }))

-- What the parser returns is not looked at.
unfoldable pub do_command_0x3008 : Supply → List ℕ → ℕ → Driver → Run Driver
do_command_0x3008 s data' len driver = do
  pa ← new_analyzer s 0 0x3008 driver
  dp ← memcpy len pa.protocol_data 0 data'
  r ←
      pa_parse_protocol_data (s.room 0)
        (record pa { protocol_data = dp; protocol_data_len = u16 len })
  task ← make_task r.0 s.local_task
  send_task s task driver

-- Two bytes with the number of the message, the bytes from `os` on behind them, and the parser. The
-- fields are then printed, and the flags of their lengths set again.
unfoldable pub parse_part :
    (ℕ → Bool) → ℕ → ℕ → ℕ → List ℕ → ProtocolAnalyzer → Run ProtocolAnalyzer
parse_part room low os n data' pa = do
  a ← store pa.protocol_data 0 0x30
  b ← store a 1 low
  c ← memcpy n b 2 (drop os data')
  r ← pa_parse_protocol_data room (record pa { protocol_data = c; protocol_data_len = u16 (n + 2) })
  printed ← fields r.0
  ok (pa_reset_vlen_flag r.0).0

-- The loop of `do_command_0x3010` with `left` rounds to go.
unfoldable pub loop_0x3010 : Supply → ℕ → ℕ → List ℕ → ProtocolAnalyzer → Run ProtocolAnalyzer
loop_0x3010 s zero os data' pa = ok pa
loop_0x3010 s (suc left) os data' pa = do
  peri_data_len ← load data' (os + 2)
  pa' ← parse_part (s.room left) 0x54 os (peri_data_len + 3) data' pa
  loop_0x3010 s left (u16 (os + (peri_data_len + 3))) data' pa'

unfoldable pub do_command_0x3010 : Supply → List ℕ → ℕ → Driver → Run ProtocolAnalyzer
do_command_0x3010 s data' len driver = do
  pa ← new_analyzer s 0 0x3054 driver
  count ← load data' 5
  loop_0x3010 s count 6 data' pa

-- The loop of `do_command_0x301b`, whose analysers are for parts without and with the flag.
unfoldable pub loop_0x301b :
    Supply
    → ℕ
    → ℕ
    → List ℕ
    → ProtocolAnalyzer × ProtocolAnalyzer
    → Run (ProtocolAnalyzer × ProtocolAnalyzer)
loop_0x301b s zero os data' pas = ok pas
loop_0x301b s (suc left) os data' pas = do
  pdu_len ← load data' os
  emb_flag ← load data' (os + 1)
  pas' ←
      if emb_flag == 0
      then (parse_part (s.room left) 0x50 os pdu_len data' pas.0 >>= λ pa. ok (pa, pas.1))
      else (parse_part (s.room left) 0x52 os pdu_len data' pas.1 >>= λ pa. ok (pas.0, pa))
  loop_0x301b s left (u16 (os + pdu_len)) data' pas'

unfoldable pub do_command_0x301b :
    Supply → List ℕ → ℕ → Driver → Run (ProtocolAnalyzer × ProtocolAnalyzer)
do_command_0x301b s data' len driver = do
  pa50 ← new_analyzer s 0 0x3050 driver
  pa52 ← new_analyzer s 1 0x3052 driver
  count ← load data' 4
  loop_0x301b s count 5 data' (pa50, pa52)

-- The analysers of the two loops are lost.
unfoldable pub process_protocol : Supply → ℕ → List ℕ → ℕ → Driver → Run Driver
process_protocol s command data' len driver =
    if command == 0x3008
    then do_command_0x3008 s data' len driver
    else if command == 0x3010
    then (do_command_0x3010 s data' len driver >>= λ _. ok driver)
    else if command == 0x301b
    then (do_command_0x301b s data' len driver >>= λ _. ok driver)
    else ok driver
