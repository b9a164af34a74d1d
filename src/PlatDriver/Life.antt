-- ===== src/PlatDriver/Life.antt =====
-- What every call on a loaded driver that returns keeps.
use linux_char_driver_frame.Base.{
  ℕ, ◌≡◌, refl, sym, ◌∙◌, Option, some, List, ok, or_fault, null_pointer, some-injective,
  ok-injective, or_fault-ok, Ensures, Ensures-if, Ensures-bind, Ensures-any, ◌==◌, u16, bit_or,
  bit_and, ◌<<<◌, memcpy, load,
}
use mathlib.Core.Path.{subst}
use linux_char_driver_frame.Analyzer.Setup.{ProtocolAnalyzer}
use linux_char_driver_frame.TaskAdmin.{Task, TaskAdmin, add_task}
use linux_char_driver_frame.TaskAdmin.Sound.{IsSound, IsFree, add_task-IsSound}
use linux_char_driver_frame.Business.{
  Driver, Supply, new_analyzer, make_task, send_task, do_command_0x3008, do_command_0x3010,
  do_command_0x301b, process_protocol,
}
use linux_char_driver_frame.Business.Start.{HasStarted}
use linux_char_driver_frame.PlatDriver.{device_write}

-- A driver between its start and its removal.
pub record IsRunning (alloc : ℕ → ℕ → ℕ) (driver : Driver) : Type 0 where
  pub started : HasStarted alloc driver
  pub admin1 : TaskAdmin
  pub admin2 : TaskAdmin
  pub slot1 : driver.task_admin_slot1_gp ≡ some admin1
  pub slot2 : driver.task_admin_slot2_gp ≡ some admin2
  pub sound1 : IsSound admin1
  pub sound2 : IsSound admin2

-- Nothing of the two administrations stands at an address.
pub record IsUnused (addr : ℕ) (driver : Driver) : Type 0 where
  pub free1 : (admin : TaskAdmin) → driver.task_admin_slot1_gp ≡ some admin → IsFree addr admin
  pub free2 : (admin : TaskAdmin) → driver.task_admin_slot2_gp ≡ some admin → IsFree addr admin

module _ {alloc : ℕ → ℕ → ℕ} {driver : Driver} where
  pub with_slot1 :
      {admin : TaskAdmin}
      → IsRunning alloc driver
      → IsSound admin
      → IsRunning alloc (record driver { task_admin_slot1_gp = some admin })
  with_slot1 {admin} run sound = record {
    started = record {
      pfs = run.started.pfs;
      has_formats = run.started.has_formats;
      formats = run.started.formats;
    };
    admin1 = admin;
    admin2 = run.admin2;
    slot1 = refl;
    slot2 = run.slot2;
    sound1 = sound;
    sound2 = run.sound2;
  }

  pub with_slot2 :
      {admin : TaskAdmin}
      → IsRunning alloc driver
      → IsSound admin
      → IsRunning alloc (record driver { task_admin_slot2_gp = some admin })
  with_slot2 {admin} run sound = record {
    started = record {
      pfs = run.started.pfs;
      has_formats = run.started.has_formats;
      formats = run.started.formats;
    };
    admin1 = run.admin1;
    admin2 = admin;
    slot1 = run.slot1;
    slot2 = refl;
    sound1 = run.sound1;
    sound2 = sound;
  }

  pub slot1-IsSound :
      {admin : TaskAdmin}
      → IsRunning alloc driver
      → driver.task_admin_slot1_gp ≡ some admin
      → IsSound admin
  slot1-IsSound run is = subst IsSound (some-injective (sym run.slot1 ∙ is)) run.sound1

  pub slot2-IsSound :
      {admin : TaskAdmin}
      → IsRunning alloc driver
      → driver.task_admin_slot2_gp ≡ some admin
      → IsSound admin
  slot2-IsSound run is = subst IsSound (some-injective (sym run.slot2 ∙ is)) run.sound2

  send_task-IsRunning :
      (s : Supply) (task : Task)
      → IsUnused s.task_addr driver
      → IsRunning alloc driver
      → Ensures (IsRunning alloc) (send_task s task driver)
  unfolding send_task
  send_task-IsRunning s task free run =
      Ensures-if (bit_and task.slot_num 1 == 0)
        (Ensures-bind (or_fault null_pointer driver.task_admin_slot1_gp)
          (λ admin e. or_fault-ok null_pointer _ e)
          λ admin is.
            Ensures-bind (add_task s.memory s.task_addr admin task 1)
              (add_task-IsSound s.memory s.task_addr task 1 (slot1-IsSound run is)
                (free.free1 admin is))
              λ admin' sound a e. subst (IsRunning alloc) (ok-injective e) (with_slot1 run sound))
        (Ensures-bind (or_fault null_pointer driver.task_admin_slot2_gp)
          (λ admin e. or_fault-ok null_pointer _ e)
          λ admin is.
            Ensures-bind (add_task s.memory s.task_addr admin task 1)
              (add_task-IsSound s.memory s.task_addr task 1 (slot2-IsSound run is)
                (free.free2 admin is))
              λ admin' sound a e. subst (IsRunning alloc) (ok-injective e) (with_slot2 run sound))

  process_protocol-IsRunning :
      (s : Supply) (command : ℕ) (data' : List ℕ) (len : ℕ)
      → IsUnused s.task_addr driver
      → IsRunning alloc driver
      → Ensures (IsRunning alloc) (process_protocol s command data' len driver)
  unfolding process_protocol do_command_0x3008
  process_protocol-IsRunning s command data' len free run =
      let same : Ensures (IsRunning alloc) (ok driver) =
        λ a e. subst (IsRunning alloc) (ok-injective e) run in
      Ensures-if (command == 0x3008)
        (Ensures-bind _ (Ensures-any (new_analyzer s 0 0x3008 driver)) λ pa u.
          Ensures-bind _ (Ensures-any (memcpy len pa.protocol_data 0 data')) λ dp v.
            Ensures-bind _ (Ensures-any _) λ (r : ProtocolAnalyzer × ℕ) w.
              Ensures-bind _ (Ensures-any (make_task r.0 s.local_task))
                λ task x. send_task-IsRunning s task free run)
        (Ensures-if (command == 0x3010)
          (Ensures-bind _ (Ensures-any (do_command_0x3010 s data' len driver)) λ pa u. same)
          (Ensures-if (command == 0x301b)
            (Ensures-bind _ (Ensures-any (do_command_0x301b s data' len driver)) λ pas u. same)
            same))

  pub device_write-IsRunning :
      (copy_from_user : Option (List ℕ) → ℕ → List ℕ) (s : Supply) (stack : List ℕ)
      (buf : Option (List ℕ)) (count : ℕ)
      → IsUnused s.task_addr driver
      → IsRunning alloc driver
      → Ensures (λ r. IsRunning alloc r.0) (device_write copy_from_user s stack buf count driver)
  unfolding device_write
  device_write-IsRunning copy_from_user s stack buf count free run =
      Ensures-bind _ (Ensures-any (memcpy count stack 0 (copy_from_user buf count))) λ data' u.
        Ensures-bind _ (Ensures-any (load data' 0)) λ high v.
          Ensures-bind _ (Ensures-any (load data' 1)) λ low w.
            Ensures-bind _
              (process_protocol-IsRunning s (u16 (bit_or (high <<< 8) low)) data' count free run)
              λ driver' run' a e.
                subst (λ (r : Driver × ℕ). IsRunning alloc r.0) (ok-injective e) run'
