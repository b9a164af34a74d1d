-- ===== src/PlatDriver/Reach.antt =====
-- The life of a loaded driver: messages are written to it and tasks fetched, in any order, until it
-- is removed.
use linux_char_driver_frame.Base.{
  Run, ℕ, ◌+◌, ◌<◌, ◌≡◌, refl, sym, ap, ◌∙◌, arith, Option, some, none, List, ok, ok-injective,
  Returns,
}
use mathlib.Core.Path.{subst}
use linux_char_driver_frame.HashMap.Default.{hash_map_init-IsValid}
use linux_char_driver_frame.HashMap.{default_hash_func, default_key_cmp_func}
use linux_char_driver_frame.TaskAdmin.{TaskAdmin, task_size, get_task}
use linux_char_driver_frame.TaskAdmin.Create.{new_admin}
use linux_char_driver_frame.TaskAdmin.Sound.{
  IsSound, get_task-IsSound, waiting, destroy_task_admin-IsSound,
}
use linux_char_driver_frame.Business.{Driver, Supply}
use linux_char_driver_frame.Business.Start.{HasStarted}
use linux_char_driver_frame.PlatDriver.{Kernel, Plat, plat_probe, plat_remove, device_write}
use linux_char_driver_frame.PlatDriver.Probe.{
  leaked, remove_run, IsGenerous, IsLoaded, plat_probe-IsLoaded,
}
use linux_char_driver_frame.PlatDriver.Life.{
  IsRunning, IsUnused, with_slot1, with_slot2, slot1-IsSound, slot2-IsSound, device_write-IsRunning,
}

-- What happens to a driver: a write to its device that returns, with a node at an address that
-- is not in use, or a fetch from one of its administrations that returns.
pub data Step (copy_from_user : Option (List ℕ) → ℕ → List ℕ) : Driver → Driver → Type 0 where
  write :
      {driver driver' : Driver} (s : Supply) (stack : List ℕ) (buf : Option (List ℕ)) (count r : ℕ)
      → IsUnused s.task_addr driver
      → device_write copy_from_user s stack buf count driver ≡ ok (driver', r)
      → Step copy_from_user driver driver'
  fetch1 :
      {driver : Driver} {admin : TaskAdmin} {r : TaskAdmin × ℕ} (flag slot_num : ℕ)
      → driver.task_admin_slot1_gp ≡ some admin
      → get_task admin flag slot_num ≡ ok r
      → Step copy_from_user driver (record driver { task_admin_slot1_gp = some r.0 })
  fetch2 :
      {driver : Driver} {admin : TaskAdmin} {r : TaskAdmin × ℕ} (flag slot_num : ℕ)
      → driver.task_admin_slot2_gp ≡ some admin
      → get_task admin flag slot_num ≡ ok r
      → Step copy_from_user driver (record driver { task_admin_slot2_gp = some r.0 })

pub data Reach (copy_from_user : Option (List ℕ) → ℕ → List ℕ) (from : Driver)
    : Driver → Type 0 where
  start : Reach copy_from_user from from
  next :
      {driver driver' : Driver}
      → Reach copy_from_user from driver
      → Step copy_from_user driver driver'
      → Reach copy_from_user from driver'

Step-IsRunning :
    {copy_from_user : Option (List ℕ) → ℕ → List ℕ} {alloc : ℕ → ℕ → ℕ} {driver driver' : Driver}
    → Step copy_from_user driver driver'
    → IsRunning alloc driver
    → IsRunning alloc driver'
Step-IsRunning {copy_from_user} (write {driver'} s stack buf count r free run) running =
    device_write-IsRunning copy_from_user s stack buf count free running (driver', r) run
Step-IsRunning (fetch1 {r} flag slot_num has run) running =
    with_slot1 running (get_task-IsSound flag slot_num (slot1-IsSound running has) r run)
Step-IsRunning (fetch2 {r} flag slot_num has run) running =
    with_slot2 running (get_task-IsSound flag slot_num (slot2-IsSound running has) r run)

Reach-IsRunning :
    {copy_from_user : Option (List ℕ) → ℕ → List ℕ} {alloc : ℕ → ℕ → ℕ} {from driver : Driver}
    → Reach copy_from_user from driver
    → IsRunning alloc from
    → IsRunning alloc driver
Reach-IsRunning start running = running
Reach-IsRunning (next r st) running = Step-IsRunning st (Reach-IsRunning r running)

new_admin-IsSound : (alloc : ℕ → ℕ) → IsSound (new_admin alloc)
new_admin-IsSound alloc = record {
  data_sys = record { apart = refl; distinct = tt; at_begin = refl };
  voice_sys = record { apart = refl; distinct = tt; at_begin = refl };
  data_user =
      hash_map_init-IsValid 2 (task_size + 2) 10 default_hash_func default_key_cmp_func
        (omega arith);
  voice_user =
      hash_map_init-IsValid 2 (task_size + 2) 10 default_hash_func default_key_cmp_func
        (omega arith);
}

IsLoaded-IsRunning :
    {k : Kernel} {plat : Plat} → IsLoaded k plat → IsRunning k.entry_alloc plat.driver
IsLoaded-IsRunning {k} loaded = record {
  started = loaded.started;
  admin1 = new_admin k.slot1_alloc;
  admin2 = new_admin k.slot2_alloc;
  slot1 = loaded.slot1;
  slot2 = loaded.slot2;
  sound1 = new_admin-IsSound k.slot1_alloc;
  sound2 = new_admin-IsSound k.slot2_alloc;
}

-- How many tasks wait in the two administrations.
abbrev pub waiting_in : Option TaskAdmin → ℕ
waiting_in none = 0
waiting_in (some admin) = waiting admin

-- After loading where the kernel has all that the driver asks for, and any sequence of writes and
-- fetches that return, the table of formats is the one of the start, and the removal of the driver
-- returns 0, with fuel for one round more than tasks wait, if iounmap returns for NULL. Of what the
-- loading obtained, the removal gives back the private data, the character device, the class and
-- the administrations; it leaves the class device, the allocator, the formats, and the records of
-- the administrations' lists and maps. The nodes of the tasks are to stand at addresses that are
-- not in use.
pub plat_remove-Reach :
    {k : Kernel} {plat : Plat} {driver : Driver} {code : ℕ}
    (copy_from_user : Option (List ℕ) → ℕ → List ℕ) (iounmap : ℕ → Run (Unit {0})) (fuel : ℕ)
    → iounmap 0 ≡ ok tt
    → IsGenerous k
    → plat_probe k ≡ ok (plat, code)
    → Reach copy_from_user plat.driver driver
    → waiting_in driver.task_admin_slot1_gp + waiting_in driver.task_admin_slot2_gp < fuel
    → HasStarted k.entry_alloc driver
      × Returns
          (plat_remove iounmap fuel (record plat { driver = driver }))
          λ s. (s.1 ≡ 0) × (s.0.device ≡ none) × (s.0.held ≡ leaked)
plat_remove-Reach {k} {plat} {driver} {code} copy_from_user iounmap fuel unmaps g run reach enough =
    let (r, run', (good, loaded')) = plat_probe-IsLoaded k g in
    let loaded : IsLoaded k plat =
      subst (λ (r : Plat × ℕ). IsLoaded k r.0) (ok-injective (sym run' ∙ run)) loaded' in
    let running = Reach-IsRunning reach (IsLoaded-IsRunning loaded) in
    let few1 : waiting running.admin1 < fuel = omega (arith, ap waiting_in running.slot1) in
    let few2 : waiting running.admin2 < fuel = omega (arith, ap waiting_in running.slot2) in
    let (gone1, first, none1) = destroy_task_admin-IsSound fuel running.sound1 few1 in
    let (gone2, second, none2) = destroy_task_admin-IsSound fuel running.sound2 few2 in
    (
      running.started,
      remove_run iounmap fuel driver g loaded unmaps running.slot1 running.slot2 first second,
    )
