-- ===== src/Tests/Removing.antt =====
-- A loaded driver that is written to and removed, and a program that uses its file.
use linux_char_driver_frame.Base.{
  ok, none, ℕ, suc, ◌+◌, ◌<◌, ◌≡◌, ◌≢◌, refl, sym, ◌∙◌, arith, some, [], replicate, some-injective,
  Returns, List, ◌∷◌, ◌++◌, ◌>>=◌, fault, out_of_fuel,
}
use mathlib.Core.Path.{subst}
use linux_char_driver_frame.HashMap.{hash_map_init}
use linux_char_driver_frame.TaskAdmin.Create.{new_admin, new_admin-Holds}
use linux_char_driver_frame.TaskAdmin.Refine.{Holds}
use linux_char_driver_frame.TaskAdmin.Sound.{IsFree}
use linux_char_driver_frame.Business.{Supply}
use linux_char_driver_frame.Business.Start.{IsSupply, HasStarted}
use linux_char_driver_frame.Business.MakeTask.{task_of}
use linux_char_driver_frame.Business.Send.{Waits}
use linux_char_driver_frame.PlatDriver.{Plat, plat_probe, plat_remove, device_write}
use linux_char_driver_frame.PlatDriver.Probe.{leaked, IsLoaded, plat_probe-IsLoaded}
use linux_char_driver_frame.PlatDriver.Life.{IsUnused}
use linux_char_driver_frame.PlatDriver.Files.{
  FileCall, ioctl_file, write_file, release_file, read_file, opened, file_calls, writes,
  file_calls-writes,
}
use linux_char_driver_frame.PlatDriver.Reach.{write, start, next, waiting_in, plat_remove-Reach}
use linux_char_driver_frame.Tests.Loading.{
  kernel, kernel-IsGenerous, entries, supply, supply-IsSupply, from_user,
}
use linux_char_driver_frame.PlatDriver.Deliver.{device_write-Waits}
use linux_char_driver_frame.Tests.Sending.{written, written-IsComplete, designated}

abbrev loading : Returns (plat_probe kernel) λ r. (r.1 ≡ 0) × IsLoaded kernel r.0
loading = plat_probe-IsLoaded kernel kernel-IsGenerous

abbrev loaded : Plat
loaded = loading.0.0

-- The nodes of the tasks come behind both administrations.
node_at : ℕ → ℕ
node_at j = 300 + j

node_at_pos : (j : ℕ) → 0 < node_at j
unfolding node_at
node_at_pos j = omega arith

node_at_apart : (j k : ℕ) → j < k → node_at j ≢ node_at k
unfolding node_at
node_at_apart j k h e = absurd (omega arith)

abbrev writer : Supply
writer = record supply { task_addr = 300 }

writer-IsSupply : IsSupply writer
writer-IsSupply = record {
  analyzer_pos = supply-IsSupply.analyzer_pos;
  info_pos = supply-IsSupply.info_pos;
  info_word = supply-IsSupply.info_word;
  info_apart = supply-IsSupply.info_apart;
  node_pos = supply-IsSupply.node_pos;
  node_apart = supply-IsSupply.node_apart;
}

at_start : writer.task_addr ≡ node_at 0
unfolding node_at
at_start = refl

start-Holds :
    Holds node_at 0 (record { for_data = []; for_voice = [] }) (new_admin kernel.slot1_alloc)
unfolding node_at
start-Holds =
    new_admin-Holds kernel.slot1_alloc node_at (λ j e. absurd (omega arith))
      (λ j e. absurd (omega arith))

abbrev delivered :
    Returns (device_write from_user writer (replicate 1024 0) (some written) 16 loaded.driver) λ r.
      (r.1 ≡ 0)
      × Waits node_at 0
          (record { for_data = []; for_voice = [] })
          (task_of 0x1002 3 writer.local_task)
          loaded.driver
          r.0
delivered =
    device_write-Waits from_user (replicate 1024 0) (some written) node_at writer-IsSupply
      loading.2.1.started refl node_at_pos node_at_apart at_start refl refl refl written-IsComplete
      designated loading.2.1.slot1 start-Holds

new_admin-IsFree : (alloc : ℕ → ℕ) → 300 ≢ alloc 3 → 300 ≢ alloc 5 → IsFree 300 (new_admin alloc)
unfolding hash_map_init
new_admin-IsFree alloc data_apart voice_apart = record {
  data_head = data_apart;
  data_nodes = refl;
  voice_head = voice_apart;
  voice_nodes = refl;
  data_map = refl;
  voice_map = refl;
}

loaded-IsUnused : IsUnused 300 loaded.driver
loaded-IsUnused = record {
  free1 = λ admin is.
      subst (IsFree 300) (some-injective (sym loading.2.1.slot1 ∙ is)) (
        new_admin-IsFree kernel.slot1_alloc (λ e. absurd (omega arith))
          (λ e. absurd (omega arith)));
  free2 = λ admin is.
      subst (IsFree 300) (some-injective (sym loading.2.1.slot2 ∙ is)) (
        new_admin-IsFree kernel.slot2_alloc (λ e. absurd (omega arith))
          (λ e. absurd (omega arith)));
}

abbrev rounds : ℕ
rounds =
    suc
      (waiting_in delivered.0.0.task_admin_slot1_gp + waiting_in delivered.0.0.task_admin_slot2_gp)

plat_remove-Reach_example :
    HasStarted entries delivered.0.0
    × Returns
        (plat_remove (λ p. ok tt) rounds (record loaded { driver = delivered.0.0 }))
        λ s. (s.1 ≡ 0) × (s.0.device ≡ none) × (s.0.held ≡ leaked)
plat_remove-Reach_example =
    plat_remove-Reach from_user (λ p. ok tt) rounds refl kernel-IsGenerous loading.1
      (next start (
        write writer (replicate 1024 0) (some written) 16 delivered.0.1 loaded-IsUnused
          delivered.1))
      (omega arith)

-- What a program does with the open file.
abbrev program : List FileCall
program =
    ioctl_file 2 0 ∷ write_file writer (replicate 1024 0) (some written) 16 ∷ release_file ∷ []

file_calls-writes_example :
    (file_calls from_user 6 program (opened 500) loaded.driver
      ≡ writes from_user program loaded.driver)
    × (file_calls from_user 6 (program ++ read_file 4 ∷ []) (opened 500) loaded.driver
        ≡ (writes from_user program loaded.driver >>= λ d. fault out_of_fuel))
file_calls-writes_example = file_calls-writes from_user 6 program [] 4 500 loaded.driver tt
