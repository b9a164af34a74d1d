-- ===== src/PlatDriver/Probe.antt =====
-- Loading the driver and taking it away again.
use linux_char_driver_frame.Base.{
  none, List, Run, ℕ, suc, ◌+◌, ◌≤◌, ◌<◌, ◌≡◌, ◌↔◌, refl, ap, ◌∙◌, arith, some, none, [], ◌∷◌, ok,
  Returns, ◌>>=◌, u32, sub32, sym, some-injective, minus_one, ◌==◌, if◌then◌else◌,
}
use linux_char_driver_frame.Format.{FormatSet, pfs_create_proto_format_set, init_proto_format_set}
use linux_char_driver_frame.HashMap.{hash_map_init, default_hash_func, default_key_cmp_func}
use linux_char_driver_frame.HashMap.Walk.{destroy_loop, hash_map_destroy}
use linux_char_driver_frame.LinkList.{llist_pos_next, llist_destroy_loop, llist_destroy}
use linux_char_driver_frame.PdtFormat.Table.{set_driver-IsDriverTable}
use linux_char_driver_frame.TaskAdmin.{TaskAdmin, task_size, create_task_admin, destroy_task_admin}
use linux_char_driver_frame.TaskAdmin.Create.{new_list, new_admin, create_task_admin-Holds}
use linux_char_driver_frame.Business.Start.{HasStarted}
use linux_char_driver_frame.Business.{Driver}
use linux_char_driver_frame.PlatDriver.{
  Held, private_data, char_device, device_class, class_device, allocator_memory, format_set,
  format_table, format_lists, administration1, containers1, administration2, containers2, all_held,
  give_back, pointer, Kernel, Plat, Device, mkdev, def_major, unloaded, start_driver, plat_probe,
  plat_remove,
}

-- The kernel has all that the driver asks for.
pub record IsGenerous (k : Kernel) : Type 0 where
  pub mem_start : ℕ
  pub mem_end : ℕ
  pub class_addr : ℕ
  pub class_dev_addr : ℕ
  pub has_mem : k.mem_resource ≡ some (mem_start, mem_end)
  pub has_class : k.class ≡ pointer class_addr
  pub has_class_dev : k.class_dev ≡ pointer class_dev_addr
  pub priv_pos : 0 < k.priv_addr
  pub allocator_pos : 0 < k.allocator_addr
  pub formats_pos : 0 < k.formats_addr
  pub table_pos : 0 < k.table_addr
  pub entry_pos : (n i : ℕ) → 0 < k.entry_alloc n i
  pub slot1_pos : (i : ℕ) → i ≤ 10 → 0 < k.slot1_alloc i
  pub slot2_pos : (i : ℕ) → i ≤ 10 → 0 < k.slot2_alloc i

-- What the driver keeps of a device with the memory range.
abbrev pub device_of : Kernel → ℕ × ℕ → Device
device_of k mem = record {
  phy_base = mem.0;
  vir_base = 0;
  phy_size = u32 (sub32 mem.1 mem.0 + 1);
  irq = elim k.irq_resource [ none ↦ none | some res2 ↦ some res2.0 ];
  dev_id = if k.id == minus_one then mkdev def_major 0 else mkdev def_major k.id;
}

-- What a driver is after its start: its formats are set up, and both slots have an administration
-- without tasks.
pub record IsLoaded (k : Kernel) (plat : Plat) : Type 0 where
  pub started : HasStarted k.entry_alloc plat.driver
  pub slot1 : plat.driver.task_admin_slot1_gp ≡ some (new_admin k.slot1_alloc)
  pub slot2 : plat.driver.task_admin_slot2_gp ≡ some (new_admin k.slot2_alloc)
  pub has_device : (mem : ℕ × ℕ) → k.mem_resource ≡ some mem → plat.device ≡ some (device_of k mem)
  pub holds : plat.held ≡ all_held

new_admin_run :
    (alloc : ℕ → ℕ)
    → ((i : ℕ) → i ≤ 10 → 0 < alloc i)
    → create_task_admin alloc ≡ ok (some (new_admin alloc), [])
new_admin_run alloc pos =
    let (r, run, (is, holds)) =
      create_task_admin-Holds alloc (λ j. suc (alloc 3 + alloc 5)) pos (λ j e. absurd (omega arith))
        (λ j e. absurd (omega arith)) in
    run ∙ ap ok is

probe_run :
    (k : Kernel) (g : IsGenerous k) (driver : Driver)
    → start_driver k ≡ ok driver
    → plat_probe k
      ≡ ok (
        record unloaded {
          device = some (device_of k (g.mem_start, g.mem_end));
          held = all_held;
          driver = driver;
        },
        0,
      )
unfolding plat_probe
probe_run k g driver start =
    ground (arith, g.has_mem, g.has_class, g.has_class_dev, g.priv_pos, g.allocator_pos, start)

pub plat_probe-IsLoaded :
    (k : Kernel) → IsGenerous k → Returns (plat_probe k) λ r. (r.1 ≡ 0) × IsLoaded k r.0
unfolding start_driver pfs_create_proto_format_set init_proto_format_set
plat_probe-IsLoaded k g =
    let blank : FormatSet = record {
      list_head_p2 = none;
      proto_total_num = 0;
      proto_max_num = 0;
      proto_base_addr = 0;
    } in
    let (pfs, set_up, table) = set_driver-IsDriverTable k.entry_alloc g.entry_pos blank in
    let first = new_admin_run k.slot1_alloc g.slot1_pos in
    let second = new_admin_run k.slot2_alloc g.slot2_pos in
    let driver : Driver = record {
      pfs_p = some pfs;
      task_admin_slot1_gp = some (new_admin k.slot1_alloc);
      task_admin_slot2_gp = some (new_admin k.slot2_alloc);
    } in
    let start : start_driver k ≡ ok driver =
      ground (arith, g.formats_pos, g.table_pos, set_up, first, second) in
    (
      _,
      probe_run k g driver start,
      (
        refl,
        record {
          started = record { pfs = pfs; has_formats = refl; formats = table };
          slot1 = refl;
          slot2 = refl;
          has_device = λ mem e. ap (λ m. some (device_of k m)) (some-injective (sym g.has_mem ∙ e));
          holds = refl;
        },
      ),
    )

destroy_empty : (fuel p : ℕ) → llist_destroy (suc fuel) (new_list p) ≡ ok (new_list p)
unfolding llist_destroy llist_destroy_loop llist_pos_next
destroy_empty fuel p = ground arith

destroy_new :
    (fuel : ℕ) (alloc : ℕ → ℕ)
    → (gone : TaskAdmin) × (destroy_task_admin (suc fuel) (new_admin alloc) ≡ ok gone)
unfolding destroy_task_admin hash_map_destroy destroy_loop hash_map_init
destroy_new fuel alloc =
    let empty = hash_map_init 2 (task_size + 2) 10 default_hash_func default_key_cmp_func in
    let new = new_admin alloc in
    let gone : TaskAdmin = record new {
      data_user_designate_slot = record empty { hlist = [] };
      voice_user_designate_slot = record empty { hlist = [] };
    } in
    (gone, rw (destroy_empty fuel (alloc 5), ◌>>=◌, destroy_empty fuel (alloc 3)) refl)

-- What a removal gives back of what is held.
abbrev pub given_back : List Held → List Held
given_back held = give_back private_data (
    give_back char_device
      (give_back device_class (give_back administration2 (give_back administration1 held))))

-- What the driver still holds when it is removed.
abbrev pub leaked : List Held
leaked =
    containers2 ∷ containers1 ∷ format_lists ∷ format_table ∷ format_set ∷ allocator_memory
    ∷ class_device ∷ []

pub given_back-all_held : given_back all_held ≡ leaked
unfolding give_back
given_back-all_held = refl

-- The last steps of a removal, behind the administrations.
pub remove_run :
    (iounmap : ℕ → Run (Unit {0})) (fuel : ℕ) (driver : Driver) {k : Kernel} {plat : Plat}
    {admin1 gone1 admin2 gone2 : TaskAdmin}
    → IsGenerous k
    → IsLoaded k plat
    → iounmap 0 ≡ ok tt
    → driver.task_admin_slot1_gp ≡ some admin1
    → driver.task_admin_slot2_gp ≡ some admin2
    → destroy_task_admin fuel admin1 ≡ ok gone1
    → destroy_task_admin fuel admin2 ≡ ok gone2
    → Returns
        (plat_remove iounmap fuel (record plat { driver = driver }))
        λ s. (s.1 ≡ 0) × (s.0.device ≡ none) × (s.0.held ≡ leaked)
unfolding plat_remove
remove_run iounmap fuel driver {k} {plat} g loaded unmaps slot1 slot2 first second =
    let device = loaded.has_device (g.mem_start, g.mem_end) g.has_mem in
    (
      (record plat { driver = driver; device = none; held = given_back plat.held }, 0),
      rw (slot1, ◌>>=◌, first, ◌>>=◌, slot2, ◌>>=◌, second, ◌>>=◌, device, ◌>>=◌, unmaps) refl,
      (refl, refl, ap given_back loaded.holds ∙ given_back-all_held),
    )

-- Loading the driver where the kernel has all that it asks for returns 0 with the formats and the
-- administrations set up; a removal of the driver then returns 0, if iounmap returns for NULL. Of
-- what the loading obtained, the removal gives back the private data, the character device, the
-- class and the administrations; it leaves the class device, the allocator, the formats, and the
-- records of the administrations' lists and maps.
pub plat_remove-plat_probe :
    (iounmap : ℕ → Run (Unit {0})) (fuel : ℕ) (k : Kernel)
    → iounmap 0 ≡ ok tt
    → IsGenerous k
    → Returns (plat_probe k) λ r.
      (r.1 ≡ 0)
      × IsLoaded k r.0
      × Returns
          (plat_remove iounmap (suc fuel) r.0)
          λ s. (s.1 ≡ 0) × (s.0.device ≡ none) × (s.0.held ≡ leaked)
plat_remove-plat_probe iounmap fuel k unmaps g =
    let (r, run, (good, loaded)) = plat_probe-IsLoaded k g in
    let (gone1, first) = destroy_new fuel k.slot1_alloc in
    let (gone2, second) = destroy_new fuel k.slot2_alloc in
    (
      r,
      run,
      (
        good,
        loaded,
        remove_run iounmap (suc fuel) r.0.driver g loaded unmaps loaded.slot1 loaded.slot2 first
            second,
      ),
    )

-- Loading that ends with an error leaves nothing held exactly where the private data could not be
-- allocated; an error of the class or of its device leaves something held.
pub plat_probe-held :
    (k : Kernel) (plat : Plat) (code : ℕ)
    → plat_probe k ≡ ok (plat, code)
    → 0 < code
    → (plat.held ≡ []) ↔ (k.priv_addr ≡ 0)
unfolding plat_probe give_back
plat_probe-held k plat code run failed =
    ((λ empty. ground (arith, run, failed, empty)), (λ null. ground (arith, run, null)))
