-- ===== src/Tests/Loading.antt =====
-- The driver loaded where everything succeeds, and messages written to it.
use linux_char_driver_frame.Base.{
  none, ℕ, ◌+◌, ◌*◌, ◌^◌, ◌%◌, ◌<◌, ◌≡◌, ◌↔◌, refl, arith, true, Option, some, none, List, [], ◌∷◌,
  replicate, ◌++◌, take, sym, ap, Run, ok, fault, Returns,
}
use linux_char_driver_frame.Format.{FormatSet, with_table}
use mathlib.Core.Path.{subst}
use linux_char_driver_frame.PdtFormat.{pfs_set_pdt_drv_proto_format}
use linux_char_driver_frame.PdtFormat.Table.{IsDriverTable, driver_format, set_driver-IsDriverTable}
use linux_char_driver_frame.Business.{Driver, Supply, new_analyzer}
use linux_char_driver_frame.Business.Init.{IsReady}
use linux_char_driver_frame.Business.Start.{
  Message, index, layout, IsSupply, HasStarted, new_analyzer-IsReady,
}
use linux_char_driver_frame.PlatDriver.{
  char_device, private_data, is_err, pointer, Kernel, Plat, unloaded, plat_probe, plat_remove,
}
use linux_char_driver_frame.PlatDriver.Probe.{
  leaked, IsGenerous, IsLoaded, plat_remove-plat_probe, plat_probe-held,
}

abbrev pub entries : ℕ → ℕ → ℕ
entries n k = 1000 + 100 * n + k

abbrev pub blank_set : FormatSet
blank_set = record {
  list_head_p2 = none;
  proto_total_num = 0;
  proto_max_num = 0;
  proto_base_addr = 0;
}

abbrev pub kernel : Kernel
kernel = record {
  mem_resource = some (0x1000, 0x1fff);
  irq_resource = none;
  id = 3;
  priv_addr = 10;
  class = pointer 20;
  class_dev = pointer 30;
  allocator_addr = 40;
  formats_addr = 50;
  table_addr = 60;
  entry_alloc = entries;
  slot1_alloc = λ k. 100 + k;
  slot2_alloc = λ k. 200 + k;
}

pub kernel-IsGenerous : IsGenerous kernel
kernel-IsGenerous = record {
  mem_start = 0x1000;
  mem_end = 0x1fff;
  class_addr = 20;
  class_dev_addr = 30;
  has_mem = refl;
  has_class = refl;
  has_class_dev = refl;
  priv_pos = omega arith;
  allocator_pos = omega arith;
  formats_pos = omega arith;
  table_pos = omega arith;
  entry_pos = λ n i. omega arith;
  slot1_pos = λ i h. omega arith;
  slot2_pos = λ i h. omega arith;
}

plat_remove-plat_probe_example : Returns (plat_probe kernel) λ r.
    (r.1 ≡ 0)
    × IsLoaded kernel r.0
    × Returns
        (plat_remove (λ p. ok tt) 1 r.0)
        λ s. (s.1 ≡ 0) × (s.0.device ≡ none) × (s.0.held ≡ leaked)
plat_remove-plat_probe_example = plat_remove-plat_probe (λ p. ok tt) 0 kernel refl kernel-IsGenerous

-- The class cannot be made.
abbrev no_class : Kernel
no_class = record kernel { class = is_err 5 }

abbrev after_no_class : Plat
after_no_class = record unloaded {
  device = some (record {
    phy_base = 0x1000;
    vir_base = 0;
    phy_size = 0x1000;
    irq = none;
    dev_id = 90 * 2 ^ 20 + 3;
  });
  held = char_device ∷ private_data ∷ [];
}

no_class_run : plat_probe no_class ≡ ok (after_no_class, 5)
unfolding plat_probe
no_class_run = refl

plat_probe-held_example : (after_no_class.held ≡ []) ↔ (no_class.priv_addr ≡ 0)
plat_probe-held_example = plat_probe-held no_class after_no_class 5 no_class_run (omega arith)

abbrev pub supply : Supply
supply = record {
  analyzer_alloc = λ n. 10000 + n;
  info_alloc = λ n k. 20000 + (1000 * n + k) % 2 ^ 20;
  node_alloc = λ n k. 30000 + 1000 * n + k;
  room = λ n k. true;
  task_addr = 5;
  memory = λ p. none;
  local_task = record {
    data_byte = 0;
    type = 0;
    slot_type = 0;
    padding = 0;
    slot_num = 0;
    tact_info = 0;
  };
}

pub supply-IsSupply : IsSupply supply
supply-IsSupply = record {
  analyzer_pos = λ n. omega arith;
  info_pos = λ n k. omega arith;
  info_word = λ n k. omega arith;
  info_apart = λ n j k h low e. absurd (omega arith);
  node_pos = λ n k. omega arith;
  node_apart = λ n j k h e. absurd (omega arith);
}

pub entries_pos : (n k : ℕ) → 0 < entries n k
entries_pos n k = omega arith

-- The formats that the start of the driver leaves.
abbrev pub formats_run : Run FormatSet
formats_run = pfs_set_pdt_drv_proto_format entries (with_table 0x3000 100 blank_set)

abbrev pub result_of : Run FormatSet → FormatSet
result_of (fault e) = blank_set
result_of (ok pfs) = pfs

abbrev pub driver : Driver
driver = record {
  pfs_p = some (result_of formats_run);
  task_admin_slot1_gp = none;
  task_admin_slot2_gp = none;
}

pub driver-HasStarted : HasStarted entries driver
driver-HasStarted =
    let (pfs, run, table) = set_driver-IsDriverTable entries entries_pos blank_set in
    record {
      pfs = result_of formats_run;
      has_formats = refl;
      formats = subst (IsDriverTable (driver_format entries)) (sym (ap result_of run)) table;
    }

new_analyzer-IsReady_example :
    Returns (new_analyzer supply 1 (0x3000 + index Message.m3052) driver) λ pa.
      IsReady (supply.info_alloc 1) (layout Message.m3052) pa × (pa.protocol_data ≡ replicate 100 0)
new_analyzer-IsReady_example =
    new_analyzer-IsReady 1 Message.m3052 supply-IsSupply driver-HasStarted

abbrev long_message : List ℕ
long_message = 0x30 ∷ 8 ∷ replicate 99 7

-- The user's bytes, or zeros.
abbrev pub from_user : Option (List ℕ) → ℕ → List ℕ
from_user none count = replicate count 0
from_user (some bytes) count = take count (bytes ++ replicate count 0)
