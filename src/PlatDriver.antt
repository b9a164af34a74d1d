-- ===== src/PlatDriver.antt =====
-- The platform driver: driver/plat_driver.c.
--
-- What the kernel answers is an argument. The calls that only log or register with the kernel are
-- left out, but for what they hold. PlatDriver/Files has the operations of the device's file.
pub mod Probe
pub mod Write
pub mod Deliver
pub mod Life
pub mod Reach
pub mod Files
use linux_char_driver_frame.Base.{
  ℕ, ◌+◌, ◌-◌, ◌^◌, Bool, true, false, Option, none, some, List, [], ◌∷◌, Run, ok, fault,
  null_pointer, uninitialised, or_fault, load, memcpy, ◌>>=◌, u16, u32, sub32, bit_or, ◌<<<◌,
  minus_one, ◌==◌, if◌then◌else◌,
}
use linux_char_driver_frame.Format.{pfs_create_proto_format_set, init_proto_format_set}
use linux_char_driver_frame.PdtFormat.{pfs_set_pdt_drv_proto_format}
use linux_char_driver_frame.TaskAdmin.{create_task_admin, destroy_task_admin}
use linux_char_driver_frame.Business.{Driver, Supply, process_protocol}

-- What the loading of the driver obtains: the private data, the character device, the class and its
-- class device; the memory of the allocator, of the table's record, of the table, and of the lists
-- of the formats with their fields; and for each of the two administrations what
-- `destroy_task_admin` frees, which is the record, its allocator, the heads of the lists and the
-- tables of the maps, and the records of the lists, the maps and the pair, which it does not free.
pub data Held : Type 0 where
  private_data char_device device_class class_device : Held
  allocator_memory format_set format_table format_lists : Held
  administration1 containers1 administration2 containers2 : Held

abbrev held_number : Held → ℕ
held_number private_data = 0
held_number char_device = 1
held_number device_class = 2
held_number class_device = 3
held_number allocator_memory = 4
held_number format_set = 5
held_number format_table = 6
held_number format_lists = 7
held_number administration1 = 8
held_number containers1 = 9
held_number administration2 = 10
held_number containers2 = 11

abbrev same_held : Held → Held → Bool
same_held a b = held_number a == held_number b

-- What is left of the things held when one of them is given back.
unfoldable pub give_back : Held → List Held → List Held
give_back h [] = []
give_back h (x ∷ held) = if same_held h x then held else x ∷ give_back h held

-- A pointer that the kernel returns, or the code of an error in its place.
pub data Answer : Type 0 where
  is_err : (code : ℕ) → Answer
  pointer : (addr : ℕ) → Answer

-- The two resources are ranges from a start to an end. `entry_alloc` gives the entries of the
-- formats their addresses, and `slot1_alloc` and `slot2_alloc` the administrations theirs.
pub record Kernel : Type 0 where
  pub mem_resource : Option (ℕ × ℕ)
  pub irq_resource : Option (ℕ × ℕ)
  pub id : ℕ
  pub priv_addr : ℕ
  pub class : Answer
  pub class_dev : Answer
  pub allocator_addr : ℕ
  pub formats_addr : ℕ
  pub table_addr : ℕ
  pub entry_alloc : ℕ → ℕ → ℕ
  pub slot1_alloc : ℕ → ℕ
  pub slot2_alloc : ℕ → ℕ

pub record Device : Type 0 where
  pub phy_base : ℕ
  pub vir_base : ℕ
  pub phy_size : ℕ
  pub irq : Option ℕ
  pub dev_id : ℕ

-- The state: the private data, what is held, and the global variables.
pub record Plat : Type 0 where
  pub device : Option Device
  pub held : List Held
  pub driver : Driver

-- The error -ENOMEM.
abbrev pub enomem : ℕ
enomem = 2 ^ 32 - 12

abbrev pub def_major : ℕ
def_major = 90

abbrev pub mkdev : ℕ → ℕ → ℕ
mkdev major minor = u32 (bit_or (major <<< 20) minor)

abbrev pub unloaded : Plat
unloaded = record {
  device = none;
  held = [];
  driver = record { pfs_p = none; task_admin_slot1_gp = none; task_admin_slot2_gp = none };
}

-- All that a loading without an error obtains, the last first.
abbrev pub all_held : List Held
all_held =
    containers2 ∷ administration2 ∷ containers1 ∷ administration1 ∷ format_lists ∷ format_table
    ∷ format_set ∷ allocator_memory ∷ class_device ∷ device_class ∷ char_device ∷ private_data ∷ []

-- The start of the parts of the driver behind the test of the allocator.
unfoldable pub start_driver : Kernel → Run Driver
start_driver k = do
  blank ← pfs_create_proto_format_set k.formats_addr
  table ← init_proto_format_set k.table_addr 0x3000 100 blank
  pfs ← pfs_set_pdt_drv_proto_format k.entry_alloc table
  slot1 ← create_task_admin k.slot1_alloc
  slot2 ← create_task_admin k.slot2_alloc
  ok (record { pfs_p = some pfs; task_admin_slot1_gp = slot1.0; task_admin_slot2_gp = slot2.0 })

-- The state that the call leaves and its result. A missing resource is logged, and then read. At
-- `err3` the result is the local `ret`, which was never set; `err4` is not reached, since the
-- callee writes through the NULL before.
unfoldable pub plat_probe : Kernel → Run (Plat × ℕ)
plat_probe k =
    if k.priv_addr == 0
    then ok (unloaded, enomem)
    else (or_fault null_pointer k.mem_resource >>= λ res1.
        let device : Device = record {
          phy_base = res1.0;
          vir_base = 0;
          phy_size = u32 (sub32 res1.1 res1.0 + 1);
          irq = elim k.irq_resource [ none ↦ none | some res2 ↦ some res2.0 ];
          dev_id = if k.id == minus_one then mkdev def_major 0 else mkdev def_major k.id;
        } in
        let added : Plat = record unloaded {
          device = some device;
          held = char_device ∷ private_data ∷ [];
        } in
        elim k.class [
          | is_err code ↦ ok (added, code)
          | pointer class ↦ elim k.class_dev [
            | is_err code ↦ ok (
              record added {
                device = none;
                held =
                    give_back private_data
                      (give_back char_device (device_class ∷ char_device ∷ private_data ∷ []));
              },
              code,
            )
            | pointer class_dev ↦
                if k.allocator_addr == 0
                then fault uninitialised
                else (start_driver k >>= λ driver.
                    ok (record added { held = all_held; driver = driver }, 0))
          ]
        ])

-- The administrations run on fuel. `device_destroy` looks for a device of the class, of which there
-- is none: the counterpart of `class_device_create` would be `class_device_destroy`. `iounmap` is
-- the kernel's, and gets the address of a mapping that was never made.
unfoldable pub plat_remove : (ℕ → Run (Unit {0})) → ℕ → Plat → Run (Plat × ℕ)
plat_remove iounmap fuel plat = do
  admin1 ← or_fault null_pointer plat.driver.task_admin_slot1_gp
  gone1 ← destroy_task_admin fuel admin1
  admin2 ← or_fault null_pointer plat.driver.task_admin_slot2_gp
  gone2 ← destroy_task_admin fuel admin2
  pdev_priv ← or_fault null_pointer plat.device
  unmapped ← iounmap pdev_priv.vir_base
  ok (
    record plat {
      device = none;
      held = give_back private_data (
          give_back char_device (
            give_back device_class
              (give_back administration2 (give_back administration1 plat.held))));
    },
    0,
  )

-- `copy_from_user` gives the bytes that it leaves at its target, which it is passed with the
-- pointer of the user and their number. `stack` is what the array `data` of 1024 bytes held. A NULL
-- pointer or a count of 0 is logged and goes on.
unfoldable pub device_write :
    (Option (List ℕ) → ℕ → List ℕ)
    → Supply
    → List ℕ
    → Option (List ℕ)
    → ℕ
    → Driver
    → Run (Driver × ℕ)
device_write copy_from_user s stack buf count driver = do
  data' ← memcpy count stack 0 (copy_from_user buf count)
  high ← load data' 0
  low ← load data' 1
  driver' ← process_protocol s (u16 (bit_or (high <<< 8) low)) data' count driver
  ok (driver', 0)
