-- ===== src/PlatDevice.antt =====
-- The platform device: device/plat_device.c, the module whose device the driver of
-- driver/plat_driver.c is for, and the registration of both.
--
-- What the kernel answers to a registration is an argument.
use linux_char_driver_frame.Base.{
  ℕ, ◌+◌, ◌-◌, ◌≡◌, refl, ◌∙◌, some, none, Option, List, [], ◌∷◌, Returns, ◌*◌, ◌^◌, ◌==◌,
  if◌then◌else◌,
}
use linux_char_driver_frame.PlatDriver.{Kernel, plat_probe}
use linux_char_driver_frame.PlatDriver.Probe.{IsGenerous, plat_probe-IsLoaded}

abbrev base_card : ℕ
base_card = 0xF4802400

abbrev size_card : ℕ
size_card = 0x100

abbrev irq_card : ℕ
irq_card = 11

-- The kernel's flags of the two types of resources.
abbrev pub ioresource_mem : ℕ
ioresource_mem = 0x200

abbrev pub ioresource_irq : ℕ
ioresource_irq = 0x400

pub record Resource : Type 0 where
  pub start : ℕ
  pub end : ℕ
  pub flags : ℕ

pub record PlatformDevice : Type 0 where
  pub name : List ℕ
  pub id : ℕ
  pub resource : List Resource

-- "arm_hpi", the name by which the kernel finds the driver of the device.
abbrev pub device_name : List ℕ
device_name = 97 ∷ 114 ∷ 109 ∷ 95 ∷ 104 ∷ 112 ∷ 105 ∷ []

abbrev pub driver_name : List ℕ
driver_name = 97 ∷ 114 ∷ 109 ∷ 95 ∷ 104 ∷ 112 ∷ 105 ∷ []

abbrev pub plat_res : List Resource
plat_res =
    record { start = base_card; end = base_card + size_card - 1; flags = ioresource_mem }
    ∷ record { start = irq_card; end = irq_card; flags = ioresource_irq }
    ∷ []

abbrev pub pdev : PlatformDevice
pdev = record { name = device_name; id = 2; resource = plat_res }

unfoldable pub device_module_init : (platform_device_register : PlatformDevice → ℕ) → ℕ
device_module_init platform_device_register = platform_device_register pdev

-- The result of the registration is not handed on.
unfoldable pub driver_module_init : (platform_driver_register : List ℕ → ℕ) → ℕ
driver_module_init platform_driver_register = let ret = platform_driver_register driver_name in 0

-- The range of the first resource of a type, which `platform_get_resource` is documented to give.
abbrev pub first_resource : ℕ → List Resource → Option (ℕ × ℕ)
first_resource flags [] = none
first_resource flags (r ∷ rs) =
    let rest = first_resource flags rs in if r.flags == flags then some (r.start, r.end) else rest

-- The kernel answers the driver's questions with what stands in the device.
pub record IsOf (device : PlatformDevice) (k : Kernel) : Type 0 where
  pub mem : k.mem_resource ≡ first_resource ioresource_mem device.resource
  pub irq : k.irq_resource ≡ first_resource ioresource_irq device.resource
  pub same_id : k.id ≡ device.id

-- Where the kernel has all that the driver asks for, loading the driver for the device of the other
-- module returns 0 with the 256 bytes from 0xF4802400, the interrupt 11, and the device number with
-- the major number 90 and the minor number 2.
plat_probe-pdev :
    (k : Kernel)
    → IsGenerous k
    → IsOf pdev k
    → Returns (plat_probe k) λ r.
      (r.1 ≡ 0)
      × (r.0.device
          ≡ some (record {
            phy_base = 0xF4802400;
            vir_base = 0;
            phy_size = 256;
            irq = some 11;
            dev_id = 90 * 2 ^ 20 + 2;
          }))
plat_probe-pdev k g of =
    let (r, run, (good, loaded)) = plat_probe-IsLoaded k g in
    (r, run, (good, loaded.has_device _ of.mem ∙ rw (of.irq, of.same_id) refl))
