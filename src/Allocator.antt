-- ===== src/Allocator.antt =====
-- The allocators: driver/liballoc/allocator.c, allocator_sys_alloc.c and
-- liballoc_register_modules.c.
--
-- The kernel's memory is a state `H`, and its `kmalloc` and `kfree` are arguments. NULL is the
-- address 0. What is at an address that `kmalloc` returned for an allocator is the record
-- `Allocator`, and a call through a pointer to it takes the record, and its address where that is
-- freed.
pub mod Client
use linux_char_driver_frame.Base.{
  ℕ, ◌+◌, Bool, true, false, Option, none, some, List, [], ◌∷◌, Run, ok, fault, null_pointer,
  or_fault, load, store, replicate, ◌>>=◌, u8, u32, ◌==◌, if◌then◌else◌,
}

-- The parameters of a `cds_alloc_t` that `allocator_ctr_init` sets.
pub record ContainerAlloc : Type 0 where
  pub slab_array_max_num : ℕ
  pub data_min_size : ℕ
  pub mempool_capacity : ℕ

-- `cds_alloc` is none as long as nothing of it has been set.
pub record Allocator : Type 0 where
  pub allocator_type : ℕ
  pub lock_type : ℕ
  pub cds_alloc : Option ContainerAlloc

-- The pointers to functions, each of which can be NULL. `init` can change the allocator, and its
-- result is not looked at.
pub record AllocatorOperations (H : Type 0) : Type 0 where
  pub init : Option (Allocator → H → Allocator × H)
  pub alloc : Option (Allocator → ℕ → H → H × ℕ)
  pub free : Option (Allocator → ℕ → H → H)
  pub destroy : Option (Allocator → H → H)
  pub info : Option (Allocator → H → H)

pub record AllocatorModule (H : Type 0) : Type 0 where
  pub allocator_type : ℕ
  pub alloc_ops : AllocatorOperations H

-- What the kernel offers.
pub record KernelMemory (H : Type 0) : Type 0 where
  pub kmalloc : ℕ → H → H × ℕ
  pub kfree : ℕ → H → H

abbrev pub allocator_type_sys_malloc : ℕ
allocator_type_sys_malloc = 0

abbrev pub allocator_type_ctr_malloc : ℕ
allocator_type_ctr_malloc = 1

abbrev pub allocator_type_last : ℕ
allocator_type_last = 2

module _ {H : Type 0} where
  -- The array `allocator_modules` before the driver's start: a global variable, all zeros.
  unfoldable pub allocator_modules : List (AllocatorModule H)
  allocator_modules = replicate allocator_type_last (record {
    allocator_type = 0;
    alloc_ops = record { init = none; alloc = none; free = none; destroy = none; info = none };
  })

  -- The allocator with its address, or none for NULL. `size` is that of an allocator.
  unfoldable pub allocator_creator : KernelMemory H → ℕ → ℕ → ℕ → H → H × Option (ℕ × Allocator)
  allocator_creator kernel size allocator_type lock_type h =
      let (h', addr) = kernel.kmalloc size h in
      if addr == 0 then (h', none) else (
        h',
        some (
          addr,
          record { allocator_type = u8 allocator_type; lock_type = u8 lock_type; cds_alloc = none },
        ),
      )

  module _ (modules : List (AllocatorModule H)) where
    unfoldable pub allocator_ctr_init : Allocator → ℕ → ℕ → ℕ → H → Run (Allocator × H)
    allocator_ctr_init alloc slab_array_max_num data_min_size mempool_capacity h = do
      m ← load modules alloc.allocator_type
      init ← or_fault null_pointer m.alloc_ops.init
      ok (
          init
            (record alloc {
              cds_alloc = some (record {
                slab_array_max_num = slab_array_max_num;
                data_min_size = data_min_size;
                mempool_capacity = mempool_capacity;
              });
            })
            h)

    unfoldable pub allocator_mem_alloc : Allocator → ℕ → H → Run (H × ℕ)
    allocator_mem_alloc alloc size h = do
      m ← load modules alloc.allocator_type
      f ← or_fault null_pointer m.alloc_ops.alloc
      ok (f alloc (u32 size) h)

    unfoldable pub allocator_mem_free : Allocator → ℕ → H → Run H
    allocator_mem_free alloc addr h = do
      m ← load modules alloc.allocator_type
      f ← or_fault null_pointer m.alloc_ops.free
      ok (f alloc addr h)

    unfoldable pub allocator_mem_info : Allocator → H → Run H
    allocator_mem_info alloc h = do
      m ← load modules alloc.allocator_type
      ok (elim m.alloc_ops.info [ none ↦ h | some f ↦ f alloc h ])

    -- `addr` is where the allocator stands.
    unfoldable pub allocator_destroy : KernelMemory H → ℕ → Allocator → H → Run H
    allocator_destroy kernel addr alloc h = do
      m ← load modules alloc.allocator_type
      ok (kernel.kfree addr (elim m.alloc_ops.destroy [ none ↦ h | some f ↦ f alloc h ]))

  unfoldable pub sys_alloc_alloc : KernelMemory H → Allocator → ℕ → H → H × ℕ
  sys_alloc_alloc kernel alloc size h = kernel.kmalloc size h

  unfoldable pub sys_alloc_free : KernelMemory H → Allocator → ℕ → H → H
  sys_alloc_free kernel alloc addr h = kernel.kfree addr h

  -- `info` is not named in the initialiser, and is NULL.
  unfoldable pub allocator_sys_alloc_register :
      KernelMemory H → List (AllocatorModule H) → Run (List (AllocatorModule H) × ℕ)
  allocator_sys_alloc_register kernel modules = do
    modules' ← store modules allocator_type_sys_malloc (record {
      allocator_type = allocator_type_sys_malloc;
      alloc_ops = record {
        init = none;
        alloc = some (sys_alloc_alloc kernel);
        free = some (sys_alloc_free kernel);
        destroy = none;
        info = none;
      };
    })
    ok (modules', 0)

  unfoldable pub liballoc_register_modules :
      KernelMemory H → List (AllocatorModule H) → Run (List (AllocatorModule H))
  liballoc_register_modules kernel modules =
      allocator_sys_alloc_register kernel modules >>= λ r. ok r.0
