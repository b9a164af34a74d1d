-- ===== src/Tests/Allocating.antt =====
-- The allocators over a kernel whose memory is a counter and the addresses in use.
use linux_char_driver_frame.Base.{
  ℕ, ◌+◌, ◌≡◌, arith, some, none, List, [], ◌∷◌, ◌++◌, ok, fault, null_pointer, replicate, ◌==◌,
  if◌then◌else◌, ◌>>=◌,
}
use linux_char_driver_frame.Allocator.{
  Allocator, KernelMemory, allocator_type_sys_malloc, allocator_type_ctr_malloc, allocator_modules,
  allocator_ctr_init, liballoc_register_modules,
}
use linux_char_driver_frame.Allocator.Client.{
  mem_alloc, mem_free, mem_info, session, session-kernel_session, session_ctr, kernel_session,
  kernel_calls,
}

abbrev without : ℕ → List ℕ → List ℕ
without a [] = []
without a (b ∷ used) = if b == a then used else b ∷ without a used

-- Every block takes as much room as it asks for and one byte more.
abbrev counting : KernelMemory (ℕ × List ℕ)
counting = record {
  kmalloc = λ size h. ((h.0 + size + 1, h.0 ∷ h.1), h.0);
  kfree = λ addr h. (h.0, without addr h.1);
}

abbrev system_allocator : Allocator
system_allocator = record {
  allocator_type = allocator_type_sys_malloc;
  lock_type = 0;
  cds_alloc = none;
}

session-kernel_session_example :
    session counting 64 allocator_type_sys_malloc 0
      (mem_alloc 7 ∷ mem_info ∷ mem_alloc 8 ∷ mem_free 165 ∷ [])
      (100, [])
    ≡ ok ((182, 173 ∷ []), some (165 ∷ 173 ∷ []))
unfolding kernel_session kernel_calls
session-kernel_session_example =
    session-kernel_session counting 64 0 (mem_alloc 7 ∷ mem_info ∷ mem_alloc 8 ∷ mem_free 165 ∷ [])
      (100, [])

session_ctr_example :
    (session counting 64 allocator_type_ctr_malloc 0
        (replicate 2 mem_info ++ mem_free 5 ∷ mem_alloc 7 ∷ [])
        (100, [])
      ≡ fault null_pointer)
    × ((liballoc_register_modules counting allocator_modules >>= λ modules.
          allocator_ctr_init modules system_allocator 8 16 1024 (100, []))
        ≡ fault null_pointer)
session_ctr_example =
    session_ctr counting 64 0 2 (mem_free 5) (mem_alloc 7 ∷ []) (100, []) system_allocator 8 16 1024
      (omega arith) tt (omega arith)
