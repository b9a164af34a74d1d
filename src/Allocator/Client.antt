-- ===== src/Allocator/Client.antt =====
-- What a client of an allocator gets: the kernel's memory, or a call of a function that is NULL.
use linux_char_driver_frame.Base.{
  ℕ, ◌<◌, ◌≡◌, ◌≢◌, refl, ap, ◌∙◌, arith, Option, some, none, List, [], ◌∷◌, Run, ok, fault,
  null_pointer, ◌>>=◌, u8, u32, ◌==◌, if◌then◌else◌, ==_ne, Bool-cases, true, false, inl, inr,
  replicate, ◌++◌, zero, suc,
}
use linux_char_driver_frame.Allocator.{
  Allocator, AllocatorModule, KernelMemory, allocator_modules, allocator_creator,
  allocator_mem_alloc, allocator_mem_free, allocator_mem_info, allocator_destroy,
  allocator_ctr_init, liballoc_register_modules, allocator_type_sys_malloc,
  allocator_type_ctr_malloc, allocator_type_last, sys_alloc_alloc, sys_alloc_free,
  allocator_sys_alloc_register,
}

-- A call of a client.
pub data Call : Type 0 where
  mem_alloc : (size : ℕ) → Call
  mem_free : (addr : ℕ) → Call
  mem_info : Call

module _ {H : Type 0} (kernel : KernelMemory H) where
  -- The calls of a client through its allocator, with the addresses that it gets.
  unfoldable pub calls : List (AllocatorModule H) → Allocator → List Call → H → Run (H × List ℕ)
  calls modules alloc [] h = ok (h, [])
  calls modules alloc (mem_alloc size ∷ cs) h = allocator_mem_alloc modules alloc size h >>= λ r.
      calls modules alloc cs r.0 >>= λ s. ok (s.0, r.1 ∷ s.1)
  calls modules alloc (mem_free addr ∷ cs) h =
      allocator_mem_free modules alloc addr h >>= λ h'. calls modules alloc cs h'
  calls modules alloc (mem_info ∷ cs) h =
      allocator_mem_info modules alloc h >>= λ h'. calls modules alloc cs h'

  -- The same calls made to the kernel, to which a size is a 32-bit number.
  unfoldable pub kernel_calls : List Call → H → H × List ℕ
  kernel_calls [] h = (h, [])
  kernel_calls (mem_alloc size ∷ cs) h =
      let r = kernel.kmalloc (u32 size) h in let s = kernel_calls cs r.0 in (s.0, r.1 ∷ s.1)
  kernel_calls (mem_free addr ∷ cs) h = kernel_calls cs (kernel.kfree addr h)
  kernel_calls (mem_info ∷ cs) h = kernel_calls cs h

  -- A client calls the allocator that was made, and destroys it. Without memory for the allocator
  -- the client gives up.
  unfoldable pub client :
      List (AllocatorModule H) → List Call → H × Option (ℕ × Allocator) → Run (H × Option (List ℕ))
  client modules cs (h, none) = ok (h, none)
  client modules cs (h, some (addr, alloc)) = calls modules alloc cs h >>= λ r.
      allocator_destroy modules kernel addr alloc r.0 >>= λ h'. ok (h', some r.1)

  -- The modules are registered, an allocator of a type is made, and a client uses it.
  unfoldable pub session :
      (size allocator_type lock_type : ℕ) → List Call → H → Run (H × Option (List ℕ))
  session size allocator_type lock_type cs h = do
    modules ← liballoc_register_modules kernel allocator_modules
    client modules cs (allocator_creator kernel size allocator_type lock_type h)

  -- What the session is to do: the allocator takes its place from the kernel and gives it back.
  unfoldable pub kernel_session : (size : ℕ) → List Call → H → H × Option (List ℕ)
  kernel_session size cs h =
      let (h', addr) = kernel.kmalloc size h in
      if addr == 0
      then (h', none)
      else (let r = kernel_calls cs h' in (kernel.kfree addr r.0, some r.1))

  -- The modules behind the registration.
  unfoldable registered : List (AllocatorModule H)
  registered = elim (liballoc_register_modules kernel allocator_modules) [ fault e ↦ [] | ok m ↦ m ]

  registers : liballoc_register_modules kernel allocator_modules ≡ ok registered
  unfolding registered liballoc_register_modules allocator_sys_alloc_register allocator_modules
  registers = refl

  calls-kernel_calls :
      (alloc : Allocator) (cs : List Call) (h : H)
      → alloc.allocator_type ≡ allocator_type_sys_malloc
      → calls registered alloc cs h ≡ ok (kernel_calls cs h)
  unfolding calls kernel_calls registered liballoc_register_modules allocator_sys_alloc_register
      allocator_mem_alloc allocator_mem_free allocator_mem_info sys_alloc_alloc sys_alloc_free
      allocator_modules
  calls-kernel_calls alloc [] h e = refl
  calls-kernel_calls alloc (mem_alloc size ∷ cs) h e =
      rw (e, calls-kernel_calls alloc cs (kernel.kmalloc (u32 size) h).0 e) refl
  calls-kernel_calls alloc (mem_free addr ∷ cs) h e =
      rw (e, calls-kernel_calls alloc cs (kernel.kfree addr h) e) refl
  calls-kernel_calls alloc (mem_info ∷ cs) h e = rw (e, calls-kernel_calls alloc cs h e) refl

  -- What `allocator_creator` writes.
  abbrev made : (allocator_type lock_type : ℕ) → Allocator
  made allocator_type lock_type = record {
    allocator_type = allocator_type;
    lock_type = u8 lock_type;
    cds_alloc = none;
  }

  creates_none :
      (size allocator_type lock_type : ℕ) (h : H)
      → ((kernel.kmalloc size h).1 == 0) ≡ true
      → allocator_creator kernel size allocator_type lock_type h ≡ ((kernel.kmalloc size h).0, none)
  unfolding allocator_creator
  creates_none size allocator_type lock_type h e = rw e refl

  creates_some :
      (size allocator_type lock_type : ℕ) (h : H)
      → ((kernel.kmalloc size h).1 == 0) ≡ false
      → allocator_creator kernel size allocator_type lock_type h ≡ (
        (kernel.kmalloc size h).0,
        some ((kernel.kmalloc size h).1, made (u8 allocator_type) lock_type),
      )
  unfolding allocator_creator
  creates_some size allocator_type lock_type h e = rw e refl

  destroys :
      (addr lock_type : ℕ) (h : H)
      → allocator_destroy registered kernel addr (made allocator_type_sys_malloc lock_type) h
        ≡ ok (kernel.kfree addr h)
  unfolding allocator_destroy registered liballoc_register_modules allocator_sys_alloc_register
      allocator_modules
  destroys addr lock_type h = refl

  -- A session with an allocator of the kernel's type ends as it does with the kernel alone, whatever
  -- the client calls: with the same memory and the same addresses, or without memory for the
  -- allocator.
  pub session-kernel_session :
      (size lock_type : ℕ) (cs : List Call) (h : H)
      → session size allocator_type_sys_malloc lock_type cs h ≡ ok (kernel_session size cs h)
  unfolding session kernel_session client
  session-kernel_session size lock_type cs h =
      let e =
        calls-kernel_calls (made allocator_type_sys_malloc lock_type) cs (kernel.kmalloc size h).0
          refl in
      let gone =
        destroys (kernel.kmalloc size h).1 lock_type
          (kernel_calls cs (kernel.kmalloc size h).0).0 in
      rw registers (elim (Bool-cases ((kernel.kmalloc size h).1 == 0)) [
        | inl none_left ↦
            ap (client registered cs)
              (creates_none size allocator_type_sys_malloc lock_type h none_left)
            ∙ rw none_left refl
        | inr some_left ↦
            ap (client registered cs)
              (creates_some size allocator_type_sys_malloc lock_type h some_left)
            ∙ rw (e, some_left, gone) refl
      ])

  -- The call goes through a pointer that no test guards.
  abbrev IsUse : Call → Type 0
  IsUse (mem_alloc size) = Unit
  IsUse (mem_free addr) = Unit
  IsUse mem_info = ⊥

  calls_ctr :
      (alloc : Allocator) (infos : ℕ) (c : Call) (cs : List Call) (h : H)
      → IsUse c
      → alloc.allocator_type ≡ allocator_type_ctr_malloc
      → calls registered alloc (replicate infos mem_info ++ c ∷ cs) h ≡ fault null_pointer
  unfolding calls registered liballoc_register_modules allocator_sys_alloc_register
      allocator_mem_alloc allocator_mem_free allocator_mem_info allocator_modules
  calls_ctr alloc zero (mem_alloc size) cs h u e = rw e refl
  calls_ctr alloc zero (mem_free addr) cs h u e = rw e refl
  calls_ctr alloc zero mem_info cs h u e = elim u [ ]
  calls_ctr alloc (suc n) c cs h u e = rw (e, calls_ctr alloc n c cs h u e) refl

  init_null :
      (alloc : Allocator) (array_max min_size capacity : ℕ) (h : H) (n : ℕ)
      → alloc.allocator_type ≡ n
      → n < allocator_type_last
      → allocator_ctr_init registered alloc array_max min_size capacity h ≡ fault null_pointer
  unfolding allocator_ctr_init registered liballoc_register_modules allocator_sys_alloc_register
      allocator_modules
  init_null alloc array_max min_size capacity h zero e below = rw e refl
  init_null alloc array_max min_size capacity h (suc zero) e below = rw e refl
  init_null alloc array_max min_size capacity h (suc (suc n)) e below = absurd (omega arith)

  -- A session with an allocator of containers, for which no module is registered, faults at its
  -- first allocation or release, and giving it its parameters faults in either type of allocator.
  pub session_ctr :
      (size lock_type infos : ℕ) (c : Call) (cs : List Call) (h : H) (alloc : Allocator)
      (array_max min_size capacity : ℕ)
      → (kernel.kmalloc size h).1 ≢ 0
      → IsUse c
      → alloc.allocator_type < allocator_type_last
      → (session size allocator_type_ctr_malloc lock_type (replicate infos mem_info ++ c ∷ cs) h
          ≡ fault null_pointer)
        × ((liballoc_register_modules kernel allocator_modules >>= λ modules.
              allocator_ctr_init modules alloc array_max min_size capacity h)
            ≡ fault null_pointer)
  unfolding session client
  session_ctr size lock_type infos c cs h alloc array_max min_size capacity room u below =
      let e =
        calls_ctr (made allocator_type_ctr_malloc lock_type) infos c cs (kernel.kmalloc size h).0 u
          refl in
      let some_left = ==_ne (kernel.kmalloc size h).1 0 room in
      rw registers (
        ap (client registered _) (creates_some size allocator_type_ctr_malloc lock_type h some_left)
            ∙ rw e refl,
        init_null alloc array_max min_size capacity h alloc.allocator_type refl below,
      )
