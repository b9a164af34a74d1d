-- ===== src/Locks.antt =====
-- The locks of the containers: driver/libcre/sync_lock/sync_lock.c, whose functions do nothing.
--
-- What a lock consists of is left open: no function looks at it.
use linux_char_driver_frame.Base.{ℕ, ◌≡◌, refl, List, [], ◌∷◌, length, replicate}

module _ {L : Type 0} where
  -- The lock that a call leaves, and its result.
  unfoldable sync_lock_init : L → (sync_lock_type : ℕ) → L × ℕ
  sync_lock_init slock sync_lock_type = (slock, 0)

  unfoldable sync_lock : L → (arg : ℕ) → L × ℕ
  sync_lock slock arg = (slock, 0)

  unfoldable sync_trylock : L → (arg : ℕ) → L × ℕ
  sync_trylock slock arg = (slock, 0)

  unfoldable sync_unlock : L → L × ℕ
  sync_unlock slock = (slock, 0)

  unfoldable sync_lock_destroy : L → L × ℕ
  sync_lock_destroy slock = (slock, 0)

-- What a thread, of which the number is `by`, does with the lock.
data LockCall : Type 0 where
  init : (sync_lock_type : ℕ) → LockCall
  acquire : (by arg : ℕ) → LockCall
  try : (by arg : ℕ) → LockCall
  release : (by : ℕ) → LockCall
  destroy : LockCall

module _ {L : Type 0} where
  unfoldable lock_call : LockCall → L → L × ℕ
  lock_call (init sync_lock_type) slock = sync_lock_init slock sync_lock_type
  lock_call (acquire by arg) slock = sync_lock slock arg
  lock_call (try by arg) slock = sync_trylock slock arg
  lock_call (release by) slock = sync_unlock slock
  lock_call destroy slock = sync_lock_destroy slock

  -- The calls of several threads in the order in which they happen, with their results.
  unfoldable lock_calls : List LockCall → L → L × List ℕ
  lock_calls [] slock = (slock, [])
  lock_calls (c ∷ cs) slock =
      let r = lock_call c slock in let s = lock_calls cs r.0 in (s.0, r.1 ∷ s.1)

  lock_call_lem : (c : LockCall) (slock : L) → lock_call c slock ≡ (slock, 0)
  unfolding lock_call sync_lock_init sync_lock sync_trylock sync_unlock sync_lock_destroy
  lock_call_lem (init sync_lock_type) slock = refl
  lock_call_lem (acquire by arg) slock = refl
  lock_call_lem (try by arg) slock = refl
  lock_call_lem (release by) slock = refl
  lock_call_lem destroy slock = refl

  -- The lock keeps nobody out: whoever holds it, every call of every thread succeeds at once and
  -- leaves the lock as it was.
  lock_calls-replicate :
      (cs : List LockCall) (slock : L) → lock_calls cs slock ≡ (slock, replicate (length cs) 0)
  unfolding lock_calls
  lock_calls-replicate [] slock = refl
  lock_calls-replicate (c ∷ cs) slock =
      rw (lock_call_lem c slock, lock_calls-replicate cs slock) refl
