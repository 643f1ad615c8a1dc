-- ===== src/Rtai/Make.antt =====
-- Making, attaching to, detaching from and deleting locks and memory, sys/rtai/src/lock.c and
-- sys/rtai/src/mem.c. What RTAI's functions answer is an argument: an address, or `none` for NULL.
use urt.Base.{ℕ, Bool, true, false, Option, none, some, List, [], ◌∷◌, ◌++◌, ◌==◌, if◌then◌else◌}
use urt.Global.{
  eexist, enoent, enomem, Result, ok, err, Object, M, pure, ◌>>◌, modify, log, SysCall, shm_free,
  named_sem_delete, named_rwl_delete, mem_delete, object_at,
}
use urt.Registry.{dec_name_count}
use urt.Shared.{Handle}
use urt.Lock.Make.{LockCall, allocate, release, lock_init, lock_destroy}

-- `_sem_new_common` behind urt_mem_new: in the kernel nothing can fail, in user space `made` is whether
-- RTAI gave the object.
unfoldable pub new_initialised : Bool → Bool → Result (Unit {0}) × List LockCall
new_initialised in_kernel made =
    if in_kernel
    then (ok tt, allocate ∷ lock_init ∷ [])
    else if made
    then (ok tt, allocate ∷ lock_init ∷ [])
    else (err enomem, allocate ∷ lock_init ∷ release ∷ [])

-- `_sem_new_common`; `allocated` is whether urt_mem_new gave memory.
unfoldable pub sem_new_common : Bool → Bool → Bool → Result (Unit {0}) × List LockCall
unfolding new_initialised
sem_new_common in_kernel allocated made =
    if allocated then new_initialised in_kernel made else (err enomem, [])

-- urt_sem_new
unfoldable pub sem_new : Bool → Bool → Bool → Result (Unit {0}) × List LockCall
unfolding sem_new_common
sem_new = sem_new_common

-- urt_mutex_new
unfoldable pub mutex_new : Bool → Bool → Bool → Result (Unit {0}) × List LockCall
unfolding sem_new_common
mutex_new = sem_new_common

-- urt_rwlock_new
unfoldable pub rwlock_new : Bool → Bool → Bool → Result (Unit {0}) × List LockCall
unfolding new_initialised
rwlock_new in_kernel allocated made =
    if allocated then new_initialised in_kernel made else (err enomem, [])

-- urt_cond_new
unfoldable pub cond_new : Bool → Bool → Bool → Result (Unit {0}) × List LockCall
unfolding new_initialised
cond_new in_kernel allocated made =
    if allocated then new_initialised in_kernel made else (err enomem, [])

-- urt_sem_delete: `exists` is whether the pointer is not NULL.
unfoldable pub sem_delete : Bool → List LockCall
sem_delete exists = (if exists then lock_destroy 0 ∷ [] else []) ++ (release ∷ [])

-- urt_mutex_delete
unfoldable pub mutex_delete : Bool → List LockCall
unfolding sem_delete
mutex_delete exists = sem_delete exists

-- urt_rwlock_delete
unfoldable pub rwlock_delete : Bool → List LockCall
rwlock_delete exists = (if exists then lock_destroy 0 ∷ [] else []) ++ (release ∷ [])

-- urt_cond_delete
unfoldable pub cond_delete : Bool → List LockCall
cond_delete exists = (if exists then lock_destroy 0 ∷ [] else []) ++ (release ∷ [])

-- `exit_no_mem`: urt_mem_delete also of a NULL.
unfoldable pub no_mem : M (Result ℕ)
no_mem = modify (log (mem_delete ∷ [])) >> pure (err enomem)

unfoldable pub no_obj : M (Result ℕ)
no_obj = modify (log (mem_delete ∷ [])) >> pure (err enoent)

-- `_shsem_common`: the memory of the lock, and the object that RTAI gives for the name.
unfoldable pub shsem_common : Option ℕ → Option ℕ → M (Result ℕ)
unfolding no_mem
shsem_common none named = no_mem
shsem_common (some lock) none = no_mem
shsem_common (some lock) (some adr) = pure (ok lock)

-- The type of a semaphore, as RTAI is asked for it.
pub data SemType : Type 0 where
  cnt_sem res_sem : SemType

-- urt_sys_shsem_new; `sem_init` is rt_typed_named_sem_init for the name.
unfoldable pub sys_shsem_new : Option ℕ → (ℕ → SemType → Option ℕ) → ℕ → M (Result ℕ)
unfolding shsem_common
sys_shsem_new lock sem_init init_value = shsem_common lock (sem_init init_value cnt_sem)

-- urt_sys_shmutex_new
unfoldable pub sys_shmutex_new : Option ℕ → (ℕ → SemType → Option ℕ) → M (Result ℕ)
unfolding shsem_common
sys_shmutex_new lock sem_init = shsem_common lock (sem_init 1 res_sem)

-- urt_sys_shrwlock_new
unfoldable pub sys_shrwlock_new : Option ℕ → Option ℕ → M (Result ℕ)
unfolding no_mem
sys_shrwlock_new none named = no_mem
sys_shrwlock_new (some lock) none = no_mem
sys_shrwlock_new (some lock) (some adr) = pure (ok lock)

-- urt_sys_shcond_new
unfoldable pub sys_shcond_new : Option ℕ → Option ℕ → M (Result ℕ)
unfolding no_mem
sys_shcond_new none named = no_mem
sys_shcond_new (some lock) none = no_mem
sys_shcond_new (some lock) (some adr) = pure (ok lock)

-- urt_sys_shsem_attach: the memory of the lock, and rt_get_adr.
unfoldable pub sys_shsem_attach : Option ℕ → Option ℕ → M (Result ℕ)
unfolding no_mem no_obj
sys_shsem_attach none found = no_mem
sys_shsem_attach (some lock) none = no_obj
sys_shsem_attach (some lock) (some adr) = pure (ok lock)

-- urt_sys_shmutex_attach
unfoldable pub sys_shmutex_attach : Option ℕ → Option ℕ → M (Result ℕ)
unfolding sys_shsem_attach
sys_shmutex_attach lock found = sys_shsem_attach lock found

-- urt_sys_shrwlock_attach
unfoldable pub sys_shrwlock_attach : Option ℕ → Option ℕ → M (Result ℕ)
unfolding no_mem no_obj
sys_shrwlock_attach none found = no_mem
sys_shrwlock_attach (some lock) none = no_obj
sys_shrwlock_attach (some lock) (some adr) = pure (ok lock)

-- urt_sys_shcond_attach
unfoldable pub sys_shcond_attach : Option ℕ → Option ℕ → M (Result ℕ)
unfolding no_mem no_obj
sys_shcond_attach none found = no_mem
sys_shcond_attach (some lock) none = no_obj
sys_shcond_attach (some lock) (some adr) = pure (ok lock)

-- `_shsem_detach` and `_shcond_detach` (newest first).
unfoldable pub shsem_release : Object → List SysCall
shsem_release o = mem_delete ∷ (if o.count == 0 then named_sem_delete ∷ [] else [])

unfoldable pub shcond_release : Object → List SysCall
shcond_release o = mem_delete ∷ (if o.count == 0 then named_sem_delete ∷ [] else [])

-- `_shrwlock_detach` (newest first).
unfoldable pub shrwlock_release : Object → List SysCall
shrwlock_release o = mem_delete ∷ (if o.count == 0 then named_rwl_delete ∷ [] else [])

-- urt_shsem_detach; `none` is the NULL pointer.
unfoldable pub shsem_detach : Option Handle → M (Unit {0})
shsem_detach none = pure tt
shsem_detach (some h) = dec_name_count (some shsem_release) h.id

-- urt_shmutex_detach
unfoldable pub shmutex_detach : Option Handle → M (Unit {0})
unfolding shsem_detach
shmutex_detach mutex = shsem_detach mutex

-- urt_shrwlock_detach
unfoldable pub shrwlock_detach : Option Handle → M (Unit {0})
shrwlock_detach none = pure tt
shrwlock_detach (some h) = dec_name_count (some shrwlock_release) h.id

-- urt_shcond_detach
unfoldable pub shcond_detach : Option Handle → M (Unit {0})
shcond_detach none = pure tt
shcond_detach (some h) = dec_name_count (some shcond_release) h.id

-- urt_global_mem_get: what rt_shm_alloc answers.
unfoldable pub global_mem_get : Option ℕ → M (Result ℕ)
global_mem_get none = pure (err enomem)
global_mem_get (some mem) = pure (ok mem)

-- urt_sys_shmem_new: whether rt_get_adr finds the name, and what rt_shm_alloc answers.
unfoldable pub sys_shmem_new : Bool → Option ℕ → M (Result ℕ)
sys_shmem_new true alloc = pure (err eexist)
sys_shmem_new false none = pure (err enomem)
sys_shmem_new false (some mem) = pure (ok mem)

-- urt_sys_shmem_attach: what rt_shm_alloc answers.
unfoldable pub sys_shmem_attach : Option ℕ → M (Result ℕ)
sys_shmem_attach none = pure (err enoent)
sys_shmem_attach (some mem) = pure (ok mem)

-- urt_shmem_detach: the memory is given back by name before the registry is told.
unfoldable pub shmem_detach : Option Handle → M (Unit {0})
shmem_detach none = pure tt
shmem_detach (some h) =
    modify (λ w. log (shm_free (object_at w.mem h.id).name ∷ []) w) >> dec_name_count none h.id
