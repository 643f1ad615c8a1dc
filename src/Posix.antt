-- ===== src/Posix.antt =====
-- sys/posix/src/mem.c and the first half of sys/posix/src/lock.c: how the POSIX back-end opens, maps,
-- closes and unlinks shared memory and semaphores. What the system calls answer is an argument.
pub mod Laws
pub mod Shlock
pub mod Detach
pub mod Kinds
pub mod Lifecycle
use urt.Base.{
  ℕ, ◌+◌, ◌-◌, Bool, true, false, Option, none, some, List, [], ◌∷◌, ◌++◌, ◌==◌, ltb, if◌then◌else◌,
}
use urt.SysName.{convert_name}
use urt.Global.{
  Errno, einval, enomem, Result, ok, err, Object, World, M, pure, ◌>>=◌, ◌>>◌, modify, log, SysCall,
  shm_unlink, sem_unlink, munmap, close, sem_close, mem_delete,
}
use urt.Registry.{Release, dec_name_count}
use urt.Shared.{Handle}

-- The answers of shm_open, ftruncate, fstat (the size) and mmap (the address, for a size).
pub record ShmAnswers : Type 0 where
  pub open_error : Option Errno
  pub truncate_error : Option Errno
  pub stat : Result ℕ
  pub map : ℕ → Result ℕ

-- `exit_fail` with an open descriptor: it is closed, and the name is unlinked.
unfoldable pub shm_fail : List ℕ → Errno → M (Result ℕ)
shm_fail n e = modify (log (shm_unlink n ∷ close ∷ [])) >> pure (err e)

-- mmap and what follows.
unfoldable pub shm_map : List ℕ → Result ℕ → M (Result ℕ)
unfolding shm_fail
shm_map n (err e) = shm_fail n e
shm_map n (ok address) = modify (log (close ∷ [])) >> pure (ok address)

-- The branch for O_CREAT.
unfoldable pub shm_create : ShmAnswers → List ℕ → ℕ → Option Errno → M (Result ℕ)
unfolding shm_map
shm_create os n size none = shm_map n (os.map size)
shm_create os n size (some e) = shm_fail n e

-- The branch without: the size is the object's.
unfoldable pub shm_existing : ShmAnswers → List ℕ → Result ℕ → M (Result ℕ)
unfolding shm_map
shm_existing os n (ok size) = shm_map n (os.map size)
shm_existing os n (err e) = shm_fail n e

unfoldable pub shm_opened : Bool → ShmAnswers → List ℕ → ℕ → Option Errno → M (Result ℕ)
unfolding shm_create shm_existing
shm_opened create os n size (some e) = pure (err e)
shm_opened create os n size none =
    if create then shm_create os n size os.truncate_error else shm_existing os n os.stat

-- `_shmem_common`; O_EXCL only changes what shm_open answers.
unfoldable pub shmem_common : Bool → ShmAnswers → List ℕ → ℕ → M (Result ℕ)
unfolding shm_opened
shmem_common create os name size = elim (convert_name name) [
  | none ↦ pure (err einval)
  | some n ↦ shm_opened create os n size os.open_error
]

unfoldable pub global_mem_get : ShmAnswers → List ℕ → ℕ → M (Result ℕ)
unfolding shmem_common
global_mem_get os name size = shmem_common true os name size

unfoldable pub sys_shmem_new : ShmAnswers → List ℕ → ℕ → M (Result ℕ)
unfolding shmem_common
sys_shmem_new os name size = shmem_common true os name size

unfoldable pub sys_shmem_attach : ShmAnswers → List ℕ → M (Result ℕ)
unfolding shmem_common
sys_shmem_attach os name = shmem_common false os name 0

-- Unlinking by the registry's name, where it can be converted.
unfoldable pub unlink_with : (List ℕ → SysCall) → Object → List SysCall
unlink_with unlink o = elim (convert_name o.name) [ none ↦ [] | some n ↦ unlink n ∷ [] ]

-- `_shmem_detach`: the callback, then munmap, then the unlinking by the last user (newest first).
unfoldable pub shmem_release : (ℕ → List SysCall) → Object → List SysCall
unfolding unlink_with
shmem_release callback o =
    (if o.count == 0 then unlink_with shm_unlink o else []) ++ (munmap o.size ∷ callback o.count)

-- urt_shmem_detach_with_callback; `none` is the NULL pointer.
unfoldable pub shmem_detach_with_callback : (ℕ → List SysCall) → Option Handle → M (Unit {0})
shmem_detach_with_callback callback none = pure tt
shmem_detach_with_callback callback (some h) = dec_name_count (some (shmem_release callback)) h.id

unfoldable pub shmem_detach : Option Handle → M (Unit {0})
unfolding shmem_detach_with_callback
shmem_detach mem = shmem_detach_with_callback (λ count. []) mem

-- `_shsem_common`: what malloc and sem_open answer.
unfoldable pub sem_opened : Result ℕ → M (Result ℕ)
sem_opened (ok sem) = pure (ok sem)
sem_opened (err e) = modify (log (mem_delete ∷ [])) >> pure (err e)

unfoldable pub shsem_common : Bool → Result ℕ → List ℕ → M (Result ℕ)
unfolding sem_opened
shsem_common allocated sem_open name =
    if allocated
    then elim (convert_name name) [
      | none ↦ modify (log (mem_delete ∷ [])) >> pure (err einval)
      | some n ↦ sem_opened sem_open
    ]
    else pure (err enomem)

-- `_shsem_detach` (newest first).
unfoldable pub shsem_release : Object → List SysCall
unfolding unlink_with
shsem_release o =
    mem_delete ∷ ((if o.count == 0 then unlink_with sem_unlink o else []) ++ (sem_close ∷ []))

unfoldable pub shsem_detach : Option Handle → M (Unit {0})
shsem_detach none = pure tt
shsem_detach (some h) = dec_name_count (some shsem_release) h.id

-- `_pthread_shlock_new` behind urt_sys_shmem_new. A failed init deletes the lock as a shared object,
-- under the id that the new memory holds at its start, `word`.
unfoldable pub shlock_init : ℕ → Option Errno → ℕ → M (Result ℕ)
unfolding shmem_detach
shlock_init word none address = pure (ok address)
shlock_init word (some e) address =
    shmem_detach (some (record { address = address + 16; id = word })) >> pure (err e)

unfoldable pub shlock_made : ℕ → Option Errno → Result ℕ → M (Result ℕ)
unfolding shlock_init
shlock_made word init_error (err e) = pure (err e)
shlock_made word init_error (ok address) = shlock_init word init_error address

-- `_pthread_shlock_new`
unfoldable pub pthread_shlock_new : ShmAnswers → ℕ → Option Errno → ℕ → List ℕ → M (Result ℕ)
unfolding shlock_made sys_shmem_new
pthread_shlock_new os word init_error size name =
    sys_shmem_new os name (size + 16) >>= shlock_made word init_error

-- `_pthread_shlock_detach`; `destroy` is the callback, given the count.
unfoldable pub pthread_shlock_detach : (ℕ → List SysCall) → Option Handle → M (Unit {0})
unfolding shmem_detach_with_callback
pthread_shlock_detach destroy none = pure tt
pthread_shlock_detach destroy (some h) = shmem_detach_with_callback destroy (some h)

-- `_shmutex_destroy` and its like: nothing while others are attached, otherwise what the loop calls.
unfoldable pub destroy_when_last : List SysCall → ℕ → List SysCall
destroy_when_last loop_calls count = if ltb 0 count then [] else loop_calls
