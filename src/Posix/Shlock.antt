-- ===== src/Posix/Shlock.antt =====
-- The shared locks of sys/posix/src/lock.c: mutexes, reader-writer locks and conditions in shared
-- memory, named semaphores, and the global semaphore. What the thread library answers is an argument.
use urt.Base.{ℕ, Bool, true, false, Option, none, some, List, [], ◌∷◌, if◌then◌else◌}
use urt.Global.{
  Errno, Result, ok, err, M, pure, ◌>>=◌, ◌>>◌, modify, log, SysCall, mem_delete, sem_close, munmap,
  destroy,
}
use urt.Shared.{Handle}
use urt.Setup.{Process}
use urt.Lock.Make.{shmutex_init, shrwlock_init, shcond_init}
use urt.Posix.{
  ShmAnswers, sys_shmem_attach, shsem_common, pthread_shlock_new, pthread_shlock_detach,
  destroy_when_last,
}

-- urt_sys_shmutex_new, urt_sys_shrwlock_new and urt_sys_shcond_new: `word` is what the new memory
-- holds, and `size` the size of the type.
unfoldable pub sys_shmutex_new : ShmAnswers → ℕ → Option Errno → ℕ → List ℕ → M (Result ℕ)
unfolding pthread_shlock_new shmutex_init
sys_shmutex_new os word error size name =
    pthread_shlock_new os word (shmutex_init error true).0 size name

unfoldable pub sys_shrwlock_new : ShmAnswers → ℕ → Option Errno → ℕ → List ℕ → M (Result ℕ)
unfolding pthread_shlock_new shrwlock_init
sys_shrwlock_new os word error size name =
    pthread_shlock_new os word (shrwlock_init error true).0 size name

unfoldable pub sys_shcond_new : ShmAnswers → ℕ → Option Errno → ℕ → List ℕ → M (Result ℕ)
unfolding pthread_shlock_new shcond_init
sys_shcond_new os word error size name =
    pthread_shlock_new os word (shcond_init error true).0 size name

-- urt_sys_shmutex_attach, urt_sys_shrwlock_attach and urt_sys_shcond_attach
unfoldable pub sys_shmutex_attach : ShmAnswers → List ℕ → M (Result ℕ)
unfolding sys_shmem_attach
sys_shmutex_attach os name = sys_shmem_attach os name

unfoldable pub sys_shrwlock_attach : ShmAnswers → List ℕ → M (Result ℕ)
unfolding sys_shmem_attach
sys_shrwlock_attach os name = sys_shmem_attach os name

unfoldable pub sys_shcond_attach : ShmAnswers → List ℕ → M (Result ℕ)
unfolding sys_shmem_attach
sys_shcond_attach os name = sys_shmem_attach os name

-- `_shmutex_destroy`, `_shrwlock_destroy` and `_shcond_destroy`: while others are attached, nothing;
-- otherwise the lock is destroyed, after `rounds` unlocks (for a condition, broadcasts), which is what
-- `destroy_loop` counts.
unfoldable pub shmutex_destroy : ℕ → ℕ → List SysCall
unfolding destroy_when_last
shmutex_destroy rounds count = destroy_when_last (destroy rounds ∷ []) count

unfoldable pub shrwlock_destroy : ℕ → ℕ → List SysCall
unfolding destroy_when_last
shrwlock_destroy rounds count = destroy_when_last (destroy rounds ∷ []) count

unfoldable pub shcond_destroy : ℕ → ℕ → List SysCall
unfolding destroy_when_last
shcond_destroy rounds count = destroy_when_last (destroy rounds ∷ []) count

-- urt_shmutex_detach, urt_shrwlock_detach and urt_shcond_detach
unfoldable pub shmutex_detach : ℕ → Option Handle → M (Unit {0})
unfolding pthread_shlock_detach shmutex_destroy
shmutex_detach rounds lock = pthread_shlock_detach (shmutex_destroy rounds) lock

unfoldable pub shrwlock_detach : ℕ → Option Handle → M (Unit {0})
unfolding pthread_shlock_detach shrwlock_destroy
shrwlock_detach rounds lock = pthread_shlock_detach (shrwlock_destroy rounds) lock

unfoldable pub shcond_detach : ℕ → Option Handle → M (Unit {0})
unfolding pthread_shlock_detach shcond_destroy
shcond_detach rounds lock = pthread_shlock_detach (shcond_destroy rounds) lock

-- urt_sys_shsem_new and urt_sys_shsem_attach: `allocated` is whether urt_mem_new gave memory; the
-- initial value and the flags only change what sem_open answers.
unfoldable pub sys_shsem_new : Bool → Result ℕ → List ℕ → M (Result ℕ)
unfolding shsem_common
sys_shsem_new allocated answer name = shsem_common allocated answer name

unfoldable pub sys_shsem_attach : Bool → Result ℕ → List ℕ → M (Result ℕ)
unfolding shsem_common
sys_shsem_attach allocated answer name = shsem_common allocated answer name

-- urt_global_sem_get: the error, and the semaphore (`none` is NULL).
unfoldable pub sem_got : Result ℕ → Option Errno × Option ℕ
sem_got (ok sem) = (none, some sem)
sem_got (err e) = (some e, none)

unfoldable pub global_sem_get : Bool → Result ℕ → List ℕ → M (Option Errno × Option ℕ)
unfolding shsem_common sem_got
global_sem_get allocated answer name = shsem_common allocated answer name >>= λ r. pure (sem_got r)

-- urt_global_sem_free
unfoldable pub global_sem_free : M (Unit {0})
global_sem_free = modify (log (mem_delete ∷ sem_close ∷ []))

-- urt_global_mem_free: `urt_global_mem` is NULL afterwards.
unfoldable pub global_mem_free : ℕ → M Process
global_mem_free size = modify (log (munmap size ∷ [])) >> pure (record { has_mem = false })

-- urt_exit on this back-end; `size` is that of the registry.
unfoldable pub posix_exit : ℕ → Process → M Process
unfolding global_mem_free global_sem_free
posix_exit size p =
    if p.has_mem then (global_mem_free size >>= λ q. global_sem_free >> pure q) else pure p
