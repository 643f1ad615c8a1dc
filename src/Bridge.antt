-- ===== src/Bridge.antt =====
-- The global semaphore where kernel and user space share the registry: src/lock_common.c writes a
-- command to a sysfs file, and `_lock_op` of src/kern_main.c carries it out on the kernel's semaphore.
-- Whether a write succeeds, and whether the kernel's wait is interrupted, are arguments.
pub mod Section
pub mod File
use urt.Base.{ℕ, ◌+◌, ◌-◌, Bool, true, false, not, ◌||◌, Option, none, some, ◌==◌, if◌then◌else◌}

-- URT_GLOBAL_SEM_WAIT, URT_GLOBAL_SEM_TRY_WAIT, URT_GLOBAL_SEM_POST
abbrev pub wait_command : ℕ
wait_command = b'0'

abbrev pub try_wait_command : ℕ
try_wait_command = b'1'

abbrev pub post_command : ℕ
post_command = b'2'

-- urt_global_sem_wait in the kernel: an interrupted wait is reported, and returns without the
-- semaphore. `none`: the caller waits for ever.
unfoldable pub kernel_wait : Bool → ℕ → Option ℕ
kernel_wait interrupted sem =
    if interrupted then some sem else if sem == 0 then none else some (sem - 1)

-- urt_global_sem_try_wait in the kernel
unfoldable pub kernel_try_wait : ℕ → ℕ
kernel_try_wait sem = sem - 1

-- urt_global_sem_post in the kernel
unfoldable pub kernel_post : ℕ → ℕ
kernel_post sem = sem + 1

-- `_lock_op`: the semaphore after a command; a command that is not known is only reported.
unfoldable pub lock_op : ℕ → Bool → ℕ → Option ℕ
unfolding kernel_wait kernel_try_wait kernel_post
lock_op command interrupted sem =
    if command == wait_command
    then kernel_wait interrupted sem
    else if command == try_wait_command
    then some (kernel_try_wait sem)
    else if command == post_command
    then some (kernel_post sem)
    else some sem

-- The kernel's semaphore as a process sees it, with the process's lock around the sysfs file. `misused`:
-- the lock was unlocked while nobody held it, which the thread library leaves undefined.
pub record Gate : Type 0 where
  pub kernel : ℕ
  pub sysfs_locked : Bool
  pub misused : Bool

-- `write(urt_global_sem, &command, 1)`: a write that fails is only reported.
unfoldable pub write_command : ℕ → Bool → Bool → Gate → Option Gate
unfolding lock_op
write_command command written interrupted g =
    if written
    then elim (lock_op command interrupted g.kernel) [
      | none ↦ none
      | some sem ↦ some (record g { kernel = sem })
    ]
    else some g

-- urt_global_sem_wait in user space
unfoldable pub user_wait : Bool → Bool → Gate → Option Gate
unfolding write_command
user_wait written interrupted g =
    if g.sysfs_locked
    then none
    else write_command wait_command written interrupted (record g { sysfs_locked = true })

-- urt_global_sem_try_wait in user space
unfoldable pub user_try_wait : Bool → Gate → Option Gate
unfolding write_command
user_try_wait written g = write_command try_wait_command written false g

unfoldable pub sysfs_unlock : Gate → Gate
sysfs_unlock g = record g { sysfs_locked = false; misused = g.misused || not g.sysfs_locked }

-- urt_global_sem_post in user space
unfoldable pub user_post : Bool → Gate → Option Gate
unfolding write_command sysfs_unlock
user_post written g = elim (write_command post_command written false g) [
  | none ↦ none
  | some g' ↦ some (sysfs_unlock g')
]
