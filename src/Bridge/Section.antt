-- ===== src/Bridge/Section.antt =====
-- A critical section of user space through the sysfs file, src/lock_common.c and src/kern_main.c.
use urt.Base.{◌+◌, ◌-◌, ◌≡◌, refl, Bool, true, false, none, some, arith, ℕ_discrete}
use urt.Global.{World, global_sem_wait, global_sem_post}
use urt.Bridge.{Gate, lock_op, write_command, user_wait, user_try_wait, sysfs_unlock, user_post}

-- What a world's semaphore does, a gate with the same semaphore does: it waits for ever when the
-- semaphore does; otherwise it has the semaphore's value, keeps the other threads of the process out,
-- and a post gives the gate back as it was, as it gives the semaphore back.
pub data Follows (w : World) (g : Gate) : Type 0 where
  closed : global_sem_wait w ≡ none → user_wait true false g ≡ none → Follows w g
  entered :
      (w' : World) (g' : Gate)
      → global_sem_wait w ≡ some (tt, w')
      → user_wait true false g ≡ some g'
      → g'.kernel ≡ w'.sem
      → user_wait true false g' ≡ none
      → global_sem_post w' ≡ some (tt, w)
      → user_post true g' ≡ some g
      → Follows w g

-- In user space, when no other thread of the process is inside, the writes succeed and the kernel's wait
-- is not interrupted, a section of urt_global_sem_wait and urt_global_sem_post follows the semaphore.
pub section-Follows :
    (w : World) (g : Gate) → g.kernel ≡ w.sem → g.sysfs_locked ≡ false → Follows w g
unfolding global_sem_wait global_sem_post user_wait user_post write_command lock_op sysfs_unlock
section-Follows w g e out = elim (ℕ_discrete w.sem 0) [
  | yes z ↦ closed (ground arith) (ground arith)
  | no nz ↦
      entered (record w { sem = w.sem - 1 }) (record g { kernel = w.sem - 1; sysfs_locked = true })
        (ground arith) (ground arith) refl (ground arith) (ground arith) (ground arith)
]

-- urt_recover's section, urt_global_sem_try_wait and urt_global_sem_post, with no other thread of the
-- process inside, unlocks the sysfs file's lock although nobody holds it, whether or not the writes
-- succeed.
pub try_section_misuses :
    (g : Gate) (first second : Bool)
    → g.sysfs_locked ≡ false
    → (g' : Gate) × (g'' : Gate) × (user_try_wait first g ≡ some g')
      × (user_post second g' ≡ some g'')
      × (g''.misused ≡ true)
unfolding user_try_wait user_post write_command lock_op sysfs_unlock
try_section_misuses g true true out = (
  record g { kernel = g.kernel - 1 },
  record g { kernel = g.kernel - 1 + 1; sysfs_locked = false; misused = true },
  ground arith,
  ground arith,
  refl,
)
try_section_misuses g true false out = (
  record g { kernel = g.kernel - 1 },
  record g { kernel = g.kernel - 1; sysfs_locked = false; misused = true },
  ground arith,
  ground arith,
  refl,
)
try_section_misuses g false true out = (
  g,
  record g { kernel = g.kernel + 1; sysfs_locked = false; misused = true },
  ground arith,
  ground arith,
  refl,
)
try_section_misuses g false false out =
    (g, record g { sysfs_locked = false; misused = true }, ground arith, ground arith, refl)

-- A section of user space whose wait is interrupted in the kernel, while no other thread of the process
-- is inside, is entered even if the semaphore is taken, and leaves the semaphore one higher than it
-- was, so that two may be inside from then on.
pub interrupted_section_leaks :
    (g : Gate)
    → g.sysfs_locked ≡ false
    → (g' : Gate) × (user_wait true true g ≡ some g')
      × (user_post true g' ≡ some (record g { kernel = g.kernel + 1 }))
unfolding user_wait user_post write_command lock_op sysfs_unlock
interrupted_section_leaks g out = (record g { sysfs_locked = true }, ground arith, ground arith)
