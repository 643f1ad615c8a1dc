-- ===== src/Posix/Detach.antt =====
-- The end of the shared locks of sys/posix/src/lock.c, and of a process.
use urt.Base.{
  ℕ, ◌+◌, ◌<◌, ◌≡◌, refl, ◌∙◌, true, false, some, List, [], ◌∷◌, ◌++◌, arith, length, if◌then◌else◌,
  Bool-cases, inl, inr,
}
use mathlib.Core.List.{append_assoc}
use urt.Global.{
  with_book_keeping, Object, World, object_at, SysCall, shm_unlink, sem_unlink, munmap, sem_close,
  mem_delete, destroy,
}
use urt.Registry.{find_by_name, detached, Release, released, dec_name_count}
use urt.Registry.Invariant.{IsValid, Taken}
use urt.Registry.Attach.{dec_name_count-Detached}
use urt.Setup.{Process}
use urt.Shared.New.{Made}
use urt.Shared.Unmake.{dec_name_count-Unmade}
use urt.Posix.{
  shmem_release, shmem_detach_with_callback, pthread_shlock_detach, unlink_with, shsem_release,
  shsem_detach, destroy_when_last,
}
use urt.Posix.Shlock.{
  shmutex_destroy, shrwlock_destroy, shcond_destroy, shmutex_detach, shrwlock_detach, shcond_detach,
  global_mem_free, global_sem_free, posix_exit,
}

-- The three ways to detach from a lock are one release.
abbrev pub lock_release : ℕ → Release
lock_release rounds = some (shmem_release (destroy_when_last (destroy rounds ∷ [])))

pub detach_lem :
    (rounds address i : ℕ) (w : World)
    → (shmutex_detach rounds (some (record { address = address; id = i })) w
        ≡ dec_name_count (lock_release rounds) i w)
      × (shrwlock_detach rounds (some (record { address = address; id = i })) w
          ≡ dec_name_count (lock_release rounds) i w)
      × (shcond_detach rounds (some (record { address = address; id = i })) w
          ≡ dec_name_count (lock_release rounds) i w)
unfolding shmutex_detach shrwlock_detach shcond_detach shmutex_destroy shrwlock_destroy
    shcond_destroy pthread_shlock_detach shmem_detach_with_callback
detach_lem rounds address i w = (refl, refl, refl)

pub last_lock_release :
    (rounds : ℕ) (o : Object) (sz : ℕ) (cs : List SysCall)
    → o.count ≡ 1
    → o.size ≡ with_book_keeping sz
    → released (lock_release rounds) (detached o) ++ cs
      ≡ unlink_with shm_unlink o ++ (munmap (with_book_keeping sz) ∷ destroy rounds ∷ cs)
unfolding shmem_release unlink_with destroy_when_last
last_lock_release rounds o sz cs one size = ground (
  arith,
  append_assoc (unlink_with shm_unlink o) (munmap (with_book_keeping sz) ∷ destroy rounds ∷ []) cs,
)

pub others_release :
    (rounds : ℕ) (o : Object) (cs : List SysCall)
    → 1 < o.count
    → released (lock_release rounds) (detached o) ++ cs ≡ munmap o.size ∷ cs
unfolding shmem_release destroy_when_last
others_release rounds o cs h = ground arith

pub last_sem_release :
    (o : Object) (cs : List SysCall)
    → o.count ≡ 1
    → released (some shsem_release) (detached o) ++ cs
      ≡ mem_delete ∷ (unlink_with sem_unlink o ++ (sem_close ∷ cs))
unfolding shsem_release unlink_with
last_sem_release o cs one =
    ground (arith, append_assoc (unlink_with sem_unlink o) (sem_close ∷ []) cs)

-- A registry that finds every name where it was in `w`.
pub record Restored (w w' : World) : Type 0 where
  pub valid : IsValid w'.mem
  pub sem_back : w'.sem ≡ w.sem
  pub lookup : (other : List ℕ) → find_by_name w'.mem other ≡ find_by_name w.mem other

module _ (kind sz : ℕ) (name : List ℕ) (w : World) (i : ℕ) (w1 : World) (address : ℕ) where
  -- The end of a shared mutex, reader-writer lock or condition that was made under an open semaphore and
  -- has one user: detaching from it destroys the lock, unmaps it with its 16 bytes of book keeping,
  -- unlinks its system name, in this order, and makes the registry find every name where it was before
  -- the lock was made.
  pub shlock_detach-Made :
      (rounds : ℕ)
      → 0 < w.sem
      → Made true kind sz name w i w1
      → (w' : World) × (shmutex_detach rounds (some (record { address = address; id = i })) w1
          ≡ some (tt, w'))
        × (shrwlock_detach rounds (some (record { address = address; id = i })) w1 ≡ some (tt, w'))
        × (shcond_detach rounds (some (record { address = address; id = i })) w1 ≡ some (tt, w'))
        × Restored w w'
        × (w'.calls
            ≡ unlink_with shm_unlink (object_at w1.mem i)
              ++ (munmap (with_book_keeping sz) ∷ destroy rounds ∷ w1.calls))
  shlock_detach-Made rounds h made =
      let d = dec_name_count-Unmade true kind sz name w i w1 (lock_release rounds) h made in
      let e = detach_lem rounds address i w1 in
      (
        d.0,
        e.0 ∙ d.1,
        e.1 ∙ d.1,
        e.2 ∙ d.1,
        record { valid = d.2.valid; sem_back = d.2.sem_back; lookup = d.2.lookup },
        d.2.calls_made
            ∙ last_lock_release rounds (object_at w1.mem i) sz w1.calls made.one_user made.size_set,
      )

  -- The end of a shared semaphore that was made under an open semaphore and has one user: detaching from
  -- it closes it, unlinks its system name and gives its memory back, in this order, and makes the
  -- registry find every name where it was before the semaphore was made.
  pub shsem_detach-Made :
      0 < w.sem
      → Made false kind sz name w i w1
      → (w' : World) × (shsem_detach (some (record { address = address; id = i })) w1
          ≡ some (tt, w'))
        × Restored w w'
        × (w'.calls
            ≡ mem_delete ∷ (unlink_with sem_unlink (object_at w1.mem i) ++ (sem_close ∷ w1.calls)))
  unfolding shsem_detach
  shsem_detach-Made h made =
      let d = dec_name_count-Unmade false kind sz name w i w1 (some shsem_release) h made in
      (
        d.0,
        d.1,
        record { valid = d.2.valid; sem_back = d.2.sem_back; lookup = d.2.lookup },
        d.2.calls_made ∙ last_sem_release (object_at w1.mem i) w1.calls made.one_user,
      )

module _ (w : World) (i address : ℕ) (h : 0 < w.sem) (v : IsValid w.mem)
    (lt : i < length w.mem.objects) (taken : Taken w.mem i)
    (others : 1 < (object_at w.mem i).count) where
  -- While a taken slot of a valid, open registry has other users, detaching from its shared mutex,
  -- reader-writer lock or condition only unmaps it: the lock is not destroyed, its name is not unlinked,
  -- the slot has one user less, and every name is found where it was.
  pub shlock_detach_others :
      (rounds : ℕ)
      → (w' : World) × (shmutex_detach rounds (some (record { address = address; id = i })) w
          ≡ some (tt, w'))
        × (shrwlock_detach rounds (some (record { address = address; id = i })) w ≡ some (tt, w'))
        × (shcond_detach rounds (some (record { address = address; id = i })) w ≡ some (tt, w'))
        × Restored w w'
        × ((object_at w'.mem i).count + 1 ≡ (object_at w.mem i).count)
        × (w'.calls ≡ munmap (object_at w.mem i).size ∷ w.calls)
  shlock_detach_others rounds =
      let d = dec_name_count-Detached (lock_release rounds) i w h v lt taken in
      let e = detach_lem rounds address i w in
      (
        d.0,
        e.0 ∙ d.1,
        e.1 ∙ d.1,
        e.2 ∙ d.1,
        record {
          valid = d.4.valid;
          sem_back = d.2;
          lookup = λ other. ground (arith, d.4.lookup other);
        },
        ground (arith, d.4.one_less),
        d.3 ∙ others_release rounds (object_at w.mem i) w.calls others,
      )

-- urt_exit on POSIX gives back what a process holds once: one that had joined unmaps the registry, closes
-- the global semaphore and gives its memory back, in this order, and has not joined any more; one that
-- has not joined, also after urt_exit, changes nothing.
pub posix_exit_once :
    (size : ℕ) (p : Process) (w : World)
    → (p' : Process) × (w' : World) × (posix_exit size p w ≡ some (p', w'))
      × (p'.has_mem ≡ false)
      × (w' ≡ record w {
        calls = (if p.has_mem then mem_delete ∷ sem_close ∷ munmap size ∷ [] else []) ++ w.calls;
      })
      × (posix_exit size p' w' ≡ some (p', w'))
unfolding posix_exit global_mem_free global_sem_free
posix_exit_once size p w = elim (Bool-cases p.has_mem) [
  | inl j ↦
      let p' : Process = record { has_mem = false } in
      (
        p',
        record w { calls = mem_delete ∷ sem_close ∷ munmap size ∷ w.calls },
        ground arith,
        refl,
        ground arith,
        refl,
      )
  | inr j ↦ (p, w, ground arith, j, ground arith, ground arith)
]
