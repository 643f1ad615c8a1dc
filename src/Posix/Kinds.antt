-- ===== src/Posix/Kinds.antt =====
-- The five kinds of shared objects of the POSIX back-end, sys/posix/src/mem.c and sys/posix/src/lock.c:
-- how a process detaches, and what that calls.
use urt.Base.{
  ℕ, ◌+◌, ◌<◌, ◌≡◌, refl, ap, ◌∙◌, Bool, true, false, some, List, [], ◌∷◌, ◌++◌, if◌then◌else◌,
  arith,
}
use mathlib.Core.List.{append_assoc}
use urt.Global.{
  with_book_keeping, Object, World, M, SysCall, shm_unlink, sem_unlink, munmap, sem_close,
  mem_delete, destroy,
}
use urt.Registry.{detached, released, Release, dec_name_count}
use urt.Shared.{Handle}
use urt.Posix.{shmem_release, shmem_detach, shsem_release, shsem_detach, unlink_with}
use urt.Posix.Shlock.{shmutex_detach, shrwlock_detach, shcond_detach}
use urt.Posix.Detach.{lock_release, detach_lem, last_lock_release, last_sem_release, others_release}

-- A shared object of this back-end. A lock is destroyed after `rounds` unlocks, which is what
-- `destroy_loop` counts.
pub data ObjectKind : Type 0 where
  memory : ObjectKind
  mutex : ℕ → ObjectKind
  rwlock : ℕ → ObjectKind
  condition : ℕ → ObjectKind
  semaphore : ObjectKind

-- Whether the object is in shared memory, behind 16 bytes of book keeping.
abbrev pub in_memory : ObjectKind → Bool
in_memory semaphore = false
in_memory _ = true

-- The function that detaches a process from the object.
unfoldable pub detach_from : ObjectKind → Handle → M (Unit {0})
unfolding shmem_detach shmutex_detach shrwlock_detach shcond_detach shsem_detach
detach_from memory h = shmem_detach (some h)
detach_from (mutex rounds) h = shmutex_detach rounds (some h)
detach_from (rwlock rounds) h = shrwlock_detach rounds (some h)
detach_from (condition rounds) h = shcond_detach rounds (some h)
detach_from semaphore h = shsem_detach (some h)

abbrev pub release_of : ObjectKind → Release
release_of memory = some (shmem_release (λ count. []))
release_of (mutex rounds) = lock_release rounds
release_of (rwlock rounds) = lock_release rounds
release_of (condition rounds) = lock_release rounds
release_of semaphore = some shsem_release

pub detach_from_lem :
    (k : ObjectKind) (address i : ℕ) (w : World)
    → detach_from k (record { address = address; id = i }) w ≡ dec_name_count (release_of k) i w
unfolding detach_from shmem_detach shsem_detach
detach_from_lem memory address i w = refl
detach_from_lem (mutex rounds) address i w = (detach_lem rounds address i w).0
detach_from_lem (rwlock rounds) address i w = (detach_lem rounds address i w).1
detach_from_lem (condition rounds) address i w = (detach_lem rounds address i w).2
detach_from_lem semaphore address i w = refl

-- What the last user's detaching calls before the calls `cs`, newest first.
abbrev pub gone : ObjectKind → Object → ℕ → List SysCall → List SysCall
gone memory o sz cs = unlink_with shm_unlink o ++ (munmap (with_book_keeping sz) ∷ cs)
gone (mutex rounds) o sz cs =
    unlink_with shm_unlink o ++ (munmap (with_book_keeping sz) ∷ destroy rounds ∷ cs)
gone (rwlock rounds) o sz cs =
    unlink_with shm_unlink o ++ (munmap (with_book_keeping sz) ∷ destroy rounds ∷ cs)
gone (condition rounds) o sz cs =
    unlink_with shm_unlink o ++ (munmap (with_book_keeping sz) ∷ destroy rounds ∷ cs)
gone semaphore o sz cs = mem_delete ∷ (unlink_with sem_unlink o ++ (sem_close ∷ cs))

abbrev end_weight : SysCall → ℕ
end_weight (shm_unlink n) = 1
end_weight (sem_unlink n) = 1
end_weight (destroy rounds) = 1
end_weight _ = 0

-- How often a system name was unlinked or a lock destroyed.
abbrev pub ends : List SysCall → ℕ
ends [] = 0
ends (c ∷ cs) = end_weight c + ends cs

pub ends-append : (xs ys : List SysCall) → ends (xs ++ ys) ≡ ends xs + ends ys
ends-append [] ys = omega arith
ends-append (x ∷ xs) ys = omega (arith, ends-append xs ys)

pub last_release :
    (k : ObjectKind) (o o1 : Object) (sz : ℕ) (cs : List SysCall)
    → o.count ≡ 1
    → o.size ≡ (if in_memory k then with_book_keeping sz else sz)
    → o.name ≡ o1.name
    → released (release_of k) (detached o) ++ cs ≡ gone k o1 sz cs
unfolding shmem_release shsem_release unlink_with
last_release memory o o1 sz cs one size named =
    ground (arith, append_assoc (unlink_with shm_unlink o1) (munmap (with_book_keeping sz) ∷ []) cs)
last_release (mutex rounds) o o1 sz cs one size named =
    last_lock_release rounds o sz cs one size ∙ ground arith
last_release (rwlock rounds) o o1 sz cs one size named =
    last_lock_release rounds o sz cs one size ∙ ground arith
last_release (condition rounds) o o1 sz cs one size named =
    last_lock_release rounds o sz cs one size ∙ ground arith
last_release semaphore o o1 sz cs one size named = last_sem_release o cs one ∙ ground arith

pub others_end :
    (k : ObjectKind) (o : Object) (cs : List SysCall)
    → 1 < o.count
    → ends (released (release_of k) (detached o) ++ cs) ≡ ends cs
unfolding shmem_release shsem_release
others_end memory o cs more = ground arith
others_end (mutex rounds) o cs more = ap ends (others_release rounds o cs more) ∙ ground arith
others_end (rwlock rounds) o cs more = ap ends (others_release rounds o cs more) ∙ ground arith
others_end (condition rounds) o cs more = ap ends (others_release rounds o cs more) ∙ ground arith
others_end semaphore o cs more = ground arith
