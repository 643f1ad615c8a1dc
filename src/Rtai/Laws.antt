-- ===== src/Rtai/Laws.antt =====
-- What the RTAI back-end leaves behind, sys/rtai/src/lock.c and sys/rtai/src/mem.c.
use urt.Base.{
  ℕ, ◌<◌, ◌≡◌, refl, ◌∙◌, ap, ◌⊎◌, inl, inr, Bool, true, false, Option, none, some, List, [], ◌∷◌,
  ◌++◌, arith,
}
use urt.Global.{
  enomem, ok, err, World, object_at, log, SysCall, shm_free, named_sem_delete, named_rwl_delete,
  mem_delete,
}
use urt.Registry.{find_by_name, dec_name_count, detached, Release, released}
use urt.Registry.Invariant.{IsValid}
use urt.Shared.{Handle}
use urt.Shared.New.{Made}
use urt.Shared.Unmake.{dec_name_count-Unmade}
use urt.Lock.Make.{held, given_back}
use urt.Rtai.Make.{
  sem_new, rwlock_new, cond_new, sem_delete, rwlock_delete, cond_delete, shsem_release,
  shcond_release, shrwlock_release, shsem_detach, shrwlock_detach, shcond_detach, shmem_detach,
}

-- A handle on slot `i`.
abbrev pub handle : ℕ → ℕ → Handle
handle address i = record { address = address; id = i }

-- Detaching leaves no name behind, and these calls, newest first.
pub record Gone (w w1 : World) (cs : List SysCall) (r : Option (Unit {0} × World)) : Type 0 where
  pub world : World
  pub returns : r ≡ some (tt, world)
  pub valid : IsValid world.mem
  pub sem_back : world.sem ≡ w.sem
  pub lookup : (other : List ℕ) → find_by_name world.mem other ≡ find_by_name w.mem other
  pub calls_made : world.calls ≡ cs ++ w1.calls

module _ (b : Bool) (kind sz : ℕ) (name : List ℕ) (w : World) (i : ℕ) (w1 : World) (address : ℕ)
    (h : 0 < w.sem) (made : Made b kind sz name w i w1) where
  gone_lem :
      (release : Release) (cs : List SysCall)
      → released release (detached (object_at w1.mem i)) ≡ cs
      → Gone w w1 cs (dec_name_count release i w1)
  gone_lem release cs e =
      let d = dec_name_count-Unmade b kind sz name w i w1 release h made in
      record {
        world = d.0;
        returns = d.1;
        valid = d.2.valid;
        sem_back = d.2.sem_back;
        lookup = d.2.lookup;
        calls_made = d.2.calls_made ∙ ap (λ x. x ++ w1.calls) e;
      }

  -- On an open registry, detaching the one user of a new semaphore, reader-writer lock or condition
  -- returns, gives the semaphore back, leaves the registry valid, makes it find
  -- every name where it was before it was made, deletes the kernel object, and then the lock's memory.
  pub lock_detach-Gone :
      Gone w w1 (mem_delete ∷ named_sem_delete ∷ []) (shsem_detach (some (handle address i)) w1)
      × Gone w w1
          (mem_delete ∷ named_rwl_delete ∷ [])
          (shrwlock_detach (some (handle address i)) w1)
      × Gone w w1 (mem_delete ∷ named_sem_delete ∷ []) (shcond_detach (some (handle address i)) w1)
  unfolding shsem_detach shrwlock_detach shcond_detach shsem_release shrwlock_release shcond_release
  lock_detach-Gone = (
    gone_lem (some shsem_release) _ (ground (arith, made.one_user)),
    gone_lem (some shrwlock_release) _ (ground (arith, made.one_user)),
    gone_lem (some shcond_release) _ (ground (arith, made.one_user)),
  )

-- Detaching the one user of a new memory gives the memory back by its name, and makes the registry find
-- every name where it was before it was made.
pub shmem_detach-Gone :
    (b : Bool) (kind sz : ℕ) (name : List ℕ) (w : World) (i : ℕ) (w1 : World) (address : ℕ)
    → 0 < w.sem
    → Made b kind sz name w i w1
    → Gone w w1
        (shm_free (object_at w1.mem i).name ∷ [])
        (shmem_detach (some (handle address i)) w1)
unfolding shmem_detach
shmem_detach-Gone b kind sz name w i w1 address h made =
    let w2 : World = log (shm_free (object_at w1.mem i).name ∷ []) w1 in
    let same : Made b kind sz name w i w2 = record {
      valid = made.valid;
      sem_back = made.sem_back;
      was_absent = made.was_absent;
      lookup = made.lookup;
      one_user = made.one_user;
      settled = made.settled;
      kind_set = made.kind_set;
      size_set = made.size_set;
    } in
    let d = gone_lem b kind sz name w i w2 address h same none [] refl in
    record {
      world = d.world;
      returns = d.returns;
      valid = d.valid;
      sem_back = d.sem_back;
      lookup = d.lookup;
      calls_made = d.calls_made;
    }

-- Making a lock, in the kernel or in user space, keeps exactly the lock's memory when it succeeds, which
-- deleting it gives back, and nothing when it fails, and then fails with ENOMEM.
pub new_balanced :
    (in_kernel allocated made : Bool)
    → (((sem_new in_kernel allocated made).0 ≡ ok tt)
        × (held ((sem_new in_kernel allocated made).1 ++ sem_delete true)
            ≡ given_back ((sem_new in_kernel allocated made).1 ++ sem_delete true))
        × (held ((rwlock_new in_kernel allocated made).1 ++ rwlock_delete true)
            ≡ given_back ((rwlock_new in_kernel allocated made).1 ++ rwlock_delete true))
        × (held ((cond_new in_kernel allocated made).1 ++ cond_delete true)
            ≡ given_back ((cond_new in_kernel allocated made).1 ++ cond_delete true)))
      ⊎ (((sem_new in_kernel allocated made).0 ≡ err enomem)
          × (held (sem_new in_kernel allocated made).1
              ≡ given_back (sem_new in_kernel allocated made).1)
          × (held (rwlock_new in_kernel allocated made).1
              ≡ given_back (rwlock_new in_kernel allocated made).1)
          × (held (cond_new in_kernel allocated made).1
              ≡ given_back (cond_new in_kernel allocated made).1))
unfolding sem_new rwlock_new cond_new sem_delete rwlock_delete cond_delete
new_balanced true true made = inl (refl, refl, refl, refl)
new_balanced false true true = inl (refl, refl, refl, refl)
new_balanced false true false = inr (refl, refl, refl, refl)
new_balanced in_kernel false made = inr (refl, refl, refl, refl)
