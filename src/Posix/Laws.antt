-- ===== src/Posix/Laws.antt =====
-- What the POSIX back-end does on its error paths, and the end of a shared object.
use urt.Base.{
  ℕ, ◌+◌, ◌^◌, ◌<◌, ◌≡◌, ◌∙◌, ◌⊎◌, inl, inr, true, none, some, List, [], ◌∷◌, ◌++◌, arith, length,
}
use mathlib.Core.List.{append_assoc}
use urt.SysName.{convert_name}
use urt.Global.{
  with_book_keeping, Errno, ok, err, Object, World, object_at, log, SysCall, shm_unlink, munmap,
  close,
}
use urt.Registry.{find_by_name, detached}
use urt.Registry.Invariant.{IsValid, Taken}
use urt.Registry.Attach.{Detached, dec_name_count-Detached}
use urt.Shared.New.{Made}
use urt.Shared.Unmake.{dec_name_count-Unmade}
use urt.Shared.{shmem_attach}
use urt.Shared.Attach.{shobj_attach_rollback}
use urt.Posix.{
  ShmAnswers, sys_shmem_attach, shmem_release, shmem_detach, unlink_with, pthread_shlock_new,
}

-- What the release callback does for the last user.
last_release :
    (o : Object) (sz : ℕ) (cs : List SysCall)
    → o.count ≡ 1
    → o.size ≡ with_book_keeping sz
    → shmem_release (λ count. []) (detached o) ++ cs
      ≡ unlink_with shm_unlink o ++ (munmap (with_book_keeping sz) ∷ cs)
unfolding shmem_release unlink_with
last_release o sz cs one size =
    ground (arith, append_assoc (unlink_with shm_unlink o) (munmap (with_book_keeping sz) ∷ []) cs)

-- The end of a shared memory that was made and has one user: detaching makes the registry find every
-- name where it was before the memory was made, unmaps it with its 16 bytes of book keeping, and
-- unlinks its system name.
pub shmem_detach-Made :
    (kind sz : ℕ) (name : List ℕ) (w : World) (i : ℕ) (w1 : World) (address : ℕ)
    → 0 < w.sem
    → Made true kind sz name w i w1
    → (w' : World) × (shmem_detach (some (record { address = address; id = i })) w1 ≡ some (tt, w'))
      × (w'.sem ≡ w.sem)
      × IsValid w'.mem
      × ((other : List ℕ) → find_by_name w'.mem other ≡ find_by_name w.mem other)
      × (w'.calls
          ≡ unlink_with shm_unlink (object_at w1.mem i)
            ++ (munmap (with_book_keeping sz) ∷ w1.calls))
unfolding shmem_detach
shmem_detach-Made kind sz name w i w1 address h made =
    let d =
      dec_name_count-Unmade true kind sz name w i w1 (some (shmem_release (λ count. []))) h made in
    (
      d.0,
      d.1,
      d.2.sem_back,
      d.2.valid,
      d.2.lookup,
      d.2.calls_made ∙ last_release (object_at w1.mem i) sz w1.calls made.one_user made.size_set,
    )

sys_shmem_attach_fails :
    (os : ShmAnswers) (name n : List ℕ) (e : Errno) (w : World)
    → convert_name name ≡ some n
    → os.open_error ≡ none
    → (os.stat ≡ err e) ⊎ ((size : ℕ) × (os.stat ≡ ok size) × (os.map size ≡ err e))
    → sys_shmem_attach os name w ≡ some (err e, log (shm_unlink n ∷ close ∷ []) w)
unfolding sys_shmem_attach
sys_shmem_attach_fails os name n e w c o (inl f) = ground arith
sys_shmem_attach_fails os name n e w c o (inr (size, f, g)) = ground arith

-- On a valid registry that is open, where urt_shmem_attach to a name that is found, of an object with
-- users and room in its 32-bit counter, opens the memory but fstat or mmap fails: the call fails, the
-- registry still finds the name, and the object has the same users as before, who are more than none;
-- yet the system name of the object is unlinked.
pub shmem_attach_unlinks_used :
    (os : ShmAnswers) (name n : List ℕ) (i : ℕ) (e : Errno) (w : World)
    → 0 < w.sem
    → IsValid w.mem
    → find_by_name w.mem name ≡ some i
    → 0 < (object_at w.mem i).count
    → (object_at w.mem i).count + 1 < 2 ^ 32
    → convert_name name ≡ some n
    → os.open_error ≡ none
    → (os.stat ≡ err e) ⊎ ((size : ℕ) × (os.stat ≡ ok size) × (os.map size ≡ err e))
    → (w' : World) × (shmem_attach (sys_shmem_attach os) name w ≡ some (err e, w'))
      × (find_by_name w'.mem name ≡ some i)
      × ((object_at w'.mem i).count ≡ (object_at w.mem i).count)
      × (0 < (object_at w'.mem i).count)
      × (w'.calls ≡ shm_unlink n ∷ close ∷ w.calls)
unfolding shmem_attach
shmem_attach_unlinks_used os name n i e w h v hit users room c o fails =
    let r =
      shobj_attach_rollback true (sys_shmem_attach os name) name i w e (shm_unlink n ∷ close ∷ []) h
        v hit users room (λ u. sys_shmem_attach_fails os name n e u c o fails) in
    (r.0, r.1, r.6 name ∙ hit, r.5, rw r.5 users, r.3)

-- When initialising a new shared lock fails, the object in the slot that the new memory's first word
-- names loses a user.
pub pthread_shlock_new_hits_slot :
    (os : ShmAnswers) (word size : ℕ) (name n : List ℕ) (e : Errno) (address : ℕ) (w : World)
    → 0 < w.sem
    → IsValid w.mem
    → word < length w.mem.objects
    → Taken w.mem word
    → convert_name name ≡ some n
    → os.open_error ≡ none
    → os.truncate_error ≡ none
    → os.map (size + 16) ≡ ok address
    → (w' : World) × (pthread_shlock_new os word (some e) size name w ≡ some (err e, w'))
      × Detached word w.mem w'.mem
unfolding pthread_shlock_new shmem_detach
pthread_shlock_new_hits_slot os word size name n e address w h v lt u c o t m =
    let d =
      dec_name_count-Detached (some (shmem_release (λ count. []))) word (log (close ∷ []) w) h v lt
        u in
    (d.0, ground (arith, c, o, t, m, d.1), d.4)
