-- ===== src/Lock/Make.antt =====
-- Making and deleting unnamed locks, sys/posix/src/lock.c.
use urt.Base.{
  ℕ, ◌+◌, ◌≡◌, refl, Bool, true, false, Option, none, some, List, [], ◌∷◌, ◌++◌, if◌then◌else◌,
}
use urt.Global.{Errno, enomem, Result, ok, err}

-- What is taken and given back on the way. An attribute is shared between processes or not.
pub data LockCall : Type 0 where
  allocate release : LockCall
  attr_init attr_destroy : LockCall
  set_pshared : Bool → LockCall
  set_inherit : LockCall
  lock_init : LockCall
  lock_destroy : ℕ → LockCall

-- `_shmutex_init`: the error of the thread library's init function, and the calls in order.
unfoldable pub shmutex_init : Option Errno → Bool → Option Errno × List LockCall
shmutex_init error shared =
    (error, attr_init ∷ set_pshared shared ∷ set_inherit ∷ lock_init ∷ attr_destroy ∷ [])

-- `_shrwlock_init`
unfoldable pub shrwlock_init : Option Errno → Bool → Option Errno × List LockCall
shrwlock_init error shared = (error, attr_init ∷ set_pshared shared ∷ lock_init ∷ attr_destroy ∷ [])

-- `_shcond_init`
unfoldable pub shcond_init : Option Errno → Bool → Option Errno × List LockCall
shcond_init error shared = (error, attr_init ∷ set_pshared shared ∷ lock_init ∷ attr_destroy ∷ [])

-- What follows the call of `init`, in `_pthread_lock_new` and urt_sem_new.
unfoldable pub initialised : Option Errno × List LockCall → Result (Unit {0}) × List LockCall
initialised (none, calls) = (ok tt, allocate ∷ calls)
initialised (some e, calls) = (err e, allocate ∷ (calls ++ (release ∷ [])))

-- `_pthread_lock_new`: `allocated` is whether urt_mem_new gave memory.
unfoldable pub pthread_lock_new :
    (Bool → Option Errno × List LockCall) → Bool → Result (Unit {0}) × List LockCall
unfolding initialised
pthread_lock_new init allocated = if allocated then initialised (init false) else (err enomem, [])

-- urt_mutex_new
unfoldable pub mutex_new : Bool → Option Errno → Result (Unit {0}) × List LockCall
unfolding pthread_lock_new shmutex_init
mutex_new allocated error = pthread_lock_new (shmutex_init error) allocated

-- urt_rwlock_new
unfoldable pub rwlock_new : Bool → Option Errno → Result (Unit {0}) × List LockCall
unfolding pthread_lock_new shrwlock_init
rwlock_new allocated error = pthread_lock_new (shrwlock_init error) allocated

-- urt_cond_new
unfoldable pub cond_new : Bool → Option Errno → Result (Unit {0}) × List LockCall
unfolding pthread_lock_new shcond_init
cond_new allocated error = pthread_lock_new (shcond_init error) allocated

-- urt_sem_new
unfoldable pub sem_new : Bool → Option Errno → Result (Unit {0}) × List LockCall
unfolding initialised
sem_new allocated error =
    if allocated then initialised (error, lock_init ∷ []) else (err enomem, [])

-- `_pthread_lock_delete`, which urt_mutex_delete, urt_rwlock_delete and urt_cond_delete call; the argument of the destroy function is the count.
unfoldable pub lock_delete : Bool → List LockCall
lock_delete exists = (if exists then lock_destroy 0 ∷ [] else []) ++ (release ∷ [])

-- urt_mutex_delete, urt_rwlock_delete and urt_cond_delete
unfoldable pub mutex_delete : Bool → List LockCall
unfolding lock_delete
mutex_delete exists = lock_delete exists

unfoldable pub rwlock_delete : Bool → List LockCall
unfolding lock_delete
rwlock_delete exists = lock_delete exists

unfoldable pub cond_delete : Bool → List LockCall
unfolding lock_delete
cond_delete exists = lock_delete exists

-- urt_sem_delete
unfoldable pub sem_delete : Bool → List LockCall
sem_delete exists = (if exists then lock_destroy 0 ∷ [] else []) ++ (release ∷ [])

-- The memory and the attributes that a sequence of calls still holds.
abbrev pub held : List LockCall → ℕ
held [] = 0
held (allocate ∷ cs) = held cs + 1
held (attr_init ∷ cs) = held cs + 1
held (_ ∷ cs) = held cs

abbrev pub given_back : List LockCall → ℕ
given_back [] = 0
given_back (release ∷ cs) = given_back cs + 1
given_back (attr_destroy ∷ cs) = given_back cs + 1
given_back (_ ∷ cs) = given_back cs

-- What making a lock did, against deleting it.
pub data Balanced (result : Result (Unit {0}) × List LockCall) (delete : List LockCall)
    : Type 0 where
  made :
      result.0 ≡ ok tt
      → held (result.1 ++ delete) ≡ given_back (result.1 ++ delete)
      → held result.1 ≡ given_back result.1 + 1
      → Balanced result delete
  failed :
      {e : Errno} → result.0 ≡ err e → held result.1 ≡ given_back result.1 → Balanced result delete

-- Making a lock or a semaphore gives back all that it took when it fails, and keeps exactly the lock's
-- memory when it succeeds; deleting it gives that back.
pub lock_new-Balanced :
    (allocated : Bool) (error : Option Errno)
    → Balanced (mutex_new allocated error) (mutex_delete true)
      × Balanced (rwlock_new allocated error) (rwlock_delete true)
      × Balanced (cond_new allocated error) (cond_delete true)
      × Balanced (sem_new allocated error) (sem_delete true)
unfolding mutex_new rwlock_new cond_new sem_new mutex_delete rwlock_delete cond_delete sem_delete
lock_new-Balanced true none =
    (made refl refl refl, made refl refl refl, made refl refl refl, made refl refl refl)
lock_new-Balanced true (some e) =
    (failed refl refl, failed refl refl, failed refl refl, failed refl refl)
lock_new-Balanced false error =
    (failed refl refl, failed refl refl, failed refl refl, failed refl refl)
