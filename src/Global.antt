-- ===== src/Global.antt =====
-- src/urt_internal.h: the registry in shared memory, and the world that a process acts on.
use urt.Base.{
  ◌<◌, ◌≡◌, arith, ℕ, suc, ◌+◌, ◌-◌, ◌^◌, ◌%◌, Bool, false, Option, none, some, List, ◌++◌, ◌==◌,
  if◌then◌else◌, replicate, get_or,
}
use urt.Name.{name_len}

-- Error numbers. `os` is one that the operating system chose.
pub data Errno : Type 0 where
  eexist enospc enoent einval enomem ebusy ealready eagain eintr : Errno
  etimedout ecanceled enotsup erange e2big edeadlk : Errno
  os : ℕ → Errno

pub data Result {ℓ} (A : Type ℓ) : Type ℓ where
  ok : A → Result A
  err : Errno → Result A

abbrev pub type_mem : ℕ
type_mem = 1

abbrev pub type_sem : ℕ
type_sem = 2

abbrev pub type_mutex : ℕ
type_mutex = 3

abbrev pub type_rwlock : ℕ
type_rwlock = 4

abbrev pub type_cond : ℕ
type_cond = 5

-- urt_registered_object. `kind` is the field `type`.
pub record Object : Type 0 where
  pub name : List ℕ
  pub reserved : Bool
  pub has_bookkeeping : Bool
  pub kind : ℕ
  pub count : ℕ
  pub size : ℕ

abbrev pub blank_name : List ℕ
blank_name = replicate (suc name_len) 0

-- An object with every byte zero.
abbrev pub blank : Object
blank = record {
  name = blank_name;
  reserved = false;
  has_bookkeeping = false;
  kind = 0;
  count = 0;
  size = 0;
}

-- urt_internal. The length of `objects` is URT_MAX_OBJECTS.
pub record Internal : Type 0 where
  pub sizeof_urt_internal : ℕ
  pub sizeof_urt_registered_object : ℕ
  pub objects : List Object
  pub objects_max_index : ℕ
  pub next_free_name : List ℕ
  pub names_exhausted : Bool
  pub initialized : Bool

-- Calls that leave the library: names unlinked from the system, and internal errors reported.
pub data SysCall : Type 0 where
  shm_unlink : List ℕ → SysCall
  sem_unlink : List ℕ → SysCall
  munmap : ℕ → SysCall
  close : SysCall
  sem_close : SysCall
  mem_delete : SysCall
  destroy : ℕ → SysCall
  internal_error : SysCall
  shm_free : List ℕ → SysCall
  named_sem_delete : SysCall
  named_rwl_delete : SysCall
  drg_on_name : List ℕ → SysCall

-- The size of an object with its 16 bytes of book keeping, a size_t.
unfoldable pub with_book_keeping : ℕ → ℕ
with_book_keeping sz = (sz + 16) % 2 ^ 64

-- The global semaphore, the registry, and the calls made so far, newest first.
pub record World : Type 0 where
  pub sem : ℕ
  pub mem : Internal
  pub calls : List SysCall

-- `none`: the caller waits for ever on the global semaphore.
abbrev pub M : Type 0 → Type 0
M A = World → Option (A × World)

abbrev pub pure : {A : Type 0} → A → M A
pure a w = some (a, w)

infixl 5 ◌>>=◌ ◌>>◌
abbrev pub ◌>>=◌ : {A B : Type 0} → M A → (A → M B) → M B
◌>>=◌ m f w = elim (m w) [ none ↦ none | some (a, w') ↦ f a w' ]

abbrev pub ◌>>◌ : {B : Type 0} → M (Unit {0}) → M B → M B
m >> k = m >>= λ _. k

-- urt_global_sem_wait
unfoldable pub global_sem_wait : M (Unit {0})
global_sem_wait w = if w.sem == 0 then none else some (tt, record w { sem = w.sem - 1 })

-- urt_global_sem_post
unfoldable pub global_sem_post : M (Unit {0})
global_sem_post w = some (tt, record w { sem = w.sem + 1 })

-- urt_global_sem_try_wait: its result is not read.
unfoldable pub global_sem_try_wait : M (Unit {0})
global_sem_try_wait w = some (tt, record w { sem = w.sem - 1 })

abbrev pub get_mem : M Internal
get_mem w = some (w.mem, w)

abbrev pub put_mem : Internal → M (Unit {0})
put_mem m w = some (tt, record w { mem = m })

-- A change of the world by code that takes no lock and cannot fail.
abbrev pub modify : (World → World) → M (Unit {0})
modify f w = some (tt, f w)

abbrev pub log : List SysCall → World → World
log cs w = record w { calls = cs ++ w.calls }

-- urt_global_mem->objects[i]
abbrev pub object_at : Internal → ℕ → Object
object_at m i = get_or m.objects i blank

-- An open semaphore lets the caller in; a closed one does not return.
pub global_sem_wait_pos :
    (w : World) → 0 < w.sem → global_sem_wait w ≡ some (tt, record w { sem = w.sem - 1 })
unfolding global_sem_wait
global_sem_wait_pos w h = ground arith

pub global_sem_post_after :
    (w : World) (m : Internal)
    → 0 < w.sem
    → global_sem_post (record w { sem = w.sem - 1; mem = m }) ≡ some (tt, record w { mem = m })
unfolding global_sem_post
global_sem_post_after w m h = ground arith

pub global_sem_post_calls :
    (w : World) (m : Internal) (cs : List SysCall)
    → 0 < w.sem
    → global_sem_post (record { sem = w.sem - 1; mem = m; calls = cs })
      ≡ some (tt, record w { mem = m; calls = cs })
unfolding global_sem_post
global_sem_post_calls w m cs h = ground arith
