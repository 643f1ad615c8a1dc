-- ===== src/Shared.antt =====
-- src/new_common.c: making and attaching to shared objects. What the operating system answers to the
-- call in the middle is an argument.
pub mod New
pub mod Attach
pub mod Unmake
use urt.Base.{ℕ, ◌+◌, Bool, true, false, Option, none, some, List, set, if◌then◌else◌}
use urt.Global.{
  Errno, enoent, Result, ok, err, Object, Internal, World, M, pure, ◌>>=◌, ◌>>◌, object_at, modify,
  type_mem, type_sem, type_mutex, type_rwlock, type_cond, with_book_keeping,
}
use urt.Registry.{reserve_name, inc_name_count, dec_name_count, get_object_by_name_and_inc_count}

-- The address of an object in this process, and the index kept with it.
pub record Handle : Type 0 where
  pub address : ℕ
  pub id : ℕ

-- urt_sys_add_*_book_keeping: the id is stored with the object; except for a semaphore it stands in
-- 16 bytes before it.
unfoldable pub add_book_keeping : Bool → ℕ → ℕ → Handle
add_book_keeping in_memory obj id = record {
  address = if in_memory then obj + 16 else obj;
  id = id;
}

-- The fields that SHOBJ_NEW sets before it counts the first user.
abbrev pub described : Bool → ℕ → ℕ → Object → Object
described in_memory kind sz o = record o {
  has_bookkeeping = in_memory;
  kind = kind;
  size = if in_memory then with_book_keeping sz else sz;
}

abbrev pub describe_at : Bool → ℕ → ℕ → ℕ → World → World
describe_at in_memory kind sz i w = record w {
  mem = record (w.mem) {
    objects = set w.mem.objects i (described in_memory kind sz (object_at w.mem i));
  };
}

-- SHOBJ_NEW behind the call of the system specific part for slot `i`.
unfoldable pub new_in_slot : Bool → ℕ → ℕ → ℕ → Result ℕ → M (Result Handle)
new_in_slot in_memory kind sz i (err e) = dec_name_count none i >> pure (err e)
new_in_slot in_memory kind sz i (ok obj) = do
  modify (describe_at in_memory kind sz i)
  inc_name_count i
  pure (ok (add_book_keeping in_memory obj i))

-- SHOBJ_NEW; `call` is the system specific part.
unfoldable pub shobj_new : Bool → ℕ → ℕ → M (Result ℕ) → List ℕ → M (Result Handle)
shobj_new in_memory kind sz call name = do
  r ← reserve_name name
  elim r [ err e ↦ pure (err e) | ok i ↦ call >>= new_in_slot in_memory kind sz i ]

-- The book keeping of an attached object sets `has_bookkeeping` once more.
abbrev pub mark_at : Bool → ℕ → World → World
mark_at in_memory i w = record w {
  mem = record (w.mem) {
    objects =
        if in_memory
        then set w.mem.objects i (record (object_at w.mem i) { has_bookkeeping = true })
        else w.mem.objects;
  };
}

-- SHOBJ_ATTACH behind the call of the system specific part for slot `i`.
unfoldable pub attach_in_slot : Bool → ℕ → Result ℕ → M (Result Handle)
attach_in_slot in_memory i (err e) = dec_name_count none i >> pure (err e)
attach_in_slot in_memory i (ok obj) =
    modify (mark_at in_memory i) >> pure (ok (add_book_keeping in_memory obj i))

-- SHOBJ_ATTACH
unfoldable pub shobj_attach : Bool → M (Result ℕ) → List ℕ → M (Result Handle)
shobj_attach in_memory call name = do
  r ← get_object_by_name_and_inc_count name
  elim r [ none ↦ pure (err enoent) | some i ↦ call >>= attach_in_slot in_memory i ]

-- The ten functions of src/new_common.c, over the system specific parts of a back-end.
unfoldable pub shmem_new : (List ℕ → ℕ → M (Result ℕ)) → List ℕ → ℕ → M (Result Handle)
shmem_new sys_new name size =
    shobj_new true type_mem size (sys_new name (with_book_keeping size)) name

unfoldable pub shmem_attach : (List ℕ → M (Result ℕ)) → List ℕ → M (Result Handle)
shmem_attach sys_attach name = shobj_attach true (sys_attach name) name

-- `sz` is the size of the type, `sizeof(urt_sem)` and so on.
unfoldable pub shsem_new : ℕ → (List ℕ → ℕ → M (Result ℕ)) → List ℕ → ℕ → M (Result Handle)
shsem_new sz sys_new name init_value = shobj_new false type_sem sz (sys_new name init_value) name

unfoldable pub shsem_attach : (List ℕ → M (Result ℕ)) → List ℕ → M (Result Handle)
shsem_attach sys_attach name = shobj_attach false (sys_attach name) name

unfoldable pub shmutex_new : ℕ → (List ℕ → M (Result ℕ)) → List ℕ → M (Result Handle)
shmutex_new sz sys_new name = shobj_new true type_mutex sz (sys_new name) name

unfoldable pub shmutex_attach : (List ℕ → M (Result ℕ)) → List ℕ → M (Result Handle)
shmutex_attach sys_attach name = shobj_attach true (sys_attach name) name

unfoldable pub shrwlock_new : ℕ → (List ℕ → M (Result ℕ)) → List ℕ → M (Result Handle)
shrwlock_new sz sys_new name = shobj_new true type_rwlock sz (sys_new name) name

unfoldable pub shrwlock_attach : (List ℕ → M (Result ℕ)) → List ℕ → M (Result Handle)
shrwlock_attach sys_attach name = shobj_attach true (sys_attach name) name

unfoldable pub shcond_new : ℕ → (List ℕ → M (Result ℕ)) → List ℕ → M (Result Handle)
shcond_new sz sys_new name = shobj_new true type_cond sz (sys_new name) name

unfoldable pub shcond_attach : (List ℕ → M (Result ℕ)) → List ℕ → M (Result Handle)
shcond_attach sys_attach name = shobj_attach true (sys_attach name) name
