-- ===== src/Dump.antt =====
-- Printing the registry and dumping an object's memory, src/registry.c: `urt_print_names` and
-- `urt_dump_memory`. What is printed is a value; the fixed text around it is left out.
pub mod Rows
pub mod Listing
pub mod Session
use urt.Base.{
  ℕ, zero, suc, ◌+◌, ◌-◌, ◌%◌, ◌^◌, Bool, true, false, Option, none, some, List, [], ◌∷◌, ◌==◌,
  ◌||◌, ltb, if◌then◌else◌, length, get_or, not,
}
use urt.Global.{
  Errno, Result, ok, err, Object, blank, Internal, World, M, pure, ◌>>=◌, ◌>>◌, get_mem,
  global_sem_wait, global_sem_post, object_at, type_mem, type_sem, type_mutex, type_rwlock,
  type_cond,
}
use urt.Registry.{is_used, find_by_name}
use urt.Shared.{Handle, shmem_attach, shsem_attach, shmutex_attach, shrwlock_attach, shcond_attach}

-- `size - 16` on a size_t, if the object has book keeping.
unfoldable pub net_size : Object → ℕ
net_size o = if o.has_bookkeeping then (o.size + (2 ^ 64 - 16)) % 2 ^ 64 else o.size

-- A line of urt_print_names.
pub record Line : Type 0 where
  pub index : ℕ
  pub object : Object
  pub size : ℕ

-- The loop of urt_print_names from slot `i` on, with `rounds` rounds left.
unfoldable pub lines_from : ℕ → ℕ → List Object → List Line
unfolding net_size
lines_from zero i objs = []
lines_from (suc rounds) i objs =
    let o = get_or objs i blank in
    let rest = lines_from rounds (i + 1) objs in
    if not (is_used o) then rest else record { index = i; object = o; size = net_size o } ∷ rest

-- What urt_print_names shows: the lines, the max index, the next free name, and `(cycled)`.
pub record Listed : Type 0 where
  pub lines : List Line
  pub max_index : ℕ
  pub next_free_name : List ℕ
  pub cycled : Bool

unfoldable pub listed : Internal → Listed
unfolding lines_from
listed m = record {
  lines = lines_from (length m.objects) 0 m.objects;
  max_index = m.objects_max_index;
  next_free_name = m.next_free_name;
  cycled = m.names_exhausted;
}

-- urt_print_names
unfoldable pub print_names : M Listed
unfolding listed
print_names = do global_sem_wait; m ← get_mem; global_sem_post; pure (listed m)

-- A row of urt_dump_memory: the offset, the bytes, and the characters.
pub record Row : Type 0 where
  pub offset : ℕ
  pub bytes : List ℕ
  pub chars : List ℕ

-- `for (j = 0; j < 16 && i + j < end; ++j)`: the bytes of a row from `j` on; `rounds` is 16 - j.
unfoldable pub row_bytes : ℕ → ℕ → ℕ → List ℕ → List ℕ
row_bytes zero k end obj = []
row_bytes (suc rounds) k end obj =
    let rest = row_bytes rounds (k + 1) end obj in if ltb k end then get_or obj k 0 ∷ rest else []

-- `isalnum(c)?c:'.'`
unfoldable pub shown : (ℕ → Bool) → List ℕ → List ℕ
shown isalnum [] = []
shown isalnum (c ∷ cs) = (if isalnum c then c else b'.') ∷ shown isalnum cs

-- `for (i = start; i < end; i += 16)`; `none`: out of fuel.
unfoldable pub rows_from : (ℕ → Bool) → ℕ → ℕ → ℕ → List ℕ → Option (List Row)
unfolding row_bytes shown
rows_from isalnum zero i end obj = if ltb i end then none else some []
rows_from isalnum (suc fuel) i end obj =
    let rest = rows_from isalnum fuel (i + 16) end obj in
    let bs = row_bytes 16 i end obj in
    let row : Row = record { offset = i; bytes = bs; chars = shown isalnum bs } in
    if ltb i end then elim rest [ none ↦ none | some rs ↦ some (row ∷ rs) ] else some []

-- `if (start > size) start = size;` and `if (end == 0 || end > size) end = size;`
unfoldable pub clamp_start : ℕ → ℕ → ℕ
clamp_start start size = if ltb size start then size else start

unfoldable pub clamp_end : ℕ → ℕ → ℕ
clamp_end end size = if end == 0 || ltb size end then size else end

-- The system specific parts that the attaching functions call, and the detaching functions.
pub record BackEnd : Type 0 where
  pub attach_mem : List ℕ → M (Result ℕ)
  pub attach_sem : List ℕ → M (Result ℕ)
  pub attach_mutex : List ℕ → M (Result ℕ)
  pub attach_rwlock : List ℕ → M (Result ℕ)
  pub attach_cond : List ℕ → M (Result ℕ)
  pub detach_mem : Option Handle → M (Unit {0})
  pub detach_sem : Option Handle → M (Unit {0})
  pub detach_mutex : Option Handle → M (Unit {0})
  pub detach_rwlock : Option Handle → M (Unit {0})
  pub detach_cond : Option Handle → M (Unit {0})

-- The first switch; `none` is a type that is not known.
unfoldable pub attach_kind : BackEnd → ℕ → List ℕ → Option (M (Result Handle))
attach_kind be kind name =
    if kind == type_mem
    then some (shmem_attach be.attach_mem name)
    else if kind == type_sem
    then some (shsem_attach be.attach_sem name)
    else if kind == type_mutex
    then some (shmutex_attach be.attach_mutex name)
    else if kind == type_rwlock
    then some (shrwlock_attach be.attach_rwlock name)
    else if kind == type_cond
    then some (shcond_attach be.attach_cond name)
    else none

-- The last switch.
unfoldable pub detach_kind : BackEnd → ℕ → Handle → M (Unit {0})
detach_kind be kind h =
    if kind == type_mem
    then be.detach_mem (some h)
    else if kind == type_sem
    then be.detach_sem (some h)
    else if kind == type_mutex
    then be.detach_mutex (some h)
    else if kind == type_rwlock
    then be.detach_rwlock (some h)
    else if kind == type_cond
    then be.detach_cond (some h)
    else pure tt

-- What urt_dump_memory shows.
pub data Dumped : Type 0 where
  no_such_name : Dumped
  bad_type : Dumped
  cannot_attach : Errno → Dumped
  dumped : List Row → Dumped

-- The rows of an attached object of the size that was read from the registry.
unfoldable pub dump_rows : (ℕ → Bool) → ℕ → ℕ → ℕ → List ℕ → Option (List Row)
unfolding rows_from clamp_start clamp_end
dump_rows isalnum start end size obj =
    rows_from isalnum size (clamp_start start size) (clamp_end end size) obj

unfoldable pub dump_attached :
    BackEnd → (ℕ → Bool) → (Handle → List ℕ) → ℕ → ℕ → ℕ → ℕ → Result Handle → M Dumped
unfolding dump_rows
dump_attached be isalnum contents kind start end size (err e) = pure (cannot_attach e)
dump_attached be isalnum contents kind start end size (ok h) =
    elim (dump_rows isalnum start end size (contents h)) [
      | none ↦ λ w. none
      | some rows ↦ detach_kind be kind h >> pure (dumped rows)
    ]

-- urt_dump_memory; `contents` is the memory of the object that a handle stands for.
unfoldable pub dump_memory : BackEnd → (ℕ → Bool) → (Handle → List ℕ) → List ℕ → ℕ → ℕ → M Dumped
unfolding dump_attached net_size
dump_memory be isalnum contents name start end = do
  global_sem_wait
  m ← get_mem
  global_sem_post
  elim (find_by_name m name) [
    | none ↦ pure no_such_name
    | some i ↦ elim (attach_kind be (object_at m i).kind name) [
      | none ↦ pure bad_type
      | some attach ↦
          attach
          >>= dump_attached be isalnum contents (object_at m i).kind start end
              (net_size (object_at m i))
    ]
  ]
