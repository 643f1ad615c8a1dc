-- ===== src/Registry.antt =====
-- src/registry.c: reserving, looking up, attaching to and releasing names.
pub mod Find
pub mod Invariant
pub mod Preserve
pub mod Relabel
pub mod Refine
pub mod Operations
pub mod Attach
pub mod Clear
pub mod Order
use urt.Base.{
  ℕ, zero, suc, ◌+◌, ◌-◌, ◌%◌, ◌^◌, Bool, true, false, not, Option, none, some, List, [], ◌∷◌, ◌==◌,
  ◌&&◌, ◌||◌, ltb, if◌then◌else◌, length, set, get_or,
}
use urt.Name.{name_eq, name_cpy}
use urt.SysName.{convert_name}
use urt.Global.{
  eexist, enospc, Result, ok, err, Object, blank, blank_name, Internal, SysCall, shm_unlink,
  sem_unlink, internal_error, World, M, pure, ◌>>=◌, ◌>>◌, global_sem_wait, global_sem_post,
  get_mem, put_mem, modify, log, object_at, type_mem, type_sem, type_mutex, type_rwlock, type_cond,
}

-- `ro->reserved || ro->count != 0`: the slot is taken.
unfoldable pub is_used : Object → Bool
is_used o = o.reserved || not (o.count == 0)

-- The loop of `_find_by_name` from index `i` on, with `rounds` rounds left.
unfoldable pub find_from : ℕ → ℕ → List Object → List ℕ → Option ℕ
find_from zero i objs name = none
find_from (suc rounds) i objs name =
    if is_used (get_or objs i blank) && name_eq (get_or objs i blank).name name
    then some i
    else find_from rounds (i + 1) objs name

-- `_find_by_name`: the index of the object, or `none` for NULL.
unfoldable pub find_by_name : Internal → List ℕ → Option ℕ
unfolding find_from
find_by_name m name = find_from (m.objects_max_index + 1) 0 m.objects name

-- The search for a free slot; it ends with the number of slots if there is none.
unfoldable pub free_from : ℕ → ℕ → List Object → ℕ
free_from zero i objs = i
free_from (suc rounds) i objs =
    if not (is_used (get_or objs i blank)) then i else free_from rounds (i + 1) objs

unfoldable pub free_index : Internal → ℕ
unfolding free_from
free_index m = free_from (length m.objects) 0 m.objects

-- The object written into the free slot.
abbrev pub reserved_object : List ℕ → Object
reserved_object name = record blank { reserved = true; name = name_cpy blank_name name }

unfoldable pub reserve_at : Internal → ℕ → List ℕ → Internal
reserve_at m i name = record m {
  objects = set m.objects i (reserved_object name);
  objects_max_index = if ltb m.objects_max_index i then i else m.objects_max_index;
}

-- urt_reserve_name: the slot's index, or the error that goes through `error`.
unfoldable pub reserve_name : List ℕ → M (Result ℕ)
reserve_name name = do
  global_sem_wait
  m ← get_mem
  elim (find_by_name m name) [
    | some _ ↦ global_sem_post >> pure (err eexist)
    | none ↦
        if free_index m == length m.objects
        then (global_sem_post >> pure (err enospc))
        else (put_mem (reserve_at m (free_index m) name)
            >> (global_sem_post >> pure (ok (free_index m))))
  ]

-- `++ro->count` on a 32-bit counter, and `ro->reserved = false`.
abbrev pub attached : Object → Object
attached o = record o { count = (o.count + 1) % 2 ^ 32; reserved = false }

abbrev pub inc_at : Internal → ℕ → Internal
inc_at m i = record m { objects = set m.objects i (attached (object_at m i)) }

-- urt_inc_name_count
unfoldable pub inc_name_count : ℕ → M (Unit {0})
inc_name_count i = do global_sem_wait; m ← get_mem; put_mem (inc_at m i); global_sem_post

-- urt_get_object_by_name_and_inc_count
unfoldable pub get_object_by_name_and_inc_count : List ℕ → M (Option ℕ)
get_object_by_name_and_inc_count name = do
  global_sem_wait
  m ← get_mem
  elim (find_by_name m name) [
    | none ↦ global_sem_post >> pure none
    | some i ↦ put_mem (inc_at m i) >> (global_sem_post >> pure (some i))
  ]

-- The loop of `_internal_mem_check`: the max index, and whether an error was given.
unfoldable pub mem_check_from : ℕ → ℕ → List Object → ℕ → Bool → ℕ × Bool
mem_check_from zero i objs max given = (max, given)
mem_check_from (suc rounds) i objs max given =
    let bad = is_used (get_or objs i blank) && ltb max i in
    mem_check_from rounds (i + 1) objs (if bad then i else max) (bad || given)

unfoldable pub internal_mem_check : World → World
unfolding mem_check_from
internal_mem_check w =
    let (max, given) =
      mem_check_from (length w.mem.objects) 0 w.mem.objects w.mem.objects_max_index false in
    log (if given then internal_error ∷ [] else [])
      (record w { mem = record (w.mem) { objects_max_index = max } })

-- `while (index > 0 && the slot is not taken) --index;`
unfoldable pub lower : List Object → ℕ → ℕ
lower objs zero = zero
lower objs (suc k) = if is_used (get_or objs (suc k) blank) then suc k else lower objs k

abbrev pub detached : Object → Object
detached o = record o { count = o.count - 1; reserved = false }

-- A release callback makes system calls that depend on the object; `none` is NULL.
abbrev pub Release : Type 0
Release = Option (Object → List SysCall)

abbrev pub released : Release → Object → List SysCall
released none o = []
released (some release) o = release o

-- The registry once the count of slot `i` is taken down, and `reserved` is reset.
abbrev pub detach_at : Internal → ℕ → Internal
detach_at m i = record m { objects = set m.objects i (detached (object_at m i)) }

-- If slot `i` was the highest in use, the max index moves down to the highest one left.
abbrev pub lower_max : Internal → ℕ → Internal
lower_max m i =
    if i == m.objects_max_index then record m { objects_max_index = lower m.objects i } else m

-- The end of `_dec_count_common`, once the last user of a slot is gone.
unfoldable pub settle : ℕ → World → World
settle i w = internal_mem_check (record w { mem = lower_max w.mem i })

-- `_dec_count_common`
unfoldable pub dec_count_common : Release → ℕ → World → World
dec_count_common release i w =
    let w' =
      log (released release (detached (object_at w.mem i)))
        (record w { mem = detach_at w.mem i }) in
    if ltb 0 (detached (object_at w.mem i)).count then w' else settle i w'

-- urt_dec_name_count (and urt_deregister)
unfoldable pub dec_name_count : Release → ℕ → M (Unit {0})
dec_name_count release i = do global_sem_wait; modify (dec_count_common release i); global_sem_post

-- urt_sys_force_clear_name (sys/posix/src/setup.c)
unfoldable pub unlink_kind : ℕ → List ℕ → List SysCall
unlink_kind kind n =
    if kind == type_mem || kind == type_mutex || kind == type_rwlock || kind == type_cond
    then shm_unlink n ∷ []
    else if kind == type_sem
    then sem_unlink n ∷ []
    else internal_error ∷ []

unfoldable pub sys_force_clear_name : Object → List SysCall
unfolding unlink_kind
sys_force_clear_name o = elim (convert_name o.name) [ none ↦ [] | some n ↦ unlink_kind o.kind n ]

-- `do _dec_count_common(ro, NULL, NULL, NULL); while (ro->count > 0);` `none`: out of fuel.
unfoldable pub dec_to_zero : ℕ → ℕ → World → Option World
dec_to_zero zero i w = none
dec_to_zero (suc fuel) i w =
    let w' = dec_count_common none i w in
    let rest = dec_to_zero fuel i w' in if ltb 0 (object_at w'.mem i).count then rest else some w'

-- The fuel is the count: each round takes one off it.
unfoldable pub clear_at : ℕ → M (Unit {0})
clear_at i w =
    let w' = log (sys_force_clear_name (object_at w.mem i)) w in
    elim (dec_to_zero (suc (object_at w.mem i).count) i w') [ none ↦ none | some v ↦ some (tt, v) ]

-- urt_force_clear_name
unfoldable pub force_clear_name : List ℕ → M (Unit {0})
force_clear_name name = do
  global_sem_wait
  m ← get_mem
  elim (find_by_name m name) [ none ↦ global_sem_post | some i ↦ clear_at i >> global_sem_post ]
