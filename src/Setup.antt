-- ===== src/Setup.antt =====
-- src/setup_common.c and urt_registry_init of src/registry.c: a process joins the registry, leaves it,
-- and recovers it.
pub mod Init
pub mod Recover
use urt.Base.{
  ℕ, zero, suc, ◌+◌, Bool, true, false, not, Option, none, some, List, [], ◌∷◌, ◌==◌, ◌&&◌, ltb,
  if◌then◌else◌, length, replicate, get_or,
}
use urt.Base.Int.{ℤ, pos, ◌-ℤ◌, ltb_ℤ}
use urt.Global.{
  Errno, ealready, ebusy, Result, ok, err, Object, Internal, World, M, blank, pure, ◌>>=◌, ◌>>◌,
  get_mem, put_mem, modify, log, SysCall, global_sem_wait, global_sem_post, global_sem_try_wait,
}
use urt.Registry.{is_used}

-- "_____$", the first free name.
abbrev pub first_free_name : List ℕ
first_free_name = b'_' ∷ b'_' ∷ b'_' ∷ b'_' ∷ b'_' ∷ b'$' ∷ 0 ∷ []

-- The registry as urt_registry_init leaves it: what the initialiser does not name is zero.
unfoldable pub fresh_registry : ℕ → ℕ → ℕ → Internal
fresh_registry internal_size object_size max_objects = record {
  sizeof_urt_internal = internal_size;
  sizeof_urt_registered_object = object_size;
  objects = replicate max_objects blank;
  objects_max_index = 0;
  next_free_name = first_free_name;
  names_exhausted = false;
  initialized = true;
}

-- The sizes that another process left are the sizes of this one's types.
unfoldable pub same_layout : ℕ → ℕ → Internal → Bool
same_layout internal_size object_size m =
    m.sizeof_urt_internal == internal_size && m.sizeof_urt_registered_object == object_size

-- urt_registry_init: whether it returned 0, and the registry. The sizes are those of the two structs.
unfoldable pub registry_init : ℕ → ℕ → Internal → Bool × Internal
registry_init internal_size object_size m =
    if m.initialized
    then (same_layout internal_size object_size m, m)
    else (true, fresh_registry internal_size object_size (length m.objects))

-- `_calibrate`: the smallest difference between the kernel's clock and the user's, in the rounds whose
-- file could be opened (`none` ends the loop). Of a round that could not be read there is no difference.
unfoldable pub calibrate_from : ℕ → List (Option (Option ℤ)) → Bool → ℤ → ℤ
calibrate_from zero reads first offset = offset
calibrate_from (suc rounds) [] first offset = offset
calibrate_from (suc rounds) (none ∷ reads) first offset = offset
calibrate_from (suc rounds) (some none ∷ reads) first offset =
    calibrate_from rounds reads first offset
calibrate_from (suc rounds) (some (some diff) ∷ reads) first offset =
    calibrate_from rounds reads false
      (if first then diff else if ltb_ℤ diff offset then diff else offset)

-- The offset that becomes `urt_time_offset`.
unfoldable pub calibrate : List (Option (Option ℤ)) → ℤ
calibrate reads = calibrate_from 10 reads true (pos 0)

-- What urt_sys_init, urt_global_sem_get and urt_global_mem_get answer; what urt_global_sem_get calls before
-- it fails, and what urt_global_mem_get calls, whether or not it fails, newest first.
pub record SetupAnswers : Type 0 where
  pub sys_error : Option Errno
  pub sem_error : Option Errno
  pub mem_error : Option Errno
  pub sem_undone : List SysCall
  pub mem_calls : List SysCall
  pub internal_size : ℕ
  pub object_size : ℕ

-- What a process keeps: whether `urt_global_mem` is set.
pub record Process : Type 0 where
  pub has_mem : Bool

-- urt_init once the memory was asked for: the error, if any, and the process.
unfoldable pub init_mem : SetupAnswers → Option Errno → M (Option Errno × Process)
init_mem os (some e) = do
  modify (log os.mem_calls)
  global_sem_post
  pure (some e, record { has_mem = false })
init_mem os none = do
  modify (log os.mem_calls)
  m ← get_mem
  let (works, m') = registry_init os.internal_size os.object_size m
  put_mem m'
  global_sem_post
  pure (if works then none else some ebusy, record { has_mem = true })

unfoldable pub init_sem : SetupAnswers → Process → Option Errno → M (Option Errno × Process)
init_sem os p (some e) = modify (log os.sem_undone) >> pure (some e, p)
init_sem os p none = global_sem_wait >> init_mem os os.mem_error

unfoldable pub init_sys : SetupAnswers → Process → Option Errno → M (Option Errno × Process)
init_sys os p (some e) = pure (some e, p)
init_sys os p none = if p.has_mem then pure (some ealready, p) else init_sem os p os.sem_error

-- urt_init, behind the calibration, which is `calibrate`.
unfoldable pub init : SetupAnswers → Process → M (Option Errno × Process)
init os p = init_sys os p os.sys_error

-- urt_exit: whether there was something to free, and the process.
unfoldable pub exit : Process → Bool × Process
exit p = if p.has_mem then (true, record { has_mem = false }) else (false, p)

-- One round of the loop of urt_recover: the max index once slot `i` is seen.
unfoldable pub seen : List Object → ℕ → ℕ → ℕ
seen objs i max = if is_used (get_or objs i blank) && ltb max i then i else max

-- The loop over the slots from `i` on.
unfoldable pub recover_from : ℕ → ℕ → List Object → ℕ → ℕ
recover_from zero i objs max = max
recover_from (suc rounds) i objs max = recover_from rounds (i + 1) objs (seen objs i max)

unfoldable pub recover_max : Internal → Internal
recover_max m = record m { objects_max_index = recover_from (length m.objects) 0 m.objects 0 }

-- urt_recover with the semaphore at hand.
unfoldable pub recover_mem : SetupAnswers → Option Errno → M (Unit {0})
recover_mem os (some e) = modify (log os.mem_calls) >> global_sem_post
recover_mem os none = do
  modify (log os.mem_calls)
  m ← get_mem
  put_mem (recover_max m)
  global_sem_post

unfoldable pub recover_sem : SetupAnswers → Option Errno → M (Unit {0})
recover_sem os (some e) = modify (log os.sem_undone)
recover_sem os none = global_sem_try_wait >> recover_mem os os.mem_error

unfoldable pub recover_sys : SetupAnswers → Option Errno → M (Unit {0})
recover_sys os (some e) = pure tt
recover_sys os none = recover_sem os os.sem_error

-- urt_recover
unfoldable pub recover : SetupAnswers → M (Unit {0})
recover os = recover_sys os os.sys_error
