-- ===== src/Processes/Bodies.antt =====
-- The operations of src/registry.c as bodies between one wait and one post of the global semaphore.
use urt.Base.{ℕ, Option, none, some, List, ◌==◌, if◌then◌else◌, length}
use urt.Global.{World}
use urt.Registry.{find_by_name, free_index, reserve_at, inc_at}
use urt.Processes.Atomic.{Body}

abbrev pub reserve_body : List ℕ → Body
reserve_body name m = elim (find_by_name m name) [
  | some _ ↦ m
  | none ↦ if free_index m == length m.objects then m else reserve_at m (free_index m) name
]

abbrev pub attach_body : List ℕ → Body
attach_body name m = elim (find_by_name m name) [ none ↦ m | some i ↦ inc_at m i ]

-- What an operation does, without its result.
abbrev pub effect : {A : Type 0} → Option (A × World) → Option (Unit {0} × World)
effect none = none
effect (some (a, w)) = some (tt, w)
