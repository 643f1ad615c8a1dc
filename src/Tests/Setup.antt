-- ===== src/Tests/Setup.antt =====
-- Instances for joining and recovering the registry.
use urt.Base.{◌≡◌, refl, false, none, some, [], ◌∷◌, arith}
use urt.Global.{enomem, shm_unlink, close, World}
use urt.Registry.Invariant.{IsValid}
use urt.Setup.{SetupAnswers, Process, recover}
use urt.Setup.Recover.{recover-IsValid}
use urt.Tests.Registry.{start, two_slots, two_slots-IsValid}

-- A process whose structs are larger than those of the registry that is there.
abbrev pub answers : SetupAnswers
answers = record {
  sys_error = none;
  sem_error = none;
  mem_error = none;
  sem_undone = [];
  mem_calls = close ∷ [];
  internal_size = 101;
  object_size = 24;
}

abbrev outside : Process
outside = record { has_mem = false }

-- A process died holding the semaphore, and left the max index too low.
abbrev crashed : World
crashed = record start { sem = 0; mem = record two_slots { objects_max_index = 7 } }

-- mmap fails behind shm_open, and urt_global_mem_get unlinks the name.
abbrev unmapped : SetupAnswers
unmapped = record answers {
  mem_error = some enomem;
  mem_calls = shm_unlink (b'/' ∷ b'U' ∷ []) ∷ close ∷ [];
}

-- The answers to a process whose structs are those of the registry.
abbrev same_structs : SetupAnswers
same_structs = record answers { internal_size = 100 }

recover-IsValid_example :
    (w' : World) × (recover answers crashed ≡ some (tt, w'))
    × (w'.sem ≡ 1)
    × IsValid w'.mem
    × (w'.mem.objects ≡ two_slots.objects)
recover-IsValid_example =
    recover-IsValid answers crashed refl refl refl (omega arith) two_slots-IsValid.unique
