-- ===== src/Tests/Lifecycle.antt =====
-- Instances for the life of a shared memory, and for freeing the arguments of a program.
use urt.Base.{◌≡◌, refl, some, List, [], ◌∷◌, arith}
use urt.Global.{World, close}
use urt.Posix.Kinds.{rwlock}
use urt.Posix.Lifecycle.{Op, attach, detach, Living, Lasts, run, run-Living}
use urt.Tests.Registry.{start, name_b}
use urt.Tests.Shared.{made_b, works, works_lem}

-- Two processes attach, and the first and one of them detach.
abbrev visits : List Op
visits = attach ∷ attach ∷ detach ∷ detach ∷ []

visits-Lasts : Lasts visits 1
visits-Lasts = (omega arith, (omega arith, (omega arith, (omega arith, tt))))

-- The memory of the tests of shared objects, as a reader-writer lock that is unlocked once before it is
-- destroyed.
run-Living_example :
    (u : World) × (run (rwlock 1) works name_b 1 4112 visits made_b.0 ≡ some (tt, u))
    × Living name_b start 1 made_b.0 1 u
run-Living_example =
    run-Living (rwlock 1) 1 8 name_b start 1 made_b.0 4112 4096 works (close ∷ []) (omega arith)
      made_b.2 works_lem refl visits visits-Lasts
