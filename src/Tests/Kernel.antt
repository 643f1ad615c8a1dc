-- ===== src/Tests/Kernel.antt =====
-- Instances for the kernel module and for leaving the registry on RTAI.
use urt.Base.{◌≡◌, refl, true, false, some, Option}
use urt.Global.{Errno, ealready, World}
use urt.Setup.{Process, init}
use urt.Kernel.{ModuleAnswers, Module, main_init}
use urt.Kernel.Load.{LoadEnds, main_init-LoadEnds}
use urt.Rtai.Setup.{exit, frees, exit_stays_joined}
use urt.Tests.Registry.{start}
use urt.Tests.Setup.{answers}

-- A system with memory for the registry and a directory, but without room for its files.
abbrev no_files : ModuleAnswers
no_files = record {
  allocated = true;
  internal_size = 100;
  object_size = 24;
  kobject = true;
  lock_file = false;
  time_file = false;
}

main_init-LoadEnds_example :
    (r : Option Errno) × (k : Module) × (w' : World) × (main_init no_files
        (record start { sem = 7 })
      ≡ some ((r, k), w'))
    × LoadEnds no_files (record start { sem = 7 }) r k w'
main_init-LoadEnds_example = main_init-LoadEnds no_files (record start { sem = 7 })

abbrev inside : Process
inside = record { has_mem = true }

exit_stays_joined_example :
    (frees (exit true inside).0 ≡ 1)
    × (init answers (exit true inside).1 start
        ≡ some ((some ealready, (exit true inside).1), start))
    × (frees (exit false (exit true inside).1).0 ≡ 1)
exit_stays_joined_example = exit_stays_joined answers true false inside start refl refl
