-- ===== src/Tests/Bridge.antt =====
-- Instances for the global semaphore behind sysfs.
use urt.Base.{◌+◌, ◌≡◌, refl, true, false, some}
use urt.Bridge.{Gate, user_wait, user_try_wait, user_post}
use urt.Bridge.Section.{Follows, section-Follows, try_section_misuses, interrupted_section_leaks}
use urt.Tests.Registry.{start}

abbrev gate : Gate
gate = record { kernel = 1; sysfs_locked = false; misused = false }

abbrev taken : Gate
taken = record { kernel = 0; sysfs_locked = false; misused = false }

section-Follows_example : Follows start gate
section-Follows_example = section-Follows start gate refl refl

try_section_misuses_example :
    (g' : Gate) × (g'' : Gate) × (user_try_wait true taken ≡ some g')
    × (user_post true g' ≡ some g'')
    × (g''.misused ≡ true)
try_section_misuses_example = try_section_misuses taken true true refl

interrupted_section_leaks_example :
    (g' : Gate) × (user_wait true true taken ≡ some g')
    × (user_post true g' ≡ some (record taken { kernel = 0 + 1 }))
interrupted_section_leaks_example = interrupted_section_leaks taken refl
