-- ===== src/Tests/Dump.antt =====
-- Instances for printing and dumping.
use urt.Base.{ℕ, Bool, List, [], ◌∷◌, ◌&&◌, leb}
use urt.Global.{ok, pure}
use urt.Shared.{Handle}
use urt.Posix.{sys_shmem_attach, shmem_detach}
use urt.Dump.{BackEnd}
use urt.Tests.Shared.{has_room}

abbrev is_shown : ℕ → Bool
is_shown c = leb b'0' c && leb c b'z'

abbrev some_bytes : List ℕ
some_bytes = b'a' ∷ 0 ∷ b'c' ∷ 1 ∷ b'1' ∷ 2 ∷ b'Z' ∷ 3 ∷ []

abbrev posix : BackEnd
posix = record {
  attach_mem = sys_shmem_attach has_room;
  attach_sem = λ name. pure (ok 64);
  attach_mutex = sys_shmem_attach has_room;
  attach_rwlock = sys_shmem_attach has_room;
  attach_cond = sys_shmem_attach has_room;
  detach_mem = shmem_detach;
  detach_sem = λ h. pure tt;
  detach_mutex = shmem_detach;
  detach_rwlock = shmem_detach;
  detach_cond = shmem_detach;
}

abbrev memory_of : Handle → List ℕ
memory_of h = some_bytes
