-- ===== src/Processes/Atomic.antt =====
-- An operation of src/registry.c whose body, between urt_global_sem_wait and urt_global_sem_post, is one
-- function of the registry.
use urt.Global.{Internal, M, ◌>>=◌, ◌>>◌, get_mem, put_mem, global_sem_wait, global_sem_post}

-- What an operation makes of the registry.
abbrev pub Body : Type 0
Body = Internal → Internal

abbrev pub atomically : Body → M (Unit {0})
atomically f = global_sem_wait >> (get_mem >>= λ m. put_mem (f m) >> global_sem_post)
