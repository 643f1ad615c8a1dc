-- ===== src/Kernel.antt =====
-- src/kern_main.c: loading and unloading the kernel module that keeps the global semaphore and memory;
-- and urt_init and urt_exit as src/setup_common.c compiles them for the kernel.
pub mod Load
use urt.Base.{Bool, true, false, Option, none, some, ℕ, List, [], ◌∷◌, ◌++◌, if◌then◌else◌}
use urt.Global.{Errno, ealready, enomem, World, M, pure, ◌>>=◌, ◌>>◌, modify, global_sem_wait}
use urt.Setup.{SetupAnswers, Process, init_mem}

-- What the system answers: whether there is memory for the registry, a directory, and its two files.
pub record ModuleAnswers : Type 0 where
  pub allocated : Bool
  pub internal_size : ℕ
  pub object_size : ℕ
  pub kobject : Bool
  pub lock_file : Bool
  pub time_file : Bool

-- In the kernel urt_sys_init and urt_global_sem_get return 0, and urt_global_mem_get can only lack
-- memory.
abbrev pub setup_of : ModuleAnswers → SetupAnswers
setup_of a = record {
  sys_error = none;
  sem_error = none;
  mem_error = if a.allocated then none else some enomem;
  sem_undone = [];
  mem_calls = [];
  internal_size = a.internal_size;
  object_size = a.object_size;
}

-- urt_init in the kernel
unfoldable pub kernel_init : SetupAnswers → Process → M (Option Errno × Process)
kernel_init os p = if p.has_mem then pure (none, p) else global_sem_wait >> init_mem os os.mem_error

-- urt_exit in the kernel: the memory is kept for the other modules.
unfoldable pub kernel_exit : Process → Process
kernel_exit p = p

pub data Notice : Type 0 where
  cannot_initialize no_directory no_lock_file no_time_file loaded_notice : Notice

-- The module's `urt_global_mem` and `_kobj`, and what it reported.
pub record Module : Type 0 where
  pub process : Process
  pub kobj : Bool
  pub notices : List Notice

unfoldable pub make_files : ModuleAnswers → List Notice
make_files a =
    if a.kobject
    then (if a.lock_file then [] else no_lock_file ∷ [])
      ++ ((if a.time_file then [] else no_time_file ∷ []) ++ (loaded_notice ∷ []))
    else no_directory ∷ loaded_notice ∷ []

-- `ret != 0 && ret != EALREADY`
abbrev pub is_failure : Option Errno → Bool
is_failure none = false
is_failure (some ealready) = false
is_failure (some e) = true

-- `_urt_main_init` behind urt_init: the error, if any, and the module.
unfoldable pub after_init : ModuleAnswers → Option Errno × Process → Option Errno × Module
unfolding kernel_exit make_files
after_init a (ret, p) =
    if is_failure ret
    then (
      some enomem,
      record { process = kernel_exit p; kobj = false; notices = cannot_initialize ∷ [] },
    )
    else (none, record { process = p; kobj = a.kobject; notices = make_files a })

-- `_urt_main_init`; `urt_global_mem` and `_kobj` are NULL at first.
unfoldable pub main_init : ModuleAnswers → M (Option Errno × Module)
unfolding kernel_init after_init
main_init a =
    modify (λ w. record w { sem = 1 })
    >> (kernel_init (setup_of a) (record { has_mem = false }) >>= λ r. pure (after_init a r))

pub data UnloadCall : Type 0 where
  kobject_put global_mem_free : UnloadCall

-- `_urt_main_exit`: the calls, in order.
unfoldable pub main_exit : Module → List UnloadCall
unfolding kernel_exit
main_exit k =
    (if k.kobj then kobject_put ∷ [] else [])
    ++ (if (kernel_exit k.process).has_mem then global_mem_free ∷ [] else [])
