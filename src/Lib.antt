-- ===== src/Lib.antt =====
-- URT, the Unified Real-Time Interface: named objects (memory, semaphores, mutexes, reader-writer locks,
-- condition variables) that processes share, and periodic tasks.
--
-- A process registers a shared object under a name of six characters in a table in shared memory, the
-- registry, which a global semaphore guards. Making an object reserves a slot for its name, lets the
-- back-end make the object, and counts its first user; attaching looks the name up and counts a user;
-- detaching takes a user back, and the last one frees the slot and the system's name. There are two
-- back-ends, POSIX and RTAI.
--
--   Name         src/registry.c: _name_eq, _name_cpy
--   SysName      sys/posix/src/names.c: urt_convert_name
--   Global       src/urt_internal.h: the registry as `Internal` with its `Object`s, and the `World` that a
--                process acts on: the global semaphore's value, the registry, and the calls made to
--                the system. An operation is a state function; its `none` is waiting for ever.
--   Registry     src/registry.c: urt_reserve_name, urt_inc_name_count, urt_dec_name_count,
--                urt_get_object_by_name_and_inc_count, urt_force_clear_name
--   FreeName     src/registry.c: urt_get_free_name and its counter
--   Shared       src/new_common.c: SHOBJ_NEW and SHOBJ_ATTACH with their ten instances, over the
--                system specific part of a back-end
--   Posix        sys/posix/src/mem.c, the shared locks and the global semaphore of
--                sys/posix/src/lock.c, and the life of a shared object
--   Time         sys/posix/include/urt_sys_time.h: the clock, and sleeping
--   Task         src/task_common.c, sys/posix/src/task.c: attributes, start, periods and end
--   Lock         sys/posix/src/lock.c, src/lock_common.c: the loops that wait for a lock;
--                unnamed locks; timed locks made of tries, for systems without them
--   Processes    processes that run SHOBJ_NEW, SHOBJ_ATTACH and detach at the same time: a step for
--                each operation of src/registry.c and for the code between them; and the operations as
--                bodies between a wait and a post
--   Setup        src/setup_common.c, urt_registry_init: urt_init, urt_exit, urt_recover
--   Convert      src/param.c: comparing a parameter's name, converting its values
--   Param        src/param.c: the arguments of a program, parsed and freed
--   Memory       src/mem_common.c: urt_mem_new, urt_mem_resize
--   Dump         src/registry.c: urt_print_names and urt_dump_memory; what is printed is a value
--   Bridge       src/lock_common.c and _lock_op of src/kern_main.c: the global semaphore behind a sysfs
--                file, where kernel and user space share the registry
--   Rtai         sys/rtai: locks, memory, clearing names, joining and leaving, tasks, time, and the
--                caller's context, over the results of RTAI's functions; RTE_BASE and RTE_TIMOUT are
--                arguments
--   Kernel       src/kern_main.c: loading and unloading the kernel module; urt_init and urt_exit as the
--                kernel has them
--   Tools        tools/clear, tools/dump, tools/names, tools/recover: programs that join the registry,
--                do what their arguments say, and leave
--   Glue         include/urt_setup.h: the life of an application, as a program and as a kernel module
--   Base         lists, Boolean tests and integers that the parts share
--   Tests        instances of the theorems at concrete inputs
--
-- An operation keeps the name of its function without the prefix urt_; the macros SHOBJ_NEW and
-- SHOBJ_ATTACH are `shobj_new` and `shobj_attach`. Pointers to objects are slots. The objects of a
-- registry are a list of the length URT_MAX_OBJECTS, which is not fixed. An `unsigned int` wraps
-- around at 2^32. Times are nanoseconds that stay in the range of a `long long`.
--
-- What the operating system answers (shm_open, mmap, sem_timedwait, clock_gettime and so on) is an
-- argument. Loops that wait for the system take fuel, and a theorem says how much is enough; the search
-- for a free name takes as much as there are objects, and two more, and always ends within it.
--
-- Not modelled: the clocks of Mach; calls that only pass on to RTAI, such as waiting for a task's next
-- period; signal handlers; the text that is printed around the values; the Python binding, and the
-- macros that make optional arguments and inline functions.
pub mod Base
pub mod Name
pub mod SysName
pub mod Global
pub mod Registry
pub mod FreeName
pub mod Shared
pub mod Posix
pub mod Time
pub mod Task
pub mod Lock
pub mod Setup
pub mod Dump
pub mod Bridge
pub mod Rtai
pub mod Processes
pub mod Convert
pub mod Param
pub mod Memory
pub mod Tools
pub mod Kernel
pub mod Glue
mod Tests
