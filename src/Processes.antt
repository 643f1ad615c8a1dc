-- ===== src/Processes.antt =====
-- Processes that share the registry, one step at a time: how the calls of src/new_common.c interleave.
-- The global semaphore makes the body of each operation of src/registry.c one step; between them the
-- system specific parts run, and other processes.
pub mod Invariant
pub mod Facts
pub mod Steps
pub mod Safety
pub mod Runs
pub mod Race
pub mod Progress
pub mod Atomic
pub mod Bodies
use urt.Base.{ℕ, ◌<◌, ◌≡◌, Bool, true, false, Option, none, some, List, ◌==◌, if◌then◌else◌}
use urt.Base.Family.{update}
use urt.Global.{Errno, Result, ok, err, World, object_at}
use urt.Registry.{
  reserve_name, inc_name_count, dec_name_count, get_object_by_name_and_inc_count, Release,
}
use urt.Shared.{describe_at, mark_at}

-- Where a process stands in SHOBJ_NEW or SHOBJ_ATTACH: the system specific part of a new object runs;
-- the object is made and described; that of an attachment runs; the object is in use.
pub data Role : Type 0 where
  making made attaching using : Role

-- A process does nothing with the registry, or has to do with the object of a name in a slot. A
-- process with several objects is several agents.
pub data Stage : Type 0 where
  idle : Stage
  busy : Role → List ℕ → ℕ → Stage

pub record System : Type 0 where
  pub world : World
  pub stage : ℕ → Stage

abbrev pub moved : System → ℕ → World → Stage → System
moved s a w st = record { world = w; stage = update s.stage a st }

-- One step of one of `n` agents. If `careful`, nobody attaches to a name while it is being made.
pub data Step (careful : Bool) (n : ℕ) (s t : System) : Type 0 where
  reserve :
      (a : ℕ) (name : List ℕ) (i : ℕ) (w : World)
      → a < n
      → s.stage a ≡ idle
      → reserve_name name s.world ≡ some (ok i, w)
      → t ≡ moved s a w (busy making name i)
      → Step careful n s t
  reserve_fails :
      (a : ℕ) (name : List ℕ) (e : Errno) (w : World)
      → a < n
      → s.stage a ≡ idle
      → reserve_name name s.world ≡ some (err e, w)
      → t ≡ moved s a w idle
      → Step careful n s t
  describe :
      (a : ℕ) (name : List ℕ) (i : ℕ) (in_memory : Bool) (kind sz : ℕ)
      → a < n
      → s.stage a ≡ busy making name i
      → t ≡ moved s a (describe_at in_memory kind sz i s.world) (busy made name i)
      → Step careful n s t
  abandon :
      (a : ℕ) (name : List ℕ) (i : ℕ) (w : World)
      → a < n
      → s.stage a ≡ busy making name i
      → dec_name_count none i s.world ≡ some (tt, w)
      → t ≡ moved s a w idle
      → Step careful n s t
  publish :
      (a : ℕ) (name : List ℕ) (i : ℕ) (w : World)
      → a < n
      → s.stage a ≡ busy made name i
      → inc_name_count i s.world ≡ some (tt, w)
      → t ≡ moved s a w (busy using name i)
      → Step careful n s t
  attach :
      (a : ℕ) (name : List ℕ) (i : ℕ) (w : World)
      → a < n
      → s.stage a ≡ idle
      → get_object_by_name_and_inc_count name s.world ≡ some (some i, w)
      → (careful ≡ true → (object_at s.world.mem i).reserved ≡ false)
      → t ≡ moved s a w (busy attaching name i)
      → Step careful n s t
  attach_fails :
      (a : ℕ) (name : List ℕ) (w : World)
      → a < n
      → s.stage a ≡ idle
      → get_object_by_name_and_inc_count name s.world ≡ some (none, w)
      → t ≡ moved s a w idle
      → Step careful n s t
  map_in :
      (a : ℕ) (name : List ℕ) (i : ℕ) (in_memory : Bool)
      → a < n
      → s.stage a ≡ busy attaching name i
      → t ≡ moved s a (mark_at in_memory i s.world) (busy using name i)
      → Step careful n s t
  give_up :
      (a : ℕ) (name : List ℕ) (i : ℕ) (w : World)
      → a < n
      → s.stage a ≡ busy attaching name i
      → dec_name_count none i s.world ≡ some (tt, w)
      → t ≡ moved s a w idle
      → Step careful n s t
  detach :
      (a : ℕ) (name : List ℕ) (i : ℕ) (release : Release) (w : World)
      → a < n
      → s.stage a ≡ busy using name i
      → dec_name_count release i s.world ≡ some (tt, w)
      → t ≡ moved s a w idle
      → Step careful n s t

-- From a world in which no name is taken and every agent is idle.
pub data Reach (careful : Bool) (n : ℕ) (w : World) : System → Type 0 where
  here : {t : System} → t ≡ record { world = w; stage = λ a. idle } → Reach careful n w t
  later : {s t : System} → Reach careful n w s → Step careful n s t → Reach careful n w t
