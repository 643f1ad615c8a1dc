-- ===== src/Dump/Session.antt =====
-- A whole `urt_dump_memory` of src/registry.c: it attaches, shows the bytes, and detaches.
use urt.Base.{ℕ, ◌+◌, ◌^◌, ◌<◌, ◌≡◌, Bool, some, List, arith}
use urt.Global.{
  Errno, Result, err, World, M, object_at, log, SysCall, global_sem_wait_pos, global_sem_post_after,
}
use urt.Registry.{find_by_name, dec_name_count, Release}
use urt.Registry.Invariant.{IsValid}
use urt.Shared.{Handle, shobj_attach}
use urt.Shared.Attach.{shobj_attach_rollback}
use urt.Dump.{BackEnd, cannot_attach, attach_kind, detach_kind, dump_attached, dump_memory}

-- What the back-end does for one type: attaching goes through SHOBJ_ATTACH with a system specific part
-- that only makes system calls, and detaching through urt_deregister with a callback.
pub record Serves (be : BackEnd) (kind : ℕ) (name : List ℕ) (b : Bool) (call : M (Result ℕ))
    (release : Release) : Type 0 where
  pub attaches : attach_kind be kind name ≡ some (shobj_attach b call name)
  pub detaches : (h : Handle) (w : World) → detach_kind be kind h w ≡ dec_name_count release h.id w

-- The registry after the session: the users and the names are those of before.
pub record Unchanged (i : ℕ) (w w' : World) : Type 0 where
  pub valid : IsValid w'.mem
  pub sem_back : w'.sem ≡ w.sem
  pub same_count : (object_at w'.mem i).count ≡ (object_at w.mem i).count
  pub lookup : (other : List ℕ) → find_by_name w'.mem other ≡ find_by_name w.mem other

module _ (be : BackEnd) (isalnum : ℕ → Bool) (contents : Handle → List ℕ) (name : List ℕ)
    (start end i : ℕ) (w : World) (b : Bool) (call : M (Result ℕ)) (release : Release)
    (cs : List SysCall) (h : 0 < w.sem) (v : IsValid w.mem) (hit : find_by_name w.mem name ≡ some i)
    (users : 0 < (object_at w.mem i).count) (room : (object_at w.mem i).count + 1 < 2 ^ 32)
    (serves : Serves be (object_at w.mem i).kind name b call release) where
  -- Where the system does not let the process attach, its error is reported, and the registry has the
  -- users and the names of before.
  pub dump_memory_refused :
      (e : Errno)
      → ((u : World) → call u ≡ some (err e, log cs u))
      → (w' : World) × (dump_memory be isalnum contents name start end w
          ≡ some (cannot_attach e, w'))
        × Unchanged i w w'
  unfolding dump_memory dump_attached
  dump_memory_refused e fails =
      let a = shobj_attach_rollback b call name i w e cs h v hit users room fails in
      (
        a.0,
        ground
            (arith, global_sem_wait_pos w h, global_sem_post_after w w.mem h, serves.attaches, a.1),
        record { valid = a.4; sem_back = a.2; same_count = a.5; lookup = a.6 },
      )
