-- ===== src/Setup/Init.antt =====
-- What `urt_init` and `urt_exit` leave.
use urt.Base.{
  ℕ, ◌<◌, ◌≡◌, refl, sym, ◌⊎◌, inl, true, false, Option, none, some, List, arith, length,
  length-replicate, get_or-replicate,
}
use urt.Global.{Errno, ealready, ebusy, World, object_at, blank, log}
use urt.Registry.{is_used, find_by_name}
use urt.Registry.Invariant.{IsValid, find_by_name_of_no_key}
use urt.FreeName.Digits.{name_of, name_of_first}
use urt.Setup.{fresh_registry, same_layout, SetupAnswers, Process}

module _ (s o n : ℕ) where
  fresh_free : (i : ℕ) → is_used (object_at (fresh_registry s o n) i) ≡ false
  unfolding fresh_registry is_used
  fresh_free i = rw (get_or-replicate n i blank) refl

  -- A new registry with at least one slot is valid, holds no name, and starts with the first of the free names.
  pub fresh_registry_lem :
      0 < n
      → IsValid (fresh_registry s o n)
        × ((name : List ℕ) → find_by_name (fresh_registry s o n) name ≡ none)
        × ((fresh_registry s o n).next_free_name ≡ name_of 0)
        × ((fresh_registry s o n).names_exhausted ≡ false)
  unfolding fresh_registry
  fresh_registry_lem h = (
    record {
      in_bounds = ground (arith, length-replicate n blank);
      covered = λ j lt. fresh_free j;
      tight = inl refl;
      unique = λ i j ti tj e. absurd (ground (arith, fresh_free i));
    },
    (λ name.
        find_by_name_of_no_key (fresh_registry s o n) name (λ j t e. ground (arith, fresh_free j))),
    sym name_of_first,
    refl,
  )

-- How urt_init ends: the process has joined a registry whose layout is its own, which was there
-- before or is new; or it reports an error and the registry is as it was, where a process of another
-- layout keeps the memory. What urt_global_sem_get and
-- urt_global_mem_get called remains, also where they failed.
pub data InitEnds (os : SetupAnswers) (p : Process) (w : World)
    : Option Errno → Process → World → Type 0 where
  joined :
      {p' : Process} {w' : World}
      → p.has_mem ≡ false
      → p'.has_mem ≡ true
      → w.mem.initialized ≡ true
      → same_layout os.internal_size os.object_size w.mem ≡ true
      → w' ≡ log os.mem_calls w
      → InitEnds os p w none p' w'
  created :
      {p' : Process} {w' : World}
      → p.has_mem ≡ false
      → p'.has_mem ≡ true
      → w.mem.initialized ≡ false
      → w' ≡ record (log os.mem_calls w) {
        mem = fresh_registry os.internal_size os.object_size (length w.mem.objects);
      }
      → InitEnds os p w none p' w'
  refused :
      {e : Errno} {p' : Process} {w' : World}
      → ((e ≡ ealready) × (p.has_mem ≡ true)) ⊎ (os.sys_error ≡ some e)
      → p' ≡ p
      → w' ≡ w
      → InitEnds os p w (some e) p' w'
  no_semaphore :
      {e : Errno} {p' : Process} {w' : World}
      → os.sem_error ≡ some e
      → p' ≡ p
      → w' ≡ log os.sem_undone w
      → InitEnds os p w (some e) p' w'
  no_memory :
      {e : Errno} {p' : Process} {w' : World}
      → os.mem_error ≡ some e
      → p'.has_mem ≡ false
      → w' ≡ log os.mem_calls w
      → InitEnds os p w (some e) p' w'
  busy :
      {p' : Process} {w' : World}
      → same_layout os.internal_size os.object_size w.mem ≡ false
      → p'.has_mem ≡ true
      → w' ≡ log os.mem_calls w
      → InitEnds os p w (some ebusy) p' w'
