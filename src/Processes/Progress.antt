-- ===== src/Processes/Progress.antt =====
-- Processes that share the registry never wait for each other for ever, src/new_common.c.
use urt.Base.{
  ℕ, ◌+◌, ◌^◌, ◌<◌, ◌≡◌, refl, true, ◌∙◌, subst, inl, inr, Option, none, some, List, arith,
  Option-cases,
}
use urt.Global.{World, global_sem_wait_pos, global_sem_post_after}
use urt.Registry.{
  find_by_name, reserve_name, inc_name_count, inc_at, get_object_by_name_and_inc_count,
  dec_name_count, Release,
}
use urt.Registry.Operations.{Reserves, exists, full, reserved, reserve_name-Reserves}
use urt.Registry.Attach.{inc_name_count-Attached, dec_name_count-Detached}
use urt.Processes.{Role, making, made, attaching, using, Stage, idle, busy, System, Reach}
use urt.Processes.Invariant.{Inv, Holds, busy-Taken}
use urt.Processes.Steps.{small}
use urt.Processes.Runs.{Fresh, Reach-Inv}

-- An operation returns, and leaves the semaphore open.
abbrev pub Returns : {A : Type 0} → Option (A × World) → Type 0
Returns {A = A} r = (a : A) × (w : World) × (r ≡ some (a, w)) × (w.sem ≡ 1)

-- Every operation that a process may call next returns: with nothing at hand it reserves or attaches to
-- any name; while the system specific part of a new object runs it may have to take the reservation
-- back; then it counts its first user; while that of an attachment runs it may have to give up; and with
-- the object in use it detaches, with any callback.
abbrev pub NextReturns : World → Stage → Type 0
NextReturns w idle =
    (name : List ℕ)
    → Returns (reserve_name name w) × Returns (get_object_by_name_and_inc_count name w)
NextReturns w (busy making name i) = Returns (dec_name_count none i w)
NextReturns w (busy made name i) = Returns (inc_name_count i w)
NextReturns w (busy attaching name i) = Returns (dec_name_count none i w)
NextReturns w (busy using name i) = (release : Release) → Returns (dec_name_count release i w)

reserve_name-Returns : (name : List ℕ) (w : World) → w.sem ≡ 1 → Returns (reserve_name name w)
reserve_name-Returns name w one = from (reserve_name-Reserves name w (omega (arith, one)))
  where
    from : Reserves name w (reserve_name name w) → Returns (reserve_name name w)
    from (exists i hit q) = (_, w, q, one)
    from (full miss f q) = (_, w, q, one)
    from (reserved i miss b free q) = (_, _, q, one)

get_object-Returns :
    (name : List ℕ) (w : World) → w.sem ≡ 1 → Returns (get_object_by_name_and_inc_count name w)
unfolding get_object_by_name_and_inc_count
get_object-Returns name w one = elim (Option-cases (find_by_name w.mem name)) [
  | inl miss ↦ (
    none,
    w,
    ground (
      arith,
      miss,
      global_sem_wait_pos w (omega (arith, one)),
      global_sem_post_after w w.mem (omega (arith, one)),
    ),
    one,
  )
  | inr (i, hit) ↦ (
    some i,
    record w { mem = inc_at w.mem i },
    ground (
      arith,
      hit,
      global_sem_wait_pos w (omega (arith, one)),
      global_sem_post_after w (inc_at w.mem i) (omega (arith, one)),
    ),
    one,
  )
]

module _ (n a : ℕ) (s : System) (few : n + 1 < 2 ^ 32) (v : Inv n s) (lt : a < n) where
  detaching-Returns :
      (r : Role) (name : List ℕ) (i : ℕ) (release : Release)
      → s.stage a ≡ busy r name i
      → Returns (dec_name_count release i s.world)
  detaching-Returns r name i release e =
      let h : Holds s.world.mem (busy r name i) = subst (Holds s.world.mem) e (v.held a lt) in
      let d =
        dec_name_count-Detached release i s.world (omega (arith, v.open_sem)) v.valid h.0
          (busy-Taken n a s r name i v lt e) in
      (tt, d.0, d.1, d.2 ∙ v.open_sem)

  publishing-Returns :
      (name : List ℕ) (i : ℕ) → s.stage a ≡ busy made name i → Returns (inc_name_count i s.world)
  publishing-Returns name i e =
      let h : Holds s.world.mem (busy made name i) = subst (Holds s.world.mem) e (v.held a lt) in
      let p =
        inc_name_count-Attached i s.world (omega (arith, v.open_sem)) v.valid h.0
          (busy-Taken n a s made name i v lt e) (small n a s v lt i few) in
      (tt, p.0, p.1, p.2.sem_back ∙ v.open_sem)

  any-NextReturns : (st : Stage) → s.stage a ≡ st → NextReturns s.world st
  any-NextReturns idle e = λ name.
      (reserve_name-Returns name s.world v.open_sem, get_object-Returns name s.world v.open_sem)
  any-NextReturns (busy making name i) e = detaching-Returns making name i none e
  any-NextReturns (busy made name i) e = publishing-Returns name i e
  any-NextReturns (busy attaching name i) e = detaching-Returns attaching name i none e
  any-NextReturns (busy using name i) e = λ release. detaching-Returns using name i release e

-- While fewer than 2^32 - 1 processes share a registry of which no name was taken at first, and none
-- attaches to a name that is being made: in every state that they reach between two operations, every
-- operation of the registry that a process may call next, for the stage of SHOBJ_NEW, SHOBJ_ATTACH or
-- detaching where it stands, returns and leaves the semaphore open.
pub Reach-NextReturns :
    (n : ℕ) (w : World)
    → n + 1 < 2 ^ 32
    → Fresh w
    → (s : System) (a : ℕ) → Reach true n w s
    → a < n
    → NextReturns s.world (s.stage a)
Reach-NextReturns n w few fresh s a r lt =
    any-NextReturns n a s few (Reach-Inv n w few fresh r) lt (s.stage a) refl
