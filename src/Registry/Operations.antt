-- ===== src/Registry/Operations.antt =====
-- The operations of src/registry.c as a caller sees them: they return, give the global semaphore
-- back, and change the map from names to slots in one entry at most.
use urt.Base.{
  ℕ, ◌-◌, ◌<◌, ◌≡◌, refl, inl, inr, true, false, ltb, if◌then◌else◌, Option, none, some, List, ◌++◌,
  arith, length, Bool-cases, Option-cases, ℕ_discrete,
}
use urt.Name.{name_eq}
use urt.Global.{
  Internal, World, object_at, Result, ok, err, eexist, enospc, log, global_sem_wait_pos,
  global_sem_post_after,
}
use urt.Registry.{
  detach_at, lower_max, is_used, find_by_name, free_index, reserve_at, reserve_name,
  dec_count_common, Release, released, detached, settle, internal_mem_check,
}
use urt.Registry.Find.{mem_check_from_lem}
use urt.Registry.Invariant.{IsValid, Taken}
use urt.Registry.Preserve.{
  free_index_lem, free_index_full, reserve_at-IsValid, object_at-reserve_at, lower_max-IsValid,
}
use urt.Registry.Refine.{find_by_name-reserve_at}

-- What `urt_reserve_name` can do from a world: report a name in use, report a full registry, or
-- reserve a free slot.
pub data Reserves (name : List ℕ) (w : World) : Option (Result ℕ × World) → Type 0 where
  exists :
      {r : Option (Result ℕ × World)} (i : ℕ)
      → find_by_name w.mem name ≡ some i
      → r ≡ some (err eexist, w)
      → Reserves name w r
  full :
      {r : Option (Result ℕ × World)}
      → find_by_name w.mem name ≡ none
      → ((j : ℕ) → j < length w.mem.objects → Taken w.mem j)
      → r ≡ some (err enospc, w)
      → Reserves name w r
  reserved :
      {r : Option (Result ℕ × World)} (i : ℕ)
      → find_by_name w.mem name ≡ none
      → i < length w.mem.objects
      → is_used (object_at w.mem i) ≡ false
      → r ≡ some (ok i, record w { mem = reserve_at w.mem i name })
      → Reserves name w r

-- With the semaphore open, `urt_reserve_name` returns and gives the semaphore back: it reports EEXIST
-- for a name that is found, or else ENOSPC if no slot is free, both without a change, or else it
-- reserves the first free slot.
pub reserve_name-Reserves :
    (name : List ℕ) (w : World) → 0 < w.sem → Reserves name w (reserve_name name w)
unfolding reserve_name
reserve_name-Reserves name w h = elim (Option-cases (find_by_name w.mem name)) [
  | inl miss ↦ elim (ℕ_discrete (free_index w.mem) (length w.mem.objects)) [
    | yes e ↦
        full miss (λ j lt. free_index_full w.mem j e lt)
          (ground (arith, global_sem_wait_pos w h, global_sem_post_after w w.mem h))
    | no ne ↦
        reserved (free_index w.mem) miss (free_index_lem w.mem ne).0 (free_index_lem w.mem ne).1 (
          ground (
            arith,
            global_sem_wait_pos w h,
            global_sem_post_after w (reserve_at w.mem (free_index w.mem) name) h,
          ))
  ]
  | inr (i, hit) ↦
      exists i hit (ground (arith, global_sem_wait_pos w h, global_sem_post_after w w.mem h))
]

-- What a successful reservation leaves.
pub record Reserved (name : List ℕ) (w : World) (i : ℕ) (w' : World) : Type 0 where
  pub valid : IsValid w'.mem
  pub sem_back : w'.sem ≡ w.sem
  pub quiet : w'.calls ≡ w.calls
  pub was_absent : find_by_name w.mem name ≡ none
  pub lookup :
      (other : List ℕ)
      → find_by_name w'.mem other
        ≡ (if name_eq name other then some i else find_by_name w.mem other)
  pub is_reserved : (object_at w'.mem i).reserved ≡ true
  pub no_users : (object_at w'.mem i).count ≡ 0

reserve_at-Reserved :
    (name : List ℕ) (w : World) (i : ℕ)
    → IsValid w.mem
    → find_by_name w.mem name ≡ none
    → i < length w.mem.objects
    → is_used (object_at w.mem i) ≡ false
    → Reserved name w i (record w { mem = reserve_at w.mem i name })
reserve_at-Reserved name w i v miss lt free = record {
  valid = reserve_at-IsValid w.mem i name lt v miss;
  sem_back = refl;
  quiet = refl;
  was_absent = miss;
  lookup = λ other. find_by_name-reserve_at w.mem i name lt v other free miss;
  is_reserved = ground (arith, object_at-reserve_at w.mem i name lt i);
  no_users = ground (arith, object_at-reserve_at w.mem i name lt i);
}

Reserves-ok :
    {name : List ℕ} {w : World} {r : Option (Result ℕ × World)} (i : ℕ) (w' : World)
    → Reserves name w r
    → IsValid w.mem
    → r ≡ some (ok i, w')
    → Reserved name w i w'
Reserves-ok i w' (exists j hit e) v q = absurd (cc)
Reserves-ok i w' (full miss f e) v q = absurd (cc)
Reserves-ok {name} {w} i w' (reserved j miss lt free e) v q =
    let ei : i ≡ j = cc in
    let ew : w' ≡ record w { mem = reserve_at w.mem j name } = cc in
    rw (ei, ew) (reserve_at-Reserved name w j v miss lt free)

-- On a valid registry whose semaphore is open, a name that `urt_reserve_name` returned a slot for was
-- not there; from then on it is found in that slot, every other name is found where it was, the
-- registry is valid, and the semaphore is given back.
pub reserve_name-ok :
    (name : List ℕ) (w : World) (i : ℕ) (w' : World)
    → 0 < w.sem
    → IsValid w.mem
    → reserve_name name w ≡ some (ok i, w')
    → Reserved name w i w'
reserve_name-ok name w i w' h v q = Reserves-ok i w' (reserve_name-Reserves name w h) v q

-- Under the invariant the check at the end of `_dec_count_common` finds nothing to mend.
internal_mem_check_lem : (w : World) → IsValid w.mem → internal_mem_check w ≡ w
unfolding internal_mem_check
internal_mem_check_lem w v =
    rw (mem_check_from_lem (length w.mem.objects) 0 w.mem.objects w.mem.objects_max_index v.covered)

settle_lem :
    (i : ℕ) (w : World)
    → IsValid (lower_max w.mem i)
    → settle i w ≡ record w { mem = lower_max w.mem i }
unfolding settle
settle_lem i w v = internal_mem_check_lem (record w { mem = lower_max w.mem i }) v

-- The registry after slot `i` was detached from once.
unfoldable pub after_detach : Internal → ℕ → Internal
after_detach m i =
    if ltb 1 (object_at m i).count then detach_at m i else lower_max (detach_at m i) i

-- The whole effect of `_dec_count_common`: the count goes down, the callback's calls are made, and
-- no internal error is reported.
pub dec_count_common_lem :
    (release : Release) (i : ℕ) (w : World)
    → i < length w.mem.objects
    → IsValid w.mem
    → dec_count_common release i w ≡ record {
      sem = w.sem;
      mem = after_detach w.mem i;
      calls = released release (detached (object_at w.mem i)) ++ w.calls;
    }
unfolding dec_count_common after_detach
dec_count_common_lem release i w lt v = elim (Bool-cases (ltb 1 (object_at w.mem i).count)) [
  | inl many ↦ rw (many, few_left many)
  | inr few ↦
      rw (few, none_left few)
        (settle_lem i
          (log (released release (detached (object_at w.mem i)))
            (record w { mem = detach_at w.mem i }))
          (lower_max-IsValid w.mem i lt v))
]
  where
    few_left : ltb 1 (object_at w.mem i).count ≡ true → ltb 0 ((object_at w.mem i).count - 1) ≡ true
    few_left h = ground arith

    none_left :
        ltb 1 (object_at w.mem i).count ≡ false → ltb 0 ((object_at w.mem i).count - 1) ≡ false
    none_left h = ground arith
