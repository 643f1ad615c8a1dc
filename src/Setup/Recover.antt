-- ===== src/Setup/Recover.antt =====
-- What `urt_recover` mends.
use urt.Base.{
  ℕ, zero, suc, ◌++◌, ◌+◌, ◌-◌, ◌<◌, ◌≤◌, ◌≡◌, refl, ◌∙◌, ◌⊎◌, inl, inr, true, false, none, some,
  List, ◌==◌, arith, length, get_or, if◌then◌else◌, ℕ_discrete, dec_lt, get_or_beyond,
}
use urt.Global.{Object, Internal, World, object_at, blank, global_sem_try_wait, global_sem_post}
use urt.Registry.{is_used}
use urt.Registry.Invariant.{IsValid, Taken, key}
use urt.Setup.{
  SetupAnswers, seen, recover_from, recover_max, recover_mem, recover_sem, recover_sys, recover,
}

seen_lem :
    (objs : List Object) (i max : ℕ)
    → (max ≤ seen objs i max)
      × ((is_used (get_or objs i blank) ≡ false) ⊎ (i ≤ seen objs i max))
      × ((seen objs i max ≡ max) ⊎ ((is_used (get_or objs i blank) ≡ true) × (seen objs i max ≡ i)))
unfolding seen
seen_lem objs i max = (ground arith, ground arith, ground arith)

module _ (objs : List Object) where
  recover_from_ge : (rounds i max : ℕ) → max ≤ recover_from rounds i objs max
  unfolding recover_from
  recover_from_ge zero i max = omega arith
  recover_from_ge (suc rounds) i max =
      omega (arith, (seen_lem objs i max).0, recover_from_ge rounds (i + 1) (seen objs i max))

  -- No taken slot that the loop saw is above the max index that it leaves.
  recover_from_covers :
      (rounds i max j : ℕ)
      → i ≤ j
      → j < i + rounds
      → recover_from rounds i objs max < j
      → is_used (get_or objs j blank) ≡ false
  unfolding recover_from
  recover_from_covers zero i max j a b c = absurd (omega arith)
  recover_from_covers (suc rounds) i max j a b c = elim (ℕ_discrete i j) [
    | yes e ↦ elim (seen_lem objs i max).1 [
      | inl free ↦ rw (← e) free
      | inr le ↦ absurd (omega (arith, le, recover_from_ge rounds (i + 1) (seen objs i max)))
    ]
    | no ne ↦ recover_from_covers rounds (i + 1) (seen objs i max) j (omega arith) (omega arith) c
  ]

  -- That max index is a taken slot that the loop saw, or the one from before.
  recover_from_tight :
      (rounds i max : ℕ)
      → (recover_from rounds i objs max ≡ max)
        ⊎ ((is_used (get_or objs (recover_from rounds i objs max) blank) ≡ true)
            × (recover_from rounds i objs max < i + rounds))
  unfolding recover_from
  recover_from_tight zero i max = inl refl
  recover_from_tight (suc rounds) i max =
      elim (recover_from_tight rounds (i + 1) (seen objs i max)) [
        | inr (u, lt) ↦ inr (u, omega arith)
        | inl e ↦ elim (seen_lem objs i max).2 [
          | inl same ↦ inl (e ∙ same)
          | inr (u, now) ↦ let at = e ∙ now in inr (rw at u, omega (arith, at))
        ]
      ]

blank_free : is_used blank ≡ false
unfolding is_used
blank_free = refl

-- Whatever max index a crash left, recovering the registry makes it valid, if its taken slots have
-- different names.
recover_max-IsValid :
    (m : Internal)
    → 0 < length m.objects
    → ((i j : ℕ) → Taken m i → Taken m j → key m i ≡ key m j → i ≡ j)
    → IsValid (recover_max m)
unfolding recover_max
recover_max-IsValid m h unique = record {
  in_bounds = ground (arith, recover_from_tight m.objects (length m.objects) 0 0);
  covered = covered;
  tight = ground (arith, recover_from_tight m.objects (length m.objects) 0 0);
  unique = unique;
}
  where
    covered :
        (j : ℕ)
        → (recover_max m).objects_max_index < j
        → is_used (object_at (recover_max m) j) ≡ false
    covered j lt = elim (dec_lt j (length m.objects)) [
      | yes b ↦
          recover_from_covers m.objects (length m.objects) 0 0 j (omega arith) (omega arith) lt
      | no nb ↦ rw (get_or_beyond m.objects j blank (omega arith)) blank_free
    ]

-- Where urt_sys_init, urt_global_sem_get and urt_global_mem_get succeed and the registry has a slot,
-- urt_recover returns even if a process died while it held the semaphore:
-- the semaphore lets a process in again, and the registry is valid, whatever its max index was, if
-- its taken slots have different names; no slot is changed.
pub recover-IsValid :
    (os : SetupAnswers) (w : World)
    → os.sys_error ≡ none
    → os.sem_error ≡ none
    → os.mem_error ≡ none
    → 0 < length w.mem.objects
    → ((i j : ℕ) → Taken w.mem i → Taken w.mem j → key w.mem i ≡ key w.mem j → i ≡ j)
    → (w' : World) × (recover os w ≡ some (tt, w'))
      × (w'.sem ≡ (if w.sem == 0 then 1 else w.sem))
      × IsValid w'.mem
      × (w'.mem.objects ≡ w.mem.objects)
unfolding recover recover_sys recover_sem recover_mem recover_max global_sem_try_wait
    global_sem_post
recover-IsValid os w a b c h unique = (
  record { sem = w.sem - 1 + 1; mem = recover_max w.mem; calls = os.mem_calls ++ w.calls },
  ground arith,
  ground arith,
  recover_max-IsValid w.mem h unique,
  refl,
)
