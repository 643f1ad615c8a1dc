-- ===== src/Registry/Attach.antt =====
-- Attaching to a name and detaching from it, src/registry.c: `urt_inc_name_count`,
-- `urt_get_object_by_name_and_inc_count`, `urt_dec_name_count`.
use urt.Base.{
  ℕ, ◌+◌, ◌-◌, ◌^◌, ◌<◌, ◌≡◌, refl, ◌⊎◌, inl, inr, true, false, ◌==◌, if◌then◌else◌, ◌&&◌, none,
  some, List, ◌++◌, arith, length, Option-cases, length-set, leb,
}
use urt.Name.{name_eq}
use urt.Global.{
  Internal, World, object_at, global_sem_wait_pos, global_sem_post_after, global_sem_post_calls,
}
use urt.Registry.{
  find_by_name, inc_at, get_object_by_name_and_inc_count, inc_name_count, dec_name_count, Release,
  released, detached, attached,
}
use urt.Registry.Invariant.{IsValid, Taken, find_by_name_le_max, find_by_name-Hit}
use urt.Registry.Preserve.{
  object_at-inc_at, object_at-detach_at, inc_at-IsValid, detach_at-IsValid, lower_max-IsValid,
}
use urt.Registry.Refine.{find_by_name-inc_at, find_by_name-detach_at, find_by_name-lower_max}
use urt.Registry.Operations.{after_detach, dec_count_common_lem}

-- The slot of a name that was found is inside the array, and taken.
pub found_slot :
    (m : Internal) (name : List ℕ) (i : ℕ)
    → IsValid m
    → find_by_name m name ≡ some i
    → (i < length m.objects) × Taken m i × (name_eq (object_at m i).name name ≡ true)
found_slot m name i v h = (
  omega (arith, v.in_bounds, find_by_name_le_max m name i h),
  (find_by_name-Hit m name i h).0,
  (find_by_name-Hit m name i h).1,
)

-- The registry with one more user of slot `i`: names are found where they were.
pub record Attached (i : ℕ) (w w' : World) : Type 0 where
  pub valid : IsValid w'.mem
  pub sem_back : w'.sem ≡ w.sem
  pub quiet : w'.calls ≡ w.calls
  pub lookup : (name : List ℕ) → find_by_name w'.mem name ≡ find_by_name w.mem name
  pub one_more : (object_at w'.mem i).count ≡ (object_at w.mem i).count + 1
  pub same_kind : (object_at w'.mem i).kind ≡ (object_at w.mem i).kind
  pub same_size : (object_at w'.mem i).size ≡ (object_at w.mem i).size
  pub not_reserved : (object_at w'.mem i).reserved ≡ false
  pub same_name : (object_at w'.mem i).name ≡ (object_at w.mem i).name
  pub same_length : length w'.mem.objects ≡ length w.mem.objects
  pub others : (j : ℕ) → (i == j) ≡ false → object_at w'.mem j ≡ object_at w.mem j

inc_at-Attached :
    (i : ℕ) (w : World)
    → IsValid w.mem
    → i < length w.mem.objects
    → Taken w.mem i
    → (object_at w.mem i).count + 1 < 2 ^ 32
    → Attached i w (record w { mem = inc_at w.mem i })
inc_at-Attached i w v lt u small = record {
  valid = inc_at-IsValid w.mem i lt v u small;
  sem_back = refl;
  quiet = refl;
  lookup = λ name. find_by_name-inc_at w.mem i lt v u name small;
  one_more = ground (arith, object_at-inc_at w.mem i lt i);
  same_kind = ground (arith, object_at-inc_at w.mem i lt i);
  same_size = ground (arith, object_at-inc_at w.mem i lt i);
  not_reserved = ground (arith, object_at-inc_at w.mem i lt i);
  same_name = ground (arith, object_at-inc_at w.mem i lt i);
  same_length = length-set w.mem.objects i (attached (object_at w.mem i));
  others = λ j ne. ground (arith, object_at-inc_at w.mem i lt j);
}

-- On a valid registry whose semaphore is open, `urt_inc_name_count` on a taken slot adds one user to
-- it, unless the 32-bit counter is full.
pub inc_name_count-Attached :
    (i : ℕ) (w : World)
    → 0 < w.sem
    → IsValid w.mem
    → i < length w.mem.objects
    → Taken w.mem i
    → (object_at w.mem i).count + 1 < 2 ^ 32
    → (w' : World) × (inc_name_count i w ≡ some (tt, w')) × Attached i w w'
unfolding inc_name_count
inc_name_count-Attached i w h v lt u small = (
  record w { mem = inc_at w.mem i },
  ground (arith, global_sem_wait_pos w h, global_sem_post_after w (inc_at w.mem i) h),
  inc_at-Attached i w v lt u small,
)

-- On a valid registry whose semaphore is open, and unless the name's 32-bit counter is full,
-- `urt_get_object_by_name_and_inc_count` returns NULL and changes nothing if the name is not there;
-- otherwise it returns the name's slot with one more user.
pub get_object_by_name_and_inc_count-cases :
    (name : List ℕ) (w : World)
    → 0 < w.sem
    → IsValid w.mem
    → ((i : ℕ) → find_by_name w.mem name ≡ some i → (object_at w.mem i).count + 1 < 2 ^ 32)
    → ((find_by_name w.mem name ≡ none)
        × (get_object_by_name_and_inc_count name w ≡ some (none, w)))
      ⊎ ((i : ℕ) × (w' : World) × (find_by_name w.mem name ≡ some i)
          × (get_object_by_name_and_inc_count name w ≡ some (some i, w'))
          × Attached i w w')
unfolding get_object_by_name_and_inc_count
get_object_by_name_and_inc_count-cases name w h v small =
    elim (Option-cases (find_by_name w.mem name)) [
      | inl miss ↦
          inl (miss, ground (arith, global_sem_wait_pos w h, global_sem_post_after w w.mem h))
      | inr (i, hit) ↦ inr (
        i,
        record w { mem = inc_at w.mem i },
        hit,
        ground (arith, global_sem_wait_pos w h, global_sem_post_after w (inc_at w.mem i) h),
        inc_at-Attached i w v (found_slot w.mem name i v hit).0 (found_slot w.mem name i v hit).1
            (small i hit),
      )
    ]

-- The case of a name that is found.
pub get_object_by_name_and_inc_count-Attached :
    (name : List ℕ) (i : ℕ) (w : World)
    → 0 < w.sem
    → IsValid w.mem
    → find_by_name w.mem name ≡ some i
    → (object_at w.mem i).count + 1 < 2 ^ 32
    → (w1 : World) × (get_object_by_name_and_inc_count name w ≡ some (some i, w1)) × Attached i w w1
get_object_by_name_and_inc_count-Attached name i w h v hit small =
    from (get_object_by_name_and_inc_count-cases name w h v (λ j g. ground (arith, g, hit)))
  where
    from :
        ((find_by_name w.mem name ≡ none)
            × (get_object_by_name_and_inc_count name w ≡ some (none, w)))
          ⊎ ((j : ℕ) × (w' : World) × (find_by_name w.mem name ≡ some j)
              × (get_object_by_name_and_inc_count name w ≡ some (some j, w'))
              × Attached j w w')
        → (w1 : World) × (get_object_by_name_and_inc_count name w ≡ some (some i, w1))
          × Attached i w w1
    from (inl (miss, g)) = absurd (cc)
    from (inr (j, w', g, e, d)) = let ej : i ≡ j = cc in (w', rw ej e, rw ej d)

-- The registry with one user less of slot `i`. A slot without further users is free: its name, and
-- no other, is gone.
pub record Detached (i : ℕ) (m m' : Internal) : Type 0 where
  pub valid : IsValid m'
  pub lookup :
      (name : List ℕ)
      → find_by_name m' name ≡ (
          if leb (object_at m i).count 1 && name_eq (object_at m i).name name
          then none
          else find_by_name m name)
  pub same_name : (object_at m' i).name ≡ (object_at m i).name
  pub same_kind : (object_at m' i).kind ≡ (object_at m i).kind
  pub same_size : (object_at m' i).size ≡ (object_at m i).size
  pub one_less : (object_at m' i).count ≡ (object_at m i).count - 1
  pub not_reserved : (object_at m' i).reserved ≡ false
  pub same_length : length m'.objects ≡ length m.objects
  pub others : (j : ℕ) → (i == j) ≡ false → object_at m' j ≡ object_at m j

pub length-after_detach :
    (m : Internal) (i : ℕ) → length (after_detach m i).objects ≡ length m.objects
unfolding after_detach
length-after_detach m i = ground (arith, length-set m.objects i (detached (object_at m i)))

pub after_detach-Detached :
    (m : Internal) (i : ℕ)
    → IsValid m
    → i < length m.objects
    → Taken m i
    → Detached i m (after_detach m i)
unfolding after_detach
after_detach-Detached m i v lt u = record {
  valid = ground (arith, detach_at-IsValid m i lt v u, lower_max-IsValid m i lt v);
  lookup = λ name.
      ground
        (arith, find_by_name-detach_at m i lt v u name, find_by_name-lower_max m i lt v u name);
  same_name = ground (arith, object_at-detach_at m i lt i);
  same_kind = ground (arith, object_at-detach_at m i lt i);
  same_size = ground (arith, object_at-detach_at m i lt i);
  one_less = ground (arith, object_at-detach_at m i lt i);
  not_reserved = ground (arith, object_at-detach_at m i lt i);
  same_length = length-after_detach m i;
  others = λ j ne. ground (arith, object_at-detach_at m i lt j);
}

-- On a valid registry whose semaphore is open, `urt_dec_name_count` on a taken slot takes one user off
-- it, makes the callback's calls, given the object as it then is, gives the
-- semaphore back, and reports no internal error.
pub dec_name_count-Detached :
    (release : Release) (i : ℕ) (w : World)
    → 0 < w.sem
    → IsValid w.mem
    → i < length w.mem.objects
    → Taken w.mem i
    → (w' : World) × (dec_name_count release i w ≡ some (tt, w'))
      × (w'.sem ≡ w.sem)
      × (w'.calls ≡ released release (detached (object_at w.mem i)) ++ w.calls)
      × Detached i w.mem w'.mem
unfolding dec_name_count
dec_name_count-Detached release i w h v lt u = (
  record w {
    mem = after_detach w.mem i;
    calls = released release (detached (object_at w.mem i)) ++ w.calls;
  },
  ground (
    arith,
    global_sem_wait_pos w h,
    dec_count_common_lem release i (record w { sem = w.sem - 1 }) lt v,
    global_sem_post_calls w (after_detach w.mem i)
        (released release (detached (object_at w.mem i)) ++ w.calls) h,
  ),
  refl,
  refl,
  after_detach-Detached w.mem i v lt u,
)
