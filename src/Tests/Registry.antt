-- ===== src/Tests/Registry.antt =====
-- Runs and instances for src/registry.c.
use urt.Base.{
  ℕ, suc, ◌+◌, ◌<◌, ◌≡◌, refl, ◌⊎◌, inl, true, false, none, some, List, [], ◌∷◌, ◌++◌, ◌^◌, arith,
}
use urt.Name.{name_eq, name_cpy}
use urt.Global.{
  Object, Internal, World, SysCall, ok, err, eexist, blank, object_at, global_sem_wait,
  global_sem_post,
}
use urt.Registry.{
  is_used, free_index, find_by_name, reserve_name, reserved_object, dec_name_count,
  force_clear_name, reserve_at,
}
use urt.Registry.Invariant.{IsValid, Taken}
use urt.Registry.Operations.{Reserved, reserve_name-ok}
use urt.Registry.Attach.{Detached, dec_name_count-Detached}
use urt.Registry.Clear.{Cleared, Unlinked, force_clear_name_lem}

abbrev pub object_a : Object
object_a = record {
  name = b'A' ∷ 0 ∷ 0 ∷ 0 ∷ 0 ∷ 0 ∷ 0 ∷ [];
  reserved = false;
  has_bookkeeping = true;
  kind = 1;
  count = 2;
  size = 24;
}

abbrev pub two_slots : Internal
two_slots = record {
  sizeof_urt_internal = 100;
  sizeof_urt_registered_object = 24;
  objects = object_a ∷ blank ∷ [];
  objects_max_index = 0;
  next_free_name = b'_' ∷ b'_' ∷ b'_' ∷ b'_' ∷ b'_' ∷ b'$' ∷ 0 ∷ [];
  names_exhausted = false;
  initialized = true;
}

abbrev pub start : World
start = record { sem = 1; mem = two_slots; calls = [] }

abbrev pub name_b : List ℕ
name_b = b'B' ∷ []

only_a : (j : ℕ) → Taken two_slots j → j ≡ 0
unfolding is_used
only_a ℕ.zero h = refl
only_a (suc ℕ.zero) h = ground arith
only_a (suc (suc j)) h = ground arith

pub two_slots-IsValid : IsValid two_slots
unfolding is_used
two_slots-IsValid = record {
  in_bounds = omega arith;
  covered = λ j h. free j h;
  tight = inl refl;
  unique = λ i j hi hj e. omega (arith, only_a i hi, only_a j hj);
}
  where
    free : (j : ℕ) → 0 < j → is_used (object_at two_slots j) ≡ false
    free ℕ.zero h = absurd (omega arith)
    free (suc ℕ.zero) h = refl
    free (suc (suc j)) h = refl

abbrev pub with_b : World
with_b = record start {
  mem = record two_slots {
    objects = object_a ∷ reserved_object name_b ∷ [];
    objects_max_index = 1;
  };
}

pub reserve_b : reserve_name name_b start ≡ some (ok 1, with_b)
unfolding reserve_name global_sem_wait global_sem_post find_by_name free_index reserve_at name_eq
    name_cpy is_used
reserve_b = refl

reserve_a : reserve_name (b'A' ∷ []) start ≡ some (err eexist, start)
unfolding reserve_name global_sem_wait global_sem_post find_by_name name_eq is_used
reserve_a = refl

clear_a : find_by_name two_slots (b'A' ∷ []) ≡ some 0
unfolding find_by_name name_eq is_used
clear_a = refl

reserve_name-ok_example : Reserved name_b start 1 with_b
reserve_name-ok_example =
    reserve_name-ok name_b start 1 with_b (omega arith) two_slots-IsValid reserve_b

pub Taken-slot_a : Taken two_slots 0
unfolding is_used
Taken-slot_a = refl

small_a :
    (i : ℕ)
    → find_by_name two_slots (b'A' ∷ []) ≡ some i
    → (object_at two_slots i).count + 1 < 2 ^ 32
small_a i h = let e : i ≡ 0 = cc clear_a in rw e (omega arith)

dec_name_count-Detached_example :
    (w' : World) × (dec_name_count none 0 start ≡ some (tt, w'))
    × (w'.sem ≡ 1)
    × (w'.calls ≡ [])
    × Detached 0 two_slots w'.mem
dec_name_count-Detached_example =
    dec_name_count-Detached none 0 start (omega arith) two_slots-IsValid (omega arith) Taken-slot_a

force_clear_name_example :
    ((find_by_name two_slots (b'A' ∷ []) ≡ none)
      × (force_clear_name (b'A' ∷ []) start ≡ some (tt, start)))
    ⊎ ((i : ℕ) × (m' : Internal) × (cs : List SysCall) × (find_by_name two_slots (b'A' ∷ [])
          ≡ some i)
        × (force_clear_name (b'A' ∷ []) start
            ≡ some (tt, record start { mem = m'; calls = cs ++ [] }))
        × Unlinked (object_at two_slots i) cs
        × (find_by_name m' (b'A' ∷ []) ≡ none)
        × Cleared i two_slots m')
force_clear_name_example = force_clear_name_lem (b'A' ∷ []) start (omega arith) two_slots-IsValid
