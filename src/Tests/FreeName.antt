-- ===== src/Tests/FreeName.antt =====
-- Instances for the free names of src/registry.c.
use urt.Base.{ℕ, ◌≡◌, refl, true, false, none, some, List, [], arith, replicate}
use urt.Name.{name_eq}
use urt.Global.{World}
use urt.Registry.Invariant.{IsValid}
use urt.FreeName.{get_free_name}
use urt.FreeName.Digits.{name_of}
use urt.FreeName.Fresh.{nth_free_name, free_names_distinct}
use urt.FreeName.Exhausted.{Unused, get_free_name-exhausted}
use urt.Tests.Registry.{two_slots, two_slots-IsValid}

abbrev buffer : List ℕ
buffer = replicate 7 0

abbrev counting : World
counting = record { sem = 1; mem = record two_slots { next_free_name = name_of 35 }; calls = [] }

abbrev gone_round : World
gone_round = record {
  sem = 1;
  mem = record two_slots { next_free_name = name_of 35; names_exhausted = true };
  calls = [];
}

gone_round-IsValid : IsValid gone_round.mem
gone_round-IsValid = record {
  in_bounds = two_slots-IsValid.in_bounds;
  covered = two_slots-IsValid.covered;
  tight = two_slots-IsValid.tight;
  unique = two_slots-IsValid.unique;
}

free_names_distinct_example :
    (s : List ℕ) × (t : List ℕ) × (v : World) × (u : World) × (nth_free_name 1 buffer counting
      ≡ some ((none, s), v))
    × (nth_free_name 4 buffer counting ≡ some ((none, t), u))
    × (name_eq s t ≡ false)
free_names_distinct_example =
    free_names_distinct 1 4 buffer counting 35 (omega arith) refl refl (omega arith) (omega arith)
      (λ e. absurd (omega (arith, e))) (omega arith)

get_free_name-exhausted_example :
    (s : List ℕ) × (w' : World) × (get_free_name buffer gone_round ≡ some ((none, s), w'))
    × Unused gone_round s w'
get_free_name-exhausted_example =
    get_free_name-exhausted buffer gone_round 35 (omega arith) gone_round-IsValid refl refl
      (omega arith) (omega arith) (omega arith)
