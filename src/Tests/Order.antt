-- ===== src/Tests/Order.antt =====
-- Instances for the order of attachments.
use urt.Base.{
  List, ◌+◌, ℕ, suc, ◌<◌, ◌≢◌, subst, sym, false, ◌≡◌, refl, ◌⊎◌, inl, inr, some, [], ◌∷◌, arith,
}
use urt.Name.{name_eq}
use urt.Name.Laws.{c_str}
use urt.Global.{Object, Internal, World, object_at}
use urt.Registry.{is_used, find_by_name}
use urt.Registry.Invariant.{IsValid, Taken, key}
use urt.Registry.Order.{attach_both, same, attach_comm}
use urt.Tests.Registry.{object_a, two_slots, start, name_b}
use urt.Tests.Shared.{name_a}

abbrev object_b : Object
object_b = record object_a { name = b'B' ∷ 0 ∷ 0 ∷ 0 ∷ 0 ∷ 0 ∷ 0 ∷ []; count = 1 }

abbrev two_names : Internal
two_names = record two_slots { objects = object_a ∷ object_b ∷ []; objects_max_index = 1 }

one_of_two : (j : ℕ) → Taken two_names j → (j ≡ 0) ⊎ (j ≡ 1)
unfolding is_used
one_of_two ℕ.zero h = inl refl
one_of_two (suc ℕ.zero) h = inr refl
one_of_two (suc (suc j)) h = ground arith

free : (j : ℕ) → 1 < j → is_used (object_at two_names j) ≡ false
unfolding is_used
free ℕ.zero h = absurd (omega arith)
free (suc ℕ.zero) h = absurd (omega arith)
free (suc (suc j)) h = refl

apart : key two_names 0 ≢ key two_names 1
unfolding c_str
apart e = ground arith

two_names-IsValid : IsValid two_names
unfolding is_used
two_names-IsValid = record {
  in_bounds = omega arith;
  covered = free;
  tight = inr refl;
  unique = λ i j hi hj e. elim (one_of_two i hi) [
    | inl a ↦ elim (one_of_two j hj) [
      | inl b ↦ omega arith
      | inr b ↦ absurd (
          apart (
            subst (λ x. key two_names 0 ≡ key two_names x) b
              (subst (λ x. key two_names x ≡ key two_names j) a e)))
    ]
    | inr a ↦ elim (one_of_two j hj) [
      | inl b ↦ absurd (
          apart (
            sym (
              subst (λ x. key two_names 1 ≡ key two_names x) b
                (subst (λ x. key two_names x ≡ key two_names j) a e))))
      | inr b ↦ omega arith
    ]
  ];
}

found_a : find_by_name two_names name_a ≡ some 0
unfolding find_by_name name_eq is_used
found_a = refl

found_b : find_by_name two_names name_b ≡ some 1
unfolding find_by_name name_eq is_used
found_b = refl

abbrev world : World
world = record start { mem = two_names }

attach_comm_example :
    (w2 : World) × (attach_both name_a name_b world ≡ some ((some 0, some 1), w2))
    × (attach_both name_b name_a world ≡ some ((some 1, some 0), w2))
    × (w2.sem ≡ 1)
    × ((k : ℕ) → (object_at w2.mem k).count ≡ (object_at two_names k).count + same 0 k + same 1 k)
    × ((name : List ℕ) → find_by_name w2.mem name ≡ find_by_name two_names name)
attach_comm_example =
    attach_comm name_a name_b 0 1 world (omega arith) two_names-IsValid found_a found_b
      (omega arith) (omega arith)
