-- ===== src/Registry/Relabel.antt =====
-- Changes of a registered object that leave its name and its users alone.
use urt.Base.{ℕ, ◌<◌, ◌≡◌, ◌∙◌, ◌==◌, if◌then◌else◌, arith, length, set, get_or-set, length-set}
use urt.Global.{Object, Internal, object_at, blank}
use urt.Registry.{is_used}
use urt.Registry.Invariant.{IsValid, key}

abbrev pub relabelled : Internal → ℕ → Object → Internal
relabelled m i o = record m { objects = set m.objects i o }

module _ (m : Internal) (i : ℕ) (o : Object) (lt : i < length m.objects)
    (same_name : o.name ≡ (object_at m i).name)
    (same_use : is_used o ≡ is_used (object_at m i)) where
  pub object_at-relabelled :
      (j : ℕ) → object_at (relabelled m i o) j ≡ (if i == j then o else object_at m j)
  object_at-relabelled j = get_or-set m.objects i j o blank lt

  pub key-relabelled : (j : ℕ) → key (relabelled m i o) j ≡ key m j
  key-relabelled j = ground (arith, object_at-relabelled j)

  pub taken-relabelled :
      (j : ℕ) → is_used (object_at (relabelled m i o) j) ≡ is_used (object_at m j)
  taken-relabelled j = ground (arith, object_at-relabelled j)

  pub relabelled-IsValid : IsValid m → IsValid (relabelled m i o)
  relabelled-IsValid v = record {
    in_bounds = omega (arith, v.in_bounds, length-set m.objects i o);
    covered = λ j h. taken-relabelled j ∙ v.covered j h;
    tight = ground (arith, v.tight, taken-relabelled m.objects_max_index);
    unique = λ x y tx ty e. ground (
      arith,
      taken-relabelled x,
      taken-relabelled y,
      key-relabelled x,
      key-relabelled y,
      v.unique x y,
    );
  }
