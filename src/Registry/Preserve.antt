-- ===== src/Registry/Preserve.antt =====
-- The changes that src/registry.c makes to the registry keep its invariant.
use urt.Base.{
  ℕ, ◌+◌, ◌^◌, ◌<◌, ◌≡◌, refl, ◌≢◌, inl, inr, false, ◌||◌, ◌==◌, ==_iff, if◌then◌else◌, none, List,
  arith, length, length-set, get_or-set, Bool-cases, ltb,
}
use urt.Name.{name_len}
use urt.Name.Laws.{c_str, name_cpy_lem}
use urt.Global.{blank, blank_name, Internal, object_at}
use urt.Registry.{
  detach_at, lower_max, is_used, find_by_name, free_index, reserve_at, reserved_object, attached,
  inc_at, detached, lower,
}
use urt.Registry.Find.{free_from_lem, free_from_full, lower_le, lower_tight, lower_above}
use urt.Registry.Invariant.{IsValid, Taken, key, find_by_name_miss}

pub free_index_lem :
    (m : Internal)
    → free_index m ≢ length m.objects
    → (free_index m < length m.objects) × (is_used (object_at m (free_index m)) ≡ false)
unfolding free_index
free_index_lem m h = ground (arith, free_from_lem (length m.objects) 0 m.objects)

pub free_index_full :
    (m : Internal) (j : ℕ) → free_index m ≡ length m.objects → j < length m.objects → Taken m j
unfolding free_index
free_index_full m j h lt =
    free_from_full (length m.objects) 0 m.objects j (omega arith) (omega arith) (omega arith)

pub reserved-key :
    (name : List ℕ) → c_str name_len (reserved_object name).name ≡ c_str name_len name
reserved-key name = (name_cpy_lem blank_name name (omega arith)).0

module _ (m : Internal) (i : ℕ) (name : List ℕ) (lt : i < length m.objects) where
  pub object_at-reserve_at :
      (j : ℕ)
      → object_at (reserve_at m i name) j ≡ (if i == j then reserved_object name else object_at m j)
  unfolding reserve_at
  object_at-reserve_at j = get_or-set m.objects i j (reserved_object name) blank lt

  pub key-reserve_at :
      (j : ℕ) → key (reserve_at m i name) j ≡ (if i == j then c_str name_len name else key m j)
  key-reserve_at j = ground (arith, object_at-reserve_at j, reserved-key name)

  pub taken-reserve_at :
      (j : ℕ) → is_used (object_at (reserve_at m i name) j) ≡ (i == j || is_used (object_at m j))
  unfolding is_used
  taken-reserve_at j = ground (arith, object_at-reserve_at j)

  max-reserve_at :
      (reserve_at m i name).objects_max_index
      ≡ (if ltb m.objects_max_index i then i else m.objects_max_index)
  unfolding reserve_at
  max-reserve_at = refl

  pub length-reserve_at : length (reserve_at m i name).objects ≡ length m.objects
  unfolding reserve_at
  length-reserve_at = length-set m.objects i (reserved_object name)

  pub reserve_at-IsValid : IsValid m → find_by_name m name ≡ none → IsValid (reserve_at m i name)
  reserve_at-IsValid v miss = record {
    in_bounds = ground (arith, max-reserve_at, length-reserve_at);
    covered = λ j h. ground (arith, max-reserve_at, taken-reserve_at j, v.covered j);
    tight =
        ground (arith, max-reserve_at, taken-reserve_at (reserve_at m i name).objects_max_index);
    unique = λ a b ta tb e. ground (
      arith,
      taken-reserve_at a,
      taken-reserve_at b,
      key-reserve_at a,
      key-reserve_at b,
      v.unique a b,
      find_by_name_miss m name v miss a,
      find_by_name_miss m name v miss b,
    );
  }

module _ (m : Internal) (i : ℕ) (lt : i < length m.objects) where
  pub object_at-inc_at :
      (j : ℕ)
      → object_at (inc_at m i) j ≡ (if i == j then attached (object_at m i) else object_at m j)
  object_at-inc_at j = get_or-set m.objects i j (attached (object_at m i)) blank lt

  pub key-inc_at : (j : ℕ) → key (inc_at m i) j ≡ key m j
  key-inc_at j = ground (arith, object_at-inc_at j)

  -- While the counter does not wrap, attaching takes the slot.
  pub taken-inc_at :
      (object_at m i).count + 1 < 2 ^ 32
      → (j : ℕ) → is_used (object_at (inc_at m i) j) ≡ (i == j || is_used (object_at m j))
  unfolding is_used
  taken-inc_at small j = ground (arith, object_at-inc_at j)

  pub inc_at-IsValid :
      IsValid m → Taken m i → (object_at m i).count + 1 < 2 ^ 32 → IsValid (inc_at m i)
  inc_at-IsValid v u small = record {
    in_bounds = omega (arith, v.in_bounds, length-set m.objects i (attached (object_at m i)));
    covered = λ j h. ground (arith, taken-inc_at small j, v.covered j);
    tight = ground (arith, taken-inc_at small m.objects_max_index, v.tight);
    unique = λ a b ta tb e. ground (
      arith,
      taken-inc_at small a,
      taken-inc_at small b,
      key-inc_at a,
      key-inc_at b,
      v.unique a b,
    );
  }

module _ (m : Internal) (i : ℕ) (lt : i < length m.objects) where
  pub object_at-detach_at :
      (j : ℕ)
      → object_at (detach_at m i) j ≡ (if i == j then detached (object_at m i) else object_at m j)
  object_at-detach_at j = get_or-set m.objects i j (detached (object_at m i)) blank lt

  pub key-detach_at : (j : ℕ) → key (detach_at m i) j ≡ key m j
  key-detach_at j = ground (arith, object_at-detach_at j)

  -- The slot stays taken exactly while its count was above one.
  pub taken-detach_at :
      (j : ℕ)
      → is_used (object_at (detach_at m i) j)
        ≡ (if i == j then ltb 1 (object_at m i).count else is_used (object_at m j))
  unfolding is_used
  taken-detach_at j = ground (arith, object_at-detach_at j)

  -- With users left, nothing else has to change.
  pub detach_at-IsValid :
      IsValid m → Taken m i → 1 < (object_at m i).count → IsValid (detach_at m i)
  detach_at-IsValid v u many = record {
    in_bounds = omega (arith, v.in_bounds, length-set m.objects i (detached (object_at m i)));
    covered = λ j h. ground (arith, taken-detach_at j, v.covered j);
    tight = ground (arith, taken-detach_at m.objects_max_index, v.tight);
    unique = λ a b ta tb e. ground (
      arith,
      taken-detach_at a,
      taken-detach_at b,
      key-detach_at a,
      key-detach_at b,
      v.unique a b,
    );
  }

  Taken-of_detach_at : (j : ℕ) → Taken (detach_at m i) j → Taken m j
  unfolding is_used
  Taken-of_detach_at j h = ground (arith, object_at-detach_at j)

  was_free :
      (j : ℕ) → is_used (object_at m j) ≡ false → is_used (object_at (detach_at m i) j) ≡ false
  unfolding is_used
  was_free j h = ground (arith, object_at-detach_at j)

  detach_at_unique :
      IsValid m
      → (a b : ℕ) → Taken (detach_at m i) a
      → Taken (detach_at m i) b
      → key (detach_at m i) a ≡ key (detach_at m i) b
      → a ≡ b
  detach_at_unique v a b ta tb e =
      v.unique a b (Taken-of_detach_at a ta) (Taken-of_detach_at b tb)
        (ground (arith, key-detach_at a, key-detach_at b))

  lowered_covered :
      IsValid m
      → i ≡ m.objects_max_index
      → (j : ℕ) → lower (detach_at m i).objects i < j
      → is_used (object_at (detach_at m i) j) ≡ false
  lowered_covered v e j h =
      ground (arith, lower_above (detach_at m i).objects i j, was_free j, v.covered j)

  -- The max index is lowered if it was this slot's.
  pub lower_max-IsValid : IsValid m → IsValid (lower_max (detach_at m i) i)
  lower_max-IsValid v = elim (Bool-cases (i == m.objects_max_index)) [
    | inl top ↦ rw top (record {
      in_bounds = omega (
        arith,
        lt,
        lower_le (detach_at m i).objects i,
        length-set m.objects i (detached (object_at m i)),
      );
      covered = lowered_covered v ((==_iff _ _).0 top);
      tight = lower_tight (detach_at m i).objects i;
      unique = detach_at_unique v;
    })
    | inr other ↦ rw other (record {
      in_bounds = omega (arith, v.in_bounds, length-set m.objects i (detached (object_at m i)));
      covered = λ j h. was_free j (v.covered j h);
      tight = ground (arith, taken-detach_at m.objects_max_index, v.tight);
      unique = detach_at_unique v;
    })
  ]
