-- ===== src/Registry/Refine.antt =====
-- The registry of src/registry.c as a finite map from names to slots: what each change does to the
-- lookup of every name.
use urt.Base.{
  ℕ, ◌+◌, ◌^◌, ◌<◌, ◌≤◌, ◌≡◌, sym, ap, ◌∙◌, ◌≢◌, inl, inr, false, ◌==◌, if◌then◌else◌, none, some,
  List, arith, length, Bool-cases, Option-cases,
}
use urt.Name.{name_len, name_eq}
use urt.Name.Laws.{c_str, name_eq_iff}
use urt.Global.{Internal, object_at}
use urt.Registry.{detach_at, lower_max, is_used, find_by_name, reserve_at, inc_at}
use urt.Registry.Invariant.{
  IsValid, Taken, key, find_by_name-Hit, find_by_name_miss, find_by_name_of_key,
  find_by_name_of_no_key,
}
use urt.Registry.Preserve.{
  key-reserve_at, taken-reserve_at, reserve_at-IsValid, key-inc_at, taken-inc_at, inc_at-IsValid,
  key-detach_at, taken-detach_at, detach_at-IsValid, lower_max-IsValid,
}

key_of_hit :
    (m : Internal) (name : List ℕ) (i : ℕ)
    → find_by_name m name ≡ some i
    → Taken m i × (key m i ≡ c_str name_len name)
key_of_hit m name i h =
    ((find_by_name-Hit m name i h).0, (name_eq_iff _ name).0 (find_by_name-Hit m name i h).1)

-- Two registries that hold the same names in the same slots answer alike.
pub find_by_name_same :
    (m m' : Internal) (name : List ℕ)
    → IsValid m
    → IsValid m'
    → ((j : ℕ) → key m' j ≡ key m j)
    → ((j : ℕ) → is_used (object_at m' j) ≡ is_used (object_at m j))
    → find_by_name m' name ≡ find_by_name m name
find_by_name_same m m' name v v' k t = elim (Option-cases (find_by_name m name)) [
  | inl miss ↦
      find_by_name_of_no_key m' name
        (λ j u e. find_by_name_miss m name v miss j (sym (t j) ∙ u) (sym e ∙ k j))
      ∙ sym miss
  | inr (i, hit) ↦
      find_by_name_of_key m' name i v' (t i ∙ (key_of_hit m name i hit).0)
        (k i ∙ (key_of_hit m name i hit).1)
      ∙ sym hit
]

module _ (m : Internal) (i : ℕ) (name : List ℕ) (lt : i < length m.objects) (v : IsValid m) where
  kept_elsewhere :
      (other : List ℕ) (j : ℕ)
      → is_used (object_at m i) ≡ false
      → find_by_name m name ≡ none
      → find_by_name m other ≡ some j
      → find_by_name (reserve_at m i name) other ≡ some j
  kept_elsewhere other j free miss hit =
      find_by_name_of_key (reserve_at m i name) other j (reserve_at-IsValid m i name lt v miss)
        (ground (arith, taken-reserve_at m i name lt j, key_of_hit m other j hit))
        (ground (arith, key-reserve_at m i name lt j, key_of_hit m other j hit))

  absent_elsewhere :
      (other : List ℕ)
      → name_eq name other ≡ false
      → find_by_name m other ≡ none
      → find_by_name (reserve_at m i name) other ≡ none
  absent_elsewhere other ne miss = find_by_name_of_no_key (reserve_at m i name) other λ j u e.
      ground (
        arith,
        taken-reserve_at m i name lt j,
        key-reserve_at m i name lt j,
        find_by_name_miss m other v miss j,
        name_eq_iff name other,
      )

  -- A reserved name is found in its slot, and every other name as before.
  pub find_by_name-reserve_at :
      (other : List ℕ)
      → is_used (object_at m i) ≡ false
      → find_by_name m name ≡ none
      → find_by_name (reserve_at m i name) other
        ≡ (if name_eq name other then some i else find_by_name m other)
  find_by_name-reserve_at other free miss = elim (Bool-cases (name_eq name other)) [
    | inl same ↦ rw same (
        find_by_name_of_key (reserve_at m i name) other i (reserve_at-IsValid m i name lt v miss)
          (ground (arith, taken-reserve_at m i name lt i))
          (ground (arith, key-reserve_at m i name lt i, name_eq_iff name other)))
    | inr ne ↦ rw ne (elim (Option-cases (find_by_name m other)) [
      | inl gone ↦ absent_elsewhere other ne gone ∙ sym gone
      | inr (j, hit) ↦ kept_elsewhere other j free miss hit ∙ sym hit
    ])
  ]

module _ (m : Internal) (i : ℕ) (lt : i < length m.objects) (v : IsValid m) (u : Taken m i) where
  -- Attaching does not change where a name is found.
  pub find_by_name-inc_at :
      (name : List ℕ)
      → (object_at m i).count + 1 < 2 ^ 32
      → find_by_name (inc_at m i) name ≡ find_by_name m name
  find_by_name-inc_at name small =
      find_by_name_same m (inc_at m i) name v (inc_at-IsValid m i lt v u small) (key-inc_at m i lt)
        (λ j. ground (arith, taken-inc_at m i lt small j))

  -- Nor does detaching while others are attached.
  pub find_by_name-detach_at :
      (name : List ℕ)
      → 1 < (object_at m i).count
      → find_by_name (detach_at m i) name ≡ find_by_name m name
  find_by_name-detach_at name many =
      find_by_name_same m (detach_at m i) name v (detach_at-IsValid m i lt v u many)
        (key-detach_at m i lt) (λ j. ground (arith, taken-detach_at m i lt j))

  objects-lower_max :
      (j : ℕ) → object_at (lower_max (detach_at m i) i) j ≡ object_at (detach_at m i) j
  objects-lower_max j = ground arith

  key-lower_max : (j : ℕ) → key (lower_max (detach_at m i) i) j ≡ key m j
  key-lower_max j = ap (λ o. c_str name_len o.name) (objects-lower_max j) ∙ key-detach_at m i lt j

  taken-lower_max :
      (j : ℕ)
      → (object_at m i).count ≤ 1
      → is_used (object_at (lower_max (detach_at m i) i) j)
        ≡ (if i == j then false else is_used (object_at m j))
  taken-lower_max j few =
      ap is_used (objects-lower_max j) ∙ ground (arith, taken-detach_at m i lt j)

  freed :
      (name : List ℕ)
      → (object_at m i).count ≤ 1
      → key m i ≡ c_str name_len name
      → find_by_name (lower_max (detach_at m i) i) name ≡ none
  freed name few e =
      find_by_name_of_no_key (lower_max (detach_at m i) i) name
        λ j t k. ground (arith, taken-lower_max j few, v.unique i j, key-lower_max j)

  kept :
      (name : List ℕ) (j : ℕ)
      → (object_at m i).count ≤ 1
      → key m i ≢ c_str name_len name
      → find_by_name m name ≡ some j
      → find_by_name (lower_max (detach_at m i) i) name ≡ some j
  kept name j few ne hit =
      find_by_name_of_key (lower_max (detach_at m i) i) name j (lower_max-IsValid m i lt v)
        (ground (arith, taken-lower_max j few, key_of_hit m name j hit))
        (key-lower_max j ∙ (key_of_hit m name j hit).1)

  absent :
      (name : List ℕ)
      → (object_at m i).count ≤ 1
      → find_by_name m name ≡ none
      → find_by_name (lower_max (detach_at m i) i) name ≡ none
  absent name few miss = find_by_name_of_no_key (lower_max (detach_at m i) i) name λ j t k.
      ground (arith, taken-lower_max j few, find_by_name_miss m name v miss j, key-lower_max j)

  -- The last to detach frees the name, and no other.
  pub find_by_name-lower_max :
      (name : List ℕ)
      → (object_at m i).count ≤ 1
      → find_by_name (lower_max (detach_at m i) i) name
        ≡ (if name_eq (object_at m i).name name then none else find_by_name m name)
  find_by_name-lower_max name few = elim (Bool-cases (name_eq (object_at m i).name name)) [
    | inl same ↦ rw same (freed name few ((name_eq_iff _ name).0 same))
    | inr ne ↦ rw ne (elim (Option-cases (find_by_name m name)) [
      | inl miss ↦ absent name few miss ∙ sym miss
      | inr (j, hit) ↦
          kept name j few (ground (arith, name_eq_iff (object_at m i).name name)) hit ∙ sym hit
    ])
  ]
