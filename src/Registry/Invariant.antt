-- ===== src/Registry/Invariant.antt =====
-- The registry's invariant, and the searches of src/registry.c under it.
use urt.Base.{
  ℕ, ◌+◌, ◌<◌, ◌≤◌, ◌≡◌, sym, ap, ◌∙◌, ◌≢◌, ◌⊎◌, inl, inr, true, false, none, some, List, arith,
  Option-cases, length,
}
use urt.Name.{name_len}
use urt.Name.Laws.{c_str, name_eq_iff}
use urt.Global.{Internal, object_at}
use urt.Registry.{is_used, find_by_name}
use urt.Registry.Find.{Hit, find_from-Hit, find_from_miss}

abbrev pub Taken : Internal → ℕ → Type 0
Taken m i = is_used (object_at m i) ≡ true

-- The name of an object, as the C string that it stands for.
abbrev pub key : Internal → ℕ → List ℕ
key m i = c_str name_len (object_at m i).name

-- The max index is a slot; no slot above it is taken; it is taken itself, or zero; and no two taken
-- slots have one name.
pub record IsValid (m : Internal) : Type 0 where
  pub in_bounds : m.objects_max_index < length m.objects
  pub covered : (j : ℕ) → m.objects_max_index < j → is_used (object_at m j) ≡ false
  pub tight : (m.objects_max_index ≡ 0) ⊎ Taken m m.objects_max_index
  pub unique : (i j : ℕ) → Taken m i → Taken m j → key m i ≡ key m j → i ≡ j

module _ (m : Internal) (name : List ℕ) where
  pub find_by_name-Hit : (i : ℕ) → find_by_name m name ≡ some i → Hit m.objects name i
  unfolding find_by_name
  find_by_name-Hit i h = (find_from-Hit (m.objects_max_index + 1) 0 m.objects name i h).2

  pub find_by_name_le_max : (i : ℕ) → find_by_name m name ≡ some i → i ≤ m.objects_max_index
  unfolding find_by_name
  find_by_name_le_max i h =
      omega (arith, find_from-Hit (m.objects_max_index + 1) 0 m.objects name i h)

  pub find_by_name_miss :
      IsValid m → find_by_name m name ≡ none → (j : ℕ) → Taken m j → c_str name_len name ≢ key m j
  unfolding find_by_name
  find_by_name_miss v h j u e = ground (
    arith,
    v.covered j,
    find_from_miss (m.objects_max_index + 1) 0 m.objects name j h,
    name_eq_iff (object_at m j).name name,
  )

  pub find_by_name_of_key :
      (i : ℕ) → IsValid m → Taken m i → key m i ≡ c_str name_len name → find_by_name m name ≡ some i
  find_by_name_of_key i v u e = elim (Option-cases (find_by_name m name)) [
    | inl miss ↦ absurd (find_by_name_miss v miss i u (sym e))
    | inr (j, hit) ↦
        hit
        ∙ ap some (
            v.unique j i (find_by_name-Hit j hit).0 u
              ((name_eq_iff _ name).0 (find_by_name-Hit j hit).1 ∙ sym e))
  ]

  pub find_by_name_of_no_key :
      ((j : ℕ) → Taken m j → key m j ≢ c_str name_len name) → find_by_name m name ≡ none
  find_by_name_of_no_key h = elim (Option-cases (find_by_name m name)) [
    | inl miss ↦ miss
    | inr (j, hit) ↦
        absurd (h j (find_by_name-Hit j hit).0 ((name_eq_iff _ name).0 (find_by_name-Hit j hit).1))
  ]
