-- ===== src/Registry/Find.antt =====
-- The searches of src/registry.c: `_find_by_name`, the search for a free slot, `_internal_mem_check`
-- and the search for the new max index.
use urt.Base.{
  ℕ, zero, suc, ◌+◌, ◌<◌, ◌≤◌, ◌≡◌, refl, ◌⊎◌, inl, true, false, none, some, List, ◌&&◌, arith,
  get_or,
}
use urt.Name.{name_eq, name_len}
use urt.Name.Laws.{c_str, name_eq_iff}
use urt.Global.{Object, blank, Internal}
use urt.Registry.{is_used, find_by_name, find_from, free_from, mem_check_from, lower}

-- What a hit of the search tells.
abbrev pub Hit : List Object → List ℕ → ℕ → Type 0
Hit objs name j =
    (is_used (get_or objs j blank) ≡ true) × (name_eq (get_or objs j blank).name name ≡ true)

pub find_from-Hit :
    (rounds i : ℕ) (objs : List Object) (name : List ℕ) (j : ℕ)
    → find_from rounds i objs name ≡ some j
    → (i ≤ j) × (j < i + rounds) × Hit objs name j
unfolding find_from
find_from-Hit zero i objs name j h = ground arith
find_from-Hit (suc rounds) i objs name j h =
    ground (arith, find_from-Hit rounds (i + 1) objs name j)

pub find_from_miss :
    (rounds i : ℕ) (objs : List Object) (name : List ℕ) (j : ℕ)
    → find_from rounds i objs name ≡ none
    → i ≤ j
    → j < i + rounds
    → (is_used (get_or objs j blank) && name_eq (get_or objs j blank).name name) ≡ false
unfolding find_from
find_from_miss zero i objs name j h a b = absurd (omega arith)
find_from_miss (suc rounds) i objs name j h a b =
    ground (arith, find_from_miss rounds (i + 1) objs name j)

pub free_from_lem :
    (rounds i : ℕ) (objs : List Object)
    → (i ≤ free_from rounds i objs)
      × (free_from rounds i objs ≤ i + rounds)
      × ((free_from rounds i objs ≡ i + rounds)
          ⊎ (is_used (get_or objs (free_from rounds i objs) blank) ≡ false))
unfolding free_from
free_from_lem zero i objs = ground arith
free_from_lem (suc rounds) i objs = ground (arith, free_from_lem rounds (i + 1) objs)

pub free_from_full :
    (rounds i : ℕ) (objs : List Object) (j : ℕ)
    → free_from rounds i objs ≡ i + rounds
    → i ≤ j
    → j < i + rounds
    → is_used (get_or objs j blank) ≡ true
unfolding free_from
free_from_full zero i objs j h a b = absurd (omega arith)
free_from_full (suc rounds) i objs j h a b =
    ground (arith, free_from_full rounds (i + 1) objs j, free_from_lem rounds (i + 1) objs)

pub lower_le : (objs : List Object) (k : ℕ) → lower objs k ≤ k
unfolding lower
lower_le objs zero = omega arith
lower_le objs (suc k) = ground (arith, lower_le objs k)

pub lower_tight :
    (objs : List Object) (k : ℕ)
    → (lower objs k ≡ 0) ⊎ (is_used (get_or objs (lower objs k) blank) ≡ true)
unfolding lower
lower_tight objs zero = inl refl
lower_tight objs (suc k) = ground (arith, lower_tight objs k)

pub lower_above :
    (objs : List Object) (k j : ℕ)
    → lower objs k < j
    → j ≤ k
    → is_used (get_or objs j blank) ≡ false
unfolding lower
lower_above objs zero j a b = absurd (omega arith)
lower_above objs (suc k) j a b = ground (arith, lower_above objs k j)

-- When no taken slot lies above the max index, the check changes nothing and reports nothing.
pub mem_check_from_lem :
    (rounds i : ℕ) (objs : List Object) (max : ℕ)
    → ((j : ℕ) → max < j → is_used (get_or objs j blank) ≡ false)
    → mem_check_from rounds i objs max false ≡ (max, false)
unfolding mem_check_from
mem_check_from_lem zero i objs max h = refl
mem_check_from_lem (suc rounds) i objs max h =
    ground (arith, h i, mem_check_from_lem rounds (i + 1) objs max h)

-- The search sees a name as its C string only.
pub find_by_name_congr :
    (m : Internal) (s t : List ℕ)
    → c_str name_len s ≡ c_str name_len t
    → find_by_name m s ≡ find_by_name m t
unfolding find_by_name
find_by_name_congr m s t e = loop (m.objects_max_index + 1) 0
  where
    loop : (rounds i : ℕ) → find_from rounds i m.objects s ≡ find_from rounds i m.objects t
    loop zero i = refl
    loop (suc rounds) i = ground (
      arith,
      loop rounds (i + 1),
      name_eq_iff (get_or m.objects i blank).name s,
      name_eq_iff (get_or m.objects i blank).name t,
    )

-- Nor does it read the counter of the free names.
pub find_by_name_counter :
    (m : Internal) (next name : List ℕ)
    → find_by_name (record m { next_free_name = next }) name ≡ find_by_name m name
unfolding find_by_name
find_by_name_counter m next name = refl
