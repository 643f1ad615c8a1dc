-- ===== src/Registry/Clear.antt =====
-- `urt_force_clear_name` of src/registry.c: the loop ends, and the name is gone.
use urt.Base.{
  ℕ, zero, suc, ◌-◌, [], ◌∷◌, ◌<◌, ◌≡◌, refl, ◌⊎◌, inl, inr, ltb, ltb→lt, if◌then◌else◌, none, some,
  List, ◌++◌, arith, length, Bool-cases, Option-cases,
}
use urt.Name.{name_eq}
use urt.SysName.{convert_name}
use urt.Global.{
  Object, shm_unlink, sem_unlink, internal_error, Internal, World, SysCall, object_at,
  global_sem_wait_pos, global_sem_post_after, global_sem_post_calls, log,
}
use urt.Registry.{
  is_used, find_by_name, dec_count_common, dec_to_zero, clear_at, force_clear_name,
  sys_force_clear_name, unlink_kind,
}
use urt.Registry.Invariant.{IsValid, Taken}
use urt.Registry.Operations.{after_detach, dec_count_common_lem}
use urt.Registry.Attach.{found_slot, Detached, after_detach-Detached, length-after_detach}

-- The registry with the name of slot `i` gone, and every other name where it was.
pub record Cleared (i : ℕ) (m m' : Internal) : Type 0 where
  pub valid : IsValid m'
  pub lookup :
      (name : List ℕ)
      → find_by_name m' name
        ≡ (if name_eq (object_at m i).name name then none else find_by_name m name)
  pub no_users : (object_at m' i).count ≡ 0

Taken-of_count : (m : Internal) (i : ℕ) → 0 < (object_at m i).count → Taken m i
unfolding is_used
Taken-of_count m i h = ground arith

Cleared-of_last :
    (i : ℕ) (m m' : Internal) → Detached i m m' → (object_at m' i).count ≡ 0 → Cleared i m m'
Cleared-of_last i m m' d e = record {
  valid = d.valid;
  lookup = λ name. ground (arith, d.lookup name, d.one_less);
  no_users = e;
}

Cleared-trans :
    (i : ℕ) (m m' m'' : Internal)
    → Detached i m m'
    → 0 < (object_at m' i).count
    → Cleared i m' m''
    → Cleared i m m''
Cleared-trans i m m' m'' d h c = record {
  valid = c.valid;
  lookup = λ name. ground (arith, d.lookup name, d.one_less, d.same_name, c.lookup name);
  no_users = c.no_users;
}

-- One round of the loop.
round_lem :
    (i : ℕ) (w : World)
    → i < length w.mem.objects
    → IsValid w.mem
    → dec_count_common none i w ≡ record w { mem = after_detach w.mem i }
round_lem i w lt v = dec_count_common_lem none i w lt v

-- More fuel than users is enough.
dec_to_zero_lem :
    (fuel i : ℕ) (w : World)
    → (object_at w.mem i).count < fuel
    → i < length w.mem.objects
    → IsValid w.mem
    → Taken w.mem i
    → (m' : Internal) × (dec_to_zero fuel i w ≡ some (record w { mem = m' })) × Cleared i w.mem m'
unfolding dec_to_zero
dec_to_zero_lem zero i w f lt v u = absurd (omega arith)
dec_to_zero_lem (suc fuel) i w f lt v u =
    let m' : Internal = after_detach w.mem i in
    let d : Detached i w.mem m' = after_detach-Detached w.mem i v lt u in
    rw (round_lem i w lt v) (elim (Bool-cases (ltb 0 (object_at m' i).count)) [
      | inl more ↦
          let h : 0 < (object_at m' i).count = ltb→lt _ _ more in
          let rest =
            dec_to_zero_lem fuel i (record w { mem = m' }) (omega (arith, d.one_less))
              (rw (length-after_detach w.mem i) lt) d.valid (Taken-of_count m' i h) in
          (rest.0, rw more rest.1, Cleared-trans i w.mem m' rest.0 d h rest.2)
      | inr done ↦ (m', rw done refl, Cleared-of_last i w.mem m' d (ground arith))
    ])

clear_at_lem :
    (i : ℕ) (w : World)
    → i < length w.mem.objects
    → IsValid w.mem
    → Taken w.mem i
    → (m' : Internal) × (clear_at i w
        ≡ some (
          tt,
          record w { mem = m'; calls = sys_force_clear_name (object_at w.mem i) ++ w.calls },
        ))
      × Cleared i w.mem m'
unfolding clear_at
clear_at_lem i w lt v u =
    let unlinks : List SysCall = sys_force_clear_name (object_at w.mem i) in
    let end =
      dec_to_zero_lem (suc (object_at w.mem i).count) i (log unlinks w) (omega arith) lt v u in
    (end.0, rw (end.1, clear_at), end.2)

-- What clearing calls for an object: the one unlinking of its system name that its kind has; nothing
-- where the name cannot be converted; a report where it has no kind yet.
pub data Unlinked (o : Object) : List SysCall → Type 0 where
  memory :
      {n : List ℕ}
      → convert_name o.name ≡ some n
      → (o.kind ≡ 1) ⊎ ((o.kind ≡ 3) ⊎ ((o.kind ≡ 4) ⊎ (o.kind ≡ 5)))
      → Unlinked o (shm_unlink n ∷ [])
  semaphore :
      {n : List ℕ} → convert_name o.name ≡ some n → o.kind ≡ 2 → Unlinked o (sem_unlink n ∷ [])
  no_system_name : convert_name o.name ≡ none → Unlinked o []
  no_kind :
      {n : List ℕ}
      → convert_name o.name ≡ some n
      → (o.kind ≡ 0) ⊎ (5 < o.kind)
      → Unlinked o (internal_error ∷ [])

unlink_kind-other : (k : ℕ) (n : List ℕ) → 5 < k → unlink_kind k n ≡ internal_error ∷ []
unfolding unlink_kind
unlink_kind-other k n h = ground arith

unlink_kind-Unlinked :
    (o : Object) (n : List ℕ)
    → convert_name o.name ≡ some n
    → (k : ℕ) → o.kind ≡ k
    → Unlinked o (unlink_kind k n)
unfolding unlink_kind
unlink_kind-Unlinked o n c zero e = no_kind c (inl e)
unlink_kind-Unlinked o n c (suc zero) e = memory c (inl e)
unlink_kind-Unlinked o n c (suc (suc zero)) e = semaphore c e
unlink_kind-Unlinked o n c (suc (suc (suc zero))) e = memory c (inr (inl e))
unlink_kind-Unlinked o n c (suc (suc (suc (suc zero)))) e = memory c (inr (inr (inl e)))
unlink_kind-Unlinked o n c (suc (suc (suc (suc (suc zero))))) e = memory c (inr (inr (inr e)))
unlink_kind-Unlinked o n c (suc (suc (suc (suc (suc (suc k)))))) e =
    rw (unlink_kind-other (suc (suc (suc (suc (suc (suc k)))))) n (omega arith))
      (no_kind c (inr (omega (arith, e))))

sys_force_clear_name-Unlinked : (o : Object) → Unlinked o (sys_force_clear_name o)
unfolding sys_force_clear_name
sys_force_clear_name-Unlinked o = elim (Option-cases (convert_name o.name)) [
  | inl c ↦ rw (sys_force_clear_name, c) (no_system_name c)
  | inr (n, c) ↦ rw (sys_force_clear_name, c) (unlink_kind-Unlinked o n c o.kind refl)
]

-- On a valid registry whose semaphore is open, urt_force_clear_name returns whatever the number of
-- users: a name that is not in the registry changes nothing; one that is has no users left and is gone
-- from the registry, while every other name is found where it was; and one call unlinks the system name
-- of the object, as a shared memory for a memory, mutex, reader-writer lock or condition, as a semaphore
-- for a semaphore; but for an object without a kind there is only a report, and for one whose name
-- cannot be converted no call.
pub force_clear_name_lem :
    (name : List ℕ) (w : World)
    → 0 < w.sem
    → IsValid w.mem
    → ((find_by_name w.mem name ≡ none) × (force_clear_name name w ≡ some (tt, w)))
      ⊎ ((i : ℕ) × (m' : Internal) × (cs : List SysCall) × (find_by_name w.mem name ≡ some i)
          × (force_clear_name name w ≡ some (tt, record w { mem = m'; calls = cs ++ w.calls }))
          × Unlinked (object_at w.mem i) cs
          × (find_by_name m' name ≡ none)
          × Cleared i w.mem m')
unfolding force_clear_name
force_clear_name_lem name w h v = elim (Option-cases (find_by_name w.mem name)) [
  | inl miss ↦ inl (miss, ground (arith, global_sem_wait_pos w h, global_sem_post_after w w.mem h))
  | inr (i, hit) ↦
      let at = found_slot w.mem name i v hit in
      let unlinks : List SysCall = sys_force_clear_name (object_at w.mem i) in
      let c = clear_at_lem i (record w { sem = w.sem - 1 }) at.0 v at.1 in
      inr (
        i,
        c.0,
        unlinks,
        hit,
        ground (
          arith,
          global_sem_wait_pos w h,
          c.1,
          global_sem_post_calls w c.0 (unlinks ++ w.calls) h,
        ),
        sys_force_clear_name-Unlinked (object_at w.mem i),
        ground (arith, c.2.lookup name, at.2),
        c.2,
      )
]
