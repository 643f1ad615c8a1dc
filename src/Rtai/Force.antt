-- ===== src/Rtai/Force.antt =====
-- `urt_sys_force_clear_name` of sys/rtai/src/setup.c. `found k` is whether the k-th rt_get_adr finds
-- the name.
use urt.Base.{
  ℕ, zero, suc, ◌+◌, ◌<◌, ◌≤◌, ◌≡◌, refl, sym, ap, ◌∙◌, ◌⊎◌, inl, inr, Bool, true, false, Option,
  none, some, List, [], ◌∷◌, ◌==◌, ◌||◌, if◌then◌else◌, replicate, arith, Bool-cases, Option-cases,
  ℕ_discrete,
}
use urt.Global.{
  Object, SysCall, shm_free, named_sem_delete, named_rwl_delete, drg_on_name, internal_error,
  type_mem, type_sem, type_mutex, type_rwlock, type_cond,
}

-- `while (rt_get_adr(..)) call;` The outer `none`: out of fuel.
unfoldable pub force_loop : (ℕ → Bool) → SysCall → ℕ → ℕ → Option (List SysCall)
force_loop found call zero k = none
force_loop found call (suc fuel) k =
    let rest = force_loop found call fuel (k + 1) in
    if found k then elim rest [ none ↦ none | some cs ↦ some (call ∷ cs) ] else some []

-- The call that takes one use of the name back; `none` for a type that is not known.
unfoldable pub clear_call : Bool → Object → Option SysCall
clear_call in_kernel o =
    if in_kernel
    then some (drg_on_name o.name)
    else if o.kind == type_mem
    then some (shm_free o.name)
    else if o.kind == type_sem || o.kind == type_mutex || o.kind == type_cond
    then some named_sem_delete
    else if o.kind == type_rwlock
    then some named_rwl_delete
    else none

-- urt_sys_force_clear_name
unfoldable pub sys_force_clear_name : Bool → (ℕ → Bool) → ℕ → Object → Option (List SysCall)
unfolding clear_call force_loop
sys_force_clear_name in_kernel found fuel o = elim (clear_call in_kernel o) [
  | none ↦ some (internal_error ∷ [])
  | some call ↦ force_loop found call fuel 0
]

-- The uses of the name that are taken back from round `k` on.
pub record Cleared (found : ℕ → Bool) (call : SysCall) (k n : ℕ) (cs : List SysCall) : Type 0 where
  pub uses : ℕ
  pub bounded : k + uses ≤ n
  pub one_each : cs ≡ replicate uses call
  pub was_there : (j : ℕ) → k ≤ j → j < k + uses → found j ≡ true
  pub is_gone : found (k + uses) ≡ false

force_loop-Cleared :
    (found : ℕ → Bool) (call : SysCall) (fuel k n : ℕ)
    → k ≤ n
    → n < k + fuel
    → found n ≡ false
    → (cs : List SysCall) × (force_loop found call fuel k ≡ some cs) × Cleared found call k n cs
unfolding force_loop
force_loop-Cleared found call zero k n le lt gone = absurd (omega arith)
force_loop-Cleared found call (suc fuel) k n le lt gone = elim (Bool-cases (found k)) [
  | inr absent ↦ (
    [],
    rw absent refl,
    record {
      uses = 0;
      bounded = omega arith;
      one_each = refl;
      was_there = λ j a b. absurd (omega arith);
      is_gone = ap found (omega arith) ∙ absent;
    },
  )
  | inl there ↦
      let rest = force_loop-Cleared found call fuel (k + 1) n (ground arith) (omega arith) gone in
      (
        call ∷ rest.0,
        rw (there, rest.1) refl,
        record {
          uses = suc rest.2.uses;
          bounded = omega (arith, rest.2.bounded);
          one_each = ap (λ x. call ∷ x) rest.2.one_each;
          was_there = λ j a b. elim (ℕ_discrete k j) [
            | yes e ↦ rw (sym e) there
            | no ne ↦ rest.2.was_there j (omega arith) (omega arith)
          ];
          is_gone = ap found (omega arith) ∙ rest.2.is_gone;
        },
      )
]

-- If the `n`-th look does not find the name, `urt_sys_force_clear_name` returns: an object of a type
-- that is not known is reported, and for any other, one use is taken back for each look that found the
-- name, up to the first that did not.
pub sys_force_clear_name_total :
    (in_kernel : Bool) (found : ℕ → Bool) (o : Object) (n fuel : ℕ)
    → n < fuel
    → found n ≡ false
    → ((clear_call in_kernel o ≡ none)
        × (sys_force_clear_name in_kernel found fuel o ≡ some (internal_error ∷ [])))
      ⊎ ((call : SysCall) × (cs : List SysCall) × (clear_call in_kernel o ≡ some call)
          × (sys_force_clear_name in_kernel found fuel o ≡ some cs)
          × Cleared found call 0 n cs)
unfolding sys_force_clear_name
sys_force_clear_name_total in_kernel found o n fuel h gone =
    elim (Option-cases (clear_call in_kernel o)) [
      | inl unknown ↦ inl (unknown, ground (arith, unknown))
      | inr (call, e) ↦
          let l = force_loop-Cleared found call fuel 0 n (omega arith) (omega arith) gone in
          inr (call, l.0, e, ground (arith, e, l.1), l.2)
    ]
