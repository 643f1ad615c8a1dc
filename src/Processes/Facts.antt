-- ===== src/Processes/Facts.antt =====
-- What the steps of processes that share the registry start from, src/registry.c: the results of
-- reserving, and the bits of a stage.
use urt.Base.{ℕ, ◌+◌, ◌<◌, ◌≤◌, ◌≡◌, refl, true, false, Option, none, some, List, arith, length}
use urt.Name.{name_eq}
use urt.Name.Laws.{name_eq_iff}
use urt.Global.{Errno, Result, ok, err, Object, World, object_at}
use urt.Registry.{is_used, find_by_name, reserve_at, reserved_object}
use urt.Registry.Preserve.{reserved-key}
use urt.Registry.Operations.{Reserves, reserve_name-Reserves}
use urt.Registry.Operations
use urt.Processes.{Role, making, made, attaching, using, Stage, idle, busy}
use urt.Processes.Invariant.{users_in, makers_in, user_bit, maker_bit}

-- The world after an operation that is known to return.
pub same_world :
    {w w' : World} (r : Option (Unit {0} × World)) → r ≡ some (tt, w) → r ≡ some (tt, w') → w ≡ w'
same_world r e e' = cc

pub reserve_facts :
    (name : List ℕ) (w0 w : World) (i : ℕ) (r : Option (Result ℕ × World))
    → Reserves name w0 r
    → r ≡ some (ok i, w)
    → (find_by_name w0.mem name ≡ none)
      × (i < length w0.mem.objects)
      × (is_used (object_at w0.mem i) ≡ false)
      × (w ≡ record w0 { mem = reserve_at w0.mem i name })
reserve_facts name w0 w i r (Operations.exists j hit q) e = absurd (cc)
reserve_facts name w0 w i r (Operations.full miss f q) e = absurd (cc)
reserve_facts name w0 w i r (Operations.reserved j miss lt free q) e =
    let ei : i ≡ j = cc in
    let ew : w ≡ record w0 { mem = reserve_at w0.mem j name } = cc in
    (miss, rw ei lt, rw ei free, rw ei ew)

pub refuse_facts :
    (name : List ℕ) (w0 w : World) (e : Errno) (r : Option (Result ℕ × World))
    → Reserves name w0 r
    → r ≡ some (err e, w)
    → w ≡ w0
refuse_facts name w0 w e r (Operations.exists j hit q) eq = cc
refuse_facts name w0 w e r (Operations.full miss f q) eq = cc
refuse_facts name w0 w e r (Operations.reserved j miss lt free q) eq = absurd (cc)

pub free_slot : (o : Object) → is_used o ≡ false → (o.count ≡ 0) × (o.reserved ≡ false)
unfolding is_used
free_slot o h = ground arith

pub reserved_name : (name : List ℕ) → name_eq (reserved_object name).name name ≡ true
reserved_name name = (name_eq_iff (reserved_object name).name name).1 (reserved-key name)

pub users_le : (i : ℕ) (st : Stage) → users_in i st ≤ 1
users_le i idle = omega arith
users_le i (busy making name j) = ground arith
users_le i (busy made name j) = ground arith
users_le i (busy attaching name j) = ground arith
users_le i (busy using name j) = ground arith

pub role_bits : (r : Role) → user_bit r + maker_bit r ≡ 1
role_bits making = refl
role_bits made = refl
role_bits attaching = refl
role_bits using = refl

pub users_self : (i : ℕ) (r : Role) (name : List ℕ) → users_in i (busy r name i) ≡ user_bit r
users_self i r name = ground arith

pub makers_self : (i : ℕ) (r : Role) (name : List ℕ) → makers_in i (busy r name i) ≡ maker_bit r
makers_self i r name = ground arith
