-- ===== src/Shared/New.antt =====
-- What making a shared object, src/new_common.c, does to the registry, on success and on failure.
use urt.Base.{
  ℕ, refl, ◌<◌, ◌≡◌, ap, ◌++◌, ◌∙◌, Bool, true, false, ◌==◌, if◌then◌else◌, none, some, List, arith,
  length, length-set,
}
use urt.Name.{name_eq}
use urt.Name.Laws.{name_eq_refl, name_eq_iff}
use urt.Registry.Find.{find_by_name_congr}
use urt.Global.{
  with_book_keeping, Object, SysCall, log, Result, ok, err, Errno, Internal, World, M, object_at,
}
use urt.Registry.{is_used, find_by_name, reserve_name}
use urt.Registry.Invariant.{IsValid, Taken, key}
use urt.Registry.Relabel.{
  object_at-relabelled, key-relabelled, taken-relabelled, relabelled-IsValid,
}
use urt.Registry.Refine.{find_by_name_same}
use urt.Registry.Operations.{Reserved, reserve_name-ok}
use urt.Registry.Attach.{inc_name_count-Attached, Detached, dec_name_count-Detached, found_slot}
use urt.Shared.{add_book_keeping, describe_at, described, new_in_slot, shobj_new}

module _ (b : Bool) (kind sz i : ℕ) (w : World) (lt : i < length w.mem.objects) where
  abbrev new_object : Object
  new_object = described b kind sz (object_at w.mem i)

  same_use : is_used new_object ≡ is_used (object_at w.mem i)
  unfolding is_used
  same_use = refl

  pub object_at-describe_at :
      (j : ℕ)
      → object_at (describe_at b kind sz i w).mem j
        ≡ (if i == j then new_object else object_at w.mem j)
  object_at-describe_at j = object_at-relabelled w.mem i new_object lt refl same_use j

  key-describe_at : (j : ℕ) → key (describe_at b kind sz i w).mem j ≡ key w.mem j
  key-describe_at j = key-relabelled w.mem i new_object lt refl same_use j

  taken-describe_at :
      (j : ℕ) → is_used (object_at (describe_at b kind sz i w).mem j) ≡ is_used (object_at w.mem j)
  taken-describe_at j = taken-relabelled w.mem i new_object lt refl same_use j

  pub describe_at-IsValid : IsValid w.mem → IsValid (describe_at b kind sz i w).mem
  describe_at-IsValid v = relabelled-IsValid w.mem i new_object lt refl same_use v

  find_by_name-describe_at :
      (name : List ℕ)
      → IsValid w.mem
      → find_by_name (describe_at b kind sz i w).mem name ≡ find_by_name w.mem name
  find_by_name-describe_at name v =
      find_by_name_same w.mem (describe_at b kind sz i w).mem name v (describe_at-IsValid v)
        key-describe_at taken-describe_at

-- What a successful SHOBJ_NEW leaves: the name has one user in its slot, every other name is found
-- where it was, and the object is described.
pub record Made (b : Bool) (kind sz : ℕ) (name : List ℕ) (w : World) (i : ℕ) (w' : World)
    : Type 0 where
  pub valid : IsValid w'.mem
  pub sem_back : w'.sem ≡ w.sem
  pub was_absent : find_by_name w.mem name ≡ none
  pub lookup :
      (other : List ℕ)
      → find_by_name w'.mem other
        ≡ (if name_eq name other then some i else find_by_name w.mem other)
  pub one_user : (object_at w'.mem i).count ≡ 1
  pub settled : (object_at w'.mem i).reserved ≡ false
  pub kind_set : (object_at w'.mem i).kind ≡ kind
  pub size_set : (object_at w'.mem i).size ≡ (if b then with_book_keeping sz else sz)

-- The slot that was reserved for a name.
Reserved-slot :
    (name : List ℕ) (w : World) (i : ℕ) (w1 : World)
    → Reserved name w i w1
    → (i < length w1.mem.objects) × Taken w1.mem i × (name_eq (object_at w1.mem i).name name ≡ true)
Reserved-slot name w i w1 r =
    found_slot w1.mem name i r.valid (ground (arith, r.lookup name, name_eq_refl name))

-- A success of the system specific part.
made_lem :
    (b : Bool) (kind sz : ℕ) (name : List ℕ) (w : World) (i : ℕ) (w1 : World) (obj : ℕ)
    (cs : List SysCall)
    → 0 < w.sem
    → Reserved name w i w1
    → (w' : World) × (new_in_slot b kind sz i (ok obj) (log cs w1)
        ≡ some (ok (add_book_keeping b obj i), w'))
      × Made b kind sz name w i w'
unfolding new_in_slot
made_lem b kind sz name w i w1 obj cs h r =
    let at = Reserved-slot name w i w1 r in
    let w2 : World = describe_at b kind sz i (log cs w1) in
    let o = object_at-describe_at b kind sz i w1 at.0 i in
    let inc =
      inc_name_count-Attached i w2 (rw r.sem_back h)
        (describe_at-IsValid b kind sz i w1 at.0 r.valid)
        (rw (length-set w1.mem.objects i (described b kind sz (object_at w1.mem i))) at.0)
        (taken-describe_at b kind sz i w1 at.0 i ∙ at.1) (ground (arith, o, r.no_users)) in
    (
      inc.0,
      ground (arith, inc.1),
      record {
        valid = inc.2.valid;
        sem_back = inc.2.sem_back ∙ r.sem_back;
        was_absent = r.was_absent;
        lookup = λ other.
            inc.2.lookup other
            ∙ find_by_name-describe_at b kind sz i w1 at.0 other r.valid
            ∙ r.lookup other;
        one_user = ground (arith, inc.2.one_more, o, r.no_users);
        settled = inc.2.not_reserved;
        kind_set = ground (arith, inc.2.same_kind, o);
        size_set = ground (arith, inc.2.same_size, o);
      },
    )

pub shobj_new-Made :
    (b : Bool) (kind sz : ℕ) (call : M (Result ℕ)) (name : List ℕ) (w : World) (obj i : ℕ)
    (w1 : World) (cs : List SysCall)
    → 0 < w.sem
    → IsValid w.mem
    → reserve_name name w ≡ some (ok i, w1)
    → ((u : World) → call u ≡ some (ok obj, log cs u))
    → (w' : World) × (shobj_new b kind sz call name w ≡ some (ok (add_book_keeping b obj i), w'))
      × Made b kind sz name w i w'
unfolding shobj_new
shobj_new-Made b kind sz call name w obj i w1 cs h v q works =
    let made = made_lem b kind sz name w i w1 obj cs h (reserve_name-ok name w i w1 h v q) in
    (made.0, ground (arith, q, works w1, made.1), made.2)

-- Nothing of a reservation is left once it was taken back.
unreserved :
    (name : List ℕ) (w : World) (i : ℕ) (w1 : World) (m' : Internal)
    → Reserved name w i w1
    → Detached i w1.mem m'
    → name_eq (object_at w1.mem i).name name ≡ true
    → (other : List ℕ) → find_by_name m' other ≡ find_by_name w.mem other
unreserved name w i w1 m' r d e other = ground (
  arith,
  d.lookup other,
  r.lookup other,
  r.no_users,
  r.was_absent,
  name_eq_iff (object_at w1.mem i).name other,
  name_eq_iff (object_at w1.mem i).name name,
  name_eq_iff name other,
  find_by_name_congr w.mem name other,
)

-- On a valid registry that is open, when a slot can be reserved and the system specific part, which
-- only makes system calls, fails, SHOBJ_NEW returns its error, and the registry finds every name where
-- it was before the call, with the semaphore given back.
pub shobj_new_rollback :
    (b : Bool) (kind sz : ℕ) (call : M (Result ℕ)) (name : List ℕ) (w : World) (e : Errno) (i : ℕ)
    (w1 : World) (cs : List SysCall)
    → 0 < w.sem
    → IsValid w.mem
    → reserve_name name w ≡ some (ok i, w1)
    → ((u : World) → call u ≡ some (err e, log cs u))
    → (w' : World) × (shobj_new b kind sz call name w ≡ some (err e, w'))
      × (w'.sem ≡ w.sem)
      × (w'.calls ≡ cs ++ w.calls)
      × IsValid w'.mem
      × ((other : List ℕ) → find_by_name w'.mem other ≡ find_by_name w.mem other)
unfolding shobj_new new_in_slot
shobj_new_rollback b kind sz call name w e i w1 cs h v q fails =
    let r = reserve_name-ok name w i w1 h v q in
    let at = Reserved-slot name w i w1 r in
    let d = dec_name_count-Detached none i (log cs w1) (rw r.sem_back h) r.valid at.0 at.1 in
    (
      d.0,
      ground (arith, q, fails w1, d.1),
      d.2 ∙ r.sem_back,
      d.3 ∙ ap (λ x. cs ++ x) r.quiet,
      d.4.valid,
      unreserved name w i w1 d.0.mem r d.4 at.2,
    )
