-- ===== src/Shared/Attach.antt =====
-- What attaching to a shared object, src/new_common.c, does to the registry, on success and on
-- failure.
use urt.Base.{
  refl, ℕ, ◌+◌, ◌^◌, ◌<◌, ◌≡◌, ap, ◌∙◌, ◌++◌, ◌⊎◌, inl, inr, Bool, true, false, ◌==◌, if◌then◌else◌,
  none, some, List, arith, length,
}
use urt.Global.{SysCall, log, Result, ok, err, enoent, Errno, World, M, object_at, Object}
use urt.Registry.{is_used, find_by_name, get_object_by_name_and_inc_count}
use urt.Registry.Invariant.{IsValid}
use urt.Registry.Relabel.{
  object_at-relabelled, key-relabelled, taken-relabelled, relabelled-IsValid,
}
use urt.Registry.Refine.{find_by_name_same}
use urt.Registry.Attach.{
  get_object_by_name_and_inc_count-cases, Attached, get_object_by_name_and_inc_count-Attached,
  get_object_by_name_and_inc_count-cases, dec_name_count-Detached, found_slot,
}
use urt.Shared.{add_book_keeping, mark_at, attach_in_slot, shobj_attach}

module _ (i : ℕ) (w : World) (lt : i < length w.mem.objects) where
  abbrev pub marked : Object
  marked = record (object_at w.mem i) { has_bookkeeping = true }

  same_use : is_used marked ≡ is_used (object_at w.mem i)
  unfolding is_used
  same_use = refl

  pub object_at-marked :
      (j : ℕ) → object_at (mark_at true i w).mem j ≡ (if i == j then marked else object_at w.mem j)
  object_at-marked j = object_at-relabelled w.mem i marked lt refl same_use j

  pub mark_at-IsValid : (b : Bool) → IsValid w.mem → IsValid (mark_at b i w).mem
  mark_at-IsValid false v = v
  mark_at-IsValid true v = relabelled-IsValid w.mem i marked lt refl same_use v

  find_by_name-mark_at :
      (b : Bool) (name : List ℕ)
      → IsValid w.mem
      → find_by_name (mark_at b i w).mem name ≡ find_by_name w.mem name
  find_by_name-mark_at false name v = refl
  find_by_name-mark_at true name v =
      find_by_name_same w.mem (mark_at true i w).mem name v (mark_at-IsValid true v)
        (key-relabelled w.mem i marked lt refl same_use)
        (taken-relabelled w.mem i marked lt refl same_use)

  pub count-mark_at :
      (b : Bool) → (object_at (mark_at b i w).mem i).count ≡ (object_at w.mem i).count
  count-mark_at false = refl
  count-mark_at true = ground (arith, object_at-marked i)

  size-mark_at : (b : Bool) → (object_at (mark_at b i w).mem i).size ≡ (object_at w.mem i).size
  size-mark_at false = refl
  size-mark_at true = ground (arith, object_at-marked i)

  name-mark_at : (b : Bool) → (object_at (mark_at b i w).mem i).name ≡ (object_at w.mem i).name
  name-mark_at false = refl
  name-mark_at true = ground (arith, object_at-marked i)

-- The registry with one more user of slot `i`, after the calls `cs`.
pub record Joined (i : ℕ) (cs : List SysCall) (w w' : World) : Type 0 where
  pub sem_back : w'.sem ≡ w.sem
  pub valid : IsValid w'.mem
  pub one_more : (object_at w'.mem i).count ≡ (object_at w.mem i).count + 1
  pub lookup : (other : List ℕ) → find_by_name w'.mem other ≡ find_by_name w.mem other
  pub same_size : (object_at w'.mem i).size ≡ (object_at w.mem i).size
  pub same_name : (object_at w'.mem i).name ≡ (object_at w.mem i).name
  pub calls_made : w'.calls ≡ cs ++ w.calls

pub shobj_attach-Joined :
    (b : Bool) (call : M (Result ℕ)) (name : List ℕ) (i : ℕ) (w : World) (obj : ℕ)
    (cs : List SysCall)
    → 0 < w.sem
    → IsValid w.mem
    → find_by_name w.mem name ≡ some i
    → (object_at w.mem i).count + 1 < 2 ^ 32
    → ((u : World) → call u ≡ some (ok obj, log cs u))
    → (w' : World) × (shobj_attach b call name w ≡ some (ok (add_book_keeping b obj i), w'))
      × Joined i cs w w'
unfolding shobj_attach attach_in_slot
shobj_attach-Joined b call name i w obj cs h v hit small works =
    let a = get_object_by_name_and_inc_count-Attached name i w h v hit small in
    let at = found_slot a.0.mem name i a.2.valid (a.2.lookup name ∙ hit) in
    (
      mark_at b i (log cs a.0),
      ground (arith, a.1, works a.0),
      record {
        sem_back = a.2.sem_back;
        valid = mark_at-IsValid i (log cs a.0) at.0 b a.2.valid;
        one_more = count-mark_at i (log cs a.0) at.0 b ∙ a.2.one_more;
        lookup =
            λ other. find_by_name-mark_at i (log cs a.0) at.0 b other a.2.valid ∙ a.2.lookup other;
        same_size = size-mark_at i (log cs a.0) at.0 b ∙ a.2.same_size;
        same_name = name-mark_at i (log cs a.0) at.0 b ∙ a.2.same_name;
        calls_made = ap (λ x. cs ++ x) a.2.quiet;
      },
    )

-- On a valid registry that is open, SHOBJ_ATTACH to a name that is found, with room in its 32-bit
-- counter, and whose system specific part, which only makes system calls, succeeds, returns the
-- object's handle, with the slot as id; the object has one user more, the registry is valid, every name
-- is found where it was, and the semaphore is given back.
pub shobj_attach-Attached :
    (b : Bool) (call : M (Result ℕ)) (name : List ℕ) (i : ℕ) (w : World) (obj : ℕ)
    (cs : List SysCall)
    → 0 < w.sem
    → IsValid w.mem
    → find_by_name w.mem name ≡ some i
    → (object_at w.mem i).count + 1 < 2 ^ 32
    → ((u : World) → call u ≡ some (ok obj, log cs u))
    → (w' : World) × (shobj_attach b call name w ≡ some (ok (add_book_keeping b obj i), w'))
      × (w'.sem ≡ w.sem)
      × IsValid w'.mem
      × ((object_at w'.mem i).count ≡ (object_at w.mem i).count + 1)
      × ((other : List ℕ) → find_by_name w'.mem other ≡ find_by_name w.mem other)
shobj_attach-Attached b call name i w obj cs h v hit small works =
    let a = shobj_attach-Joined b call name i w obj cs h v hit small works in
    (a.0, a.1, a.2.sem_back, a.2.valid, a.2.one_more, a.2.lookup)

-- On a valid registry that is open, SHOBJ_ATTACH to a name that is found, with users and room in its
-- 32-bit counter, and whose system specific part, which only makes system calls, fails, returns the
-- error of that part; the object has as many users as before, the registry is valid, every name is found
-- where it was, the semaphore is given back, and no other system call was made.
pub shobj_attach_rollback :
    (b : Bool) (call : M (Result ℕ)) (name : List ℕ) (i : ℕ) (w : World) (e : Errno)
    (cs : List SysCall)
    → 0 < w.sem
    → IsValid w.mem
    → find_by_name w.mem name ≡ some i
    → 0 < (object_at w.mem i).count
    → (object_at w.mem i).count + 1 < 2 ^ 32
    → ((u : World) → call u ≡ some (err e, log cs u))
    → (w' : World) × (shobj_attach b call name w ≡ some (err e, w'))
      × (w'.sem ≡ w.sem)
      × (w'.calls ≡ cs ++ w.calls)
      × IsValid w'.mem
      × ((object_at w'.mem i).count ≡ (object_at w.mem i).count)
      × ((other : List ℕ) → find_by_name w'.mem other ≡ find_by_name w.mem other)
unfolding shobj_attach attach_in_slot
shobj_attach_rollback b call name i w e cs h v hit users small fails =
    let a = get_object_by_name_and_inc_count-Attached name i w h v hit small in
    let at = found_slot a.0.mem name i a.2.valid (a.2.lookup name ∙ hit) in
    let d = dec_name_count-Detached none i (log cs a.0) (rw a.2.sem_back h) a.2.valid at.0 at.1 in
    (
      d.0,
      ground (arith, a.1, fails a.0, d.1),
      d.2 ∙ a.2.sem_back,
      d.3 ∙ ap (λ x. cs ++ x) a.2.quiet,
      d.4.valid,
      ground (arith, d.4.one_less, a.2.one_more),
      λ other. ground (arith, d.4.lookup other, a.2.one_more, a.2.lookup other),
    )

-- On a valid registry that is open, SHOBJ_ATTACH to a name that is not found fails with ENOENT without
-- any call or change.
pub shobj_attach_missing :
    (b : Bool) (call : M (Result ℕ)) (name : List ℕ) (w : World)
    → 0 < w.sem
    → IsValid w.mem
    → find_by_name w.mem name ≡ none
    → shobj_attach b call name w ≡ some (err enoent, w)
unfolding shobj_attach
shobj_attach_missing b call name w h v miss =
    from (get_object_by_name_and_inc_count-cases name w h v (λ j g. absurd (cc)))
  where
    from :
        ((find_by_name w.mem name ≡ none)
            × (get_object_by_name_and_inc_count name w ≡ some (none, w)))
          ⊎ ((j : ℕ) × (w' : World) × (find_by_name w.mem name ≡ some j)
              × (get_object_by_name_and_inc_count name w ≡ some (some j, w'))
              × Attached j w w')
        → shobj_attach b call name w ≡ some (err enoent, w)
    from (inl (same, g)) = ground (arith, g)
    from (inr (j, w', g, e, d)) = absurd (cc)
