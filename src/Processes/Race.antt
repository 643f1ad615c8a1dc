-- ===== src/Processes/Race.antt =====
-- An attachment that comes while the object of a name is being made: SHOBJ_ATTACH against SHOBJ_NEW
-- of src/new_common.c.
use urt.Base.{
  ℕ, zero, suc, ◌+◌, ◌<◌, ◌≤◌, ◌≡◌, refl, ◌∙◌, ◌⊎◌, inl, inr, Bool, false, ◌==◌, none, some, List,
  arith, length, length-set, set, get_or-set,
}
use urt.Name.Laws.{name_eq_refl}
use urt.Global.{
  Object, Internal, Errno, Result, ok, err, World, M, pure, ◌>>=◌, object_at, blank,
  global_sem_wait_pos, global_sem_post_after,
}
use urt.Registry.{
  is_used, find_by_name, find_from, reserve_name, reserve_at, inc_name_count, dec_name_count,
  get_object_by_name_and_inc_count, attached, inc_at,
}
use urt.Registry.Invariant.{IsValid}
use urt.Registry.Relabel.{relabelled}
use urt.Registry.Preserve.{object_at-reserve_at}
use urt.Registry.Operations.{
  Reserved, Reserves, exists, full, reserved, reserve_name-ok, reserve_name-Reserves,
}
use urt.Registry.Attach.{
  Attached, get_object_by_name_and_inc_count-cases, dec_name_count-Detached, found_slot,
}
use urt.Shared.{
  shobj_new, new_in_slot, shobj_attach, attach_in_slot, add_book_keeping, describe_at, described,
}

-- The system specific part of a new object, during which another process attaches to the name, fails
-- to open an object that is not there yet, and gives up.
abbrev pub meanwhile : Bool → Errno → List ℕ → ℕ → M (Result ℕ)
meanwhile in_memory e name obj = shobj_attach in_memory (pure (err e)) name >>= λ _. pure (ok obj)

-- The search does not see what lies above the max index.
find_from_beyond :
    (rounds k i : ℕ) (objs : List Object) (o : Object) (name : List ℕ)
    → i < length objs
    → k + rounds ≤ i
    → find_from rounds k (set objs i o) name ≡ find_from rounds k objs name
unfolding find_from
find_from_beyond zero k i objs o name lt h = refl
find_from_beyond (suc rounds) k i objs o name lt h =
    ground (arith, get_or-set objs i k o blank lt, find_from_beyond rounds (k + 1) i objs o name)

find_by_name_beyond :
    (m : Internal) (i : ℕ) (o : Object) (name : List ℕ)
    → i < length m.objects
    → m.objects_max_index < i
    → find_by_name (relabelled m i o) name ≡ find_by_name m name
unfolding find_by_name
find_by_name_beyond m i o name lt h =
    find_from_beyond (m.objects_max_index + 1) 0 i m.objects o name lt (omega arith)

-- A reservation leaves the other slots alone.
reserve_name_others :
    (name : List ℕ) (w : World) (i : ℕ) (w1 : World)
    → 0 < w.sem
    → reserve_name name w ≡ some (ok i, w1)
    → (j : ℕ) → (i == j) ≡ false
    → object_at w1.mem j ≡ object_at w.mem j
reserve_name_others name w i w1 h q j ne = from (reserve_name-Reserves name w h)
  where
    from : Reserves name w (reserve_name name w) → object_at w1.mem j ≡ object_at w.mem j
    from (exists k hit e) = absurd (cc)
    from (full miss f e) = absurd (cc)
    from (reserved k miss lt free e) =
        let ei : i ≡ k = cc in
        let ew : w1 ≡ record w { mem = reserve_at w.mem k name } = cc in
        rw ew (ground (arith, ei, object_at-reserve_at w.mem k name lt j))

-- What the attachment leaves of the reservation: the slot is free, and the max index is below it.
record Freed (name : List ℕ) (i : ℕ) (w w3 : World) : Type 0 where
  pub valid : IsValid w3.mem
  pub sem_back : w3.sem ≡ w.sem
  pub in_bounds : i < length w3.mem.objects
  pub no_users : (object_at w3.mem i).count ≡ 0
  pub lowered : w3.mem.objects_max_index < i
  pub lost : find_by_name w3.mem name ≡ none

-- The max index of a valid registry lies below a free slot that is above all taken ones.
max_below :
    (m : Internal) (i : ℕ)
    → IsValid m
    → 0 < i
    → is_used (object_at m i) ≡ false
    → ((j : ℕ) → i < j → is_used (object_at m j) ≡ false)
    → m.objects_max_index < i
max_below m i v pos free above = ground (arith, v.tight, above m.objects_max_index)

freed :
    (i : ℕ) (w : World)
    → (object_at w.mem i).count ≡ 0
    → (object_at w.mem i).reserved ≡ false
    → is_used (object_at w.mem i) ≡ false
unfolding is_used
freed i w c h = ground arith

module _ (in_memory : Bool) (e : Errno) (name : List ℕ) (obj i : ℕ) (w w1 : World)
    (open_sem : 0 < w.sem) (v : IsValid w.mem) (top : w.mem.objects_max_index < i)
    (q : reserve_name name w ≡ some (ok i, w1)) where
  r : Reserved name w i w1
  r = reserve_name-ok name w i w1 open_sem v q

  found : find_by_name w1.mem name ≡ some i
  found = ground (arith, r.lookup name, name_eq_refl name)

  attaches :
      (w2 : World) × (get_object_by_name_and_inc_count name w1 ≡ some (some i, w2))
      × Attached i w1 w2
  attaches = from (
      get_object_by_name_and_inc_count-cases name w1 (rw r.sem_back open_sem) r.valid
        (λ j hit. ground (arith, r.no_users, found)))
    where
      from :
          ((find_by_name w1.mem name ≡ none)
              × (get_object_by_name_and_inc_count name w1 ≡ some (none, w1)))
            ⊎ ((j : ℕ) × (w' : World) × (find_by_name w1.mem name ≡ some j)
                × (get_object_by_name_and_inc_count name w1 ≡ some (some j, w'))
                × Attached j w1 w')
          → (w2 : World) × (get_object_by_name_and_inc_count name w1 ≡ some (some i, w2))
            × Attached i w1 w2
      from (inl (miss, g)) = absurd (cc (found, miss))
      from (inr (j, w', hit, g, d)) = let ej : i ≡ j = cc (found, hit) in (w', rw ej g, rw ej d)

  -- What giving up leaves.
  gives_up :
      (w2 : World)
      → Attached i w1 w2
      → (w3 : World) × (dec_name_count none i w2 ≡ some (tt, w3)) × Freed name i w w3
  gives_up w2 d =
      let at = found_slot w2.mem name i d.valid (d.lookup name ∙ found) in
      let g =
        dec_name_count-Detached none i w2 (rw (d.sem_back, r.sem_back) open_sem) d.valid at.0
          at.1 in
      (
        g.0,
        g.1,
        record {
          valid = g.4.valid;
          sem_back = g.2 ∙ d.sem_back ∙ r.sem_back;
          in_bounds = omega (arith, at.0, g.4.same_length);
          no_users = ground (arith, g.4.one_less, d.one_more, r.no_users);
          lowered =
              max_below g.0.mem i g.4.valid (omega (arith, top))
                (freed i g.0 (ground (arith, g.4.one_less, d.one_more, r.no_users))
                  g.4.not_reserved)
                (λ j lt. ground (
                  arith,
                  g.4.others j,
                  d.others j,
                  reserve_name_others name w i w1 open_sem q j,
                  v.covered j,
                ));
          lost = ground (arith, g.4.lookup name, d.one_more, r.no_users, at.2);
        },
      )

  meanwhile_lem :
      (w3 : World) × (meanwhile in_memory e name obj w1 ≡ some (ok obj, w3)) × Freed name i w w3
  unfolding shobj_attach attach_in_slot
  meanwhile_lem =
      let a = attaches in let g = gives_up a.0 a.2 in (g.0, ground (arith, a.1, g.1), g.2)

-- The rest of SHOBJ_NEW on a slot that was freed in the meantime.
finishes :
    (b : Bool) (kind sz obj : ℕ) (name : List ℕ) (i : ℕ) (w w3 : World)
    → 0 < w.sem
    → Freed name i w w3
    → (w' : World) × (new_in_slot b kind sz i (ok obj) w3
        ≡ some (ok (add_book_keeping b obj i), w'))
      × ((object_at w'.mem i).count ≡ 1)
      × (find_by_name w'.mem name ≡ none)
unfolding new_in_slot inc_name_count
finishes b kind sz obj name i w w3 h f =
    let w4 : World = describe_at b kind sz i w3 in
    let lt : i < length w4.mem.objects = omega (
      arith,
      f.in_bounds,
      length-set w3.mem.objects i (described b kind sz (object_at w3.mem i)),
    ) in
    (
      record w4 { mem = inc_at w4.mem i },
      ground (
        arith,
        global_sem_wait_pos w4 (rw f.sem_back h),
        global_sem_post_after w4 (inc_at w4.mem i) (rw f.sem_back h),
      ),
      ground (
        arith,
        get_or-set w4.mem.objects i i (attached (object_at w4.mem i)) blank lt,
        get_or-set w3.mem.objects i i (described b kind sz (object_at w3.mem i)) blank f.in_bounds,
        f.no_users,
      ),
      find_by_name_beyond w4.mem i (attached (object_at w4.mem i)) name lt f.lowered
          ∙ find_by_name_beyond w3.mem i (described b kind sz (object_at w3.mem i)) name f.in_bounds
              f.lowered
          ∙ f.lost,
    )

-- On a valid registry that is open, when SHOBJ_NEW reserves a slot above every slot in use, and while
-- its system specific part runs another process attaches to the name and fails to open the object,
-- SHOBJ_NEW still returns a handle on the slot and counts one user there; but the name is not found any
-- more.
pub shobj_new_loses_name :
    (b in_memory : Bool) (kind sz obj : ℕ) (e : Errno) (name : List ℕ) (i : ℕ) (w w1 : World)
    → 0 < w.sem
    → IsValid w.mem
    → w.mem.objects_max_index < i
    → reserve_name name w ≡ some (ok i, w1)
    → (w' : World) × (shobj_new b kind sz (meanwhile in_memory e name obj) name w
        ≡ some (ok (add_book_keeping b obj i), w'))
      × ((object_at w'.mem i).count ≡ 1)
      × (find_by_name w'.mem name ≡ none)
unfolding shobj_new
shobj_new_loses_name b in_memory kind sz obj e name i w w1 h v top q =
    let m = meanwhile_lem in_memory e name obj i w w1 h v top q in
    let f = finishes b kind sz obj name i w m.0 h m.2 in
    (f.0, ground (arith, q, m.1, f.1), f.2, f.3)
