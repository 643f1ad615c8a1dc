-- ===== src/Processes/Safety.antt =====
-- What processes that share the registry can rely on, whatever the order of their steps, as long as
-- nobody attaches to a name while it is being made.
use urt.Base.{
  subst, ℕ, ◌+◌, ◌^◌, ◌<◌, ◌≡◌, refl, ◌⊎◌, inl, inr, Bool, true, false, none, some, List, arith,
  length, length-set,
}
use urt.Global.{World, object_at}
use urt.Registry.{find_by_name, get_object_by_name_and_inc_count}
use urt.Registry.Invariant.{IsValid}
use urt.Registry.Operations.{reserve_name-Reserves}
use urt.Registry.Attach.{Attached, get_object_by_name_and_inc_count-cases}
use urt.Shared.{describe_at, mark_at, described}
use urt.Shared.Attach.{marked, object_at-marked, mark_at-IsValid}
use urt.Shared.New.{object_at-describe_at, describe_at-IsValid}
use urt.Processes.{
  making, made, attaching, using, busy, System, Step, reserve, reserve_fails, describe, abandon,
  publish, attach, attach_fails, map_in, give_up, detach,
}
use urt.Processes.Invariant.{Inv, Change, Holds}
use urt.Processes.Facts.{refuse_facts}
use urt.Processes.Steps.{
  small, idle-Inv, reserve-Inv, attach-Inv, relabel-Inv, detach-Inv, publish-Inv,
}

-- The world does not change if the name is not found.
missed :
    (n a : ℕ) (s : System) (name : List ℕ) (w : World)
    → Inv n s
    → a < n
    → n + 1 < 2 ^ 32
    → get_object_by_name_and_inc_count name s.world ≡ some (none, w)
    → w ≡ s.world
missed n a s name w v lt few q = from (
    get_object_by_name_and_inc_count-cases name s.world (omega (arith, v.open_sem)) v.valid
      (λ j hit. small n a s v lt j few))
  where
    from :
        ((find_by_name s.world.mem name ≡ none)
            × (get_object_by_name_and_inc_count name s.world ≡ some (none, s.world)))
          ⊎ ((j : ℕ) × (w' : World) × (find_by_name s.world.mem name ≡ some j)
              × (get_object_by_name_and_inc_count name s.world ≡ some (some j, w'))
              × Attached j s.world w')
        → w ≡ s.world
    from (inl (miss, r)) = cc
    from (inr (j, w', hit, r, d)) = absurd (cc)

module _ (i : ℕ) (w : World) (lt : i < length w.mem.objects) where
  mark_at-Change : (b : Bool) → IsValid w.mem → Change w.mem (mark_at b i w).mem i
  mark_at-Change false v = record { valid = v; same_length = refl; others = λ j ne. refl }
  mark_at-Change true v = record {
    valid = mark_at-IsValid i w lt true v;
    same_length = length-set w.mem.objects i (marked i w lt);
    others = λ j ne. ground (arith, object_at-marked i w lt j);
  }

  object_at-mark_at :
      (b : Bool)
      → ((object_at (mark_at b i w).mem i).count ≡ (object_at w.mem i).count)
        × ((object_at (mark_at b i w).mem i).reserved ≡ (object_at w.mem i).reserved)
        × ((object_at (mark_at b i w).mem i).name ≡ (object_at w.mem i).name)
  object_at-mark_at false = (refl, refl, refl)
  object_at-mark_at true =
      let at = object_at-marked i w lt i in
      (ground (arith, at), ground (arith, at), ground (arith, at))

-- Every step of careful processes keeps the invariant.
pub Step-Inv : {n : ℕ} {s t : System} → n + 1 < 2 ^ 32 → Step true n s t → Inv n s → Inv n t
Step-Inv {n} {s} few (reserve a name i w lt e q et) v = rw et (reserve-Inv n a s v lt name i w e q)
Step-Inv {n} {s} few (reserve_fails a name x w lt e q et) v = rw et (
    idle-Inv n a s v lt w e (
      refuse_facts name s.world w x _
        (reserve_name-Reserves name s.world (omega (arith, v.open_sem))) q))
Step-Inv {n} {s} few (describe a name i b kind sz lt e et) v =
    let h : Holds s.world.mem (busy making name i) = subst (Holds s.world.mem) e (v.held a lt) in
    let at = object_at-describe_at b kind sz i s.world h.0 in
    rw et (
      relabel-Inv n a s v lt name i making made (describe_at b kind sz i s.world) e refl refl
        (record {
          valid = describe_at-IsValid b kind sz i s.world h.0 v.valid;
          same_length =
              length-set s.world.mem.objects i (described b kind sz (object_at s.world.mem i));
          others = λ j ne. ground (arith, at j);
        })
        (ground (arith, at i)) (ground (arith, at i)) (ground (arith, at i)))
Step-Inv {n} {s} few (abandon a name i w lt e q et) v =
    rw et (detach-Inv n a s v lt name i making e none w q)
Step-Inv {n} {s} few (publish a name i w lt e q et) v =
    rw et (publish-Inv n a s v lt name i made e w few refl q)
Step-Inv {n} {s} few (attach a name i w lt e q quiet et) v =
    rw et (attach-Inv n a s v lt name i w few e q (quiet refl))
Step-Inv {n} {s} few (attach_fails a name w lt e q et) v =
    rw et (idle-Inv n a s v lt w e (missed n a s name w v lt few q))
Step-Inv {n} {s} few (map_in a name i b lt e et) v =
    let h : Holds s.world.mem (busy attaching name i) = subst (Holds s.world.mem) e (v.held a lt) in
    let at = object_at-mark_at i s.world h.0 b in
    rw et (
      relabel-Inv n a s v lt name i attaching using (mark_at b i s.world) e refl refl
        (mark_at-Change i s.world h.0 b v.valid) at.0 at.1 at.2)
Step-Inv {n} {s} few (give_up a name i w lt e q et) v =
    rw et (detach-Inv n a s v lt name i attaching e none w q)
Step-Inv {n} {s} few (detach a name i release w lt e q et) v =
    rw et (detach-Inv n a s v lt name i using e release w q)
