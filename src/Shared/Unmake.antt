-- ===== src/Shared/Unmake.antt =====
-- The end of an object that SHOBJ_NEW of src/new_common.c made, for any back-end's release callback.
use urt.Base.{ℕ, ◌<◌, ◌≡◌, ◌∙◌, Bool, true, some, List, ◌++◌, arith, length}
use urt.Name.{name_eq}
use urt.Name.Laws.{name_eq_refl, name_eq_iff}
use urt.Global.{Internal, World, object_at}
use urt.Registry.{find_by_name, detached, Release, released, dec_name_count}
use urt.Registry.Find.{find_by_name_congr}
use urt.Registry.Invariant.{IsValid, Taken}
use urt.Registry.Attach.{found_slot, Detached, dec_name_count-Detached}
use urt.Shared.New.{Made}

made_slot :
    (b : Bool) (kind sz : ℕ) (name : List ℕ) (w : World) (i : ℕ) (w1 : World)
    → Made b kind sz name w i w1
    → (i < length w1.mem.objects) × Taken w1.mem i × (name_eq (object_at w1.mem i).name name ≡ true)
made_slot b kind sz name w i w1 made =
    found_slot w1.mem name i made.valid (ground (arith, made.lookup name, name_eq_refl name))

-- Nothing of a new object is left once its one user has detached.
unmade :
    (b : Bool) (kind sz : ℕ) (name : List ℕ) (w : World) (i : ℕ) (w1 : World) (m' : Internal)
    → Made b kind sz name w i w1
    → Detached i w1.mem m'
    → name_eq (object_at w1.mem i).name name ≡ true
    → (other : List ℕ) → find_by_name m' other ≡ find_by_name w.mem other
unmade b kind sz name w i w1 m' made d e other = ground (
  arith,
  d.lookup other,
  made.lookup other,
  made.one_user,
  made.was_absent,
  name_eq_iff (object_at w1.mem i).name other,
  name_eq_iff (object_at w1.mem i).name name,
  name_eq_iff name other,
  find_by_name_congr w.mem name other,
)

-- A registry in which every name is found where it was in `w`, after calls of `release`.
pub record Unmade (release : Release) (w : World) (i : ℕ) (w1 w' : World) : Type 0 where
  pub valid : IsValid w'.mem
  pub sem_back : w'.sem ≡ w.sem
  pub lookup : (other : List ℕ) → find_by_name w'.mem other ≡ find_by_name w.mem other
  pub calls_made : w'.calls ≡ released release (detached (object_at w1.mem i)) ++ w1.calls

pub dec_name_count-Unmade :
    (b : Bool) (kind sz : ℕ) (name : List ℕ) (w : World) (i : ℕ) (w1 : World) (release : Release)
    → 0 < w.sem
    → Made b kind sz name w i w1
    → (w' : World) × (dec_name_count release i w1 ≡ some (tt, w')) × Unmade release w i w1 w'
dec_name_count-Unmade b kind sz name w i w1 release h made =
    let at = made_slot b kind sz name w i w1 made in
    let d = dec_name_count-Detached release i w1 (rw made.sem_back h) made.valid at.0 at.1 in
    (
      d.0,
      d.1,
      record {
        valid = d.4.valid;
        sem_back = d.2 ∙ made.sem_back;
        lookup = unmade b kind sz name w i w1 d.0.mem made d.4 at.2;
        calls_made = d.3;
      },
    )
