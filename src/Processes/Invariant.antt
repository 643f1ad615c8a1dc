-- ===== src/Processes/Invariant.antt =====
-- What holds of the registry and of the processes that share it, between any two steps.
use urt.Base.{
  ℕ, ◌+◌, ◌<◌, ◌≡◌, refl, ◌⊎◌, inl, inr, Bool, true, false, List, ◌==◌, if◌then◌else◌, arith,
  length, Bool-cases,
}
use urt.Base.Family.{update, sum_to, sum_to-update, le-sum_to}
use urt.Name.{name_eq}
use urt.Global.{Internal, World, object_at}
use urt.Registry.{is_used}
use urt.Registry.Invariant.{IsValid, Taken}
use urt.Processes.{Role, making, made, attaching, using, Stage, idle, busy, System, moved}

abbrev pub user_bit : Role → ℕ
user_bit making = 0
user_bit made = 0
user_bit attaching = 1
user_bit using = 1

abbrev pub maker_bit : Role → ℕ
maker_bit making = 1
maker_bit made = 1
maker_bit attaching = 0
maker_bit using = 0

-- Whether an agent is a user of slot `i`, and whether it is making the object there.
abbrev pub users_in : ℕ → Stage → ℕ
users_in i idle = 0
users_in i (busy r name j) = if i == j then user_bit r else 0

abbrev pub makers_in : ℕ → Stage → ℕ
makers_in i idle = 0
makers_in i (busy r name j) = if i == j then maker_bit r else 0

abbrev pub bit : Bool → ℕ
bit true = 1
bit false = 0

-- The slot that an agent has to do with has the agent's name.
abbrev pub Holds : Internal → Stage → Type 0
Holds m idle = Unit
Holds m (busy r name i) = (i < length m.objects) × (name_eq (object_at m i).name name ≡ true)

pub record Inv (n : ℕ) (s : System) : Type 0 where
  pub valid : IsValid s.world.mem
  pub open_sem : s.world.sem ≡ 1
  pub counted : (i : ℕ) → (object_at s.world.mem i).count ≡ sum_to n (users_in i) s.stage
  pub reserving : (i : ℕ) → bit (object_at s.world.mem i).reserved ≡ sum_to n (makers_in i) s.stage
  pub alone :
      (i : ℕ) → (object_at s.world.mem i).reserved ≡ true → (object_at s.world.mem i).count ≡ 0
  pub held : (a : ℕ) → a < n → Holds s.world.mem (s.stage a)

-- A change of the registry at slot `i`.
pub record Change (m m' : Internal) (i : ℕ) : Type 0 where
  pub valid : IsValid m'
  pub same_length : length m'.objects ≡ length m.objects
  pub others : (j : ℕ) → (i == j) ≡ false → object_at m' j ≡ object_at m j

-- An agent whose stages are about slot `i` only.
abbrev pub About : ℕ → Stage → Type 0
About i idle = Unit
About i (busy r name j) = j ≡ i

About-users : (i j : ℕ) (st : Stage) → About i st → (i == j) ≡ false → users_in j st ≡ 0
About-users i j idle h ne = refl
About-users i j (busy r name k) h ne = ground arith

About-makers : (i j : ℕ) (st : Stage) → About i st → (i == j) ≡ false → makers_in j st ≡ 0
About-makers i j idle h ne = refl
About-makers i j (busy r name k) h ne = ground arith

one_bit :
    (i : ℕ) (r : Role) (name : List ℕ)
    → users_in i (busy r name i) + makers_in i (busy r name i) ≡ 1
one_bit i making name = ground arith
one_bit i made name = ground arith
one_bit i attaching name = ground arith
one_bit i using name = ground arith

-- A slot that an agent has to do with is taken.
pub busy-Taken :
    (n a : ℕ) (s : System) (r : Role) (name : List ℕ) (i : ℕ)
    → Inv n s
    → a < n
    → s.stage a ≡ busy r name i
    → Taken s.world.mem i
unfolding is_used
busy-Taken n a s r name i v lt e = ground (
  arith,
  one_bit i r name,
  v.counted i,
  v.reserving i,
  le-sum_to n (users_in i) s.stage a lt,
  le-sum_to n (makers_in i) s.stage a lt,
)

-- A step of agent `a` that is about slot `i`, and that counts the agent's change of stage there.
module _ (n a i : ℕ) (s : System) (w : World) (st : Stage) (v : Inv n s) (lt : a < n)
    (before : About i (s.stage a)) (after : About i st) (open_sem : w.sem ≡ 1)
    (c : Change s.world.mem w.mem i)
    (count_step : (object_at w.mem i).count + users_in i (s.stage a)
      ≡ (object_at s.world.mem i).count + users_in i st)
    (reserved_step : bit (object_at w.mem i).reserved + makers_in i (s.stage a)
      ≡ bit (object_at s.world.mem i).reserved + makers_in i st)
    (alone : (object_at w.mem i).reserved ≡ true → (object_at w.mem i).count ≡ 0)
    (name_kept : ((object_at w.mem i).name ≡ (object_at s.world.mem i).name)
      ⊎ (((object_at s.world.mem i).count ≡ 0) × ((object_at s.world.mem i).reserved ≡ false)))
    (own : Holds w.mem st) where
  users_kept : (j : ℕ) → (object_at w.mem j).count ≡ sum_to n (users_in j) (update s.stage a st)
  users_kept j = ground (
    arith,
    v.counted j,
    c.others j,
    sum_to-update n (users_in j) s.stage a st lt,
    About-users i j (s.stage a) before,
    About-users i j st after,
  )

  makers_kept :
      (j : ℕ) → bit (object_at w.mem j).reserved ≡ sum_to n (makers_in j) (update s.stage a st)
  makers_kept j = ground (
    arith,
    v.reserving j,
    c.others j,
    sum_to-update n (makers_in j) s.stage a st lt,
    About-makers i j (s.stage a) before,
    About-makers i j st after,
  )

  alone_kept : (j : ℕ) → (object_at w.mem j).reserved ≡ true → (object_at w.mem j).count ≡ 0
  alone_kept j r = ground (arith, c.others j, v.alone j)

  -- Another agent's slot keeps its name.
  held_other :
      (b : ℕ) (r : Role) (name : List ℕ) (j : ℕ)
      → b < n
      → s.stage b ≡ busy r name j
      → Holds s.world.mem (busy r name j)
      → Holds w.mem (busy r name j)
  unfolding is_used
  held_other b r name j ltb_b e h =
      ground (arith, busy-Taken n b s r name j v ltb_b e, c.others j, c.same_length)

  held_kept : (b : ℕ) → b < n → Holds w.mem (update s.stage a st b)
  held_kept b ltb_b = elim (Bool-cases (a == b)) [
    | inl same ↦ rw same own
    | inr other ↦ rw other (other_agent (s.stage b) refl (v.held b ltb_b))
  ]
    where
      other_agent : (x : Stage) → s.stage b ≡ x → Holds s.world.mem x → Holds w.mem x
      other_agent idle e h = tt
      other_agent (busy r name j) e h = held_other b r name j ltb_b e h

  pub keep : Inv n (moved s a w st)
  keep = record {
    valid = c.valid;
    open_sem = open_sem;
    counted = users_kept;
    reserving = makers_kept;
    alone = alone_kept;
    held = held_kept;
  }
