-- ===== src/Processes/Runs.antt =====
-- The states that careful processes reach with src/new_common.c: whom the counters of the slots count,
-- and what the names of the registry mean.
use urt.Base.{ℕ, ◌+◌, ◌^◌, ◌<◌, ◌≡◌, refl, true, false, none, List, arith}
use urt.Base.Family.{sum_to-zero}
use urt.Global.{World, object_at}
use urt.Registry.{is_used, find_by_name}
use urt.Registry.Invariant.{IsValid, find_by_name_of_no_key}
use urt.Processes.{idle, System, Reach, here, later}
use urt.Processes.Invariant.{Inv, users_in, makers_in}
use urt.Processes.Safety.{Step-Inv}

-- A registry that is set up, open, and of which no name is taken.
pub record Fresh (w : World) : Type 0 where
  pub valid : IsValid w.mem
  pub open_sem : w.sem ≡ 1
  pub empty : (i : ℕ) → is_used (object_at w.mem i) ≡ false

unused :
    (w : World) (i : ℕ)
    → is_used (object_at w.mem i) ≡ false
    → ((object_at w.mem i).count ≡ 0) × ((object_at w.mem i).reserved ≡ false)
unfolding is_used
unused w i h = ground arith

module _ (n : ℕ) (w : World) (few : n + 1 < 2 ^ 32) (fresh : Fresh w) where
  start-Inv : Inv n (record { world = w; stage = λ a. idle })
  start-Inv = record {
    valid = fresh.valid;
    open_sem = fresh.open_sem;
    counted = λ i.
        ground (
          arith,
          unused w i (fresh.empty i),
          sum_to-zero n (users_in i) (λ a. idle) (λ a lt. refl),
        );
    reserving = λ i.
        ground (
          arith,
          unused w i (fresh.empty i),
          sum_to-zero n (makers_in i) (λ a. idle) (λ a lt. refl),
        );
    alone = λ i r. (unused w i (fresh.empty i)).0;
    held = λ a lt. tt;
  }

  pub Reach-Inv : {s : System} → Reach true n w s → Inv n s
  Reach-Inv (here e) = rw e start-Inv
  Reach-Inv (later r step) = Step-Inv few step (Reach-Inv r)

  none_taken :
      (s : System)
      → Inv n s
      → ((a : ℕ) → a < n → s.stage a ≡ idle)
      → (i : ℕ) → is_used (object_at s.world.mem i) ≡ false
  unfolding is_used
  none_taken s v quiet i = ground (
    arith,
    v.counted i,
    v.reserving i,
    sum_to-zero n (users_in i) s.stage (λ a lt. rw (quiet a lt) refl),
    sum_to-zero n (makers_in i) s.stage (λ a lt. rw (quiet a lt) refl),
  )

  -- While fewer than 2^32 - 1 agents share a registry of which no name was taken at first, and nobody
  -- attaches to a name that is being made, whenever every agent is idle again no slot is taken and no
  -- name is found: nothing leaks, whichever calls failed on the way.
  pub Reach-no_leak :
      (s : System)
      → Reach true n w s
      → ((a : ℕ) → a < n → s.stage a ≡ idle)
      → ((i : ℕ) → is_used (object_at s.world.mem i) ≡ false)
        × ((name : List ℕ) → find_by_name s.world.mem name ≡ none)
  Reach-no_leak s t quiet = (
    free,
    λ name. find_by_name_of_no_key s.world.mem name (λ j u e. absurd (ground (arith, free j))),
  )
    where
      free : (i : ℕ) → is_used (object_at s.world.mem i) ≡ false
      free = none_taken s (Reach-Inv t) quiet
