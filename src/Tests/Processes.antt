-- ===== src/Tests/Processes.antt =====
-- Instances for the processes that share the registry.
use urt.Base.{ℕ, ◌<◌, suc, ◌≡◌, refl, inl, true, false, none, some, List, [], ◌∷◌, arith}
use urt.Name.{name_eq, name_cpy}
use urt.Global.{Internal, World, ok, enoent, blank, object_at, global_sem_wait, global_sem_post}
use urt.Registry.{
  is_used, free_index, find_by_name, reserve_name, inc_name_count, get_object_by_name_and_inc_count,
  reserve_at, inc_at, dec_name_count, detach_at, dec_count_common, lower, settle,
  internal_mem_check, mem_check_from,
}
use urt.Shared.{shobj_new, add_book_keeping, describe_at}
use urt.Tests.Registry.{start, two_slots, two_slots-IsValid, name_b, with_b, reserve_b}
use urt.Processes.{
  idle, busy, making, made, attaching, using, System, moved, reserve, describe, publish, attach,
  give_up, detach, Reach, here, later,
}
use urt.Processes.Progress.{NextReturns, Reach-NextReturns}
use urt.Processes.Runs.{Fresh, Reach-no_leak}
use urt.Processes.Race.{meanwhile, shobj_new_loses_name}

abbrev no_names : Internal
no_names = record two_slots { objects = blank ∷ blank ∷ [] }

abbrev opened : World
opened = record start { mem = no_names }

opened-Fresh : Fresh opened
unfolding is_used
opened-Fresh = record {
  valid = record {
    in_bounds = omega arith;
    covered = λ j h. free j;
    tight = inl refl;
    unique = λ i j hi hj e. absurd (ground (arith, free i));
  };
  open_sem = refl;
  empty = free;
}
  where
    free : (j : ℕ) → is_used (object_at no_names j) ≡ false
    free ℕ.zero = refl
    free (suc ℕ.zero) = refl
    free (suc (suc j)) = refl

-- Agent 0 makes an object and uses it; agent 1 attaches to it.
abbrev reserved_b : World
reserved_b = record opened { mem = reserve_at no_names 0 name_b }

abbrev described_b : World
described_b = describe_at true 1 8 0 reserved_b

abbrev published_b : World
published_b = record described_b { mem = inc_at described_b.mem 0 }

abbrev attached_b : World
attached_b = record published_b { mem = inc_at published_b.mem 0 }

abbrev s0 : System
s0 = record { world = opened; stage = λ a. idle }

abbrev s1 : System
s1 = moved s0 0 reserved_b (busy making name_b 0)

abbrev s2 : System
s2 = moved s1 0 described_b (busy made name_b 0)

abbrev s3 : System
s3 = moved s2 0 published_b (busy using name_b 0)

abbrev s4 : System
s4 = moved s3 1 attached_b (busy attaching name_b 0)

reserve_step : reserve_name name_b opened ≡ some (ok 0, reserved_b)
unfolding reserve_name global_sem_wait global_sem_post find_by_name free_index reserve_at name_eq
    name_cpy is_used
reserve_step = refl

publish_step : inc_name_count 0 described_b ≡ some (tt, published_b)
unfolding inc_name_count global_sem_wait global_sem_post reserve_at
publish_step = refl

attach_step : get_object_by_name_and_inc_count name_b published_b ≡ some (some 0, attached_b)
unfolding get_object_by_name_and_inc_count global_sem_wait global_sem_post find_by_name name_eq
    name_cpy is_used reserve_at
attach_step = refl

settled : (object_at published_b.mem 0).reserved ≡ false
unfolding reserve_at
settled = refl

run : Reach true 2 opened s4
run =
    later
      (later
        (later
          (later (here refl) (reserve 0 name_b 0 reserved_b (omega arith) refl reserve_step refl))
          (describe 0 name_b 0 true 1 8 (omega arith) refl refl))
        (publish 0 name_b 0 published_b (omega arith) refl publish_step refl))
      (attach 1 name_b 0 attached_b (omega arith) refl attach_step (λ c. settled) refl)

Reach-NextReturns_example : NextReturns s4.world (s4.stage 1)
Reach-NextReturns_example =
    Reach-NextReturns 2 opened (omega arith) opened-Fresh s4 1 run (omega arith)

-- Then agent 1 gives up, and agent 0 detaches.
abbrev left_b : World
left_b = record attached_b { mem = detach_at attached_b.mem 0 }

abbrev gone_b : World
gone_b = record left_b { mem = detach_at left_b.mem 0 }

abbrev s5 : System
s5 = moved s4 1 left_b idle

abbrev s6 : System
s6 = moved s5 0 gone_b idle

give_up_step : dec_name_count none 0 attached_b ≡ some (tt, left_b)
unfolding dec_name_count global_sem_wait global_sem_post dec_count_common reserve_at
give_up_step = refl

detach_step : dec_name_count none 0 left_b ≡ some (tt, gone_b)
unfolding dec_name_count global_sem_wait global_sem_post dec_count_common reserve_at settle
    internal_mem_check mem_check_from lower is_used
detach_step = refl

whole_run : Reach true 2 opened s6
whole_run =
    later (later run (give_up 1 name_b 0 left_b (omega arith) refl give_up_step refl))
      (detach 0 name_b 0 none gone_b (omega arith) refl detach_step refl)

all_idle : (a : ℕ) → a < 2 → s6.stage a ≡ idle
all_idle ℕ.zero lt = refl
all_idle (suc ℕ.zero) lt = refl
all_idle (suc (suc a)) lt = absurd (omega arith)

Reach-no_leak_example :
    ((i : ℕ) → is_used (object_at s6.world.mem i) ≡ false)
    × ((name : List ℕ) → find_by_name s6.world.mem name ≡ none)
Reach-no_leak_example = Reach-no_leak 2 opened (omega arith) opened-Fresh s6 whole_run all_idle

shobj_new_loses_name_example :
    (w' : World) × (shobj_new true 1 8 (meanwhile true enoent name_b 4096) name_b start
      ≡ some (ok (add_book_keeping true 4096 1), w'))
    × ((object_at w'.mem 1).count ≡ 1)
    × (find_by_name w'.mem name_b ≡ none)
shobj_new_loses_name_example =
    shobj_new_loses_name true true 1 8 4096 enoent name_b 1 start with_b (omega arith)
      two_slots-IsValid (omega arith) reserve_b
