-- ===== src/Registry/Order.antt =====
-- Two processes that attach one after the other, src/registry.c: the order does not matter.
use urt.Base.{
  ℕ, zero, suc, ◌+◌, ◌^◌, ◌<◌, ◌≡◌, refl, ap, ◌∙◌, subst, inl, inr, Option, some, List, [], ◌∷◌,
  ◌==◌, if◌then◌else◌, arith, length, get_or, set, get_or-set, length-set, Bool-cases, ==_iff,
}
use urt.Global.{
  Object, Internal, World, M, blank, object_at, ◌>>=◌, pure, global_sem_wait_pos,
  global_sem_post_after,
}
use urt.Registry.{find_by_name, inc_at, attached, get_object_by_name_and_inc_count}
use urt.Registry.Invariant.{IsValid}
use urt.Registry.Attach.{found_slot, Attached, get_object_by_name_and_inc_count-Attached}

-- Attaching by two names, one after the other, and the slots that are found.
abbrev pub attach_both : List ℕ → List ℕ → M (Option ℕ × Option ℕ)
attach_both a b = get_object_by_name_and_inc_count a >>= λ r.
    get_object_by_name_and_inc_count b >>= λ s. pure (r, s)

-- One more user in slot `i` of a list of objects.
abbrev one_more : List Object → ℕ → List Object
one_more xs i = set xs i (attached (get_or xs i blank))

one_more_comm :
    (xs : List Object) (i j : ℕ) → one_more (one_more xs i) j ≡ one_more (one_more xs j) i
one_more_comm [] i j = refl
one_more_comm (x ∷ xs) zero zero = refl
one_more_comm (x ∷ xs) zero (suc j) = refl
one_more_comm (x ∷ xs) (suc i) zero = refl
one_more_comm (x ∷ xs) (suc i) (suc j) = ap (◌∷◌ x) (one_more_comm xs i j)

inc_at_comm : (m : Internal) (i j : ℕ) → inc_at (inc_at m i) j ≡ inc_at (inc_at m j) i
inc_at_comm m i j = ap (λ xs. record m { objects = xs }) (one_more_comm m.objects i j)

attach_hit :
    (name : List ℕ) (i : ℕ) (w : World)
    → 0 < w.sem
    → find_by_name w.mem name ≡ some i
    → get_object_by_name_and_inc_count name w ≡ some (some i, record w { mem = inc_at w.mem i })
unfolding get_object_by_name_and_inc_count
attach_hit name i w h hit =
    ground (arith, hit, global_sem_wait_pos w h, global_sem_post_after w (inc_at w.mem i) h)

abbrev pub same : ℕ → ℕ → ℕ
same i k = if i == k then 1 else 0

count-inc_at :
    (m : Internal) (i k : ℕ)
    → i < length m.objects
    → (object_at m i).count + 1 < 2 ^ 32
    → (object_at (inc_at m i) k).count ≡ (object_at m k).count + same i k
count-inc_at m i k lt room =
    let at = get_or-set m.objects i k (attached (object_at m i)) blank lt in
    elim (Bool-cases (i == k)) [
      | inr ne ↦ rw (at, ne) (omega arith)
      | inl e ↦ let ek : i ≡ k = (==_iff i k).0 e in rw (at, e) (rw (← ek) (ground arith))
    ]

module _ (a b : List ℕ) (i j : ℕ) (w : World) (h : 0 < w.sem) (v : IsValid w.mem)
    (found_a : find_by_name w.mem a ≡ some i) (found_b : find_by_name w.mem b ≡ some j)
    (room_a : (object_at w.mem i).count + 2 < 2 ^ 32)
    (room_b : (object_at w.mem j).count + 2 < 2 ^ 32) where
  abbrev after_both : World
  after_both = record w { mem = inc_at (inc_at w.mem i) j }

  first :
      (w1 : World) × (get_object_by_name_and_inc_count a w ≡ some (some i, w1)) × Attached i w w1
  first = get_object_by_name_and_inc_count-Attached a i w h v found_a (omega (arith))

  first_world : first.0 ≡ record w { mem = inc_at w.mem i }
  first_world = ground (arith, first.1, attach_hit a i w h found_a)

  still_b : find_by_name (inc_at w.mem i) b ≡ some j
  still_b = subst (λ u. find_by_name u.mem b ≡ some j) first_world (first.2.lookup b ∙ found_b)

  attach_both_lem : attach_both a b w ≡ some ((some i, some j), after_both)
  attach_both_lem =
      let w1 : World = record w { mem = inc_at w.mem i } in
      ground (arith, attach_hit a i w h found_a, attach_hit b j w1 h still_b)

  both_counted :
      (k : ℕ) → (object_at after_both.mem k).count ≡ (object_at w.mem k).count + same i k + same j k
  both_counted k =
      let lt = (found_slot w.mem a i v found_a).0 in
      let ltb = (found_slot w.mem b j v found_b).0 in
      let once = count-inc_at w.mem i j lt (omega arith) in
      let le : (object_at (inc_at w.mem i) j).count + 1 < 2 ^ 32 = ground (arith, once) in
      omega (
        arith,
        count-inc_at w.mem i k lt (omega arith),
        count-inc_at (inc_at w.mem i) j k
            (rw (length-set w.mem.objects i (attached (object_at w.mem i))) ltb) le,
      )

  both_found : (name : List ℕ) → find_by_name after_both.mem name ≡ find_by_name w.mem name
  both_found name =
      let w1 : World = record w { mem = inc_at w.mem i } in
      let d : Attached i w w1 = subst (Attached i w) first_world first.2 in
      let le : (object_at w1.mem j).count + 1 < 2 ^ 32 =
        ground (arith, count-inc_at w.mem i j (found_slot w.mem a i v found_a).0 (omega arith)) in
      let second = get_object_by_name_and_inc_count-Attached b j w1 h d.valid still_b le in
      let at : second.0 ≡ after_both = ground (arith, second.1, attach_hit b j w1 h still_b) in
      subst (λ u. find_by_name u.mem name ≡ find_by_name w1.mem name) at (second.2.lookup name)
      ∙ d.lookup name

module _ (a b : List ℕ) (i j : ℕ) (w : World) (h : 0 < w.sem) (v : IsValid w.mem)
    (found_a : find_by_name w.mem a ≡ some i) (found_b : find_by_name w.mem b ≡ some j)
    (room_a : (object_at w.mem i).count + 2 < 2 ^ 32)
    (room_b : (object_at w.mem j).count + 2 < 2 ^ 32) where
  -- On a valid registry that is open, for two names that are found, of the same slot or of two, with room
  -- for two users each in their 32-bit counters, two processes that attach, one to each name, are given
  -- these slots and leave the same world, whichever of them comes first: a slot has one user more for
  -- each of the names that is found there, every other slot as many as before, and every name is found
  -- where it was.
  pub attach_comm :
      (w2 : World) × (attach_both a b w ≡ some ((some i, some j), w2))
      × (attach_both b a w ≡ some ((some j, some i), w2))
      × (w2.sem ≡ w.sem)
      × ((k : ℕ) → (object_at w2.mem k).count ≡ (object_at w.mem k).count + same i k + same j k)
      × ((name : List ℕ) → find_by_name w2.mem name ≡ find_by_name w.mem name)
  attach_comm = (
    record w { mem = inc_at (inc_at w.mem i) j },
    attach_both_lem a b i j w h v found_a found_b room_a room_b,
    attach_both_lem b a j i w h v found_b found_a room_b room_a
        ∙ ap (λ m. some ((some j, some i), record w { mem = m })) (inc_at_comm w.mem j i),
    refl,
    both_counted a b i j w h v found_a found_b room_a room_b,
    both_found a b i j w h v found_a found_b room_a room_b,
  )
