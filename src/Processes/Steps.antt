-- ===== src/Processes/Steps.antt =====
-- Every step of careful processes keeps the invariant.
use urt.Base.{
  subst, ℕ, ◌+◌, ◌^◌, ◌<◌, ◌≤◌, ◌≡◌, refl, sym, ◌∙◌, ◌⊎◌, inl, inr, true, false, none, some, List,
  arith,
}
use urt.Base.Family.{le-sum_to, sum_to_le}
use urt.Global.{ok, World, object_at}
use urt.Registry.{
  find_by_name, reserve_name, reserve_at, inc_name_count, dec_name_count,
  get_object_by_name_and_inc_count, Release,
}
use urt.Registry.Preserve.{length-reserve_at, reserve_at-IsValid, object_at-reserve_at}
use urt.Registry.Operations.{reserve_name-Reserves}
use urt.Registry.Attach.{
  found_slot, Attached, inc_name_count-Attached, get_object_by_name_and_inc_count-cases, Detached,
  dec_name_count-Detached,
}
use urt.Processes.{Role, making, made, attaching, using, idle, busy, System, moved}
use urt.Processes.Invariant.{
  Inv, Change, Holds, About, users_in, makers_in, user_bit, maker_bit, bit, busy-Taken, keep,
}
use urt.Processes.Facts.{
  same_world, reserve_facts, free_slot, reserved_name, users_le, role_bits, users_self, makers_self,
}

module _ (n a : ℕ) (s : System) (v : Inv n s) (lt : a < n) where
  -- An agent that stays idle leaves all as it was.
  pub idle-Inv : (w : World) → s.stage a ≡ idle → w ≡ s.world → Inv n (moved s a w idle)
  idle-Inv w e ew =
      keep n a 0 s w idle v lt (rw e tt) tt (rw ew v.open_sem)
        (record { valid = rw ew v.valid; same_length = rw ew refl; others = λ j ne. rw ew refl })
        (ground arith) (ground arith) (rw ew (v.alone 0)) (inl (rw ew refl)) tt

  count_le : (i : ℕ) → (object_at s.world.mem i).count ≤ n
  count_le i =
      omega
        (arith, v.counted i, sum_to_le n (users_in i) s.stage (λ b ltb_b. users_le i (s.stage b)))

  pub small : (i : ℕ) → n + 1 < 2 ^ 32 → (object_at s.world.mem i).count + 1 < 2 ^ 32
  small i few = omega (arith, count_le i)

  -- A user more in slot `i`, where the agent was no user; if it was making the object, the slot is no
  -- longer reserved.
  Attached-Inv :
      (name : List ℕ) (i : ℕ) (r : Role) (w : World)
      → user_bit r ≡ 1
      → About i (s.stage a)
      → users_in i (s.stage a) ≡ 0
      → makers_in i (s.stage a) ≡ bit (object_at s.world.mem i).reserved
      → Holds s.world.mem (busy r name i)
      → Attached i s.world w
      → Inv n (moved s a w (busy r name i))
  Attached-Inv name i r w user about none_yet maker h d =
      let one : users_in i (busy r name i) ≡ 1 = ground (arith, users_self i r name) in
      let none_made : makers_in i (busy r name i) ≡ 0 =
        ground (arith, makers_self i r name, role_bits r) in
      let reserved : bit (object_at w.mem i).reserved ≡ 0 = rw d.not_reserved refl in
      keep n a i s w (busy r name i) v lt about refl (d.sem_back ∙ v.open_sem)
        (record { valid = d.valid; same_length = d.same_length; others = d.others })
        (omega (arith, d.one_more)) (omega arith) (λ b. absurd (ground (arith, d.not_reserved)))
        (inl d.same_name) (omega (arith, h.0, d.same_length), ground (arith, d.same_name, h.1))

  -- A reservation of a free slot by an idle agent.
  pub reserve-Inv :
      (name : List ℕ) (i : ℕ) (w : World)
      → s.stage a ≡ idle
      → reserve_name name s.world ≡ some (ok i, w)
      → Inv n (moved s a w (busy making name i))
  reserve-Inv name i w e q =
      let f =
        reserve_facts name s.world w i (reserve_name name s.world)
          (reserve_name-Reserves name s.world (omega (arith, v.open_sem))) q in
      let m' = reserve_at s.world.mem i name in
      let at = object_at-reserve_at s.world.mem i name f.1 in
      let free = free_slot (object_at s.world.mem i) f.2 in
      rw f.3 (
        keep n a i s (record (s.world) { mem = m' }) (busy making name i) v lt (rw e tt) refl
          v.open_sem
          (record {
            valid = reserve_at-IsValid s.world.mem i name f.1 v.valid f.0;
            same_length = length-reserve_at s.world.mem i name f.1;
            others = λ j ne. ground (arith, at j);
          })
          (rw e (ground (arith, at i))) (rw e (ground (arith, at i))) (λ b. ground (arith, at i))
          (inr (free.0, free.1))
          (
            omega (arith, f.1, length-reserve_at s.world.mem i name f.1),
            ground (arith, at i, reserved_name name),
          ))

  -- An idle agent attaches to a slot that nobody is making.
  pub attach-Inv :
      (name : List ℕ) (i : ℕ) (w : World)
      → n + 1 < 2 ^ 32
      → s.stage a ≡ idle
      → get_object_by_name_and_inc_count name s.world ≡ some (some i, w)
      → (object_at s.world.mem i).reserved ≡ false
      → Inv n (moved s a w (busy attaching name i))
  attach-Inv name i w few e q unreserved = from (
      get_object_by_name_and_inc_count-cases name s.world (omega (arith, v.open_sem)) v.valid
        (λ j hit. small j few))
    where
      from :
          ((find_by_name s.world.mem name ≡ none)
              × (get_object_by_name_and_inc_count name s.world ≡ some (none, s.world)))
            ⊎ ((j : ℕ) × (w' : World) × (find_by_name s.world.mem name ≡ some j)
                × (get_object_by_name_and_inc_count name s.world ≡ some (some j, w'))
                × Attached j s.world w')
          → Inv n (moved s a w (busy attaching name i))
      from (inl (miss, r)) = absurd (cc)
      from (inr (j, w', hit, r, d)) =
          let ei : j ≡ i = cc in
          let ew : w' ≡ w = cc in
          let slot = found_slot s.world.mem name j v.valid hit in
          let d' : Attached i s.world w =
            subst (λ x. Attached i s.world x) ew (subst (λ k. Attached k s.world w') ei d) in
          Attached-Inv name i attaching w refl (rw e tt) (rw e refl) (rw (e, unreserved) refl)
            (subst (λ k. Holds s.world.mem (busy attaching name k)) ei (slot.0, slot.2)) d'

  -- A change of an object's other fields by the agent that has to do with it.
  pub relabel-Inv :
      (name : List ℕ) (i : ℕ) (r r' : Role) (w : World)
      → s.stage a ≡ busy r name i
      → user_bit r ≡ user_bit r'
      → w.sem ≡ s.world.sem
      → Change s.world.mem w.mem i
      → (object_at w.mem i).count ≡ (object_at s.world.mem i).count
      → (object_at w.mem i).reserved ≡ (object_at s.world.mem i).reserved
      → (object_at w.mem i).name ≡ (object_at s.world.mem i).name
      → Inv n (moved s a w (busy r' name i))
  relabel-Inv name i r r' w e same es c cnt res nm =
      let h : Holds s.world.mem (busy r name i) = subst (Holds s.world.mem) e (v.held a lt) in
      let b : user_bit r + maker_bit r ≡ 1 = role_bits r in
      let b' : user_bit r' + maker_bit r' ≡ 1 = role_bits r' in
      keep n a i s w (busy r' name i) v lt (rw e refl) refl (es ∙ v.open_sem) c
        (ground (arith, users_self i r name, users_self i r' name))
        (ground (arith, makers_self i r name, makers_self i r' name))
        (λ q. cnt ∙ v.alone i (sym res ∙ q)) (inl nm)
        (omega (arith, h.0, c.same_length), ground (arith, nm, h.1))

  module _ (name : List ℕ) (i : ℕ) (r : Role) (e : s.stage a ≡ busy r name i) where
    holding : Holds s.world.mem (busy r name i)
    holding = subst (Holds s.world.mem) e (v.held a lt)

    users_here : users_in i (s.stage a) ≡ user_bit r
    users_here = rw e (users_self i r name)

    makers_here : makers_in i (s.stage a) ≡ maker_bit r
    makers_here = rw e (makers_self i r name)

    user_counted : user_bit r ≤ (object_at s.world.mem i).count
    user_counted = omega (arith, users_here, v.counted i, le-sum_to n (users_in i) s.stage a lt)

    maker_counted : maker_bit r ≤ bit (object_at s.world.mem i).reserved
    maker_counted =
        omega (arith, makers_here, v.reserving i, le-sum_to n (makers_in i) s.stage a lt)

    Detached-Inv :
        (w : World) → w.sem ≡ s.world.sem → Detached i s.world.mem w.mem → Inv n (moved s a w idle)
    Detached-Inv w es d =
        let bits = role_bits r in
        let only : (object_at s.world.mem i).reserved ≡ true → (object_at s.world.mem i).count ≡ 0 =
          v.alone i in
        let less = d.one_less in
        let not_reserved = d.not_reserved in
        keep n a i s w idle v lt (rw e refl) tt (es ∙ v.open_sem)
          (record { valid = d.valid; same_length = d.same_length; others = d.others })
          (ground (arith, users_here, user_counted, maker_counted))
          (ground (arith, makers_here, user_counted, maker_counted))
          (λ b. absurd (ground (arith, not_reserved))) (inl d.same_name) tt

    -- Taking a user off slot `i`, or the reservation.
    pub detach-Inv :
        (release : Release) (w : World)
        → dec_name_count release i s.world ≡ some (tt, w)
        → Inv n (moved s a w idle)
    detach-Inv release w q =
        let u = busy-Taken n a s r name i v lt e in
        let d =
          dec_name_count-Detached release i s.world (omega (arith, v.open_sem)) v.valid holding.0
            u in
        subst (λ x. Inv n (moved s a x idle)) (same_world (dec_name_count release i s.world) d.1 q)
          (Detached-Inv d.0 d.2 d.4)

    pub publish-Inv :
        (w : World)
        → n + 1 < 2 ^ 32
        → r ≡ made
        → inc_name_count i s.world ≡ some (tt, w)
        → Inv n (moved s a w (busy using name i))
    publish-Inv w few q eq =
        let u = busy-Taken n a s r name i v lt e in
        let users_none : user_bit r ≡ 0 = rw q refl in
        let maker : maker_bit r ≡ 1 = rw q refl in
        let d =
          inc_name_count-Attached i s.world (omega (arith, v.open_sem)) v.valid holding.0 u
            (small i few) in
        subst (λ x. Inv n (moved s a x (busy using name i)))
          (same_world (inc_name_count i s.world) d.1 eq)
          (Attached-Inv name i using d.0 refl (rw e refl) (users_here ∙ users_none)
            (makers_here ∙ ground (arith, maker_counted, maker)) holding d.2)
