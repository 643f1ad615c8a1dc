-- ===== src/FreeName/Exhausted.antt =====
-- `urt_get_free_name` of src/registry.c once its counter has gone round: it looks for a name that is
-- not in the registry, and finds one.
use urt.Base.{
  ℕ, zero, suc, ◌+◌, ◌-◌, ◌<◌, ◌≤◌, ◌≡◌, refl, sym, ap, ◌∙◌, ◌≢◌, inl, inr, true, false, none, some,
  Option, List, ltb, if◌then◌else◌, arith, length, Bool-cases, Option-cases,
}
use urt.Base.Pigeon.{pigeonhole}
use urt.Name.{name_len}
use urt.Name.Laws.{c_str, name_eq_iff}
use urt.Global.{Internal, World, object_at, global_sem_wait_pos, global_sem_post_after}
use urt.Registry.{find_by_name}
use urt.Registry.Find.{find_by_name_congr, find_by_name_counter}
use urt.Registry.Invariant.{IsValid, key}
use urt.Registry.Attach.{found_slot}
use urt.FreeName.{is_found, check_and_get_free_name, get_free_name, exhausted_name}
use urt.FreeName.Digits.{name_count, name_of, name_of_injective}
use urt.FreeName.Fresh.{issued, issued-c_str, length-strncpy, next, next-lt, increment_name-next}

-- The number `k` steps after `n`.
abbrev pub ahead : ℕ → ℕ → ℕ
ahead zero n = n
ahead (suc k) n = ahead k (next n)

ahead_closed :
    (k n : ℕ)
    → n < name_count
    → k ≤ name_count
    → ahead k n ≡ (if ltb (n + k) name_count then n + k else n + k - name_count)
ahead_closed zero n h hk = ground arith
ahead_closed (suc k) n h hk = ground (arith, ahead_closed k (next n), next-lt n h)

pub ahead-lt : (k n : ℕ) → n < name_count → ahead k n < name_count
ahead-lt zero n h = h
ahead-lt (suc k) n h = ahead-lt k (next n) (next-lt n h)

ahead_injective :
    (i j n : ℕ) → n < name_count → i < name_count → j < name_count → ahead i n ≡ ahead j n → i ≡ j
ahead_injective i j n h hi hj e = ground (arith, ahead_closed i n, ahead_closed j n)

-- The world after the name of `n` was tried.
abbrev tried : World → ℕ → World
tried w n = record w { mem = record (w.mem) { next_free_name = name_of (next n) } }

round_lem :
    (fuel : ℕ) (to : List ℕ) (w : World) (n : ℕ)
    → n < name_count
    → name_len ≤ length to
    → w.mem.next_free_name ≡ name_of n
    → check_and_get_free_name (suc fuel) to w ≡ (
        if is_found (find_by_name w.mem (name_of n))
        then check_and_get_free_name fuel (issued to n) (tried w n)
        else some (issued to n, tried w n))
unfolding check_and_get_free_name issued
round_lem fuel to w n lt room e = ground (
  arith,
  increment_name-next n lt,
  find_by_name_counter w.mem (name_of (next n)) (issued to n),
  find_by_name_congr w.mem (issued to n) (name_of n) (issued-c_str to n room),
)

length-issued : (to : List ℕ) (n : ℕ) → length (issued to n) ≡ length to
unfolding issued
length-issued to n = length-strncpy name_len to (name_of n)

-- If the rounds run out, every name that was tried is in the registry.
all_found :
    (fuel : ℕ) (to : List ℕ) (w : World) (n : ℕ)
    → n < name_count
    → name_len ≤ length to
    → w.mem.next_free_name ≡ name_of n
    → check_and_get_free_name fuel to w ≡ none
    → (k : ℕ) → k < fuel
    → is_found (find_by_name w.mem (name_of (ahead k n))) ≡ true
all_found zero to w n lt room e h k hk = elim hk [ ]
all_found (suc fuel) to w n lt room e h zero hk = ground (arith, round_lem fuel to w n lt room e)
all_found (suc fuel) to w n lt room e h (suc k) hk =
    let rest : check_and_get_free_name fuel (issued to n) (tried w n) ≡ none =
      ground (arith, round_lem fuel to w n lt room e) in
    ap is_found (sym (find_by_name_counter w.mem (name_of (next n)) (name_of (ahead k (next n)))))
    ∙ all_found fuel (issued to n) (tried w n) (next n) (next-lt n lt)
        (rw (length-issued to n) room) refl rest k (omega arith)

-- What the loop returns: a name that is not in the registry, with the counter moved on.
pub record Unused (w : World) (s : List ℕ) (w' : World) : Type 0 where
  pub counter : ℕ
  pub counter_lt : counter < name_count
  pub moved : w' ≡ record w { mem = record (w.mem) { next_free_name = name_of counter } }
  pub absent : find_by_name w.mem s ≡ none
  pub number : ℕ
  pub number_lt : number < name_count
  pub spelt : c_str name_len s ≡ c_str name_len (name_of number)

result_lem :
    (fuel : ℕ) (to : List ℕ) (w : World) (n : ℕ) (s : List ℕ) (w' : World)
    → n < name_count
    → name_len ≤ length to
    → w.mem.next_free_name ≡ name_of n
    → check_and_get_free_name fuel to w ≡ some (s, w')
    → Unused w s w'
unfolding check_and_get_free_name
result_lem zero to w n s w' lt room e h = absurd (cc)
result_lem (suc fuel) to w n s w' lt room e h =
    elim (Bool-cases (is_found (find_by_name w.mem (name_of n)))) [
      | inl found ↦
          let u =
            result_lem fuel (issued to n) (tried w n) (next n) s w' (next-lt n lt)
              (rw (length-issued to n) room) refl
              (ground (arith, round_lem fuel to w n lt room e)) in
          record {
            counter = u.counter;
            counter_lt = u.counter_lt;
            moved = u.moved;
            absent = sym (find_by_name_counter w.mem (name_of (next n)) s) ∙ u.absent;
            number = u.number;
            number_lt = u.number_lt;
            spelt = u.spelt;
          }
      | inr unused ↦
          let es : s ≡ issued to n = ground (arith, round_lem fuel to w n lt room e) in
          let ew : w' ≡ tried w n = ground (arith, round_lem fuel to w n lt room e) in
          record {
            counter = next n;
            counter_lt = next-lt n lt;
            moved = ew;
            absent = rw es (
                find_by_name_congr w.mem (issued to n) (name_of n) (issued-c_str to n room)
                ∙ not_found (find_by_name w.mem (name_of n)) unused);
            number = n;
            number_lt = lt;
            spelt = rw es (issued-c_str to n room);
          }
    ]
  where
    not_found : (o : Option ℕ) → is_found o ≡ false → o ≡ none
    not_found none q = refl
    not_found (some i) q = absurd (cc)

-- The slot at which the `k`-th name that is tried is found.
slot_of : Option ℕ → ℕ
slot_of none = 0
slot_of (some i) = i

some_slot : (o : Option ℕ) → is_found o ≡ true → o ≡ some (slot_of o)
unfolding slot_of
some_slot none h = absurd (cc)
some_slot (some i) h = refl

-- Not every name can be in the registry: there are more names to try than slots.
enough :
    (to : List ℕ) (w : World) (n fuel : ℕ)
    → n < name_count
    → name_len ≤ length to
    → w.mem.next_free_name ≡ name_of n
    → IsValid w.mem
    → length w.mem.objects < fuel
    → length w.mem.objects < name_count
    → check_and_get_free_name fuel to w ≢ none
enough to w n fuel lt room e v more few h = pigeonhole (length w.mem.objects) slot below injective
  where
    name : ℕ → List ℕ
    name k = name_of (ahead k n)

    slot : ℕ → ℕ
    slot k = slot_of (find_by_name w.mem (name k))

    found : (k : ℕ) → k ≤ length w.mem.objects → find_by_name w.mem (name k) ≡ some (slot k)
    found k hk = some_slot _ (all_found fuel to w n lt room e h k (omega arith))

    at : (k : ℕ) → k ≤ length w.mem.objects → key w.mem (slot k) ≡ c_str name_len (name k)
    at k hk =
        (name_eq_iff (object_at w.mem (slot k)).name (name k)).0
          (found_slot w.mem (name k) (slot k) v (found k hk)).2

    below : (k : ℕ) → k ≤ length w.mem.objects → slot k < length w.mem.objects
    below k hk = (found_slot w.mem (name k) (slot k) v (found k hk)).0

    injective :
        (i j : ℕ) → i ≤ length w.mem.objects → j ≤ length w.mem.objects → slot i ≡ slot j → i ≡ j
    injective i j hi hj q = ahead_injective i j n lt (omega arith) (omega arith) (
        name_of_injective (ahead i n) (ahead j n) (ahead-lt i n lt) (ahead-lt j n lt)
          (sym (at i hi) ∙ ap (key w.mem) q ∙ at j hj))

-- On a valid registry whose semaphore is open, once its counter has gone round `urt_get_free_name`
-- still returns, as long as there are fewer objects than the 37^5 names, and the buffer has room: with success, with the semaphore given back, and with the name of a
-- number that is not in the registry.
pub get_free_name-exhausted :
    (to : List ℕ) (w : World) (n : ℕ)
    → 0 < w.sem
    → IsValid w.mem
    → w.mem.names_exhausted ≡ true
    → w.mem.next_free_name ≡ name_of n
    → n < name_count
    → length w.mem.objects < name_count
    → name_len ≤ length to
    → (s : List ℕ) × (w' : World) × (get_free_name to w ≡ some ((none, s), w')) × Unused w s w'
unfolding get_free_name exhausted_name
get_free_name-exhausted to w n h v used e lt few room =
    elim (Option-cases (check_and_get_free_name (length w.mem.objects + 2) to inside)) [
      | inl out ↦
          absurd (enough to inside n (length w.mem.objects + 2) lt room e v (omega arith) few out)
      | inr ((s, u), r) ↦
          let un = result_lem (length w.mem.objects + 2) to inside n s u lt room e r in
          let m' : Internal = record (w.mem) { next_free_name = name_of un.counter } in
          (
            s,
            record w { mem = m' },
            ground (arith, global_sem_wait_pos w h, un.moved, global_sem_post_after w m' h),
            record {
              counter = un.counter;
              counter_lt = un.counter_lt;
              moved = refl;
              absent = un.absent;
              number = un.number;
              number_lt = un.number_lt;
              spelt = un.spelt;
            },
          )
    ]
  where
    inside : World
    inside = record w { sem = w.sem - 1 }
