-- ===== src/FreeName/Fresh.antt =====
-- The names that `urt_get_free_name` of src/registry.c gives out until its counter has gone round.
use urt.Base.{
  ℕ, zero, suc, ◌+◌, ◌-◌, ◌<◌, ◌≤◌, ◌≡◌, refl, ap, ◌≢◌, true, false, none, some, Option, List, [],
  ◌∷◌, ◌==◌, if◌then◌else◌, arith, ℕ_discrete, length,
}
use native.Mathlib.Nat.{add-zero}
use urt.Name.{name_len, name_eq, head, tail}
use urt.Name.Laws.{c_str, name_eq_iff}
use urt.Global.{Errno, Internal, World, M, ◌>>=◌, global_sem_wait_pos, global_sem_post_after}
use urt.FreeName.{increment_name, done, wrapped, strncpy, get_free_name, fresh_name}
use urt.FreeName.Digits.{
  name_count, name_of, increment_name-name_of, increment_name_last, name_of_injective,
}

c_str-strncpy : (n : ℕ) (to s : List ℕ) → n ≤ length to → c_str n (strncpy n to s) ≡ c_str n s
unfolding c_str strncpy
c_str-strncpy zero to s h = refl
c_str-strncpy (suc n) [] s h = elim h [ ]
c_str-strncpy (suc n) (t ∷ ts) s h = ground (arith, c_str-strncpy n ts (tail s))

pub length-strncpy : (n : ℕ) (to s : List ℕ) → length (strncpy n to s) ≡ length to
unfolding strncpy
length-strncpy n [] s = refl
length-strncpy zero (t ∷ ts) s = refl
length-strncpy (suc n) (t ∷ ts) s =
    ap suc (length-strncpy n ts (if head s == 0 then [] else tail s))

-- The name that a caller's buffer holds when it was given the name of `n`.
unfoldable pub issued : List ℕ → ℕ → List ℕ
issued to n = strncpy name_len to (name_of n)

pub issued-c_str :
    (to : List ℕ) (n : ℕ)
    → name_len ≤ length to
    → c_str name_len (issued to n) ≡ c_str name_len (name_of n)
unfolding issued
issued-c_str to n h = c_str-strncpy name_len to (name_of n) h

-- The number after `n`, going round at 37^5.
abbrev pub next : ℕ → ℕ
next n = if n + 1 == name_count then 0 else n + 1

pub next-lt : (n : ℕ) → n < name_count → next n < name_count
next-lt n h = ground arith

pub increment_name-next :
    (n : ℕ)
    → n < name_count
    → increment_name (name_of n)
      ≡ (name_of (next n), (if n + 1 == name_count then wrapped else done))
increment_name-next n h = elim (ℕ_discrete n (name_count - 1)) [
  | yes e ↦ rw e increment_name_last
  | no ne ↦ ground (arith, increment_name-name_of n)
]

-- The registry after the name of `n` was given out.
abbrev pub advanced : Internal → ℕ → Internal
advanced m n = record m {
  next_free_name = name_of (next n);
  names_exhausted = (if n + 1 == name_count then true else false);
}

-- While the semaphore is open and the counter has not gone round, `urt_get_free_name` succeeds: the caller's buffer holds the
-- name of the counter's number, the counter moves to the next number, and is exhausted exactly after
-- the last of the 37^5 names.
pub get_free_name-fresh :
    (to : List ℕ) (w : World) (n : ℕ)
    → 0 < w.sem
    → w.mem.names_exhausted ≡ false
    → w.mem.next_free_name ≡ name_of n
    → n < name_count
    → get_free_name to w ≡ some ((none, issued to n), record w { mem = advanced w.mem n })
unfolding get_free_name fresh_name issued
get_free_name-fresh to w n h fresh e lt = ground (
  arith,
  global_sem_wait_pos w h,
  increment_name-next n lt,
  global_sem_post_after w (advanced w.mem n) h,
)

-- `k` calls whose names are dropped, and one more.
pub nth_free_name : ℕ → List ℕ → M (Option Errno × List ℕ)
nth_free_name zero to = get_free_name to
nth_free_name (suc k) to = do _ ← get_free_name to; nth_free_name k to

nth_free_name_lem :
    (k : ℕ) (to : List ℕ) (w : World) (n : ℕ)
    → 0 < w.sem
    → w.mem.names_exhausted ≡ false
    → w.mem.next_free_name ≡ name_of n
    → n + k < name_count
    → nth_free_name k to w
      ≡ some ((none, issued to (n + k)), record w { mem = advanced w.mem (n + k) })
unfolding nth_free_name
nth_free_name_lem zero to w n h fresh e lt =
    rw add-zero (get_free_name-fresh to w n h fresh e (omega arith))
nth_free_name_lem (suc k) to w n h fresh e lt =
    let w' : World = record w { mem = advanced w.mem n } in
    let not_last : (n + 1 == name_count) ≡ false = ground arith in
    let shift : n + 1 + k ≡ n + suc k = omega arith in
    let rest =
      nth_free_name_lem k to w' (n + 1) h (rw not_last refl) (rw not_last refl) (omega arith) in
    rw (get_free_name-fresh to w n h fresh e (omega arith), ◌>>=◌) (rw (← shift) rest)

issued_distinct :
    (to : List ℕ) (m n : ℕ)
    → name_len ≤ length to
    → m < name_count
    → n < name_count
    → m ≢ n
    → name_eq (issued to m) (issued to n) ≡ false
issued_distinct to m n room hm hn ne = ground (
  arith,
  name_eq_iff (issued to m) (issued to n),
  issued-c_str to m room,
  issued-c_str to n room,
  name_of_injective m n hm hn,
)

-- While the semaphore is open and the buffers have room for a name, no two calls return names that
-- `_name_eq` takes for the same, until the counter has gone round: the `i`-th and the `j`-th differ.
pub free_names_distinct :
    (i j : ℕ) (to : List ℕ) (w : World) (n : ℕ)
    → 0 < w.sem
    → w.mem.names_exhausted ≡ false
    → w.mem.next_free_name ≡ name_of n
    → n + i < name_count
    → n + j < name_count
    → i ≢ j
    → name_len ≤ length to
    → (s : List ℕ) × (t : List ℕ) × (v : World) × (u : World) × (nth_free_name i to w
        ≡ some ((none, s), v))
      × (nth_free_name j to w ≡ some ((none, t), u))
      × (name_eq s t ≡ false)
free_names_distinct i j to w n h fresh e li lj ne room = (
  issued to (n + i),
  issued to (n + j),
  record w { mem = advanced w.mem (n + i) },
  record w { mem = advanced w.mem (n + j) },
  nth_free_name_lem i to w n h fresh e li,
  nth_free_name_lem j to w n h fresh e lj,
  issued_distinct to (n + i) (n + j) room li lj (λ e. ne (omega arith)),
)
