-- ===== src/Dump/Listing.antt =====
-- What `urt_print_names` of src/registry.c shows of the registry.
use urt.Base.{
  ℕ, zero, suc, ◌+◌, ◌^◌, ◌<◌, ◌≤◌, ◌≡◌, true, Option, none, some, List, [], ◌∷◌, ◌==◌, ◌&&◌, ltb,
  leb, if◌then◌else◌, length, get_or, arith, Bool-cases, inl, inr,
}
use urt.Global.{Object, blank, World, object_at, global_sem_wait_pos, global_sem_post_after}
use urt.Registry.{is_used}
use urt.Dump.{Line, lines_from, listed, print_names, net_size}

-- The first line of an index.
abbrev pub line_of : List Line → ℕ → Option Line
line_of [] j = none
line_of (l ∷ ls) j = if l.index == j then some l else line_of ls j

-- The indexes go up, from `i` on.
abbrev pub Ascending : ℕ → List Line → Type 0
Ascending i [] = Unit
Ascending i (l ∷ ls) = (i ≤ l.index) × Ascending (l.index + 1) ls

-- The line of a slot.
abbrev pub line_at : List Object → ℕ → Line
line_at objs j = record {
  index = j;
  object = get_or objs j blank;
  size = net_size (get_or objs j blank);
}

weaken : (i k : ℕ) (ls : List Line) → i ≤ k → Ascending k ls → Ascending i ls
weaken i k [] h a = tt
weaken i k (l ∷ ls) h a = (omega (arith, a.0), a.1)

lines_from-Ascending : (rounds i : ℕ) (objs : List Object) → Ascending i (lines_from rounds i objs)
unfolding lines_from
lines_from-Ascending zero i objs = tt
lines_from-Ascending (suc rounds) i objs =
    let rest = lines_from-Ascending rounds (i + 1) objs in
    elim (Bool-cases (is_used (get_or objs i blank))) [
      | inl taken ↦ rw taken (omega arith, rest)
      | inr free ↦ rw free (weaken i (i + 1) (lines_from rounds (i + 1) objs) (omega arith) rest)
    ]

line_of-lines_from :
    (rounds i : ℕ) (objs : List Object) (j : ℕ)
    → line_of (lines_from rounds i objs) j ≡ (
        if leb i j && ltb j (i + rounds) && is_used (get_or objs j blank)
        then some (line_at objs j)
        else none)
unfolding lines_from
line_of-lines_from zero i objs j = ground arith
line_of-lines_from (suc rounds) i objs j = ground (arith, line_of-lines_from rounds (i + 1) objs j)

-- With the semaphore open, `urt_print_names` returns and changes nothing; its lines go up by index, and
-- there is a line for slot `j`, with the object there, if and only if the slot is taken.
pub print_names_lem :
    (w : World)
    → 0 < w.sem
    → (print_names w ≡ some (listed w.mem, w))
      × Ascending 0 (listed w.mem).lines
      × ((j : ℕ)
          → line_of (listed w.mem).lines j ≡ (
              if ltb j (length w.mem.objects) && is_used (object_at w.mem j)
              then some (line_at w.mem.objects j)
              else none))
unfolding print_names listed
print_names_lem w h = (
  ground (arith, global_sem_wait_pos w h, global_sem_post_after w w.mem h),
  lines_from-Ascending (length w.mem.objects) 0 w.mem.objects,
  λ j. ground (arith, line_of-lines_from (length w.mem.objects) 0 w.mem.objects j),
)

-- The size that is printed for an object of SHOBJ_NEW is the size that was asked for, whether or not
-- the object has book keeping.
net_size-16 :
    (o : Object) (sz : ℕ)
    → o.has_bookkeeping ≡ true
    → o.size ≡ sz + 16
    → sz + 16 < 2 ^ 64
    → net_size o ≡ sz
unfolding net_size
net_size-16 o sz b e h = ground arith
