-- ===== src/FreeName.antt =====
-- src/registry.c: `urt_get_free_name` and the counter in base 37 that it takes names from.
pub mod Digits
pub mod Fresh
pub mod Exhausted
use urt.Base.{
  ℕ, zero, suc, ◌+◌, Bool, true, false, Option, none, some, List, [], ◌∷◌, leb, ltb, ◌==◌, ◌&&◌,
  if◌then◌else◌, length, set, get_or,
}
use urt.Name.{name_len, head, tail}
use urt.Global.{
  Errno, enospc, Internal, internal_error, World, M, pure, ◌>>=◌, ◌>>◌, global_sem_wait,
  global_sem_post, get_mem, put_mem, modify, log,
}
use urt.Registry.{find_by_name}

-- The return value of `_increment_name`: 0, 1 and -1.
pub data Increment : Type 0 where
  done wrapped corrupt : Increment

-- The digit that follows, and `finished`; `none` is the jump to `exit_internal`.
unfoldable pub next_digit : ℕ → Option (ℕ × Bool)
next_digit digit =
    if digit == b'_'
    then some (b'0', true)
    else if leb b'0' digit && ltb digit b'9'
    then some (digit + 1, true)
    else if digit == b'9'
    then some (b'A', true)
    else if leb b'A' digit && ltb digit b'Z'
    then some (digit + 1, true)
    else if digit == b'Z'
    then some (b'_', false)
    else none

-- `for (i = 0; i < URT_NAME_LEN - 1; ++i) name[i] = '_';`
unfoldable pub fill_from : ℕ → ℕ → List ℕ → List ℕ
fill_from zero i name = name
fill_from (suc rounds) i name = fill_from rounds (i + 1) (set name i b'_')

unfoldable pub reset_name : List ℕ → List ℕ
unfolding fill_from
reset_name name = set (fill_from 5 0 name) 5 b'$'

-- The loop of `_increment_name`, which goes down from index `rounds - 1`.
unfoldable pub increment_from : ℕ → List ℕ → List ℕ × Increment
increment_from zero name = (reset_name name, wrapped)
increment_from (suc i) name = elim (next_digit (get_or name i 0)) [
  | none ↦ (reset_name name, corrupt)
  | some (digit, finished) ↦
      let rest = increment_from i (set name i digit) in
      if finished then (set name i digit, done) else rest
]

-- URT_NAME_LEN - 2 is the first index.
unfoldable pub increment_name : List ℕ → List ℕ × Increment
increment_name name = increment_from 5 name

-- strncpy
unfoldable pub strncpy : ℕ → List ℕ → List ℕ → List ℕ
strncpy rounds [] src = []
strncpy zero (t ∷ ts) src = t ∷ ts
strncpy (suc n) (t ∷ ts) src = head src ∷ strncpy n ts (if head src == 0 then [] else tail src)

-- One round of the loop of `_check_and_get_free_name`: the name taken, the counter, the result.
abbrev pub take_name : Internal → List ℕ → List ℕ × Internal × Increment
take_name m name =
    let (next, ret) = increment_name m.next_free_name in
    (strncpy name_len name m.next_free_name, record m { next_free_name = next }, ret)

abbrev pub is_corrupt : Increment → Bool
is_corrupt corrupt = true
is_corrupt _ = false

abbrev pub is_done : Increment → Bool
is_done done = true
is_done _ = false

abbrev pub is_found : Option ℕ → Bool
is_found none = false
is_found (some i) = true

-- `urt_err` in `_increment_name`.
abbrev pub report : Increment → World → World
report corrupt w = log (internal_error ∷ []) w
report _ w = w

-- `_check_and_get_free_name`; `none`: out of fuel.
unfoldable pub check_and_get_free_name : ℕ → List ℕ → World → Option (List ℕ × World)
check_and_get_free_name zero name w = none
check_and_get_free_name (suc fuel) name w =
    let (name', m', ret) = take_name w.mem name in
    let w' = report ret (record w { mem = m' }) in
    let rest = check_and_get_free_name fuel name' w' in
    elim (is_corrupt ret) [
      | true ↦ rest
      | false ↦ elim (is_found (find_by_name m' name')) [ true ↦ rest | false ↦ some (name', w') ]
    ]

-- The branch of `urt_get_free_name` for a counter that went round. There are two names more to try
-- than objects, for one round may mend a corrupt counter.
unfoldable pub exhausted_name : Internal → List ℕ → M (Option Errno × List ℕ)
exhausted_name m name = do
  name' ← check_and_get_free_name (length m.objects + 2) name
  global_sem_post
  pure (none, name')

-- The other branch.
unfoldable pub fresh_name : Internal → List ℕ → M (Option Errno × List ℕ)
fresh_name m name = do
  let (name', m', ret) = take_name m name
  put_mem (record m' { names_exhausted = if is_done ret then m.names_exhausted else true })
  modify (report ret)
  global_sem_post
  pure (if is_corrupt ret then some enospc else none, name')

-- urt_get_free_name: the error, if any, and the caller's buffer.
unfoldable pub get_free_name : List ℕ → M (Option Errno × List ℕ)
get_free_name name = do
  global_sem_wait
  m ← get_mem
  if m.names_exhausted then exhausted_name m name else fresh_name m name
