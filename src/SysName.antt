-- ===== src/SysName.antt =====
-- sys/posix/src/names.c: registry names become names of POSIX objects.
pub mod Laws
use urt.Base.{
  ℕ, zero, suc, ◌+◌, ◌-◌, Bool, Option, none, some, List, [], ◌∷◌, leb, ◌==◌, ◌&&◌, ◌||◌,
  if◌then◌else◌,
}
use urt.Name.{name_len, head, tail}

unfoldable pub is_lower : ℕ → Bool
is_lower c = leb b'a' c && leb c b'z'

unfoldable pub is_kept : ℕ → Bool
is_kept c = leb b'A' c && leb c b'Z' || leb b'0' c && leb c b'9' || c == b'_' || c == b'$'

-- What the loop's body stores for a character; `none` is the `break`.
unfoldable pub convert_char : ℕ → Option ℕ
unfolding is_lower is_kept
convert_char c = if is_lower c then some (c - b'a' + b'A') else if is_kept c then some c else none

-- The characters stored in `to[1]`, `to[2]`, ... with `rounds` rounds left.
unfoldable pub convert_from : ℕ → List ℕ → List ℕ
unfolding convert_char
convert_from zero src = []
convert_from (suc rounds) src = elim (convert_char (head src)) [
  | none ↦ []
  | some c ↦ c ∷ convert_from rounds (tail src)
]

-- `none` is EINVAL, returned when no character was converted (`i == 0`).
unfoldable pub with_slash : List ℕ → Option (List ℕ)
with_slash [] = none
with_slash (c ∷ s) = some (b'/' ∷ c ∷ s)

unfoldable pub convert_name : List ℕ → Option (List ℕ)
unfolding convert_from with_slash
convert_name src = with_slash (convert_from name_len src)
