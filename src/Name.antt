-- ===== src/Name.antt =====
-- src/registry.c, `_name_eq` and `_name_cpy`: object names as C strings in fixed buffers.
pub mod Laws
use urt.Base.{ℕ, zero, suc, Bool, true, List, [], ◌∷◌, ◌==◌, ◌&&◌, not, if◌then◌else◌}

-- URT_NAME_LEN
abbrev pub name_len : ℕ
name_len = 6

-- `*p`, for a pointer into a buffer; past the end of the list the buffer holds zeros.
abbrev pub head : List ℕ → ℕ
head [] = 0
head (c ∷ s) = c

-- `p + 1`
abbrev pub tail : List ℕ → List ℕ
tail [] = []
tail (c ∷ s) = s

-- The loop of `_name_eq` with `rounds` of the URT_NAME_LEN rounds left, and its return.
unfoldable pub name_eq_from : ℕ → List ℕ → List ℕ → Bool
name_eq_from zero n1 n2 = true
name_eq_from (suc rounds) n1 n2 =
    if not (head n1 == 0) && (head n1 == head n2)
    then name_eq_from rounds (tail n1) (tail n2)
    else (head n1 == 0) && (head n2 == 0)

unfoldable pub name_eq : List ℕ → List ℕ → Bool
unfolding name_eq_from
name_eq n1 n2 = name_eq_from name_len n1 n2

-- `_name_cpy` writes into the cells of `to`: characters up to the end of `from` or `rounds` many,
-- then a NUL; the cells behind keep what they held.
unfoldable pub name_cpy_from : ℕ → List ℕ → List ℕ → List ℕ
name_cpy_from rounds [] src = []
name_cpy_from zero (t ∷ ts) src = 0 ∷ ts
name_cpy_from (suc rounds) (t ∷ ts) src =
    if head src == 0 then 0 ∷ ts else head src ∷ name_cpy_from rounds ts (tail src)

unfoldable pub name_cpy : List ℕ → List ℕ → List ℕ
unfolding name_cpy_from
name_cpy to src = name_cpy_from name_len to src
