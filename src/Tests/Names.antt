-- ===== src/Tests/Names.antt =====
-- Instances for registry names and system names.
use urt.Base.{ℕ, ◌≡◌, refl, true, none, some, List, [], ◌∷◌}
use urt.Name.{name_len, name_eq}
use urt.Name.Laws.{c_str}
use urt.SysName.{is_kept, convert_char, convert_name}
use urt.SysName.Laws.{AllKept, convert_name_injective}

abbrev name_b : List ℕ
name_b = b'B' ∷ []

abbrev name_ab : List ℕ
name_ab = b'a' ∷ b'B' ∷ b'1' ∷ []

-- "B" is "B" behind more characters than the copy looks at.
abbrev long_b : List ℕ
long_b = b'B' ∷ 0 ∷ b'x' ∷ []

converted : convert_name name_ab ≡ some (b'/' ∷ b'A' ∷ b'B' ∷ b'1' ∷ [])
unfolding convert_name convert_char
converted = refl

refused : convert_name (b'-' ∷ name_ab) ≡ none
unfolding convert_name convert_char
refused = refl

b-AllKept : AllKept (c_str name_len name_b)
unfolding c_str is_kept
b-AllKept = (refl, tt)

long_b-AllKept : AllKept (c_str name_len long_b)
unfolding c_str is_kept
long_b-AllKept = (refl, tt)

same_names : convert_name name_b ≡ convert_name long_b
unfolding convert_name convert_char
same_names = refl

convert_name_injective_example : name_eq name_b long_b ≡ true
convert_name_injective_example =
    convert_name_injective name_b long_b b-AllKept long_b-AllKept same_names
