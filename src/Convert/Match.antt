-- ===== src/Convert/Match.antt =====
-- Which arguments `param_matches` of src/param.c takes for a parameter.
use urt.Base.{ℕ, ◌≡◌, false, List, [], ◌∷◌, ◌==◌}

-- A name as in a C program: no NUL, no dash and no '='.
abbrev pub IsIdentifier : List ℕ → Type 0
IsIdentifier [] = Unit
IsIdentifier (c ∷ s) =
    ((c == 0) ≡ false) × ((c == b'-') ≡ false) × ((c == b'=') ≡ false) × IsIdentifier s

-- A C string has no NUL before its end.
abbrev pub IsString : List ℕ → Type 0
IsString [] = Unit
IsString (c ∷ s) = ((c == 0) ≡ false) × IsString s
