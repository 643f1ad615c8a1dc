-- ===== src/Tests/Glue.antt =====
-- Instances for the life of an application.
use urt.Base.{true, Bool, ◌≡◌, refl, true, Option, some, none, ℕ, List, [], ◌∷◌, ◌++◌, ◌==◌, arith}
use urt.Global.{Errno}
use urt.Param.{Param, parse_args, free_args}
use urt.Glue.{AppCall, main}
use urt.Param.Owned.{all_text}
use urt.Glue.Life.{Lived, main-Lived}
use urt.Tests.Param.{libc, strings, name_a_b}

-- One argument, which gives one string; a body that has set `done` by the third look.
abbrev one_string : List (List ℕ)
one_string = (name_a_b ++ (b'=' ∷ b'x' ∷ [])) ∷ []

main-Lived_example :
    (e : Option Errno) × (calls : List AppCall) × (ps' : List Param) × (parsed : Option Errno)
    × (help : Bool) × (parse_args libc (strings ∷ []) one_string ≡ some (ps', parsed, help))
    × (main libc (strings ∷ []) one_string none (λ k. k == 2) 4 ≡ some (e, calls, free_args ps'))
    × Lived none (parse_args libc (strings ∷ []) one_string) e calls
    × (all_text (free_args ps') ≡ true)
main-Lived_example =
    main-Lived libc (strings ∷ []) one_string none (λ k. k == 2) 2 4 (omega arith, refl, tt) refl
      (omega arith)
