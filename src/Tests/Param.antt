-- ===== src/Tests/Param.antt =====
-- Instances for the parameters of a program.
use urt.Base.{ℕ, ◌≡◌, refl, Bool, true, some, Option, List, [], ◌∷◌, ◌++◌, arith}
use urt.Base.Int.{pos}
use urt.Global.{Errno, ok}
use urt.Convert.{number, Libc, to_signed}
use urt.Param.{Param, charp, free_args, parse_values, parse_args}
use urt.Param.Values.{Ended, parse_values-Ended}
use urt.Param.Owned.{all_text, free_args_owned}

abbrev pub name_a_b : List ℕ
name_a_b = b'a' ∷ b'_' ∷ b'b' ∷ []

abbrev arg_a_b : List ℕ
arg_a_b = b'a' ∷ b'-' ∷ b'b' ∷ b'=' ∷ b'7' ∷ []

-- A C library on which every number is 40000.
abbrev pub libc : Libc
libc = record { strtol = λ s. ok (pos 40000); strtoul = λ s. ok 40000; allocated = true }

abbrev param : Param
param = record {
  name = name_a_b;
  type = b'i' ∷ b'n' ∷ b't' ∷ [];
  max = 2;
  var = number (pos 0) ∷ number (pos 0) ∷ [];
  num = 0;
  nump = some 5;
  is_array = true;
}

abbrev two_values : List ℕ
two_values = b'7' ∷ b',' ∷ b'8' ∷ []

parse_values-Ended_example :
    (p' : Param) × (e : Option Errno) × (n : ℕ) × (parse_values 4
        (to_signed 32 libc)
        param
        two_values
        0
      ≡ some (p', e, n))
    × Ended param 0 p' n
parse_values-Ended_example =
    parse_values-Ended 4 (to_signed 32 libc) param two_values 0 (omega arith) (omega arith)

abbrev pub strings : Param
strings = record {
  name = name_a_b;
  type = charp;
  max = 2;
  var = number (pos 0) ∷ number (pos 0) ∷ [];
  num = 0;
  nump = some 5;
  is_array = true;
}

-- Too many values, after a good argument.
abbrev too_many : List (List ℕ)
too_many =
    (name_a_b ++ (b'=' ∷ b'x' ∷ []))
    ∷ (name_a_b ++ (b'=' ∷ b'x' ∷ b',' ∷ b'y' ∷ b',' ∷ b'z' ∷ []))
    ∷ []

free_args_owned_example :
    (ps' : List Param) × (e : Option Errno) × (help : Bool) × (parse_args libc
        (strings ∷ [])
        too_many
      ≡ some (ps', e, help))
    × (all_text (free_args ps') ≡ true)
free_args_owned_example = free_args_owned libc (strings ∷ []) too_many (omega arith, refl, tt)
