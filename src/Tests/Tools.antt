-- ===== src/Tests/Tools.antt =====
-- Instances for the programs of tools.
use urt.Base.{
  ℕ, ◌+◌, ◌-◌, ◌*◌, ◌/◌, ◌%◌, ◌&&◌, ltb, leb, if◌then◌else◌, ◌≡◌, refl, Bool, true, false, Option,
  none, some, List, [], ◌∷◌, ◌++◌, arith, map,
}
use urt.Global.{World}
use urt.Setup.{SetupAnswers, same_layout}
use urt.Param.{str_eq}
use urt.Tools.{is_help, is_size, dashes, done, clear_main, dump_from}
use urt.Tools.Clear.{Gone, names_of, clear_main-Gone}
use urt.Tools.Requests.{Request, IsClear, all_written, asked, unranged, dump_from-all_written}
use urt.Tests.Registry.{start, two_slots, two_slots-IsValid, name_b}
use urt.Tests.Shared.{name_a}

abbrev answers : SetupAnswers
answers = record {
  sys_error = none;
  sem_error = none;
  mem_error = none;
  sem_undone = [];
  mem_calls = [];
  internal_size = 100;
  object_size = 24;
}

own_layout : same_layout 100 24 two_slots ≡ true
unfolding same_layout
own_layout = refl

-- `clear A -- --`, where the last argument is a name.
abbrev arguments : List (List ℕ)
arguments = name_a ∷ dashes ∷ dashes ∷ []

clear_main-Gone_example :
    (b : Bool) × (w' : World) × (clear_main answers arguments start
      ≡ some (done b (record { has_mem = false }), w'))
    × Gone (names_of arguments false) start w'
clear_main-Gone_example =
    clear_main-Gone answers name_a (dashes ∷ dashes ∷ []) start (omega arith) two_slots-IsValid refl
      refl refl refl own_layout

-- A number in decimal, of at most 20 digits, as the numbers of a size_t have.
abbrev digits : ℕ → ℕ → List ℕ → List ℕ
digits ℕ.zero n s = s
digits (ℕ.suc fuel) n s =
    let rest = digits fuel (n / 10) ((b'0' + n % 10) ∷ s) in
    if ltb n 10 then (b'0' + n) ∷ s else rest

abbrev decimal : ℕ → List ℕ
decimal n = digits 20 n []

abbrev is_digit : ℕ → Bool
is_digit c = leb b'0' c && leb c b'9'

-- What sscanf reads with %zu from a word without leading spaces and sign.
abbrev value_of : ℕ → List ℕ → ℕ
value_of v [] = v
value_of v (c ∷ s) = let rest = value_of (v * 10 + (c - b'0')) s in if is_digit c then rest else v

abbrev scan_decimal : List ℕ → Option ℕ
scan_decimal [] = none
scan_decimal (c ∷ s) = if is_digit c then some (value_of 0 (c ∷ s)) else none

abbrev from_ten : Request
from_ten = record { name = name_b; long = true; range = some (10, none) }

abbrev middle : Request
middle = record { name = name_a; long = false; range = some (16, some 18446744073709551615) }

from_ten-IsClear : IsClear scan_decimal decimal from_ten
unfolding is_help is_size str_eq
from_ten-IsClear = record {
  no_help = refl;
  no_size = refl;
  no_dashes = refl;
  range_read = (refl, refl);
}

middle-IsClear : IsClear scan_decimal decimal middle
unfolding is_help is_size str_eq
middle-IsClear = record {
  no_help = refl;
  no_size = refl;
  no_dashes = refl;
  range_read = (refl, refl);
}

dump_from-all_written_example :
    dump_from scan_decimal
      (all_written scan_decimal decimal (from_ten ∷ middle ∷ []) ++ (dashes ∷ name_a ∷ []))
      false
      0
      0
    ≡ map asked (from_ten ∷ middle ∷ []) ++ map unranged (name_a ∷ [])
dump_from-all_written_example =
    dump_from-all_written scan_decimal decimal (from_ten ∷ middle ∷ []) (name_a ∷ [])
      (from_ten-IsClear, (middle-IsClear, tt))
