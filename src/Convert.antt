-- ===== src/Convert.antt =====
-- src/param.c: how the name of an argument `name=value` is compared, and its value converted. A C string
-- is the list of its characters before the NUL. malloc, strtol and strtoul are arguments.
pub mod Match
pub mod Number
use urt.Base.{
  ℕ, zero, suc, ◌+◌, ◌-◌, ◌%◌, ◌^◌, Bool, true, false, not, Option, none, some, List, [], ◌∷◌, ◌==◌,
  ◌&&◌, ◌||◌, ltb, leb, if◌then◌else◌, set, length,
}
use urt.Base.Int.{ℤ, pos, negsuc}
use urt.Name.{head, tail}
use urt.Global.{Errno, einval, enomem, erange, e2big, Result, ok, err}

-- param_matches
unfoldable pub dashed : ℕ → ℕ
dashed c = if c == b'-' then b'_' else c

unfoldable pub goes_on : List ℕ → List ℕ → Bool
unfolding dashed
goes_on name value =
    head name == dashed (head value)
    && not (head name == 0)
    && not (head value == 0)
    && not (head value == b'=')

unfoldable pub param_matches : List ℕ → List ℕ → Bool
param_matches [] value = 0 == head value || head value == b'='
param_matches (c ∷ name) value =
    if goes_on (c ∷ name) value
    then param_matches name (tail value)
    else c == head value || c == 0 && head value == b'='

-- What a variable of a program holds.
pub data Value : Type 0 where
  number : ℤ → Value
  text : List ℕ → Value
  truth : Bool → Value

-- The C library: strtol and strtoul in base 10, an error standing for errno; and whether malloc gives
-- memory.
pub record Libc : Type 0 where
  pub strtol : List ℕ → Result ℤ
  pub strtoul : List ℕ → Result ℕ
  pub allocated : Bool

-- A cast to an unsigned and to a signed type of `w` bits.
unfoldable pub cast_unsigned : ℕ → ℕ → ℕ
cast_unsigned w n = n % 2 ^ w

unfoldable pub signed_of : ℕ → ℕ → ℤ
signed_of w m = if ltb m (2 ^ (w - 1)) then pos m else negsuc (2 ^ w - 1 - m)

unfoldable pub cast_signed : ℕ → ℤ → ℤ
unfolding signed_of
cast_signed w (pos n) = signed_of w (n % 2 ^ w)
cast_signed w (negsuc n) = signed_of w (2 ^ w - 1 - n % 2 ^ w)

unfoldable pub eq_ℤ : ℤ → ℤ → Bool
eq_ℤ (pos m) (pos n) = m == n
eq_ℤ (negsuc m) (negsuc n) = m == n
eq_ℤ (pos m) (negsuc n) = false
eq_ℤ (negsuc m) (pos n) = false

-- `temp` if the cast keeps it.
unfoldable pub in_unsigned : ℕ → Result ℕ → Result Value
unfolding cast_unsigned
in_unsigned w (err e) = err e
in_unsigned w (ok temp) =
    if cast_unsigned w temp == temp then ok (number (pos temp)) else err erange

unfoldable pub in_signed : ℕ → Result ℤ → Result Value
unfolding cast_signed eq_ℤ
in_signed w (err e) = err e
in_signed w (ok temp) = if eq_ℤ (cast_signed w temp) temp then ok (number temp) else err erange

-- TO_X over strtoul and over strtol
unfoldable pub to_unsigned : ℕ → Libc → List ℕ → Result Value
unfolding in_unsigned
to_unsigned w c [] = err einval
to_unsigned w c (x ∷ value) = in_unsigned w (c.strtoul (x ∷ value))

unfoldable pub to_signed : ℕ → Libc → List ℕ → Result Value
unfolding in_signed
to_signed w c [] = err einval
to_signed w c (x ∷ value) = in_signed w (c.strtol (x ∷ value))

-- The characters before the first `c`, and those behind it (get_next_value).
unfoldable pub before : ℕ → List ℕ → List ℕ
before c [] = []
before c (x ∷ s) = if x == c then [] else x ∷ before c s

unfoldable pub get_next_value : List ℕ → ℕ → List ℕ
get_next_value [] delim = []
get_next_value (x ∷ s) delim = if x == delim then s else get_next_value s delim

-- to_charp
unfoldable pub to_charp : Libc → Bool → List ℕ → Result Value
unfolding before
to_charp c is_array value =
    if c.allocated then ok (text (if is_array then before b',' value else value)) else err enomem

-- extract_bool: `*str != 1` compares with the character 1, not with '1'.
unfoldable pub is_bool_char : ℕ → Bool
is_bool_char c = c == b'0' || c == 1 || c == b'y' || c == b'n' || c == b'Y' || c == b'N'

unfoldable pub is_true_char : ℕ → Bool
is_true_char c = c == b'1' || c == b'y' || c == b'Y'

unfoldable pub extract_bool : List ℕ → Result Bool
unfolding is_bool_char is_true_char
extract_bool [] = ok (is_true_char b'1')
extract_bool (x ∷ str) = if is_bool_char x then ok (is_true_char x) else err einval

unfoldable pub to_truth : (Bool → Bool) → Result Bool → Result Value
to_truth f (ok b) = ok (truth (f b))
to_truth f (err e) = err e

-- to_bool, to_invbool
unfoldable pub to_bool : List ℕ → Result Value
unfolding to_truth extract_bool
to_bool value = to_truth (λ b. b) (extract_bool value)

unfoldable pub to_invbool : List ℕ → Result Value
unfolding to_truth extract_bool
to_invbool value = to_truth not (extract_bool value)
