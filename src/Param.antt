-- ===== src/Param.antt =====
-- src/param.c: the arguments of a program are parsed into its variables.
pub mod Values
pub mod Total
pub mod Stored
pub mod Owned
use urt.Base.{
  ℕ, zero, suc, ◌+◌, ◌-◌, ◌%◌, ◌^◌, Bool, true, false, not, Option, none, some, List, [], ◌∷◌, ◌==◌,
  ◌&&◌, ◌||◌, ltb, leb, if◌then◌else◌, set, length, get_or, ◌++◌,
}
use urt.Base.Int.{ℤ, pos, negsuc}
use urt.Name.{head, tail}
use urt.Global.{Errno, einval, enomem, erange, e2big, Result, ok, err}
use urt.Convert.{
  param_matches, Value, truth, Libc, to_unsigned, to_signed, get_next_value, to_charp, to_bool,
  to_invbool, number,
}

-- urt_module_param. `var` is the variable's memory: element by element.
pub record Param : Type 0 where
  pub name : List ℕ
  pub type : List ℕ
  pub max : ℕ
  pub var : List Value
  pub num : ℕ
  pub nump : Option ℕ
  pub is_array : Bool

-- strcmp(a, b) == 0
unfoldable pub str_eq : List ℕ → List ℕ → Bool
str_eq [] [] = true
str_eq (x ∷ s) (y ∷ t) = x == y && str_eq s t
str_eq [] (y ∷ t) = false
str_eq (x ∷ s) [] = false

abbrev pub charp : List ℕ
charp = b'c' ∷ b'h' ∷ b'a' ∷ b'r' ∷ b'p' ∷ []

-- The names of the types, each with its conversion.
unfoldable pub converters : Libc → Bool → List (List ℕ × (List ℕ → Result Value))
unfolding to_unsigned to_signed to_charp to_bool to_invbool
converters c is_array =
    (b'b' ∷ b'y' ∷ b't' ∷ b'e' ∷ [], to_unsigned 8 c)
    ∷ (b's' ∷ b'h' ∷ b'o' ∷ b'r' ∷ b't' ∷ [], to_signed 16 c)
    ∷ (b'u' ∷ b's' ∷ b'h' ∷ b'o' ∷ b'r' ∷ b't' ∷ [], to_unsigned 16 c)
    ∷ (b'i' ∷ b'n' ∷ b't' ∷ [], to_signed 32 c)
    ∷ (b'u' ∷ b'i' ∷ b'n' ∷ b't' ∷ [], to_unsigned 32 c)
    ∷ (b'l' ∷ b'o' ∷ b'n' ∷ b'g' ∷ [], to_signed 64 c)
    ∷ (b'u' ∷ b'l' ∷ b'o' ∷ b'n' ∷ b'g' ∷ [], to_unsigned 64 c)
    ∷ (charp, to_charp c is_array)
    ∷ (b'b' ∷ b'o' ∷ b'o' ∷ b'l' ∷ [], to_bool)
    ∷ (b'_' ∷ b'B' ∷ b'o' ∷ b'o' ∷ b'l' ∷ [], to_bool)
    ∷ (b'i' ∷ b'n' ∷ b'v' ∷ b'b' ∷ b'o' ∷ b'o' ∷ b'l' ∷ [], to_invbool)
    ∷ []

unfoldable pub converter_of :
    List ℕ → List (List ℕ × (List ℕ → Result Value)) → Option (List ℕ → Result Value)
unfolding str_eq
converter_of type [] = none
converter_of type ((name, f) ∷ rest) = if str_eq type name then some f else converter_of type rest

-- `arg[len - 1] == '"'`, and arg without its last character.
unfoldable pub ends_quoted : List ℕ → Bool
ends_quoted [] = false
ends_quoted (x ∷ []) = x == b'"'
ends_quoted (x ∷ y ∷ s) = ends_quoted (y ∷ s)

unfoldable pub drop_last : List ℕ → List ℕ
drop_last [] = []
drop_last (x ∷ []) = []
drop_last (x ∷ y ∷ s) = x ∷ drop_last (y ∷ s)

-- The argument and its value once the quotes are off. The value is the end of the argument.
unfoldable pub unquote : List ℕ → List ℕ × List ℕ
unfolding get_next_value ends_quoted drop_last
unquote arg =
    let value = get_next_value arg b'=' in
    if head value == b'"' && ends_quoted arg
    then (drop_last arg, drop_last (tail value))
    else (arg, value)

abbrev pub store : Param → ℕ → Value → Param
store p index v = record p { var = set p.var index v }

-- The loop of parse_arg: the variable, the error, and the index reached; `none`: out of fuel.
unfoldable pub parse_values :
    ℕ → (List ℕ → Result Value) → Param → List ℕ → ℕ → Option (Param × Option Errno × ℕ)
parse_values zero convert p value index = none
parse_values (suc fuel) convert p value index =
    if leb p.max index then some (p, some e2big, index) else elim (convert value) [
      | err e ↦ some (p, some e, index + 1)
      | ok v ↦ elim (p.is_array && not (length (get_next_value value b',') == 0)) [
        | true ↦ parse_values fuel convert (store p index v) (get_next_value value b',') (index + 1)
        | false ↦ some (store p index v, none, index + 1)
      ]
    ]

-- What parse_arg does with the loop's result: on success, the number of values is noted.
unfoldable pub noted : Param × Option Errno × ℕ → Param × Option Errno
noted (p, none, index) =
    (record p { num = index; nump = (elim p.nump [ none ↦ none | some n ↦ some index ]) }, none)
noted (p, some e, index) = (p, some e)

-- The loop and what follows it. A round takes a character off the value, so its length and one more
-- are enough.
unfoldable pub parse_value :
    (List ℕ → Result Value) → Param → List ℕ → Option (Param × Option Errno)
parse_value convert p value = elim (parse_values (suc (length value)) convert p value 0) [
  | none ↦ none
  | some r ↦ some (noted r)
]

-- parse_arg: the parameter, the argument and the error.
unfoldable pub parse_arg : Libc → Param → List ℕ → Option (Param × List ℕ × Option Errno)
parse_arg c p arg = elim (converter_of p.type (converters c p.is_array)) [
  | none ↦ some (p, (unquote arg).0, some einval)
  | some convert ↦ elim (parse_value convert p (unquote arg).1) [
    | none ↦ none
    | some (p', e) ↦ some (p', (unquote arg).0, e)
  ]
]

unfoldable pub latest : Option Errno → Option Errno → Option Errno
latest none e = e
latest (some d) e = some d

-- The loop of urt_parse_args over the parameters, for one argument: the parameters, the error so far,
-- and whether any matched.
unfoldable pub try_params :
    Libc → List Param → List ℕ → Option Errno → Option (List Param × Option Errno × Bool)
unfolding latest
try_params c [] arg e = some ([], e, false)
try_params c (p ∷ ps) arg e =
    if param_matches p.name arg
    then elim (parse_arg c p arg) [
      | none ↦ none
      | some (p', arg', e') ↦ elim (try_params c ps arg' (latest e' e)) [
        | none ↦ none
        | some (ps', e'', any) ↦ some (p' ∷ ps', e'', true)
      ]
    ]
    else elim (try_params c ps arg e) [
      | none ↦ none
      | some (ps', e', any) ↦ some (p ∷ ps', e', any)
    ]

abbrev pub help_long : List ℕ
help_long = b'-' ∷ b'-' ∷ b'h' ∷ b'e' ∷ b'l' ∷ b'p' ∷ []

abbrev pub help_short : List ℕ
help_short = b'-' ∷ b'h' ∷ []

-- The loop over the arguments behind the program's name: the parameters, the error, and whether help
-- was shown (the return value is then -1, otherwise the error).
unfoldable pub parse_from :
    Libc → List Param → List (List ℕ) → Option Errno → Option (List Param × Option Errno × Bool)
unfolding try_params str_eq
parse_from c ps [] e = some (ps, e, false)
parse_from c ps (arg ∷ args) e =
    if str_eq arg help_long || str_eq arg help_short
    then some (ps, e, true)
    else elim (try_params c ps arg e) [
      | none ↦ none
      | some (ps', e', any) ↦ parse_from c ps' args (if any then e' else some einval)
    ]

abbrev pub reset_nump : Param → Param
reset_nump p =
    if p.is_array then record p { nump = (elim p.nump [ none ↦ none | some n ↦ some 0 ]) } else p

unfoldable pub reset_all : List Param → List Param
reset_all [] = []
reset_all (p ∷ ps) = reset_nump p ∷ reset_all ps

-- urt_parse_args
unfoldable pub parse_args :
    Libc → List Param → List (List ℕ) → Option (List Param × Option Errno × Bool)
unfolding parse_from reset_all
parse_args c ps args = parse_from c (reset_all ps) args none

-- The elements below `n`, from `j` on.
unfoldable pub elements : ℕ → ℕ → List Value → List Value
elements zero j var = []
elements (suc n) j var = get_or var j (truth false) ∷ elements n (j + 1) var

-- urt_free_args: what is freed, in order.
unfoldable pub free_args : List Param → List Value
unfolding str_eq elements
free_args [] = []
free_args (p ∷ ps) =
    if str_eq p.type charp then elements p.num 0 p.var ++ free_args ps else free_args ps

-- A line of show_help: the name, whether it is an array, and the type; the description is left out.
abbrev pub HelpLine : Type 0
HelpLine = List ℕ × Bool × List ℕ

-- show_help
unfoldable pub help_lines : List Param → List HelpLine
help_lines [] = []
help_lines (p ∷ ps) = (p.name, p.is_array, p.type) ∷ help_lines ps
