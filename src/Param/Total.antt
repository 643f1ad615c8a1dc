-- ===== src/Param/Total.antt =====
-- Parsing the arguments of a program always ends, src/param.c.
use urt.Base.{
  ℕ, suc, ◌≡◌, refl, ap, Bool, true, false, Option, none, some, List, [], ◌∷◌, arith, ◌∙◌, ◌||◌,
  inl, inr, if◌then◌else◌, length, Bool-cases, Option-cases,
}
use urt.Global.{Errno, einval, Result}
use urt.Convert.{Libc, param_matches, Value}
use urt.Param.{
  Param, parse_arg, unquote, converter_of, converters, noted, parse_value, latest, try_params,
  str_eq, help_long, help_short, parse_from, reset_all, parse_args,
}
use urt.Param.Values.{parse_values-Ended}

parse_value_total :
    (convert : List ℕ → Result Value) (p : Param) (value : List ℕ)
    → (p' : Param) × (e : Option Errno) × (parse_value convert p value ≡ some (p', e))
unfolding parse_value
parse_value_total convert p value =
    let r = parse_values-Ended (suc (length value)) convert p value 0 (omega arith) (omega arith) in
    ((noted (r.0, r.1, r.2)).0, (noted (r.0, r.1, r.2)).1, rw (parse_value, r.3) refl)

parse_arg_total :
    (c : Libc) (p : Param) (arg : List ℕ)
    → (p' : Param) × (arg' : List ℕ) × (e : Option Errno) × (parse_arg c p arg ≡ some (p', arg', e))
unfolding parse_arg
parse_arg_total c p arg = elim (Option-cases (converter_of p.type (converters c p.is_array))) [
  | inl no_type ↦ (p, (unquote arg).0, some einval, ground arith)
  | inr (convert, q) ↦
      let r = parse_value_total convert p (unquote arg).1 in
      (r.0, (unquote arg).0, r.1, rw (parse_arg, q, r.2) refl)
]

try_params_total :
    (c : Libc) (ps : List Param) (arg : List ℕ) (e : Option Errno)
    → (ps' : List Param) × (e' : Option Errno) × (any : Bool) × (try_params c ps arg e
        ≡ some (ps', e', any))
      × (length ps' ≡ length ps)
unfolding try_params
try_params_total c [] arg e = ([], e, false, refl, refl)
try_params_total c (p ∷ ps) arg e = elim (Bool-cases (param_matches p.name arg)) [
  | inl matches ↦
      let r = parse_arg_total c p arg in
      let rest = try_params_total c ps r.1 (latest r.2 e) in
      (r.0 ∷ rest.0, rest.1, true, ground (arith, r.3, rest.3), ap suc rest.4)
  | inr other ↦
      let rest = try_params_total c ps arg e in
      (p ∷ rest.0, rest.1, rest.2, ground (arith, rest.3), ap suc rest.4)
]

parse_from_total :
    (c : Libc) (ps : List Param) (args : List (List ℕ)) (e : Option Errno)
    → (ps' : List Param) × (e' : Option Errno) × (help : Bool) × (parse_from c ps args e
        ≡ some (ps', e', help))
      × (length ps' ≡ length ps)
unfolding parse_from
parse_from_total c ps [] e = (ps, e, false, refl, refl)
parse_from_total c ps (arg ∷ args) e =
    elim (Bool-cases (str_eq arg help_long || str_eq arg help_short)) [
      | inl help ↦ (ps, e, true, ground arith, refl)
      | inr no_help ↦
          let r = try_params_total c ps arg e in
          let rest = parse_from_total c r.0 args (if r.2 then r.1 else some einval) in
          (rest.0, rest.1, rest.2, ground (arith, r.3, rest.3), rest.4 ∙ r.4)
    ]

length-reset_all : (ps : List Param) → length (reset_all ps) ≡ length ps
unfolding reset_all
length-reset_all [] = refl
length-reset_all (p ∷ ps) = ap suc (length-reset_all ps)

-- urt_parse_args returns for every list of arguments, and keeps the number of parameters.
pub parse_args_total :
    (c : Libc) (ps : List Param) (args : List (List ℕ))
    → (ps' : List Param) × (e : Option Errno) × (help : Bool) × (parse_args c ps args
        ≡ some (ps', e, help))
      × (length ps' ≡ length ps)
unfolding parse_args
parse_args_total c ps args =
    let r = parse_from_total c (reset_all ps) args none in
    (r.0, r.1, r.2, r.3, r.4 ∙ length-reset_all ps)
