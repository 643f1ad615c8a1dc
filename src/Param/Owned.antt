-- ===== src/Param/Owned.antt =====
-- What urt_free_args of src/param.c frees: only strings that to_charp made.
use urt.Base.{
  ℕ, zero, suc, ◌+◌, ◌≤◌, ◌≡◌, refl, sym, ap, ◌∙◌, inl, inr, Bool, true, false, Option, none, some,
  List, [], ◌∷◌, ◌++◌, arith, ◌&&◌, ◌||◌, length, if◌then◌else◌, Bool-cases, Option-cases,
}
use urt.Global.{Errno, einval, Result, ok, err}
use urt.Convert.{Value, Libc, param_matches, param_matches, to_charp}
use urt.Param.{
  Param, parse_arg, unquote, converter_of, converters, noted, parse_value, latest, try_params,
  str_eq, charp, parse_from, help_long, help_short, reset_all, parse_args, elements, free_args,
}
use urt.Param.Stored.{is_text, AllBelow, Kept, parse_values-All}

-- The first `num` elements of a parameter of strings are strings that to_charp made.
pub record IsOwned (p : Param) : Type 0 where
  pub sized : p.max ≤ length p.var
  pub owned : str_eq p.type charp ≡ true → AllBelow is_text p.num p.var

str_eq-eq : (s t : List ℕ) → str_eq s t ≡ true → s ≡ t
unfolding str_eq
str_eq-eq [] [] h = refl
str_eq-eq (x ∷ s) (y ∷ t) h = ground (arith, str_eq-eq s t)
str_eq-eq [] (y ∷ t) h = ground arith
str_eq-eq (x ∷ s) [] h = ground arith

to_charp-text :
    (c : Libc) (is_array : Bool) (s : List ℕ) (v : Value)
    → to_charp c is_array s ≡ ok v
    → is_text v ≡ true
unfolding to_charp
to_charp-text c is_array s v h = ground arith

charp_case :
    (c : Libc) (is_array : Bool)
    → converter_of charp (converters c is_array) ≡ some (to_charp c is_array)
unfolding converter_of converters str_eq
charp_case c is_array = refl

-- What a conversion that was found makes of a value.
abbrev applied : List ℕ → Option (List ℕ → Result Value) → Result Value
applied s none = err einval
applied s (some f) = f s

-- The conversion of a parameter of strings.
converter_of-charp :
    (c : Libc) (is_array : Bool) (type : List ℕ) (convert : List ℕ → Result Value)
    → str_eq type charp ≡ true
    → converter_of type (converters c is_array) ≡ some convert
    → (s : List ℕ) (v : Value) → convert s ≡ ok v
    → is_text v ≡ true
converter_of-charp c is_array type convert t e s v h = to_charp-text c is_array s v (
    ap (applied s) (sym (charp_case c is_array))
    ∙ (ap (λ x. applied s (converter_of x (converters c is_array))) (sym (str_eq-eq type charp t))
        ∙ (ap (applied s) e ∙ h)))

noted-IsOwned :
    (p p' : Param) (e : Option Errno) (n : ℕ)
    → p.max ≤ length p.var
    → Kept p p'
    → (str_eq p.type charp ≡ true → AllBelow is_text p.num p'.var)
    → (str_eq p.type charp ≡ true → e ≡ none → AllBelow is_text n p'.var)
    → IsOwned (noted (p', e, n)).0
unfolding noted
noted-IsOwned p p' none n sized k a b = record {
  sized = omega (arith, sized, k.same_max, k.same_length);
  owned = λ t. b (rw (sym k.same_type) t) refl;
}
noted-IsOwned p p' (some e) n sized k a b = record {
  sized = omega (arith, sized, k.same_max, k.same_length);
  owned = λ t. rw k.same_num (a (rw (sym k.same_type) t));
}

parse_value-IsOwned :
    (c : Libc) (convert : List ℕ → Result Value) (p : Param) (value : List ℕ)
    → converter_of p.type (converters c p.is_array) ≡ some convert
    → IsOwned p
    → (p' : Param) × (e : Option Errno) × (parse_value convert p value ≡ some (p', e)) × IsOwned p'
unfolding parse_value
parse_value-IsOwned c convert p value q o = elim (Bool-cases (str_eq p.type charp)) [
  | inl t ↦
      let r =
        parse_values-All is_text convert (converter_of-charp c p.is_array p.type convert t q)
          (suc (length value)) p value 0 p.num (omega arith) (omega arith) o.sized (o.owned t)
          (λ j lt. absurd (omega arith)) in
      (
        (noted (r.0, r.1, r.2)).0,
        (noted (r.0, r.1, r.2)).1,
        rw (parse_value, r.3) refl,
        noted-IsOwned p r.0 r.1 r.2 o.sized r.4 (λ u. r.5) (λ u z. r.6 z),
      )
  | inr other ↦
      let r =
        parse_values-All (λ v. true) convert (λ s v h. refl) (suc (length value)) p value 0 0
          (omega arith) (omega arith) o.sized (λ j lt. refl) (λ j lt. refl) in
      (
        (noted (r.0, r.1, r.2)).0,
        (noted (r.0, r.1, r.2)).1,
        rw (parse_value, r.3) refl,
        noted-IsOwned p r.0 r.1 r.2 o.sized r.4 (λ u. absurd (cc (u, other)))
            (λ u z. absurd (cc (u, other))),
      )
]

parse_arg-IsOwned :
    (c : Libc) (p : Param) (arg : List ℕ)
    → IsOwned p
    → (p' : Param) × (arg' : List ℕ) × (e : Option Errno) × (parse_arg c p arg ≡ some (p', arg', e))
      × IsOwned p'
unfolding parse_arg
parse_arg-IsOwned c p arg o = elim (Option-cases (converter_of p.type (converters c p.is_array))) [
  | inl no_type ↦ (p, (unquote arg).0, some einval, ground arith, o)
  | inr (convert, q) ↦
      let r = parse_value-IsOwned c convert p (unquote arg).1 q o in
      (r.0, (unquote arg).0, r.1, rw (parse_arg, q, r.2) refl, r.3)
]

abbrev pub AllOwned : List Param → Type 0
AllOwned [] = Unit
AllOwned (p ∷ ps) = IsOwned p × AllOwned ps

try_params-AllOwned :
    (c : Libc) (ps : List Param) (arg : List ℕ) (e : Option Errno)
    → AllOwned ps
    → (ps' : List Param) × (e' : Option Errno) × (any : Bool) × (try_params c ps arg e
        ≡ some (ps', e', any))
      × AllOwned ps'
unfolding try_params
try_params-AllOwned c [] arg e o = ([], e, false, refl, tt)
try_params-AllOwned c (p ∷ ps) arg e (o, os) = elim (Bool-cases (param_matches p.name arg)) [
  | inl matches ↦
      let r = parse_arg-IsOwned c p arg o in
      let rest = try_params-AllOwned c ps r.1 (latest r.2 e) os in
      (r.0 ∷ rest.0, rest.1, true, ground (arith, r.3, rest.3), (r.4, rest.4))
  | inr other ↦
      let rest = try_params-AllOwned c ps arg e os in
      (p ∷ rest.0, rest.1, rest.2, ground (arith, rest.3), (o, rest.4))
]

parse_from-AllOwned :
    (c : Libc) (ps : List Param) (args : List (List ℕ)) (e : Option Errno)
    → AllOwned ps
    → (ps' : List Param) × (e' : Option Errno) × (help : Bool) × (parse_from c ps args e
        ≡ some (ps', e', help))
      × AllOwned ps'
unfolding parse_from
parse_from-AllOwned c ps [] e o = (ps, e, false, refl, o)
parse_from-AllOwned c ps (arg ∷ args) e o =
    elim (Bool-cases (str_eq arg help_long || str_eq arg help_short)) [
      | inl help ↦ (ps, e, true, ground arith, o)
      | inr no_help ↦
          let r = try_params-AllOwned c ps arg e o in
          let rest = parse_from-AllOwned c r.0 args (if r.2 then r.1 else some einval) r.4 in
          (rest.0, rest.1, rest.2, ground (arith, r.3, rest.3), rest.4)
    ]

-- A parameter before urt_parse_args: its variable has its size, and no element is counted.
abbrev pub AllNew : List Param → Type 0
AllNew [] = Unit
AllNew (p ∷ ps) = (p.max ≤ length p.var) × (p.num ≡ 0) × AllNew ps

reset_all-AllOwned : (ps : List Param) → AllNew ps → AllOwned (reset_all ps)
unfolding reset_all
reset_all-AllOwned [] o = tt
reset_all-AllOwned (p ∷ ps) (sized, none_yet, rest) = (
  elim (Bool-cases p.is_array) [
    | inl a ↦ rw a record { sized = sized; owned = λ t j lt. absurd (omega arith) }
    | inr a ↦ rw a record { sized = sized; owned = λ t j lt. absurd (omega arith) }
  ],
  reset_all-AllOwned ps rest,
)

abbrev pub all_text : List Value → Bool
all_text [] = true
all_text (v ∷ vs) = is_text v && all_text vs

all_text-append : (xs ys : List Value) → all_text (xs ++ ys) ≡ (all_text xs && all_text ys)
all_text-append [] ys = refl
all_text-append (x ∷ xs) ys = ground (arith, all_text-append xs ys)

all_text-elements :
    (n j : ℕ) (var : List Value) → AllBelow is_text (j + n) var → all_text (elements n j var) ≡ true
unfolding elements
all_text-elements zero j var a = refl
all_text-elements (suc n) j var a =
    ground (arith, a j (omega arith), all_text-elements n (j + 1) var (λ k lt. a k (omega arith)))

free_args_lem : (ps : List Param) → AllOwned ps → all_text (free_args ps) ≡ true
unfolding free_args
free_args_lem [] o = refl
free_args_lem (p ∷ ps) (o, os) = elim (Bool-cases (str_eq p.type charp)) [
  | inr other ↦ rw other (free_args_lem ps os)
  | inl strings ↦ rw strings (
      all_text-append (elements p.num 0 p.var) (free_args ps)
      ∙ rw
          (
            all_text-elements p.num 0 p.var (λ j lt. o.owned strings j (omega arith)),
            free_args_lem ps os,
          )
          refl)
]

-- Where no parameter counts an element at first, and each variable has the size that its `max` says,
-- urt_parse_args returns for every list of arguments, and urt_free_args then frees only strings that
-- to_charp made, within their variables, whether or not an argument was wrong.
pub free_args_owned :
    (c : Libc) (ps : List Param) (args : List (List ℕ))
    → AllNew ps
    → (ps' : List Param) × (e : Option Errno) × (help : Bool) × (parse_args c ps args
        ≡ some (ps', e, help))
      × (all_text (free_args ps') ≡ true)
unfolding parse_args
free_args_owned c ps args o =
    let r = parse_from-AllOwned c (reset_all ps) args none (reset_all-AllOwned ps o) in
    (r.0, r.1, r.2, r.3, free_args_lem r.0 r.4)
