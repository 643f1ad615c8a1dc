-- ===== src/Tools/Requests.antt =====
-- What tools/dump reads of its arguments: the requests that its usage describes.
use urt.Base.{
  ℕ, ◌≡◌, refl, ap, ◌∙◌, Bool, true, false, Option, none, some, List, [], ◌∷◌, ◌++◌, map,
}
use mathlib.Core.List.{append_assoc}
use urt.Param.{str_eq}
use urt.Tools.{is_help, is_size, size_long, size_short, dashes, Act, dump, dump_from}

-- A name to dump, and the range: a start, and perhaps an end. `long`: `--size` rather than `-s`.
pub record Request : Type 0 where
  pub name : List ℕ
  pub long : Bool
  pub range : Option (ℕ × Option ℕ)

abbrev size_word : Bool → List ℕ
size_word true = size_long
size_word false = size_short

abbrev pub start_of : Option (ℕ × Option ℕ) → ℕ
start_of none = 0
start_of (some (s, e)) = s

abbrev pub end_of : Option (ℕ × Option ℕ) → ℕ
end_of (some (s, some e)) = e
end_of _ = 0

-- The call of urt_dump_memory that a request is for.
abbrev pub asked : Request → Act
asked r = dump r.name (start_of r.range) (end_of r.range)

abbrev pub unranged : List ℕ → Act
unranged name = dump name 0 0

module _ (scan : List ℕ → Option ℕ) (print : ℕ → List ℕ) where
  -- sscanf reads the numbers of a range as they are meant; and where only a start is given, it reads no
  -- number from the name behind it.
  abbrev pub ReadsRange : List ℕ → Option (ℕ × Option ℕ) → Type 0
  ReadsRange name none = Unit
  ReadsRange name (some (s, none)) = (scan (print s) ≡ some s) × (scan name ≡ none)
  ReadsRange name (some (s, some e)) = (scan (print s) ≡ some s) × (scan (print e) ≡ some e)

  -- The name is not an option, and the range is read.
  pub record IsClear (r : Request) : Type 0 where
    pub no_help : is_help r.name ≡ false
    pub no_size : is_size r.name ≡ false
    pub no_dashes : str_eq r.name dashes ≡ false
    pub range_read : ReadsRange r.name r.range

  abbrev pub AllClear : List Request → Type 0
  AllClear [] = Unit
  AllClear (r ∷ rs) = IsClear r × AllClear rs

  abbrev words : Bool → List ℕ → Option (ℕ × Option ℕ) → List (List ℕ)
  words long name none = name ∷ []
  words long name (some (s, none)) = size_word long ∷ print s ∷ name ∷ []
  words long name (some (s, some e)) = size_word long ∷ print s ∷ print e ∷ name ∷ []

  -- A request as it is written on the command line.
  abbrev pub written : Request → List (List ℕ)
  written r = words r.long r.name r.range

  abbrev pub all_written : List Request → List (List ℕ)
  all_written [] = []
  all_written (r ∷ rs) = written r ++ all_written rs

  dump_from-name :
      (name : List ℕ) (rest : List (List ℕ)) (s e : ℕ)
      → is_help name ≡ false
      → is_size name ≡ false
      → str_eq name dashes ≡ false
      → dump_from scan (name ∷ rest) false s e ≡ dump name s e ∷ dump_from scan rest false 0 0
  unfolding dump_from
  dump_from-name name [] s e h z d = rw (h, z, d) refl
  dump_from-name name (a ∷ []) s e h z d = rw (h, z, d) refl
  dump_from-name name (a ∷ b ∷ rest) s e h z d = rw (h, z, d) refl

  dump_from-start :
      (long : Bool) (a b : List ℕ) (rest : List (List ℕ)) (s e n : ℕ)
      → scan a ≡ some n
      → scan b ≡ none
      → dump_from scan (size_word long ∷ a ∷ b ∷ rest) false s e
        ≡ dump_from scan (b ∷ rest) false n e
  unfolding dump_from is_help is_size str_eq
  dump_from-start true a b rest s e n f g = rw (f, g) refl
  dump_from-start false a b rest s e n f g = rw (f, g) refl

  dump_from-range :
      (long : Bool) (a b : List ℕ) (rest : List (List ℕ)) (s e n k : ℕ)
      → scan a ≡ some n
      → scan b ≡ some k
      → dump_from scan (size_word long ∷ a ∷ b ∷ rest) false s e ≡ dump_from scan rest false n k
  unfolding dump_from is_help is_size str_eq
  dump_from-range true a b rest s e n k f g = rw (f, g) refl
  dump_from-range false a b rest s e n k f g = rw (f, g) refl

  dump_from-dashes :
      (names : List (List ℕ))
      → dump_from scan (dashes ∷ names) false 0 0 ≡ dump_from scan names true 0 0
  unfolding dump_from is_help is_size str_eq
  dump_from-dashes [] = refl
  dump_from-dashes (a ∷ []) = refl
  dump_from-dashes (a ∷ b ∷ rest) = refl

  dump_from_raw : (names : List (List ℕ)) → dump_from scan names true 0 0 ≡ map unranged names
  unfolding dump_from
  dump_from_raw [] = refl
  dump_from_raw (name ∷ names) = ap (◌∷◌ (unranged name)) (dump_from_raw names)

  dump_from-words :
      (name : List ℕ) (long : Bool) (range : Option (ℕ × Option ℕ)) (rest : List (List ℕ))
      → is_help name ≡ false
      → is_size name ≡ false
      → str_eq name dashes ≡ false
      → ReadsRange name range
      → dump_from scan (words long name range ++ rest) false 0 0
        ≡ dump name (start_of range) (end_of range) ∷ dump_from scan rest false 0 0
  dump_from-words name long none rest h z d n = dump_from-name name rest 0 0 h z d
  dump_from-words name long (some (s, none)) rest h z d n =
      dump_from-start long (print s) name rest 0 0 s n.0 n.1 ∙ dump_from-name name rest s 0 h z d
  dump_from-words name long (some (s, some e)) rest h z d n =
      dump_from-range long (print s) (print e) (name ∷ rest) 0 0 s e n.0 n.1
      ∙ dump_from-name name rest s e h z d

  -- Where sscanf reads the numbers of the requests as they are meant, for requests whose names are not
  -- options, nor read as numbers where only a start is given: from the requests' words, and names behind `--`, the
  -- loop of dump reads exactly the requests, in their order, each with its own range, and those names
  -- without a range.
  pub dump_from-all_written :
      (rs : List Request) (names : List (List ℕ))
      → AllClear rs
      → dump_from scan (all_written rs ++ (dashes ∷ names)) false 0 0
        ≡ map asked rs ++ map unranged names
  dump_from-all_written [] names c = rw (dump_from-dashes names) (dump_from_raw names)
  dump_from-all_written (r ∷ rs) names (c, cs) =
      rw
        (
          append_assoc (written r) (all_written rs) (dashes ∷ names),
          dump_from-words r.name r.long r.range (all_written rs ++ (dashes ∷ names)) c.no_help
              c.no_size c.no_dashes c.range_read,
        )
        (ap (◌∷◌ (asked r)) (dump_from-all_written rs names cs))
