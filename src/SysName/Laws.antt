-- ===== src/SysName/Laws.antt =====
-- What `urt_convert_name` of sys/posix/src/names.c makes of a name.
use urt.Base.{
  ℕ, zero, suc, ◌+◌, ◌-◌, ◌≤◌, ◌≡◌, refl, ap, ◌∙◌, sym, ◌⊎◌, inl, inr, true, none, some, List, [],
  ◌∷◌, map, if◌then◌else◌, arith, length,
}
use urt.Name.{name_len, head, tail, name_eq}
use urt.Name.Laws.{c_str, name_eq_iff}
use urt.SysName.{is_lower, is_kept, convert_char, convert_from, with_slash, convert_name}

-- Every character is a capital letter, a digit, '_' or '$'.
abbrev pub AllKept : List ℕ → Type 0
AllKept [] = Unit
AllKept (c ∷ s) = (is_kept c ≡ true) × AllKept s

-- A leading slash, and one to six characters behind it.
pub record IsPosixName (n : List ℕ) : Type 0 where
  pub stem : List ℕ
  pub slash : n ≡ b'/' ∷ stem
  pub not_empty : 1 ≤ length stem
  pub short : length stem ≤ name_len
  pub kept : AllKept stem

convert_char-is_kept : (c d : ℕ) → convert_char c ≡ some d → is_kept d ≡ true
unfolding convert_char is_kept is_lower
convert_char-is_kept c d e = ground arith

convert_from_lem :
    (n : ℕ) (s : List ℕ) → AllKept (convert_from n s) × (length (convert_from n s) ≤ n)
unfolding convert_from
convert_from_lem zero s = (tt, omega arith)
convert_from_lem (suc n) s =
    ground (arith, convert_from_lem n (tail s), convert_char-is_kept (head s))

convert_from_empty :
    (n : ℕ) (s : List ℕ)
    → ((convert_char (head s) ≡ none) × (convert_from (suc n) s ≡ []))
      ⊎ (1 ≤ length (convert_from (suc n) s))
unfolding convert_from
convert_from_empty n s = ground arith

slashed : (t : List ℕ) → 1 ≤ length t → with_slash t ≡ some (b'/' ∷ t)
unfolding with_slash
slashed [] h = absurd (omega arith)
slashed (c ∷ t) h = refl

-- A name is refused exactly when its first character is neither a letter nor a digit, '_' or '$'. Any
-- other name gives a slash followed by one to six capital letters, digits, '_' and '$'.
pub convert_name_lem :
    (s : List ℕ)
    → ((convert_char (head s) ≡ none) × (convert_name s ≡ none))
      ⊎ ((n : List ℕ) × (convert_name s ≡ some n) × IsPosixName n)
unfolding convert_name
convert_name_lem s = elim (convert_from_empty 5 s) [
  | inl (c, e) ↦ inl (c, ground arith)
  | inr h ↦
      let l = convert_from_lem name_len s in
      inr (
        b'/' ∷ convert_from name_len s,
        slashed (convert_from name_len s) h,
        record {
          stem = convert_from name_len s;
          slash = refl;
          not_empty = h;
          short = l.1;
          kept = l.0;
        },
      )
]

abbrev pub upper : ℕ → ℕ
upper c = if is_lower c then c - b'a' + b'A' else c

convert_char-upper : (c : ℕ) → convert_char (upper c) ≡ convert_char c
unfolding convert_char is_kept is_lower
convert_char-upper c = ground arith

head-map : (s : List ℕ) → head (map upper s) ≡ upper (head s)
unfolding is_lower
head-map [] = refl
head-map (c ∷ s) = refl

tail-map : (s : List ℕ) → tail (map upper s) ≡ map upper (tail s)
tail-map [] = refl
tail-map (c ∷ s) = refl

convert_from-upper : (n : ℕ) (s : List ℕ) → convert_from n (map upper s) ≡ convert_from n s
unfolding convert_from
convert_from-upper zero s = refl
convert_from-upper (suc n) s =
    ground
      (arith, head-map s, tail-map s, convert_char-upper (head s), convert_from-upper n (tail s))

-- The registry's names keep their case, but a name and its capitals have one system name.
pub convert_name-upper : (s : List ℕ) → convert_name (map upper s) ≡ convert_name s
unfolding convert_name
convert_name-upper s = ap with_slash (convert_from-upper name_len s)

convert_char_kept : (c : ℕ) → is_kept c ≡ true → convert_char c ≡ some c
unfolding convert_char is_kept is_lower
convert_char_kept c h = ground arith

convert_char_zero : convert_char 0 ≡ none
unfolding convert_char is_kept is_lower
convert_char_zero = refl

convert_from_kept : (n : ℕ) (s : List ℕ) → AllKept (c_str n s) → convert_from n s ≡ c_str n s
unfolding convert_from c_str
convert_from_kept zero s h = refl
convert_from_kept (suc n) s h =
    ground (arith, convert_char_kept (head s), convert_char_zero, convert_from_kept n (tail s))

same_stem : (s t : List ℕ) → with_slash s ≡ with_slash t → s ≡ t
unfolding with_slash
same_stem [] [] e = refl
same_stem [] (d ∷ t) e = absurd (cc)
same_stem (c ∷ s) [] e = absurd (cc)
same_stem (c ∷ s) (d ∷ t) e = cc

-- Names of capital letters, digits, '_' and '$' only are the same to the system exactly when they
-- are the same to `_name_eq`.
pub convert_name_injective :
    (s t : List ℕ)
    → AllKept (c_str name_len s)
    → AllKept (c_str name_len t)
    → convert_name s ≡ convert_name t
    → name_eq s t ≡ true
unfolding convert_name
convert_name_injective s t hs ht e =
    (name_eq_iff s t).1
      (sym (convert_from_kept name_len s hs) ∙ same_stem _ _ e ∙ convert_from_kept name_len t ht)
