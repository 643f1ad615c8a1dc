-- ===== src/FreeName/Digits.antt =====
-- The free names of src/registry.c are the numbers below 37^5, spelt with five digits.
use urt.Base.{
  ℕ, ◌+◌, ◌-◌, ◌/◌, ◌%◌, ◌^◌, ◌<◌, ◌≡◌, refl, sym, ◌∙◌, true, false, some, List, [], ◌∷◌, leb, ◌==◌,
  if◌then◌else◌, arith, dec_lt,
}
use urt.Name.{name_len}
use urt.Name.Laws.{c_str}
use urt.FreeName.{next_digit, increment_from, increment_name, reset_name, done, wrapped}

-- '_', '0' to '9', 'A' to 'Z' stand for 0 to 36.
pub digit_char : ℕ → ℕ
digit_char k = if k == 0 then b'_' else if leb k 10 then b'0' + (k - 1) else b'A' + (k - 11)

digit_char_injective : (a b : ℕ) → a < 37 → b < 37 → digit_char a ≡ digit_char b → a ≡ b
unfolding digit_char
digit_char_injective a b ha hb e = ground arith

next_digit_lem : (k : ℕ) → k < 36 → next_digit (digit_char k) ≡ some (digit_char (k + 1), true)
unfolding next_digit digit_char
next_digit_lem k h = ground arith

next_digit_last : next_digit (digit_char 36) ≡ some (digit_char 0, false)
unfolding next_digit digit_char
next_digit_last = refl

-- The buffer that holds five digits, the final '$' and a NUL.
abbrev pub word : ℕ → ℕ → ℕ → ℕ → ℕ → List ℕ
word a b c d e =
    digit_char a ∷ digit_char b ∷ digit_char c ∷ digit_char d ∷ digit_char e ∷ b'$' ∷ 0 ∷ []

abbrev pub name_count : ℕ
name_count = 37 ^ 5

-- The name that spells `n`.
pub name_of : ℕ → List ℕ
name_of n =
    word (n / 37 / 37 / 37 / 37 % 37) (n / 37 / 37 / 37 % 37) (n / 37 / 37 % 37) (n / 37 % 37)
      (n % 37)

pub name_of_first : name_of 0 ≡ b'_' ∷ b'_' ∷ b'_' ∷ b'_' ∷ b'_' ∷ b'$' ∷ 0 ∷ []
unfolding name_of digit_char
name_of_first = refl

reset_word : (a b c d e : ℕ) → reset_name (word a b c d e) ≡ word 0 0 0 0 0
unfolding reset_name digit_char
reset_word a b c d e = refl

-- Each digit that is not the last is followed by the next one; the last goes round and carries.
module _ (a b c d e : ℕ) where
  carry0 : e < 36 → increment_name (word a b c d e) ≡ (word a b c d (e + 1), done)
  unfolding increment_name increment_from
  carry0 h = ground (arith, next_digit_lem e h)

  carry1 : d < 36 → e ≡ 36 → increment_name (word a b c d e) ≡ (word a b c (d + 1) 0, done)
  unfolding increment_name increment_from
  carry1 h e36 = ground (arith, next_digit_lem d h, next_digit_last)

  carry2 : c < 36 → d ≡ 36 → e ≡ 36 → increment_name (word a b c d e) ≡ (word a b (c + 1) 0 0, done)
  unfolding increment_name increment_from
  carry2 h d36 e36 = ground (arith, next_digit_lem c h, next_digit_last)

  carry3 :
      b < 36
      → c ≡ 36
      → d ≡ 36
      → e ≡ 36
      → increment_name (word a b c d e) ≡ (word a (b + 1) 0 0 0, done)
  unfolding increment_name increment_from
  carry3 h c36 d36 e36 = ground (arith, next_digit_lem b h, next_digit_last)

  carry4 :
      a < 36
      → b ≡ 36
      → c ≡ 36
      → d ≡ 36
      → e ≡ 36
      → increment_name (word a b c d e) ≡ (word (a + 1) 0 0 0 0, done)
  unfolding increment_name increment_from
  carry4 h b36 c36 d36 e36 = ground (arith, next_digit_lem a h, next_digit_last)

wrap_around : increment_name (word 36 36 36 36 36) ≡ (word 0 0 0 0 0, wrapped)
unfolding increment_name increment_from next_digit digit_char reset_name
wrap_around = refl

-- Adding one to a number, seen by its last digit.
div_step : (n : ℕ) → n % 37 < 36 → ((n + 1) / 37 ≡ n / 37) × ((n + 1) % 37 ≡ n % 37 + 1)
div_step n h = omega arith

div_carry : (n : ℕ) → n % 37 ≡ 36 → ((n + 1) / 37 ≡ n / 37 + 1) × ((n + 1) % 37 ≡ 0)
div_carry n h = omega arith

-- The successor of a name that is not the last spells the next number.
pub increment_name-name_of :
    (n : ℕ) → n + 1 < name_count → increment_name (name_of n) ≡ (name_of (n + 1), done)
unfolding name_of
increment_name-name_of n h = elim (dec_lt (n % 37) 36) [
  | yes p ↦ rw (div_step n p).0 (rw (div_step n p).1 (carry0 _ _ _ _ _ p))
  | no q ↦ after_e (last_digit n q)
]
  where
    last_digit : (k : ℕ) → ¬ (k % 37 < 36) → k % 37 ≡ 36
    last_digit k q = omega arith

    carried : (k : ℕ) → k % 37 ≡ 36 → (k + 1) / 37 ≡ k / 37 + 1
    carried k e = omega arith

    after_b :
        n % 37 ≡ 36
        → n / 37 % 37 ≡ 36
        → n / 37 / 37 % 37 ≡ 36
        → n / 37 / 37 / 37 % 37 ≡ 36
        → increment_name (name_of n) ≡ (name_of (n + 1), done)
    after_b e0 e1 e2 e3 =
        let p : n / 37 / 37 / 37 / 37 % 37 < 36 = omega arith in
        rw
          (
            carried n e0,
            (div_carry n e0).1,
            carried (n / 37) e1,
            (div_carry (n / 37) e1).1,
            carried (n / 37 / 37) e2,
            (div_carry (n / 37 / 37) e2).1,
            carried (n / 37 / 37 / 37) e3,
            (div_carry (n / 37 / 37 / 37) e3).1,
            (div_step (n / 37 / 37 / 37 / 37) p).1,
          )
          (carry4 _ _ _ _ _ p e3 e2 e1 e0)

    after_c :
        n % 37 ≡ 36
        → n / 37 % 37 ≡ 36
        → n / 37 / 37 % 37 ≡ 36
        → increment_name (name_of n) ≡ (name_of (n + 1), done)
    after_c e0 e1 e2 = elim (dec_lt (n / 37 / 37 / 37 % 37) 36) [
      | yes p ↦
          rw
            (
              carried n e0,
              (div_carry n e0).1,
              carried (n / 37) e1,
              (div_carry (n / 37) e1).1,
              carried (n / 37 / 37) e2,
              (div_carry (n / 37 / 37) e2).1,
              (div_step (n / 37 / 37 / 37) p).0,
              (div_step (n / 37 / 37 / 37) p).1,
            )
            (carry3 _ _ _ _ _ p e2 e1 e0)
      | no q ↦ after_b e0 e1 e2 (last_digit _ q)
    ]

    after_d : n % 37 ≡ 36 → n / 37 % 37 ≡ 36 → increment_name (name_of n) ≡ (name_of (n + 1), done)
    after_d e0 e1 = elim (dec_lt (n / 37 / 37 % 37) 36) [
      | yes p ↦
          rw
            (
              carried n e0,
              (div_carry n e0).1,
              carried (n / 37) e1,
              (div_carry (n / 37) e1).1,
              (div_step (n / 37 / 37) p).0,
              (div_step (n / 37 / 37) p).1,
            )
            (carry2 _ _ _ _ _ p e1 e0)
      | no q ↦ after_c e0 e1 (last_digit _ q)
    ]

    after_e : n % 37 ≡ 36 → increment_name (name_of n) ≡ (name_of (n + 1), done)
    after_e e0 = elim (dec_lt (n / 37 % 37) 36) [
      | yes p ↦
          rw (carried n e0, (div_carry n e0).1, (div_step (n / 37) p).0, (div_step (n / 37) p).1)
            (carry1 _ _ _ _ _ p e0)
      | no q ↦ after_d e0 (last_digit _ q)
    ]

-- After the last name the counter goes round.
pub increment_name_last : increment_name (name_of (name_count - 1)) ≡ (name_of 0, wrapped)
unfolding name_of
increment_name_last = wrap_around

digit_char-ne-zero : (k : ℕ) → (digit_char k == 0) ≡ false
unfolding digit_char
digit_char-ne-zero k = ground arith

pub c_str-name_of :
    (n : ℕ)
    → c_str name_len (name_of n)
      ≡ digit_char (n / 37 / 37 / 37 / 37 % 37)
        ∷ digit_char (n / 37 / 37 / 37 % 37)
        ∷ digit_char (n / 37 / 37 % 37)
        ∷ digit_char (n / 37 % 37)
        ∷ digit_char (n % 37)
        ∷ b'$'
        ∷ []
unfolding name_of c_str
c_str-name_of n = rw (
  digit_char-ne-zero (n / 37 / 37 / 37 / 37 % 37),
  digit_char-ne-zero (n / 37 / 37 / 37 % 37),
  digit_char-ne-zero (n / 37 / 37 % 37),
  digit_char-ne-zero (n / 37 % 37),
  digit_char-ne-zero (n % 37),
)

same_digit : (a b : ℕ) → digit_char (a % 37) ≡ digit_char (b % 37) → a % 37 ≡ b % 37
same_digit a b e = digit_char_injective (a % 37) (b % 37) (omega arith) (omega arith) e

same_head : {a b : ℕ} {s t : List ℕ} → a ∷ s ≡ b ∷ t → (a ≡ b) × (s ≡ t)
same_head e = (cc, cc)

-- Two numbers below 37^5 that are spelt alike are the same.
pub name_of_injective :
    (m n : ℕ)
    → m < name_count
    → n < name_count
    → c_str name_len (name_of m) ≡ c_str name_len (name_of n)
    → m ≡ n
name_of_injective m n hm hn e =
    let p4 = same_head (sym (c_str-name_of m) ∙ e ∙ c_str-name_of n) in
    let p3 = same_head p4.1 in
    let p2 = same_head p3.1 in
    let p1 = same_head p2.1 in
    let p0 = same_head p1.1 in
    omega (
      arith,
      same_digit (m / 37 / 37 / 37 / 37) (n / 37 / 37 / 37 / 37) p4.0,
      same_digit (m / 37 / 37 / 37) (n / 37 / 37 / 37) p3.0,
      same_digit (m / 37 / 37) (n / 37 / 37) p2.0,
      same_digit (m / 37) (n / 37) p1.0,
      same_digit m n p0.0,
    )
