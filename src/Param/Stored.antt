-- ===== src/Param/Stored.antt =====
-- The values that the loop of parse_arg stores, src/param.c, where each passes a test.
use urt.Base.{
  ℕ, zero, suc, ◌+◌, ◌≤◌, ◌<◌, ◌≡◌, refl, subst, ◌∙◌, inl, inr, Bool, true, false, not, Option,
  none, some, List, arith, ◌==◌, ◌&&◌, length, set, length-set, get_or, get_or-set_self,
  get_or-set_ne, Bool-cases, dec_lt, ℕ_discrete,
}
use urt.Global.{Errno, e2big, Result, ok}
use urt.Convert.{Value, text, truth, get_next_value}
use urt.Param.Values.{Result-cases, shorter_value}
use urt.Param.{Param, store, parse_values}

-- A value that to_charp stored: the variables of a program hold no `text` of their own.
abbrev pub is_text : Value → Bool
is_text (text s) = true
is_text _ = false

abbrev pub AllBelow : (Value → Bool) → ℕ → List Value → Type 0
AllBelow q k var = (j : ℕ) → j < k → q (get_or var j (truth false)) ≡ true

AllBelow-set :
    (q : Value → Bool) (k : ℕ) (var : List Value) (i : ℕ) (v : Value)
    → q v ≡ true
    → i < length var
    → AllBelow q k var
    → AllBelow q k (set var i v)
AllBelow-set q k var i v good lt a j h = elim (ℕ_discrete i j) [
  | yes e ↦
      subst (λ x. q (get_or (set var i v) x (truth false)) ≡ true) e
        (rw (get_or-set_self var i v (truth false) lt) good)
  | no ne ↦ rw (get_or-set_ne var i j v (truth false) ne) (a j h)
]

AllBelow-next :
    (q : Value → Bool) (i : ℕ) (var : List Value) (v : Value)
    → q v ≡ true
    → i < length var
    → AllBelow q i var
    → AllBelow q (i + 1) (set var i v)
AllBelow-next q i var v good lt a j h = elim (ℕ_discrete i j) [
  | yes e ↦
      subst (λ x. q (get_or (set var i v) x (truth false)) ≡ true) e
        (rw (get_or-set_self var i v (truth false) lt) good)
  | no ne ↦ rw (get_or-set_ne var i j v (truth false) ne) (a j (omega (arith, ne)))
]

-- The parameter with another variable's contents, of the same size.
pub record Kept (p p' : Param) : Type 0 where
  pub same_type : p'.type ≡ p.type
  pub same_num : p'.num ≡ p.num
  pub same_max : p'.max ≡ p.max
  pub same_length : length p'.var ≡ length p.var

Kept-refl : (p : Param) → Kept p p
Kept-refl p = record { same_type = refl; same_num = refl; same_max = refl; same_length = refl }

Kept-store :
    (p : Param) (index : ℕ) (v : Value) (p' : Param) → Kept (store p index v) p' → Kept p p'
Kept-store p index v p' k = record {
  same_type = k.same_type;
  same_num = k.same_num;
  same_max = k.same_max;
  same_length = k.same_length ∙ length-set p.var index v;
}

module _ (q : Value → Bool) (convert : List ℕ → Result Value)
    (makes : (s : List ℕ) (v : Value) → convert s ≡ ok v → q v ≡ true) where
  -- Where every stored value passes a test, so do those below any index that did, and, on success,
  -- all that were stored.
  pub parse_values-All :
      (fuel : ℕ) (p : Param) (value : List ℕ) (index k : ℕ)
      → length value < fuel
      → index ≤ p.max
      → p.max ≤ length p.var
      → AllBelow q k p.var
      → AllBelow q index p.var
      → (p' : Param) × (e : Option Errno) × (n : ℕ) × (parse_values fuel convert p value index
          ≡ some (p', e, n))
        × Kept p p'
        × AllBelow q k p'.var
        × (e ≡ none → AllBelow q n p'.var)
  unfolding parse_values
  parse_values-All zero p value index k h le sized a b = absurd (omega arith)
  parse_values-All (suc fuel) p value index k h le sized a b = elim (dec_lt index p.max) [
    | no full ↦ (p, some e2big, index, ground arith, Kept-refl p, a, λ z. absurd (cc z))
    | yes lt ↦ elim (Result-cases (convert value)) [
      | inr (e, c) ↦ (p, some e, index + 1, ground arith, Kept-refl p, a, λ z. absurd (cc z))
      | inl (v, c) ↦
          let a' = AllBelow-set q k p.var index v (makes value v c) (omega arith) a in
          let b' = AllBelow-next q index p.var v (makes value v c) (omega arith) b in
          elim (Bool-cases (p.is_array && not (length (get_next_value value b',') == 0))) [
            | inr last ↦ (
              store p index v,
              none,
              index + 1,
              ground arith,
              Kept-store p index v (store p index v) (Kept-refl (store p index v)),
              a',
              λ z. b',
            )
            | inl more ↦
                let rest =
                  parse_values-All fuel (store p index v) (get_next_value value b',') (index + 1) k
                    (shorter_value fuel p value h more) (omega arith)
                    (omega (arith, length-set p.var index v)) a' b' in
                (
                  rest.0,
                  rest.1,
                  rest.2,
                  ground (arith, rest.3),
                  Kept-store p index v rest.0 rest.4,
                  rest.5,
                  rest.6,
                )
          ]
    ]
  ]
