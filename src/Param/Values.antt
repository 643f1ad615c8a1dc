-- ===== src/Param/Values.antt =====
-- The loop over the values of a parameter, src/param.c.
use urt.Base.{
  ℕ, zero, suc, ◌+◌, ◌-◌, ◌≤◌, ◌<◌, ◌≡◌, refl, ◌∙◌, ◌⊎◌, inl, inr, true, false, not, Option, none,
  some, List, [], ◌∷◌, arith, ◌==◌, ◌&&◌, length, set, length-set, get_or, Bool-cases, dec_lt,
  get_or-set_ne,
}
use urt.Global.{Errno, e2big, Result, ok, err}
use urt.Convert.{Value, truth, get_next_value}
use urt.Param.{Param, store, parse_values}

pub Result-cases :
    {A : Type 0} (r : Result A) → ((a : A) × (r ≡ ok a)) ⊎ ((e : Errno) × (r ≡ err e))
Result-cases (ok a) = inl (a, refl)
Result-cases (err e) = inr (e, refl)

length-get_next_value : (s : List ℕ) (c : ℕ) → length (get_next_value s c) ≤ length s - 1
unfolding get_next_value
length-get_next_value [] c = omega arith
length-get_next_value (x ∷ []) c = ground arith
length-get_next_value (x ∷ y ∷ s) c = ground (arith, length-get_next_value (y ∷ s) c)

-- What the loop leaves: the variable has the elements that it had, none but those from `index` to
-- `n` were written, and all of these are below `max`.
pub record Ended (p : Param) (index : ℕ) (p' : Param) (n : ℕ) : Type 0 where
  pub same_size : length p'.var ≡ length p.var
  pub same_max : p'.max ≡ p.max
  pub grows : index ≤ n
  pub fits : n ≤ p.max
  pub untouched :
      (j : ℕ) → (j < index) ⊎ (n ≤ j) → get_or p'.var j (truth false) ≡ get_or p.var j (truth false)

Ended-here : (p : Param) (index : ℕ) → index ≤ p.max → Ended p index p index
Ended-here p index h = record {
  same_size = refl;
  same_max = refl;
  grows = omega arith;
  fits = h;
  untouched = λ j out. refl;
}

Ended-next : (p : Param) (index : ℕ) → index < p.max → Ended p index p (index + 1)
Ended-next p index h = record {
  same_size = refl;
  same_max = refl;
  grows = omega arith;
  fits = omega arith;
  untouched = λ j out. refl;
}

-- Behind a value that was stored.
Ended-later :
    (p : Param) (index : ℕ) (v : Value) (p' : Param) (n : ℕ)
    → Ended (store p index v) (index + 1) p' n
    → Ended p index p' n
Ended-later p index v p' n d = record {
  same_size = d.same_size ∙ length-set p.var index v;
  same_max = d.same_max;
  grows = omega (arith, d.grows);
  fits = d.fits;
  untouched = λ j out. d.untouched j (shifted j out) ∙ other j out;
}
  where
    shifted : (j : ℕ) → (j < index) ⊎ (n ≤ j) → (j < index + 1) ⊎ (n ≤ j)
    shifted j (inl lt) = inl (omega arith)
    shifted j (inr le) = inr le

    other :
        (j : ℕ)
        → (j < index) ⊎ (n ≤ j)
        → get_or (set p.var index v) j (truth false) ≡ get_or p.var j (truth false)
    other j out = get_or-set_ne p.var index j v (truth false) (λ e. ground (arith, d.grows))

pub shorter_value :
    (fuel : ℕ) (p : Param) (value : List ℕ)
    → length value < suc fuel
    → (p.is_array && not (length (get_next_value value b',') == 0)) ≡ true
    → length (get_next_value value b',') < fuel
shorter_value fuel p value h more = ground (arith, length-get_next_value value b',')

-- The loop of parse_arg ends within as many rounds as the value has characters, and one more, and
-- writes only below the variable's `max`: a value too many is reported before it is stored.
pub parse_values-Ended :
    (fuel : ℕ) (convert : List ℕ → Result Value) (p : Param) (value : List ℕ) (index : ℕ)
    → length value < fuel
    → index ≤ p.max
    → (p' : Param) × (e : Option Errno) × (n : ℕ) × (parse_values fuel convert p value index
        ≡ some (p', e, n))
      × Ended p index p' n
unfolding parse_values
parse_values-Ended zero convert p value index h le = absurd (omega arith)
parse_values-Ended (suc fuel) convert p value index h le = elim (dec_lt index p.max) [
  | no full ↦ (p, some e2big, index, ground arith, Ended-here p index le)
  | yes lt ↦ elim (Result-cases (convert value)) [
    | inr (e, c) ↦ (p, some e, index + 1, ground (arith), Ended-next p index lt)
    | inl (v, c) ↦ elim (Bool-cases (p.is_array && not (length (get_next_value value b',') == 0))) [
      | inr last ↦ (
        store p index v,
        none,
        index + 1,
        ground arith,
        Ended-later p index v (store p index v) (index + 1)
            (Ended-here (store p index v) (index + 1) (omega arith)),
      )
      | inl more ↦
          let rest =
            parse_values-Ended fuel convert (store p index v) (get_next_value value b',')
              (index + 1) (shorter_value fuel p value h more) (omega arith) in
          (
            rest.0,
            rest.1,
            rest.2,
            ground (arith, rest.3),
            Ended-later p index v rest.0 rest.2 rest.4,
          )
    ]
  ]
]
