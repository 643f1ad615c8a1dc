-- ===== src/Convert/Number.antt =====
-- The numbers that a parameter takes, src/param.c.
use urt.Base.{ℕ, ◌≡◌, refl, ◌⊎◌, true, false, List, [], ◌∷◌, arith}
use urt.Base.Int.{ℤ, pos, negsuc, ◌≤ℤ◌, ◌<ℤ◌}
use urt.Global.{einval, erange, ok, err}
use urt.Convert.{
  number, Libc, cast_signed, signed_of, eq_ℤ, in_signed, to_signed, is_bool_char, is_true_char,
  extract_bool,
}

-- A signed type of 16 bits, and one of 32, keeps exactly the numbers in its range.
cast_signed_16 :
    (t : ℤ)
    → ((eq_ℤ (cast_signed 16 t) t ≡ true) × (negsuc 32767 ≤ℤ t) × (t ≤ℤ pos 32767))
      ⊎ ((eq_ℤ (cast_signed 16 t) t ≡ false) × ((t <ℤ negsuc 32767) ⊎ (pos 32767 <ℤ t)))
unfolding cast_signed eq_ℤ signed_of
cast_signed_16 (pos n) = ground arith
cast_signed_16 (negsuc n) = ground arith

cast_signed_32 :
    (t : ℤ)
    → ((eq_ℤ (cast_signed 32 t) t ≡ true) × (negsuc 2147483647 ≤ℤ t) × (t ≤ℤ pos 2147483647))
      ⊎ ((eq_ℤ (cast_signed 32 t) t ≡ false) × ((t <ℤ negsuc 2147483647) ⊎ (pos 2147483647 <ℤ t)))
unfolding cast_signed eq_ℤ signed_of
cast_signed_32 (pos n) = ground arith
cast_signed_32 (negsuc n) = ground arith

-- An `int` parameter whose value strtol reads as a number takes that number if it is in the range of
-- 32 bits, and is refused with ERANGE otherwise.
pub to_int_range :
    (c : Libc) (x : ℕ) (value : List ℕ) (t : ℤ)
    → c.strtol (x ∷ value) ≡ ok t
    → ((to_signed 32 c (x ∷ value) ≡ ok (number t))
        × (negsuc 2147483647 ≤ℤ t)
        × (t ≤ℤ pos 2147483647))
      ⊎ ((to_signed 32 c (x ∷ value) ≡ err erange)
          × ((t <ℤ negsuc 2147483647) ⊎ (pos 2147483647 <ℤ t)))
unfolding to_signed in_signed
to_int_range c x value t e = ground (arith, cast_signed_32 t)

-- The same for a `short`, and 16 bits.
pub to_short_range :
    (c : Libc) (x : ℕ) (value : List ℕ) (t : ℤ)
    → c.strtol (x ∷ value) ≡ ok t
    → ((to_signed 16 c (x ∷ value) ≡ ok (number t)) × (negsuc 32767 ≤ℤ t) × (t ≤ℤ pos 32767))
      ⊎ ((to_signed 16 c (x ∷ value) ≡ err erange) × ((t <ℤ negsuc 32767) ⊎ (pos 32767 <ℤ t)))
unfolding to_signed in_signed
to_short_range c x value t e = ground (arith, cast_signed_16 t)

-- A value that starts with '1' is refused for a `bool`, although no value at all stands for true, as
-- do 'y' and 'Y'.
pub extract_bool_one :
    (s : List ℕ)
    → (extract_bool (b'1' ∷ s) ≡ err einval)
      × (extract_bool [] ≡ ok true)
      × (extract_bool (b'y' ∷ s) ≡ ok true)
      × (extract_bool (b'Y' ∷ s) ≡ ok true)
unfolding extract_bool is_bool_char is_true_char
extract_bool_one s = (refl, refl, refl, refl)
