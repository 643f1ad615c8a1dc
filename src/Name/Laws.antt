-- ===== src/Name/Laws.antt =====
-- Names are compared and copied as the C strings of their first URT_NAME_LEN characters.
use urt.Base.{
  ℕ, zero, suc, ◌≡◌, ◌<◌, refl, ◌↔◌, true, List, [], ◌∷◌, ◌==◌, if◌then◌else◌, arith, length,
}
use urt.Name.{name_len, head, tail, name_eq_from, name_eq, name_cpy_from, name_cpy}

-- The C string that a buffer holds, cut to `n` characters.
unfoldable pub c_str : ℕ → List ℕ → List ℕ
c_str zero s = []
c_str (suc n) s = if head s == 0 then [] else head s ∷ c_str n (tail s)

name_eq_from_iff : (n : ℕ) (s t : List ℕ) → (name_eq_from n s t ≡ true) ↔ (c_str n s ≡ c_str n t)
unfolding name_eq_from c_str
name_eq_from_iff zero s t = ((λ h. refl), (λ h. refl))
name_eq_from_iff (suc n) s t = ground (arith, name_eq_from_iff n (tail s) (tail t))

-- `_name_eq` holds exactly when the two names are the same C string in their first URT_NAME_LEN
-- characters.
pub name_eq_iff : (s t : List ℕ) → (name_eq s t ≡ true) ↔ (c_str name_len s ≡ c_str name_len t)
unfolding name_eq
name_eq_iff s t = name_eq_from_iff name_len s t

c_str-name_cpy_from :
    (n : ℕ) (to s : List ℕ) → n < length to → c_str n (name_cpy_from n to s) ≡ c_str n s
unfolding name_cpy_from c_str
c_str-name_cpy_from zero to s h = refl
c_str-name_cpy_from (suc n) [] s h = elim h [ ]
c_str-name_cpy_from (suc n) (t ∷ ts) s h = ground (arith, c_str-name_cpy_from n ts (tail s))

length-name_cpy_from : (n : ℕ) (to s : List ℕ) → length (name_cpy_from n to s) ≡ length to
unfolding name_cpy_from
length-name_cpy_from n [] s = refl
length-name_cpy_from zero (t ∷ ts) s = refl
length-name_cpy_from (suc n) (t ∷ ts) s = ground (arith, length-name_cpy_from n ts (tail s))

-- Copying a name into a buffer with room for URT_NAME_LEN characters and a NUL keeps its C string,
-- and does not change the size of the buffer.
pub name_cpy_lem :
    (to s : List ℕ)
    → name_len < length to
    → (c_str name_len (name_cpy to s) ≡ c_str name_len s) × (length (name_cpy to s) ≡ length to)
unfolding name_cpy
name_cpy_lem to s h = (c_str-name_cpy_from name_len to s h, length-name_cpy_from name_len to s)

pub name_eq_refl : (s : List ℕ) → name_eq s s ≡ true
name_eq_refl s = (name_eq_iff s s).1 refl
