-- ===== src/Dump/Rows.antt =====
-- The rows of `urt_dump_memory`, src/registry.c, show the bytes that were asked for.
use urt.Base.{
  ℕ, zero, suc, ◌+◌, ◌-◌, ◌*◌, ◌<◌, ◌≤◌, ◌≡◌, refl, ap, ◌∙◌, Bool, some, List, [], ◌∷◌, ◌++◌,
  length, get_or, arith, dec_lt,
}
use mathlib.Core.List.{append-nil}
use urt.Dump.{Row, row_bytes, shown, rows_from, dump_rows, clamp_start, clamp_end}

-- `n` bytes from `k` on.
abbrev pub segment : ℕ → ℕ → List ℕ → List ℕ
segment zero k obj = []
segment (suc n) k obj = get_or obj k 0 ∷ segment n (k + 1) obj

-- The bytes of all rows.
abbrev pub all_bytes : List Row → List ℕ
all_bytes [] = []
all_bytes (r ∷ rs) = r.bytes ++ all_bytes rs

-- The rows stand 16 bytes apart, have one to 16 bytes, and a character for each.
abbrev pub InStep : ℕ → List Row → Type 0
InStep i [] = Unit
InStep i (r ∷ rs) =
    (r.offset ≡ i)
    × (0 < length r.bytes)
    × (length r.bytes ≤ 16)
    × (length r.chars ≡ length r.bytes)
    × InStep (i + 16) rs

row_bytes_full :
    (rounds k end : ℕ) (obj : List ℕ)
    → k + rounds ≤ end
    → row_bytes rounds k end obj ≡ segment rounds k obj
unfolding row_bytes
row_bytes_full zero k end obj h = refl
row_bytes_full (suc rounds) k end obj h = ground (arith, row_bytes_full rounds (k + 1) end obj)

row_bytes_last :
    (rounds k end n : ℕ) (obj : List ℕ)
    → k + n ≡ end
    → n ≤ rounds
    → row_bytes rounds k end obj ≡ segment n k obj
unfolding row_bytes
row_bytes_last zero k end zero obj e h = refl
row_bytes_last zero k end (suc n) obj e h = absurd (omega arith)
row_bytes_last (suc rounds) k end zero obj e h = ground arith
row_bytes_last (suc rounds) k end (suc n) obj e h =
    ground (arith, row_bytes_last rounds (k + 1) end n obj)

length-segment : (n k : ℕ) (obj : List ℕ) → length (segment n k obj) ≡ n
length-segment zero k obj = refl
length-segment (suc n) k obj = ap suc (length-segment n (k + 1) obj)

length-shown : (isalnum : ℕ → Bool) (cs : List ℕ) → length (shown isalnum cs) ≡ length cs
unfolding shown
length-shown isalnum [] = refl
length-shown isalnum (c ∷ cs) = ap suc (length-shown isalnum cs)

segment-+ :
    (a b k : ℕ) (obj : List ℕ) → segment a k obj ++ segment b (k + a) obj ≡ segment (a + b) k obj
segment-+ zero b k obj =
    let e : k + 0 ≡ k = omega arith in let f : 0 + b ≡ b = omega arith in rw (e, f) refl
segment-+ (suc a) b k obj =
    let e : k + suc a ≡ k + 1 + a = omega arith in
    let f : suc a + b ≡ suc (a + b) = omega arith in
    rw (e, f) (ap (λ x. get_or obj k 0 ∷ x) (segment-+ a b (k + 1) obj))

-- The rows for the bytes from `i` up to `end`.
pub record Shows (i end : ℕ) (obj : List ℕ) (rs : List Row) : Type 0 where
  pub contents : all_bytes rs ≡ segment (end - i) i obj
  pub in_step : InStep i rs

module _ (isalnum : ℕ → Bool) (obj : List ℕ) where
  row_at : ℕ → ℕ → Row
  row_at i end = record {
    offset = i;
    bytes = row_bytes 16 i end obj;
    chars = shown isalnum (row_bytes 16 i end obj);
  }

  -- The bytes of the row at `i`, and those behind it.
  row_lem :
      (i end : ℕ)
      → i < end
      → (row_bytes 16 i end obj ++ segment (end - (i + 16)) (i + 16) obj ≡ segment (end - i) i obj)
        × (0 < length (row_bytes 16 i end obj))
        × (length (row_bytes 16 i end obj) ≤ 16)
  row_lem i end h = elim (dec_lt (i + 16) end) [
    | yes more ↦
        let e : 16 + (end - (i + 16)) ≡ end - i = omega arith in
        let full = row_bytes_full 16 i end obj (omega arith) in
        let n = length-segment 16 i obj in
        (
          rw full (segment-+ 16 (end - (i + 16)) i obj ∙ ap (λ x. segment x i obj) e),
          rw full (omega (arith, n)),
          rw full (omega (arith, n)),
        )
    | no few ↦
        let e : end - (i + 16) ≡ 0 = omega arith in
        let last = row_bytes_last 16 i end (end - i) obj (omega arith) (omega arith) in
        let n = length-segment (end - i) i obj in
        (
          rw (e, last) (append-nil (segment (end - i) i obj)),
          rw last (omega (arith, n)),
          rw last (omega (arith, n)),
        )
  ]

  more_rows :
      (i end : ℕ) (rs : List Row)
      → i < end
      → Shows (i + 16) end obj rs
      → Shows i end obj (row_at i end ∷ rs)
  unfolding row_at
  more_rows i end rs h s = record {
    contents = ap (λ x. row_bytes 16 i end obj ++ x) s.contents ∙ (row_lem i end h).0;
    in_step = (
      refl,
      (row_lem i end h).1,
      (row_lem i end h).2,
      length-shown isalnum (row_bytes 16 i end obj),
      s.in_step,
    );
  }

  no_rows : (i end : ℕ) → end ≤ i → Shows i end obj []
  no_rows i end h =
      let e : end - i ≡ 0 = omega arith in record { contents = rw e refl; in_step = tt }

  rows_from-Shows :
      (fuel i end : ℕ)
      → end ≤ i + fuel * 16
      → (rs : List Row) × (rows_from isalnum fuel i end obj ≡ some rs) × Shows i end obj rs
  unfolding rows_from row_at
  rows_from-Shows zero i end h = ([], ground arith, no_rows i end (omega arith))
  rows_from-Shows (suc fuel) i end h =
      let rest = rows_from-Shows fuel (i + 16) end (omega arith) in
      elim (dec_lt i end) [
        | yes lt ↦ (row_at i end ∷ rest.0, ground (arith, rest.1), more_rows i end rest.0 lt rest.2)
        | no ge ↦ ([], ground arith, no_rows i end (omega arith))
      ]

clamped : (start end size : ℕ) → (clamp_start start size ≤ size) × (clamp_end end size ≤ size)
unfolding clamp_start clamp_end
clamped start end size = ground arith

-- `urt_dump_memory` shows, in rows of 16 bytes, exactly the bytes of the object from `start` up to
-- `end`, where a start behind the object is its end, and an end of zero or behind the object is its
-- end too.
pub dump_rows-Shows :
    (isalnum : ℕ → Bool) (start end size : ℕ) (obj : List ℕ)
    → (rs : List Row) × (dump_rows isalnum start end size obj ≡ some rs)
      × Shows (clamp_start start size) (clamp_end end size) obj rs
      × (clamp_start start size ≤ size)
      × (clamp_end end size ≤ size)
unfolding dump_rows
dump_rows-Shows isalnum start end size obj =
    let le = clamped start end size in
    let r =
      rows_from-Shows isalnum obj size (clamp_start start size) (clamp_end end size)
        (omega (arith, le)) in
    (r.0, r.1, r.2, le.0, le.1)
