-- ===== src/Memory.antt =====
-- src/mem_common.c: memory of a process. What malloc and realloc answer is an argument: an address, or
-- `none` for NULL.
use urt.Base.{
  ℕ, suc, ◌<◌, ◌≤◌, ◌≡◌, refl, ap, ◌∙◌, ◌⊎◌, inl, inr, Bool, true, false, Option, none, some, List,
  [], ◌∷◌, ◌==◌, ◌||◌, ltb, if◌then◌else◌, length, take, arith, Option-cases,
}
use urt.Global.{enomem, Result, ok, err}

unfoldable pub or_enomem : Option ℕ → Result ℕ
or_enomem (some address) = ok address
or_enomem none = err enomem

-- urt_mem_new
unfoldable pub mem_new : (ℕ → Option ℕ) → ℕ → Result ℕ
unfolding or_enomem
mem_new malloc size = or_enomem (malloc size)

-- urt_mem_resize
unfoldable pub mem_resize : (ℕ → ℕ → Option ℕ) → ℕ → ℕ → ℕ → Result ℕ
unfolding or_enomem
mem_resize realloc old_mem old_size size =
    if size == 0 || ltb size old_size then ok old_mem else or_enomem (realloc old_mem size)

-- memcpy: the first bytes of the block are those of the old one.
unfoldable pub memcpy : List ℕ → List ℕ → List ℕ
memcpy block [] = block
memcpy [] (x ∷ old) = []
memcpy (y ∷ block) (x ∷ old) = x ∷ memcpy block old

-- urt_mem_resize in the kernel: the block, and whether the old one was given back. `vmalloc` gives a
-- block, or `none` for NULL; the old size is the length of the old block.
unfoldable pub kernel_mem_resize : (ℕ → Option (List ℕ)) → List ℕ → ℕ → Result (List ℕ) × Bool
unfolding memcpy
kernel_mem_resize vmalloc old_mem size =
    if size == 0 || ltb size (length old_mem) then (ok old_mem, false) else elim (vmalloc size) [
      | none ↦ (err enomem, false)
      | some mem ↦ (ok (memcpy mem old_mem), true)
    ]

length-memcpy : (block old : List ℕ) → length (memcpy block old) ≡ length block
unfolding memcpy
length-memcpy block [] = refl
length-memcpy [] (x ∷ old) = refl
length-memcpy (y ∷ block) (x ∷ old) = ap suc (length-memcpy block old)

take-memcpy :
    (block old : List ℕ) → length old ≤ length block → take (length old) (memcpy block old) ≡ old
unfolding memcpy
take-memcpy block [] h = refl
take-memcpy [] (x ∷ old) h = absurd (omega arith)
take-memcpy (y ∷ block) (x ∷ old) h = ap (◌∷◌ x) (take-memcpy block old (omega arith))

-- In the kernel, where vmalloc gives blocks of the size that was asked for, resizing to no less than the
-- old size, and not to zero, either gives a block of the new size that begins with the bytes of the old
-- one, which is given back, or reports ENOMEM and keeps the old one.
pub kernel_mem_resize_keeps :
    (vmalloc : ℕ → Option (List ℕ)) (old_mem : List ℕ) (size : ℕ)
    → ((n : ℕ) (block : List ℕ) → vmalloc n ≡ some block → length block ≡ n)
    → 0 < size
    → length old_mem ≤ size
    → ((mem : List ℕ) × (kernel_mem_resize vmalloc old_mem size ≡ (ok mem, true))
        × (length mem ≡ size)
        × (take (length old_mem) mem ≡ old_mem))
      ⊎ (kernel_mem_resize vmalloc old_mem size ≡ (err enomem, false))
unfolding kernel_mem_resize
kernel_mem_resize_keeps vmalloc old_mem size sized h le = elim (Option-cases (vmalloc size)) [
  | inl none_left ↦ inr (ground arith)
  | inr (block, e) ↦ inl (
    memcpy block old_mem,
    ground arith,
    length-memcpy block old_mem ∙ sized size block e,
    take-memcpy block old_mem (omega (arith, sized size block e)),
  )
]
