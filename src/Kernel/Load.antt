-- ===== src/Kernel/Load.antt =====
-- How loading the kernel module ends, and what unloading it gives back.
use urt.Base.{
  ◌≡◌, refl, ◌⊎◌, inl, inr, true, false, Option, none, some, [], ◌∷◌, ◌++◌, if◌then◌else◌, length,
  Bool-cases, arith,
}
use urt.Global.{Errno, enomem, ebusy, World, global_sem_wait, global_sem_post}
use urt.Setup.{fresh_registry, same_layout, registry_init, init_mem}
use urt.Kernel.{
  ModuleAnswers, kernel_init, kernel_exit, Module, after_init, main_init, main_exit, kobject_put,
  global_mem_free,
}

-- How `_urt_main_init` ends.
pub data LoadEnds (a : ModuleAnswers) (w : World) : Option Errno → Module → World → Type 0 where
  -- The registry that was there, or a new one.
  loaded :
      {k : Module} {w' : World}
      → a.allocated ≡ true
      → w'.sem ≡ 1
      → ((w.mem.initialized ≡ true)
          × (same_layout a.internal_size a.object_size w.mem ≡ true)
          × (w'.mem ≡ w.mem))
        ⊎ ((w.mem.initialized ≡ false)
            × (w'.mem ≡ fresh_registry a.internal_size a.object_size (length w.mem.objects)))
      → main_exit k ≡ (if a.kobject then kobject_put ∷ [] else []) ++ (global_mem_free ∷ [])
      → LoadEnds a w none k w'
  -- No memory, and none is held.
  no_memory :
      {k : Module} {w' : World}
      → a.allocated ≡ false
      → w' ≡ record w { sem = 1 }
      → k.process.has_mem ≡ false
      → LoadEnds a w (some enomem) k w'
  -- Another layout: the memory is still held.
  other_layout :
      {k : Module} {w' : World}
      → a.allocated ≡ true
      → same_layout a.internal_size a.object_size w.mem ≡ false
      → w' ≡ record w { sem = 1 }
      → k.process.has_mem ≡ true
      → LoadEnds a w (some enomem) k w'

-- Loading the module always returns, whatever the semaphore was, and leaves it at 1. It succeeds with
-- the registry that was there, of the module's own layout, or with a new one, and unloading then puts
-- the directory, if it was made, and frees the memory, each once; or it fails with ENOMEM and the
-- registry is as it was, where it holds no memory if there was none, and still holds the memory if the
-- layout is another.
pub main_init-LoadEnds :
    (a : ModuleAnswers) (w : World)
    → (r : Option Errno) × (k : Module) × (w' : World) × (main_init a w ≡ some ((r, k), w'))
      × LoadEnds a w r k w'
unfolding main_init kernel_init init_mem registry_init after_init global_sem_wait global_sem_post
    main_exit kernel_exit
main_init-LoadEnds a w = elim (Bool-cases a.allocated) [
  | inr z ↦
      let r = after_init a (some enomem, record { has_mem = false }) in
      (r.0, r.1, record w { sem = 1 }, ground arith, no_memory z refl refl)
  | inl z ↦ elim (Bool-cases w.mem.initialized) [
    | inr f ↦
        let r = after_init a (none, record { has_mem = true }) in
        let m' = fresh_registry a.internal_size a.object_size (length w.mem.objects) in
        (
          r.0,
          r.1,
          record w { sem = 1; mem = m' },
          ground arith,
          loaded z refl (inr (f, refl)) (ground arith),
        )
    | inl f ↦ elim (Bool-cases (same_layout a.internal_size a.object_size w.mem)) [
      | inl s ↦
          let r = after_init a (none, record { has_mem = true }) in
          (
            r.0,
            r.1,
            record w { sem = 1 },
            ground arith,
            loaded z refl (inl (f, s, refl)) (ground arith),
          )
      | inr s ↦
          let r = after_init a (some ebusy, record { has_mem = true }) in
          (r.0, r.1, record w { sem = 1 }, ground arith, other_layout z s refl refl)
    ]
  ]
]
