-- ===== src/Tools/Clear.antt =====
-- What tools/clear does to the registry.
use urt.Base.{
  ℕ, ◌<◌, ◌≡◌, refl, sym, ◌∙◌, inl, inr, Bool, true, false, none, some, List, [], ◌∷◌, ◌++◌,
  if◌then◌else◌, arith, Bool-cases,
}
use urt.Name.{name_eq}
use urt.Name.Laws.{name_eq_iff}
use urt.Global.{World, object_at, global_sem_wait_pos, global_sem_post_calls, log}
use urt.Registry.{find_by_name, force_clear_name}
use urt.Registry.Find.{find_by_name_congr}
use urt.Registry.Invariant.{IsValid}
use urt.Registry.Attach.{found_slot}
use urt.Registry.Clear.{force_clear_name_lem}
use urt.Setup.{SetupAnswers, init, init_sys, init_sem, init_mem, registry_init, same_layout, exit}
use urt.Param.{str_eq}
use urt.Tools.{is_help, dashes, done, joined, with_urt, clear_from, clear_main}

-- The names that the arguments stand for: those before a help option, without the first `--`.
abbrev pub names_of : List (List ℕ) → Bool → List (List ℕ)
names_of [] ignore_options = []
names_of (arg ∷ args) true = arg ∷ names_of args true
names_of (arg ∷ args) false =
    if is_help arg
    then []
    else if str_eq arg dashes
    then names_of args true
    else arg ∷ names_of args false

-- One of the names is `other`, as names are compared.
abbrev pub one_of : List (List ℕ) → List ℕ → Bool
one_of [] other = false
one_of (name ∷ names) other = if name_eq name other then true else one_of names other

-- The registry with the names gone, and every other name where it was.
pub record Gone (names : List (List ℕ)) (w w' : World) : Type 0 where
  pub valid : IsValid w'.mem
  pub sem_back : w'.sem ≡ w.sem
  pub lookup :
      (other : List ℕ)
      → find_by_name w'.mem other ≡ (if one_of names other then none else find_by_name w.mem other)

name_eq-same : (s t u : List ℕ) → name_eq s t ≡ true → name_eq s u ≡ name_eq t u
name_eq-same s t u e = elim (Bool-cases (name_eq s u)) [
  | inl a ↦ a ∙ sym ((name_eq_iff t u).1 (sym ((name_eq_iff s t).0 e) ∙ (name_eq_iff s u).0 a))
  | inr a ↦ elim (Bool-cases (name_eq t u)) [
    | inl b ↦ absurd (cc (a, (name_eq_iff s u).1 ((name_eq_iff s t).0 e ∙ (name_eq_iff t u).0 b)))
    | inr b ↦ a ∙ sym b
  ]
]

-- One more name that is gone.
force_clear_name-Gone :
    (name : List ℕ) (w : World)
    → 0 < w.sem
    → IsValid w.mem
    → (w' : World) × (force_clear_name name w ≡ some (tt, w')) × Gone (name ∷ []) w w'
force_clear_name-Gone name w h v = elim (force_clear_name_lem name w h v) [
  | inl (miss, e) ↦ (
    w,
    e,
    record {
      valid = v;
      sem_back = refl;
      lookup = λ other. elim (Bool-cases (name_eq name other)) [
        | inl a ↦
            rw a (sym (find_by_name_congr w.mem name other ((name_eq_iff name other).0 a)) ∙ miss)
        | inr a ↦ rw a refl
      ];
    },
  )
  | inr (i, m', cs, hit, e, unlinked, gone, c) ↦ (
    record w { mem = m'; calls = cs ++ w.calls },
    e,
    record {
      valid = c.valid;
      sem_back = refl;
      lookup = λ other.
          c.lookup other
          ∙ rw (name_eq-same (object_at w.mem i).name name other (found_slot w.mem name i v hit).2)
              (ground arith);
    },
  )
]

Gone-trans :
    (name : List ℕ) (names : List (List ℕ)) (w w' w'' : World)
    → Gone (name ∷ []) w w'
    → Gone names w' w''
    → Gone (name ∷ names) w w''
Gone-trans name names w w' w'' g k = record {
  valid = k.valid;
  sem_back = k.sem_back ∙ g.sem_back;
  lookup = λ other. ground (arith, k.lookup other, g.lookup other);
}

clear_from-Gone :
    (args : List (List ℕ)) (ignore_options : Bool) (w : World)
    → 0 < w.sem
    → IsValid w.mem
    → (b : Bool) × (w' : World) × (clear_from args ignore_options w ≡ some (b, w'))
      × Gone (names_of args ignore_options) w w'
unfolding clear_from
clear_from-Gone [] o w h v =
    (false, w, refl, record { valid = v; sem_back = refl; lookup = λ other. refl })
clear_from-Gone (arg ∷ args) true w h v =
    let c = force_clear_name-Gone arg w h v in
    let r = clear_from-Gone args true c.0 (rw c.2.sem_back h) c.2.valid in
    (r.0, r.1, ground (arith, c.1, r.2), Gone-trans arg (names_of args true) w c.0 r.1 c.2 r.3)
clear_from-Gone (arg ∷ args) false w h v = elim (Bool-cases (is_help arg)) [
  | inl a ↦ rw a (true, w, refl, record { valid = v; sem_back = refl; lookup = λ other. refl })
  | inr a ↦ elim (Bool-cases (str_eq arg dashes)) [
    | inl b ↦ rw (a, b) (clear_from-Gone args true w h v)
    | inr b ↦
        let c = force_clear_name-Gone arg w h v in
        let r = clear_from-Gone args false c.0 (rw c.2.sem_back h) c.2.valid in
        rw (a, b)
          (
            r.0,
            r.1,
            ground (arith, c.1, r.2),
            Gone-trans arg (names_of args false) w c.0 r.1 c.2 r.3,
          )
  ]
]

-- A process that is not in the registry yet, with a registry of its own layout, joins it.
pub init_joins :
    (os : SetupAnswers) (w : World)
    → 0 < w.sem
    → os.sys_error ≡ none
    → os.sem_error ≡ none
    → os.mem_error ≡ none
    → w.mem.initialized ≡ true
    → same_layout os.internal_size os.object_size w.mem ≡ true
    → init os (record { has_mem = false }) w
      ≡ some ((none, record { has_mem = true }), log os.mem_calls w)
unfolding init init_sys init_sem init_mem registry_init
init_joins os w h a b c z s =
    ground
      (arith, global_sem_wait_pos w h, global_sem_post_calls w w.mem (os.mem_calls ++ w.calls) h)

-- On a valid registry that is open, of the program's own layout, and which the system lets it join,
-- clear with at least one argument ends with success and has left the registry: every name that was
-- given (the arguments before a help option, without the first `--`) is found no more, every other name
-- is found where it was, and the semaphore is given back.
pub clear_main-Gone :
    (os : SetupAnswers) (arg : List ℕ) (args : List (List ℕ)) (w : World)
    → 0 < w.sem
    → IsValid w.mem
    → os.sys_error ≡ none
    → os.sem_error ≡ none
    → os.mem_error ≡ none
    → w.mem.initialized ≡ true
    → same_layout os.internal_size os.object_size w.mem ≡ true
    → (b : Bool) × (w' : World) × (clear_main os (arg ∷ args) w
        ≡ some (done b (record { has_mem = false }), w'))
      × Gone (names_of (arg ∷ args) false) w w'
unfolding clear_main with_urt joined exit
clear_main-Gone os arg args w h v a b c z s =
    let r = clear_from-Gone (arg ∷ args) false (log os.mem_calls w) h v in
    (
      r.0,
      r.1,
      ground (arith, init_joins os w h a b c z s, r.2),
      record { valid = r.3.valid; sem_back = r.3.sem_back; lookup = r.3.lookup },
    )
