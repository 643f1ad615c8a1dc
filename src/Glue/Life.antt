-- ===== src/Glue/Life.antt =====
-- How an application of URT_GLUE lives and ends, include/urt_setup.h.
use urt.Base.{
  ℕ, zero, suc, ◌+◌, ◌<◌, ◌≡◌, refl, ◌∙◌, inl, inr, not, Bool, true, false, Option, none, some,
  List, [], ◌∷◌, ◌||◌, arith, Bool-cases, ap,
}
use urt.Global.{Errno}
use urt.Convert.{Libc}
use urt.Param.{Param, parse_args, free_args}
use urt.Param.Owned.{AllNew, all_text, free_args_owned}
use urt.Glue.{
  AppCall, init, body, exit, wait_done, is_error, main, main_init, main_parsed, after_body, cleanup,
}

-- The wait ends when a look finds `done` set.
wait_done_total :
    (done : ℕ → Bool) (n fuel k : ℕ)
    → done (k + n) ≡ true
    → n < fuel
    → (sleeps : ℕ) × (wait_done done fuel k ≡ some sleeps)
unfolding wait_done
wait_done_total done n zero k d h = absurd (omega arith)
wait_done_total done zero (suc fuel) k d h =
    let now : done k ≡ true = ap done (omega arith) ∙ d in (k, ground arith)
wait_done_total done (suc n) (suc fuel) k d h =
    let later = wait_done_total done n fuel (k + 1) (ap done (omega arith) ∙ d) (omega arith) in
    elim (Bool-cases (done k)) [
      | inl now ↦ (k, ground arith)
      | inr not_yet ↦ (later.0, ground (arith, later.1))
    ]

-- Whether the arguments let the application run: they are right, and ask for no help.
abbrev pub runs_on : Option (List Param × Option Errno × Bool) → Bool
runs_on none = false
runs_on (some (ps, e, help)) = not (help || is_error e)

-- How `main` ends, and what it returns: it stops at the arguments, or init fails, or init, body and exit
-- run in this order, each once.
pub data Lived (init_error : Option Errno) (parsed : Option (List Param × Option Errno × Bool))
    : Option Errno → List AppCall → Type 0 where
  stopped :
      {ps : List Param} {e : Option Errno} {help : Bool}
      → parsed ≡ some (ps, e, help)
      → help || is_error e ≡ true
      → Lived init_error parsed e []
  refused :
      {e : Errno}
      → runs_on parsed ≡ true
      → init_error ≡ some e
      → Lived init_error parsed (some e) (init ∷ [])
  finished :
      runs_on parsed ≡ true
      → init_error ≡ none
      → Lived init_error parsed none (init ∷ body ∷ exit ∷ [])

main_init_lem :
    (init_error : Option Errno) (sleeps : ℕ) (parsed : Option (List Param × Option Errno × Bool))
    → runs_on parsed ≡ true
    → (e : Option Errno) × (calls : List AppCall) × (main_init init_error (some sleeps)
        ≡ some (e, calls))
      × Lived init_error parsed e calls
unfolding main_init after_body
main_init_lem (some e) sleeps parsed run = (some e, init ∷ [], refl, refused run refl)
main_init_lem none sleeps parsed run = (none, init ∷ body ∷ exit ∷ [], refl, finished run refl)

main-parsed :
    (c : Libc) (ps : List Param) (args : List (List ℕ)) (init_error : Option Errno)
    (done : ℕ → Bool) (fuel : ℕ) (parsed : List Param × Option Errno × Bool) (sleeps : ℕ)
    → parse_args c ps args ≡ some parsed
    → wait_done done fuel 0 ≡ some sleeps
    → main c ps args init_error done fuel ≡ main_parsed init_error (some sleeps) (some parsed)
unfolding main
main-parsed c ps args init_error done fuel parsed sleeps p waited = rw (p, waited) refl

-- Where no parameter counts an element at first, each variable has the size that its `max` says, and
-- body sets `done` by some look at it, the program that URT_GLUE makes ends: it calls nothing where the
-- arguments are wrong, and returns their error, or where they ask for help; it calls init only, and
-- returns its error, where init fails; otherwise it calls init, body and exit, and returns 0. In each
-- case it frees what urt_free_args frees of the parameters that the parsed arguments left, and these are
-- strings only.
pub main-Lived :
    (c : Libc) (ps : List Param) (args : List (List ℕ)) (init_error : Option Errno)
    (done : ℕ → Bool) (n fuel : ℕ)
    → AllNew ps
    → done n ≡ true
    → n < fuel
    → (e : Option Errno) × (calls : List AppCall) × (ps' : List Param) × (parsed : Option Errno)
      × (help : Bool) × (parse_args c ps args ≡ some (ps', parsed, help))
      × (main c ps args init_error done fuel ≡ some (e, calls, free_args ps'))
      × Lived init_error (parse_args c ps args) e calls
      × (all_text (free_args ps') ≡ true)
unfolding main main_parsed cleanup
main-Lived c ps args init_error done n fuel new d h =
    let p = free_args_owned c ps args new in
    let t = wait_done_total done n fuel 0 (ap done (omega arith) ∙ d) h in
    let reached = main-parsed c ps args init_error done fuel (p.0, p.1, p.2) t.0 p.3 t.1 in
    elim (Bool-cases (p.2 || is_error p.1)) [
      | inl stop ↦ (p.1, [], p.0, p.1, p.2, p.3, reached ∙ rw stop refl, stopped p.3 stop, p.4)
      | inr run ↦
          let m = main_init_lem init_error t.0 (parse_args c ps args) (ground (arith, p.3)) in
          (m.0, m.1, p.0, p.1, p.2, p.3, reached ∙ rw (run, m.2) refl, m.3, p.4)
    ]
