-- ===== src/Tools.antt =====
-- The programs in tools: clear, dump, names and recover, which join the registry, do their work
-- and leave. `scan` is what sscanf reads with the format %zu; the arguments are those behind the
-- program's name.
pub mod Clear
pub mod Requests
use urt.Base.{ℕ, Bool, true, false, Option, none, some, List, [], ◌∷◌, ◌||◌, if◌then◌else◌}
use urt.Param.{str_eq, help_long, help_short}
use urt.Global.{Errno, World, M, pure, ◌>>=◌, ◌>>◌}
use urt.Registry.{force_clear_name}
use urt.Setup.{SetupAnswers, Process, init, exit, recover}
use urt.Dump.{BackEnd, Dumped, dump_memory, Listed, print_names}
use urt.Shared.{Handle}

unfoldable pub is_help : List ℕ → Bool
unfolding str_eq
is_help arg = str_eq arg help_long || str_eq arg help_short

abbrev pub size_long : List ℕ
size_long = b'-' ∷ b'-' ∷ b's' ∷ b'i' ∷ b'z' ∷ b'e' ∷ []

abbrev pub size_short : List ℕ
size_short = b'-' ∷ b's' ∷ []

unfoldable pub is_size : List ℕ → Bool
unfolding str_eq
is_size arg = str_eq arg size_long || str_eq arg size_short

abbrev pub dashes : List ℕ
dashes = b'-' ∷ b'-' ∷ []

-- What the loop of dump does for an argument.
pub data Act : Type 0 where
  show_help : Act
  bad_size : Act
  dump : List ℕ → ℕ → ℕ → Act

-- The loop of dump: the arguments left, `ignore_options`, `start` and `end`.
unfoldable pub dump_from : (List ℕ → Option ℕ) → List (List ℕ) → Bool → ℕ → ℕ → List Act
unfolding is_help is_size str_eq
dump_from scan [] ignore_options start end = []
dump_from scan (arg ∷ args) true start end = dump arg start end ∷ dump_from scan args true 0 0
dump_from scan (arg ∷ []) false start end =
    if is_help arg
    then show_help ∷ []
    else if is_size arg || str_eq arg dashes
    then []
    else dump arg start end ∷ []
dump_from scan (arg ∷ a ∷ []) false start end =
    if is_help arg
    then show_help ∷ []
    else if is_size arg
    then []
    else if str_eq arg dashes
    then dump_from scan (a ∷ []) true start end
    else dump arg start end ∷ dump_from scan (a ∷ []) false 0 0
dump_from scan (arg ∷ a ∷ b ∷ args) false start end =
    if is_help arg
    then show_help ∷ []
    else if is_size arg
    then (elim (scan a) [
      | none ↦ bad_size ∷ dump_from scan (b ∷ args) false start end
      | some s ↦ elim (scan b) [
        | none ↦ dump_from scan (b ∷ args) false s end
        | some e ↦ dump_from scan args false s e
      ]
    ])
    else if str_eq arg dashes
    then dump_from scan (a ∷ b ∷ args) true start end
    else dump arg start end ∷ dump_from scan (a ∷ b ∷ args) false 0 0

-- How a program ends: with its usage, for want of arguments; with what urt_init returned, which is the
-- one failure in its exit status; or with its work done, and the process as urt_exit leaves it.
pub data Ended (A : Type 0) : Type 0 where
  usage : Ended A
  no_init : Errno → Ended A
  done : A → Process → Ended A

module _ {A : Type 0} where
  unfoldable pub joined : M A → Option Errno × Process → M (Ended A)
  joined body (some e, p) = pure (no_init e)
  joined body (none, p) = body >>= λ a. pure (done a (exit p).1)

  -- urt_init, the work, and urt_exit.
  unfoldable pub with_urt : SetupAnswers → M A → M (Ended A)
  unfolding joined
  with_urt os body = init os (record { has_mem = false }) >>= joined body

-- The loop of clear: whether the help was shown.
unfoldable pub clear_from : List (List ℕ) → Bool → M Bool
unfolding is_help str_eq
clear_from [] ignore_options = pure false
clear_from (arg ∷ args) true = force_clear_name arg >> clear_from args true
clear_from (arg ∷ args) false =
    if is_help arg
    then pure true
    else if str_eq arg dashes
    then clear_from args true
    else force_clear_name arg >> clear_from args false

-- main of clear
unfoldable pub clear_main : SetupAnswers → List (List ℕ) → M (Ended Bool)
unfolding with_urt clear_from
clear_main os [] = pure usage
clear_main os (arg ∷ args) = with_urt os (clear_from (arg ∷ args) false)

-- What dump shows for an act.
pub data Shown : Type 0 where
  help : Shown
  bad_argument : Shown
  memory : Dumped → Shown

module _ (be : BackEnd) (isalnum : ℕ → Bool) (contents : Handle → List ℕ) where
  unfoldable pub perform : Act → M Shown
  perform show_help = pure help
  perform bad_size = pure bad_argument
  perform (dump name start end) =
      dump_memory be isalnum contents name start end >>= λ d. pure (memory d)

  unfoldable pub perform_all : List Act → M (List Shown)
  unfolding perform
  perform_all [] = pure []
  perform_all (act ∷ acts) = perform act >>= λ s. perform_all acts >>= λ ss. pure (s ∷ ss)

  -- main of dump
  unfoldable pub dump_main :
      (List ℕ → Option ℕ) → SetupAnswers → List (List ℕ) → M (Ended (List Shown))
  unfolding with_urt perform_all dump_from
  dump_main scan os [] = pure usage
  dump_main scan os (arg ∷ args) = with_urt os (perform_all (dump_from scan (arg ∷ args) false 0 0))

-- main of names
unfoldable pub names_main : SetupAnswers → M (Ended Listed)
unfolding with_urt
names_main os = with_urt os print_names

-- main of recover
unfoldable pub recover_main : SetupAnswers → M (Unit {0})
recover_main os = recover os
