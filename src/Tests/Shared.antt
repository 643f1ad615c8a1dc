-- ===== src/Tests/Shared.antt =====
-- Instances for shared objects and the POSIX back-end.
use urt.Base.{◌<◌, ℕ, ◌≡◌, refl, inr, true, none, some, List, [], ◌∷◌, arith}
use urt.Global.{enomem, einval, Result, ok, err, World, M, object_at, log, shm_unlink, close}
use urt.SysName.{convert_name, convert_char}
use urt.Name.{name_eq}
use urt.Registry.{find_by_name, is_used}
use urt.Registry.Invariant.{IsValid}
use urt.Registry.Attach.{Detached}
use urt.Shared.{shmem_attach, add_book_keeping, shobj_new, shobj_attach}
use urt.Shared.Attach.{shobj_attach_rollback}
use urt.Shared.New.{Made, shobj_new-Made, shobj_new_rollback}
use urt.Posix.{sys_shmem_new, ShmAnswers, sys_shmem_attach, pthread_shlock_new}
use urt.Posix.Laws.{shmem_attach_unlinks_used, pthread_shlock_new_hits_slot}
use urt.Tests.Registry.{
  start, two_slots, two_slots-IsValid, name_b, with_b, reserve_b, Taken-slot_a,
}

-- A system whose mmap fails, and one on which all works.
abbrev no_room : ShmAnswers
no_room = record {
  open_error = none;
  truncate_error = none;
  stat = ok 24;
  map = λ size. err enomem;
}

abbrev pub has_room : ShmAnswers
has_room = record { open_error = none; truncate_error = none; stat = ok 24; map = λ size. ok 4096 }

abbrev pub works : M (Result ℕ)
works = sys_shmem_new has_room name_b 24

pub works_lem : (u : World) → works u ≡ some (ok 4096, log (close ∷ []) u)
unfolding sys_shmem_new convert_name convert_char
works_lem u = refl

abbrev fails : M (Result ℕ)
fails = sys_shmem_new no_room name_b 24

fails_lem :
    (u : World) → fails u ≡ some (err enomem, log (shm_unlink (b'/' ∷ b'B' ∷ []) ∷ close ∷ []) u)
unfolding sys_shmem_new convert_name convert_char
fails_lem u = refl

abbrev pub made_b :
    (w' : World) × (shobj_new true 1 8 works name_b start
      ≡ some (ok (add_book_keeping true 4096 1), w'))
    × Made true 1 8 name_b start 1 w'
made_b =
    shobj_new-Made true 1 8 works name_b start 4096 1 with_b (close ∷ []) (omega arith)
      two_slots-IsValid reserve_b works_lem

shobj_new_rollback_example :
    (w' : World) × (shobj_new true 1 8 fails name_b start ≡ some (err enomem, w'))
    × (w'.sem ≡ 1)
    × (w'.calls ≡ shm_unlink (b'/' ∷ b'B' ∷ []) ∷ close ∷ [])
    × IsValid w'.mem
    × ((other : List ℕ) → find_by_name w'.mem other ≡ find_by_name two_slots other)
shobj_new_rollback_example =
    shobj_new_rollback true 1 8 fails name_b start enomem 1 with_b
      (shm_unlink (b'/' ∷ b'B' ∷ []) ∷ close ∷ []) (omega arith) two_slots-IsValid reserve_b
      fails_lem

b_name : convert_name name_b ≡ some (b'/' ∷ b'B' ∷ [])
unfolding convert_name convert_char
b_name = refl

pthread_shlock_new_hits_slot_example :
    (w' : World) × (pthread_shlock_new has_room 0 (some einval) 40 name_b start
      ≡ some (err einval, w'))
    × Detached 0 two_slots w'.mem
pthread_shlock_new_hits_slot_example =
    pthread_shlock_new_hits_slot has_room 0 40 name_b (b'/' ∷ b'B' ∷ []) einval 4096 start
      (omega arith) two_slots-IsValid (omega arith) Taken-slot_a b_name refl refl refl

abbrev pub name_a : List ℕ
name_a = b'A' ∷ []

pub found_a : find_by_name two_slots name_a ≡ some 0
unfolding find_by_name name_eq is_used
found_a = refl

shobj_attach_rollback_example :
    (w' : World) × (shobj_attach true fails name_a start ≡ some (err enomem, w'))
    × (w'.sem ≡ 1)
    × (w'.calls ≡ shm_unlink (b'/' ∷ b'B' ∷ []) ∷ close ∷ [])
    × IsValid w'.mem
    × ((object_at w'.mem 0).count ≡ 2)
    × ((other : List ℕ) → find_by_name w'.mem other ≡ find_by_name two_slots other)
shobj_attach_rollback_example =
    shobj_attach_rollback true fails name_a 0 start enomem
      (shm_unlink (b'/' ∷ b'B' ∷ []) ∷ close ∷ []) (omega arith) two_slots-IsValid found_a
      (omega arith) (omega arith) fails_lem

a_name : convert_name name_a ≡ some (b'/' ∷ b'A' ∷ [])
unfolding convert_name
a_name = refl

shmem_attach_unlinks_used_example :
    (w' : World) × (shmem_attach (sys_shmem_attach no_room) name_a start ≡ some (err enomem, w'))
    × (find_by_name w'.mem name_a ≡ some 0)
    × ((object_at w'.mem 0).count ≡ 2)
    × (0 < (object_at w'.mem 0).count)
    × (w'.calls ≡ shm_unlink (b'/' ∷ b'A' ∷ []) ∷ close ∷ [])
shmem_attach_unlinks_used_example =
    shmem_attach_unlinks_used no_room name_a (b'/' ∷ b'A' ∷ []) 0 enomem start (omega arith)
      two_slots-IsValid found_a (omega arith) (omega arith) a_name refl (inr (24, refl, refl))
