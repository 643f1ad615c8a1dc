-- ===== src/Posix/Lifecycle.antt =====
-- A shared object of the POSIX back-end from its making on, src/new_common.c, sys/posix/src/mem.c and
-- sys/posix/src/lock.c: processes attach to it and detach from it until nobody uses it.
use urt.Base.{
  ℕ, ◌+◌, ◌-◌, ◌^◌, ◌<◌, ◌≡◌, refl, ap, ◌∙◌, true, some, List, [], ◌∷◌, if◌then◌else◌, arith,
  length,
}
use urt.Name.{name_eq}
use urt.Name.Laws.{name_eq_refl}
use urt.Global.{Result, ok, World, M, ◌>>=◌, ◌>>◌, pure, object_at, log, SysCall}
use urt.Registry.{find_by_name}
use urt.Registry.Invariant.{IsValid, Taken}
use urt.Registry.Attach.{found_slot, dec_name_count-Detached}
use urt.Shared.{Handle, shobj_attach}
use urt.Shared.New.{Made}
use urt.Shared.Attach.{shobj_attach-Joined}
use urt.Posix.Kinds.{
  ObjectKind, in_memory, detach_from, release_of, detach_from_lem, ends, ends-append, others_end,
}

pub data Op : Type 0 where
  attach detach : Op

-- The users that are left, where each operation finds one and one stays.
abbrev pub Lasts : List Op → ℕ → Type 0
Lasts [] n = Unit
Lasts (attach ∷ ops) n = (n + 1 < 2 ^ 32) × Lasts ops (n + 1)
Lasts (detach ∷ ops) n = (1 < n) × Lasts ops (n - 1)

abbrev pub users : List Op → ℕ → ℕ
users [] n = n
users (attach ∷ ops) n = users ops (n + 1)
users (detach ∷ ops) n = users ops (n - 1)

-- Attaching goes through SHOBJ_ATTACH with `call`; a process detaches from the object of slot `i`.
unfoldable pub run : ObjectKind → M (Result ℕ) → List ℕ → ℕ → ℕ → List Op → M (Unit {0})
unfolding shobj_attach detach_from
run k call name i address [] = pure tt
run k call name i address (attach ∷ ops) =
    shobj_attach (in_memory k) call name >>= λ r. run k call name i address ops
run k call name i address (detach ∷ ops) =
    detach_from k (record { address = address; id = i }) >> run k call name i address ops

-- The object of slot `i` has `n` users, under its name; the names that are found are those of `w` and
-- this one; and nothing was unlinked since `w1`.
pub record Living (name : List ℕ) (w : World) (i : ℕ) (w1 : World) (n : ℕ) (u : World)
    : Type 0 where
  pub valid : IsValid u.mem
  pub sem_back : u.sem ≡ w.sem
  pub lookup :
      (other : List ℕ)
      → find_by_name u.mem other ≡ (if name_eq name other then some i else find_by_name w.mem other)
  pub count : (object_at u.mem i).count ≡ n
  pub same_name : (object_at u.mem i).name ≡ (object_at w1.mem i).name
  pub same_size : (object_at u.mem i).size ≡ (object_at w1.mem i).size
  pub no_end : ends u.calls ≡ ends w1.calls

module _ (k : ObjectKind) (kind sz : ℕ) (name : List ℕ) (w : World) (i : ℕ) (w1 : World)
    (address obj : ℕ) (call : M (Result ℕ)) (cs : List SysCall) (h : 0 < w.sem)
    (made : Made (in_memory k) kind sz name w i w1)
    (works : (u : World) → call u ≡ some (ok obj, log cs u)) (quiet : ends cs ≡ 0) where
  Living-first : Living name w i w1 1 w1
  Living-first = record {
    valid = made.valid;
    sem_back = made.sem_back;
    lookup = made.lookup;
    count = made.one_user;
    same_name = refl;
    same_size = refl;
    no_end = refl;
  }

  Living-slot :
      (n : ℕ) (u : World)
      → Living name w i w1 n u
      → (i < length u.mem.objects) × Taken u.mem i × (name_eq (object_at u.mem i).name name ≡ true)
  Living-slot n u l =
      found_slot u.mem name i l.valid (ground (arith, l.lookup name, name_eq_refl name))

  attach_step :
      (n : ℕ) (u : World)
      → n + 1 < 2 ^ 32
      → Living name w i w1 n u
      → (r : Result Handle) × (u' : World) × (shobj_attach (in_memory k) call name u ≡ some (r, u'))
        × Living name w i w1 (n + 1) u'
  attach_step n u room l =
      let found : find_by_name u.mem name ≡ some i =
        ground (arith, l.lookup name, name_eq_refl name) in
      let j =
        shobj_attach-Joined (in_memory k) call name i u obj cs (rw l.sem_back h) l.valid found
          (rw l.count room) works in
      (
        _,
        j.0,
        j.1,
        record {
          valid = j.2.valid;
          sem_back = j.2.sem_back ∙ l.sem_back;
          lookup = λ other. j.2.lookup other ∙ l.lookup other;
          count = omega (arith, j.2.one_more, l.count);
          same_name = j.2.same_name ∙ l.same_name;
          same_size = j.2.same_size ∙ l.same_size;
          no_end = ap ends j.2.calls_made ∙ omega (arith, ends-append cs u.calls, quiet, l.no_end);
        },
      )

  detach_step :
      (n : ℕ) (u : World)
      → 1 < n
      → Living name w i w1 n u
      → (u' : World) × (detach_from k (record { address = address; id = i }) u ≡ some (tt, u'))
        × Living name w i w1 (n - 1) u'
  detach_step n u more l =
      let at = Living-slot n u l in
      let d = dec_name_count-Detached (release_of k) i u (rw l.sem_back h) l.valid at.0 at.1 in
      (
        d.0,
        detach_from_lem k address i u ∙ d.1,
        record {
          valid = d.4.valid;
          sem_back = d.2 ∙ l.sem_back;
          lookup = λ other. ground (arith, d.4.lookup other, l.lookup other, l.count);
          count = omega (arith, d.4.one_less, l.count);
          same_name = d.4.same_name ∙ l.same_name;
          same_size = d.4.same_size ∙ l.same_size;
          no_end =
              ap ends d.3
              ∙ ground (arith, others_end k (object_at u.mem i) u.calls, l.count, l.no_end);
        },
      )

  run_lem :
      (ops : List Op) (n : ℕ) (u : World)
      → Lasts ops n
      → Living name w i w1 n u
      → (u' : World) × (run k call name i address ops u ≡ some (tt, u'))
        × Living name w i w1 (users ops n) u'
  unfolding run
  run_lem [] n u lasts l = (u, refl, l)
  run_lem (attach ∷ ops) n u (room, lasts) l =
      let a = attach_step n u room l in
      let r = run_lem ops (n + 1) a.1 lasts a.3 in (r.0, ground (arith, a.2, r.1), r.2)
  run_lem (detach ∷ ops) n u (more, lasts) l =
      let a = detach_step n u more l in
      let r = run_lem ops (n - 1) a.0 lasts a.2 in (r.0, ground (arith, a.1, r.1), r.2)

  -- However processes attach to and detach from a shared memory, mutex, reader-writer lock, condition or
  -- semaphore that was made under an open semaphore, by a call that succeeds, unlinks no name and
  -- destroys no lock, and as long as it keeps a user and fewer than 2^32 of them: its name is found in
  -- its slot, which has as many users as are attached, every other name is found where it was before the
  -- object was made, no name is unlinked, and no lock is destroyed.
  pub run-Living :
      (ops : List Op)
      → Lasts ops 1
      → (u : World) × (run k call name i address ops w1 ≡ some (tt, u))
        × Living name w i w1 (users ops 1) u
  run-Living ops lasts = run_lem ops 1 w1 lasts Living-first
