-- ===== src/Tasks/Setup/Producer.antt =====
-- The set-up and the end of the producers of lab5: producer.c of lab5/zad1, which makes the calls of
-- Tasks/Setup, and of lab5/zad2 and lab5/zad3, which do not look at the results of mmap and sem_open.
use sys_op.Prelude.{ℕ, ◌≡◌, refl, Bool, true, false, ◌&&◌, if◌then◌else◌, List, [], ◌∷◌, arith}
use sys_op.Tasks.Setup.{
  Names, Globals, Pc, opening, sizing, mapping, opening_mutex, opening_empty, opening_full,
  checking, started, exited, Process, setup_at, no_globals, Closed, sem_close_mutex,
  sem_close_empty, sem_close_full, munmap_shm, close_shm, cleanup_calls,
}

-- What comes back from the six calls of the set-up.
pub record Outcome : Type 0 where
  pub open_ok : Bool
  pub size_ok : Bool
  pub map_ok : Bool
  pub mutex_ok : Bool
  pub empty_ok : Bool
  pub full_ok : Bool

-- The globals that hold what the calls have opened.
abbrev pub opened : Outcome → Globals
opened c = record {
  shm_fd = c.open_ok;
  shm_ptr = c.map_ok;
  mutex = c.mutex_ok;
  empty = c.empty_ok;
  full = c.full_ok;
}

-- `cleanup` at the end of a producer, which does not look at its globals, and its exit status.
unfoldable pub disconnect : List Closed × ℕ
disconnect = (sem_close_mutex ∷ sem_close_empty ∷ sem_close_full ∷ munmap_shm ∷ close_shm ∷ [], 0)

module _ {Shared : Type 0} (zeroed : Shared) (k : ℕ) where
  -- One call of a producer of lab5/zad2 or lab5/zad3; behind `full` it starts in any case.
  unfoldable pub unchecked_at : Bool → Pc → Globals → Names Shared → Process × Names Shared
  unchecked_at true mapping g m = setup_at zeroed k true mapping g m
  unchecked_at false mapping g m = (record { globals = g; pc = opening_mutex }, m)
  unchecked_at ok checking g m = (record { globals = g; pc = started }, m)
  unchecked_at ok opening g m = setup_at zeroed k ok opening g m
  unchecked_at ok sizing g m = setup_at zeroed k ok sizing g m
  unchecked_at ok opening_mutex g m = setup_at zeroed k ok opening_mutex g m
  unchecked_at ok opening_empty g m = setup_at zeroed k ok opening_empty g m
  unchecked_at ok opening_full g m = setup_at zeroed k ok opening_full g m
  unchecked_at ok started g m = (record { globals = g; pc = started }, m)
  unchecked_at ok (exited status) g m = (record { globals = g; pc = exited status }, m)

abbrev pub all_ok : Outcome → Bool
all_ok c = c.open_ok && c.size_ok && c.map_ok && c.mutex_ok && c.empty_ok && c.full_ok

-- The calls of one process that runs alone.
abbrev pub alone :
    {Shared : Type 0}
    → (Bool → Pc → Globals → Names Shared → Process × Names Shared)
    → List Bool
    → Process × Names Shared
    → Process × Names Shared
alone setup [] (p, m) = (p, m)
alone setup (ok ∷ oks) (p, m) = alone setup oks (setup ok p.pc p.globals m)

module _ {Shared : Type 0} (zeroed : Shared) (k : ℕ) where
  -- The set-up of a process on the names `m`.
  abbrev pub set_up :
      (Bool → Pc → Globals → Names Shared → Process × Names Shared)
      → Outcome
      → Names Shared
      → Process × Names Shared
  set_up setup c m =
      alone setup
        (c.open_ok ∷ c.size_ok ∷ c.map_ok ∷ c.mutex_ok ∷ c.empty_ok ∷ c.full_ok ∷ true ∷ [])
        (record { globals = no_globals zeroed k; pc = opening }, m)

  -- How the two kinds of process stand behind their set-up, when its calls come out as `c`.
  pub record SetsUp (c : Outcome) (m : Names Shared) : Type 0 where
    pub checked : (set_up (setup_at zeroed k) c m).0.pc ≡ (if all_ok c then started else exited 1)
    pub producer : (set_up (unchecked_at zeroed k) c m).0 ≡ (
        if c.open_ok && c.size_ok then record { globals = opened c; pc = started } else record {
          globals = record (no_globals zeroed k) { shm_fd = c.open_ok };
          pc = exited 1;
        })

  mapped :
      (m : Names Shared) (a b c d : Bool)
      → SetsUp
          (record {
            open_ok = true;
            size_ok = true;
            map_ok = a;
            mutex_ok = b;
            empty_ok = c;
            full_ok = d;
          })
          m
  unfolding setup_at unchecked_at
  mapped m true true true true = record { checked = refl; producer = refl }
  mapped m true true true false = record { checked = refl; producer = refl }
  mapped m true true false true = record { checked = refl; producer = refl }
  mapped m true true false false = record { checked = refl; producer = refl }
  mapped m true false true true = record { checked = refl; producer = refl }
  mapped m true false true false = record { checked = refl; producer = refl }
  mapped m true false false true = record { checked = refl; producer = refl }
  mapped m true false false false = record { checked = refl; producer = refl }
  mapped m false true true true = record { checked = refl; producer = refl }
  mapped m false true true false = record { checked = refl; producer = refl }
  mapped m false true false true = record { checked = refl; producer = refl }
  mapped m false true false false = record { checked = refl; producer = refl }
  mapped m false false true true = record { checked = refl; producer = refl }
  mapped m false false true false = record { checked = refl; producer = refl }
  mapped m false false false true = record { checked = refl; producer = refl }
  mapped m false false false false = record { checked = refl; producer = refl }

  settled :
      (m : Names Shared) (o s a b c d : Bool)
      → SetsUp
          (record { open_ok = o; size_ok = s; map_ok = a; mutex_ok = b; empty_ok = c; full_ok = d })
          m
  unfolding setup_at unchecked_at
  settled m false s a b c d = record { checked = refl; producer = refl }
  settled m true false a b c d = record { checked = refl; producer = refl }
  settled m true true a b c d = mapped m a b c d

  -- Whatever comes back from the calls: a consumer, a manager and the producer of lab5/zad1 start if
  -- all six calls have succeeded, and else exit with 1; a producer of lab5/zad2 or lab5/zad3 starts as
  -- soon as shm_open and ftruncate have, with exactly those globals opened whose calls have succeeded,
  -- and else exits with 1.
  pub set_up-SetsUp : (c : Outcome) (m : Names Shared) → SetsUp c m
  set_up-SetsUp c m = settled m c.open_ok c.size_ok c.map_ok c.mutex_ok c.empty_ok c.full_ok

-- A process that has opened everything closes the same, in the same order, by its handler as a
-- producer does at its end.
disconnect-cleanup_calls : (c : Outcome) → all_ok c ≡ true → cleanup_calls (opened c) ≡ disconnect
unfolding cleanup_calls disconnect
disconnect-cleanup_calls c e =
    let on : (c.open_ok ≡ true) × (c.map_ok ≡ true) = (ground arith, ground arith) in
    let sems : (c.mutex_ok ≡ true) × (c.empty_ok ≡ true) × (c.full_ok ≡ true) =
      (ground arith, ground arith, ground arith) in
    rw (on.0, on.1, sems.0, sems.1, sems.2) refl
