-- ===== src/Tasks/Setup.antt =====
-- The set-up of the programs of lab5, before their loops: the calls that open the shared memory and
-- the three named semaphores, as consumer.c and manager.c make and check them, by any number of
-- processes in any order. Producer.c of lab5/zad1 makes the same; those of lab5/zad2 and lab5/zad3,
-- which check fewer of them, are in Setup/Producer.
pub mod Ready
pub mod Started
pub mod Producer
use sys_op.Prelude.{
  ℕ, zero, suc, Bool, true, false, ◌&&◌, if◌then◌else◌, Option, none, some, List, [], ◌∷◌, ◌++◌,
  get_elem?, set, replicate,
}

-- A shared memory object that is not there, that has the size 0, or that has its content.
pub data Segment (Shared : Type 0) : Type 0 where
  absent : Segment Shared
  unsized : Segment Shared
  sized : Shared → Segment Shared

-- The names of the system, which all processes share.
pub record Names (Shared : Type 0) : Type 0 where
  pub shm : Segment Shared
  pub mutex : Option ℕ
  pub empty : Option ℕ
  pub full : Option ℕ

-- The globals of one process: which of them are not -1, MAP_FAILED or SEM_FAILED.
pub record Globals : Type 0 where
  pub shm_fd : Bool
  pub shm_ptr : Bool
  pub mutex : Bool
  pub empty : Bool
  pub full : Bool

-- The next call of a process, or where it is then.
pub data Pc : Type 0 where
  opening sizing mapping opening_mutex opening_empty opening_full checking started : Pc
  exited : (status : ℕ) → Pc

pub record Process : Type 0 where
  pub globals : Globals
  pub pc : Pc

pub record Machine (Shared : Type 0) : Type 0 where
  pub names : Names Shared
  pub procs : List Process

-- shm_open(…, O_CREAT | O_RDWR, …)
abbrev pub shm_open : {Shared : Type 0} → Segment Shared → Segment Shared
shm_open absent = unsized
shm_open unsized = unsized
shm_open (sized s) = sized s

-- ftruncate to the size of `SharedMemory`: new bytes are zeros.
abbrev pub ftruncate : {Shared : Type 0} → Shared → Segment Shared → Segment Shared
ftruncate zeroed absent = absent
ftruncate zeroed unsized = sized zeroed
ftruncate zeroed (sized s) = sized s

-- sem_open(…, O_CREAT, …, value) keeps a semaphore that is there.
abbrev pub sem_open : ℕ → Option ℕ → Option ℕ
sem_open value none = some value
sem_open value (some n) = some n

abbrev all_opened : Globals → Bool
all_opened g = g.mutex && g.empty && g.full

module _ {Shared : Type 0} (zeroed : Shared) (k : ℕ) where
  -- One call of a process; `ok` tells whether it succeeds.
  unfoldable pub setup_at : Bool → Pc → Globals → Names Shared → Process × Names Shared
  setup_at true opening g m = (
    record { globals = record g { shm_fd = true }; pc = sizing },
    record m { shm = shm_open m.shm },
  )
  setup_at false opening g m = (record { globals = g; pc = exited 1 }, m)
  setup_at true sizing g m =
      (record { globals = g; pc = mapping }, record m { shm = ftruncate zeroed m.shm })
  setup_at false sizing g m = (record { globals = g; pc = exited 1 }, m)
  setup_at true mapping g m =
      (record { globals = record g { shm_ptr = true }; pc = opening_mutex }, m)
  setup_at false mapping g m = (record { globals = g; pc = exited 1 }, m)
  setup_at true opening_mutex g m = (
    record { globals = record g { mutex = true }; pc = opening_empty },
    record m { mutex = sem_open 1 m.mutex },
  )
  setup_at false opening_mutex g m = (record { globals = g; pc = opening_empty }, m)
  setup_at true opening_empty g m = (
    record { globals = record g { empty = true }; pc = opening_full },
    record m { empty = sem_open k m.empty },
  )
  setup_at false opening_empty g m = (record { globals = g; pc = opening_full }, m)
  setup_at true opening_full g m = (
    record { globals = record g { full = true }; pc = checking },
    record m { full = sem_open 0 m.full },
  )
  setup_at false opening_full g m = (record { globals = g; pc = checking }, m)
  setup_at ok checking g m =
      (record { globals = g; pc = if all_opened g then started else exited 1 }, m)
  setup_at ok started g m = (record { globals = g; pc = started }, m)
  setup_at ok (exited status) g m = (record { globals = g; pc = exited status }, m)

  abbrev pub call : ℕ → Bool → Option Process → Machine Shared → Machine Shared
  call i ok none s = s
  call i ok (some p) s =
      let (p', m) = setup_at ok p.pc p.globals s.names in
      record { names = m; procs = set s.procs i p' }

  -- The scheduler picks a process.
  unfoldable pub step : Machine Shared → ℕ × Bool → Machine Shared
  step s (i, ok) = call i ok (get_elem? s.procs i) s

  unfoldable pub run : List (ℕ × Bool) → Machine Shared → Machine Shared
  run [] s = s
  run (pick ∷ picks) s = run picks (step s pick)

  abbrev pub no_globals : Globals
  no_globals = record {
    shm_fd = false;
    shm_ptr = false;
    mutex = false;
    empty = false;
    full = false;
  }

  -- `n` processes on a machine without the names.
  abbrev pub clean : ℕ → Machine Shared
  clean n = record {
    names = record { shm = absent; mutex = none; empty = none; full = none };
    procs = replicate n (record { globals = no_globals; pc = opening });
  }

-- What `cleanup_handler` closes and unmaps, in its order.
pub data Closed : Type 0 where
  sem_close_mutex sem_close_empty sem_close_full munmap_shm close_shm : Closed

abbrev when : Bool → Closed → List Closed
when true c = c ∷ []
when false c = []

-- Its calls and its exit status.
unfoldable pub cleanup_calls : Globals → List Closed × ℕ
cleanup_calls g = (
  when g.mutex sem_close_mutex
      ++ (when g.empty sem_close_empty
          ++ (when g.full sem_close_full
              ++ (when g.shm_ptr munmap_shm ++ when g.shm_fd close_shm))),
  0,
)

-- cleaner.c: unlinks the four names. Processes that have the objects open keep them, without a name.
unfoldable pub cleaner : {Shared : Type 0} → Names Shared → Names Shared
cleaner m = record m { shm = absent; mutex = none; empty = none; full = none }
