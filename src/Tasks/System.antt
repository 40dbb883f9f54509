-- ===== src/Tasks/System.antt =====
-- Any number of producers, consumers and managers of lab5 over one memory, interleaved in any order.
pub mod Invariant
pub mod Safety
pub mod Progress
pub mod Interrupt
pub mod Kills
use sys_op.Prelude.{
  ℕ, suc, ◌≤◌, ◌<◌, ◌≡◌, Option, none, some, List, [], ◌∷◌, ◌++◌, get_elem?, set, All,
}
use sys_op.Tasks.Store.{Store, Implements}
use sys_op.Tasks.Process.{
  Memory, Event, inserted, removed, aged, Producer, Consumer, Manager, Result, making, want_task,
  sleeping, producer_step, consumer_step, manager_step,
}

module _ (S : Store) where
  open S use {Shared, Draw, Taken}

  pub data Process : Type 0 where
    producer : Producer S → Process
    consumer : Consumer S → Process
    manager : Manager S → Process

  -- `log` is the history of the shared memory, newest first. No process reads it.
  pub record System : Type 0 where
    pub mem : Memory S
    pub procs : List Process
    pub log : List (Event S)

  abbrev pub Outcome : Type 0
  Outcome = Option (Memory S × Process × List (Event S))

  abbrev pub wrap : {P : Type 0} → (P → Process) → Result S P → Outcome
  wrap f none = none
  wrap f (some (m, p, es)) = some (m, f p, es)

  -- One call of one process.
  unfoldable pub process_step : Draw → Process → Memory S → Outcome
  process_step d (producer p) m = wrap producer (producer_step S d p m)
  process_step d (consumer p) m = wrap consumer (consumer_step S p m)
  process_step d (manager p) m = wrap manager (manager_step S p m)

  -- What the system becomes by the outcome of the process at `i`; one that blocks changes nothing.
  abbrev pub next : System → ℕ → Outcome → System
  next s i none = s
  next s i (some (m, p', es)) = record { mem = m; procs = set s.procs i p'; log = es ++ s.log }

  -- The scheduler picks a process, and what it draws if it makes a task.
  unfoldable pub step : System → ℕ × Draw → System
  step s (i, d) = elim (get_elem? s.procs i) [
    | none ↦ s
    | some p ↦ next s i (process_step d p s.mem)
  ]

  unfoldable pub run : List (ℕ × Draw) → System → System
  run [] s = s
  run (pick ∷ picks) s = run picks (step s pick)

  -- Where each program starts; a producer has its rounds ahead of it.
  abbrev pub IsStart : Process → Type 0
  IsStart (producer (making left)) = Unit
  IsStart (producer _) = ⊥
  IsStart (consumer want_task) = Unit
  IsStart (consumer _) = ⊥
  IsStart (manager sleeping) = Unit
  IsStart (manager _) = ⊥

  -- The semaphores as `sem_open` makes them.
  abbrev pub init : ℕ → Shared → List Process → System
  init k s ps = record {
    mem = record { shared = s; mutex = 1; empty = k; full = 0 };
    procs = ps;
    log = [];
  }
