-- ===== src/Tasks/SetupTests.antt =====
-- The set-ups of lab5, and a consumer that a signal ends, on concrete schedules.
use sys_op.Prelude.{ℕ, ◌≡◌, refl, List, [], ◌∷◌, ◌++◌, some, none, true, false, Bool}
use sys_op.Tasks.Process.{removing, producer_step, consumer_step}
use sys_op.Tasks.System.{consumer, System, process_step, step, run, init}
use sys_op.Tasks.System.Interrupt.{cleanup_handler, killed_holder}
use sys_op.Tasks.Priority as Priority
use sys_op.Tasks.Priority.Laws.{implements, zeroed-Holds}
use sys_op.Tasks.Setup as Setup
use sys_op.Tasks.Setup.Started.{started_names}
use sys_op.Tasks.Setup.Producer.{Outcome, SetsUp, set_up-SetsUp}
use sys_op.Tasks.Tests.{team, turns}

-- The producer has put in one task, and the consumer is about to take it.
abbrev before : System Priority.store
before = run Priority.store (turns 0 6 ++ turns 1 2) (init Priority.store 10 Priority.zeroed team)

killed_holder_example :
    let s' =
      run Priority.store (turns 0 9 ++ turns 2 3) (cleanup_handler Priority.store 1 before) in
    (s'.mem.mutex ≡ 0) × (s'.log ≡ before.log) × (s'.mem.shared ≡ before.mem.shared)
unfolding run step process_step producer_step consumer_step
killed_holder_example =
    killed_holder implements Priority.zeroed zeroed-Holds team (tt, (tt, (tt, tt)))
      (turns 0 6 ++ turns 1 2) (turns 0 9 ++ turns 2 3) 1 (consumer removing) refl refl

-- Process 1 opens the shared memory between the calls of process 0, whose set-up is the first to end;
-- the semaphore `empty` does not open for process 1.
abbrev picks : List (ℕ × Bool)
picks =
    (0, true)
    ∷ (1, true)
    ∷ (1, true)
    ∷ (0, true)
    ∷ (0, true)
    ∷ (1, true)
    ∷ (1, true)
    ∷ (1, false)
    ∷ (0, true)
    ∷ (0, true)
    ∷ (0, true)
    ∷ (0, true)
    ∷ []

abbrev ready : Setup.Process
ready = record {
  globals = record { shm_fd = true; shm_ptr = true; mutex = true; empty = true; full = true };
  pc = Setup.started;
}

started_names_example :
    (Setup.run Priority.zeroed 10 picks (Setup.clean Priority.zeroed 10 2)).names
    ≡ record { shm = Setup.sized Priority.zeroed; mutex = some 1; empty = some 10; full = some 0 }
unfolding Setup.run Setup.step Setup.setup_at
started_names_example = started_names Priority.zeroed 10 2 picks 0 ready refl refl

-- A signal to process 1 after that: `empty` is not closed, since it was not opened.
closes :
    Setup.cleanup_calls
      (record { shm_fd = true; shm_ptr = true; mutex = true; empty = false; full = false })
    ≡ (Setup.sem_close_mutex ∷ Setup.munmap_shm ∷ Setup.close_shm ∷ [], 0)
unfolding Setup.cleanup_calls
closes = refl

-- mmap fails, and the semaphores open.
abbrev unmapped : Outcome
unmapped = record {
  open_ok = true;
  size_ok = true;
  map_ok = false;
  mutex_ok = true;
  empty_ok = true;
  full_ok = true;
}

set_up-SetsUp_example :
    SetsUp Priority.zeroed 10 unmapped
      (record { shm = Setup.absent; mutex = none; empty = none; full = none })
set_up-SetsUp_example =
    set_up-SetsUp Priority.zeroed 10 unmapped
      (record { shm = Setup.absent; mutex = none; empty = none; full = none })
