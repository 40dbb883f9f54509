-- ===== src/Tasks/KillTests.antt =====
-- A consumer of lab5/zad3 that a signal ends before it gives its slot back, and a producer that one
-- ends amid its writes.
use sys_op.Prelude.{ℕ, ◌≡◌, refl, List, ◌∷◌, ◌++◌, some, get_elem?, replicate}
use sys_op.Tasks.Process.{freeing, producer_step, consumer_step}
use sys_op.Tasks.System.{Process, consumer, System, process_step, step, init}
use sys_op.Tasks.System.Kills.{Happening, call, signal, happen, run_all}
use sys_op.Tasks.System.Kills.Leaks.{IsSafe, Leaks, signals-IsSafe, signal-Leaks}
use sys_op.Tasks.Priority as Priority
use sys_op.Tasks.Priority.Laws.{implements, zeroed-Holds}
use sys_op.Tasks.Tests.{team, draw}

abbrev calls : ℕ → ℕ → List (Happening Priority.store)
calls i n = replicate n (call i draw)

-- The producer puts in one task, and the consumer takes it out.
abbrev first : List (Happening Priority.store)
first = calls 0 6 ++ calls 1 4

-- What a signal amid the writes of an insertion leaves: the tail has moved, and the count has not.
abbrev torn : Priority.store.Shared
torn = record (Priority.zeroed) { normal_tail = 1 }

-- A signal finds the producer amid its second insertion.
abbrev later : List (Happening Priority.store)
later = signal 1 torn ∷ calls 0 3 ++ (signal 0 torn ∷ calls 2 4)

abbrev begin : System Priority.store
begin = init Priority.store 10 Priority.zeroed team

-- The consumer with the task, which has its slot to give back.
abbrev holder : Process Priority.store
holder = consumer (freeing (Priority.store.remove (Priority.store.insert draw Priority.zeroed)).0)

stands : get_elem? (run_all Priority.store first begin).procs 1 ≡ some holder
unfolding run_all happen step process_step producer_step consumer_step
stands = refl

signals-IsSafe_example : IsSafe implements (run_all Priority.store (first ++ later) begin)
signals-IsSafe_example =
    signals-IsSafe implements Priority.zeroed zeroed-Holds team (tt, (tt, (tt, tt)))
      (first ++ later)

signal-Leaks_example : Leaks implements holder (
    run_all Priority.store later
      (happen Priority.store (signal 1 torn) (run_all Priority.store first begin)))
signal-Leaks_example =
    signal-Leaks implements Priority.zeroed zeroed-Holds team (tt, (tt, (tt, tt))) first 1 torn
      holder stands later
