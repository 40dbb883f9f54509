-- ===== src/Tasks/Tests.antt =====
-- The programs of lab5 on concrete schedules.
use sys_op.Prelude.{ℕ, ◌+◌, ◌≡◌, ◌≤◌, refl, List, [], ◌∷◌, ◌++◌, length, drop, arith, replicate}
use mathlib.Core.List.{Perm}
use sys_op.Tasks.Text.{Task}
use sys_op.Tasks.Process.{
  inserted, aged, Producer, making, want_task, sleeping, manager_step, producer_step,
}
use sys_op.Tasks.System.{
  Process, producer, consumer, manager, System, process_step, step, run, init,
}
use sys_op.Tasks.System.Invariant.{replay}
use sys_op.Tasks.System.Safety.{mutual_exclusion}
use sys_op.Tasks.System.Progress.{SomeCall, no_deadlock}
use sys_op.Tasks.Single as Single
use sys_op.Tasks.Single.Fifo.{fifo, sent, received}
use sys_op.Tasks.Priority as Priority
use sys_op.Tasks.Priority.Laws.{Queues, implements, zeroed-Holds}
use sys_op.Tasks.Priority.Laws as Laws
use sys_op.Tasks.Priority.Delivery as Delivery
use sys_op.Tasks.Priority.Aging.{agings, normal_sent, no_starvation}

-- rand() in round i of a task; the tenth value makes the task a normal one.
abbrev pub draw : ℕ → ℕ
draw i = i + 40

-- A producer of two tasks, a consumer and a manager.
abbrev pub team : List (Process Priority.store)
team = producer (making 2) ∷ consumer want_task ∷ manager sleeping ∷ []

abbrev pair : List (Process Single.store)
pair = producer (making 2) ∷ consumer want_task ∷ []

-- The process `i` makes `n` calls.
abbrev pub turns : ℕ → ℕ → List (ℕ × (ℕ → ℕ))
turns i n = replicate n (i, draw)

-- The producer is inside its critical section.
mutual_exclusion_example : ◌≡◌ {A = ℕ} 0 0
unfolding run step process_step producer_step
mutual_exclusion_example =
    mutual_exclusion implements Priority.zeroed zeroed-Holds team (tt, (tt, (tt, tt))) (turns 0 3) 0
      0 (producer (Producer.inserting draw 1)) (producer (Producer.inserting draw 1)) refl refl refl
      refl

abbrev busy : System Priority.store
busy = run Priority.store (turns 0 5 ++ turns 1 2) (init Priority.store 10 Priority.zeroed team)

no_deadlock_example :
    SomeCall (run Priority.store (turns 0 3) (init Priority.store 10 Priority.zeroed team))
unfolding run step process_step producer_step
no_deadlock_example =
    no_deadlock implements Priority.zeroed zeroed-Holds team (tt, (tt, (tt, tt))) (turns 0 3) 0 1
      (Producer.inserting draw 1) want_task refl (λ e. absurd (cc)) refl

fifo_example :
    let s = run Single.store (turns 0 12 ++ turns 1 6) (init Single.store 5 Single.zeroed pair) in
    (q : List Task) × (sent s.log ≡ received s.log ++ q)
    × (length q ≤ 5)
    × Single.Holds s.mem.shared q
fifo_example = fifo pair (turns 0 12 ++ turns 1 6) (tt, (tt, tt))

delivery_example :
    (q : Queues) × Perm
      (Delivery.sent busy.log)
      (Delivery.received busy.log ++ (q.priority ++ q.normal))
    × (length q.priority + length q.normal ≤ 10)
    × Laws.Holds busy.mem.shared q
delivery_example = Delivery.delivery team (tt, (tt, (tt, tt))) (turns 0 5 ++ turns 1 2)

-- The producer puts a normal task in, and the manager ages it.
abbrev aging_run : List (ℕ × (ℕ → ℕ))
aging_run = turns 0 6 ++ turns 2 3

no_starvation_example :
    (q : Queues) × (d : ℕ) × Laws.Holds
      (run Priority.store aging_run (init Priority.store 10 Priority.zeroed team)).mem.shared
      q
    × (q.normal ≡ drop d (normal_sent (aged ∷ [])))
unfolding run step process_step producer_step manager_step agings replay
no_starvation_example =
    no_starvation team (tt, (tt, (tt, tt))) aging_run (aged ∷ []) (inserted draw ∷ []) refl
      (omega arith)
