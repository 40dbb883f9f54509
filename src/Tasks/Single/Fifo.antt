-- ===== src/Tasks/Single/Fifo.antt =====
-- lab5/zad1 from end to end: tasks come out in the order in which they went in.
use sys_op.Prelude.{
  ℕ, ◌<◌, ◌≤◌, ◌≡◌, refl, List, [], ◌∷◌, ◌++◌, length, All, arith, sym, ◌∙◌, ap, append_assoc,
}
use sys_op.Tasks.Process.{Event, inserted, removed, aged}
use sys_op.Tasks.System.{Process, System, IsStart, run, init}
use sys_op.Tasks.System.Invariant.{Inv, IsHistory, replay}
use sys_op.Tasks.System.Invariant.Steps.{run-Inv, init-Inv}
use sys_op.Tasks.Single.{store, implements, zeroed, zeroed-Holds, task_of, take_first, k, Holds}
use sys_op.Tasks.Text.{Task}

-- The tasks that went in, in the order of the critical sections.
pub sent : List (Event store) → List Task
sent [] = []
sent (inserted rand ∷ log) = sent log ++ (task_of rand ∷ [])
sent (removed t ∷ log) = sent log
sent (aged ∷ log) = sent log

-- The tasks that consumers have copied out, in the order of the critical sections.
pub received : List (Event store) → List Task
received [] = []
received (inserted rand ∷ log) = received log
received (removed t ∷ log) = received log ++ (t ∷ [])
received (aged ∷ log) = received log

split_first : (q : List Task) → 0 < length q → q ≡ (take_first q).0 ∷ (take_first q).1
split_first [] h = absurd (omega arith)
split_first (t ∷ q) h = refl

history-sent :
    (log : List (Event store))
    → IsHistory implements log
    → sent log ≡ received log ++ replay implements log
unfolding sent received replay
history-sent [] h = refl
history-sent (inserted rand ∷ log) (_, h) =
    rw (history-sent log h)
      (append_assoc (received log) (replay implements log) (task_of rand ∷ []))
history-sent (removed t ∷ log) ((some_task, e), h) =
    history-sent log h
    ∙ ap (λ q. received log ++ q) (split_first (replay implements log) some_task)
    ∙ rw e (sym (append_assoc (received log) _ _))
history-sent (aged ∷ log) (_, h) = history-sent log h

-- In lab5/zad1, whatever the processes and however they are interleaved, the tasks that producers
-- have put into the buffer are, in order, those that consumers have taken out followed by at most
-- five that are still in the buffer: none is lost, doubled, changed or overtaken.
pub fifo :
    (ps : List (Process store)) (picks : List (ℕ × (ℕ → ℕ)))
    → All (IsStart store) ps
    → let s = run store picks (init store k zeroed ps) in
      (q : List Task) × (sent s.log ≡ received s.log ++ q) × (length q ≤ k) × Holds s.mem.shared q
fifo ps picks starts =
    (replay implements s.log, history-sent s.log inv.history, omega (arith, inv.slots), inv.holds)
  where
    s : System store
    s = run store picks (init store k zeroed ps)

    inv : Inv implements s
    inv = run-Inv implements picks _ (init-Inv implements zeroed ps zeroed-Holds starts)
