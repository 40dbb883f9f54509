-- ===== src/Tasks/Priority/Delivery.antt =====
-- lab5/zad3 from end to end: what becomes of the tasks that producers put into the buffer.
use sys_op.Prelude.{
  ℕ, ◌+◌, ◌≤◌, ◌<◌, ◌≡◌, refl, List, [], ◌∷◌, ◌++◌, Bool, true, false, length, arith, append_assoc,
  All,
}
use mathlib.Core.List.{Perm, perm_middle, perm_append_singleton}
use mathlib.Core.List.Perm
use sys_op.Tasks.Process.{Event, inserted, removed, aged}
use sys_op.Tasks.System.{Process, System, IsStart, run, init}
use sys_op.Tasks.System.Invariant.{Inv, IsHistory, replay}
use sys_op.Tasks.System.Invariant.Steps.{run-Inv, init-Inv}
use sys_op.Tasks.Text.{Task}
use sys_op.Tasks.Priority.{store, zeroed, k, task_of, is_priority_of}
use sys_op.Tasks.Priority.Laws.{
  Queues, put_task, take_from, shift_from, take_first, Holds, implements, zeroed-Holds,
}

-- The tasks that went in, newest first.
pub sent : List (Event store) → List Task
sent [] = []
sent (inserted rand ∷ log) = task_of rand ∷ sent log
sent (removed t ∷ log) = sent log
sent (aged ∷ log) = sent log

-- The tasks that consumers have copied out, newest first.
pub received : List (Event store) → List Task
received [] = []
received (inserted rand ∷ log) = received log
received (removed t ∷ log) = t.1 ∷ received log
received (aged ∷ log) = received log

abbrev waiting : Queues → List Task
waiting q = q.priority ++ q.normal

waiting-put_task :
    (b : Bool) (t : Task) (q : Queues) → Perm (waiting (put_task b t q)) (t ∷ waiting q)
waiting-put_task true t q = rw append_assoc (perm_middle q.priority q.normal)
waiting-put_task false t q =
    rw (← append_assoc q.priority q.normal (t ∷ [])) (perm_append_singleton t (waiting q))

waiting-take_from :
    (p n : List Task)
    → 0 < length p + length n
    → p ++ n ≡ (take_from p n).0.1 ∷ waiting (take_from p n).1
waiting-take_from (t ∷ p) n h = refl
waiting-take_from [] (t ∷ n) h = refl
waiting-take_from [] [] h = absurd (omega arith)

waiting-shift_from : (p n : List Task) → waiting (shift_from p n) ≡ p ++ n
waiting-shift_from p [] = refl
waiting-shift_from p (t ∷ n) = append_assoc p (t ∷ []) n

history-sent :
    (log : List (Event store))
    → IsHistory implements log
    → Perm (sent log) (received log ++ waiting (replay implements log))
unfolding sent received replay
history-sent [] h = Perm.refl []
history-sent (inserted rand ∷ log) (_, h) =
    Perm.trans (Perm.cons (task_of rand) (history-sent log h)) (
      Perm.trans (Perm.symm (perm_middle (received log) (waiting queue))) (
        Perm.append_left (received log)
          (Perm.symm (waiting-put_task (is_priority_of rand) (task_of rand) queue))))
  where
    queue : Queues
    queue = replay implements log
history-sent (removed t ∷ log) ((some_task, e), h) =
    let queue = replay implements log in
    let first = waiting-take_from queue.priority queue.normal some_task in
    rw e (
      Perm.trans (rw first at (history-sent log h))
        (perm_middle (received log) (waiting (take_first queue).1)))
history-sent (aged ∷ log) (_, h) =
    rw (waiting-shift_from (replay implements log).priority (replay implements log).normal)
      (history-sent log h)

module _ (ps : List (Process store)) (starts : All (IsStart store) ps)
    (picks : List (ℕ × (ℕ → ℕ))) where
  abbrev reached : System store
  reached = run store picks (init store k zeroed ps)

  reached-Inv : Inv implements reached
  reached-Inv = run-Inv implements picks _ (init-Inv implements zeroed ps zeroed-Holds starts)

  -- In lab5/zad3, whatever the processes and however they are interleaved, the tasks that producers
  -- have put into the buffer are, as a multiset, those that consumers have taken out together with
  -- at most ten that the two queues in shared memory still hold: none is lost, doubled or changed.
  pub delivery :
      (q : Queues) × Perm (sent reached.log) (received reached.log ++ (q.priority ++ q.normal))
      × (length q.priority + length q.normal ≤ k)
      × Holds reached.mem.shared q
  delivery = (
    replay implements reached.log,
    history-sent reached.log reached-Inv.history,
    omega (arith, reached-Inv.slots),
    reached-Inv.holds,
  )
