-- ===== src/Tasks/System/Safety.antt =====
-- What holds in every state that the programs of lab5 can reach.
use sys_op.Prelude.{ℕ, ◌+◌, ◌≤◌, ◌≡◌, some, List, get_elem?, total-get_two, arith, All, ℕ_discrete}
use sys_op.Tasks.Store.{Store, Implements}
use sys_op.Tasks.System.{Process, System, run, init, IsStart}
use sys_op.Tasks.System.Invariant.{critical, Inv, IsHistory, replay}
use sys_op.Tasks.System.Invariant.Steps.{run-Inv, init-Inv}

module _ {S : Store} (I : Implements S) where
  open S use {Shared, Draw}
  open I use {cap, size, Holds, empty_model}

  -- A state that some schedule of processes at their starts leads to.
  module _ (s₀ : Shared) (h : Holds s₀ empty_model) (ps : List (Process S))
      (starts : All (IsStart S) ps) (picks : List (ℕ × Draw)) where
    abbrev pub reached : System S
    reached = run S picks (init S cap s₀ ps)

    pub reached-Inv : Inv I reached
    reached-Inv = run-Inv I picks _ (init-Inv I s₀ ps h starts)

    open reached-Inv use {lock, slots, tasks, holds, history}

    -- However producers, consumers and managers are interleaved, no two of them are ever between
    -- `sem_wait(mutex)` and `sem_post(mutex)` at once.
    pub mutual_exclusion :
        (i j : ℕ) (p q : Process S)
        → get_elem? reached.procs i ≡ some p
        → get_elem? reached.procs j ≡ some q
        → critical p ≡ 1
        → critical q ≡ 1
        → i ≡ j
    mutual_exclusion i j p q hp hq cp cq = elim (ℕ_discrete i j) [
      | yes same ↦ same
      | no differ ↦
          absurd (omega (arith, lock, total-get_two critical reached.procs i j p q differ hp hq))
    ]

    -- The semaphores stay within their initial sum: `mutex` is at most 1, `empty` and `full` count
    -- at most `K` slots together, and the buffer never holds more than `K` tasks.
    pub semaphore_bounds :
        (reached.mem.mutex ≤ 1)
        × (reached.mem.empty + reached.mem.full ≤ cap)
        × (size (replay I reached.log) ≤ cap)
    semaphore_bounds = (omega (arith, lock), omega (arith, slots, tasks), omega (arith, slots))

    -- The shared memory is at every moment the abstract queue that the insertions, removals and
    -- agings so far lead to; every insertion has found room, and every removal has found a task, and
    -- has taken the one that the abstract queue gives.
    pub refines_queue : IsHistory I reached.log × Holds reached.mem.shared (replay I reached.log)
    refines_queue = (history, holds)
