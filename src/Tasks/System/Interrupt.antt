-- ===== src/Tasks/System/Interrupt.antt =====
-- A process of lab5 that a signal ends: `cleanup_handler` of the consumer and the manager closes
-- what the process has open and calls exit, and a producer is ended by the kernel. Neither posts a
-- semaphore.
use sys_op.Prelude.{
  ℕ, zero, suc, ◌+◌, ◌≡◌, refl, ◌∙◌, ap, inl, inr, none, some, Option-cases, List, [], ◌∷◌, ◌++◌,
  get_elem?, set, total, total-set, total-get, arith, All,
}
use sys_op.Tasks.Store.{Store, Implements}
use sys_op.Tasks.Process.{
  Memory, Event, Producer, Consumer, Manager, making, want_slot, inserting, signalling, finished,
  want_task, removing, freeing, printing, sleeping, aging, monitoring, producer_step, consumer_step,
  manager_step,
}
use sys_op.Tasks.System.{
  Process, producer, consumer, manager, System, Outcome, wrap, process_step, step, run, next,
  IsStart,
}
use sys_op.Tasks.System.Invariant.{critical}
use sys_op.Tasks.System.Safety.{reached, reached-Inv}

module _ (S : Store) where
  open S use {Shared, Draw, Taken}

  -- The process at `i` makes no call any more.
  unfoldable pub cleanup_handler : ℕ → System S → System S
  cleanup_handler i s = record s { procs = set s.procs i (producer finished) }

  -- A call that leaves the shared memory and the taken mutex alone.
  abbrev IsQuiet : Memory S → Outcome S → Type 0
  IsQuiet m none = Unit
  IsQuiet m (some (m', p', es)) =
      (m'.mutex ≡ 0) × (critical p' ≡ 0) × (es ≡ []) × (m'.shared ≡ m.shared)

  producer-IsQuiet :
      (d : Draw) (p : Producer S) (m : Memory S)
      → m.mutex ≡ 0
      → critical (producer p) ≡ 0
      → IsQuiet m (wrap S producer (producer_step S d p m))
  unfolding producer_step
  producer-IsQuiet d (making zero) m e c = (e, refl, refl, refl)
  producer-IsQuiet d (making (suc left)) m e c = (e, refl, refl, refl)
  producer-IsQuiet _ (want_slot d left) m e c = ground arith
  producer-IsQuiet _ (Producer.want_lock d left) m e c = ground arith
  producer-IsQuiet _ (inserting d left) m e c = absurd (omega (arith, c))
  producer-IsQuiet _ (Producer.unlocking left) m e c = absurd (omega (arith, c))
  producer-IsQuiet _ (signalling left) m e c = (e, refl, refl, refl)
  producer-IsQuiet _ finished m e c = tt

  consumer-IsQuiet :
      (p : Consumer S) (m : Memory S)
      → m.mutex ≡ 0
      → critical (consumer p) ≡ 0
      → IsQuiet m (wrap S consumer (consumer_step S p m))
  unfolding consumer_step
  consumer-IsQuiet want_task m e c = ground arith
  consumer-IsQuiet Consumer.want_lock m e c = ground arith
  consumer-IsQuiet removing m e c = absurd (omega (arith, c))
  consumer-IsQuiet (Consumer.unlocking t) m e c = absurd (omega (arith, c))
  consumer-IsQuiet (freeing t) m e c = (e, refl, refl, refl)
  consumer-IsQuiet (printing t) m e c = (e, refl, refl, refl)

  manager-IsQuiet :
      (p : Manager S) (m : Memory S)
      → m.mutex ≡ 0
      → critical (manager p) ≡ 0
      → IsQuiet m (wrap S manager (manager_step S p m))
  unfolding manager_step
  manager-IsQuiet sleeping m e c = (e, refl, refl, refl)
  manager-IsQuiet Manager.want_lock m e c = ground arith
  manager-IsQuiet aging m e c = absurd (omega (arith, c))
  manager-IsQuiet monitoring m e c = absurd (omega (arith, c))
  manager-IsQuiet Manager.unlocking m e c = absurd (omega (arith, c))

  process-IsQuiet :
      (d : Draw) (p : Process S) (m : Memory S)
      → m.mutex ≡ 0
      → critical p ≡ 0
      → IsQuiet m (process_step S d p m)
  unfolding process_step
  process-IsQuiet d (producer p) m e c = producer-IsQuiet d p m e c
  process-IsQuiet d (consumer p) m e c = consumer-IsQuiet p m e c
  process-IsQuiet d (manager p) m e c = manager-IsQuiet p m e c

  -- The mutex is gone: it is not on the semaphore, and no process has it.
  pub record IsLost (log : List (Event S)) (shared : Shared) (s : System S) : Type 0 where
    pub taken : s.mem.mutex ≡ 0
    pub nobody : total critical s.procs ≡ 0
    pub same_log : s.log ≡ log
    pub same_memory : s.mem.shared ≡ shared

  next-IsLost :
      (log : List (Event S)) (shared : Shared) (s : System S) (i : ℕ) (p : Process S)
      (o : Outcome S)
      → get_elem? s.procs i ≡ some p
      → IsLost log shared s
      → IsQuiet s.mem o
      → IsLost log shared (next S s i o)
  next-IsLost log shared s i p none e lost q = lost
  next-IsLost log shared s i p (some (m', p', es)) e lost (taken, outside, no_events, same) =
      record {
        taken = taken;
        nobody = omega (arith, total-set critical s.procs i p p' e, lost.nobody, outside);
        same_log = ap (λ l. l ++ s.log) no_events ∙ lost.same_log;
        same_memory = same ∙ lost.same_memory;
      }

  pub step-IsLost :
      (log : List (Event S)) (shared : Shared) (s : System S) (pick : ℕ × Draw)
      → IsLost log shared s
      → IsLost log shared (step S s pick)
  unfolding step
  step-IsLost log shared s (i, d) lost = elim (Option-cases (get_elem? s.procs i)) [
    | inl e ↦ rw (e, step) lost
    | inr (p, e) ↦
        let outside : critical p ≡ 0 =
          omega (arith, total-get critical s.procs i p e, lost.nobody) in
        rw (e, step)
          (next-IsLost log shared s i p (process_step S d p s.mem) e lost
            (process-IsQuiet d p s.mem lost.taken outside))
  ]

  run-IsLost :
      (log : List (Event S)) (shared : Shared) (picks : List (ℕ × Draw)) (s : System S)
      → IsLost log shared s
      → IsLost log shared (run S picks s)
  unfolding run
  run-IsLost log shared [] s lost = lost
  run-IsLost log shared (pick ∷ picks) s lost =
      run-IsLost log shared picks (step S s pick) (step-IsLost log shared s pick lost)

  -- The end of a process that has the mutex, in a state where the mutex is with one process.
  cleanup_handler-IsLost :
      (s : System S) (i : ℕ) (p : Process S)
      → s.mem.mutex + total critical s.procs ≡ 1
      → get_elem? s.procs i ≡ some p
      → critical p ≡ 1
      → IsLost s.log s.mem.shared (cleanup_handler i s)
  unfolding cleanup_handler
  cleanup_handler-IsLost s i p lock e inside = record {
    taken = omega (arith, lock, inside, total-get critical s.procs i p e);
    nobody = omega (
      arith,
      lock,
      inside,
      total-get critical s.procs i p e,
      total-set critical s.procs i p (producer finished) e,
    );
    same_log = refl;
    same_memory = refl;
  }

module _ {S : Store} (I : Implements S) where
  open S use {Shared, Draw}
  open I use {cap, Holds, empty_model}

  -- If a signal ends a process between its `sem_wait(mutex)` and its `sem_post(mutex)`, in a state
  -- that some schedule leads to, then `mutex` stays 0 and the shared memory stays as it is, whatever
  -- the other processes do: no task is ever inserted, removed or aged again.
  pub killed_holder :
      (s₀ : Shared) (h : Holds s₀ empty_model) (ps : List (Process S)) (starts : All (IsStart S) ps)
      (picks later : List (ℕ × Draw)) (i : ℕ) (p : Process S)
      → let s = reached I s₀ h ps starts picks in
        get_elem? s.procs i ≡ some p
        → critical p ≡ 1
        → let s' = run S later (cleanup_handler S i s) in
          (s'.mem.mutex ≡ 0) × (s'.log ≡ s.log) × (s'.mem.shared ≡ s.mem.shared)
  killed_holder s₀ h ps starts picks later i p e inside =
      let s = reached I s₀ h ps starts picks in
      let inv = reached-Inv I s₀ h ps starts picks in
      let lost =
        run-IsLost S s.log s.mem.shared later (cleanup_handler S i s)
          (cleanup_handler-IsLost S s i p inv.lock e inside) in
      (lost.taken, lost.same_log, lost.same_memory)
