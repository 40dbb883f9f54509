-- ===== src/Tasks/System/Kills/Leaks.antt =====
-- The semaphores and the queue of lab5 when signals end processes, and what such a process had.
use sys_op.Prelude.{
  ℕ, ◌+◌, ◌≤◌, ◌≡◌, ◌≢◌, refl, sym, ap, subst, ◌∙◌, inl, inr, ◌⊎◌, Bool-cases, Option, none, some,
  Option-cases, List, [], ◌∷◌, get_elem?, set, get_elem?-set_self, get_elem?-set_ne, total,
  total-get, arith, All, ℕ_discrete,
}
use mathlib.Core.Option.{some-injective}
use sys_op.Tasks.Store.{Store, Implements}
use sys_op.Tasks.Process.{Memory, Event, finished}
use sys_op.Tasks.System.{
  Process, producer, System, Outcome, process_step, step, run, next, init, IsStart,
}
use sys_op.Tasks.System.Invariant.{critical, reserved, uncounted, Inv, IsHistory, replay}
use sys_op.Tasks.System.Invariant.Steps.{step-Inv, run-Inv, init-Inv}
use sys_op.Tasks.System.Interrupt.{cleanup_handler}
use sys_op.Tasks.System.Kills.{
  writes, Happening, call, signal, tear, happen, run_all, Sim, Sim-refl,
}
use sys_op.Tasks.System.Kills.Follow.{
  signal-Sim, ended_waits, called, absent_waits, happen-Follows, Sim-Single, run_all-Sim,
}

module _ {S : Store} (I : Implements S) where
  open S use {Shared, Draw}
  open I use {cap, size, Holds, empty_model}

  -- At most one process is in the critical section, none while `mutex` is 1; the slots and tasks that
  -- the semaphores count exist; and the shared memory is the abstract queue of the history, or the
  -- mutex is gone. `inside` is the number of processes in the critical section.
  pub record SafeAt (mem : Memory S) (log : List (Event S)) (inside : ℕ) : Type 0 where
    pub one_inside : mem.mutex + inside ≤ 1
    pub counted : mem.empty + mem.full ≤ cap
    pub sized : size (replay I log) ≤ cap
    pub history : IsHistory I log
    pub holds : Holds mem.shared (replay I log) ⊎ ((mem.mutex ≡ 0) × (inside ≡ 0))

  abbrev pub IsSafe : System S → Type 0
  IsSafe s = SafeAt s.mem s.log (total critical s.procs)

  Sim-IsSafe : (s t : System S) → Sim S s t → Inv I t → IsSafe s
  Sim-IsSafe s t sim inv =
      subst (λ l. SafeAt s.mem l (total critical s.procs)) (sym sim.same_log)
        (record {
          one_inside = Sim-Single I s t sim inv;
          counted = omega (
            arith,
            inv.slots,
            inv.tasks,
            ap (λ m. m.empty) sim.same_mem,
            ap (λ m. m.full) sim.same_mem,
          );
          sized = omega (arith, inv.slots);
          history = inv.history;
          holds = elim sim.whole [
            | inl same ↦ inl (subst (λ x. Holds x (replay I t.log)) (sym same) inv.holds)
            | inr gone ↦ inr gone
          ];
        })

  -- Process `i` has ended in `s`, and in `t` it still stands where the signal has found it.
  record Stuck (i : ℕ) (p : Process S) (s t : System S) : Type 0 where
    sim : Sim S s t
    ended : get_elem? s.procs i ≡ some (producer finished)
    stands : get_elem? t.procs i ≡ some p

  next-other :
      (s : System S) (i j : ℕ) (o : Outcome S)
      → j ≢ i
      → get_elem? (next S s j o).procs i ≡ get_elem? s.procs i
  next-other s i j none ne = refl
  next-other s i j (some (m, p', es)) ne = get_elem?-set_ne s.procs j i p' ne

  step-other :
      (s : System S) (i j : ℕ) (d : Draw)
      → j ≢ i
      → get_elem? (step S s (j, d)).procs i ≡ get_elem? s.procs i
  step-other s i j d ne = elim (Option-cases (get_elem? s.procs j)) [
    | inl e ↦ ap (λ w. get_elem? w.procs i) (absent_waits S s j d e)
    | inr (p, e) ↦
        ap (λ w. get_elem? w.procs i) (called S s j d p e)
        ∙ next-other s i j (process_step S d p s.mem) ne
  ]

  tear-procs :
      (o : Option (Process S)) (torn : Shared) (s : System S) → (tear S o torn s).procs ≡ s.procs
  tear-procs none torn s = refl
  tear-procs (some p) torn s = elim (Bool-cases (writes S p)) [
    | inl amid ↦ rw amid refl
    | inr apart ↦ rw apart refl
  ]

  happen-procs :
      (torn : Shared) (j : ℕ) (s : System S)
      → (happen S (signal j torn) s).procs ≡ set s.procs j (producer finished)
  unfolding happen cleanup_handler
  happen-procs torn j s =
      ap (λ ps. set ps j (producer finished)) (tear-procs (get_elem? s.procs j) torn s)

  -- A process that has ended stays so.
  stays_ended :
      (h : Happening S) (i : ℕ) (s : System S)
      → get_elem? s.procs i ≡ some (producer finished)
      → get_elem? (happen S h s).procs i ≡ some (producer finished)
  unfolding happen
  stays_ended (call j d) i s e = elim (ℕ_discrete j i) [
    | yes same ↦
        ap (λ w. get_elem? w.procs i)
          (ended_waits S s j d (producer finished) (ap (get_elem? s.procs) same ∙ e) refl)
        ∙ e
    | no ne ↦ step-other s i j d ne ∙ e
  ]
  stays_ended (signal j torn) i s e =
      ap (λ ps. get_elem? ps i) (happen-procs torn j s) ∙ (elim (ℕ_discrete j i) [
        | yes same ↦
            subst (λ k. get_elem? (set s.procs k (producer finished)) i ≡ some (producer finished))
              (sym same) (get_elem?-set_self s.procs i (producer finished) (producer finished) e)
        | no ne ↦ get_elem?-set_ne s.procs j i (producer finished) ne ∙ e
      ])

  run_all-Stuck :
      (hs : List (Happening S)) (i : ℕ) (p : Process S) (s t : System S)
      → Stuck i p s t
      → Inv I t
      → (picks : List (ℕ × Draw)) × Stuck i p (run_all S hs s) (run S picks t)
  unfolding run run_all
  run_all-Stuck [] i p s t stuck inv = ([], stuck)
  run_all-Stuck (h ∷ hs) i p s t stuck inv =
      elim (happen-Follows S h s t (Sim-Single I s t stuck.sim inv) stuck.sim) [
        | inl waits ↦
            run_all-Stuck hs i p (happen S h s) t
              (record { sim = waits; ended = stays_ended h i s stuck.ended; stands = stuck.stands })
              inv
        | inr (j, d, q, at, there, follows) ↦
            let stands : get_elem? (step S t (j, d)).procs i ≡ some p = elim (ℕ_discrete j i) [
              | yes same ↦
                  let gone : q ≡ producer finished =
                    some-injective q (producer finished)
                      (sym at ∙ (ap (get_elem? s.procs) same ∙ stuck.ended)) in
                  ap (λ w. get_elem? w.procs i) (ended_waits S t j d q there gone) ∙ stuck.stands
              | no ne ↦ step-other t i j d ne ∙ stuck.stands
            ] in
            let (picks, rest) =
              run_all-Stuck hs i p (happen S h s) (step S t (j, d))
                (record { sim = follows; ended = stays_ended h i s stuck.ended; stands = stands })
                (step-Inv I t (j, d) inv) in
            ((j, d) ∷ picks, rest)
      ]

  -- What `p` had in its hands is missing for good.
  pub record Leaks (p : Process S) (s : System S) : Type 0 where
    pub lock_gone : s.mem.mutex + critical p ≤ 1
    pub slot_gone : size (replay I s.log) + reserved p ≤ cap
    pub task_gone : s.mem.full + uncounted p ≤ size (replay I s.log)

  -- A process whose part is in the sums over the processes of `t`.
  weighed-Leaks :
      (p : Process S) (s t : System S)
      → Sim S s t
      → Inv I t
      → critical p ≤ total critical t.procs
      → reserved p ≤ total reserved t.procs
      → uncounted p ≤ total uncounted t.procs
      → Leaks p s
  weighed-Leaks p s t sim inv in_lock in_slots in_tasks =
      let same : size (replay I s.log) ≡ size (replay I t.log) =
        ap (λ l. size (replay I l)) sim.same_log in
      let mutex : s.mem.mutex ≡ t.mem.mutex = ap (λ m. m.mutex) sim.same_mem in
      let full : s.mem.full ≡ t.mem.full = ap (λ m. m.full) sim.same_mem in
      record {
        lock_gone = omega (arith, inv.lock);
        slot_gone = omega (arith, inv.slots);
        task_gone = omega (arith, inv.tasks);
      }

  Stuck-Leaks : (i : ℕ) (p : Process S) (s t : System S) → Stuck i p s t → Inv I t → Leaks p s
  Stuck-Leaks i p s t stuck inv =
      weighed-Leaks p s t stuck.sim inv (total-get critical t.procs i p stuck.stands)
        (total-get reserved t.procs i p stuck.stands) (total-get uncounted t.procs i p stuck.stands)

  -- A state that some schedule of processes and signals leads to.
  module _ (s₀ : Shared) (h : Holds s₀ empty_model) (ps : List (Process S))
      (starts : All (IsStart S) ps) (hs : List (Happening S)) where
    abbrev pub reached : System S
    reached = run_all S hs (init S cap s₀ ps)

    -- Whatever processes of lab5 are picked and whichever are ended by signals, and where, also amid their
    -- writes to the shared memory, where a signal may leave anything in it: at most one process that
    -- has not ended is between `sem_wait(mutex)` and `sem_post(mutex)`, and none while `mutex` is 1;
    -- `empty` and `full` count at most `K` slots together. In the history, in which an operation
    -- counts from its last write on, every insertion has found room, so that it leaves at most `K`
    -- tasks, and every removal has found a task, the one that the abstract queue gives. The shared
    -- memory is the abstract queue that the history leads to, unless `mutex` is 0 with no process
    -- that has not ended in its critical section.
    pub signals-IsSafe : IsSafe reached
    signals-IsSafe =
        let begin = init S cap s₀ ps in
        let inv = init-Inv I s₀ ps h starts in
        let (picks, sim) = run_all-Sim I hs begin begin (Sim-refl S begin) inv in
        Sim-IsSafe reached (run S picks begin) sim (run-Inv I picks begin inv)

    -- When a signal ends a process in such a state, also amid its writes to the shared memory, and
    -- whatever processes are picked and ended by signals then: if the process was between
    -- `sem_wait(mutex)` and `sem_post(mutex)`, `mutex` is 0 from then on; if it had a slot, that it was
    -- to fill or to give back, at most `K` - 1 slots are ever filled; and if it had a task, that it was
    -- to announce or to take, more tasks are in the buffer than `full` counts. What is in the buffer
    -- is told by the history, in which an operation counts from its last write on.
    pub signal-Leaks :
        (i : ℕ) (torn : Shared) (p : Process S)
        → get_elem? reached.procs i ≡ some p
        → (later : List (Happening S))
        → Leaks p (run_all S later (happen S (signal i torn) reached))
    signal-Leaks i torn p at later =
        let begin = init S cap s₀ ps in
        let start = init-Inv I s₀ ps h starts in
        let (picks, sim) = run_all-Sim I hs begin begin (Sim-refl S begin) start in
        let t : System S = run S picks begin in
        let inv : Inv I t = run-Inv I picks begin start in
        let after : Sim S (happen S (signal i torn) reached) t =
          signal-Sim S torn reached t i (Sim-Single I reached t sim inv) sim in
        elim (sim.alive i p at) [
          | inl gone ↦
              let (picks', rest) =
                run_all-Sim I later (happen S (signal i torn) reached) t after inv in
              subst (λ q. Leaks q (run_all S later (happen S (signal i torn) reached))) (sym gone)
                (weighed-Leaks (producer finished) _ _ rest (run-Inv I picks' t inv) (omega arith)
                  (omega arith) (omega arith))
          | inr live ↦
              let (picks', stuck) =
                run_all-Stuck later i p (happen S (signal i torn) reached) t
                  (record {
                    sim = after;
                    ended =
                        ap (λ qs. get_elem? qs i) (happen-procs torn i reached)
                        ∙ get_elem?-set_self reached.procs i (producer finished) p at;
                    stands = live;
                  })
                  inv in
              Stuck-Leaks i p _ _ stuck (run-Inv I picks' t inv)
        ]
