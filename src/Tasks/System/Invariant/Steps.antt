-- ===== src/Tasks/System/Invariant/Steps.antt =====
-- Every call of every process keeps the invariant.
use sys_op.Prelude.{
  ℕ, zero, suc, ◌+◌, ◌≤◌, ◌<◌, ◌≡◌, refl, some, List, [], ◌∷◌, get_elem?, set, total, total-set,
  total-get, arith, inl, inr, All-map, total-eq-zero, Option-cases, All,
}
use sys_op.Tasks.Store.{Store, Implements}
use sys_op.Tasks.Process.{
  Producer, Consumer, Manager, making, want_slot, inserting, unlocking, signalling, finished,
  want_task, removing, freeing, printing, sleeping, aging, monitoring, producer_step, consumer_step,
  manager_step,
}
use sys_op.Tasks.System.{
  Process, producer, consumer, manager, System, wrap, process_step, step, run, init, next, IsStart,
}
use sys_op.Tasks.System.Invariant.{critical, reserved, uncounted, Inv, replay}

module _ {S : Store} (I : Implements S) where
  open S use {Shared, Draw, Taken}
  open I use {Model, cap, size, put, take, shift, Holds}

  -- The sums over the processes when the process at `i` goes from `p` to `p'`.
  record Moved (ps : List (Process S)) (i : ℕ) (p p' : Process S) : Type 0 where
    crit : total critical (set ps i p') + critical p ≡ total critical ps + critical p'
    resv : total reserved (set ps i p') + reserved p ≡ total reserved ps + reserved p'
    unct : total uncounted (set ps i p') + uncounted p ≡ total uncounted ps + uncounted p'
    crit_le : critical p ≤ total critical ps
    resv_le : reserved p ≤ total reserved ps
    unct_le : uncounted p ≤ total uncounted ps

  moved :
      (ps : List (Process S)) (i : ℕ) (p p' : Process S) → get_elem? ps i ≡ some p → Moved ps i p p'
  moved ps i p p' e = record {
    crit = total-set critical ps i p p' e;
    resv = total-set reserved ps i p p' e;
    unct = total-set uncounted ps i p p' e;
    crit_le = total-get critical ps i p e;
    resv_le = total-get reserved ps i p e;
    unct_le = total-get uncounted ps i p e;
  }

  module _ (s : System S) (i : ℕ) where
    module _ (inv : Inv I s) where
      open inv use {lock, slots, tasks, holds, history}

      -- The queue after the history so far.
      abbrev queue : Model
      queue = replay I s.log

      producer-Inv :
          (d : Draw) (p : Producer S)
          → ((p' : Process S) → Moved s.procs i (producer p) p')
          → Inv I (next S s i (wrap S producer (producer_step S d p s.mem)))
      unfolding producer_step replay
      producer-Inv d (making zero) mv = ground (arith, mv (producer finished))
      producer-Inv d (making (suc left)) mv = ground (arith, mv (producer (want_slot d left)))
      producer-Inv _ (want_slot d left) mv =
          ground (arith, mv (producer (Producer.want_lock d left)))
      producer-Inv _ (Producer.want_lock d left) mv =
          ground (arith, mv (producer (inserting d left)))
      producer-Inv _ (inserting d left) mv = record {
        lock = ground (arith, after);
        slots = ground (arith, after, I.size-put d queue);
        tasks = ground (arith, after, I.size-put d queue);
        holds = I.insert-Holds s.mem.shared queue d room holds;
        history = (room, history);
      }
        where
          after : Moved s.procs i (producer (inserting d left)) (producer (unlocking left))
          after = mv (producer (unlocking left))

          room : size queue < cap
          room = ground (arith, after)
      producer-Inv _ (unlocking left) mv = ground (arith, mv (producer (signalling left)))
      producer-Inv _ (signalling left) mv = ground (arith, mv (producer (making left)))
      producer-Inv _ finished mv = inv

      consumer-Inv :
          (p : Consumer S)
          → ((p' : Process S) → Moved s.procs i (consumer p) p')
          → Inv I (next S s i (wrap S consumer (consumer_step S p s.mem)))
      unfolding consumer_step replay
      consumer-Inv want_task mv = ground (arith, mv (consumer Consumer.want_lock))
      consumer-Inv Consumer.want_lock mv = ground (arith, mv (consumer removing))
      consumer-Inv removing mv = record {
        lock = ground (arith, after);
        slots = ground (arith, after, I.size-take queue);
        tasks = ground (arith, after, I.size-take queue);
        holds = I.remove-Holds s.mem.shared queue some_task holds;
        history = ((some_task, I.remove-taken s.mem.shared queue some_task holds), history);
      }
        where
          after :
              Moved s.procs i (consumer removing) (consumer (unlocking (S.remove s.mem.shared).0))
          after = mv (consumer (unlocking (S.remove s.mem.shared).0))

          some_task : 0 < size queue
          some_task = ground (arith, after)
      consumer-Inv (unlocking t) mv = ground (arith, mv (consumer (freeing t)))
      consumer-Inv (freeing t) mv = ground (arith, mv (consumer (printing t)))
      consumer-Inv (printing t) mv = ground (arith, mv (consumer want_task))

      manager-Inv :
          (p : Manager S)
          → ((p' : Process S) → Moved s.procs i (manager p) p')
          → Inv I (next S s i (wrap S manager (manager_step S p s.mem)))
      unfolding manager_step replay
      manager-Inv sleeping mv = ground (arith, mv (manager Manager.want_lock))
      manager-Inv Manager.want_lock mv = ground (arith, mv (manager aging))
      manager-Inv aging mv = record {
        lock = ground (arith, after);
        slots = ground (arith, after, I.size-shift queue);
        tasks = ground (arith, after, I.size-shift queue);
        holds = I.age-Holds s.mem.shared queue (omega arith) holds;
        history = (tt, history);
      }
        where
          after : Moved s.procs i (manager aging) (manager monitoring)
          after = mv (manager monitoring)
      manager-Inv monitoring mv = ground (arith, mv (manager Manager.unlocking))
      manager-Inv Manager.unlocking mv = ground (arith, mv (manager sleeping))

      process-Inv :
          (d : Draw) (p : Process S)
          → get_elem? s.procs i ≡ some p
          → Inv I (next S s i (process_step S d p s.mem))
      unfolding process_step
      process-Inv d (producer p) e = producer-Inv d p (λ p'. moved s.procs i (producer p) p' e)
      process-Inv d (consumer p) e = consumer-Inv p (λ p'. moved s.procs i (consumer p) p' e)
      process-Inv d (manager p) e = manager-Inv p (λ p'. moved s.procs i (manager p) p' e)

  pub step-Inv : (s : System S) (pick : ℕ × Draw) → Inv I s → Inv I (step S s pick)
  unfolding step
  step-Inv s (i, d) inv = elim (Option-cases (get_elem? s.procs i)) [
    | inl e ↦ rw (e, step) inv
    | inr (p, e) ↦ rw (e, step) (process-Inv s i inv d p e)
  ]

  pub run-Inv : (picks : List (ℕ × Draw)) (s : System S) → Inv I s → Inv I (run S picks s)
  unfolding run
  run-Inv [] s inv = inv
  run-Inv (pick ∷ picks) s inv = run-Inv picks (step S s pick) (step-Inv s pick inv)

  -- A process at its start holds nothing.
  start_holds_nothing :
      (p : Process S) → IsStart S p → (critical p ≡ 0) × (reserved p ≡ 0) × (uncounted p ≡ 0)
  start_holds_nothing (producer (making left)) h = (refl, refl, refl)
  start_holds_nothing (producer _) h = absurd h
  start_holds_nothing (consumer want_task) h = (refl, refl, refl)
  start_holds_nothing (consumer _) h = absurd h
  start_holds_nothing (manager sleeping) h = (refl, refl, refl)
  start_holds_nothing (manager _) h = absurd h

  -- The state in which `sem_open` and the programs' starts leave the system.
  pub init-Inv :
      (s : Shared) (ps : List (Process S))
      → Holds s I.empty_model
      → All (IsStart S) ps
      → Inv I (init S cap s ps)
  unfolding replay
  init-Inv s ps h starts = record {
    lock = omega (
      arith,
      total-eq-zero critical ps
          (All-map (IsStart S) _ (λ p h. (start_holds_nothing p h).0) ps starts),
    );
    slots = omega (
      arith,
      total-eq-zero reserved ps
          (All-map (IsStart S) _ (λ p h. (start_holds_nothing p h).1) ps starts),
      I.size-empty,
    );
    tasks = omega (
      arith,
      total-eq-zero uncounted ps
          (All-map (IsStart S) _ (λ p h. (start_holds_nothing p h).2) ps starts),
      I.size-empty,
    );
    holds = h;
    history = tt;
  }
