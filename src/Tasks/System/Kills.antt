-- ===== src/Tasks/System/Kills.antt =====
-- The processes of lab5 with any number of signals that end some of them, wherever they stand.
-- `Sim` follows such a run by one without signals, in which a process that has ended is no more picked.
pub mod Follow
pub mod Leaks
use sys_op.Prelude.{
  ℕ, zero, suc, ◌+◌, ◌≤◌, ◌≡◌, refl, ap, inl, inr, ◌⊎◌, Bool, true, false, if◌then◌else◌, Option,
  none, some, List, [], ◌∷◌, get_elem?, total, total_le, arith,
}
use sys_op.Tasks.Store.{Store}
use sys_op.Tasks.Process.{
  Memory, Producer, Consumer, Manager, making, want_slot, inserting, signalling, finished,
  want_task, removing, freeing, printing, sleeping, aging, monitoring, producer_step, consumer_step,
  manager_step,
}
use sys_op.Tasks.System.{
  Process, producer, consumer, manager, System, Outcome, wrap, process_step, step,
}
use sys_op.Tasks.System.Invariant.{critical}
use sys_op.Tasks.System.Interrupt.{cleanup_handler}

module _ (S : Store) where
  open S use {Shared, Draw, Taken}

  -- A process amid its writes to the shared memory.
  abbrev pub writes : Process S → Bool
  writes (producer (inserting d left)) = true
  writes (producer _) = false
  writes (consumer removing) = true
  writes (consumer _) = false
  writes (manager aging) = true
  writes (manager _) = false

  -- The scheduler picks a process, or a signal ends one; `torn` is what the signal leaves of the shared
  -- memory if the process is amid its writes, which may be anything.
  pub data Happening : Type 0 where
    call : ℕ → Draw → Happening
    signal : ℕ → (torn : Shared) → Happening

  abbrev pub tear : Option (Process S) → Shared → System S → System S
  tear none torn s = s
  tear (some p) torn s = if writes p then record s { mem = record (s.mem) { shared = torn } } else s

  unfoldable pub happen : Happening → System S → System S
  happen (call i d) s = step S s (i, d)
  happen (signal i torn) s = cleanup_handler S i (tear (get_elem? s.procs i) torn s)

  unfoldable pub run_all : List Happening → System S → System S
  run_all [] s = s
  run_all (h ∷ hs) s = run_all hs (happen h s)

  -- The mutex is with no process that could give it back.
  abbrev pub Gone : System S → Type 0
  Gone s = (s.mem.mutex ≡ 0) × (total critical s.procs ≡ 0)

  -- Each process of `s` that has not ended is in `t` too.
  abbrev pub Alive : System S → System S → Type 0
  Alive s t =
      (j : ℕ) (p : Process S)
      → get_elem? s.procs j ≡ some p
      → (p ≡ producer finished) ⊎ (get_elem? t.procs j ≡ some p)

  -- `t` has the semaphores and the history of `s`, each process of `s` that has not ended, and the
  -- shared memory, as long as the mutex is not gone.
  pub record Sim (s t : System S) : Type 0 where
    pub same_mem : s.mem ≡ record (t.mem) { shared = s.mem.shared }
    pub same_log : s.log ≡ t.log
    pub alive : Alive s t
    pub whole : (s.mem.shared ≡ t.mem.shared) ⊎ Gone s

  pub Sim-refl : (s : System S) → Sim s s
  Sim-refl s = record { same_mem = refl; same_log = refl; alive = λ j p e. inr e; whole = inl refl }

  -- At most one process of `s` is in its critical section.
  abbrev pub Single : System S → Type 0
  Single s = s.mem.mutex + total critical s.procs ≤ 1

  pub Alive-fewer : (s t : System S) → Alive s t → total critical s.procs ≤ total critical t.procs
  Alive-fewer s t alive =
      total_le critical s.procs t.procs
        (λ j p e. elim (alive j p e) [ inl gone ↦ inl (ap critical gone) | inr live ↦ inr live ])

  abbrev pub over : Shared → Memory S → Memory S
  over x m = record m { shared = x }

  -- An outcome over other contents of the shared memory.
  abbrev pub reshare : Shared → Outcome S → Outcome S
  reshare x none = none
  reshare x (some (m, p, es)) = some (record m { shared = x }, p, es)

  producer-reshare :
      (x : Shared) (d : Draw) (p : Producer S) (m : Memory S)
      → critical (producer p) ≡ 0
      → wrap S producer (producer_step S d p (record m { shared = x }))
        ≡ reshare x (wrap S producer (producer_step S d p m))
  unfolding producer_step
  producer-reshare x d (making zero) m c = refl
  producer-reshare x d (making (suc left)) m c = refl
  producer-reshare x _ (want_slot d left) m c = ground arith
  producer-reshare x _ (Producer.want_lock d left) m c = ground arith
  producer-reshare x _ (inserting d left) m c = absurd (omega (arith, c))
  producer-reshare x _ (Producer.unlocking left) m c = refl
  producer-reshare x _ (signalling left) m c = refl
  producer-reshare x _ finished m c = refl

  consumer-reshare :
      (x : Shared) (p : Consumer S) (m : Memory S)
      → critical (consumer p) ≡ 0
      → wrap S consumer (consumer_step S p (record m { shared = x }))
        ≡ reshare x (wrap S consumer (consumer_step S p m))
  unfolding consumer_step
  consumer-reshare x want_task m c = ground arith
  consumer-reshare x Consumer.want_lock m c = ground arith
  consumer-reshare x removing m c = absurd (omega (arith, c))
  consumer-reshare x (Consumer.unlocking t) m c = refl
  consumer-reshare x (freeing t) m c = refl
  consumer-reshare x (printing t) m c = refl

  manager-reshare :
      (x : Shared) (p : Manager S) (m : Memory S)
      → critical (manager p) ≡ 0
      → wrap S manager (manager_step S p (record m { shared = x }))
        ≡ reshare x (wrap S manager (manager_step S p m))
  unfolding manager_step
  manager-reshare x sleeping m c = refl
  manager-reshare x Manager.want_lock m c = ground arith
  manager-reshare x aging m c = absurd (omega (arith, c))
  manager-reshare x monitoring m c = refl
  manager-reshare x Manager.unlocking m c = refl

  -- A process outside its critical section does the same whatever the shared memory holds.
  pub process-reshare :
      (x : Shared) (d : Draw) (p : Process S) (m : Memory S)
      → critical p ≡ 0
      → process_step S d p (record m { shared = x }) ≡ reshare x (process_step S d p m)
  unfolding process_step
  process-reshare x d (producer p) m c = producer-reshare x d p m c
  process-reshare x d (consumer p) m c = consumer-reshare x p m c
  process-reshare x d (manager p) m c = manager-reshare x p m c
