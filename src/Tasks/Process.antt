-- ===== src/Tasks/Process.antt =====
-- One process of lab5, a call at a time: the producer's loop, the consumer's loop and the manager's
-- loop over the semaphores `mutex`, `empty` and `full` and the shared memory.
use sys_op.Prelude.{ℕ, zero, suc, ◌+◌, ◌-◌, ◌==◌, if◌then◌else◌, Option, none, some, List, [], ◌∷◌}
use sys_op.Tasks.Store.{Store}

module _ (S : Store) where
  open S use {Shared, Draw, Taken, insert, remove, age}

  pub record Memory : Type 0 where
    pub shared : Shared
    pub mutex : ℕ
    pub empty : ℕ
    pub full : ℕ

  -- What a process has done to the shared memory.
  pub data Event : Type 0 where
    inserted : Draw → Event
    removed : Taken → Event
    aged : Event

  -- The next call of a producer with `left` rounds to go after this one. Its task is a function of
  -- the values that it has drawn.
  pub data Producer : Type 0 where
    making : (left : ℕ) → Producer
    want_slot : Draw → (left : ℕ) → Producer  -- sem_wait(empty)
    want_lock : Draw → (left : ℕ) → Producer  -- sem_wait(mutex)
    inserting : Draw → (left : ℕ) → Producer
    unlocking : (left : ℕ) → Producer  -- sem_post(mutex)
    signalling : (left : ℕ) → Producer  -- sem_post(full)
    finished : Producer

  pub data Consumer : Type 0 where
    want_task : Consumer  -- sem_wait(full)
    want_lock : Consumer  -- sem_wait(mutex)
    removing : Consumer
    unlocking : Taken → Consumer  -- sem_post(mutex)
    freeing : Taken → Consumer  -- sem_post(empty)
    printing : Taken → Consumer

  pub data Manager : Type 0 where
    sleeping : Manager
    want_lock : Manager  -- sem_wait(mutex)
    aging : Manager
    monitoring : Manager
    unlocking : Manager  -- sem_post(mutex)

  -- What a call gives: the memory, the next call, and the events. `none`: `sem_wait` blocks.
  abbrev pub Result : Type 0 → Type 0
  Result P = Option (Memory × P × List Event)

  abbrev pub wait_mutex : {P : Type 0} → Memory → P → Result P
  wait_mutex m p = if m.mutex == 0 then none else some (record m { mutex = m.mutex - 1 }, p, [])

  abbrev pub wait_empty : {P : Type 0} → Memory → P → Result P
  wait_empty m p = if m.empty == 0 then none else some (record m { empty = m.empty - 1 }, p, [])

  abbrev pub wait_full : {P : Type 0} → Memory → P → Result P
  wait_full m p = if m.full == 0 then none else some (record m { full = m.full - 1 }, p, [])

  -- `d` is drawn at the head of the loop. A process that has exited makes no call.
  unfoldable pub producer_step : Draw → Producer → Memory → Result Producer
  producer_step d (making zero) m = some (m, finished, [])
  producer_step d (making (suc left)) m = some (m, want_slot d left, [])
  producer_step _ (want_slot d left) m = wait_empty m (want_lock d left)
  producer_step _ (want_lock d left) m = wait_mutex m (inserting d left)
  producer_step _ (inserting d left) m =
      some (record m { shared = insert d m.shared }, unlocking left, inserted d ∷ [])
  producer_step _ (unlocking left) m = some (record m { mutex = m.mutex + 1 }, signalling left, [])
  producer_step _ (signalling left) m = some (record m { full = m.full + 1 }, making left, [])
  producer_step _ finished m = none

  unfoldable pub consumer_step : Consumer → Memory → Result Consumer
  consumer_step want_task m = wait_full m want_lock
  consumer_step want_lock m = wait_mutex m removing
  consumer_step removing m =
      let (t, s) = remove m.shared in some (record m { shared = s }, unlocking t, removed t ∷ [])
  consumer_step (unlocking t) m = some (record m { mutex = m.mutex + 1 }, freeing t, [])
  consumer_step (freeing t) m = some (record m { empty = m.empty + 1 }, printing t, [])
  consumer_step (printing t) m = some (m, want_task, [])

  unfoldable pub manager_step : Manager → Memory → Result Manager
  manager_step sleeping m = some (m, want_lock, [])
  manager_step want_lock m = wait_mutex m aging
  manager_step aging m = some (record m { shared = age m.shared }, monitoring, aged ∷ [])
  manager_step monitoring m = some (m, unlocking, [])
  manager_step unlocking m = some (record m { mutex = m.mutex + 1 }, sleeping, [])
