-- ===== src/Tasks/System/Invariant.antt =====
-- The semaphores of lab5 count what the processes hold, and the shared memory is the abstract queue
-- that the history of its operations leaves.
pub mod Steps
use sys_op.Prelude.{ℕ, ◌+◌, ◌<◌, ◌≡◌, List, [], ◌∷◌, total}
use sys_op.Tasks.Store.{Store, Implements}
use sys_op.Tasks.Process.{
  Event, inserted, removed, aged, Producer, Consumer, inserting, unlocking, signalling, removing,
  freeing, aging, monitoring,
}
use sys_op.Tasks.System.{Process, producer, consumer, manager, System}

module _ {S : Store} where
  -- A process between `sem_wait(mutex)` and `sem_post(mutex)`.
  abbrev pub critical : Process S → ℕ
  critical (producer (inserting _ _)) = 1
  critical (producer (unlocking _)) = 1
  critical (producer _) = 0
  critical (consumer removing) = 1
  critical (consumer (unlocking _)) = 1
  critical (consumer _) = 0
  critical (manager aging) = 1
  critical (manager monitoring) = 1
  critical (manager unlocking) = 1
  critical (manager _) = 0

  -- A slot that is neither free nor filled: promised to a producer, or not yet given back.
  abbrev pub reserved : Process S → ℕ
  reserved (producer (Producer.want_lock _ _)) = 1
  reserved (producer (inserting _ _)) = 1
  reserved (producer _) = 0
  reserved (consumer (unlocking _)) = 1
  reserved (consumer (freeing _)) = 1
  reserved (consumer _) = 0
  reserved (manager _) = 0

  -- A task in the buffer that `full` does not count: promised to a consumer, or not yet announced.
  abbrev pub uncounted : Process S → ℕ
  uncounted (producer (unlocking _)) = 1
  uncounted (producer (signalling _)) = 1
  uncounted (producer _) = 0
  uncounted (consumer Consumer.want_lock) = 1
  uncounted (consumer removing) = 1
  uncounted (consumer _) = 0
  uncounted (manager _) = 0

module _ {S : Store} (I : Implements S) where
  open S use {Shared, Draw, Taken}
  open I use {Model, cap, empty_model, size, put, take, shift, Holds}

  -- The abstract queue after a history (newest first).
  unfoldable pub replay : List (Event S) → Model
  replay [] = empty_model
  replay (inserted d ∷ log) = put d (replay log)
  replay (removed t ∷ log) = (take (replay log)).1
  replay (aged ∷ log) = shift (replay log)

  -- What an operation promises at the queue before it: an insertion finds room, and a removal finds
  -- a task, and is the one that the abstract queue gives.
  abbrev pub IsAllowed : Model → Event S → Type 0
  IsAllowed m (inserted d) = size m < cap
  IsAllowed m (removed t) = (0 < size m) × (t ≡ (take m).0)
  IsAllowed m aged = Unit

  abbrev pub IsHistory : List (Event S) → Type 0
  IsHistory [] = Unit
  IsHistory (e ∷ log) = IsAllowed (replay log) e × IsHistory log

  pub record Inv (s : System S) : Type 0 where
    pub lock : s.mem.mutex + total critical s.procs ≡ 1
    pub slots : s.mem.empty + total reserved s.procs + size (replay s.log) ≡ cap
    pub tasks : s.mem.full + total uncounted s.procs ≡ size (replay s.log)
    pub holds : Holds s.mem.shared (replay s.log)
    pub history : IsHistory s.log
