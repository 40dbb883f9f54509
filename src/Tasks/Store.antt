-- ===== src/Tasks/Store.antt =====
-- What the processes of lab5 do to the shared memory inside their critical sections, behind an
-- interface: lab5/zad1 fills it with one ring, lab5/zad3 with two.
use sys_op.Prelude.{ℕ, suc, ◌≤◌, ◌<◌, ◌≡◌}

pub record Store : Type 1 where
  pub Shared : Type 0  -- `SharedMemory`
  pub Draw : Type 0  -- the values of `rand` that a producer makes a task from
  pub Taken : Type 0  -- what a consumer has copied out
  pub insert : Draw → Shared → Shared
  pub remove : Shared → Taken × Shared
  pub age : Shared → Shared

module _ (S : Store) where
  open S use {Shared, Draw, Taken, insert, remove, age}

  -- An abstract queue, and the laws by which a store implements it.
  pub record Implements : Type 1 where
    pub Model : Type 0
    pub cap : ℕ
    pub empty_model : Model
    pub size : Model → ℕ
    pub put : Draw → Model → Model
    pub take : Model → Taken × Model
    pub shift : Model → Model
    pub Holds : Shared → Model → Type 0
    pub cap_pos : 0 < cap
    pub size-empty : size empty_model ≡ 0
    pub size-put : (d : Draw) (m : Model) → size (put d m) ≡ suc (size m)
    pub size-take : (m : Model) → 0 < size m → suc (size (take m).1) ≡ size m
    pub size-shift : (m : Model) → size (shift m) ≡ size m
    pub insert-Holds :
        (s : Shared) (m : Model) (d : Draw)
        → size m < cap
        → Holds s m
        → Holds (insert d s) (put d m)
    pub remove-taken : (s : Shared) (m : Model) → 0 < size m → Holds s m → (remove s).0 ≡ (take m).0
    pub remove-Holds :
        (s : Shared) (m : Model) → 0 < size m → Holds s m → Holds (remove s).1 (take m).1
    pub age-Holds : (s : Shared) (m : Model) → size m ≤ cap → Holds s m → Holds (age s) (shift m)
