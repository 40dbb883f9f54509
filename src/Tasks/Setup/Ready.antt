-- ===== src/Tasks/Setup/Ready.antt =====
-- What a process of lab5 finds once it is past its set-up.
use sys_op.Prelude.{
  ℕ, ◌≤◌, ◌≡◌, arith, refl, Bool, true, false, Option, none, some, Bool-cases, inl, inr,
}
use sys_op.Tasks.Setup.{
  Segment, absent, unsized, sized, Names, Globals, Pc, opening, sizing, mapping, opening_mutex,
  opening_empty, opening_full, checking, started, exited, Process, shm_open, ftruncate, sem_open,
  all_opened, setup_at,
}

module _ {Shared : Type 0} (zeroed : Shared) (k : ℕ) where
  -- Each name is missing or as it was made first.
  abbrev pub IsFreshSem : ℕ → Option ℕ → Type 0
  IsFreshSem value none = Unit
  IsFreshSem value (some n) = n ≡ value

  abbrev pub IsFreshShm : Segment Shared → Type 0
  IsFreshShm absent = Unit
  IsFreshShm unsized = Unit
  IsFreshShm (sized s) = s ≡ zeroed

  pub record IsFresh (m : Names Shared) : Type 0 where
    pub shm : IsFreshShm m.shm
    pub mutex : IsFreshSem 1 m.mutex
    pub empty : IsFreshSem k m.empty
    pub full : IsFreshSem 0 m.full

  -- How far each name has come.
  abbrev pub shm_rank : Segment Shared → ℕ
  shm_rank absent = 0
  shm_rank unsized = 1
  shm_rank (sized s) = 2

  abbrev pub sem_rank : Option ℕ → ℕ
  sem_rank none = 0
  sem_rank (some n) = 1

  pub record Grew (m m' : Names Shared) : Type 0 where
    pub shm : shm_rank m.shm ≤ shm_rank m'.shm
    pub mutex : sem_rank m.mutex ≤ sem_rank m'.mutex
    pub empty : sem_rank m.empty ≤ sem_rank m'.empty
    pub full : sem_rank m.full ≤ sem_rank m'.full

  -- What a process relies on, by its next call and its globals.
  abbrev pub needed : Pc → ℕ
  needed opening = 0
  needed sizing = 1
  needed (exited status) = 0
  needed _ = 2

  abbrev pub flag : Bool → ℕ
  flag true = 1
  flag false = 0

  abbrev pub IsDone : Pc → Globals → Type 0
  IsDone started g = all_opened g ≡ true
  IsDone _ g = Unit

  pub record Backed (m : Names Shared) (pc : Pc) (g : Globals) : Type 0 where
    pub shm : needed pc ≤ shm_rank m.shm
    pub mutex : flag g.mutex ≤ sem_rank m.mutex
    pub empty : flag g.empty ≤ sem_rank m.empty
    pub full : flag g.full ≤ sem_rank m.full
    pub done : IsDone pc g

  pub Backed-Grew :
      (m m' : Names Shared) (pc : Pc) (g : Globals) → Grew m m' → Backed m pc g → Backed m' pc g
  Backed-Grew m m' pc g grew b = record {
    shm = omega (arith, grew.shm, b.shm);
    mutex = omega (arith, grew.mutex, b.mutex);
    empty = omega (arith, grew.empty, b.empty);
    full = omega (arith, grew.full, b.full);
    done = b.done;
  }

  Grew-same : (m : Names Shared) → Grew m m
  Grew-same m = record {
    shm = omega arith;
    mutex = omega arith;
    empty = omega arith;
    full = omega arith;
  }

  shm_open-rank :
      (s : Segment Shared) → (shm_rank s ≤ shm_rank (shm_open s)) × (1 ≤ shm_rank (shm_open s))
  shm_open-rank absent = (omega arith, omega arith)
  shm_open-rank unsized = (omega arith, omega arith)
  shm_open-rank (sized s) = (omega arith, omega arith)

  ftruncate-rank :
      (s : Segment Shared)
      → 1 ≤ shm_rank s
      → (shm_rank s ≤ shm_rank (ftruncate zeroed s)) × (2 ≤ shm_rank (ftruncate zeroed s))
  ftruncate-rank absent le = absurd (omega arith)
  ftruncate-rank unsized le = (omega arith, omega arith)
  ftruncate-rank (sized s) le = (omega arith, omega arith)

  sem_open-rank :
      (value : ℕ) (o : Option ℕ)
      → (sem_rank o ≤ sem_rank (sem_open value o)) × (1 ≤ sem_rank (sem_open value o))
  sem_open-rank value none = (omega arith, omega arith)
  sem_open-rank value (some n) = (omega arith, omega arith)

  shm_open-IsFresh : (s : Segment Shared) → IsFreshShm s → IsFreshShm (shm_open s)
  shm_open-IsFresh absent h = tt
  shm_open-IsFresh unsized h = tt
  shm_open-IsFresh (sized s) h = h

  ftruncate-IsFresh : (s : Segment Shared) → IsFreshShm s → IsFreshShm (ftruncate zeroed s)
  ftruncate-IsFresh absent h = tt
  ftruncate-IsFresh unsized h = refl
  ftruncate-IsFresh (sized s) h = h

  sem_open-IsFresh :
      (value : ℕ) (o : Option ℕ) → IsFreshSem value o → IsFreshSem value (sem_open value o)
  sem_open-IsFresh value none h = refl
  sem_open-IsFresh value (some n) h = h

  -- A call keeps the names fresh, takes none away, and leaves its process backed by them.
  abbrev pub IsKept : Names Shared → Process × Names Shared → Type 0
  IsKept m (p', m') = IsFresh m' × Grew m m' × Backed m' p'.pc p'.globals

  -- A process that goes from one call to another, with the same globals.
  at_pc :
      (m : Names Shared) (pc pc' : Pc) (g : Globals)
      → Backed m pc g
      → needed pc' ≤ shm_rank m.shm
      → IsDone pc' g
      → Backed m pc' g
  at_pc m pc pc' g b le d = record {
    shm = le;
    mutex = b.mutex;
    empty = b.empty;
    full = b.full;
    done = d;
  }

  pub setup_at-IsKept :
      (ok : Bool) (pc : Pc) (g : Globals) (m : Names Shared)
      → IsFresh m
      → Backed m pc g
      → IsKept m (setup_at zeroed k ok pc g m)
  unfolding setup_at
  setup_at-IsKept true opening g m h b = (
    record { shm = shm_open-IsFresh m.shm h.shm; mutex = h.mutex; empty = h.empty; full = h.full },
    record {
      shm = (shm_open-rank m.shm).0;
      mutex = omega arith;
      empty = omega arith;
      full = omega arith;
    },
    record {
      shm = (shm_open-rank m.shm).1;
      mutex = b.mutex;
      empty = b.empty;
      full = b.full;
      done = tt;
    },
  )
  setup_at-IsKept false opening g m h b =
      (h, Grew-same m, at_pc m opening (exited 1) g b (omega arith) tt)
  setup_at-IsKept true sizing g m h b = (
    record { shm = ftruncate-IsFresh m.shm h.shm; mutex = h.mutex; empty = h.empty; full = h.full },
    record {
      shm = (ftruncate-rank m.shm b.shm).0;
      mutex = omega arith;
      empty = omega arith;
      full = omega arith;
    },
    record {
      shm = (ftruncate-rank m.shm b.shm).1;
      mutex = b.mutex;
      empty = b.empty;
      full = b.full;
      done = tt;
    },
  )
  setup_at-IsKept false sizing g m h b =
      (h, Grew-same m, at_pc m sizing (exited 1) g b (omega arith) tt)
  setup_at-IsKept true mapping g m h b = (
    h,
    Grew-same m,
    record { shm = b.shm; mutex = b.mutex; empty = b.empty; full = b.full; done = tt },
  )
  setup_at-IsKept false mapping g m h b =
      (h, Grew-same m, at_pc m mapping (exited 1) g b (omega arith) tt)
  setup_at-IsKept true opening_mutex g m h b = (
    record {
      shm = h.shm;
      mutex = sem_open-IsFresh 1 m.mutex h.mutex;
      empty = h.empty;
      full = h.full;
    },
    record {
      shm = omega arith;
      mutex = (sem_open-rank 1 m.mutex).0;
      empty = omega arith;
      full = omega arith;
    },
    record {
      shm = b.shm;
      mutex = (sem_open-rank 1 m.mutex).1;
      empty = b.empty;
      full = b.full;
      done = tt;
    },
  )
  setup_at-IsKept false opening_mutex g m h b =
      (h, Grew-same m, at_pc m opening_mutex opening_empty g b b.shm tt)
  setup_at-IsKept true opening_empty g m h b = (
    record {
      shm = h.shm;
      mutex = h.mutex;
      empty = sem_open-IsFresh k m.empty h.empty;
      full = h.full;
    },
    record {
      shm = omega arith;
      mutex = omega arith;
      empty = (sem_open-rank k m.empty).0;
      full = omega arith;
    },
    record {
      shm = b.shm;
      mutex = b.mutex;
      empty = (sem_open-rank k m.empty).1;
      full = b.full;
      done = tt;
    },
  )
  setup_at-IsKept false opening_empty g m h b =
      (h, Grew-same m, at_pc m opening_empty opening_full g b b.shm tt)
  setup_at-IsKept true opening_full g m h b = (
    record {
      shm = h.shm;
      mutex = h.mutex;
      empty = h.empty;
      full = sem_open-IsFresh 0 m.full h.full;
    },
    record {
      shm = omega arith;
      mutex = omega arith;
      empty = omega arith;
      full = (sem_open-rank 0 m.full).0;
    },
    record {
      shm = b.shm;
      mutex = b.mutex;
      empty = b.empty;
      full = (sem_open-rank 0 m.full).1;
      done = tt;
    },
  )
  setup_at-IsKept false opening_full g m h b =
      (h, Grew-same m, at_pc m opening_full checking g b b.shm tt)
  setup_at-IsKept ok checking g m h b = elim (Bool-cases (all_opened g)) [
    | inl all ↦ rw all (h, Grew-same m, at_pc m checking started g b b.shm all)
    | inr some_failed ↦
        rw some_failed (h, Grew-same m, at_pc m checking (exited 1) g b (omega arith) tt)
  ]
  setup_at-IsKept ok started g m h b = (h, Grew-same m, b)
  setup_at-IsKept ok (exited status) g m h b = (h, Grew-same m, b)
