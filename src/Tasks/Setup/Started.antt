-- ===== src/Tasks/Setup/Started.antt =====
-- The names of lab5 once a process has started, in every order of the set-ups.
use sys_op.Prelude.{
  ℕ, zero, suc, ◌≤◌, ◌≡◌, arith, sym, subst, ap, Bool, true, false, ◌&&◌, Option, none, some, List,
  [], ◌∷◌, get_elem?, replicate, Option-cases, inl, inr, All, All-set, All-map, All-get_elem?,
}
use sys_op.Tasks.Setup.{
  Segment, absent, unsized, sized, Names, Globals, opening, started, Process, Machine, setup_at,
  call, step, run, clean, no_globals,
}
use sys_op.Tasks.Setup.Ready.{
  IsFresh, IsFreshShm, IsFreshSem, Backed, Backed-Grew, setup_at-IsKept, shm_rank, sem_rank, flag,
}

module _ {Shared : Type 0} (zeroed : Shared) (k : ℕ) where
  abbrev IsBacked : Names Shared → Process → Type 0
  IsBacked m p = Backed zeroed k m p.pc p.globals

  record Inv (s : Machine Shared) : Type 0 where
    fresh : IsFresh zeroed k s.names
    backed : All (IsBacked s.names) s.procs

  call-Inv :
      (i : ℕ) (ok : Bool) (p : Process) (s : Machine Shared)
      → get_elem? s.procs i ≡ some p
      → Inv s
      → Inv (call zeroed k i ok (some p) s)
  call-Inv i ok p s e inv =
      let out = setup_at zeroed k ok p.pc p.globals s.names in
      let (fresh, grew, own) =
        setup_at-IsKept zeroed k ok p.pc p.globals s.names inv.fresh
          (All-get_elem? (IsBacked s.names) s.procs i p e inv.backed) in
      record {
        fresh = fresh;
        backed = All-set (IsBacked out.1) s.procs i out.0 own (
            All-map (IsBacked s.names) (IsBacked out.1)
              (λ q b. Backed-Grew zeroed k s.names out.1 q.pc q.globals grew b) s.procs inv.backed);
      }

  step-Inv : (s : Machine Shared) (pick : ℕ × Bool) → Inv s → Inv (step zeroed k s pick)
  unfolding step
  step-Inv s (i, ok) inv = elim (Option-cases (get_elem? s.procs i)) [
    | inl e ↦ subst (λ o. Inv (call zeroed k i ok o s)) (sym e) inv
    | inr (p, e) ↦ subst (λ o. Inv (call zeroed k i ok o s)) (sym e) (call-Inv i ok p s e inv)
  ]

  run-Inv : (picks : List (ℕ × Bool)) (s : Machine Shared) → Inv s → Inv (run zeroed k picks s)
  unfolding run
  run-Inv [] s inv = inv
  run-Inv (pick ∷ picks) s inv = run-Inv picks (step zeroed k s pick) (step-Inv s pick inv)

  clean-Inv : (n : ℕ) → Inv (clean zeroed k n)
  clean-Inv n = record {
    fresh = record { shm = tt; mutex = tt; empty = tt; full = tt };
    backed = all_start n;
  }
    where
      all_start :
          (m : ℕ)
          → All
              (IsBacked (clean zeroed k n).names)
              (replicate m (record { globals = no_globals zeroed k; pc = opening }))
      all_start zero = tt
      all_start (suc m) = (
        record {
          shm = omega arith;
          mutex = omega arith;
          empty = omega arith;
          full = omega arith;
          done = tt;
        },
        all_start m,
      )

  fresh_shm :
      (s : Segment Shared) → IsFreshShm zeroed k s → 2 ≤ shm_rank zeroed k s → s ≡ sized zeroed
  fresh_shm absent h le = absurd (omega arith)
  fresh_shm unsized h le = absurd (omega arith)
  fresh_shm (sized s) h le = ap sized h

  fresh_sem :
      (value : ℕ) (o : Option ℕ)
      → IsFreshSem zeroed k value o
      → 1 ≤ sem_rank zeroed k o
      → o ≡ some value
  fresh_sem value none h le = absurd (omega arith)
  fresh_sem value (some n) h le = ap some h

  all_flags :
      (a b c : Bool)
      → (a && b && c) ≡ true
      → (1 ≤ flag zeroed k a) × (1 ≤ flag zeroed k b) × (1 ≤ flag zeroed k c)
  all_flags true true true e = (omega arith, omega arith, omega arith)
  all_flags true true false e = absurd (cc)
  all_flags true false c e = absurd (cc)
  all_flags false b c e = absurd (cc)

  names_of :
      (m : Names Shared) (g : Globals)
      → IsFresh zeroed k m
      → Backed zeroed k m started g
      → m ≡ record { shm = sized zeroed; mutex = some 1; empty = some k; full = some 0 }
  names_of m g fresh own =
      let (a, b, c) = all_flags g.mutex g.empty g.full own.done in
      let shm = fresh_shm m.shm fresh.shm own.shm in
      let mutex = fresh_sem 1 m.mutex fresh.mutex (omega (arith, a, own.mutex)) in
      let empty = fresh_sem k m.empty fresh.empty (omega (arith, b, own.empty)) in
      let full = fresh_sem 0 m.full fresh.full (omega (arith, c, own.full)) in
      λ t. record { shm = shm t; mutex = mutex t; empty = empty t; full = full t }

  -- However the set-ups of any number of processes that check their calls (consumers, managers and
  -- the producers of lab5/zad1) are interleaved on a machine without the names, and whichever of
  -- their calls fail: once one of these processes has got past its set-up, the shared memory is there
  -- and zeroed, and the semaphores count 1, K and 0, as long as no process has used them.
  pub started_names :
      (n : ℕ) (picks : List (ℕ × Bool)) (i : ℕ) (p : Process)
      → let s = run zeroed k picks (clean zeroed k n) in
        get_elem? s.procs i ≡ some p
        → p.pc ≡ started
        → s.names ≡ record { shm = sized zeroed; mutex = some 1; empty = some k; full = some 0 }
  started_names n picks i p e here =
      let s = run zeroed k picks (clean zeroed k n) in
      let inv = run-Inv picks (clean zeroed k n) (clean-Inv n) in
      let own = All-get_elem? (IsBacked s.names) s.procs i p e inv.backed in
      names_of s.names p.globals inv.fresh
        (subst (λ pc. Backed zeroed k s.names pc p.globals) here own)
