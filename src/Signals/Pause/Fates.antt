-- ===== src/Signals/Pause/Fates.antt =====
-- What becomes of the parent and the child of lab2/zad2 and lab2/zad3, in any order of their steps.
use sys_op.Prelude.{
  ◌∙◌, ap, subst, sym, ℕ, ◌≡◌, refl, List, [], ◌∷◌, false, ◌==◌, ◌⊎◌, inl, inr, Bool-cases,
}
use sys_op.Signals.Kernel.{Process, Program, killed, exited, Os}
use sys_op.Signals.Outcomes.{started}
use sys_op.Signals.Pair.{initialize_usr2_handling, pair_working}
use sys_op.Signals.Child.{proceed}
use sys_op.Signals.Pause.{
  ParentPc, forking, queueing, waiting, parent_ended, ChildPc, unborn, starting, initializing,
  testing, pausing, paused, child_ended, Pair, usr2_handler, signal_at, wait_at, parent_at,
  child_at, Turn, parent_turn, child_turn, step, run,
}

module _ (setup : ℕ → Program (Unit {0})) (os : Os) (mode : ℕ) (q : Process) where
  -- A child that SIGUSR2 has not reached yet.
  abbrev Waits : ChildPc → Type 0
  Waits unborn = ⊥
  Waits (child_ended r) = ⊥
  Waits starting = Unit
  Waits initializing = Unit
  Waits testing = Unit
  Waits pausing = Unit
  Waits paused = Unit

  -- A child that SIGUSR2 has reached, with what it has in received_mode.
  abbrev pub Reached : ChildPc → ℕ → Type 0
  Reached unborn v = ⊥
  Reached starting v = ⊥
  Reached initializing v = ⊥
  Reached testing v = v ≡ mode
  Reached pausing v = v ≡ mode
  Reached paused v = v ≡ mode
  Reached (child_ended r) v =
      (r ≡ killed (started [])) ⊎ (((mode == 0) ≡ false) × (r ≡ proceed setup os mode (started [])))

  -- The child has ended.
  abbrev pub Ended : ChildPc → Type 0
  Ended unborn = ⊥
  Ended (child_ended r) = Unit
  Ended starting = ⊥
  Ended initializing = ⊥
  Ended testing = ⊥
  Ended pausing = ⊥
  Ended paused = ⊥

  abbrev pub InvAt : ParentPc → ChildPc → ℕ → Type 0
  InvAt forking c v = (c ≡ unborn) × (v ≡ 0)
  InvAt queueing c v = Waits c × (v ≡ 0)
  InvAt waiting c v = Reached c v
  InvAt (parent_ended r) c v = (r ≡ exited 0 q) × Reached c v × Ended c

  abbrev pub Inv : Pair → Type 0
  Inv s = (s.process ≡ q) × InvAt s.parent s.child s.received_mode

  signal_at-Reached :
      (c : ChildPc) (s : Pair)
      → Waits c
      → s.child ≡ c
      → Reached (signal_at c mode s).child (signal_at c mode s).received_mode
  unfolding signal_at usr2_handler
  signal_at-Reached unborn s w e = absurd w
  signal_at-Reached (child_ended r) s w e = absurd w
  signal_at-Reached starting s w e = inl refl
  signal_at-Reached initializing s w e = inl refl
  signal_at-Reached testing s w e = rw e refl
  signal_at-Reached pausing s w e = rw e refl
  signal_at-Reached paused s w e = refl

  signal_at-process : (c : ChildPc) (s : Pair) → (signal_at c mode s).process ≡ s.process
  unfolding signal_at usr2_handler
  signal_at-process unborn s = refl
  signal_at-process (child_ended r) s = refl
  signal_at-process starting s = refl
  signal_at-process initializing s = refl
  signal_at-process testing s = refl
  signal_at-process pausing s = refl
  signal_at-process paused s = refl

  wait_at-Inv :
      (c : ChildPc) (s : Pair)
      → s.process ≡ q
      → s.parent ≡ waiting
      → s.child ≡ c
      → Reached c s.received_mode
      → Inv (wait_at c s)
  unfolding wait_at
  wait_at-Inv unborn s p w e r = absurd r
  wait_at-Inv (child_ended d) s p w e r = (p, (ap (exited 0) p, rw e r, rw e tt))
  wait_at-Inv starting s p w e r = absurd r
  wait_at-Inv initializing s p w e r = absurd r
  wait_at-Inv testing s p w e r = (p, rw w (rw e r))
  wait_at-Inv pausing s p w e r = (p, rw w (rw e r))
  wait_at-Inv paused s p w e r = (p, rw w (rw e r))

  parent_at-Inv :
      (a : ParentPc) (s : Pair)
      → s.parent ≡ a
      → s.process ≡ q
      → InvAt a s.child s.received_mode
      → Inv (parent_at pair_working mode a s)
  unfolding parent_at
  parent_at-Inv forking s e p (c, v) = (p, (tt, v))
  parent_at-Inv queueing s e p (w, v) =
      (signal_at-process s.child s ∙ p, signal_at-Reached s.child s w refl)
  parent_at-Inv waiting s e p r = wait_at-Inv s.child s p e refl r
  parent_at-Inv (parent_ended r) s e p h = (p, rw e h)

  child_at-Waits :
      (c : ChildPc) (s : Pair)
      → s.child ≡ c
      → Waits c
      → s.received_mode ≡ 0
      → Waits (child_at setup pair_working os c s).child
        × ((child_at setup pair_working os c s).received_mode ≡ 0)
  unfolding child_at initialize_usr2_handling
  child_at-Waits unborn s e w v = absurd w
  child_at-Waits (child_ended r) s e w v = absurd w
  child_at-Waits starting s e w v = (tt, v)
  child_at-Waits initializing s e w v = (tt, v)
  child_at-Waits testing s e w v = rw v (tt, refl)
  child_at-Waits pausing s e w v = (tt, v)
  child_at-Waits paused s e w v = (rw e tt, v)

  child_at-Reached :
      (c : ChildPc) (s : Pair)
      → s.child ≡ c
      → Reached c s.received_mode
      → Reached
          (child_at setup pair_working os c s).child
          (child_at setup pair_working os c s).received_mode
  unfolding child_at
  child_at-Reached unborn s e r = absurd r
  child_at-Reached (child_ended d) s e r = rw e r
  child_at-Reached starting s e r = absurd r
  child_at-Reached initializing s e r = absurd r
  child_at-Reached testing s e r = elim (Bool-cases (mode == 0)) [
    | inl z ↦ rw r (rw z refl)
    | inr z ↦ rw r (rw z (inr (z, refl)))
  ]
  child_at-Reached pausing s e r = r
  child_at-Reached paused s e r = rw e r

  child_at-Ended :
      (c : ChildPc) (s : Pair) → s.child ≡ c → Ended c → child_at setup pair_working os c s ≡ s
  unfolding child_at
  child_at-Ended unborn s e h = absurd h
  child_at-Ended (child_ended r) s e h = refl
  child_at-Ended starting s e h = absurd h
  child_at-Ended initializing s e h = absurd h
  child_at-Ended testing s e h = absurd h
  child_at-Ended pausing s e h = absurd h
  child_at-Ended paused s e h = absurd h

  child_at-unborn : (c : ChildPc) (s : Pair) → c ≡ unborn → child_at setup pair_working os c s ≡ s
  unfolding child_at
  child_at-unborn c s e = rw e refl

  child_step-Inv :
      (a : ParentPc) (s : Pair)
      → InvAt a s.child s.received_mode
      → InvAt a
          (child_at setup pair_working os s.child s).child
          (child_at setup pair_working os s.child s).received_mode
  unfolding child_at
  child_step-Inv forking s (e, v) =
      subst (λ w. (w.child ≡ unborn) × (w.received_mode ≡ 0)) (sym (child_at-unborn s.child s e))
        (e, v)
  child_step-Inv queueing s (w, v) = child_at-Waits s.child s refl w v
  child_step-Inv waiting s r = child_at-Reached s.child s refl r
  child_step-Inv (parent_ended r) s (e, h, d) =
      subst (λ w. (r ≡ exited 0 q) × Reached w.child w.received_mode × Ended w.child)
        (sym (child_at-Ended s.child s refl d)) (e, h, d)

  child_at-parent :
      (c : ChildPc) (s : Pair) → (child_at setup pair_working os c s).parent ≡ s.parent
  unfolding child_at
  child_at-parent testing s = elim (Bool-cases (s.received_mode == 0)) [
    | inl z ↦ rw z refl
    | inr z ↦ rw z refl
  ]
  child_at-parent unborn s = refl
  child_at-parent starting s = refl
  child_at-parent initializing s = refl
  child_at-parent pausing s = refl
  child_at-parent paused s = refl
  child_at-parent (child_ended r) s = refl

  child_at-process :
      (c : ChildPc) (s : Pair) → (child_at setup pair_working os c s).process ≡ s.process
  unfolding child_at
  child_at-process testing s = elim (Bool-cases (s.received_mode == 0)) [
    | inl z ↦ rw z refl
    | inr z ↦ rw z refl
  ]
  child_at-process unborn s = refl
  child_at-process starting s = refl
  child_at-process initializing s = refl
  child_at-process pausing s = refl
  child_at-process paused s = refl
  child_at-process (child_ended r) s = refl

  step-Inv : (t : Turn) (s : Pair) → Inv s → Inv (step setup pair_working os mode t s)
  unfolding step
  step-Inv parent_turn s (p, h) = parent_at-Inv s.parent s refl p h
  step-Inv child_turn s (p, h) =
      (child_at-process s.child s ∙ p, rw (child_at-parent s.child s) (child_step-Inv s.parent s h))

  pub run-Inv :
      (turns : List Turn) (s : Pair) → Inv s → Inv (run setup pair_working os mode turns s)
  unfolding run
  run-Inv [] s h = h
  run-Inv (t ∷ turns) s h = run-Inv turns (step setup pair_working os mode t s) (step-Inv t s h)
