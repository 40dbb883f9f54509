-- ===== src/Signals/Pause/Outcome.antt =====
-- How the parent and the child of lab2/zad2 and lab2/zad3 end, by where SIGUSR2 finds the child.
use sys_op.Prelude.{
  ap, ◌∙◌, sym, subst, ℕ, suc, ◌≤◌, ◌≡◌, refl, List, [], ◌∷◌, Bool, true, false, ◌==◌, Option, none,
  some, ◌⊎◌, inl, inr, arith,
}
use sys_op.Signals.Kernel.{Process, Program, Run, running, killed, exited, Os}
use sys_op.Signals.Modes.{Text, parse_input}
use sys_op.Signals.Outcomes.{started}
use sys_op.Signals.Pair.{initialize_usr2_handling, await_mode, child_main, launch, pair_working}
use sys_op.Signals.Child.{proceed}
use sys_op.Signals.Pause.{
  ParentPc, queueing, waiting, parent_ended, ChildPc, unborn, starting, initializing, testing,
  pausing, paused, child_ended, Pair, usr2_handler, signal_at, wait_at, parent_at, child_at, Turn,
  parent_turn, child_turn, step, run, start,
}
use sys_op.Signals.Pause.Fates.{Inv, InvAt, Reached, Ended, run-Inv}

-- The child of `launch`, which has its handler in time and does not wait for ever, proceeds.
child_main-proceed :
    (setup : ℕ → Program (Unit {0})) (os : Os) (mode : ℕ)
    → (mode == 0) ≡ false
    → child_main setup pair_working os (mode ∷ []) (started []) ≡ proceed setup os mode (started [])
unfolding child_main initialize_usr2_handling await_mode proceed
child_main-proceed setup os mode e = rw e refl

launched :
    (setup : ℕ → Program (Unit {0})) (os : Os) (argv : List Text) (p : Process) (mode : ℕ)
    → (q : Process) → parse_input argv p ≡ running mode q
    → (c : ChildPc) (v : ℕ) → Reached setup os mode q c v
    → Ended setup os mode q c
    → (installed : Bool) × (d : Run (Unit {0})) × (c ≡ child_ended d)
      × (launch setup (record pair_working { installed = installed }) os argv p
          ≡ (exited 0 q, some d))
unfolding launch
launched setup os argv p mode q e (child_ended d) v (inl k) h =
    (false, d, refl, rw (launch, e) (rw k refl))
launched setup os argv p mode q e (child_ended d) v (inr (z, k)) h = (
  true,
  d,
  refl,
  rw (launch, e) (ap (λ w. (exited 0 q, some w)) (child_main-proceed setup os mode z ∙ sym k)),
)
launched setup os argv p mode q e unborn v r h = absurd h
launched setup os argv p mode q e starting v r h = absurd h
launched setup os argv p mode q e initializing v r h = absurd h
launched setup os argv p mode q e testing v r h = absurd h
launched setup os argv p mode q e pausing v r h = absurd h
launched setup os argv p mode q e paused v r h = absurd h

-- Whatever the order of the steps, when the calls that join parent and child work: a parent that
-- has ended leaves a child that has ended, and the two have ended as `launch` says, with the child's
-- handler of SIGUSR2 installed in time or not.
pub run-launch :
    (setup : ℕ → Program (Unit {0})) (os : Os) (argv : List Text) (p : Process) (mode : ℕ)
    → (q : Process) → parse_input argv p ≡ running mode q
    → (turns : List Turn) (r : Run (Unit {0}))
    → (run setup pair_working os mode turns (start q)).parent ≡ parent_ended r
    → (installed : Bool) × (d : Run (Unit {0})) × ((run setup pair_working os mode turns
          (start q)).child
        ≡ child_ended d)
      × (launch setup (record pair_working { installed = installed }) os argv p ≡ (r, some d))
unfolding start
run-launch setup os argv p mode q e turns r done =
    let s : Pair = run setup pair_working os mode turns (start q) in
    let h : Inv setup os mode q s = run-Inv setup os mode q turns (start q) (refl, (refl, refl)) in
    let w : InvAt setup os mode q (parent_ended r) s.child s.received_mode =
      subst (λ a. InvAt setup os mode q a s.child s.received_mode) done h.1 in
    rw w.0 (launched setup os argv p mode q e s.child s.received_mode w.1 w.2)

-- The turns of the child.
abbrev pub child_turns : List Turn → ℕ
child_turns [] = 0
child_turns (parent_turn ∷ turns) = child_turns turns
child_turns (child_turn ∷ turns) = suc (child_turns turns)

module _ (setup : ℕ → Program (Unit {0})) (os : Os) (mode : ℕ) (q : Process) where
  abbrev pub pair_at : ParentPc → ChildPc → ℕ → Pair
  pair_at a c v = record { parent = a; process = q; child = c; received_mode = v }

  -- How a child ends that SIGUSR2 finds at a step; `none` where that is not settled by it.
  abbrev pub fate : ChildPc → Option (Run (Unit {0}))
  fate unborn = none
  fate starting = some (killed (started []))
  fate initializing = some (killed (started []))
  fate testing = some (proceed setup os mode (started []))
  fate pausing = none
  fate paused = some (proceed setup os mode (started []))
  fate (child_ended r) = none

  -- The parent's last step behind the turns.
  abbrev pub ending : List Turn → Pair → Pair
  ending turns s =
      step setup pair_working os mode parent_turn (run setup pair_working os mode turns s)

  both_ended :
      (turns : List Turn) (d : Run (Unit {0})) (v : ℕ)
      → ending turns (pair_at (parent_ended (exited 0 q)) (child_ended d) v)
        ≡ pair_at (parent_ended (exited 0 q)) (child_ended d) v
  unfolding run step parent_at child_at
  both_ended [] d v = refl
  both_ended (parent_turn ∷ turns) d v = both_ended turns d v
  both_ended (child_turn ∷ turns) d v = both_ended turns d v

  child_gone :
      (turns : List Turn) (d : Run (Unit {0})) (v : ℕ)
      → ending turns (pair_at waiting (child_ended d) v)
        ≡ pair_at (parent_ended (exited 0 q)) (child_ended d) v
  unfolding run step parent_at child_at wait_at
  child_gone [] d v = refl
  child_gone (parent_turn ∷ turns) d v = both_ended turns d v
  child_gone (child_turn ∷ turns) d v = child_gone turns d v

  awakening :
      (mode == 0) ≡ false
      → child_at setup pair_working os testing (pair_at waiting testing mode)
        ≡ pair_at waiting (child_ended (proceed setup os mode (started []))) mode
  unfolding child_at
  awakening z = rw z refl

  awake :
      (turns : List Turn)
      → (mode == 0) ≡ false
      → 1 ≤ child_turns turns
      → ending turns (pair_at waiting testing mode)
        ≡ pair_at
            (parent_ended (exited 0 q))
            (child_ended (proceed setup os mode (started [])))
            mode
  unfolding run step parent_at wait_at
  awake [] z le = absurd (omega arith)
  awake (parent_turn ∷ turns) z le = awake turns z le
  awake (child_turn ∷ turns) z le =
      subst
        (λ s.
          ending turns s
          ≡ pair_at (parent_ended (exited 0 q)) (child_ended (proceed setup os mode (started [])))
              mode)
        (sym (awakening z)) (child_gone turns (proceed setup os mode (started [])) mode)

  asleep :
      (turns : List Turn)
      → run setup pair_working os mode turns (pair_at waiting paused mode)
        ≡ pair_at waiting paused mode
  unfolding run step parent_at child_at wait_at
  asleep [] = refl
  asleep (parent_turn ∷ turns) = asleep turns
  asleep (child_turn ∷ turns) = asleep turns

  -- Neither the parent nor the child has ended.
  abbrev pub Hangs : Pair → Type 0
  Hangs s = (s.parent ≡ waiting) × ((s.child ≡ pausing) ⊎ (s.child ≡ paused))

  falling_asleep :
      (turns : List Turn)
      → Hangs (run setup pair_working os mode turns (pair_at waiting pausing mode))
  unfolding run step parent_at child_at wait_at
  falling_asleep [] = (refl, inl refl)
  falling_asleep (parent_turn ∷ turns) = falling_asleep turns
  falling_asleep (child_turn ∷ turns) = subst (λ s. Hangs s) (sym (asleep turns)) (refl, inr refl)

  ended_as :
      (s : Pair) (d b : Run (Unit {0})) (v : ℕ)
      → s ≡ pair_at (parent_ended (exited 0 q)) (child_ended b) v
      → some b ≡ some d
      → (s.parent ≡ parent_ended (exited 0 q)) × (s.child ≡ child_ended d)
  ended_as s d b v e same =
      let eq : b ≡ d = cc in (ap (λ t. t.parent) e, ap (λ t. t.child) e ∙ ap child_ended eq)

  -- When the calls that join parent and child work, the mode is not 0 and no SIGUSR2 has come before:
  -- in whatever order parent and child go on behind the sigqueue, once the child has had a further
  -- turn the next step of the parent is its end with status 0 or comes after it, and the child was
  -- killed if SIGUSR2 found it before `sigaction`, and has gone on with the parent's mode if it found
  -- it before a test of received_mode or in pause.
  pub signal-Fate :
      (c : ChildPc) (d : Run (Unit {0}))
      → fate c ≡ some d
      → (mode == 0) ≡ false
      → (turns : List Turn) → 1 ≤ child_turns turns
      → ((ending (parent_turn ∷ turns) (pair_at queueing c 0)).parent ≡ parent_ended (exited 0 q))
        × ((ending (parent_turn ∷ turns) (pair_at queueing c 0)).child ≡ child_ended d)
  unfolding run step parent_at signal_at usr2_handler
  signal-Fate unborn d e z turns le = absurd (cc)
  signal-Fate starting d e z turns le =
      ended_as (ending turns (pair_at waiting (child_ended (killed (started []))) 0)) d
        (killed (started [])) 0 (child_gone turns (killed (started [])) 0) e
  signal-Fate initializing d e z turns le =
      ended_as (ending turns (pair_at waiting (child_ended (killed (started []))) 0)) d
        (killed (started [])) 0 (child_gone turns (killed (started [])) 0) e
  signal-Fate testing d e z turns le =
      ended_as (ending turns (pair_at waiting testing mode)) d (proceed setup os mode (started []))
        mode (awake turns z le) e
  signal-Fate pausing d e z turns le = absurd (cc)
  signal-Fate paused d e z turns le =
      ended_as (ending turns (pair_at waiting testing mode)) d (proceed setup os mode (started []))
        mode (awake turns z le) e
  signal-Fate (child_ended r) d e z turns le = absurd (cc)

  -- When the calls that join parent and child work, and SIGUSR2 comes after the child's first test of
  -- received_mode and before its pause, the parent stays in wait and the child before or in pause for
  -- ever, whatever steps follow: neither ends.
  pub lost_signal :
      (turns : List Turn)
      → Hangs (
          run setup pair_working os mode
            (parent_turn ∷ child_turn ∷ child_turn ∷ child_turn ∷ parent_turn ∷ turns)
            (start q))
  unfolding run step parent_at child_at signal_at usr2_handler start initialize_usr2_handling
  lost_signal turns = falling_asleep turns
