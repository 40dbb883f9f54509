-- ===== src/Robot/Shutdown/Fates.antt =====
-- What SIGINT does to a thread of lab6 in `buffer_pop`, by where the thread stands.
use sys_op.Prelude.{
  ℕ, suc, ◌-◌, ◌≤◌, ◌≡◌, ◌≢◌, refl, sym, ap, ◌∙◌, List, [], ◌∷◌, Bool, false, arith,
}
use sys_op.Robot.Shutdown.{
  WaitPc, entering, checking, going_to_wait, asleep, woken, returned, FeedPc, testing, pushing,
  ended, Waiting, popper_at, feeder_at, handle_sigint, lower_flag, broadcast, Turn, popper, feeder,
  signal, step, run, run-IsStuck,
}
use sys_op.Robot.Shutdown.Calls.{
  begin, IsHeld, popper-IsHeld, feeder-IsHeld, holds-signal, run-IsHeld, left, Leaves, feeder-left,
  feeder-is_running, popper-left,
}

-- The calls of the thread in some turns.
abbrev pub popper_turns : List Turn → ℕ
popper_turns [] = 0
popper_turns (popper ∷ ts) = suc (popper_turns ts)
popper_turns (feeder ∷ ts) = popper_turns ts

left-eq_zero : (p : WaitPc) → left p ≤ 0 → (b : Bool) × (p ≡ returned b)
left-eq_zero (returned b) le = (b, refl)
left-eq_zero entering le = absurd (omega arith)
left-eq_zero checking le = absurd (omega arith)
left-eq_zero going_to_wait le = absurd (omega arith)
left-eq_zero asleep le = absurd (omega arith)
left-eq_zero woken le = absurd (omega arith)

leaving :
    (ts : List Turn) (n : ℕ) (s : Waiting)
    → n ≤ 2
    → Leaves n s
    → n ≤ popper_turns ts
    → (b : Bool) × ((run ts s).popper ≡ returned b)
unfolding run step
leaving [] n s le h enough = left-eq_zero s.popper (omega (arith, h.near))
leaving (popper ∷ ts) n s le h enough =
    let (near, down) = popper-left s.popper s refl h.down h.held (omega (arith, h.near)) in
    leaving ts (n - 1) (popper_at s.popper s) (omega arith)
      (record {
        down = down;
        held = popper-IsHeld s.popper s refl h.held;
        near = omega (arith, near, h.near);
      })
      (omega arith)
leaving (feeder ∷ ts) n s le h enough =
    leaving ts n (feeder_at s.feeder s) le
      (record {
        down = feeder-is_running s.feeder s ∙ h.down;
        held = feeder-IsHeld s.feeder s h.held;
        near = omega (arith, feeder-left s.feeder s, h.near);
      })
      enough

-- The thread is about to wait, and nobody is going to push.
record Dozes (s : Waiting) : Type 0 where
  down : s.is_running ≡ false
  at_wait : s.popper ≡ going_to_wait
  idle : s.feeder ≢ pushing

feeder-Dozes : (p : FeedPc) (s : Waiting) → s.feeder ≡ p → Dozes s → Dozes (feeder_at p s)
unfolding feeder_at
feeder-Dozes testing s e h = record { down = h.down; at_wait = h.at_wait; idle = rw h.down (cc) }
feeder-Dozes pushing s e h = absurd (h.idle e)
feeder-Dozes ended s e h = h

dozing : (ts : List Turn) (s : Waiting) → Dozes s → 1 ≤ popper_turns ts → (run ts s).popper ≡ asleep
unfolding run step popper_at
dozing [] s h enough = absurd (omega arith)
dozing (feeder ∷ ts) s h enough =
    dozing ts (feeder_at s.feeder s) (feeder-Dozes s.feeder s refl h) enough
dozing (popper ∷ ts) s h enough =
    rw h.at_wait (run-IsStuck ts _ (record { down = h.down; sleeps = refl; idle = h.idle })).sleeps

-- How the thread ends that the broadcast finds at a step.
abbrev pub Fate : WaitPc → Waiting → Type 0
Fate going_to_wait s = s.popper ≡ asleep
Fate entering s = (b : Bool) × (s.popper ≡ returned b)
Fate checking s = (b : Bool) × (s.popper ≡ returned b)
Fate asleep s = (b : Bool) × (s.popper ≡ returned b)
Fate woken s = (b : Bool) × (s.popper ≡ returned b)
Fate (returned r) s = (b : Bool) × (s.popper ≡ returned b)

leaves_at :
    (p : WaitPc) (s : Waiting) (ts : List Turn)
    → s.popper ≡ p
    → s.is_running ≡ false
    → IsHeld s
    → left (signal p) ≤ 2
    → 2 ≤ popper_turns ts
    → (b : Bool) × ((run ts (broadcast s)).popper ≡ returned b)
unfolding IsHeld
leaves_at p s ts e down h near enough =
    leaving ts 2 _ (omega arith)
      (record {
        down = down;
        held = h ∙ sym (holds-signal s.popper);
        near = omega (arith, ap (λ q. left (signal q)) e);
      })
      enough

Fate-at :
    (p : WaitPc) (s : Waiting) (ts : List Turn)
    → s.popper ≡ p
    → s.is_running ≡ false
    → IsHeld s
    → s.feeder ≢ pushing
    → 2 ≤ popper_turns ts
    → Fate p (run ts (broadcast s))
Fate-at going_to_wait s ts e down h idle enough =
    dozing ts _ (record { down = down; at_wait = ap signal e; idle = idle }) (omega arith)
Fate-at entering s ts e down h idle enough = leaves_at entering s ts e down h (omega arith) enough
Fate-at checking s ts e down h idle enough = leaves_at checking s ts e down h (omega arith) enough
Fate-at asleep s ts e down h idle enough = leaves_at asleep s ts e down h (omega arith) enough
Fate-at woken s ts e down h idle enough = leaves_at woken s ts e down h (omega arith) enough
Fate-at (returned r) s ts e down h idle enough =
    leaves_at (returned r) s ts e down h (omega arith) enough

-- The thread does not touch the flag.
popper-is_running : (p : WaitPc) (s : Waiting) → (popper_at p s).is_running ≡ s.is_running
unfolding popper_at
popper-is_running entering s = ground arith
popper-is_running checking s = ground arith
popper-is_running going_to_wait s = refl
popper-is_running asleep s = refl
popper-is_running woken s = ground arith
popper-is_running (returned b) s = refl

run-is_running : (ts : List Turn) (s : Waiting) → (run ts s).is_running ≡ s.is_running
unfolding run step
run-is_running [] s = refl
run-is_running (popper ∷ ts) s =
    run-is_running ts (popper_at s.popper s) ∙ popper-is_running s.popper s
run-is_running (feeder ∷ ts) s =
    run-is_running ts (feeder_at s.feeder s) ∙ feeder-is_running s.feeder s

module _ (count : ℕ) (before amid : List Turn) where
  -- The thread calls `buffer_pop`, SIGINT comes, and its handler is about to broadcast.
  abbrev pub found : Waiting
  found = run amid (lower_flag (run before (begin count)))

  -- SIGINT comes at any moment of a run in which a thread calls `buffer_pop`, and the thread and the
  -- camera may make calls before the handler broadcasts. Where the camera is not about to push at the
  -- broadcast, and pthread_cond_wait returns only when it is woken: once the thread has had two more
  -- turns, in whatever order the thread and the camera go on, it is asleep, however long the run, if
  -- the broadcast found it between its test and pthread_cond_wait; and if the broadcast found it
  -- anywhere else, asleep or not, `buffer_pop` has returned.
  pub sigint-Fate :
      (after : List Turn)
      → found.feeder ≢ pushing
      → 2 ≤ popper_turns after
      → Fate found.popper (run after (handle_sigint amid (run before (begin count))))
  unfolding IsHeld handle_sigint
  sigint-Fate after idle enough =
      Fate-at found.popper found after refl
        (run-is_running amid (lower_flag (run before (begin count))))
        (run-IsHeld amid (lower_flag (run before (begin count)))
          (run-IsHeld before (begin count) refl))
        idle enough
