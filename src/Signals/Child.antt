-- ===== src/Signals/Child.antt =====
-- lab2/zad2/child.c behind its loop of pause, which lab2/zad3/child.c has too: the set-up of the mode
-- that it has received, and its own loop of twenty rounds.
use sys_op.Prelude.{
  ap, ◌∙◌, ℕ, zero, suc, ◌+◌, ◌%◌, ◌≡◌, refl, Bool, ◌==◌, ◌||◌, ◌⊎◌, inl, inr, if◌then◌else◌,
}
use sys_op.Signals.Kernel.{
  Process, Program, then_run, ◌>>=◌, ◌>>◌, pure, print, exit, Os, round, sending, unblocking,
  finished, failure, improper_mode, default_action, ignored, handled, raise, Run, running, killed,
  exited, sigaction, sigprocmask_block, sigprocmask_unblock,
}
use sys_op.Signals.Modes as Modes
use sys_op.Signals.Loop as Loop

abbrev check : Program Bool → Program (Unit {0})
check call = do r ← call; if r then pure tt else (do print failure; exit 1)

unfoldable pub sig_default : Os → Program (Unit {0})
sig_default os = check (sigaction os default_action)

unfoldable pub sig_mask : Os → Program (Unit {0})
sig_mask os = check (sigprocmask_block os)

unfoldable pub sig_unblock : Os → Program (Unit {0})
sig_unblock os = check (sigprocmask_unblock os)

unfoldable pub sig_ignore : Os → Program (Unit {0})
sig_ignore os = check (sigaction os ignored)

unfoldable pub sig_handle : Os → Program (Unit {0})
sig_handle os = check (sigaction os handled)

unfoldable pub mode_setup : Os → ℕ → Program (Unit {0})
mode_setup os mode =
    if mode == b'd'
    then sig_default os
    else if mode == b'm'
    then sig_mask os
    else if mode == b'i'
    then sig_ignore os
    else if mode == b'h'
    then sig_handle os
    else print improper_mode

-- Round 10.
unfoldable pub check_pending : Os → Program (Unit {0})
check_pending os p =
    if os.sigpending_ok
    then (if p.pending then (do print unblocking; sig_unblock os) p else running tt p)
    else (do print failure; exit 1) p

unfoldable pub round_body : Os → ℕ → Program (Unit {0})
round_body os i = do
  print (round i)
  if i == 5 || i == 15
      then (do print sending; raise)
      else if i == 10
      then check_pending os
      else pure tt

-- The rounds from `i` on, with `n` to go.
unfoldable pub rounds : Os → ℕ → ℕ → Program (Unit {0})
rounds os zero i = pure tt
rounds os (suc n) i = do round_body os i; rounds os n (i + 1)

-- What follows the loop of pause, by the child's `mode_setup`; `(char) received_mode` is the mode.
unfoldable pub proceed : (ℕ → Program (Unit {0})) → Os → ℕ → Program (Unit {0})
proceed setup os received_mode = do
  setup (received_mode % 256)
  rounds os 20 1
  print finished
  exit 0

-- A round of child.c does what that of lab2/zad1/main.c does.
round_body-round_body : (os : Os) (i : ℕ) (p : Process) → round_body os i p ≡ Loop.round_body os i p
unfolding round_body check_pending sig_unblock Loop.round_body Loop.check_pending Modes.sig_unblock
round_body-round_body os i p = refl

then_run-same :
    (r : Run (Unit {0})) (f g : Program (Unit {0}))
    → ((p : Process) → f p ≡ g p)
    → then_run r (λ u. f) ≡ then_run r (λ u. g)
then_run-same (running u p) f g h = h p
then_run-same (killed p) f g h = refl
then_run-same (exited n p) f g h = refl

-- The loop of child.c does what that of lab2/zad1/main.c does.
rounds-rounds : (os : Os) (n i : ℕ) (p : Process) → rounds os n i p ≡ Loop.rounds os n i p
unfolding rounds Loop.rounds
rounds-rounds os zero i p = refl
rounds-rounds os (suc n) i p =
    ap (λ r. then_run r (λ u. rounds os n (i + 1))) (round_body-round_body os i p)
    ∙ then_run-same (Loop.round_body os i p) (rounds os n (i + 1)) (Loop.rounds os n (i + 1))
        (rounds-rounds os n (i + 1))

-- For the modes that there are, `mode_setup` does the same in both programs.
mode_setup-mode_setup :
    (os : Os) (mode : ℕ) (p : Process)
    → (mode ≡ b'd') ⊎ (mode ≡ b'm') ⊎ (mode ≡ b'i') ⊎ (mode ≡ b'h')
    → mode_setup os mode p ≡ Modes.mode_setup os mode p
unfolding mode_setup sig_default sig_mask sig_ignore sig_handle Modes.mode_setup Modes.sig_default
    Modes.sig_mask Modes.sig_ignore Modes.sig_handle
mode_setup-mode_setup os mode p (inl e) = rw e refl
mode_setup-mode_setup os mode p (inr (inl e)) = rw e refl
mode_setup-mode_setup os mode p (inr (inr (inl e))) = rw e refl
mode_setup-mode_setup os mode p (inr (inr (inr e))) = rw e refl

-- What lab2/zad1/main.c does behind `parse_input`.
unfoldable pub rest_of_main : Os → ℕ → Program (Unit {0})
rest_of_main os mode = do Modes.mode_setup os mode; Loop.rounds os 20 1; print finished; exit 0

abbrev ending : Program (Unit {0})
ending = do print finished; exit 0

-- A child that has received one of the modes goes on as lab2/zad1/main.c does.
pub proceed-main :
    (os : Os) (mode : ℕ) (p : Process)
    → (mode ≡ b'd') ⊎ (mode ≡ b'm') ⊎ (mode ≡ b'i') ⊎ (mode ≡ b'h')
    → mode % 256 ≡ mode
    → proceed (mode_setup os) os mode p ≡ rest_of_main os mode p
unfolding proceed rest_of_main
proceed-main os mode p h small =
    rw (small, mode_setup-mode_setup os mode p h)
      (then_run-same (Modes.mode_setup os mode p) (λ q. then_run (rounds os 20 1 q) (λ u. ending))
        (λ q. then_run (Loop.rounds os 20 1 q) (λ u. ending))
        (λ q. ap (λ r. then_run r (λ u. ending)) (rounds-rounds os 20 1 q)))
