-- ===== src/Signals/Loop.antt =====
-- The loop of lab2, in lab2/zad1/main.c: twenty rounds that raise SIGUSR1 at 5 and 15, and unblock it at 10.
use sys_op.Prelude.{ℕ, zero, suc, ◌+◌, List, ◌==◌, ◌||◌, if◌then◌else◌}
use sys_op.Signals.Kernel.{
  Program, ◌>>=◌, ◌>>◌, pure, print, exit, Os, round, sending, unblocking, finished, failure, raise,
  running,
}
use sys_op.Signals.Modes.{Text, parse_input, mode_setup, sig_unblock}

-- The tenth round: `sigpending`, and the unblocking of a pending SIGUSR1.
unfoldable pub check_pending : Os → Program (Unit {0})
check_pending os p =
    if os.sigpending_ok
    then (if p.pending then (do print unblocking; sig_unblock os) p else running tt p)
    else (do print failure; exit 1) p

unfoldable pub round_body : Os → ℕ → Program (Unit {0})
round_body os i = do
  print (round i)
  if i == 5 || i == 15
      then (do print sending; raise)
      else if i == 10
      then check_pending os
      else pure tt

-- The rounds from `i` on, with `n` to go.
unfoldable pub rounds : Os → ℕ → ℕ → Program (Unit {0})
rounds os zero i = pure tt
rounds os (suc n) i = do round_body os i; rounds os n (i + 1)

unfoldable pub main : Os → List Text → Program (Unit {0})
main os argv = do
  mode ← parse_input argv
  mode_setup os mode
  rounds os 20 1
  print finished
  exit 0
