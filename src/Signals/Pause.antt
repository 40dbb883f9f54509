-- ===== src/Signals/Pause.antt =====
-- The parent and the child of lab2/zad2 and lab2/zad3 step by step: the child's way to its handler of
-- SIGUSR2 and its loop `while (received_mode == 0) pause();`, in any order with the parent.
mod Fates
pub mod Outcome
use sys_op.Prelude.{ℕ, ◌%◌, List, [], ◌∷◌, if◌then◌else◌, ◌==◌}
use sys_op.Signals.Kernel.{
  Process, Program, Run, running, killed, exited, ◌>>◌, print, exit, Os, failure, finished,
}
use sys_op.Signals.Child.{proceed}
use sys_op.Signals.Outcomes.{started}
use sys_op.Signals.Pair.{PairOs, initialize_usr2_handling}

-- Where the parent is behind `parse_input`: before fork, before sigqueue (in sleep(1)), in wait.
pub data ParentPc : Type 0 where
  forking queueing waiting : ParentPc
  parent_ended : Run (Unit {0}) → ParentPc

-- Where the child is: before fork, execl, `initialize_usr2_handling`; before a test of received_mode;
-- between a test that has read 0 and pause(); in pause().
pub data ChildPc : Type 0 where
  unborn starting initializing testing pausing paused : ChildPc
  child_ended : Run (Unit {0}) → ChildPc

pub record Pair : Type 0 where
  pub parent : ParentPc
  pub process : Process  -- the parent's
  pub child : ChildPc
  pub received_mode : ℕ

unfoldable pub usr2_handler : ℕ → Pair → Pair
usr2_handler sival_int s = record s { received_mode = sival_int }

-- SIGUSR2 reaches the child. Its default action kills a process; pause returns behind the handler.
unfoldable pub signal_at : ChildPc → ℕ → Pair → Pair
signal_at unborn v s = s
signal_at starting v s = record s { child = child_ended (killed (started [])) }
signal_at initializing v s = record s { child = child_ended (killed (started [])) }
signal_at testing v s = usr2_handler v s
signal_at pausing v s = usr2_handler v s
signal_at paused v s = record (usr2_handler v s) { child = testing }
signal_at (child_ended r) v s = s

-- SIGKILL reaches the child.
unfoldable pub sigkill_at : ChildPc → Pair → Pair
sigkill_at (child_ended r) s = s
sigkill_at unborn s = s
sigkill_at starting s = record s { child = child_ended (killed (started [])) }
sigkill_at initializing s = record s { child = child_ended (killed (started [])) }
sigkill_at testing s = record s { child = child_ended (killed (started [])) }
sigkill_at pausing s = record s { child = child_ended (killed (started [])) }
sigkill_at paused s = record s { child = child_ended (killed (started [])) }

-- wait(NULL), which returns when the child has ended, and the return from main.
unfoldable pub wait_at : ChildPc → Pair → Pair
wait_at (child_ended r) s = record s { parent = parent_ended (exited 0 s.process) }
wait_at unborn s = s
wait_at starting s = s
wait_at initializing s = s
wait_at testing s = s
wait_at pausing s = s
wait_at paused s = s

abbrev failing : Pair → Pair
failing s = record s {
  parent = parent_ended (exited 1 (record s.process { output = failure ∷ s.process.output }));
}

-- A step of the parent, which sends `mode`.
unfoldable pub parent_at : PairOs → ℕ → ParentPc → Pair → Pair
parent_at pos mode forking s =
    if pos.fork_ok then record s { parent = queueing; child = starting } else failing s
parent_at pos mode queueing s =
    if pos.sigqueue_ok
    then record (signal_at s.child mode s) { parent = waiting }
    else sigkill_at s.child (failing s)
parent_at pos mode waiting s = wait_at s.child s
parent_at pos mode (parent_ended r) s = s

abbrev initialized : Run (Unit {0}) → ChildPc
initialized (running u p) = testing
initialized (killed p) = child_ended (killed p)
initialized (exited n p) = child_ended (exited n p)

-- A step of the child, by its `mode_setup`; without a signal it stays in pause.
unfoldable pub child_at : (ℕ → Program (Unit {0})) → PairOs → Os → ChildPc → Pair → Pair
child_at setup pos os unborn s = s
child_at setup pos os starting s =
    if pos.execl_ok
    then record s { child = initializing }
    else record s { child = child_ended (exited 1 (started (failure ∷ []))) }
child_at setup pos os initializing s = record s {
  child = initialized (initialize_usr2_handling pos (started []));
}
child_at setup pos os testing s =
    if s.received_mode == 0
    then record s { child = pausing }
    else record s { child = child_ended (proceed setup os s.received_mode (started [])) }
child_at setup pos os pausing s = record s { child = paused }
child_at setup pos os paused s = s
child_at setup pos os (child_ended r) s = s

pub data Turn : Type 0 where
  parent_turn child_turn : Turn

unfoldable pub step : (ℕ → Program (Unit {0})) → PairOs → Os → ℕ → Turn → Pair → Pair
step setup pos os mode parent_turn s = parent_at pos mode s.parent s
step setup pos os mode child_turn s = child_at setup pos os s.child s

unfoldable pub run : (ℕ → Program (Unit {0})) → PairOs → Os → ℕ → List Turn → Pair → Pair
run setup pos os mode [] s = s
run setup pos os mode (t ∷ turns) s = run setup pos os mode turns (step setup pos os mode t s)

-- Behind `parse_input`, which has left the parent's process.
unfoldable pub start : Process → Pair
start p = record { parent = forking; process = p; child = unborn; received_mode = 0 }
