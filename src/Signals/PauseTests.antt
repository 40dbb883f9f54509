-- ===== src/Signals/PauseTests.antt =====
-- The parent and the child of lab2/zad2 in concrete orders of their steps.
use sys_op.Prelude.{List, [], ◌∷◌, Bool, codes, some, refl, ◌≡◌, arith}
use sys_op.Signals.Kernel.{Process, Run, running, exited, killed}
use sys_op.Signals.Modes.{Text, parse_input, same_text}
use sys_op.Signals.Child.{mode_setup}
use sys_op.Signals.Outcomes.{started, working}
use sys_op.Signals.Pair.{launch, pair_working, initialize_usr2_handling}
use sys_op.Signals.Child.{proceed}
use sys_op.Signals.Pause.{
  parent_ended, queueing, paused, child_ended, Pair, parent_at, child_at, wait_at, signal_at,
  usr2_handler, Turn, parent_turn, child_turn, run, start, step,
}
use sys_op.Signals.Pause.Outcome.{run-launch, signal-Fate, lost_signal, Hangs, ending}

abbrev shell : Process
shell = started []

-- The child is in pause when the signal comes, tests again and goes on.
abbrev in_time : List Turn
in_time =
    parent_turn ∷ child_turn ∷ child_turn ∷ child_turn ∷ child_turn ∷ parent_turn ∷ child_turn
    ∷ parent_turn ∷ []

-- The signal comes before execl.
abbrev early : List Turn
early = parent_turn ∷ parent_turn ∷ parent_turn ∷ []

abbrev argv : List Text
argv = codes "./main" ∷ codes "ignore" ∷ []

early_killed :
    (run (mode_setup working) pair_working working b'i' early (start shell)).child
    ≡ child_ended (killed (started []))
unfolding run step parent_at start wait_at signal_at
early_killed = refl

parsed : parse_input argv shell ≡ running b'i' shell
unfolding parse_input same_text
parsed = refl

in_time_ended :
    (run (mode_setup working) pair_working working b'i' in_time (start shell)).parent
    ≡ parent_ended (exited 0 shell)
unfolding run step parent_at child_at start wait_at signal_at initialize_usr2_handling usr2_handler
in_time_ended = refl

run-launch_example :
    (installed : Bool) × (d : Run (Unit {0})) × ((run
        (mode_setup working)
        pair_working
        working
        b'i'
        in_time
        (start shell)).child
      ≡ child_ended d)
    × (launch
          (mode_setup working)
          (record pair_working { installed = installed })
          working
          argv
          shell
        ≡ (exited 0 shell, some d))
run-launch_example =
    run-launch (mode_setup working) working argv shell b'i' shell parsed in_time (exited 0 shell)
      in_time_ended

-- The child is in pause, and no signal has come.
abbrev paused_pair : Pair
paused_pair = record { parent = queueing; process = shell; child = paused; received_mode = 0 }

-- The state is the one behind the first five steps of `in_time`.
paused_pair_reached :
    run
      (mode_setup working)
      pair_working
      working
      b'i'
      (parent_turn ∷ child_turn ∷ child_turn ∷ child_turn ∷ child_turn ∷ [])
      (start shell)
    ≡ paused_pair
unfolding run step parent_at child_at start wait_at signal_at initialize_usr2_handling usr2_handler
paused_pair_reached = refl

abbrev further : List Turn
further = parent_turn ∷ child_turn ∷ []

signal-Fate_example :
    ((ending (mode_setup working) working b'i' shell (parent_turn ∷ further) paused_pair).parent
      ≡ parent_ended (exited 0 shell))
    × ((ending (mode_setup working) working b'i' shell (parent_turn ∷ further) paused_pair).child
        ≡ child_ended (proceed (mode_setup working) working b'i' shell))
signal-Fate_example =
    signal-Fate (mode_setup working) working b'i' shell paused
      (proceed (mode_setup working) working b'i' shell) refl refl further (omega arith)

lost_signal_example : Hangs (mode_setup working) working b'i' shell (
    run
      (mode_setup working)
      pair_working
      working
      b'i'
      (parent_turn ∷ child_turn ∷ child_turn ∷ child_turn ∷ parent_turn ∷ further)
      (start shell))
lost_signal_example = lost_signal (mode_setup working) working b'i' shell further
