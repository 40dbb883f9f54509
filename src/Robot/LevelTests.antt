-- ===== src/Robot/LevelTests.antt =====
-- Levels 1 and 2 of lab6 on concrete schedules.
use sys_op.Prelude.{
  replicate, length, ℕ, ◌+◌, ◌*◌, ◌≡◌, ◌≤◌, refl, List, [], ◌∷◌, ◌++◌, All, arith, true, false,
}
use sys_op.Robot.Time.{Timespec, Frame, is_pair, time_diff_ms}
use sys_op.Robot.Tests.{whole}
use sys_op.Robot.System.Sync.{InTolerance}
use sys_op.Robot.System.Counters.{not_counted}
use sys_op.Robot.Level1 as Level1
use sys_op.Robot.Level1.{exited}
use sys_op.Robot.Level1.Slot.{Kept, in_hand, saved_pairs}
use sys_op.Robot.Level1.Stop.Joins.{
  Thread, left_camera_thread, right_camera_thread, sync_thread, image_writer_thread,
  robot_state_thread, logger_thread, turns,
}
use sys_op.Robot.Level1.Stop.Exit.{main_turns, main_exits}
use sys_op.Robot.Level1.Bound.{published_frames}
use sys_op.Robot.Level1.Stereo as Stereo
use sys_op.Robot.Level2 as Level2
use sys_op.Robot.Buffer.{buffer_init, buffer_push, buffer_pop}
use sys_op.Robot.Threads.{writer_at}
use sys_op.Robot.System as System
use sys_op.Robot.System.{sync_at, robot_at, logger_round, handle_sigint}
use sys_op.Prelude.Int.{◌+ℤ◌, ◌-ℤ◌, ◌*ℤ◌}
use sys_op.Robot.Level2.Stats.{Grows, reports_grow}

abbrev at_ms : ℕ → Timespec
at_ms ms = record { tv_sec = 0; tv_nsec = ms * 1_000_000 }

abbrev shot : ℕ → ℕ → Frame
shot i ms = record { frame_id = i; timestamp = at_ms ms }

abbrev one_round : ℕ → List (Level1.Turn whole)
one_round ms =
    Level1.left_camera (at_ms ms)
    ∷ Level1.right_camera (at_ms (ms + 5))
    ∷ Level1.synchronizer
    ∷ Level1.image_writer
    ∷ Level1.robot_state (at_ms ms)
    ∷ Level1.logging
    ∷ []

abbrev four_rounds : ℕ → List (Level1.Turn whole)
four_rounds ms =
    one_round ms ++ (one_round (ms + 40) ++ (one_round (ms + 80) ++ one_round (ms + 120)))

abbrev stopped_early : List (Level1.Turn whole)
stopped_early =
    one_round 0
    ++ (Level1.main ∷ Level1.main ∷ Level1.synchronizer ∷ Level1.main ∷ Level1.main ∷ [])

four_calls : 4 ≤ main_turns whole stopped_early
unfolding main_turns
four_calls = omega arith

four_each : (th : Thread) → 4 ≤ turns whole th (four_rounds 40)
unfolding turns
four_each left_camera_thread = omega arith
four_each right_camera_thread = omega arith
four_each sync_thread = omega arith
four_each image_writer_thread = omega arith
four_each robot_state_thread = omega arith
four_each logger_thread = omega arith

main_exits_example :
    (Level1.run whole
      (stopped_early ++ (four_rounds 40 ++ (Level1.main ∷ [])))
      (Level1.start whole true)).main
    ≡ exited
main_exits_example = main_exits whole true stopped_early (four_rounds 40) four_calls four_each

-- Two rounds of the synchronizer and of the image writer.
abbrev busy : List (Level1.Turn whole)
busy = four_rounds 0 ++ (four_rounds 160 ++ four_rounds 320)

saved_pairs_example :
    let h = (Level1.run whole busy (Level1.start whole true)).hub in
    Kept (h.written ++ in_hand h.writer) h.published × All (InTolerance whole) h.published
saved_pairs_example = saved_pairs whole true busy

published_frames_example :
    (length (Level1.run whole busy (Level1.start whole true)).hub.published + 1
      ≤ (Level1.run whole busy (Level1.start whole true)).left.id)
    × (length (Level1.run whole busy (Level1.start whole true)).hub.published + 1
        ≤ (Level1.run whole busy (Level1.start whole true)).right.id)
published_frames_example = published_frames whole true busy

abbrev level2_round : ℕ → List (Level2.Turn whole)
level2_round ms =
    Level2.left_camera (at_ms ms)
    ∷ Level2.left_camera (at_ms ms)
    ∷ Level2.right_camera (at_ms (ms + 5))
    ∷ Level2.right_camera (at_ms (ms + 5))
    ∷ Level2.synchronizer
    ∷ Level2.image_writer
    ∷ Level2.robot_state (at_ms ms)
    ∷ Level2.logger
    ∷ Level2.report
    ∷ []

abbrev level2_turns : List (Level2.Turn whole)
level2_turns =
    level2_round 0
    ++ (level2_round 40
        ++ (level2_round 80
            ++ (level2_round 120
                ++ (level2_round 160 ++ (level2_round 200 ++ (Level2.sigint ∷ level2_round 240))))))

level2_room : (Level2.run whole level2_turns (Level2.begin whole)).core.pairs.overflowed ≡ false
unfolding Level2.run Level2.step Level2.left_camera_at Level2.right_camera_at Level2.robot_state_at
    Level2.report_at System.step sync_at robot_at logger_round handle_sigint buffer_push buffer_pop
    buffer_init is_pair time_diff_ms ◌+ℤ◌ ◌-ℤ◌ ◌*ℤ◌ writer_at
level2_room = refl

level2_saves :
    (Level2.run whole level2_turns (Level2.begin whole)).core.pairs.written
    ≡ (shot 1 0, shot 1 5) ∷ []
unfolding Level2.run Level2.step Level2.left_camera_at Level2.right_camera_at Level2.robot_state_at
    Level2.report_at System.step sync_at robot_at logger_round handle_sigint buffer_push buffer_pop
    buffer_init is_pair time_diff_ms ◌+ℤ◌ ◌-ℤ◌ ◌*ℤ◌ writer_at
level2_saves = refl

level1_saves :
    (Level1.run whole busy (Level1.start whole true)).hub.written ≡ (shot 3 160, shot 3 165) ∷ []
unfolding Level1.run Level1.step Level1.start Level1.robot_round Level1.logger_round Level1.main_at
    Stereo.sync_at Stereo.camera_at Stereo.writer_at is_pair time_diff_ms ◌+ℤ◌ ◌-ℤ◌ ◌*ℤ◌
level1_saves = refl

reports_grow_example :
    let s = Level2.run whole level2_turns (Level2.begin whole) in
    (s.core.left.id ≡ s.stats_frames_generated + not_counted s.core.left.pc + 1)
    × Grows s.stats_frames_generated s.stats_robot_states s.reports
reports_grow_example = reports_grow whole level2_turns (omega arith)

-- A synchronizer that is two frames behind finds two posts on each semaphore and only the latest
-- frames, which it publishes twice.
abbrev shoots : ℕ → List (Level1.Turn whole)
shoots ms =
    Level1.left_camera (at_ms ms)
    ∷ Level1.left_camera (at_ms ms)
    ∷ Level1.right_camera (at_ms ms)
    ∷ Level1.right_camera (at_ms ms)
    ∷ []

level1_doubles :
    (Level1.run whole
      (shoots 0 ++ (shoots 40 ++ replicate 14 Level1.synchronizer))
      (Level1.start whole true)).hub.published
    ≡ (shot 2 40, shot 2 40) ∷ (shot 2 40, shot 2 40) ∷ []
unfolding Level1.run Level1.step Level1.start Level1.robot_round Level1.logger_round Level1.main_at
    Stereo.sync_at Stereo.camera_at Stereo.writer_at is_pair time_diff_ms ◌+ℤ◌ ◌-ℤ◌ ◌*ℤ◌
level1_doubles = refl
