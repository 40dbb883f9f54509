-- ===== src/Robot/Level2.antt =====
-- lab6/src/program2.c: level 2. Its synchronizer, image writer, logger and `handle_sigint` make the
-- calls of level 3, over the same buffers; there is no watchdog and no atomic counter. Two counts
-- under `stats_mutex` take their place, which `main` prints.
pub mod Stats
pub mod Delivery
use sys_op.Prelude.{
  ℕ, zero, suc, ◌+◌, ◌%◌, ◌^◌, List, [], ◌∷◌, ◌++◌, Bool, true, false, if◌then◌else◌,
}
use sys_op.Prelude.Double.{Double}
use sys_op.Robot.Buffer.{buffer_push}
use sys_op.Robot.Time.{Timespec, Frame}
use sys_op.Robot.Threads.{
  no_frame, Frames, Camera, MakerPc, making, counting_total, counting_recent, pushing, ended,
}
use sys_op.Robot.System as System
use sys_op.Robot.System.{Robot}
use sys_op.Robot.System.Start.{start}

-- Where `main` stands in its loop.
pub data ReportPc : Type 0 where
  testing : ReportPc
  woken : ReportPc  -- after sleep(2)
  reading : ReportPc
  joining : ReportPc

-- `core` is the robot of level 3, whose counters and watchdog stay as they are. `reports` is what
-- `main` has printed, newest first.
pub record Level2 (fl : Double) : Type 0 where
  pub core : Robot fl
  pub stats_frames_generated : ℕ
  pub stats_robot_states : ℕ
  pub reporter : ReportPc
  pub reports : List (ℕ × ℕ)

-- `++` on an int of 32 bits, by the bits that it leaves.
abbrev pub bumped : ℕ → ℕ
bumped n = (n + 1) % 2 ^ 32

-- A camera tests is_running and takes a frame.
abbrev pub shoot : Bool → Timespec → Camera → Camera
shoot is_running now c =
    if is_running
    then record c { pc = pushing (record { frame_id = c.id; timestamp = now }); id = bumped c.id }
    else record c { pc = ended }

module _ (fl : Double) where
  -- The left camera, whose frames are the ones that are counted.
  unfoldable pub left_camera_at : MakerPc → Timespec → Level2 fl → Level2 fl
  left_camera_at making now s = record s {
    core = record (s.core) { left = shoot s.core.is_running now s.core.left };
  }
  left_camera_at (pushing f) now s = record s {
    core = record (s.core) {
      left = record (s.core.left) { pc = counting_total };
      cam_left_buf = buffer_push no_frame s.core.cam_left_buf f;
    };
  }
  left_camera_at counting_total now s = record s {
    core = record (s.core) { left = record (s.core.left) { pc = making } };
    stats_frames_generated = bumped s.stats_frames_generated;
  }
  left_camera_at counting_recent now s = s
  left_camera_at ended now s = s

  unfoldable pub right_camera_at : MakerPc → Timespec → Level2 fl → Level2 fl
  right_camera_at making now s = record s {
    core = record (s.core) { right = shoot s.core.is_running now s.core.right };
  }
  right_camera_at (pushing f) now s = record s {
    core = record (s.core) {
      right = record (s.core.right) { pc = making };
      cam_right_buf = buffer_push no_frame s.core.cam_right_buf f;
    };
  }
  right_camera_at counting_total now s = s
  right_camera_at counting_recent now s = s
  right_camera_at ended now s = s

  -- The thread that moves the robot makes its move as in level 3, and counts it.
  unfoldable pub robot_state_at : MakerPc → Timespec → Level2 fl → Level2 fl
  robot_state_at making now s = record s { core = System.robot_at fl making now s.core }
  robot_state_at (pushing f) now s = s
  robot_state_at counting_total now s = record s {
    core = record (s.core) { mover = record (s.core.mover) { pc = making } };
    stats_robot_states = bumped s.stats_robot_states;
  }
  robot_state_at counting_recent now s = s
  robot_state_at ended now s = s

  -- One call of the loop of `main`.
  unfoldable pub report_at : ReportPc → Level2 fl → Level2 fl
  report_at testing s = record s { reporter = if s.core.is_running then woken else joining }
  report_at woken s = record s { reporter = if s.core.is_running then reading else joining }
  report_at reading s = record s {
    reporter = testing;
    reports = (s.stats_frames_generated, s.stats_robot_states) ∷ s.reports;
  }
  report_at joining s = s

  pub data Turn : Type 0 where
    left_camera : Timespec → Turn
    right_camera : Timespec → Turn
    synchronizer : Turn
    image_writer : Turn
    robot_state : Timespec → Turn
    logger : Turn
    report : Turn
    sigint : Turn

  abbrev pub on_core : System.Turn fl → Level2 fl → Level2 fl
  on_core t s = record s { core = System.step fl t s.core }

  unfoldable pub step : Turn → Level2 fl → Level2 fl
  step (left_camera now) s = left_camera_at s.core.left.pc now s
  step (right_camera now) s = right_camera_at s.core.right.pc now s
  step synchronizer s = on_core System.synchronizer s
  step image_writer s = on_core System.image_writer s
  step (robot_state now) s = robot_state_at s.core.mover.pc now s
  step logger s = on_core System.logger s
  step report s = report_at s.reporter s
  step sigint s = on_core System.sigint s

  unfoldable pub run : List Turn → Level2 fl → Level2 fl
  run [] s = s
  run (t ∷ ts) s = run ts (step t s)

  abbrev pub begin : Level2 fl
  begin = record {
    core = start fl;
    stats_frames_generated = 0;
    stats_robot_states = 0;
    reporter = testing;
    reports = [];
  }
