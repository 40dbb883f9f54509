-- ===== src/Robot/Level1.antt =====
-- lab6/src/program1.c: the six threads of level 1, each a call at a time, and `main`. A critical
-- section of a mutex is one call, and so is the test of `is_running` with the section behind it in
-- the loops of the cameras, of the robot's state and of the logger; a thread whose `sem_wait` would
-- block stays where it is.
pub mod Stereo
pub mod Stop
pub mod Slot
pub mod Bound
use sys_op.Prelude.{ℕ, zero, suc, List, [], ◌∷◌, Bool, true, false, not, ◌&&◌, if◌then◌else◌}
use sys_op.Prelude.Double.{Double}
use sys_op.Robot.Time.{Timespec}
use sys_op.Robot.Threads.{no_frame}
use sys_op.Robot.Level1.Stereo.{
  CameraPc, shooting, posting, ended, Camera, camera_at, posted, post_left, post_right, SyncPc,
  WriterPc, Hub, writer_at, sync_at,
}

pub data MainPc : Type 0 where
  sleeping stopping posting_left posting_right joining exited : MainPc

abbrev pub is_ended : CameraPc → Bool
is_ended ended = true
is_ended _ = false

abbrev pub sync_stopped : SyncPc → Bool
sync_stopped SyncPc.stopped = true
sync_stopped _ = false

abbrev pub writer_stopped : WriterPc → Bool
writer_stopped WriterPc.stopped = true
writer_stopped _ = false

module _ (fl : Double) where
  open fl use {D, of_int, add, div}

  pub record RobotState : Type 0 where
    pub x : D
    pub y : D
    pub theta : D
    pub timestamp : Timespec

  -- The thread that moves the robot, with its local pose.
  pub record Mover : Type 0 where
    pub moving : Bool
    pub x : D
    pub y : D
    pub theta : D
    pub current_robot_state : RobotState

  -- One round of it.
  unfoldable pub robot_round : Bool → Timespec → Mover → Mover
  robot_round is_running now m =
      let x = add m.x (div (of_int 1) (of_int 100)) in
      let y = add m.y (div (of_int 1) (of_int 100)) in
      let theta = add m.theta (div (of_int 5) (of_int 1000)) in
      if m.moving
      then (if is_running
          then record m {
            x = x;
            y = y;
            theta = theta;
            current_robot_state = record { x = x; y = y; theta = theta; timestamp = now };
          }
          else record m { moving = false })
      else m

  -- The logger with its file, newest line first; where the file does not open, it does not log.
  pub record Logger : Type 0 where
    pub logging : Bool
    pub log : List RobotState

  unfoldable pub logger_round : Bool → RobotState → Logger → Logger
  logger_round is_running state g =
      if g.logging
      then (if is_running then record g { log = state ∷ g.log } else record g { logging = false })
      else g

  pub record Robot : Type 0 where
    pub is_running : Bool
    pub left : Camera
    pub right : Camera
    pub hub : Hub
    pub mover : Mover
    pub logger : Logger
    pub main : MainPc

  -- Whether every pthread_join returns.
  abbrev pub all_ended : Robot → Bool
  all_ended s =
      is_ended s.left.pc
      && is_ended s.right.pc
      && sync_stopped s.hub.sync
      && writer_stopped s.hub.writer
      && not s.mover.moving
      && not s.logger.logging

  -- One call of `main` once the threads are there; `sleeping` is its sleep(20).
  unfoldable pub main_at : MainPc → Robot → Robot
  main_at sleeping s = record s { main = stopping }
  main_at stopping s = record s { main = posting_left; is_running = false }
  main_at posting_left s = record s { main = posting_right; hub = post_left s.hub }
  main_at posting_right s = record s { main = joining; hub = post_right s.hub }
  main_at joining s = if all_ended s then record s { main = exited } else s
  main_at exited s = s

  -- Which thread makes its next call; the times are what `clock_gettime` gives.
  pub data Turn : Type 0 where
    left_camera : Timespec → Turn
    right_camera : Timespec → Turn
    synchronizer : Turn
    image_writer : Turn
    robot_state : Timespec → Turn
    logging : Turn
    main : Turn

  unfoldable pub step : Turn → Robot → Robot
  step (left_camera now) s = record s {
    left = camera_at s.left.pc s.is_running now s.left;
    hub = posted s.left.pc post_left s.hub;
  }
  step (right_camera now) s = record s {
    right = camera_at s.right.pc s.is_running now s.right;
    hub = posted s.right.pc post_right s.hub;
  }
  step synchronizer s = record s {
    hub = sync_at fl s.hub.sync s.is_running s.left.frame s.right.frame s.hub;
  }
  step image_writer s = record s { hub = writer_at s.hub.writer s.is_running s.hub }
  step (robot_state now) s = record s { mover = robot_round s.is_running now s.mover }
  step logging s = record s {
    logger = logger_round s.is_running s.mover.current_robot_state s.logger;
  }
  step main s = main_at s.main s

  unfoldable pub run : List Turn → Robot → Robot
  run [] s = s
  run (t ∷ ts) s = run ts (step t s)

  -- A global starts as zeros.
  abbrev zero_state : RobotState
  zero_state = record {
    x = of_int 0;
    y = of_int 0;
    theta = of_int 0;
    timestamp = record { tv_sec = 0; tv_nsec = 0 };
  }

  -- The start of the threads; `opens` tells whether the logger's file opens.
  unfoldable pub start : Bool → Robot
  start opens = record {
    is_running = true;
    left = record { pc = shooting; id = 1; frame = no_frame };
    right = record { pc = shooting; id = 1; frame = no_frame };
    hub = record {
      left_cam_sem = 0;
      right_cam_sem = 0;
      sync = SyncPc.testing;
      sync_left_frame = no_frame;
      sync_right_frame = no_frame;
      has_new_sync_pair = false;
      writer = WriterPc.testing;
      published = [];
      written = [];
    };
    mover = record {
      moving = true;
      x = of_int 0;
      y = of_int 0;
      theta = of_int 0;
      current_robot_state = zero_state;
    };
    logger = record { logging = opens; log = [] };
    main = sleeping;
  }
