-- ===== src/Robot/System.antt =====
-- lab6/src/program3.c: all threads together, over a model of the machine's `double`.
pub mod Start
pub mod Counters
pub mod Stereo
pub mod Sync
pub mod Delivery
use sys_op.Prelude.{
  ℕ, ◌+◌, ◌==◌, List, [], ◌∷◌, ◌++◌, Bool, true, false, ◌||◌, if◌then◌else◌, replicate,
}
use sys_op.Robot.Buffer.{
  Pop, waits, aborts, pops, buffer_size, buffer_init, buffer_push, buffer_pop,
}
use sys_op.Robot.Time.{Timespec, Frame, is_pair}
use sys_op.Prelude.Double.{Double}
use sys_op.Robot.Threads.{
  no_frame, Frames, Counter, MakerPc, making, counting_total, counting_recent, pushing, ended,
  Camera, camera_at, SyncPc, WriterPc, Pairs, writer_at, push_left, push_right, at, WatchdogPc,
  Warning, warnings, exchange,
}

module _ (fl : Double) where
  open fl use {D, of_int, add, div}

  pub record RobotState : Type 0 where
    pub x : D
    pub y : D
    pub theta : D
    pub timestamp : Timespec

  -- The thread that moves the robot, with its local pose and its counter.
  pub record Mover : Type 0 where
    pub pc : MakerPc
    pub x : D
    pub y : D
    pub theta : D
    pub counter : Counter

  pub record Robot : Type 0 where
    pub is_running : Bool
    pub left : Camera
    pub right : Camera
    pub cam_left_buf : Frames
    pub cam_right_buf : Frames
    pub pairs : Pairs
    pub mover : Mover
    pub current_robot_state : RobotState
    pub log : List RobotState  -- of the logger, newest first
    pub logging : Bool
    pub watchdog : WatchdogPc
    pub warned : List Warning  -- newest first

  -- What the synchronizer does with the result of its `buffer_pop`.
  abbrev pub got_left : Robot → Pop no_frame → Robot
  got_left s waits = s
  got_left s aborts = record s { pairs = at SyncPc.stopped s.pairs }
  got_left s (pops f buf) = record s {
    cam_left_buf = buf;
    pairs = at (SyncPc.popping_right f) s.pairs;
  }

  abbrev pub got_right : Frame → Robot → Pop no_frame → Robot
  got_right l s waits = s
  got_right l s aborts = record s { pairs = at SyncPc.stopped s.pairs }
  got_right l s (pops f buf) = record s {
    cam_right_buf = buf;
    pairs = at (SyncPc.comparing l f) s.pairs;
  }

  -- One call of the synchronizer.
  unfoldable pub sync_at : SyncPc → Robot → Robot
  sync_at SyncPc.testing s = record s {
    pairs = at (if s.is_running then SyncPc.popping_left else SyncPc.stopped) s.pairs;
  }
  sync_at SyncPc.popping_left s = got_left s (buffer_pop no_frame s.cam_left_buf s.is_running)
  sync_at (SyncPc.popping_right l) s =
      got_right l s (buffer_pop no_frame s.cam_right_buf s.is_running)
  sync_at (SyncPc.comparing l r) s = record s {
    pairs = at (if is_pair fl l r then SyncPc.pushing_left l r else SyncPc.testing) s.pairs;
  }
  sync_at (SyncPc.pushing_left l r) s = record s {
    pairs = push_left l (record (at (SyncPc.pushing_right r) s.pairs) {
      published = s.pairs.published ++ ((l, r) ∷ []);
    });
  }
  sync_at (SyncPc.pushing_right r) s = record s { pairs = push_right r (at SyncPc.testing s.pairs) }
  sync_at SyncPc.stopped s = s

  -- One call of the thread that moves the robot; the pose goes to `current_robot_state` under its
  -- mutex, which only the logger's copy takes besides.
  unfoldable pub robot_at : MakerPc → Timespec → Robot → Robot
  robot_at making now s =
      let m = s.mover in
      let x = add m.x (div (of_int 1) (of_int 100)) in
      let y = add m.y (div (of_int 1) (of_int 100)) in
      let theta = add m.theta (div (of_int 5) (of_int 1000)) in
      if s.is_running
      then record s {
        mover = record m { pc = counting_total; x = x; y = y; theta = theta };
        current_robot_state = record { x = x; y = y; theta = theta; timestamp = now };
      }
      else record s { mover = record m { pc = ended } }
  robot_at (pushing f) now s = s
  robot_at counting_total now s =
      let c = s.mover.counter in
      record s {
        mover = record (s.mover) {
          pc = counting_recent;
          counter = record c { total = c.total + 1 };
        };
      }
  robot_at counting_recent now s =
      let c = s.mover.counter in
      record s {
        mover = record (s.mover) { pc = making; counter = record c { recent = c.recent + 1 } };
      }
  robot_at ended now s = s

  -- One round of the logger.
  unfoldable pub logger_round : Robot → Robot
  logger_round s =
      if s.logging
      then (if s.is_running
          then record s { log = s.current_robot_state ∷ s.log }
          else record s { logging = false })
      else s

  -- One call of the watchdog.
  unfoldable pub watchdog_at : WatchdogPc → Robot → Robot
  watchdog_at WatchdogPc.testing s = record s {
    watchdog = if s.is_running then WatchdogPc.woken else WatchdogPc.stopped;
  }
  watchdog_at WatchdogPc.woken s = record s {
    watchdog = if s.is_running then WatchdogPc.reading_left else WatchdogPc.stopped;
  }
  watchdog_at WatchdogPc.reading_left s =
      let (l_frames, c) = exchange s.left.counter in
      record s {
        watchdog = WatchdogPc.reading_right l_frames;
        left = record (s.left) { counter = c };
      }
  watchdog_at (WatchdogPc.reading_right l_frames) s =
      let (r_frames, c) = exchange s.right.counter in
      record s {
        watchdog = WatchdogPc.reading_states l_frames r_frames;
        right = record (s.right) { counter = c };
      }
  watchdog_at (WatchdogPc.reading_states l_frames r_frames) s =
      let (r_states, c) = exchange s.mover.counter in
      record s {
        watchdog = WatchdogPc.testing;
        mover = record (s.mover) { counter = c };
        warned = warnings l_frames r_frames r_states ++ s.warned;
      }
  watchdog_at WatchdogPc.stopped s = s

  -- Which thread makes its next call, or SIGINT comes. The times are what `clock_gettime` gives.
  pub data Turn : Type 0 where
    left_camera : Timespec → Turn
    right_camera : Timespec → Turn
    synchronizer : Turn
    image_writer : Turn
    robot_state : Timespec → Turn
    logger : Turn
    watch : Turn
    sigint : Turn

  unfoldable pub left_camera_thread : Timespec → Robot → Robot
  left_camera_thread now s =
      let (c, buf) = camera_at s.left.pc s.is_running now s.left s.cam_left_buf in
      record s { left = c; cam_left_buf = buf }

  unfoldable pub right_camera_thread : Timespec → Robot → Robot
  right_camera_thread now s =
      let (c, buf) = camera_at s.right.pc s.is_running now s.right s.cam_right_buf in
      record s { right = c; cam_right_buf = buf }

  -- `handle_sigint`; what its broadcasts wake is in the module `Shutdown`.
  unfoldable pub handle_sigint : Robot → Robot
  handle_sigint s = record s { is_running = false }

  unfoldable pub step : Turn → Robot → Robot
  step (left_camera now) s = left_camera_thread now s
  step (right_camera now) s = right_camera_thread now s
  step synchronizer s = sync_at s.pairs.sync s
  step image_writer s = record s { pairs = writer_at s.pairs.writer s.is_running s.pairs }
  step (robot_state now) s = robot_at s.mover.pc now s
  step logger s = logger_round s
  step watch s = watchdog_at s.watchdog s
  step sigint s = handle_sigint s

  unfoldable pub run : List Turn → Robot → Robot
  run [] s = s
  run (t ∷ ts) s = run ts (step t s)
