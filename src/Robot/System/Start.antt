-- ===== src/Robot/System/Start.antt =====
-- Where the threads of lab6/src/program3.c begin.
use sys_op.Prelude.{replicate, [], true, false}
use sys_op.Robot.Buffer.{buffer_size, buffer_init}
use sys_op.Prelude.Double.{Double}
use sys_op.Robot.Threads.{no_frame, Frames, Counter, making, Camera, SyncPc, WriterPc, WatchdogPc}
use sys_op.Robot.System.{Robot}

module _ (fl : Double) where
  open fl use {of_int}

  abbrev fresh_counter : Counter
  fresh_counter = record { total = 0; recent = 0; seen = 0 }

  abbrev fresh_buffer : Frames
  fresh_buffer =
      buffer_init no_frame
        (record { buffer = replicate buffer_size no_frame; head = 0; tail = 0; count = 0 })

  abbrev fresh_camera : Camera
  fresh_camera = record { pc = making; id = 1; counter = fresh_counter }

  -- `main` after it has made the buffers and the threads; the globals start as zeros.
  abbrev pub start : Robot fl
  start = record {
    is_running = true;
    left = fresh_camera;
    right = fresh_camera;
    cam_left_buf = fresh_buffer;
    cam_right_buf = fresh_buffer;
    pairs = record {
      sync_left_buf = fresh_buffer;
      sync_right_buf = fresh_buffer;
      sync = SyncPc.testing;
      writer = WriterPc.testing;
      published = [];
      written = [];
      overflowed = false;
    };
    mover = record {
      pc = making;
      x = of_int 0;
      y = of_int 0;
      theta = of_int 0;
      counter = fresh_counter;
    };
    current_robot_state = record {
      x = of_int 0;
      y = of_int 0;
      theta = of_int 0;
      timestamp = record { tv_sec = 0; tv_nsec = 0 };
    };
    log = [];
    logging = true;
    watchdog = WatchdogPc.testing;
    warned = [];
  }
