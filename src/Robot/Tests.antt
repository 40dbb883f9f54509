-- ===== src/Robot/Tests.antt =====
-- The robot of lab6 on concrete buffers and schedules.
use sys_op.Prelude.{
  ◌≢◌, arith, ℕ, zero, suc, ◌+◌, ◌*◌, ◌/◌, ◌≡◌, refl, not, ◌&&◌, List, [], ◌∷◌, replicate,
}
use sys_op.Prelude.Int.{ℤ, pos, ◌+ℤ◌, ◌-ℤ◌, ◌*ℤ◌, ltb_ℤ, pos_part}
use sys_op.Robot.Buffer.{buffer_init}
use sys_op.Robot.Buffer.Queue.{Holds, push_all, push_all_init}
use sys_op.Robot.Time.{Timespec, Frame}
use sys_op.Prelude.Double.{Double}
use sys_op.Robot.Threads.{no_frame, Frames}
use sys_op.Robot.System.{
  Turn, left_camera, right_camera, synchronizer, image_writer, robot_state, watch, run, step,
}
use sys_op.Robot.Shutdown as Shutdown
use sys_op.Robot.Shutdown.Calls.{begin}
use sys_op.Robot.Shutdown.Fates.{Fate, found, sigint-Fate}

-- Frames with the numbers from `i` on.
abbrev frame : ℕ → Frame
frame i = record { frame_id = i; timestamp = record { tv_sec = 0; tv_nsec = 0 } }

abbrev frames : ℕ → ℕ → List Frame
frames zero i = []
frames (suc n) i = frame i ∷ frames n (i + 1)

abbrev used : Frames
used = record { buffer = replicate 64 (frame 7); head = 5; tail = 7; count = 9 }

-- After 66 pushes the first two frames are gone.
filled : Frames
filled = push_all no_frame (buffer_init no_frame used) (frames 66 1)

filled-Holds : Holds no_frame filled (frames 64 3)
unfolding filled
filled-Holds = push_all_init no_frame used (frames 66 1) refl

abbrev quotient : ℤ → ℤ → ℤ
quotient a b = pos (pos_part a / pos_part b)

-- Whole milliseconds in place of the machine's doubles.
abbrev pub whole : Double
whole = record {
  D = ℤ;
  of_int = pos;
  add = ◌+ℤ◌;
  sub = ◌-ℤ◌;
  mul = ◌*ℤ◌;
  div = quotient;
  neg = λ a. pos 0 -ℤ a;
  ltb = ltb_ℤ;
  eqb = λ a b. not (ltb_ℤ a b) && not (ltb_ℤ b a);
}

abbrev at_ms : ℕ → Timespec
at_ms ms = record { tv_sec = 1; tv_nsec = ms * 1_000_000 }

abbrev stereo : List (Turn whole)
stereo =
    left_camera (at_ms 3)
    ∷ left_camera (at_ms 3)
    ∷ left_camera (at_ms 3)
    ∷ right_camera (at_ms 8)
    ∷ right_camera (at_ms 8)
    ∷ synchronizer
    ∷ synchronizer
    ∷ synchronizer
    ∷ synchronizer
    ∷ synchronizer
    ∷ synchronizer
    ∷ image_writer
    ∷ image_writer
    ∷ image_writer
    ∷ image_writer
    ∷ robot_state (at_ms 9)
    ∷ watch
    ∷ []

-- SIGINT comes when the thread has found its buffer empty, and the camera tests the flag before the
-- broadcast.
abbrev tested : List Shutdown.Turn
tested = Shutdown.popper ∷ Shutdown.popper ∷ []

abbrev amid : List Shutdown.Turn
amid = Shutdown.feeder ∷ []

abbrev after_sigint : List Shutdown.Turn
after_sigint = Shutdown.popper ∷ Shutdown.feeder ∷ Shutdown.popper ∷ []

found_waiting : (found 0 tested amid).popper ≡ Shutdown.going_to_wait
unfolding Shutdown.run Shutdown.step Shutdown.popper_at Shutdown.feeder_at
found_waiting = refl

not_pushing : (found 0 tested amid).feeder ≢ Shutdown.pushing
unfolding Shutdown.run Shutdown.step Shutdown.popper_at Shutdown.feeder_at
not_pushing e = absurd (cc e)

sigint-Fate_example :
    Fate
      (found 0 tested amid).popper
      (Shutdown.run after_sigint (Shutdown.handle_sigint amid (Shutdown.run tested (begin 0))))
sigint-Fate_example = sigint-Fate 0 tested amid after_sigint not_pushing (omega arith)
