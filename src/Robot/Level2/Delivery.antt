-- ===== src/Robot/Level2/Delivery.antt =====
-- What the image writer of lab6/src/program2.c saves, in every run of the threads.
use sys_op.Prelude.{◌≡◌, refl, sym, subst, List, [], ◌∷◌, ◌++◌, false, All}
use sys_op.Prelude.Double.{Double}
use sys_op.Robot.Time.{Timespec, Frame}
use sys_op.Robot.Threads.{MakerPc, making, counting_total, counting_recent, pushing, ended}
use sys_op.Robot.System as System
use sys_op.Robot.System.Sync.{InTolerance}
use sys_op.Robot.System.Delivery.{Both, step-Both, start-Both, robot_at-pairs, Both-written}
use sys_op.Robot.Level2.{
  Level2, ReportPc, testing, woken, reading, joining, left_camera_at, right_camera_at,
  robot_state_at, report_at, Turn, left_camera, right_camera, synchronizer, image_writer,
  robot_state, logger, report, sigint, step, run, begin,
}

module _ (fl : Double) where
  -- The cameras, the robot's thread and `main` leave the pairs alone.
  left_camera_at-pairs :
      (pc : MakerPc) (now : Timespec) (s : Level2 fl)
      → (left_camera_at fl pc now s).core.pairs ≡ s.core.pairs
  unfolding left_camera_at
  left_camera_at-pairs making now s = refl
  left_camera_at-pairs (pushing f) now s = refl
  left_camera_at-pairs counting_total now s = refl
  left_camera_at-pairs counting_recent now s = refl
  left_camera_at-pairs ended now s = refl

  right_camera_at-pairs :
      (pc : MakerPc) (now : Timespec) (s : Level2 fl)
      → (right_camera_at fl pc now s).core.pairs ≡ s.core.pairs
  unfolding right_camera_at
  right_camera_at-pairs making now s = refl
  right_camera_at-pairs (pushing f) now s = refl
  right_camera_at-pairs counting_total now s = refl
  right_camera_at-pairs counting_recent now s = refl
  right_camera_at-pairs ended now s = refl

  robot_state_at-pairs :
      (pc : MakerPc) (now : Timespec) (s : Level2 fl)
      → (robot_state_at fl pc now s).core.pairs ≡ s.core.pairs
  unfolding robot_state_at
  robot_state_at-pairs making now s = robot_at-pairs fl making now s.core
  robot_state_at-pairs (pushing f) now s = refl
  robot_state_at-pairs counting_total now s = refl
  robot_state_at-pairs counting_recent now s = refl
  robot_state_at-pairs ended now s = refl

  report_at-pairs : (pc : ReportPc) (s : Level2 fl) → (report_at fl pc s).core.pairs ≡ s.core.pairs
  unfolding report_at
  report_at-pairs testing s = refl
  report_at-pairs woken s = refl
  report_at-pairs reading s = refl
  report_at-pairs joining s = refl

  level2_step-Both :
      (t : Turn fl) (s : Level2 fl) → Both fl s.core.pairs → Both fl (step fl t s).core.pairs
  unfolding step
  level2_step-Both (left_camera now) s h =
      subst (Both fl) (sym (left_camera_at-pairs s.core.left.pc now s)) h
  level2_step-Both (right_camera now) s h =
      subst (Both fl) (sym (right_camera_at-pairs s.core.right.pc now s)) h
  level2_step-Both synchronizer s h = step-Both fl System.synchronizer s.core h
  level2_step-Both image_writer s h = step-Both fl System.image_writer s.core h
  level2_step-Both (robot_state now) s h =
      subst (Both fl) (sym (robot_state_at-pairs s.core.mover.pc now s)) h
  level2_step-Both logger s h = step-Both fl System.logger s.core h
  level2_step-Both report s h = subst (Both fl) (sym (report_at-pairs s.reporter s)) h
  level2_step-Both sigint s h = step-Both fl System.sigint s.core h

  level2_run-Both :
      (ts : List (Turn fl)) (s : Level2 fl)
      → Both fl s.core.pairs
      → Both fl (run fl ts s).core.pairs
  unfolding run
  level2_run-Both [] s h = h
  level2_run-Both (t ∷ ts) s h = level2_run-Both ts (step fl t s) (level2_step-Both t s h)

  -- In every run of level 2 in which no push of the synchronizer has found a full buffer, the pairs
  -- that the image writer has saved are the first ones that the synchronizer pushed, in order, and
  -- all are within the tolerance.
  pub level2_written :
      (ts : List (Turn fl))
      → (run fl ts (begin fl)).core.pairs.overflowed ≡ false
      → (rest : List (Frame × Frame)) × ((run fl ts (begin fl)).core.pairs.published
          ≡ (run fl ts (begin fl)).core.pairs.written ++ rest)
        × All (InTolerance fl) (run fl ts (begin fl)).core.pairs.written
  level2_written ts e =
      Both-written fl (run fl ts (begin fl)).core.pairs
        (level2_run-Both ts (begin fl) (start-Both fl)) e
