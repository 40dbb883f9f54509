-- ===== src/Robot/System/Delivery.antt =====
-- What the image writer of lab6/src/program3.c saves, in every run of the threads.
use sys_op.Prelude.{◌≡◌, refl, List, [], ◌∷◌, ◌++◌, Bool, false, arith, All, sym, All-prefix, subst}
use sys_op.Robot.Buffer.Queue.{buffer_init-Holds}
use sys_op.Robot.Time.{Timespec, Frame}
use sys_op.Prelude.Double.{Double}
use sys_op.Robot.Threads.{
  no_frame, WriterPc, Pairs, writer_at, MakerPc, making, counting_total, counting_recent, pushing,
  ended, WatchdogPc,
}
use sys_op.Robot.System.{
  Robot, robot_at, logger_round, watchdog_at, Turn, left_camera, right_camera, synchronizer,
  image_writer, robot_state, logger, watch, sigint, left_camera_thread, right_camera_thread,
  handle_sigint, step, run,
}
use sys_op.Robot.System.Start.{start}
use sys_op.Robot.System.Stereo.{in_hand, lost, over, aligned, Inv, writer_at-Inv}
use sys_op.Robot.System.Sync.{InTolerance, Tolerance, sync_at-Inv, sync_at-Tolerance}

-- The image writer publishes nothing, and leaves the synchronizer where it is.
writer_at-published :
    (w : WriterPc) (r : Bool) (p : Pairs)
    → ((writer_at w r p).published ≡ p.published) × ((writer_at w r p).sync ≡ p.sync)
unfolding writer_at
writer_at-published WriterPc.testing r p = (refl, refl)
writer_at-published WriterPc.popping_left r p = ground arith
writer_at-published (WriterPc.popping_right l) r p = ground arith
writer_at-published (WriterPc.writing l x) r p = (refl, refl)
writer_at-published WriterPc.stopped r p = (refl, refl)

module _ (fl : Double) where
  pub robot_at-pairs :
      (pc : MakerPc) (now : Timespec) (s : Robot fl) → (robot_at fl pc now s).pairs ≡ s.pairs
  unfolding robot_at
  robot_at-pairs making now s = ground arith
  robot_at-pairs (pushing f) now s = refl
  robot_at-pairs counting_total now s = refl
  robot_at-pairs counting_recent now s = refl
  robot_at-pairs ended now s = refl

  watchdog_at-pairs : (pc : WatchdogPc) (s : Robot fl) → (watchdog_at fl pc s).pairs ≡ s.pairs
  unfolding watchdog_at
  watchdog_at-pairs WatchdogPc.testing s = refl
  watchdog_at-pairs WatchdogPc.woken s = refl
  watchdog_at-pairs WatchdogPc.reading_left s = refl
  watchdog_at-pairs (WatchdogPc.reading_right l) s = refl
  watchdog_at-pairs (WatchdogPc.reading_states l r) s = refl
  watchdog_at-pairs WatchdogPc.stopped s = refl

  logger_round-pairs : (s : Robot fl) → (logger_round fl s).pairs ≡ s.pairs
  unfolding logger_round
  logger_round-pairs s = ground arith

  abbrev pub Both : Pairs → Type 0
  Both p = Inv p × Tolerance fl p.sync p

  pub step-Both : (t : Turn fl) (s : Robot fl) → Both s.pairs → Both (step fl t s).pairs
  unfolding step left_camera_thread right_camera_thread handle_sigint
  step-Both (left_camera now) s h = h
  step-Both (right_camera now) s h = h
  step-Both synchronizer s (inv, tol) =
      (sync_at-Inv fl s.pairs.sync s refl inv, sync_at-Tolerance fl s.pairs.sync s refl tol)
  step-Both image_writer s (inv, tol) =
      let (same, at) = writer_at-published s.pairs.writer s.is_running s.pairs in
      (writer_at-Inv s.is_running s.pairs inv, rw (same, at) tol)
  step-Both (robot_state now) s h = subst Both (sym (robot_at-pairs s.mover.pc now s)) h
  step-Both logger s h = subst Both (sym (logger_round-pairs s)) h
  step-Both watch s h = subst Both (sym (watchdog_at-pairs s.watchdog s)) h
  step-Both sigint s h = h

  run-Both : (ts : List (Turn fl)) (s : Robot fl) → Both s.pairs → Both (run fl ts s).pairs
  unfolding run
  run-Both [] s h = h
  run-Both (t ∷ ts) s h = run-Both ts (step fl t s) (step-Both t s h)

  pub start-Both : Both (start fl).pairs
  start-Both = (
    aligned (record {
      lq = [];
      rq = [];
      rest = [];
      left_holds = buffer_init-Holds no_frame _ refl;
      right_holds = buffer_init-Holds no_frame _ refl;
      ordered = refl;
      lefts = refl;
      rights = refl;
    }),
    (tt, tt),
  )

  -- In every run of the threads of lab6's level 3, each pair that the synchronizer pushes is within
  -- the tolerance of 20 ms.
  pub published-InTolerance :
      (ts : List (Turn fl)) → All (InTolerance fl) (run fl ts (start fl)).pairs.published
  published-InTolerance ts = (run-Both ts (start fl) start-Both).1.0

  written_first :
      (p : Pairs)
      → Inv p
      → p.overflowed ≡ false
      → (rest : List (Frame × Frame)) × (p.published ≡ p.written ++ rest)
  written_first p (lost o) e = absurd (cc)
  written_first p (over v) e = (v.rest, v.ordered)
  written_first p (aligned a) e = (in_hand p.writer ++ a.rest, a.ordered)

  pub Both-written :
      (p : Pairs)
      → Both p
      → p.overflowed ≡ false
      → (rest : List (Frame × Frame)) × (p.published ≡ p.written ++ rest)
        × All (InTolerance fl) p.written
  Both-written p (inv, tol) e =
      let (rest, split) = written_first p inv e in
      (
        rest,
        split,
        All-prefix (InTolerance fl) p.written rest (subst (All (InTolerance fl)) split tol.0),
      )
