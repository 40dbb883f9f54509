-- ===== src/Robot/Level1/Stop/Joins.antt =====
-- The joins of lab6/src/program1.c: that `main` gets past them.
use sys_op.Prelude.{
  ℕ, ◌+◌, ◌-◌, ◌≤◌, ◌≡◌, refl, subst, List, [], ◌∷◌, Bool, true, false, arith, Bool-cases, inl, inr,
}
use sys_op.Prelude.Double.{Double}
use sys_op.Robot.Time.{Timespec}
use sys_op.Robot.Level1.{
  Robot, RobotState, Mover, Logger, robot_round, logger_round, MainPc, sleeping, stopping,
  posting_left, posting_right, joining, exited, main_at, Turn, left_camera, right_camera,
  synchronizer, image_writer, robot_state, logging, main, step, run, all_ended,
}
use sys_op.Robot.Level1.Stop.{
  camera_rank, sync_rank, writer_rank, flag, Fed, posted-left, posted-right, writer_at-sync,
  camera_at-rank, writer_at-rank, sync_at-writer, sync_at-rank,
}
use sys_op.Robot.Level1.Stop.Posts.{InvAt, Inv, step-Inv}

-- The six threads, as `main` joins them.
pub data Thread : Type 0 where
  left_camera_thread right_camera_thread sync_thread image_writer_thread : Thread
  robot_state_thread logger_thread : Thread

-- `main` is at its joins, or past them.
abbrev pub is_joining : MainPc → Bool
is_joining joining = true
is_joining exited = true
is_joining _ = false

module _ (fl : Double) where
  abbrev pub rank : Thread → Robot fl → ℕ
  rank left_camera_thread s = camera_rank s.left.pc
  rank right_camera_thread s = camera_rank s.right.pc
  rank sync_thread s = sync_rank s.hub.sync
  rank image_writer_thread s = writer_rank s.hub.writer
  rank robot_state_thread s = flag s.mover.moving
  rank logger_thread s = flag s.logger.logging

  -- Whether the turn is the thread's.
  abbrev pub hit : Thread → Turn fl → ℕ
  hit left_camera_thread (left_camera now) = 1
  hit right_camera_thread (right_camera now) = 1
  hit sync_thread synchronizer = 1
  hit image_writer_thread image_writer = 1
  hit robot_state_thread (robot_state now) = 1
  hit logger_thread logging = 1
  hit _ _ = 0

  unfoldable pub turns : Thread → List (Turn fl) → ℕ
  turns th [] = 0
  turns th (t ∷ ts) = hit th t + turns th ts

  robot_round-rank :
      (m : Mover fl) (now : Timespec) → flag (robot_round fl false now m).moving ≤ flag m.moving - 1
  unfolding robot_round
  robot_round-rank m now = elim (Bool-cases m.moving) [
    | inl e ↦ rw e (omega arith)
    | inr e ↦ rw e (omega arith)
  ]

  logger_round-rank :
      (state : RobotState fl) (g : Logger fl)
      → flag (logger_round fl false state g).logging ≤ flag g.logging - 1
  unfolding logger_round
  logger_round-rank state g = elim (Bool-cases g.logging) [
    | inl e ↦ rw e (omega arith)
    | inr e ↦ rw e (omega arith)
  ]

  -- The threads are to stop, and no semaphore holds the synchronizer back.
  record IsStopping (s : Robot fl) : Type 0 where
    down : s.is_running ≡ false
    fed : Fed s.hub.sync (s.hub.left_cam_sem + 0) (s.hub.right_cam_sem + 0)

  InvAt-IsStopping : (m : MainPc) (s : Robot fl) → is_joining m ≡ true → InvAt fl m s → IsStopping s
  InvAt-IsStopping joining s e h = record {
    down = elim (Bool-cases s.is_running) [ inl r ↦ absurd (cc (h.runs r)) | inr r ↦ r ];
    fed = h.fed;
  }
  InvAt-IsStopping exited s e h = record {
    down = elim (Bool-cases s.is_running) [ inl r ↦ absurd (cc (h.runs r)) | inr r ↦ r ];
    fed = h.fed;
  }
  InvAt-IsStopping sleeping s e h = absurd (cc)
  InvAt-IsStopping stopping s e h = absurd (cc)
  InvAt-IsStopping posting_left s e h = absurd (cc)
  InvAt-IsStopping posting_right s e h = absurd (cc)

  rank-main :
      (th : Thread) (m : MainPc) (s : Robot fl) → rank th (record s { main = m }) ≡ rank th s
  rank-main left_camera_thread m s = refl
  rank-main right_camera_thread m s = refl
  rank-main sync_thread m s = refl
  rank-main image_writer_thread m s = refl
  rank-main robot_state_thread m s = refl
  rank-main logger_thread m s = refl

  hit-main : (th : Thread) → hit th main ≡ 0
  hit-main left_camera_thread = refl
  hit-main right_camera_thread = refl
  hit-main sync_thread = refl
  hit-main image_writer_thread = refl
  hit-main robot_state_thread = refl
  hit-main logger_thread = refl

  -- No step of `main` at its joins touches a thread, nor leaves them but by their end.
  main_at-joining :
      (m : MainPc) (s : Robot fl)
      → is_joining m ≡ true
      → m ≡ s.main
      → (is_joining (main_at fl m s).main ≡ true)
        × ((th : Thread) → rank th (main_at fl m s) ≡ rank th s)
  unfolding main_at
  main_at-joining joining s j e = elim (Bool-cases (all_ended fl s)) [
    | inl over ↦ rw over (refl, λ th. rank-main th exited s)
    | inr busy ↦ rw busy (subst (λ m. is_joining m ≡ true) e refl, λ th. refl)
  ]
  main_at-joining exited s j e = (subst (λ m. is_joining m ≡ true) e refl, λ th. refl)
  main_at-joining sleeping s j e = absurd (cc)
  main_at-joining stopping s j e = absurd (cc)
  main_at-joining posting_left s j e = absurd (cc)
  main_at-joining posting_right s j e = absurd (cc)

  -- Each turn of a thread leads it nearer to its end, and no other turn leads it back.
  step-rank :
      (th : Thread) (t : Turn fl) (s : Robot fl)
      → IsStopping s
      → is_joining s.main ≡ true
      → rank th (step fl t s) ≤ rank th s - hit th t
  unfolding step
  step-rank left_camera_thread (left_camera now) s h j =
      rw h.down (camera_at-rank s.left.pc now s.left refl)
  step-rank left_camera_thread (right_camera now) s h j = omega arith
  step-rank left_camera_thread synchronizer s h j = omega arith
  step-rank left_camera_thread image_writer s h j = omega arith
  step-rank left_camera_thread (robot_state now) s h j = omega arith
  step-rank left_camera_thread logging s h j = omega arith
  step-rank right_camera_thread (right_camera now) s h j =
      rw h.down (camera_at-rank s.right.pc now s.right refl)
  step-rank right_camera_thread (left_camera now) s h j = omega arith
  step-rank right_camera_thread synchronizer s h j = omega arith
  step-rank right_camera_thread image_writer s h j = omega arith
  step-rank right_camera_thread (robot_state now) s h j = omega arith
  step-rank right_camera_thread logging s h j = omega arith
  step-rank sync_thread (left_camera now) s h j =
      rw (posted-left s.left.pc s.hub).sync (omega arith)
  step-rank sync_thread (right_camera now) s h j =
      rw (posted-right s.right.pc s.hub).sync (omega arith)
  step-rank sync_thread synchronizer s h j =
      rw h.down (sync_at-rank fl s.hub.sync s.left.frame s.right.frame s.hub refl h.fed)
  step-rank sync_thread image_writer s h j =
      rw (writer_at-sync s.hub.writer s.is_running s.hub).0 (omega arith)
  step-rank sync_thread (robot_state now) s h j = omega arith
  step-rank sync_thread logging s h j = omega arith
  step-rank image_writer_thread (left_camera now) s h j =
      rw (posted-left s.left.pc s.hub).writer (omega arith)
  step-rank image_writer_thread (right_camera now) s h j =
      rw (posted-right s.right.pc s.hub).writer (omega arith)
  step-rank image_writer_thread synchronizer s h j =
      rw (sync_at-writer fl s.hub.sync s.is_running s.left.frame s.right.frame s.hub) (omega arith)
  step-rank image_writer_thread image_writer s h j =
      rw h.down (writer_at-rank s.hub.writer s.hub refl)
  step-rank image_writer_thread (robot_state now) s h j = omega arith
  step-rank image_writer_thread logging s h j = omega arith
  step-rank robot_state_thread (left_camera now) s h j = omega arith
  step-rank robot_state_thread (right_camera now) s h j = omega arith
  step-rank robot_state_thread synchronizer s h j = omega arith
  step-rank robot_state_thread image_writer s h j = omega arith
  step-rank robot_state_thread (robot_state now) s h j = rw h.down (robot_round-rank s.mover now)
  step-rank robot_state_thread logging s h j = omega arith
  step-rank logger_thread (left_camera now) s h j = omega arith
  step-rank logger_thread (right_camera now) s h j = omega arith
  step-rank logger_thread synchronizer s h j = omega arith
  step-rank logger_thread image_writer s h j = omega arith
  step-rank logger_thread (robot_state now) s h j = omega arith
  step-rank logger_thread logging s h j =
      rw h.down (logger_round-rank s.mover.current_robot_state s.logger)
  step-rank th main s h j =
      let (stays, same) = main_at-joining s.main s j refl in rw (same th, hit-main th) (omega arith)

  pub step-joining :
      (t : Turn fl) (s : Robot fl) → is_joining s.main ≡ true → is_joining (step fl t s).main ≡ true
  unfolding step
  step-joining main s j = (main_at-joining s.main s j refl).0
  step-joining (left_camera now) s j = j
  step-joining (right_camera now) s j = j
  step-joining synchronizer s j = j
  step-joining image_writer s j = j
  step-joining (robot_state now) s j = j
  step-joining logging s j = j

  pub run-rank :
      (th : Thread) (us : List (Turn fl)) (s : Robot fl)
      → Inv fl s
      → is_joining s.main ≡ true
      → (rank th (run fl us s) ≤ rank th s - turns th us) × (is_joining (run fl us s).main ≡ true)
  unfolding run turns
  run-rank th [] s h j = (omega arith, j)
  run-rank th (t ∷ us) s h j =
      let (later, stays) = run-rank th us (step fl t s) (step-Inv fl t s h) (step-joining t s j) in
      (omega (arith, later, step-rank th t s (InvAt-IsStopping s.main s j h) j), stays)
