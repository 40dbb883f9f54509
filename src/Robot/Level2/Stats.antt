-- ===== src/Robot/Level2/Stats.antt =====
-- What `main` of lab6/src/program2.c reports.
use sys_op.Prelude.{
  ℕ, ◌+◌, ◌<◌, ◌^◌, ◌∙◌, length, ◌≤◌, ◌≡◌, refl, sym, subst, List, [], ◌∷◌, Bool, true, false,
  arith,
}
use sys_op.Prelude.Double.{Double}
use sys_op.Robot.Time.{Timespec}
use sys_op.Robot.Buffer.{buffer_push}
use sys_op.Robot.Threads.{
  no_frame, Camera, SyncPc, MakerPc, making, counting_total, counting_recent, pushing, ended,
}
use sys_op.Robot.System as System
use sys_op.Robot.System.{Robot, sync_at, logger_round}
use sys_op.Robot.System.Counters.{not_counted}
use sys_op.Robot.Level2.{
  Level2, bumped, shoot, ReportPc, testing, woken, reading, joining, left_camera_at,
  right_camera_at, robot_state_at, report_at, Turn, left_camera, right_camera, synchronizer,
  image_writer, robot_state, logger, report, sigint, step, run, begin,
}

-- From the newest report to the oldest, no count is above `now` or above the one behind it.
unfoldable pub Grows : ℕ → ℕ → List (ℕ × ℕ) → Type 0
Grows frames states [] = Unit
Grows frames states ((f, r) ∷ reports) = (f ≤ frames) × (r ≤ states) × Grows f r reports

Grows-later :
    (f r f' r' : ℕ) (reports : List (ℕ × ℕ))
    → f ≤ f'
    → r ≤ r'
    → Grows f r reports
    → Grows f' r' reports
unfolding Grows
Grows-later f r f' r' [] lf lr h = tt
Grows-later f r f' r' ((a, b) ∷ reports) lf lr (x, y, h) = (omega arith, omega arith, h)

module _ (fl : Double) where
  sync_at-left : (pc : SyncPc) (s : Robot fl) → (sync_at fl pc s).left ≡ s.left
  unfolding sync_at
  sync_at-left SyncPc.testing s = refl
  sync_at-left SyncPc.popping_left s = ground arith
  sync_at-left (SyncPc.popping_right l) s = ground arith
  sync_at-left (SyncPc.comparing l r) s = refl
  sync_at-left (SyncPc.pushing_left l r) s = refl
  sync_at-left (SyncPc.pushing_right r) s = refl
  sync_at-left SyncPc.stopped s = refl

  robot_at-left : (now : Timespec) (s : Robot fl) → (System.robot_at fl making now s).left ≡ s.left
  unfolding System.robot_at
  robot_at-left now s = ground arith

  logger_round-left : (s : Robot fl) → (logger_round fl s).left ≡ s.left
  unfolding logger_round
  logger_round-left s = ground arith

  abbrev IsCounted : Camera → ℕ → Type 0
  IsCounted c frames = c.id ≡ frames + not_counted c.pc + 1

  -- After at most `k` calls.
  record Inv (k : ℕ) (s : Level2 fl) : Type 0 where
    counted : IsCounted s.core.left s.stats_frames_generated
    grows : Grows s.stats_frames_generated s.stats_robot_states s.reports
    few_frames : s.stats_frames_generated + not_counted s.core.left.pc ≤ k
    few_states : s.stats_robot_states ≤ k

  -- A call that touches neither the left camera nor a count.
  elsewhere :
      (k : ℕ) (s : Level2 fl) (core : Robot fl)
      → core.left ≡ s.core.left
      → Inv k s
      → Inv (k + 1) (record s { core = core })
  elsewhere k s core e h = record {
    counted = subst (λ c. IsCounted c s.stats_frames_generated) (sym e) h.counted;
    grows = h.grows;
    few_frames =
        subst (λ c. s.stats_frames_generated + not_counted c.pc ≤ k + 1) (sym e)
          (omega (arith, h.few_frames));
    few_states = omega (arith, h.few_states);
  }

  bumped-small : (k n : ℕ) → k + 1 < 2 ^ 31 → n ≤ k + 1 → bumped n ≡ n + 1
  bumped-small k n lt le = omega arith

  -- What a call of the left camera leaves, where the reports stay.
  left-Inv :
      (k : ℕ) (s : Level2 fl) (core : Robot fl) (frames : ℕ)
      → Inv k s
      → IsCounted core.left frames
      → s.stats_frames_generated ≤ frames
      → frames + not_counted core.left.pc ≤ k + 1
      → Inv (k + 1) (record s { core = core; stats_frames_generated = frames })
  left-Inv k s core frames h counted le few = record {
    counted = counted;
    grows =
        Grows-later s.stats_frames_generated s.stats_robot_states frames s.stats_robot_states
          s.reports le (omega arith) h.grows;
    few_frames = few;
    few_states = omega (arith, h.few_states);
  }

  counted_at :
      (k : ℕ) (pc : MakerPc) (s : Level2 fl)
      → pc ≡ s.core.left.pc
      → Inv k s
      → (s.core.left.id ≡ s.stats_frames_generated + not_counted pc + 1)
        × (s.stats_frames_generated + not_counted pc ≤ k)
  counted_at k pc s e h =
      subst
        (λ p.
          (s.core.left.id ≡ s.stats_frames_generated + not_counted p + 1)
          × (s.stats_frames_generated + not_counted p ≤ k))
        (sym e) (h.counted, h.few_frames)

  shoot-IsCounted :
      (k : ℕ) (b : Bool) (now : Timespec) (c : Camera) (n : ℕ)
      → k + 1 < 2 ^ 31
      → (c.id ≡ n + 0 + 1) × (n + 0 ≤ k)
      → IsCounted (shoot b now c) n × (n + not_counted (shoot b now c).pc ≤ k + 1)
  shoot-IsCounted k true now c n lt (e, few) =
      (bumped-small k c.id lt (omega arith) ∙ omega arith, omega arith)
  shoot-IsCounted k false now c n lt (e, few) = (e, omega arith)

  left_camera_at-Inv :
      (k : ℕ) (pc : MakerPc) (now : Timespec) (s : Level2 fl)
      → pc ≡ s.core.left.pc
      → k + 1 < 2 ^ 31
      → Inv k s
      → Inv (k + 1) (left_camera_at fl pc now s)
  unfolding left_camera_at
  left_camera_at-Inv k making now s e lt h =
      let (counted, few) =
        shoot-IsCounted k s.core.is_running now s.core.left s.stats_frames_generated lt
          (counted_at k making s e h) in
      left-Inv k s (record (s.core) { left = shoot s.core.is_running now s.core.left })
        s.stats_frames_generated h counted (omega arith) few
  left_camera_at-Inv k (pushing f) now s e lt h =
      let (counted, few) = counted_at k (pushing f) s e h in
      left-Inv k s
        (record (s.core) {
          left = record (s.core.left) { pc = counting_total };
          cam_left_buf = buffer_push no_frame s.core.cam_left_buf f;
        })
        s.stats_frames_generated h counted (omega arith) (omega (arith, few))
  left_camera_at-Inv k counting_total now s e lt h =
      let (counted, few) = counted_at k counting_total s e h in
      let more = bumped-small k s.stats_frames_generated lt (omega arith) in
      left-Inv k s (record (s.core) { left = record (s.core.left) { pc = making } })
        (bumped s.stats_frames_generated) h (omega (arith, counted, more)) (omega (arith, more))
        (omega (arith, few, more))
  left_camera_at-Inv k counting_recent now s e lt h = elsewhere k s s.core refl h
  left_camera_at-Inv k ended now s e lt h = elsewhere k s s.core refl h

  right_camera_at-Inv :
      (k : ℕ) (pc : MakerPc) (now : Timespec) (s : Level2 fl)
      → Inv k s
      → Inv (k + 1) (right_camera_at fl pc now s)
  unfolding right_camera_at
  right_camera_at-Inv k making now s h =
      elsewhere k s (record (s.core) { right = shoot s.core.is_running now s.core.right }) refl h
  right_camera_at-Inv k (pushing f) now s h =
      elsewhere k s
        (record (s.core) {
          right = record (s.core.right) { pc = making };
          cam_right_buf = buffer_push no_frame s.core.cam_right_buf f;
        })
        refl h
  right_camera_at-Inv k counting_total now s h = elsewhere k s s.core refl h
  right_camera_at-Inv k counting_recent now s h = elsewhere k s s.core refl h
  right_camera_at-Inv k ended now s h = elsewhere k s s.core refl h

  robot_state_at-Inv :
      (k : ℕ) (pc : MakerPc) (now : Timespec) (s : Level2 fl)
      → k + 1 < 2 ^ 31
      → Inv k s
      → Inv (k + 1) (robot_state_at fl pc now s)
  unfolding robot_state_at
  robot_state_at-Inv k making now s lt h =
      elsewhere k s (System.robot_at fl making now s.core) (robot_at-left now s.core) h
  robot_state_at-Inv k (pushing f) now s lt h = elsewhere k s s.core refl h
  robot_state_at-Inv k counting_total now s lt h =
      let more = bumped-small k s.stats_robot_states lt (omega (arith, h.few_states)) in
      record {
        counted = h.counted;
        grows =
            Grows-later s.stats_frames_generated s.stats_robot_states s.stats_frames_generated
              (bumped s.stats_robot_states) s.reports (omega arith) (omega (arith, more)) h.grows;
        few_frames = omega (arith, h.few_frames);
        few_states = omega (arith, h.few_states, more);
      }
  robot_state_at-Inv k counting_recent now s lt h = elsewhere k s s.core refl h
  robot_state_at-Inv k ended now s lt h = elsewhere k s s.core refl h

  -- What a call of `main` leaves, by the reports.
  report-Inv :
      (k : ℕ) (s : Level2 fl) (pc : ReportPc) (reports : List (ℕ × ℕ))
      → Inv k s
      → Grows s.stats_frames_generated s.stats_robot_states reports
      → Inv (k + 1) (record s { reporter = pc; reports = reports })
  report-Inv k s pc reports h grows = record {
    counted = h.counted;
    grows = grows;
    few_frames = omega (arith, h.few_frames);
    few_states = omega (arith, h.few_states);
  }

  report_at-Inv :
      (k : ℕ) (pc : ReportPc) (s : Level2 fl) → Inv k s → Inv (k + 1) (report_at fl pc s)
  unfolding report_at Grows
  report_at-Inv k testing s h = report-Inv k s _ s.reports h h.grows
  report_at-Inv k woken s h = report-Inv k s _ s.reports h h.grows
  report_at-Inv k reading s h = report-Inv k s _ _ h (omega arith, omega arith, h.grows)
  report_at-Inv k joining s h = elsewhere k s s.core refl h

  step-Inv :
      (k : ℕ) (t : Turn fl) (s : Level2 fl) → k + 1 < 2 ^ 31 → Inv k s → Inv (k + 1) (step fl t s)
  unfolding step System.step System.handle_sigint
  step-Inv k (left_camera now) s lt h = left_camera_at-Inv k s.core.left.pc now s refl lt h
  step-Inv k (right_camera now) s lt h = right_camera_at-Inv k s.core.right.pc now s h
  step-Inv k synchronizer s lt h =
      elsewhere k s (sync_at fl s.core.pairs.sync s.core) (sync_at-left s.core.pairs.sync s.core) h
  step-Inv k image_writer s lt h = elsewhere k s (System.step fl System.image_writer s.core) refl h
  step-Inv k (robot_state now) s lt h = robot_state_at-Inv k s.core.mover.pc now s lt h
  step-Inv k logger s lt h = elsewhere k s (logger_round fl s.core) (logger_round-left s.core) h
  step-Inv k report s lt h = report_at-Inv k s.reporter s h
  step-Inv k sigint s lt h = elsewhere k s (System.handle_sigint fl s.core) refl h

  run-Inv :
      (k : ℕ) (ts : List (Turn fl)) (s : Level2 fl)
      → k + length ts < 2 ^ 31
      → Inv k s
      → Inv (k + length ts) (run fl ts s)
  unfolding run
  run-Inv k [] s lt h = subst (λ n. Inv n s) (omega arith) h
  run-Inv k (t ∷ ts) s lt h =
      subst (λ n. Inv n (run fl (t ∷ ts) s)) (omega arith)
        (run-Inv (k + 1) ts (step fl t s) (omega arith) (step-Inv k t s (omega arith) h))

  begin-Inv : Inv 0 (begin fl)
  unfolding Grows
  begin-Inv = record {
    counted = refl;
    grows = tt;
    few_frames = omega arith;
    few_states = omega arith;
  }

  -- In every run of level 2 of fewer than 2 ^ 31 calls, in which no int overflows: the frame count is
  -- that of the left camera alone: its next frame number is one more than the count, but for a frame
  -- that it has made and not yet counted. The counts that `main` prints never fall from one report
  -- to the next, and are never ahead of the counters.
  pub reports_grow :
      (ts : List (Turn fl))
      → length ts < 2 ^ 31
      → let s = run fl ts (begin fl) in
        (s.core.left.id ≡ s.stats_frames_generated + not_counted s.core.left.pc + 1)
        × Grows s.stats_frames_generated s.stats_robot_states s.reports
  reports_grow ts lt =
      let inv = run-Inv 0 ts (begin fl) (omega arith) begin-Inv in (inv.counted, inv.grows)
