-- ===== src/Robot/System/Counters.antt =====
-- The counters of lab6/src/program3.c: what the report and the watchdog say of the frames.
use sys_op.Prelude.{ℕ, ◌+◌, ◌≡◌, refl, ap, List, [], ◌∷◌, Bool, arith}
use sys_op.Robot.Time.{Timespec}
use sys_op.Prelude.Double.{Double}
use sys_op.Robot.Threads.{
  Counter, MakerPc, making, counting_total, counting_recent, pushing, ended, Camera, camera_at,
  SyncPc, WatchdogPc, Frames,
}
use sys_op.Robot.System.{
  Robot, sync_at, robot_at, logger_round, watchdog_at, Turn, left_camera, right_camera,
  synchronizer, image_writer, robot_state, logger, watch, sigint, left_camera_thread,
  right_camera_thread, handle_sigint, step, run,
}
use sys_op.Robot.System.Start.{start}

-- What has been counted in `total` but not yet in `recent`.
abbrev pub half_counted : MakerPc → ℕ
half_counted counting_recent = 1
half_counted _ = 0

-- What has been made but not yet counted.
abbrev pub not_counted : MakerPc → ℕ
not_counted (pushing f) = 1
not_counted counting_total = 1
not_counted _ = 0

pub record IsCounted (pc : MakerPc) (c : Counter) : Type 0 where
  pub split : c.total ≡ c.seen + c.recent + half_counted pc

pub record IsNumbered (c : Camera) : Type 0 where
  pub counted : IsCounted c.pc c.counter
  pub numbered : c.id ≡ c.counter.total + not_counted c.pc + 1

camera_at-IsNumbered :
    (pc : MakerPc) (r : Bool) (now : Timespec) (c : Camera) (buf : Frames)
    → pc ≡ c.pc
    → IsNumbered c
    → IsNumbered (camera_at pc r now c buf).0
unfolding camera_at
camera_at-IsNumbered making r now c buf e h = ground arith
camera_at-IsNumbered (pushing f) r now c buf e h = ground arith
camera_at-IsNumbered counting_total r now c buf e h = ground arith
camera_at-IsNumbered counting_recent r now c buf e h = ground arith
camera_at-IsNumbered ended r now c buf e h = h

module _ (fl : Double) where
  pub record Inv (s : Robot fl) : Type 0 where
    pub left : IsNumbered s.left
    pub right : IsNumbered s.right
    pub moved : IsCounted s.mover.pc s.mover.counter

  -- The synchronizer touches no counter.
  sync_at-Inv : (pc : SyncPc) (s : Robot fl) → Inv s → Inv (sync_at fl pc s)
  unfolding sync_at
  sync_at-Inv SyncPc.testing s h = record { left = h.left; right = h.right; moved = h.moved }
  sync_at-Inv SyncPc.popping_left s h = ground arith
  sync_at-Inv (SyncPc.popping_right l) s h = ground arith
  sync_at-Inv (SyncPc.comparing l r) s h = record {
    left = h.left;
    right = h.right;
    moved = h.moved;
  }
  sync_at-Inv (SyncPc.pushing_left l r) s h = record {
    left = h.left;
    right = h.right;
    moved = h.moved;
  }
  sync_at-Inv (SyncPc.pushing_right r) s h = record {
    left = h.left;
    right = h.right;
    moved = h.moved;
  }
  sync_at-Inv SyncPc.stopped s h = h

  robot_at-Inv :
      (pc : MakerPc) (now : Timespec) (s : Robot fl)
      → pc ≡ s.mover.pc
      → Inv s
      → Inv (robot_at fl pc now s)
  unfolding robot_at
  robot_at-Inv making now s e h = ground arith
  robot_at-Inv (pushing f) now s e h = h
  robot_at-Inv counting_total now s e h = ground arith
  robot_at-Inv counting_recent now s e h = ground arith
  robot_at-Inv ended now s e h = h

  watchdog_at-Inv : (pc : WatchdogPc) (s : Robot fl) → Inv s → Inv (watchdog_at fl pc s)
  unfolding watchdog_at
  watchdog_at-Inv WatchdogPc.testing s h = ground arith
  watchdog_at-Inv WatchdogPc.woken s h = ground arith
  watchdog_at-Inv WatchdogPc.reading_left s h = ground arith
  watchdog_at-Inv (WatchdogPc.reading_right l) s h = ground arith
  watchdog_at-Inv (WatchdogPc.reading_states l r) s h = ground arith
  watchdog_at-Inv WatchdogPc.stopped s h = h

  logger_round-Inv : (s : Robot fl) → Inv s → Inv (logger_round fl s)
  unfolding logger_round
  logger_round-Inv s h = ground arith

  step-Inv : (t : Turn fl) (s : Robot fl) → Inv s → Inv (step fl t s)
  unfolding step left_camera_thread right_camera_thread handle_sigint
  step-Inv (left_camera now) s h = record {
    left = camera_at-IsNumbered s.left.pc s.is_running now s.left s.cam_left_buf refl h.left;
    right = h.right;
    moved = h.moved;
  }
  step-Inv (right_camera now) s h = record {
    left = h.left;
    right = camera_at-IsNumbered s.right.pc s.is_running now s.right s.cam_right_buf refl h.right;
    moved = h.moved;
  }
  step-Inv synchronizer s h = sync_at-Inv s.pairs.sync s h
  step-Inv image_writer s h = record { left = h.left; right = h.right; moved = h.moved }
  step-Inv (robot_state now) s h = robot_at-Inv s.mover.pc now s refl h
  step-Inv logger s h = logger_round-Inv s h
  step-Inv watch s h = watchdog_at-Inv s.watchdog s h
  step-Inv sigint s h = record { left = h.left; right = h.right; moved = h.moved }

  run-Inv : (ts : List (Turn fl)) (s : Robot fl) → Inv s → Inv (run fl ts s)
  unfolding run
  run-Inv [] s h = h
  run-Inv (t ∷ ts) s h = run-Inv ts (step fl t s) (step-Inv t s h)

  start-Inv : Inv (start fl)
  start-Inv = record {
    left = record { counted = record { split = refl }; numbered = refl };
    right = record { counted = record { split = refl }; numbered = refl };
    moved = record { split = refl };
  }

  -- However the threads are interleaved, no frame is lost or doubled in the counters: each total is
  -- what the watchdog has read so far plus what it has not read yet, but for one item that stands
  -- between its two atomic increments; and each camera's next frame number is one more than the
  -- frames it has counted, but for one that it has made and not yet counted.
  pub counters_agree :
      (ts : List (Turn fl))
      → let s = run fl ts (start fl) in
        IsNumbered s.left × IsNumbered s.right × IsCounted s.mover.pc s.mover.counter
  counters_agree ts = let inv = run-Inv ts (start fl) start-Inv in (inv.left, inv.right, inv.moved)

  -- The totals of the final report that `main` writes after the joins.
  abbrev pub report : Robot fl → ℕ × ℕ × ℕ
  report s = (s.left.counter.total, s.right.counter.total, s.mover.counter.total)

  -- Once both camera threads have ended, the report has each camera's frames exactly.
  report-ended :
      (ts : List (Turn fl))
      → let s = run fl ts (start fl) in
        s.left.pc ≡ ended
        → s.right.pc ≡ ended
        → ((report s).0 + 1 ≡ s.left.id) × ((report s).1 + 1 ≡ s.right.id)
  report-ended ts left right =
      let s = run fl ts (start fl) in
      let (l, r, m) = counters_agree ts in
      let counted_left : not_counted s.left.pc ≡ 0 = ap not_counted left in
      let counted_right : not_counted s.right.pc ≡ 0 = ap not_counted right in
      (omega (arith, l.numbered, counted_left), omega (arith, r.numbered, counted_right))
