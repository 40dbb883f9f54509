-- ===== src/Robot/Level1/Bound.antt =====
-- How many pairs level 1 of lab6 publishes, beside the frames that its cameras take.
mod Calls
use sys_op.Prelude.{
  ℕ, ◌+◌, ◌-◌, ◌≤◌, ◌==◌, ◌≡◌, refl, subst, ap, List, [], ◌∷◌, ◌++◌, Bool, true, false,
  if◌then◌else◌, arith, Bool-cases, inl, inr, length, length-append,
}
use sys_op.Prelude.Double.{Double}
use sys_op.Robot.Time.{Frame, Timespec, is_pair}
use sys_op.Robot.Level1.Stereo.{
  CameraPc, shooting, posting, ended, Camera, camera_at, posted, post_left, post_right, SyncPc,
  WriterPc, Hub, writer_at, sync_at,
}
use sys_op.Robot.Level1.{
  Robot, MainPc, sleeping, stopping, posting_left, posting_right, joining, exited, main_at, Turn,
  left_camera, right_camera, synchronizer, image_writer, robot_state, logging, main, step, run,
  start, all_ended,
}
use sys_op.Robot.Level1.Stop.Posts as Posts
use sys_op.Robot.Level1.Bound.Calls.{
  Side, Side-mono, LeftAt, RightAt, left_camera-Side, right_camera-Side, posted-other, sync_at-Side,
  writer_at-Sides,
}

module _ (fl : Double) where
  record Sides (s : Robot fl) : Type 0 where
    left_side : LeftAt fl s.is_running s.hub.sync s.hub s.left
    right_side : RightAt fl s.is_running s.hub.sync s.hub s.right

  -- `main` posts only when `is_running` is down.
  main_at-Sides :
      (m : MainPc) (s : Robot fl) → Posts.InvAt fl m s → Sides s → Sides (main_at fl m s)
  unfolding main_at
  main_at-Sides sleeping s h inv = record { left_side = inv.left_side; right_side = inv.right_side }
  main_at-Sides stopping s h inv = record {
    left_side = record { on = λ up. absurd (cc); all = inv.left_side.all };
    right_side = record { on = λ up. absurd (cc); all = inv.right_side.all };
  }
  main_at-Sides posting_left s h inv = record {
    left_side = Side-mono inv.left_side (λ up. absurd (cc (h.runs up))) (omega arith);
    right_side = inv.right_side;
  }
  main_at-Sides posting_right s h inv = record {
    left_side = inv.left_side;
    right_side = Side-mono inv.right_side (λ up. absurd (cc (h.runs up))) (omega arith);
  }
  main_at-Sides joining s h inv = elim (Bool-cases (all_ended fl s)) [
    | inl over ↦ rw over (record { left_side = inv.left_side; right_side = inv.right_side })
    | inr busy ↦ rw busy inv
  ]
  main_at-Sides exited s h inv = inv

  step-Sides : (t : Turn fl) (s : Robot fl) → Posts.Inv fl s → Sides s → Sides (step fl t s)
  unfolding step
  step-Sides (left_camera now) s h inv = record {
    left_side = left_camera-Side fl s.left.pc s.is_running now s.left s.hub refl inv.left_side;
    right_side = (posted-other fl s.left.pc s.is_running s.hub s.left s.right).1 inv.right_side;
  }
  step-Sides (right_camera now) s h inv = record {
    left_side = (posted-other fl s.right.pc s.is_running s.hub s.left s.right).0 inv.left_side;
    right_side = right_camera-Side fl s.right.pc s.is_running now s.right s.hub refl inv.right_side;
  }
  step-Sides synchronizer s h inv =
      let (il, ir) =
        sync_at-Side fl s.hub.sync s.is_running s.hub s.left.frame s.right.frame s.left s.right refl
          inv.left_side inv.right_side in
      record { left_side = il; right_side = ir }
  step-Sides image_writer s h inv =
      let (il, ir) =
        writer_at-Sides fl s.hub.writer s.is_running s.hub s.left s.right inv.left_side
          inv.right_side in
      record { left_side = il; right_side = ir }
  step-Sides (robot_state now) s h inv = record {
    left_side = inv.left_side;
    right_side = inv.right_side;
  }
  step-Sides logging s h inv = record { left_side = inv.left_side; right_side = inv.right_side }
  step-Sides main s h inv = main_at-Sides s.main s h inv

  run-Sides : (ts : List (Turn fl)) (s : Robot fl) → Posts.Inv fl s → Sides s → Sides (run fl ts s)
  unfolding run
  run-Sides [] s h inv = inv
  run-Sides (t ∷ ts) s h inv =
      run-Sides ts (step fl t s) (Posts.step-Inv fl t s h) (step-Sides t s h inv)

  start-Sides : (opens : Bool) → Sides (start fl opens)
  unfolding start
  start-Sides opens = record {
    left_side = record { on = λ _. omega arith; all = omega arith };
    right_side = record { on = λ _. omega arith; all = omega arith };
  }

  -- Level 1 never publishes more pairs than either camera has taken frames, also when it is stopped:
  -- the posts of `main` at the end pass for no frame. A camera's next frame has the number `id`, and
  -- its first has 1.
  pub published_frames :
      (opens : Bool) (ts : List (Turn fl))
      → (length (run fl ts (start fl opens)).hub.published + 1
          ≤ (run fl ts (start fl opens)).left.id)
        × (length (run fl ts (start fl opens)).hub.published + 1
            ≤ (run fl ts (start fl opens)).right.id)
  published_frames opens ts =
      let inv = run-Sides ts (start fl opens) (Posts.start-Inv fl opens) (start-Sides opens) in
      (omega (arith, inv.left_side.all), omega (arith, inv.right_side.all))
