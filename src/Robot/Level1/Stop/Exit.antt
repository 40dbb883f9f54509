-- ===== src/Robot/Level1/Stop/Exit.antt =====
-- The end of `main` of lab6/src/program1.c.
use sys_op.Prelude.{
  ℕ, ◌+◌, ◌-◌, ◌≤◌, ◌≡◌, refl, sym, subst, List, [], ◌∷◌, ◌++◌, Bool, true, false, not, arith,
  Bool-cases, inl, inr,
}
use sys_op.Prelude.Double.{Double}
use sys_op.Robot.Level1.Stereo.{CameraPc, shooting, posting, ended, SyncPc, WriterPc}
use sys_op.Robot.Level1.{
  Robot, MainPc, sleeping, stopping, posting_left, posting_right, joining, exited, main_at, Turn,
  left_camera, right_camera, synchronizer, image_writer, robot_state, logging, main, step, run,
  start, all_ended, is_ended, sync_stopped, writer_stopped,
}
use sys_op.Robot.Level1.Stop.{camera_rank, sync_rank, writer_rank, flag}
use sys_op.Robot.Level1.Stop.Posts.{run-Inv, start-Inv}
use sys_op.Robot.Level1.Stop.Joins.{
  Thread, left_camera_thread, right_camera_thread, sync_thread, image_writer_thread,
  robot_state_thread, logger_thread, is_joining, rank, turns, run-rank,
}

is_ended-rank : (pc : CameraPc) → camera_rank pc ≤ 0 → is_ended pc ≡ true
is_ended-rank shooting le = absurd (omega arith)
is_ended-rank posting le = absurd (omega arith)
is_ended-rank ended le = refl

sync_stopped-rank : (x : SyncPc) → sync_rank x ≤ 0 → sync_stopped x ≡ true
sync_stopped-rank SyncPc.testing le = absurd (omega arith)
sync_stopped-rank SyncPc.waiting_left le = absurd (omega arith)
sync_stopped-rank SyncPc.waiting_right le = absurd (omega arith)
sync_stopped-rank SyncPc.checking le = absurd (omega arith)
sync_stopped-rank SyncPc.copying le = absurd (omega arith)
sync_stopped-rank (SyncPc.comparing l r) le = absurd (omega arith)
sync_stopped-rank (SyncPc.publishing l r) le = absurd (omega arith)
sync_stopped-rank SyncPc.stopped le = refl

writer_stopped-rank : (w : WriterPc) → writer_rank w ≤ 0 → writer_stopped w ≡ true
writer_stopped-rank WriterPc.testing le = absurd (omega arith)
writer_stopped-rank WriterPc.taking le = absurd (omega arith)
writer_stopped-rank (WriterPc.writing l r) le = absurd (omega arith)
writer_stopped-rank WriterPc.stopped le = refl

not-flag : (b : Bool) → flag b ≤ 0 → not b ≡ true
not-flag true le = absurd (omega arith)
not-flag false le = refl

-- The calls of `main` up to its joins.
abbrev main_rank : MainPc → ℕ
main_rank sleeping = 4
main_rank stopping = 3
main_rank posting_left = 2
main_rank posting_right = 1
main_rank joining = 0
main_rank exited = 0

is_joining-rank : (m : MainPc) → main_rank m ≤ 0 → is_joining m ≡ true
is_joining-rank sleeping le = absurd (omega arith)
is_joining-rank stopping le = absurd (omega arith)
is_joining-rank posting_left le = absurd (omega arith)
is_joining-rank posting_right le = absurd (omega arith)
is_joining-rank joining le = refl
is_joining-rank exited le = refl

module _ (fl : Double) where
  sync_rank-small : (x : SyncPc) → sync_rank x ≤ 4
  sync_rank-small SyncPc.testing = omega arith
  sync_rank-small SyncPc.waiting_left = omega arith
  sync_rank-small SyncPc.waiting_right = omega arith
  sync_rank-small SyncPc.checking = omega arith
  sync_rank-small SyncPc.copying = omega arith
  sync_rank-small (SyncPc.comparing l r) = omega arith
  sync_rank-small (SyncPc.publishing l r) = omega arith
  sync_rank-small SyncPc.stopped = omega arith

  camera_rank-small : (pc : CameraPc) → camera_rank pc ≤ 4
  camera_rank-small shooting = omega arith
  camera_rank-small posting = omega arith
  camera_rank-small ended = omega arith

  writer_rank-small : (w : WriterPc) → writer_rank w ≤ 4
  writer_rank-small WriterPc.testing = omega arith
  writer_rank-small WriterPc.taking = omega arith
  writer_rank-small (WriterPc.writing l r) = omega arith
  writer_rank-small WriterPc.stopped = omega arith

  flag-small : (b : Bool) → flag b ≤ 4
  flag-small true = omega arith
  flag-small false = omega arith

  rank-small : (th : Thread) (s : Robot fl) → rank fl th s ≤ 4
  rank-small left_camera_thread s = camera_rank-small s.left.pc
  rank-small right_camera_thread s = camera_rank-small s.right.pc
  rank-small sync_thread s = sync_rank-small s.hub.sync
  rank-small image_writer_thread s = writer_rank-small s.hub.writer
  rank-small robot_state_thread s = flag-small s.mover.moving
  rank-small logger_thread s = flag-small s.logger.logging

  abbrev hit_main : Turn fl → ℕ
  hit_main main = 1
  hit_main _ = 0

  unfoldable pub main_turns : List (Turn fl) → ℕ
  main_turns [] = 0
  main_turns (t ∷ ts) = hit_main t + main_turns ts

  main_at-rank :
      (m : MainPc) (s : Robot fl) → m ≡ s.main → main_rank (main_at fl m s).main ≤ main_rank m - 1
  unfolding main_at
  main_at-rank sleeping s e = omega arith
  main_at-rank stopping s e = omega arith
  main_at-rank posting_left s e = omega arith
  main_at-rank posting_right s e = omega arith
  main_at-rank joining s e = elim (Bool-cases (all_ended fl s)) [
    | inl over ↦ rw over (omega arith)
    | inr busy ↦ rw busy (subst (λ m. main_rank m ≤ 0) e (omega arith))
  ]
  main_at-rank exited s e = subst (λ m. main_rank m ≤ 0) e (omega arith)

  step-main_rank :
      (t : Turn fl) (s : Robot fl) → main_rank (step fl t s).main ≤ main_rank s.main - hit_main t
  unfolding step
  step-main_rank main s = main_at-rank s.main s refl
  step-main_rank (left_camera now) s = omega arith
  step-main_rank (right_camera now) s = omega arith
  step-main_rank synchronizer s = omega arith
  step-main_rank image_writer s = omega arith
  step-main_rank (robot_state now) s = omega arith
  step-main_rank logging s = omega arith

  run-main_rank :
      (ts : List (Turn fl)) (s : Robot fl)
      → main_rank (run fl ts s).main ≤ main_rank s.main - main_turns ts
  unfolding run main_turns
  run-main_rank [] s = omega arith
  run-main_rank (t ∷ ts) s = omega (arith, step-main_rank t s, run-main_rank ts (step fl t s))

  run-append :
      (ts us : List (Turn fl)) (s : Robot fl) → run fl (ts ++ us) s ≡ run fl us (run fl ts s)
  unfolding run
  run-append [] us s = refl
  run-append (t ∷ ts) us s = run-append ts us (step fl t s)

  all_ended-rank : (s : Robot fl) → ((th : Thread) → rank fl th s ≤ 0) → all_ended fl s ≡ true
  all_ended-rank s done =
      rw
        (
          is_ended-rank s.left.pc (done left_camera_thread),
          is_ended-rank s.right.pc (done right_camera_thread),
          sync_stopped-rank s.hub.sync (done sync_thread),
          writer_stopped-rank s.hub.writer (done image_writer_thread),
          not-flag s.mover.moving (done robot_state_thread),
          not-flag s.logger.logging (done logger_thread),
        )
        refl

  main_at-exited :
      (m : MainPc) (s : Robot fl)
      → m ≡ s.main
      → is_joining m ≡ true
      → all_ended fl s ≡ true
      → (main_at fl m s).main ≡ exited
  unfolding main_at
  main_at-exited joining s e j over = rw over refl
  main_at-exited exited s e j over = sym e
  main_at-exited sleeping s e j over = absurd (cc)
  main_at-exited stopping s e j over = absurd (cc)
  main_at-exited posting_left s e j over = absurd (cc)
  main_at-exited posting_right s e j over = absurd (cc)

  -- Level 1 always ends: in whatever order the threads and `main` make their calls, once `main` has
  -- made four (its sleep, the flag, the two posts), four further calls of each thread end them all,
  -- and the next call of `main` ends the program.
  pub main_exits :
      (opens : Bool) (ts us : List (Turn fl))
      → 4 ≤ main_turns ts
      → ((th : Thread) → 4 ≤ turns fl th us)
      → (run fl (ts ++ (us ++ (main ∷ []))) (start fl opens)).main ≡ exited
  unfolding run step start
  main_exits opens ts us called fair =
      rw (run-append ts (us ++ (main ∷ [])) (start fl opens), run-append us (main ∷ []) before)
        (main_at-exited (run fl us before).main (run fl us before) refl stays
          (all_ended-rank (run fl us before) done))
    where
      before : Robot fl
      before = run fl ts (start fl opens)

      four : main_rank (start fl opens).main ≡ 4
      four = refl

      joins : is_joining before.main ≡ true
      joins = is_joining-rank before.main (omega (arith, run-main_rank ts (start fl opens)))

      ranks :
          (th : Thread)
          → (rank fl th (run fl us before) ≤ rank fl th before - turns fl th us)
            × (is_joining (run fl us before).main ≡ true)
      ranks th =
          run-rank fl th us before (run-Inv fl ts (start fl opens) (start-Inv fl opens)) joins

      stays : is_joining (run fl us before).main ≡ true
      stays = (ranks logger_thread).1

      done : (th : Thread) → rank fl th (run fl us before) ≤ 0
      done th = omega (arith, (ranks th).0, rank-small th before, fair th)
